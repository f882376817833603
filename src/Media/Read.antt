-- ===== src/Media/Read.antt =====
-- The reads of a media: `getMetadata`, `getBlob`, `getThumbnail`, `streamBlob`, `streamThumbnail`
-- and `writeAccessLog` of src/modules/media/media.service.ts.
pub mod Laws
pub mod Changes
use media_service.Base.{
  ℕ, ◌+◌, ◌*◌, Bool, true, false, Option, none, some, List, [], ◌∷◌, ◌++◌, Text, codes, take,
  is_some, map_some,
}
use media_service.Errors.{Error, Result, ok, err}
use media_service.World.Records.{
  Media, MediaMetadataDto, CachedMeta, MediaAccessLog, UrlResponse, SignedUrl,
}
use media_service.World.State.{World, Env, StoredObject}
use media_service.World.Monad.{
  M, pure, throw, lift, ask, gets, external, modify, ◌>>=◌, ◌>>◌, fire_and_forget, transaction,
}
use media_service.Storage
use media_service.Media.Access.{enforce_read_access}
use media_service.Media.Repository.{find_by_id}
use media_service.Media.SignedUrl.{generate_presigned_url, get_or_generate_signed_url}
use media_service.Media.Upload.{meta_key, set_meta}

-- `if (!media) throw new NotFoundException(…)`
unfoldable pub found : Option Media → M Media
found none = throw Error.not_found
found (some m) = pure m

-- `enforceReadAccess` on the row
unfoldable pub readable : Text → Media → M Media
readable requester m = do
  lift (enforce_read_access m.context m.owner_id m.shared_with requester)
  pure m

-- The row that a read starts from: looked up in a transaction of its own, and authorised.
unfoldable pub find_readable : Text → Text → M Media
find_readable id requester = do
  row ← transaction (find_by_id id)
  media ← found row
  readable requester media

-- The DTO of a row.
unfoldable pub metadata_of : Media → MediaMetadataDto
metadata_of m = record {
  id = m.id;
  owner_id = m.owner_id;
  context = m.context;
  content_type = m.content_type;
  blob_size = m.blob_size;
  expires_at = m.expires_at;
  is_active = m.is_active;
  created_at = m.created_at;
  has_thumbnail = is_some m.thumbnail_path;
}

abbrev pub cached_of : Media → CachedMeta
cached_of m = record { dto = metadata_of m; shared_with = m.shared_with }

-- A hit is authorised by the cached list, a miss by the row, which is then cached.
unfoldable pub from_cache : Text → Text → Option CachedMeta → M MediaMetadataDto
from_cache id requester (some c) = do
  lift (enforce_read_access c.dto.context c.dto.owner_id c.shared_with requester)
  pure c.dto
from_cache id requester none = do
  media ← find_readable id requester
  external (λ w. (tt, set_meta (meta_key id) (some (cached_of media)) w))
  pure (metadata_of media)

-- `getMetadata`
unfoldable pub get_metadata : Text → Text → M MediaMetadataDto
get_metadata id requester = do
  cached ← external (λ w. (w.meta_cache (meta_key id), w))
  from_cache id requester cached

-- `writeAccessLog`; the user agent is cut to 512 code units.
unfoldable pub write_access_log :
    Text → Option Text → Text → Option Text → Option Text → M (Unit {0})
write_access_log media_id accessor access_type ip agent = do
  now ← ask (λ env. env.now)
  let log : MediaAccessLog = record {
    media_id = media_id;
    accessor_id = accessor;
    access_type = access_type;
    ip_address = ip;
    user_agent = map_some (take 512) agent;
    accessed_at = now;
  }
  external (λ w. (tt, record w { access_logs = w.access_logs ++ log ∷ [] }))

count_download : M (Unit {0})
count_download = modify (λ w. record w { downloads_total = w.downloads_total + 1 })

-- The body of the transaction of `getBlob`.
unfoldable pub sign_readable : Text → Text → M (Media × SignedUrl × ℕ)
sign_readable id requester = do
  row ← find_by_id id
  media ← found row
  readable requester media
  (url, expires_at) ← get_or_generate_signed_url media
  pure (media, url, expires_at)

-- `getBlob`
unfoldable pub get_blob : Text → Text → Option Text → Option Text → M UrlResponse
unfolding count_download
get_blob id requester ip agent = do
  (media, url, expires_at) ← transaction (sign_readable id requester)
  fire_and_forget (write_access_log media.id (some requester) (codes "blob") ip agent)
  count_download
  pure (record { url = some url; expires_at = some expires_at })

-- A path that is there; an empty one counts as none.
abbrev pub path_of : Option Text → Option Text
path_of none = none
path_of (some []) = none
path_of (some (c ∷ path)) = some (c ∷ path)

unfoldable pub thumbnail_url : Text → Text → Option Text → Option Text → Option Text → M UrlResponse
unfolding count_download
thumbnail_url media_id requester ip agent none = pure (record { url = none; expires_at = none })
thumbnail_url media_id requester ip agent (some path) = do
  seconds ← ask (λ env. env.signed_url_expiry_seconds)
  url ← generate_presigned_url path seconds
  now ← ask (λ env. env.now)
  fire_and_forget (write_access_log media_id (some requester) (codes "thumbnail") ip agent)
  count_download
  pure (record { url = some url; expires_at = some (now + seconds * 1000) })

-- `getThumbnail`
unfoldable pub get_thumbnail : Text → Text → Option Text → Option Text → M UrlResponse
get_thumbnail id requester ip agent = do
  media ← find_readable id requester
  thumbnail_url media.id requester ip agent (path_of media.thumbnail_path)

-- `StreamableFile`: the body, and the headers that are set for it.
pub record StreamableFile : Type 0 where
  pub body : StoredObject
  pub content_type : Text
  pub content_length : Option ℕ

-- `streamBlob`
unfoldable pub stream_blob : Text → Text → Option Text → Option Text → M StreamableFile
stream_blob id requester ip agent = do
  media ← find_readable id requester
  body ← Storage.download media.storage_path
  fire_and_forget (write_access_log media.id (some requester) (codes "blob") ip agent)
  pure (record {
    body = body;
    content_type = media.content_type;
    content_length = some media.blob_size;
  })

unfoldable pub thumbnail_stream :
    Text → Text → Option Text → Option Text → Option Text → M (Option StreamableFile)
thumbnail_stream media_id requester ip agent none = pure none
thumbnail_stream media_id requester ip agent (some path) = do
  body ← Storage.download path
  fire_and_forget (write_access_log media_id (some requester) (codes "thumbnail") ip agent)
  pure (some (record { body = body; content_type = codes "image/*"; content_length = none }))

-- `streamThumbnail`
unfoldable pub stream_thumbnail :
    Text → Text → Option Text → Option Text → M (Option StreamableFile)
stream_thumbnail id requester ip agent = do
  media ← find_readable id requester
  thumbnail_stream media.id requester ip agent (path_of media.thumbnail_path)
