-- ===== src/Media/SignedUrl.antt =====
-- Presigned URLs: `generatePresignedUrl`, `getOrGenerateSignedUrl`, `computeExpiresAt` and
-- `buildUploadResponse` of src/modules/media/media.service.ts. Times are in milliseconds.
use media_service.Base.{
  ℕ, ◌+◌, ◌-◌, ◌*◌, ◌/◌, max, Option, none, some, Text, [], ◌∷◌, ltb, if◌then◌else◌,
}
use media_service.World.Records.{Media, SignedUrl, UploadMediaResponseDto}
use media_service.World.State.{Env}
use media_service.World.Monad.{M, pure, ask, external, ◌>>=◌, ◌>>◌}
use media_service.Media.Repository.{update_signed_url_expiry}

-- The signer's text is a function of the key and the life time, which stand for it.
unfoldable pub generate_presigned_url : Text → ℕ → M SignedUrl
generate_presigned_url path expires_in =
    external (λ w. (record { key = path; expires_in = expires_in }, w))

-- The stored expiry, where it is still to come.
unfoldable pub valid_expiry : Option ℕ → ℕ → Option ℕ
valid_expiry none now = none
valid_expiry (some t) now = if ltb now t then some t else none

-- `Math.max(1, Math.floor((t - now) / 1000))` for a `t` after `now`
abbrev pub remaining_seconds : ℕ → ℕ → ℕ
remaining_seconds t now = max 1 ((t - now) / 1000)

unfoldable pub reuse_or_renew : Media → Option ℕ → M (SignedUrl × ℕ)
reuse_or_renew media (some t) = do
  now ← ask (λ env. env.now)
  url ← generate_presigned_url media.storage_path (remaining_seconds t now)
  pure (url, t)
reuse_or_renew media none = do
  now ← ask (λ env. env.now)
  seconds ← ask (λ env. env.signed_url_expiry_seconds)
  url ← generate_presigned_url media.storage_path seconds
  update_signed_url_expiry media.id (now + seconds * 1000)
  pure (url, now + seconds * 1000)

-- `getOrGenerateSignedUrl`
unfoldable pub get_or_generate_signed_url : Media → M (SignedUrl × ℕ)
unfolding reuse_or_renew
get_or_generate_signed_url media = do
  now ← ask (λ env. env.now)
  reuse_or_renew media (valid_expiry media.signed_url_expires_at now)

-- `computeExpiresAt`
unfoldable pub compute_expires_at : Env → ℕ
compute_expires_at env = env.now + env.message_blob_ttl_days * 24 * 60 * 60 * 1000

-- A URL for a path that is there; an empty path counts as none.
unfoldable pub url_for : Option Text → ℕ → M (Option SignedUrl)
url_for none seconds = pure none
url_for (some []) seconds = pure none
url_for (some (c ∷ path)) seconds = do
  url ← generate_presigned_url (c ∷ path) seconds
  pure (some url)

-- `buildUploadResponse`
unfoldable pub build_upload_response : Media → M UploadMediaResponseDto
unfolding url_for
build_upload_response media = do
  seconds ← ask (λ env. env.signed_url_expiry_seconds)
  url ← url_for (some media.storage_path) seconds
  thumbnail_url ← url_for media.thumbnail_path seconds
  now ← ask (λ env. env.now)
  pure (record {
    media_id = media.id;
    url = url;
    thumbnail_url = thumbnail_url;
    expires_at = now + seconds * 1000;
    context = media.context;
    size = media.blob_size;
  })
