-- ===== src/Media/Upload.antt =====
-- `upload` of src/modules/media/media.service.ts, step by step: the checks, the deduplication, the
-- storing of the blobs, the row, and what follows it.
pub mod Frame
pub mod Checks
pub mod Calm
pub mod Hits
pub mod Entered
pub mod Changes
pub mod Semaphore
pub mod Stored
use media_service.Base.{
  ℕ, suc, ◌+◌, ◌*◌, Bool, true, false, not, Option, none, some, List, [], ◌∷◌, ◌++◌, Text, codes,
  text_eq, includes, ltb, length, ◌==◌, if◌then◌else◌, is_some, get_or_else, pos,
}
use media_service.Errors.{Error, TooLarge, Result, ok, err, throw_if}
use media_service.World.Records.{
  MediaContext, context_text, Media, MulterFile, CachedMeta, Event, UploadMediaResponseDto,
}
use media_service.World.State.{World, Env}
use media_service.World.Monad.{
  M, pure, throw, lift, ask, gets, external, modify, ◌>>=◌, ◌>>◌, attempt, fire_and_forget,
  on_error, transaction,
}
use media_service.World.Events.{publish_event}
use media_service.MagicBytes.{validate_magic_bytes}
use media_service.ContentSafety.{check_image_dimensions, check_pdf_java_script, check_clam_av}
use media_service.Storage
use media_service.Storage.{StorageContext, build_path}
use media_service.Quota.Rows.{JsNumber}
use media_service.Quota.Service.{enforce_quota, record_upload}
use media_service.Peers.{is_admin}
use media_service.Media.Limits.{
  thumbnail_max_bytes, thumbnail_allowed_mime, enforce_context_size_limit, enforce_mime_allowlist,
  context_to_storage_context, buffer_of,
}
use media_service.Media.Acl.{users_of, merge_acl, initial_acl}
use media_service.Media.Repository.{find_by_id, save, update_shared_with, with_shared_with}
use media_service.Media.Semaphore.{with_semaphore}
use media_service.Media.SignedUrl.{compute_expires_at, build_upload_response}

-- Any failure of the question to group-service is 503, any answer but yes is 403.
admin_verdict : Result Bool → Result (Unit {0})
admin_verdict (err e) = err Error.service_unavailable
admin_verdict (ok admin) = throw_if (not admin) Error.forbidden

-- `authorizeGroupIconUpload`
unfoldable pub authorize_group_icon_upload : Env → MediaContext → Text → Result (Unit {0})
unfolding admin_verdict
authorize_group_icon_upload env MediaContext.message owner = ok tt
authorize_group_icon_upload env MediaContext.avatar owner = ok tt
authorize_group_icon_upload env MediaContext.group_icon owner =
    admin_verdict (is_admin env.group_service_url env.group_answer owner)

-- The checks of the file itself, in the order of the source.
infixl 5 ◌andthen◌
abbrev pub ◌andthen◌ : Result (Unit {0}) → Result (Unit {0}) → Result (Unit {0})
ok u andthen r = r
err e andthen r = err e

unfoldable pub check_file : Env → MulterFile → MediaContext → Result (Unit {0})
check_file env file context =
    enforce_context_size_limit file.size context
    andthen validate_magic_bytes (buffer_of file) file.mimetype
    andthen enforce_mime_allowlist file.mimetype context
    andthen check_image_dimensions env.sharp (buffer_of file) file.mimetype
    andthen check_pdf_java_script (buffer_of file) file.mimetype
    andthen check_clam_av env.clamav_host env.clamd (buffer_of file)

-- The checks of a thumbnail.
unfoldable pub check_thumbnail : MulterFile → Result (Unit {0})
check_thumbnail file =
    validate_magic_bytes (buffer_of file) file.mimetype
    andthen throw_if (not (includes thumbnail_allowed_mime file.mimetype))
        Error.unsupported_media_type
    andthen throw_if (ltb thumbnail_max_bytes file.size)
        (Error.payload_too_large TooLarge.thumbnail_size)

unfoldable pub meta_key : Text → Text
meta_key id = codes "media:meta:" ++ id

abbrev pub set_meta : Text → Option CachedMeta → World → World
set_meta key entry w = record w {
  meta_cache = λ k. if text_eq k key then entry else w.meta_cache k;
}

unfoldable pub dedup_key : Text → MediaContext → Text → Text
unfolding context_text
dedup_key owner context sha256 =
    codes "dedup:blob:" ++ (owner ++ (codes ":" ++ (context_text context ++ (codes ":" ++ sha256))))

abbrev pub set_dedup : Text → Option Text → World → World
set_dedup key entry w = record w {
  dedup_cache = λ k. if text_eq k key then entry else w.dedup_cache k;
}

-- The live media that the deduplication entry names, if any; an empty id counts as none.
pub find_existing : Option Text → M (Option Media)
find_existing none = pure none
find_existing (some []) = pure none
find_existing (some (c ∷ id)) = transaction (find_by_id (c ∷ id))

-- A hit widens the access list by the users given, if that adds anyone.
widen : Media → List Text → M Media
widen existing [] = pure existing
widen existing (u ∷ us) =
    let next = merge_acl existing.owner_id existing.shared_with (u ∷ us) in
    if length next == length (users_of existing.shared_with) then pure existing else (do
      transaction (update_shared_with existing.id (some next))
      external (λ w. (tt, set_meta (meta_key existing.id) none w))
      pure (with_shared_with (some next) existing))

pub reuse : Media → Option (List Text) → M UploadMediaResponseDto
reuse existing shared_with = do
  media ← widen existing (users_of shared_with)
  build_upload_response media

-- The thumbnail is checked only here, behind the upload of the blob.
unfoldable pub store_thumbnail : Text → Text → Option MulterFile → M (Option Text)
store_thumbnail owner id none = pure none
store_thumbnail owner id (some file) = do
  lift (check_thumbnail file)
  path ← lift (build_path StorageContext.thumbnails owner id)
  Storage.upload path file.mimetype file.size
  pure (some path)

abbrev pub expiry_for : MediaContext → Env → Option ℕ
expiry_for MediaContext.message env = some (compute_expires_at env)
expiry_for MediaContext.avatar env = none
expiry_for MediaContext.group_icon env = none

-- The row of a new media.
unfoldable pub new_media :
    Env → Text → Text → MediaContext → MulterFile → Text → Option Text → Option (List Text) → Media
new_media env id owner context file path thumbnail shared_with = record {
  id = id;
  owner_id = owner;
  context = context;
  storage_path = path;
  thumbnail_path = thumbnail;
  content_type = file.mimetype;
  blob_size = file.size;
  expires_at = expiry_for context env;
  signed_url_expires_at = none;
  is_active = true;
  shared_with = initial_acl owner shared_with;
  created_at = env.now;
}

delete_thumbnail : Option Text → M (Unit {0})
delete_thumbnail none = pure tt
delete_thumbnail (some path) = do attempt (Storage.delete path); pure tt

-- The objects that an aborted upload leaves are deleted; a failure is logged.
pub delete_blobs : Text → Option Text → M (Unit {0})
delete_blobs path thumbnail = do attempt (Storage.delete path); delete_thumbnail thumbnail

-- The row is written; where that fails the objects go, and the error goes on.
unfoldable pub save_or_clean : Media → M (Unit {0})
unfolding delete_blobs delete_thumbnail
save_or_clean media =
    on_error (transaction (save media)) (delete_blobs media.storage_path media.thumbnail_path)

-- What follows the write of the row.
unfoldable pub after_save : Media → Text → M UploadMediaResponseDto
after_save media key = do
  external (λ w. (tt, set_dedup key (some media.id) w))
  record_upload media.owner_id (JsNumber.integral (pos media.blob_size))
  modify (λ w. record w { uploads_total = w.uploads_total + 1 })
  fire_and_forget (
      publish_event (
        Event.media_uploaded media.id media.owner_id media.context media.content_type
          media.blob_size (is_some media.thumbnail_path)))
  build_upload_response media

-- A new media: its objects, its row, its bookkeeping.
unfoldable pub store_new :
    Text
    → MulterFile
    → MediaContext
    → Option MulterFile
    → Option (List Text)
    → Text
    → M UploadMediaResponseDto
store_new owner file context thumbnail shared_with key = do
  env ← ask (λ e. e)
  path ← lift (build_path (context_to_storage_context context) owner env.random_uuid)
  Storage.upload path file.mimetype file.size
  thumbnail_path ← store_thumbnail owner env.random_uuid thumbnail
  let media = new_media env env.random_uuid owner context file path thumbnail_path shared_with
  save_or_clean media
  after_save media key

reuse_or_store :
    Text
    → MulterFile
    → MediaContext
    → Option MulterFile
    → Option (List Text)
    → Text
    → Option Media
    → M UploadMediaResponseDto
reuse_or_store owner file context thumbnail shared_with key (some existing) =
    reuse existing shared_with
reuse_or_store owner file context thumbnail shared_with key none =
    store_new owner file context thumbnail shared_with key

-- Behind the checks: the deduplication, by owner, context and hash of the bytes.
unfoldable pub place :
    Text
    → MulterFile
    → MediaContext
    → Option MulterFile
    → Option (List Text)
    → M UploadMediaResponseDto
unfolding find_existing reuse_or_store reuse widen
place owner file context thumbnail shared_with = do
  env ← ask (λ e. e)
  let key = dedup_key owner context (env.sha256 (buffer_of file))
  existing_id ← external (λ w. (w.dedup_cache key, w))
  existing ← find_existing existing_id
  reuse_or_store owner file context thumbnail shared_with key existing

-- The checks of the request, in order.
unfoldable pub admit : Text → MulterFile → MediaContext → M (Unit {0})
admit owner file context = do
  env ← ask (λ e. e)
  lift (authorize_group_icon_upload env context owner)
  enforce_quota owner (JsNumber.integral (pos file.size))
  lift (check_file env file context)

-- The operation that the semaphore guards.
unfoldable pub upload_operation :
    Text
    → MulterFile
    → MediaContext
    → Option MulterFile
    → Option (List Text)
    → M UploadMediaResponseDto
upload_operation owner file context thumbnail shared_with = do
  admit owner file context
  place owner file context thumbnail shared_with

-- `upload`
unfoldable pub upload :
    Text
    → MulterFile
    → MediaContext
    → Option MulterFile
    → Option (List Text)
    → M UploadMediaResponseDto
upload owner file context thumbnail shared_with =
    with_semaphore owner (upload_operation owner file context thumbnail shared_with)
