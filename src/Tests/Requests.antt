-- ===== src/Tests/Requests.antt =====
-- Whole requests: the runs return, and the theorems say what they did.
use media_service.Base.{pos, ◌≡◌, ◌⊎◌, ◌<◌, ◌≤◌, refl, none, some, [], ◌∷◌, codes}
use media_service.Errors.{Error, err}
use media_service.World.Records.{MediaContext, Media, CachedMeta}
use media_service.Media.Semaphore.{acquire_semaphore}
use media_service.Media.Semaphore.Laws.{slots}
use media_service.Media.Upload.{upload, upload_operation}
use media_service.Media.Upload.Checks.{IsAdmitted, upload-IsAdmitted}
use media_service.Media.Upload.Semaphore.{upload_restores_semaphore}
use media_service.Media.Read.{get_blob, get_metadata}
use media_service.Media.Read.Laws.{Describes, IsAuthorised, reads-IsAuthorised, get_metadata_ok}
use media_service.Media.Share.{share}
use media_service.Media.Share.Laws.{IsOwned, IsShared, share_ok}
use media_service.Media.Delete.{delete}
use media_service.Media.Delete.Released.{IsReleased, delete_ok}
use media_service.Base.{
  text_eq, includes, to_decimal, from_decimal, trim, split_head, to_lower_case,
}
use media_service.World.Monad.{
  ◌>>=◌, pure, throw, lift, ask, external, modify, attempt, fire_and_forget, transaction,
  transaction_body, finally_do, on_error,
}
use media_service.World.Events.{publish_event}
use media_service.Storage
use media_service.Storage.{is_uuid, build_path}
use media_service.MagicBytes.{validate_magic_bytes}
use media_service.ContentSafety.{check_image_dimensions, check_pdf_java_script, check_clam_av}
use media_service.Quota.Rows.{
  validate_blob_size, affected, update_quota, find_quota, check_limits, serialise, rehydrate,
}
use media_service.Quota.Service.{
  invalidate_cache, record_delete, record_upload, cache_key, get_or_create_quota, check_quota,
  enforce_quota, check_and_publish_quota_alert, load_quota,
}
use media_service.Media.Access.{enforce_read_access, MayRead}
use media_service.Media.Acl.{set_add, set_of_from, add_guests, merge_acl, initial_acl}
use media_service.Media.Repository.{
  find_live, find_by_id, update_media, save_media, save, update_signed_url_expiry, soft_delete,
  update_shared_with,
}
use media_service.Media.SignedUrl.{
  generate_presigned_url, valid_expiry, get_or_generate_signed_url, url_for, build_upload_response,
  compute_expires_at,
}
use media_service.Media.Semaphore.{semaphore_key, release_semaphore, with_semaphore}
use media_service.Media.Limits.{
  context_mime_allowlist, enforce_context_size_limit, enforce_mime_allowlist,
}
use media_service.Media.Upload.{
  check_file, meta_key, dedup_key, place, admit, store_new, store_thumbnail, save_or_clean,
  after_save, new_media, authorize_group_icon_upload,
}
use media_service.Media.Read.{
  found, readable, find_readable, metadata_of, from_cache, sign_readable, write_access_log,
}
use media_service.Media.Share.{owned, find_owned, extend_acl, share_body, forget_meta}
use media_service.Media.Delete.{deactivate, delete_thumbnail_object, release, announce_deletion}
use media_service.Media.Upload.Stored.{IsStored, store_new_ok}
use media_service.Tests.Data.{alice, bob, photo_id, photo, calm, start, png_file}

delete_ok_example : IsReleased photo_id alice start (delete photo_id alice none none calm start).1
unfolding delete deactivate find_owned find_by_id found find_live owned soft_delete release
    Storage.delete delete_thumbnail_object record_delete validate_blob_size affected
    invalidate_cache announce_deletion write_access_log publish_event update_media meta_key
    update_quota cache_key ◌>>=◌ ask attempt external fire_and_forget lift modify pure throw
    transaction transaction_body text_eq
delete_ok_example = delete_ok photo_id alice none none calm start refl

share_ok_example :
    (m : Media) × IsOwned photo_id alice m start
    × IsShared photo_id
        (alice ∷ codes "carol" ∷ [])
        m
        (bob ∷ codes "carol" ∷ [])
        start.media
        (share photo_id alice (alice ∷ codes "carol" ∷ []) calm start).1.media
unfolding share share_body find_owned find_by_id found find_live owned extend_acl merge_acl
    add_guests set_add set_of_from update_shared_with forget_meta update_media meta_key includes
    text_eq ◌>>=◌ external lift pure throw transaction transaction_body
share_ok_example = share_ok photo_id alice (alice ∷ codes "carol" ∷ []) calm start refl

reads-IsAuthorised_example : IsAuthorised photo_id bob start
unfolding get_blob sign_readable find_by_id found find_live readable enforce_read_access
    get_or_generate_signed_url valid_expiry generate_presigned_url update_signed_url_expiry
    update_media write_access_log includes text_eq ◌>>=◌ ask external lift pure throw modify
    fire_and_forget transaction transaction_body
reads-IsAuthorised_example = (reads-IsAuthorised photo_id bob none none calm start).0 _ refl

get_metadata_ok_example :
    ((c : CachedMeta) × (start.meta_cache (meta_key photo_id) ≡ some c)
      × (c.dto ≡ metadata_of photo)
      × MayRead c.dto.context c.dto.owner_id c.shared_with bob)
    ⊎ ((start.meta_cache (meta_key photo_id) ≡ none)
        × ((a : IsAuthorised photo_id bob start) × Describes (metadata_of photo) a.media))
unfolding get_metadata from_cache find_readable find_by_id found find_live readable
    enforce_read_access metadata_of meta_key includes text_eq ◌>>=◌ ask external lift pure throw
    transaction transaction_body
get_metadata_ok_example = get_metadata_ok photo_id bob calm start refl

upload-IsAdmitted_example :
    IsAdmitted calm alice png_file MediaContext.message (acquire_semaphore alice calm start).1
unfolding upload upload_operation with_semaphore acquire_semaphore release_semaphore semaphore_key
    finally_do admit authorize_group_icon_upload enforce_quota check_quota get_or_create_quota
    cache_key serialise rehydrate find_quota check_limits validate_blob_size check_file
    enforce_context_size_limit enforce_mime_allowlist context_mime_allowlist validate_magic_bytes
    check_image_dimensions check_pdf_java_script check_clam_av place dedup_key store_new
    store_thumbnail save_or_clean after_save new_media initial_acl compute_expires_at save
    save_media on_error build_path is_uuid Storage.upload record_upload affected update_quota
    invalidate_cache check_and_publish_quota_alert load_quota publish_event build_upload_response
    url_for generate_presigned_url includes text_eq trim split_head to_lower_case to_decimal
    from_decimal ◌>>=◌ ask attempt external fire_and_forget lift modify pure throw transaction
    transaction_body
upload-IsAdmitted_example =
    upload-IsAdmitted alice png_file MediaContext.message none none calm start refl

upload_restores_semaphore_example :
    let m = upload alice png_file MediaContext.message none none in
    ((m calm start).0 ≡ err Error.fault)
    ⊎ (((m calm start).0 ≡ err Error.too_many_requests)
        × (3 ≤ 0)
        × (slots alice (m calm start).1 ≡ pos 0))
    ⊎ ((0 < 3)
        × (slots alice (m calm start).1 ≡ pos 0)
        × ((m calm start).0
            ≡ (upload_operation alice png_file MediaContext.message none none calm
                (acquire_semaphore alice calm start).1).0))
upload_restores_semaphore_example =
    upload_restores_semaphore alice png_file MediaContext.message none none calm start 0 refl

store_new_ok_example :
    IsStored calm alice png_file MediaContext.message none
      (store_new alice png_file MediaContext.message none none (codes "k") calm start).1
unfolding enforce_quota check_quota get_or_create_quota cache_key serialise rehydrate find_quota
    validate_blob_size store_new store_thumbnail save_or_clean after_save new_media initial_acl
    compute_expires_at save save_media on_error build_path is_uuid Storage.upload record_upload
    affected update_quota invalidate_cache check_and_publish_quota_alert load_quota publish_event
    build_upload_response url_for generate_presigned_url includes text_eq to_decimal from_decimal
    ◌>>=◌ ask attempt external fire_and_forget lift modify pure throw transaction transaction_body
store_new_ok_example =
    store_new_ok alice png_file MediaContext.message none none (codes "k") calm start refl
