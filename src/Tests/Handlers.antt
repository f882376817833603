-- ===== src/Tests/Handlers.antt =====
-- The handlers and the start-up, applied.
use media_service.Base.{◌≡◌, ◌≤◌, refl, none, some, [], ◌∷◌, codes}
use media_service.Media.Semaphore.{acquire_semaphore}
use media_service.Media.Upload.{upload, upload_operation}
use media_service.Base.{
  text_eq, includes, to_decimal, from_decimal, trim, split_head, to_lower_case,
}
use media_service.World.Monad.{
  ◌>>=◌, pure, throw, lift, ask, external, modify, attempt, fire_and_forget, transaction,
  transaction_body, finally_do, on_error,
}
use media_service.World.Events.{publish_event}
use media_service.Storage
use media_service.Storage.{is_uuid, build_path}
use media_service.MagicBytes.{validate_magic_bytes}
use media_service.ContentSafety.{check_image_dimensions, check_pdf_java_script, check_clam_av}
use media_service.Quota.Rows.{
  validate_blob_size, affected, update_quota, find_quota, check_limits, serialise, rehydrate,
}
use media_service.Quota.Service.{
  invalidate_cache, record_upload, cache_key, get_or_create_quota, check_quota, enforce_quota,
  check_and_publish_quota_alert, load_quota,
}
use media_service.Media.Acl.{initial_acl}
use media_service.Media.Repository.{save_media, save}
use media_service.Media.SignedUrl.{
  generate_presigned_url, url_for, build_upload_response, compute_expires_at,
}
use media_service.Media.Semaphore.{semaphore_key, release_semaphore, with_semaphore}
use media_service.Media.Limits.{
  context_mime_allowlist, enforce_context_size_limit, enforce_mime_allowlist,
}
use media_service.Media.Upload.{
  check_file, dedup_key, place, admit, store_new, store_thumbnail, save_or_clean, after_save,
  new_media, authorize_group_icon_upload,
}
use media_service.Lifecycle.{
  LifecycleRule, GetAnswer, is_foreign, message_rule, new_rules, ensure_lifecycle_policies,
}
use media_service.Lifecycle.Laws.{rules_to_put_settles}
use media_service.Base.{filter, Text, length}
use media_service.Peers.{is_conversation_e2ee, fetch_e2ee_status, e2ee_key}
use media_service.Controller.{
  Header, Request, UploadMediaDto, required, owner_for, check_conversation, check_e2ee,
  enforce_e2ee_content_type, post_upload, extract_client_ip, page_number, page_limit,
}
use media_service.Controller.Laws.{IsAccepted, post_upload_ok, request_bounds}
use media_service.Tests.Data.{alice, calm, start, png_file}

abbrev pub request : Request
request = record {
  user_id = some alice;
  conversation_header = some (codes "c1");
  forwarded_for = Header.single (codes "10.0.0.1, 10.0.0.2");
  remote_address = none;
  user_agent = none;
}

abbrev upload_dto : UploadMediaDto
upload_dto = record {
  context = none;
  owner_id = some alice;
  conversation_id = none;
  shared_with = none;
}

post_upload_ok_example : IsAccepted request upload_dto (some png_file) calm start
unfolding post_upload required owner_for check_conversation check_e2ee enforce_e2ee_content_type
    is_conversation_e2ee fetch_e2ee_status e2ee_key upload upload_operation with_semaphore
    acquire_semaphore release_semaphore semaphore_key finally_do admit authorize_group_icon_upload
    enforce_quota check_quota get_or_create_quota cache_key serialise rehydrate find_quota
    check_limits validate_blob_size check_file enforce_context_size_limit enforce_mime_allowlist
    context_mime_allowlist validate_magic_bytes check_image_dimensions check_pdf_java_script
    check_clam_av place dedup_key store_new store_thumbnail save_or_clean after_save new_media
    initial_acl compute_expires_at save save_media on_error build_path is_uuid Storage.upload
    record_upload affected update_quota invalidate_cache check_and_publish_quota_alert load_quota
    publish_event build_upload_response url_for generate_presigned_url includes text_eq trim
    split_head to_lower_case to_decimal from_decimal ◌>>=◌ ask attempt external fire_and_forget lift
    modify pure throw transaction transaction_body
post_upload_ok_example = post_upload_ok request (some png_file) none upload_dto calm start refl

request_bounds_example :
    ((address : Text) → extract_client_ip request ≡ some address → length address ≤ 45)
    × (1 ≤ page_number (some (codes "-3")))
    × (1 ≤ page_limit (some (codes "5000")))
    × (page_limit (some (codes "5000")) ≤ 100)
request_bounds_example = request_bounds request (some (codes "-3")) (some (codes "5000"))

abbrev backup_rule : LifecycleRule
backup_rule = record {
  id = none;
  status = codes "Enabled";
  prefix = codes "backup/";
  days = some 7;
}

rules_to_put_settles_example :
    let sent = new_rules 30 30 (backup_rule ∷ message_rule 10 ∷ []) in
    (filter is_foreign sent ≡ filter is_foreign (backup_rule ∷ message_rule 10 ∷ []))
    × (ensure_lifecycle_policies 30 30 (GetAnswer.configured (some sent)) ≡ none)
rules_to_put_settles_example = rules_to_put_settles 30 30 (backup_rule ∷ message_rule 10 ∷ [])
