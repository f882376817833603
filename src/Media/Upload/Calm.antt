-- ===== src/Media/Upload/Calm.antt =====
-- The steps of an upload that change no entry of the registry and no deduplication entry.
use media_service.Base.{ℕ, ◌+◌, Option, none, some, List, [], ◌∷◌, Text, pos, is_some}
use media_service.World.Records.{Media, MediaContext, MulterFile, Event}
use media_service.World.State.{World}
use media_service.World.Monad.{pure, external, modify, ◌>>◌, fire_and_forget}
use media_service.World.Events.{publish_event}
use media_service.World.Keeps.{Keeps, keeps_rules}
use media_service.Storage
use media_service.Storage.{is_uuid, build_path}
use media_service.Quota.Rows.{JsNumber}
use media_service.Quota.Service.{record_upload}
use media_service.Quota.Service.Frame.{enforce_quota-Keeps, record_upload-Keeps}
use media_service.Media.Repository.{find_by_id, with_shared_with}
use media_service.Media.SignedUrl.{build_upload_response, generate_presigned_url, url_for}
use media_service.Media.Semaphore.{acquire_semaphore, release_semaphore}
use media_service.Media.Upload.{
  set_meta, meta_key, find_existing, store_thumbnail, delete_thumbnail, delete_blobs, admit,
}
use media_service.Media.Registry.Steps.{Calm, Calm-IsQuotaBlind, calm_rules}

module _ (v : World) where
  generate_presigned_url-Calm : (p : Text) (n : ℕ) → Keeps (Calm v) (generate_presigned_url p n)
  unfolding generate_presigned_url
  generate_presigned_url-Calm p n = search (keeps_rules, calm_rules)

  url_for-Calm : (o : Option Text) (n : ℕ) → Keeps (Calm v) (url_for o n)
  unfolding url_for
  url_for-Calm none n = search keeps_rules
  url_for-Calm (some []) n = search keeps_rules
  url_for-Calm (some (c ∷ p)) n = search (keeps_rules, generate_presigned_url-Calm)

  pub build_upload_response-Calm : (m : Media) → Keeps (Calm v) (build_upload_response m)
  unfolding build_upload_response
  build_upload_response-Calm m = search (keeps_rules, url_for-Calm) depth 9

  publish_event-Calm : (e : Event) → Keeps (Calm v) (publish_event e)
  unfolding publish_event
  publish_event-Calm e = search (keeps_rules, calm_rules)

  pub upload_object-Calm : (p t : Text) (n : ℕ) → Keeps (Calm v) (Storage.upload p t n)
  unfolding Storage.upload
  upload_object-Calm p t n = search (keeps_rules, calm_rules)

  delete_object-Calm : (p : Text) → Keeps (Calm v) (Storage.delete p)
  unfolding Storage.delete
  delete_object-Calm p = search (keeps_rules, calm_rules)

  pub store_thumbnail-Calm :
      (o id : Text) (f : Option MulterFile) → Keeps (Calm v) (store_thumbnail o id f)
  unfolding store_thumbnail
  store_thumbnail-Calm o id none = search keeps_rules
  store_thumbnail-Calm o id (some f) = search (keeps_rules, upload_object-Calm) depth 9

  delete_thumbnail-Calm : (o : Option Text) → Keeps (Calm v) (delete_thumbnail o)
  unfolding delete_thumbnail
  delete_thumbnail-Calm none = search keeps_rules
  delete_thumbnail-Calm (some p) = search (keeps_rules, delete_object-Calm)

  pub delete_blobs-Calm : (p : Text) (o : Option Text) → Keeps (Calm v) (delete_blobs p o)
  unfolding delete_blobs
  delete_blobs-Calm p o = search (keeps_rules, delete_object-Calm, delete_thumbnail-Calm)

  pub find_by_id-Calm : (id : Text) → Keeps (Calm v) (find_by_id id)
  unfolding find_by_id
  find_by_id-Calm id = search (keeps_rules, calm_rules)

  pub find_existing-Calm : (o : Option Text) → Keeps (Calm v) (find_existing o)
  unfolding find_existing
  find_existing-Calm none = search keeps_rules
  find_existing-Calm (some []) = search keeps_rules
  find_existing-Calm (some (c ∷ id)) = search (keeps_rules, calm_rules, find_by_id-Calm)

  pub admit-Calm : (o : Text) (f : MulterFile) (c : MediaContext) → Keeps (Calm v) (admit o f c)
  unfolding admit
  admit-Calm o f c =
      let enforced = enforce_quota-Keeps (Calm-IsQuotaBlind v) in
      search (keeps_rules, enforced) depth 9

  pub acquire_semaphore-Calm : (u : Text) → Keeps (Calm v) (acquire_semaphore u)
  unfolding acquire_semaphore
  acquire_semaphore-Calm u = search (keeps_rules, calm_rules) depth 12

  pub release_semaphore-Calm : (u : Text) → Keeps (Calm v) (release_semaphore u)
  unfolding release_semaphore
  release_semaphore-Calm u = search (keeps_rules, calm_rules) depth 12

  -- What follows the deduplication entry of a new media.
  pub booked-Calm :
      (m : Media)
      → Keeps (Calm v) (
          record_upload m.owner_id (JsNumber.integral (pos m.blob_size))
          >> (modify (λ w. record w { uploads_total = w.uploads_total + 1 })
              >> (fire_and_forget (
                    publish_event (
                      Event.media_uploaded m.id m.owner_id m.context m.content_type m.blob_size
                        (is_some m.thumbnail_path)))
                  >> build_upload_response m)))
  booked-Calm m =
      let recorded = record_upload-Keeps (Calm-IsQuotaBlind v) in
      search (keeps_rules, calm_rules, recorded, publish_event-Calm, build_upload_response-Calm)
        depth 12

  -- What follows the transaction of a hit.
  pub forgotten-Calm :
      (m : Media) (next : List Text)
      → Keeps (Calm v) (
          external (λ w. (tt, set_meta (meta_key m.id) none w))
          >> pure (with_shared_with (some next) m))
  forgotten-Calm m next = search (keeps_rules, calm_rules) depth 9
