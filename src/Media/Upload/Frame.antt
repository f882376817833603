-- ===== src/Media/Upload/Frame.antt =====
-- The steps of an upload write nothing but what `IsBookBlind` and `IsMediaBlind` list.
use media_service.Base.{ℕ, Text, Option, List, [], ◌∷◌, none, some}
use media_service.World.Records.{MediaContext, MulterFile, Media, CachedMeta, Event}
use media_service.World.State.{World, StoredObject}
use media_service.World.Events.{publish_event}
use media_service.World.Keeps.{Keeps, IsStable, keeps_rules}
use media_service.Storage
use media_service.Quota.Service.Frame.{IsQuotaBlind, enforce_quota-Keeps, record_upload-Keeps}
use media_service.Media.Repository.{find_by_id, save, update_shared_with}
use media_service.Media.SignedUrl.{build_upload_response, generate_presigned_url, url_for}
use media_service.Media.Upload.{
  find_existing, widen, reuse, store_thumbnail, delete_thumbnail, delete_blobs, save_or_clean,
  after_save, store_new, reuse_or_store, place, admit, upload_operation,
}

-- `P` says nothing of the bookkeeping behind the write of the row.
pub record IsBookBlind (P : World → Type 0) : Type 0 where
  pub quota : IsQuotaBlind P
  pub dedup_cache : (w : World) (c : Text → Option Text) → P w → P (record w { dedup_cache = c })
  pub uploads_total : (w : World) (n : ℕ) → P w → P (record w { uploads_total = n })

-- `P` says nothing of what an upload writes, the semaphore apart.
pub record IsMediaBlind (P : World → Type 0) : Type 0 where
  pub book : IsBookBlind P
  pub media : (w : World) (ms : List Media) → P w → P (record w { media = ms })
  pub meta_cache :
      (w : World) (c : Text → Option CachedMeta) → P w → P (record w { meta_cache = c })
  pub objects : (w : World) (o : Text → Option StoredObject) → P w → P (record w { objects = o })

module _ {P : World → Type 0} (blind : IsBookBlind P) where
  open blind use {quota, dedup_cache, uploads_total}

  publish_event-Keeps : (e : Event) → Keeps P (publish_event e)
  unfolding publish_event
  publish_event-Keeps e = search (keeps_rules, quota.stable, quota.published)

  generate_presigned_url-Keeps : (p : Text) (n : ℕ) → Keeps P (generate_presigned_url p n)
  unfolding generate_presigned_url
  generate_presigned_url-Keeps p n = search (keeps_rules, quota.stable)

  url_for-Keeps : (o : Option Text) (n : ℕ) → Keeps P (url_for o n)
  unfolding url_for
  url_for-Keeps none n = search keeps_rules
  url_for-Keeps (some []) n = search keeps_rules
  url_for-Keeps (some (c ∷ p)) n = search (keeps_rules, generate_presigned_url-Keeps)

  pub build_upload_response-Keeps : (m : Media) → Keeps P (build_upload_response m)
  unfolding build_upload_response
  build_upload_response-Keeps m = search (keeps_rules, url_for-Keeps) depth 9

  pub after_save-Keeps : (m : Media) (key : Text) → Keeps P (after_save m key)
  unfolding after_save
  after_save-Keeps m key =
      let recorded = record_upload-Keeps quota in
      search
        (
          keeps_rules, quota.stable, dedup_cache, uploads_total, recorded, publish_event-Keeps,
          build_upload_response-Keeps,
        )
        depth 12

module _ {P : World → Type 0} (blind : IsMediaBlind P) where
  open blind use {book, media, meta_cache, objects}

  stable : IsStable P
  stable = book.quota.stable

  answered : (m : Media) → Keeps P (build_upload_response m)
  answered = build_upload_response-Keeps book

  find_by_id-Keeps : (id : Text) → Keeps P (find_by_id id)
  unfolding find_by_id
  find_by_id-Keeps id = search (keeps_rules, stable)

  save-Keeps : (m : Media) → Keeps P (save m)
  unfolding save
  save-Keeps m = search (keeps_rules, stable, media)

  update_shared_with-Keeps :
      (id : Text) (s : Option (List Text)) → Keeps P (update_shared_with id s)
  unfolding update_shared_with
  update_shared_with-Keeps id s = search (keeps_rules, stable, media)

  upload_object-Keeps : (p t : Text) (n : ℕ) → Keeps P (Storage.upload p t n)
  unfolding Storage.upload
  upload_object-Keeps p t n = search (keeps_rules, stable, objects)

  delete_object-Keeps : (p : Text) → Keeps P (Storage.delete p)
  unfolding Storage.delete
  delete_object-Keeps p = search (keeps_rules, stable, objects)

  find_existing-Keeps : (o : Option Text) → Keeps P (find_existing o)
  unfolding find_existing
  find_existing-Keeps none = search keeps_rules
  find_existing-Keeps (some []) = search keeps_rules
  find_existing-Keeps (some (c ∷ id)) = search (keeps_rules, stable, find_by_id-Keeps)

  widen-Keeps : (m : Media) (us : List Text) → Keeps P (widen m us)
  unfolding widen
  widen-Keeps m [] = search keeps_rules
  widen-Keeps m (u ∷ us) =
      search (keeps_rules, stable, meta_cache, update_shared_with-Keeps) depth 9

  reuse-Keeps : (m : Media) (s : Option (List Text)) → Keeps P (reuse m s)
  unfolding reuse
  reuse-Keeps m s = search (keeps_rules, widen-Keeps, answered)

  store_thumbnail-Keeps : (o id : Text) (f : Option MulterFile) → Keeps P (store_thumbnail o id f)
  unfolding store_thumbnail
  store_thumbnail-Keeps o id none = search keeps_rules
  store_thumbnail-Keeps o id (some f) = search (keeps_rules, upload_object-Keeps) depth 9

  delete_thumbnail-Keeps : (o : Option Text) → Keeps P (delete_thumbnail o)
  unfolding delete_thumbnail
  delete_thumbnail-Keeps none = search keeps_rules
  delete_thumbnail-Keeps (some p) = search (keeps_rules, delete_object-Keeps)

  delete_blobs-Keeps : (p : Text) (o : Option Text) → Keeps P (delete_blobs p o)
  unfolding delete_blobs
  delete_blobs-Keeps p o = search (keeps_rules, delete_object-Keeps, delete_thumbnail-Keeps)

  pub save_or_clean-Keeps : (m : Media) → Keeps P (save_or_clean m)
  unfolding save_or_clean
  save_or_clean-Keeps m = search (keeps_rules, stable, save-Keeps, delete_blobs-Keeps)

  module _ (owner : Text) (file : MulterFile) (c : MediaContext) (t : Option MulterFile)
      (s : Option (List Text)) where
    store_new-Keeps : (key : Text) → Keeps P (store_new owner file c t s key)
    unfolding store_new
    store_new-Keeps key =
        let booked = after_save-Keeps book in
        search
          (keeps_rules, upload_object-Keeps, store_thumbnail-Keeps, save_or_clean-Keeps, booked)
          depth 14

    reuse_or_store-Keeps :
        (key : Text) (o : Option Media) → Keeps P (reuse_or_store owner file c t s key o)
    unfolding reuse_or_store
    reuse_or_store-Keeps key (some m) = reuse-Keeps m s
    reuse_or_store-Keeps key none = store_new-Keeps key

    place-Keeps : Keeps P (place owner file c t s)
    unfolding place
    place-Keeps = search (keeps_rules, stable, find_existing-Keeps, reuse_or_store-Keeps) depth 12

    admit-Keeps : Keeps P (admit owner file c)
    unfolding admit
    admit-Keeps =
        let enforced = enforce_quota-Keeps book.quota in search (keeps_rules, enforced) depth 9

    pub upload_operation-Keeps : Keeps P (upload_operation owner file c t s)
    unfolding upload_operation
    upload_operation-Keeps = search (keeps_rules, admit-Keeps, place-Keeps)
