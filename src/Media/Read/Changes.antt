-- ===== src/Media/Read/Changes.antt =====
-- A read changes no entry.
use media_service.Base.{◌∙◌, Option, none, some, Text, ℕ}
use media_service.World.Records.{Media, CachedMeta}
use media_service.World.State.{World, StoredObject}
use media_service.World.Keeps.{Keeps, keeps_rules, Keeps-external}
use media_service.Storage
use media_service.Media.Repository.{find_by_id, update_signed_url_expiry}
use media_service.Media.SignedUrl.{
  generate_presigned_url, get_or_generate_signed_url, reuse_or_renew,
}
use media_service.Media.Read.{
  found, readable, find_readable, from_cache, get_metadata, write_access_log, sign_readable,
  get_blob, thumbnail_url, get_thumbnail, stream_blob, thumbnail_stream, stream_thumbnail,
}
use media_service.Media.Registry.Listing.{update_url-listed}
use media_service.Media.Registry.Steps.{Calm, Calm-IsStable, calm_rules}

module _ (v : World) where
  found-Calm : (o : Option Media) → Keeps (Calm v) (found o)
  unfolding found
  found-Calm none = search keeps_rules
  found-Calm (some m) = search keeps_rules

  find_by_id-Calm : (id : Text) → Keeps (Calm v) (find_by_id id)
  unfolding find_by_id
  find_by_id-Calm id = search (keeps_rules, calm_rules)

  readable-Calm : (r : Text) (m : Media) → Keeps (Calm v) (readable r m)
  unfolding readable
  readable-Calm r m = search keeps_rules

  find_readable-Calm : (id r : Text) → Keeps (Calm v) (find_readable id r)
  unfolding find_readable
  find_readable-Calm id r =
      search (keeps_rules, calm_rules, find_by_id-Calm, found-Calm, readable-Calm) depth 9

  from_cache-Calm : (id r : Text) (o : Option CachedMeta) → Keeps (Calm v) (from_cache id r o)
  unfolding from_cache
  from_cache-Calm id r (some c) = search keeps_rules
  from_cache-Calm id r none = search (keeps_rules, calm_rules, find_readable-Calm) depth 9

  pub get_metadata-Calm : (id r : Text) → Keeps (Calm v) (get_metadata id r)
  unfolding get_metadata
  get_metadata-Calm id r = search (keeps_rules, calm_rules, from_cache-Calm) depth 9

  write_access_log-Calm :
      (id : Text) (a : Option Text) (t : Text) (ip agent : Option Text)
      → Keeps (Calm v) (write_access_log id a t ip agent)
  unfolding write_access_log
  write_access_log-Calm id a t ip agent = search (keeps_rules, calm_rules) depth 9

  present-Calm : (o : Option StoredObject) → Keeps (Calm v) (Storage.present o)
  unfolding Storage.present
  present-Calm none = search keeps_rules
  present-Calm (some o) = search keeps_rules

  download-Calm : (p : Text) → Keeps (Calm v) (Storage.download p)
  unfolding Storage.download
  download-Calm p = search (keeps_rules, calm_rules, present-Calm)

  generate_presigned_url-Calm : (p : Text) (n : ℕ) → Keeps (Calm v) (generate_presigned_url p n)
  unfolding generate_presigned_url
  generate_presigned_url-Calm p n = search (keeps_rules, calm_rules)

  update_signed_url_expiry-Calm :
      (id : Text) (t : ℕ) → Keeps (Calm v) (update_signed_url_expiry id t)
  unfolding update_signed_url_expiry
  update_signed_url_expiry-Calm id t =
      Keeps-external _ (Calm-IsStable v)
        (λ w c. record { entries = update_url-listed id t w.media ∙ c.entries; dedup = c.dedup })

  reuse_or_renew-Calm : (m : Media) (o : Option ℕ) → Keeps (Calm v) (reuse_or_renew m o)
  unfolding reuse_or_renew
  reuse_or_renew-Calm m none =
      search (keeps_rules, generate_presigned_url-Calm, update_signed_url_expiry-Calm) depth 12
  reuse_or_renew-Calm m (some t) = search (keeps_rules, generate_presigned_url-Calm) depth 9

  get_or_generate_signed_url-Calm : (m : Media) → Keeps (Calm v) (get_or_generate_signed_url m)
  unfolding get_or_generate_signed_url
  get_or_generate_signed_url-Calm m = search (keeps_rules, reuse_or_renew-Calm)

  sign_readable-Calm : (id r : Text) → Keeps (Calm v) (sign_readable id r)
  unfolding sign_readable
  sign_readable-Calm id r =
      search
        (keeps_rules, find_by_id-Calm, found-Calm, readable-Calm, get_or_generate_signed_url-Calm)
        depth 12

  module _ (id r : Text) (ip agent : Option Text) where
    pub get_blob-Calm : Keeps (Calm v) (get_blob id r ip agent)
    unfolding get_blob
    get_blob-Calm =
        search (keeps_rules, calm_rules, sign_readable-Calm, write_access_log-Calm) depth 12

    thumbnail_url-Calm : (o : Option Text) → Keeps (Calm v) (thumbnail_url id r ip agent o)
    unfolding thumbnail_url
    thumbnail_url-Calm none = search keeps_rules
    thumbnail_url-Calm (some p) =
        search (keeps_rules, calm_rules, generate_presigned_url-Calm, write_access_log-Calm) depth
          14

    thumbnail_stream-Calm : (o : Option Text) → Keeps (Calm v) (thumbnail_stream id r ip agent o)
    unfolding thumbnail_stream
    thumbnail_stream-Calm none = search keeps_rules
    thumbnail_stream-Calm (some p) =
        search (keeps_rules, calm_rules, download-Calm, write_access_log-Calm) depth 12

  module _ (id r : Text) (ip agent : Option Text) where
    pub get_thumbnail-Calm : Keeps (Calm v) (get_thumbnail id r ip agent)
    unfolding get_thumbnail
    get_thumbnail-Calm = search (keeps_rules, find_readable-Calm, thumbnail_url-Calm) depth 9

    pub stream_blob-Calm : Keeps (Calm v) (stream_blob id r ip agent)
    unfolding stream_blob
    stream_blob-Calm =
        search (keeps_rules, find_readable-Calm, download-Calm, write_access_log-Calm) depth 12

    pub stream_thumbnail-Calm : Keeps (Calm v) (stream_thumbnail id r ip agent)
    unfolding stream_thumbnail
    stream_thumbnail-Calm = search (keeps_rules, find_readable-Calm, thumbnail_stream-Calm) depth 9
