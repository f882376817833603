-- ===== src/Media/Delete/Laws.antt =====
-- What a deletion did when it returned.
use media_service.Base.{ℕ, ◌≡◌, sym, ap, ◌∙◌, Option, none, some, List, Text, arith}
use media_service.Errors.{ok}
use media_service.World.Records.{Media, MediaAccessLog, Event}
use media_service.World.State.{World, Env, StoredObject}
use media_service.World.Monad.{pure, external, ◌>>◌}
use media_service.World.Keeps.{Keeps, IsStable, keeps_rules}
use media_service.World.Returns.{bind_ok}
use media_service.World.Events.{publish_event}
use media_service.Storage
use media_service.Quota.Service.Frame.{IsQuotaBlind, record_delete-Keeps}
use media_service.Media.Repository.{update_media, soft_delete, deactivated}
use media_service.Media.Read.{write_access_log}
use media_service.Media.Share.{find_owned}
use media_service.Media.Share.Laws.{IsOwned, find_owned_ok}
use media_service.Media.Delete.{deactivate, delete_thumbnail_object, release, announce_deletion}

-- `P` says nothing of the log, the events and the metric.
pub record IsLogBlind (P : World → Type 0) : Type 0 where
  pub stable : IsStable P
  pub access_logs : (w : World) (l : List MediaAccessLog) → P w → P (record w { access_logs = l })
  pub published : (w : World) (es : List Event) → P w → P (record w { published = es })
  pub deletes_total : (w : World) (n : ℕ) → P w → P (record w { deletes_total = n })

module _ {P : World → Type 0} (blind : IsLogBlind P) where
  open blind use {stable, access_logs, published, deletes_total}

  write_access_log-Keeps :
      (id : Text) (a : Option Text) (t : Text) (ip agent : Option Text)
      → Keeps P (write_access_log id a t ip agent)
  unfolding write_access_log
  write_access_log-Keeps id a t ip agent = search (keeps_rules, stable, access_logs) depth 9

  publish_event-Keeps : (e : Event) → Keeps P (publish_event e)
  unfolding publish_event
  publish_event-Keeps e = search (keeps_rules, stable, published)

  pub announce_deletion-Keeps :
      (r : Text) (m : Media) (ip agent : Option Text) → Keeps P (announce_deletion r m ip agent)
  unfolding announce_deletion
  announce_deletion-Keeps r m ip agent =
      search (keeps_rules, write_access_log-Keeps, publish_event-Keeps, deletes_total) depth 9

module _ {P : World → Type 0} (stable : IsStable P)
    (objects : (w : World) (o : Text → Option StoredObject)
      → P w
      → P (record w { objects = o })) where
  pub delete_object-Keeps : (p : Text) → Keeps P (Storage.delete p)
  unfolding Storage.delete
  delete_object-Keeps p = search (keeps_rules, stable, objects)

  pub delete_thumbnail_object-Keeps : (o : Option Text) → Keeps P (delete_thumbnail_object o)
  unfolding delete_thumbnail_object
  delete_thumbnail_object-Keeps none = search keeps_rules
  delete_thumbnail_object-Keeps (some p) = delete_object-Keeps p

-- The rows of `media` are written only by the transaction.
live-IsStable : (rows : List Media) → IsStable (λ v. v.media ≡ rows)
live-IsStable rows = record { counted = λ w h. h; rolled = λ w0 w h0 h. h0 }

media-IsQuotaBlind : (rows : List Media) → IsQuotaBlind (λ v. v.media ≡ rows)
media-IsQuotaBlind rows = record {
  stable = live-IsStable rows;
  quotas = λ w q h. h;
  quota_cache = λ w c h. h;
  cooldowns = λ w c h. h;
  published = λ w es h. h;
}

pub media-IsLogBlind : (rows : List Media) → IsLogBlind (λ v. v.media ≡ rows)
media-IsLogBlind rows = record {
  stable = live-IsStable rows;
  access_logs = λ w l h. h;
  published = λ w es h. h;
  deletes_total = λ w n h. h;
}

pub release-media :
    (id r : Text) (m : Media) (rows : List Media) → Keeps (λ v. v.media ≡ rows) (release id r m)
unfolding release
release-media id r m rows =
    let stable = live-IsStable rows in
    let blob = delete_object-Keeps stable (λ w o h. h) in
    let thumbnail = delete_thumbnail_object-Keeps stable (λ w o h. h) in
    let recorded = record_delete-Keeps (media-IsQuotaBlind rows) in
    search (keeps_rules, stable, blob, thumbnail, recorded) depth 12

soft_delete_ok :
    (id : Text) (env : Env) (w : World)
    → (soft_delete id env w).0 ≡ ok tt
    → ((soft_delete id env w).1.media ≡ update_media id deactivated w.media)
      × ((soft_delete id env w).1.quotas ≡ w.quotas)
unfolding soft_delete external
soft_delete_ok id env w h = (ground arith, ground arith)

-- The transaction of a deletion.
pub deactivate_ok :
    (id r : Text) (env : Env) (w : World) {m : Media}
    → (deactivate id r env w).0 ≡ ok m
    → IsOwned id r m w
      × ((deactivate id r env w).1.media ≡ update_media id deactivated w.media)
      × ((deactivate id r env w).1.quotas ≡ w.quotas)
unfolding deactivate pure
deactivate_ok id r env w {m} h =
    let (m', found, e) = bind_ok (find_owned id r) (λ x. soft_delete id >> pure x) env w h in
    let v = (find_owned id r env w).1 in
    let (owned, still) = find_owned_ok id r env w found in
    let (u, deleted, e') =
      bind_ok (soft_delete id) (λ x. pure m') env v (ap (λ x. x.0) (sym e) ∙ h) in
    let (media, quotas) = soft_delete_ok id env v deleted in
    let same : m' ≡ m = cc (ap (λ x. x.0) (sym e') ∙ ap (λ x. x.0) (sym e) ∙ h) in
    (
      record {
        live = owned.live ∙ ap some same;
        mine = ap (λ (x : Media). x.owner_id) (sym same) ∙ owned.mine;
      },
      ap (λ x. x.1.media) e
          ∙ ap (λ x. x.1.media) e'
          ∙ media
          ∙ ap (λ (x : World). update_media id deactivated x.media) still,
      ap (λ x. x.1.quotas) e
          ∙ ap (λ x. x.1.quotas) e'
          ∙ quotas
          ∙ ap (λ (x : World). x.quotas) still,
    )
