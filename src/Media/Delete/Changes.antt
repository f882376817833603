-- ===== src/Media/Delete/Changes.antt =====
-- A deletion, whether it returns or throws, is a step of the registry by the caller.
use media_service.Base.{◌≡◌, refl, ap, ◌∙◌, inl, inr, Option, map, Text}
use media_service.World.Records.{Media}
use media_service.World.State.{World, Env}
use media_service.World.Monad.{◌>>◌, transaction}
use media_service.World.Keeps.{Keeps, keeps_rules, IsStable}
use media_service.World.Returns.{transaction_ok, transaction_err, begun}
use media_service.Quota.Service.Frame.{record_delete-Keeps}
use media_service.Media.Repository.{soft_delete, deactivated}
use media_service.Media.Share.Changes.{find_owned-Keeps, IsOwned-entry}
use media_service.Media.Delete.{deactivate, release, announce_deletion, delete}
use media_service.Media.Delete.Laws.{
  IsLogBlind, announce_deletion-Keeps, delete_object-Keeps, delete_thumbnail_object-Keeps,
  deactivate_ok,
}
use media_service.Media.Registry.{without_url}
use media_service.Media.Registry.Listing.{update_media-listed}
use media_service.Media.Registry.Changes.{Change}
use media_service.Media.Registry.Steps.{
  Calm, calm_rules, Calm-IsStable, Calm-IsQuotaBlind, Calm-access_logs, Calm-published,
  Calm-deletes_total, Calm-objects, Step, Calm-Step, Step-Keeps, Result-cases, bind_cases,
}

Calm-IsLogBlind : (w : World) → IsLogBlind (Calm w)
Calm-IsLogBlind w = record {
  stable = Calm-IsStable w;
  access_logs = λ v x c. Calm-access_logs w v c x;
  published = λ v x c. Calm-published w v c x;
  deletes_total = λ v x c. Calm-deletes_total w v c x;
}

deactivate-Keeps :
    (d : Text → Option Text) (id r : Text)
    → Keeps (λ v. v.dedup_cache ≡ d) (transaction (deactivate id r))
unfolding deactivate soft_delete
deactivate-Keeps d id r =
    let stable : IsStable (λ v. v.dedup_cache ≡ d) = record {
      counted = λ w h. h;
      rolled = λ w0 w h0 h. h;
    } in
    let owned = find_owned-Keeps d in search (keeps_rules, stable, owned) depth 9

deactivate-Step :
    (id r : Text) (env : Env) (w : World) → Step r w (transaction (deactivate id r) env w).1
deactivate-Step id r env w =
    let body = deactivate id r in
    let v = (transaction body env w).1 in
    let dedup = (deactivate-Keeps w.dedup_cache id r).at env w refl in
    elim (Result-cases (transaction body env w).0) [
      | inl (m, e) ↦
          let (done, kept) = transaction_ok body env w m e in
          let (owned, media, quotas) = deactivate_ok id r env (begun w) done in
          record {
            change =
                Change.removed id (without_url m)
                  (IsOwned-entry id r m w (record { live = owned.live; mine = owned.mine }))
                  owned.mine
                  (ap (λ (x : World). map without_url x.media) kept
                    ∙ ap (map without_url) media
                    ∙ update_media-listed id deactivated w.media (λ x. refl));
            dedup = λ k. inl (ap (λ f. f k) dedup);
          }
      | inr (x, e) ↦
          let (media, quotas) = transaction_err body env w e in
          Calm-Step r w v (record { entries = ap (map without_url) media; dedup = dedup })
    ]

release-Calm :
    (v : World) (id r : Text) (m : Media) (ip agent : Option Text)
    → Keeps (Calm v) (release id r m >> announce_deletion r m ip agent)
unfolding release
release-Calm v id r m ip agent =
    let blob = delete_object-Keeps (Calm-IsStable v) (λ x o c. Calm-objects v x c o) in
    let thumbnail =
      delete_thumbnail_object-Keeps (Calm-IsStable v) (λ x o c. Calm-objects v x c o) in
    let recorded = record_delete-Keeps (Calm-IsQuotaBlind v) in
    let announced = announce_deletion-Keeps (Calm-IsLogBlind v) in
    search (keeps_rules, calm_rules, blob, thumbnail, recorded, announced) depth 12

-- A deletion, whether it returns or throws.
pub delete-Step :
    (id r : Text) (ip agent : Option Text) (env : Env) (w : World)
    → Step r w (delete id r ip agent env w).1
unfolding delete
delete-Step id r ip agent env w =
    bind_cases (Step r w) (transaction (deactivate id r)) _ env w
      (λ m e.
        (Step-Keeps r w _ (λ v. release-Calm v id r m ip agent)).at env
          (transaction (deactivate id r) env w).1 (deactivate-Step id r env w))
      (λ x e. deactivate-Step id r env w)
