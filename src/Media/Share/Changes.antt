-- ===== src/Media/Share/Changes.antt =====
-- A share, whether it returns or throws, is a step of the registry by the caller.
use media_service.Base.{
  ◌≡◌, refl, ap, ◌∙◌, inl, inr, Bool, Option, none, some, List, [], ◌∷◌, map, Text, map_some,
  includes_iff,
}
use media_service.World.Records.{Media}
use media_service.World.State.{World, Env}
use media_service.World.Monad.{pure, ◌>>=◌, transaction}
use media_service.World.Keeps.{Keeps, IsStable, keeps_rules}
use media_service.World.Returns.{transaction_ok, transaction_err, begun}
use media_service.Media.Acl.{users_of, merge_acl, or_null}
use media_service.Media.Acl.Laws.{merge_acl_iff}
use media_service.Media.Repository.{find_live, find_by_id, update_shared_with, with_shared_with}
use media_service.Media.Read.{found}
use media_service.Media.Share.{owned, find_owned, extend_acl, share_body, forget_meta, share}
use media_service.Media.Share.Laws.{IsOwned, IsShared, share_body_ok}
use media_service.Media.Registry.{without_url, listing, Extends}
use media_service.Media.Registry.Listing.{update_media-listed, find_live-listed}
use media_service.Media.Registry.Changes.{Change}
use media_service.Media.Registry.Steps.{
  Calm, calm_rules, Step, Calm-Step, Step-Keeps, Result-cases, bind_cases,
}

-- No action in a transaction touches the deduplication.
module _ (d : Text → Option Text) where
  dedup-IsStable : IsStable (λ v. v.dedup_cache ≡ d)
  dedup-IsStable = record { counted = λ w h. h; rolled = λ w0 w h0 h. h }

  found-Keeps : (o : Option Media) → Keeps (λ v. v.dedup_cache ≡ d) (found o)
  unfolding found
  found-Keeps none = search keeps_rules
  found-Keeps (some m) = search keeps_rules

  pub find_owned-Keeps : (id r : Text) → Keeps (λ v. v.dedup_cache ≡ d) (find_owned id r)
  unfolding find_owned find_by_id owned
  find_owned-Keeps id r = search (keeps_rules, dedup-IsStable, found-Keeps) depth 9

  extend_acl-Keeps :
      (id : Text) (users : List Text) (m : Media)
      → Keeps (λ v. v.dedup_cache ≡ d) (extend_acl id users m)
  unfolding extend_acl update_shared_with
  extend_acl-Keeps id users m = search (keeps_rules, dedup-IsStable) depth 9

  share_body-Keeps :
      (id r : Text) (users : List Text)
      → Keeps (λ v. v.dedup_cache ≡ d) (transaction (share_body id r users))
  unfolding share_body
  share_body-Keeps id r users =
      search (keeps_rules, dedup-IsStable, find_owned-Keeps, extend_acl-Keeps) depth 9

-- A media of the caller, as an entry.
pub IsOwned-entry :
    (id r : Text) (m : Media) (w : World)
    → IsOwned id r m w
    → find_live id (listing w) ≡ some (without_url m)
IsOwned-entry id r m w o = find_live-listed id w.media ∙ ap (map_some without_url) o.live

users_of-or_null : (us : List Text) → users_of (or_null us) ≡ us
users_of-or_null [] = refl
users_of-or_null (u ∷ us) = refl

Extends-merge :
    (owner : Text) (s : Option (List Text)) (us : List Text)
    → Extends s (or_null (merge_acl owner s us))
Extends-merge owner s us reader h =
    let merged = merge_acl owner s us in
    let among = (includes_iff merged reader).0 ((merge_acl_iff owner s us reader).1 (inl h)) in
    rw (users_of-or_null merged) among

shared_rows :
    (id r : Text) (users : List Text) (m : Media) (next : List Text) (w v : World)
    → IsOwned id r m w
    → IsShared id users m next w.media v.media
    → Change r (listing w) (listing v)
shared_rows id r users m next w v o (list, inl (size, same)) =
    Change.nothing (ap (map without_url) same)
shared_rows id r users m next w v o (list, inr (size, e)) =
    Change.shared id (without_url m) (or_null next) (IsOwned-entry id r m w o) o.mine
      (rw list (Extends-merge m.owner_id m.shared_with users))
      (ap (map without_url) e
        ∙ update_media-listed id (with_shared_with (or_null next)) w.media (λ x. refl))

share_body-Step :
    (id r : Text) (users : List Text) (env : Env) (w : World)
    → Step r w (transaction (share_body id r users) env w).1
share_body-Step id r users env w =
    let body = share_body id r users in
    let v = (transaction body env w).1 in
    let dedup = (share_body-Keeps w.dedup_cache id r users).at env w refl in
    elim (Result-cases (transaction body env w).0) [
      | inl (a, e) ↦
          let (done, kept) = transaction_ok body env w a e in
          let (m, owned, shared) = share_body_ok id r users env (begun w) done in
          record {
            change =
                shared_rows id r users m a.0 w v (record { live = owned.live; mine = owned.mine })
                  (rw kept shared);
            dedup = λ k. inl (ap (λ f. f k) dedup);
          }
      | inr (x, e) ↦
          let (media, quotas) = transaction_err body env w e in
          Calm-Step r w v (record { entries = ap (map without_url) media; dedup = dedup })
    ]

forget_meta-Calm :
    (v : World) (id : Text) (a : List Text × Bool)
    → Keeps (Calm v) (forget_meta id a.1 >>= λ u. pure a.0)
unfolding forget_meta
forget_meta-Calm v id a = search (keeps_rules, calm_rules) depth 9

-- A share, whether it returns or throws.
pub share-Step :
    (id r : Text) (users : List Text) (env : Env) (w : World) → Step r w (share id r users env w).1
unfolding share
share-Step id r users env w =
    bind_cases (Step r w) (transaction (share_body id r users)) _ env w
      (λ a e.
        (Step-Keeps r w _ (λ v. forget_meta-Calm v id a)).at env
          (transaction (share_body id r users) env w).1 (share_body-Step id r users env w))
      (λ x e. share_body-Step id r users env w)
