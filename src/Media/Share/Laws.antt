-- ===== src/Media/Share/Laws.antt =====
-- What a share did when it returned, and whom it refuses.
use media_service.Base.{
  ◌≡◌, ◌⊎◌, inl, inr, refl, sym, ap, ◌∙◌, Bool, Option, none, some, List, Text, text_eq,
  text_eq_sound, arith, Bool-cases, length, ◌==◌,
}
use media_service.Errors.{ok}
use media_service.World.Records.{Media}
use media_service.World.State.{World, Env}
use media_service.World.Monad.{pure, throw, lift, external, ◌>>=◌, transaction}
use media_service.World.Keeps.{Keeps, IsStable, keeps_rules}
use media_service.World.Returns.{bind_ok, transaction_ok, begun}
use media_service.Media.Acl.{users_of, set_of, merge_acl, or_null}
use media_service.Media.Acl.Growth.{IsKnown, merge_acl-IsKnown, IsKnown-merge_acl}
use media_service.Media.Repository.{
  find_live, find_by_id, update_media, update_shared_with, with_shared_with,
}
use media_service.Media.Read.{found}
use media_service.Media.Read.Laws.{find_by_id_ok, found_ok}
use media_service.Media.Share.{owned, find_owned, extend_acl, share_body, forget_meta, share}

-- The row of the id, and that it is the caller's.
pub record IsOwned (id requester : Text) (m : Media) (w : World) : Type 0 where
  pub live : find_live id w.media ≡ some m
  pub mine : m.owner_id ≡ requester

found_same :
    (o : Option Media) (env : Env) (w : World) {m : Media}
    → (found o env w).0 ≡ ok m
    → (found o env w).1 ≡ w
unfolding found pure throw
found_same none env w h = cc
found_same (some m) env w h = refl

owned_ok :
    (requester : Text) (m : Media) (env : Env) (w : World) {n : Media}
    → (owned requester m env w).0 ≡ ok n
    → (m ≡ n) × (m.owner_id ≡ requester) × ((owned requester m env w).1 ≡ w)
unfolding owned pure lift ◌>>=◌
owned_ok requester m env w h = elim (Bool-cases (text_eq m.owner_id requester)) [
  | inl mine ↦ (ground arith, text_eq_sound m.owner_id requester mine, rw mine)
  | inr other ↦ absurd (ground arith)
]

pub find_owned_ok :
    (id requester : Text) (env : Env) (w : World) {m : Media}
    → (find_owned id requester env w).0 ≡ ok m
    → IsOwned id requester m w × ((find_owned id requester env w).1 ≡ begun w)
unfolding find_owned
find_owned_ok id requester env w h =
    let (o, row, e) = bind_ok (find_by_id id) (λ row. found row >>= owned requester) env w h in
    let v = (find_by_id id env w).1 in
    let (m, same, e') = bind_ok (found o) (owned requester) env v (ap (λ x. x.0) (sym e) ∙ h) in
    let v' = (found o env v).1 in
    let (mn, mine, still) =
      owned_ok requester m env v' (ap (λ x. x.0) (sym e') ∙ ap (λ x. x.0) (sym e) ∙ h) in
    let (here, begun_only) = find_by_id_ok id env w row in
    (
      record {
        live = here ∙ found_ok o env v same ∙ ap some mn;
        mine = ap (λ (x : Media). x.owner_id) (sym mn) ∙ mine;
      },
      ap (λ x. x.1) e ∙ ap (λ x. x.1) e' ∙ still ∙ found_same o env v same ∙ begun_only,
    )

-- The list of the answer, and the table behind it: as it was if nobody on the list is new, else with
-- the row's list replaced.
abbrev pub IsShared : Text → List Text → Media → List Text → List Media → List Media → Type 0
IsShared id users m next before after =
    (next ≡ merge_acl m.owner_id m.shared_with users)
    × ((IsKnown m.shared_with next × (after ≡ before))
        ⊎ ((¬ IsKnown m.shared_with next)
            × (after ≡ update_media id (with_shared_with (or_null next)) before)))

extend_acl_ok :
    (id : Text) (users : List Text) (m : Media) (env : Env) (w : World) {r : List Text × Bool}
    → (extend_acl id users m env w).0 ≡ ok r
    → IsShared id users m r.0 w.media (extend_acl id users m env w).1.media
unfolding extend_acl pure update_shared_with external ◌>>=◌
extend_acl_ok id users m env w {r} h =
    let next = merge_acl m.owner_id m.shared_with users in
    let size = length (set_of (users_of m.shared_with)) in
    elim (Bool-cases (length next == size)) [
      | inl same ↦
          let answer : r.0 ≡ next = ground arith in
          let known = merge_acl-IsKnown m.owner_id m.shared_with users (ground arith) in
          (answer, inl (rw answer known, ground arith))
      | inr new ↦
          let answer : r.0 ≡ next = ground arith in
          let somebody : ¬ IsKnown m.shared_with next = λ known.
            let e = IsKnown-merge_acl m.owner_id m.shared_with users known in ground arith in
          (answer, inr (rw answer somebody, ground arith))
    ]

media-IsStable : (rows : List Media) → IsStable (λ v. v.media ≡ rows)
media-IsStable rows = record { counted = λ w h. h; rolled = λ w0 w h0 h. h0 }

forget_meta-Keeps :
    (id : Text) (b : Bool) (rows : List Media) → Keeps (λ v. v.media ≡ rows) (forget_meta id b)
unfolding forget_meta
forget_meta-Keeps id b rows = let stable = media-IsStable rows in search (keeps_rules, stable)

pub IsShared-eq :
    (id : Text) (users : List Text) (m : Media) (next : List Text) {next' : List Text}
    {before before' after after' : List Media}
    → next ≡ next'
    → before ≡ before'
    → after' ≡ after
    → IsShared id users m next before after
    → IsShared id users m next' before' after'
IsShared-eq id users m next n b a (list, inl (size, same)) =
    (sym n ∙ list, inl (rw (sym n) size, a ∙ same ∙ b))
IsShared-eq id users m next n b a (list, inr (size, changed)) =
    (sym n ∙ list, inr (rw (sym n) size, a ∙ changed ∙ cc))

pub share_body_ok :
    (id requester : Text) (users : List Text) (env : Env) (w : World) {r : List Text × Bool}
    → (share_body id requester users env w).0 ≡ ok r
    → (m : Media) × IsOwned id requester m w
      × IsShared id users m r.0 w.media (share_body id requester users env w).1.media
unfolding share_body
share_body_ok id requester users env w {r} h =
    let (m, found, e) = bind_ok (find_owned id requester) (extend_acl id users) env w h in
    let v = (find_owned id requester env w).1 in
    let (owned, still) = find_owned_ok id requester env w found in
    let shared = extend_acl_ok id users m env v (ap (λ x. x.0) (sym e) ∙ h) in
    (
      m,
      owned,
      IsShared-eq id users m r.0 refl (ap (λ (x : World). x.media) still) (ap (λ x. x.1.media) e)
          shared,
    )

-- A share that returns was asked for by the owner of a live media, and answers the union of the
-- stored list with the given users. If everybody on that union was on the stored list, the table is
-- unchanged; if somebody is new, the list of that media is replaced by the union.
pub share_ok :
    (id requester : Text) (users : List Text) (env : Env) (w : World) {next : List Text}
    → (share id requester users env w).0 ≡ ok next
    → (m : Media) × IsOwned id requester m w
      × IsShared id users m next w.media (share id requester users env w).1.media
unfolding share pure
share_ok id requester users env w {next} h =
    let body = share_body id requester users in
    let (r, committed, e) = bind_ok (transaction body) _ env w h in
    let v = (transaction body env w).1 in
    let (done, kept) = transaction_ok body env w r committed in
    let (m, owned, shared) = share_body_ok id requester users env (begun w) done in
    let (u, forgot, e') =
      bind_ok (forget_meta id r.1) (λ x. pure r.0) env v (ap (λ x. x.0) (sym e) ∙ h) in
    let answer : r.0 ≡ next = cc (ap (λ x. x.0) (sym e') ∙ ap (λ x. x.0) (sym e) ∙ h) in
    let table =
      ap (λ x. x.1.media) e
      ∙ ap (λ x. x.1.media) e'
      ∙ (forget_meta-Keeps id r.1 v.media).at env v refl
      ∙ ap (λ (x : World). x.media) kept in
    (
      m,
      record { live = owned.live; mine = owned.mine },
      IsShared-eq id users m r.0 answer refl table shared,
    )
