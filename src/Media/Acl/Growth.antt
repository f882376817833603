-- ===== src/Media/Acl/Growth.antt =====
-- When merging brings somebody new: `next.length === new Set(stored).size`.
use media_service.Base.{
  ◌≤◌, ◌≡◌, inl, inr, refl, sym, ap, ◌∙◌, true, Option, List, [], ◌∷◌, ◌++◌, Text, text_eq,
  text_eq_sound, includes, includes_iff, Among, length, length-append, arith, Bool-cases, All,
}
use media_service.Media.Acl.{set_add, set_of, is_guest, add_guests, users_of, merge_acl}
use media_service.Media.Acl.Laws.{includes-set_of_from, merge_test}
use media_service.Media.Acl.Repeats.{add_guests_known, All-of_includes}

-- Everybody on the list was listed before.
abbrev pub IsKnown : Option (List Text) → List Text → Type 0
IsKnown stored next = All (λ v. Among v (users_of stored)) next

add_guests-longer :
    (owner : Text) (acc us : List Text) → length acc ≤ length (add_guests owner acc us)
unfolding add_guests set_add
add_guests-longer owner acc [] = omega arith
add_guests-longer owner acc (u ∷ us) = elim (Bool-cases (is_guest owner u)) [
  | inl guest ↦ elim (Bool-cases (includes acc u)) [
    | inl old ↦ rw (guest, old) (add_guests-longer owner acc us)
    | inr new ↦
        let more = add_guests-longer owner (acc ++ u ∷ []) us in
        let one = length-append acc (u ∷ []) in rw (guest, new) (omega arith)
  ]
  | inr other ↦ rw other (add_guests-longer owner acc us)
]

-- A list that is no longer is the same.
add_guests-same :
    (owner : Text) (acc us : List Text)
    → length (add_guests owner acc us) ≡ length acc
    → add_guests owner acc us ≡ acc
unfolding add_guests set_add
add_guests-same owner acc [] h = refl
add_guests-same owner acc (u ∷ us) h = elim (Bool-cases (is_guest owner u)) [
  | inl guest ↦ elim (Bool-cases (includes acc u)) [
    | inl old ↦ rw (guest, old) (add_guests-same owner acc us (rw (guest, old) at h))
    | inr new ↦
        let more = add_guests-longer owner (acc ++ u ∷ []) us in
        let one = length-append acc (u ∷ []) in
        let same = rw (guest, new) at h in absurd (omega arith)
  ]
  | inr other ↦ rw other (add_guests-same owner acc us (rw other at h))
]

includes-set_of : (us : List Text) (v : Text) → includes (set_of us) v ≡ includes us v
unfolding includes
includes-set_of us v = ground (arith, includes-set_of_from [] us v)

All-includes :
    (P : Text → Type 0) (xs : List Text) (v : Text) → All P xs → includes xs v ≡ true → P v
unfolding includes
All-includes P [] v h e = cc
All-includes P (x ∷ xs) v (p, ps) e = elim (Bool-cases (text_eq x v)) [
  | inl same ↦ rw (sym (text_eq_sound x v same)) p
  | inr other ↦ All-includes P xs v ps (ground arith)
]

-- The merged list is as long as the stored one without its repeats exactly if nobody on it is new.
pub merge_acl-IsKnown :
    (owner : Text) (stored : Option (List Text)) (users : List Text)
    → length (merge_acl owner stored users) ≡ length (set_of (users_of stored))
    → IsKnown stored (merge_acl owner stored users)
unfolding merge_acl
merge_acl-IsKnown owner stored users h =
    let same = add_guests-same owner (set_of (users_of stored)) users h in
    All-of_includes (merge_acl owner stored users) (λ v e.
      (includes_iff (users_of stored) v).0
        (sym (includes-set_of (users_of stored) v) ∙ ap (λ l. includes l v) (sym same) ∙ e))

pub IsKnown-merge_acl :
    (owner : Text) (stored : Option (List Text)) (users : List Text)
    → IsKnown stored (merge_acl owner stored users)
    → length (merge_acl owner stored users) ≡ length (set_of (users_of stored))
unfolding merge_acl
IsKnown-merge_acl owner stored users known = ap length (
    add_guests_known owner (set_of (users_of stored)) users
      (All-of_includes users (λ v e guest. was_listed v e guest)))
  where
    was_listed :
        (v : Text)
        → includes users v ≡ true
        → is_guest owner v ≡ true
        → includes (set_of (users_of stored)) v ≡ true
    was_listed v e guest =
        let test = merge_test owner stored users v in
        let here : includes (merge_acl owner stored users) v ≡ true = ground arith in
        let among =
          All-includes (λ u. Among u (users_of stored)) (merge_acl owner stored users) v known
            here in
        includes-set_of (users_of stored) v ∙ (includes_iff (users_of stored) v).1 among
