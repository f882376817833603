-- ===== src/Media/Acl/Repeats.antt =====
-- What merging again, and a set of what is a set already, come to.
use media_service.Base.{
  ◌≡◌, inl, inr, refl, sym, ap, ◌∙◌, true, false, ◌&&◌, ◌||◌, Option, some, List, [], ◌∷◌, ◌++◌,
  Text, text_eq, text_eq_iff, text_eq_refl, includes, arith, Bool-cases, All,
}
use mathlib.Core.List.{append-nil, append_assoc}
use media_service.Media.Acl.{
  set_add, set_of_from, set_of, is_guest, add_guests, users_of, merge_acl,
}
use media_service.Media.Acl.Laws.{includes-append, merge_test, IsDistinct, merge_acl-IsDistinct}

-- Adding users who are all listed, are empty or are the owner changes nothing.
pub add_guests_known :
    (owner : Text) (acc us : List Text)
    → All (λ u. is_guest owner u ≡ true → includes acc u ≡ true) us
    → add_guests owner acc us ≡ acc
unfolding add_guests set_add
add_guests_known owner acc [] h = refl
add_guests_known owner acc (u ∷ us) (k, ks) = elim (Bool-cases (is_guest owner u)) [
  | inl guest ↦ rw (guest, k guest) (add_guests_known owner acc us ks)
  | inr other ↦ rw other (add_guests_known owner acc us ks)
]

pub All-of_includes :
    {P : Text → Type 0} (us : List Text) → ((v : Text) → includes us v ≡ true → P v) → All P us
unfolding includes
All-of_includes [] h = tt
All-of_includes (u ∷ us) h =
    (h u (let a = text_eq_refl u in ground arith), All-of_includes us (λ v e. h v (ground arith)))

apart_from_head :
    (u : Text) (us : List Text) → includes us u ≡ false → All (λ v. text_eq u v ≡ false) us
unfolding includes
apart_from_head u [] h = tt
apart_from_head u (v ∷ us) h = (apart, apart_from_head u us (ground arith))
  where
    apart : text_eq u v ≡ false
    apart = elim (Bool-cases (text_eq u v)) [
      | inl same ↦ let a = (text_eq_iff v u).1 (sym ((text_eq_iff u v).0 same)) in ground arith
      | inr different ↦ different
    ]

still_fresh :
    (acc : List Text) (u : Text) (us : List Text)
    → All (λ v. includes acc v ≡ false) us
    → All (λ v. text_eq u v ≡ false) us
    → All (λ v. includes (acc ++ u ∷ []) v ≡ false) us
still_fresh acc u [] h k = tt
still_fresh acc u (v ∷ us) (h, hs) (k, ks) =
    (includes-append acc u v ∙ ground arith, still_fresh acc u us hs ks)

set_of_from_distinct :
    (acc us : List Text)
    → IsDistinct us
    → All (λ v. includes acc v ≡ false) us
    → set_of_from acc us ≡ acc ++ us
unfolding set_of_from set_add
set_of_from_distinct acc [] d h = sym (append-nil acc)
set_of_from_distinct acc (u ∷ us) (new, d) (k, ks) = rw k (
    set_of_from_distinct (acc ++ u ∷ []) us d (still_fresh acc u us ks (apart_from_head u us new))
    ∙ append_assoc acc (u ∷ []) us)

none_in_nil : (us : List Text) → All (λ v. includes [] v ≡ false) us
unfolding includes
none_in_nil [] = tt
none_in_nil (u ∷ us) = (refl, none_in_nil us)

-- A set made of a list without duplicates is that list.
pub set_of_distinct : (us : List Text) → IsDistinct us → set_of us ≡ us
set_of_distinct us d = set_of_from_distinct [] us d (none_in_nil us)

merge_known :
    (owner : Text) (m us : List Text)
    → set_of m ≡ m
    → merge_acl owner (some m) us ≡ add_guests owner m us
unfolding merge_acl
merge_known owner m us e = ap (λ acc. add_guests owner acc us) e

-- Merging the same users a second time changes nothing.
pub merge_acl_idempotent :
    (owner : Text) (stored : Option (List Text)) (users : List Text)
    → merge_acl owner (some (merge_acl owner stored users)) users ≡ merge_acl owner stored users
merge_acl_idempotent owner stored users =
    let m = merge_acl owner stored users in
    again m users (merge_acl-IsDistinct owner stored users)
      (All-of_includes users (λ v e g. merge_test owner stored users v ∙ listed v e g))
  where
    again :
        (m us : List Text)
        → IsDistinct m
        → All (λ u. is_guest owner u ≡ true → includes m u ≡ true) us
        → merge_acl owner (some m) us ≡ m
    again m us d h = merge_known owner m us (set_of_distinct m d) ∙ add_guests_known owner m us h

    listed :
        (v : Text)
        → includes users v ≡ true
        → is_guest owner v ≡ true
        → (includes (users_of stored) v || (is_guest owner v && includes users v)) ≡ true
    listed v e g = ground arith
