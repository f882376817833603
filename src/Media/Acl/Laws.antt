-- ===== src/Media/Acl/Laws.antt =====
-- What the access lists hold.
use media_service.Base.{
  ◌≡◌, ◌≢◌, ◌↔◌, ◌⊎◌, inl, inr, refl, sym, ap, ◌∙◌, Bool, true, false, ◌&&◌, ◌||◌, Option, List, [],
  ◌∷◌, ◌++◌, Text, text_eq, text_eq_iff, includes, includes_iff, Among, if◌then◌else◌, arith,
  Bool-cases,
}
use media_service.Media.Acl.{
  set_add, set_of_from, set_of, is_guest, add_guests, users_of, merge_acl,
}

pub includes-append :
    (xs : List Text) (u v : Text) → includes (xs ++ u ∷ []) v ≡ (includes xs v || text_eq u v)
unfolding includes
includes-append [] u v = ground arith
includes-append (x ∷ xs) u v = ground (arith, includes-append xs u v)

includes-set_add :
    (xs : List Text) (u v : Text) → includes (set_add xs u) v ≡ (includes xs v || text_eq u v)
unfolding set_add
includes-set_add xs u v = elim (Bool-cases (includes xs u)) [
  | inl old ↦ elim (Bool-cases (text_eq u v)) [
    | inl same ↦
        let e = (text_eq_iff u v).0 same in
        let old' = ap (includes xs) (sym e) ∙ old in ground (arith)
    | inr other ↦ ground arith
  ]
  | inr new ↦ rw new (includes-append xs u v)
]

pub includes-set_of_from :
    (acc us : List Text) (v : Text)
    → includes (set_of_from acc us) v ≡ (includes acc v || includes us v)
unfolding set_of_from includes
includes-set_of_from acc [] v = ground arith
includes-set_of_from acc (u ∷ us) v =
    ground (arith, includes-set_of_from (set_add acc u) us v, includes-set_add acc u v)

includes-add_guests :
    (owner : Text) (acc us : List Text) (v : Text)
    → includes (add_guests owner acc us) v ≡ (includes acc v || (is_guest owner v && includes us v))
unfolding add_guests includes
includes-add_guests owner acc [] v = ground arith
includes-add_guests owner acc (u ∷ us) v = elim (Bool-cases (text_eq u v)) [
  | inl same ↦
      let e = (text_eq_iff u v).0 same in
      ground (
        arith,
        includes-add_guests owner (if is_guest owner u then set_add acc u else acc) us v,
        includes-set_add acc u v,
      )
  | inr other ↦ ground (
    arith,
    includes-add_guests owner (if is_guest owner u then set_add acc u else acc) us v,
    includes-set_add acc u v,
  )
]

is_guest_iff : (owner v : Text) → (is_guest owner v ≡ true) ↔ ((v ≢ []) × (v ≢ owner))
is_guest_iff owner [] = (λ h. cc, λ (n, m). absurd (n refl))
is_guest_iff owner (c ∷ v) = (
  λ h. (λ e. cc, λ e. let a = (text_eq_iff (c ∷ v) owner).1 e in ground arith),
  λ (n, m). elim (Bool-cases (text_eq (c ∷ v) owner)) [
    | inl same ↦ absurd (m ((text_eq_iff (c ∷ v) owner).0 same))
    | inr other ↦ rw other
  ],
)

pub merge_test :
    (owner : Text) (stored : Option (List Text)) (users : List Text) (v : Text)
    → includes (merge_acl owner stored users) v
      ≡ (includes (users_of stored) v || (is_guest owner v && includes users v))
unfolding merge_acl includes
merge_test owner stored users v = ground (
  arith,
  includes-add_guests owner (set_of (users_of stored)) users v,
  includes-set_of_from [] (users_of stored) v,
)

or_of_tests :
    {P Q R : Type 0} (a b c : Bool)
    → (a ≡ true) ↔ P
    → (b ≡ true) ↔ Q
    → (c ≡ true) ↔ R
    → ((a || (b && c)) ≡ true) ↔ (P ⊎ (Q × R))
or_of_tests true b c p q r = (λ h. inl (p.0 refl), λ x. refl)
or_of_tests false true true p q r = (λ h. inr (q.0 refl, r.0 refl), λ x. refl)
or_of_tests false true false p q r = (λ h. cc, elim [ inl x ↦ p.1 x | inr (y, z) ↦ r.1 z ])
or_of_tests false false c p q r = (λ h. cc, elim [ inl x ↦ p.1 x | inr (y, z) ↦ q.1 y ])

-- A user is on the merged list exactly if they were on the stored one, or are among the users
-- given, not empty and not the owner.
pub merge_acl_iff :
    (owner : Text) (stored : Option (List Text)) (users : List Text) (v : Text)
    → (includes (merge_acl owner stored users) v ≡ true)
      ↔ (Among v (users_of stored) ⊎ (((v ≢ []) × (v ≢ owner)) × Among v users))
merge_acl_iff owner stored users v = rw (merge_test owner stored users v) (
    or_of_tests (includes (users_of stored) v) (is_guest owner v) (includes users v)
      (includes_iff (users_of stored) v) (is_guest_iff owner v) (includes_iff users v))

-- No user is listed twice.
abbrev pub IsDistinct : List Text → Type 0
IsDistinct [] = Unit
IsDistinct (u ∷ us) = (includes us u ≡ false) × IsDistinct us

IsDistinct-append :
    (xs : List Text) (u : Text) → IsDistinct xs → includes xs u ≡ false → IsDistinct (xs ++ u ∷ [])
unfolding includes
IsDistinct-append [] u d h = (refl, tt)
IsDistinct-append (x ∷ xs) u (new, d) h = (
  includes-append xs u x ∙ by_tests (includes xs x) (text_eq u x) new (other_way h),
  IsDistinct-append xs u d (ground arith),
)
  where
    by_tests : (a b : Bool) → a ≡ false → b ≡ false → (a || b) ≡ false
    by_tests a b p q = ground arith

    other_way : (text_eq x u || includes xs u) ≡ false → text_eq u x ≡ false
    other_way e = elim (Bool-cases (text_eq u x)) [
      | inl same ↦ let a = (text_eq_iff x u).1 (sym ((text_eq_iff u x).0 same)) in ground arith
      | inr different ↦ different
    ]

IsDistinct-set_add : (xs : List Text) (u : Text) → IsDistinct xs → IsDistinct (set_add xs u)
unfolding set_add
IsDistinct-set_add xs u d = elim (Bool-cases (includes xs u)) [
  | inl old ↦ rw old d
  | inr new ↦ rw new (IsDistinct-append xs u d new)
]

IsDistinct-set_of_from : (acc us : List Text) → IsDistinct acc → IsDistinct (set_of_from acc us)
unfolding set_of_from
IsDistinct-set_of_from acc [] d = d
IsDistinct-set_of_from acc (u ∷ us) d =
    IsDistinct-set_of_from (set_add acc u) us (IsDistinct-set_add acc u d)

IsDistinct-add_guests :
    (owner : Text) (acc us : List Text) → IsDistinct acc → IsDistinct (add_guests owner acc us)
unfolding add_guests
IsDistinct-add_guests owner acc [] d = d
IsDistinct-add_guests owner acc (u ∷ us) d = elim (Bool-cases (is_guest owner u)) [
  | inl guest ↦
      rw guest (IsDistinct-add_guests owner (set_add acc u) us (IsDistinct-set_add acc u d))
  | inr other ↦ rw other (IsDistinct-add_guests owner acc us d)
]

-- A merged list has no duplicates, whatever was stored.
pub merge_acl-IsDistinct :
    (owner : Text) (stored : Option (List Text)) (users : List Text)
    → IsDistinct (merge_acl owner stored users)
unfolding merge_acl
merge_acl-IsDistinct owner stored users =
    IsDistinct-add_guests owner (set_of (users_of stored)) users
      (IsDistinct-set_of_from [] (users_of stored) tt)
