-- ===== src/Base/Matching.antt =====
-- Searching a text for a part: the tests against a description by concatenation.
use Prim.Native.Nat.{ℕ}
use mathlib.Core.Path.{◌≡◌, refl, ap}
use mathlib.Core.Logic.{◌↔◌, ◌⊎◌, inl, inr}
use mathlib.Core.Bool.{true}
use mathlib.Core.List.{List, [], ◌∷◌, ◌++◌}
use native.Mathlib.Omega.{arith}
use media_service.Base.Tests.{Bool-cases}
use media_service.Base.Texts.{Text, text_eq, text_eq_iff, starts_with, contains, includes}

-- `part` stands somewhere in `s`.
abbrev pub Holds : Text → Text → Type 0
Holds s part = (pre : Text) × (post : Text) × (s ≡ pre ++ (part ++ post))

starts_with_sound : (s part : Text) → starts_with s part ≡ true → (post : Text) × (s ≡ part ++ post)
unfolding starts_with
starts_with_sound s [] h = (s, refl)
starts_with_sound [] (p ∷ ps) h = cc
starts_with_sound (c ∷ s) (p ∷ ps) h =
    let (post, same) = starts_with_sound s ps (ground arith) in (post, ground arith)

starts_with_complete : (part post : Text) → starts_with (part ++ post) part ≡ true
unfolding starts_with
starts_with_complete [] [] = refl
starts_with_complete [] (c ∷ post) = refl
starts_with_complete (p ∷ part) post = ground (arith, starts_with_complete part post)

contains_sound : (s part : Text) → contains s part ≡ true → Holds s part
unfolding contains
contains_sound [] part h = let (post, same) = starts_with_sound [] part h in ([], post, same)
contains_sound (c ∷ s) part h = elim (Bool-cases (starts_with (c ∷ s) part)) [
  | inl here ↦ let (post, same) = starts_with_sound (c ∷ s) part here in ([], post, same)
  | inr later ↦
      let (pre, post, same) = contains_sound s part (ground arith) in
      (c ∷ pre, post, ap (λ t. c ∷ t) same)
]

contains_at_start : (s part : Text) → starts_with s part ≡ true → contains s part ≡ true
unfolding contains
contains_at_start [] part h = h
contains_at_start (c ∷ s) part h = rw h

contains_later : (c : ℕ) (s part : Text) → contains s part ≡ true → contains (c ∷ s) part ≡ true
unfolding contains
contains_later c s part h = ground arith

contains_complete : (pre part post : Text) → contains (pre ++ (part ++ post)) part ≡ true
contains_complete [] part post =
    contains_at_start (part ++ post) part (starts_with_complete part post)
contains_complete (c ∷ pre) part post =
    contains_later c (pre ++ (part ++ post)) part (contains_complete pre part post)

pub contains_iff : (s part : Text) → (contains s part ≡ true) ↔ Holds s part
contains_iff s part =
    (contains_sound s part, λ (pre, post, same). rw same (contains_complete pre part post))

-- Membership in a list of texts.
abbrev pub Among : Text → List Text → Type 0
Among s [] = ⊥
Among s (x ∷ xs) = (x ≡ s) ⊎ Among s xs

pub includes_iff : (xs : List Text) (s : Text) → (includes xs s ≡ true) ↔ Among s xs
unfolding includes
includes_iff [] s = (λ e. cc, λ u. elim u [ ])
includes_iff (x ∷ xs) s = (
  λ e. elim (Bool-cases (text_eq x s)) [
    | inl same ↦ inl ((text_eq_iff x s).0 same)
    | inr other ↦ inr ((includes_iff xs s).0 (ground arith))
  ],
  elim [
    | inl same ↦ let a = (text_eq_iff x s).1 same in ground arith
    | inr later ↦ let a = (includes_iff xs s).1 later in ground arith
  ],
)
