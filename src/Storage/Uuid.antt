-- ===== src/Storage/Uuid.antt =====
-- What a UUID is, position by position, beside the pattern `UUID_PATTERN` of
-- src/modules/storage/storage.service.ts.
use media_service.Base.{
  ℕ, ◌≤◌, ◌≡◌, ◌⊎◌, ◌↔◌, refl, Bool, true, List, [], ◌∷◌, ◌++◌, Text, replicate, arith,
}
use media_service.Storage.{
  is_uuid, matches_classes, uuid_pattern, is_hex, is_version, is_variant, is_dash,
}

-- A hexadecimal digit, in either case.
abbrev pub IsHex : ℕ → Type 0
IsHex c = ((b'0' ≤ c) × (c ≤ b'9')) ⊎ ((b'a' ≤ c) × (c ≤ b'f')) ⊎ ((b'A' ≤ c) × (c ≤ b'F'))

-- The digit of the version, from 1 to 5.
abbrev pub IsVersion : ℕ → Type 0
IsVersion c = (b'1' ≤ c) × (c ≤ b'5')

-- The digit of the variant.
abbrev pub IsVariant : ℕ → Type 0
IsVariant c = (c ≡ b'8') ⊎ (c ≡ b'9') ⊎ (c ≡ b'a') ⊎ (c ≡ b'b') ⊎ (c ≡ b'A') ⊎ (c ≡ b'B')

-- A text whose code units satisfy one predicate each.
abbrev pub Fits : List (ℕ → Type 0) → Text → Type 0
Fits [] [] = Unit
Fits [] (c ∷ s) = ⊥
Fits (p ∷ ps) [] = ⊥
Fits (p ∷ ps) (c ∷ s) = p c × Fits ps s

abbrev IsDash : ℕ → Type 0
IsDash c = c ≡ b'-'

-- Eight, four, four, four and twelve digits between dashes, the version first in the third group
-- and the variant first in the fourth.
abbrev pub uuid_shape : List (ℕ → Type 0)
uuid_shape =
    replicate 8 IsHex
    ++ IsDash
      ∷ (replicate 4 IsHex
          ++ IsDash
            ∷ IsVersion
            ∷ (replicate 3 IsHex
                ++ IsDash ∷ IsVariant ∷ (replicate 3 IsHex ++ IsDash ∷ replicate 12 IsHex)))

abbrev pub IsUuid : Text → Type 0
IsUuid s = Fits uuid_shape s

is_hex_iff : (c : ℕ) → (is_hex c ≡ true) ↔ IsHex c
unfolding is_hex
is_hex_iff c = (λ h. ground arith, λ h. ground arith)

is_version_iff : (c : ℕ) → (is_version c ≡ true) ↔ IsVersion c
unfolding is_version
is_version_iff c = (λ h. (ground arith, ground arith), λ h. ground arith)

is_variant_iff : (c : ℕ) → (is_variant c ≡ true) ↔ IsVariant c
unfolding is_variant
is_variant_iff c = (λ h. ground arith, λ h. ground arith)

is_dash_iff : (c : ℕ) → (is_dash c ≡ true) ↔ IsDash c
unfolding is_dash
is_dash_iff c = (λ h. ground arith, λ h. ground arith)

-- Each test decides the predicate that stands at its place.
abbrev Decides : List (ℕ → Bool) → List (ℕ → Type 0) → Type 0
Decides [] [] = Unit
Decides [] (q ∷ qs) = ⊥
Decides (p ∷ ps) [] = ⊥
Decides (p ∷ ps) (q ∷ qs) = ((c : ℕ) → (p c ≡ true) ↔ q c) × Decides ps qs

matches_classes_iff :
    (ps : List (ℕ → Bool)) (qs : List (ℕ → Type 0)) (s : Text)
    → Decides ps qs
    → (matches_classes ps s ≡ true) ↔ Fits qs s
unfolding matches_classes
matches_classes_iff [] [] [] d = (λ h. tt, λ h. refl)
matches_classes_iff [] [] (c ∷ s) d = (λ h. cc, λ h. absurd h)
matches_classes_iff [] (q ∷ qs) s d = absurd d
matches_classes_iff (p ∷ ps) [] s d = absurd d
matches_classes_iff (p ∷ ps) (q ∷ qs) [] d = (λ h. cc, λ h. absurd h)
matches_classes_iff (p ∷ ps) (q ∷ qs) (c ∷ s) (here, later) =
    let rest = matches_classes_iff ps qs s later in
    (
      λ h. ((here c).0 (ground arith), rest.0 (ground arith)),
      λ (a, b). let x = (here c).1 a in let y = rest.1 b in ground arith,
    )

uuid_pattern-Decides : Decides uuid_pattern uuid_shape
unfolding uuid_pattern
uuid_pattern-Decides = assumption (is_hex_iff, is_version_iff, is_variant_iff, is_dash_iff, tt)

-- A text passes the test of the pattern exactly if it is a UUID.
pub is_uuid_iff : (s : Text) → (is_uuid s ≡ true) ↔ IsUuid s
unfolding is_uuid
is_uuid_iff s = matches_classes_iff uuid_pattern uuid_shape s uuid_pattern-Decides
