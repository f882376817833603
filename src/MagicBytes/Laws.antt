-- ===== src/MagicBytes/Laws.antt =====
-- What an entry of the table says of a header, stated without positions.
use media_service.Base.{
  ℕ, zero, suc, ◌+◌, ◌≤◌, ◌≡◌, refl, ap, sym, ◌∙◌, ◌↔◌, ◌⊎◌, inl, inr, true, List, [], ◌∷◌, ◌++◌,
  arith, length, any, all, All, Bool-cases, Text, take, length-append,
}
use media_service.Errors.{Error, ok, err}
use media_service.MagicBytes.Table.{MagicEntry, MagicSignature}
use media_service.MagicBytes.{
  bytes_at, matches_entry, matches_signature, normalise_mime, lookup_signatures, Lookup,
  check_signatures, validate_magic_bytes,
}

-- The bytes of the entry stand in the header, behind as many bytes as the offset says.
abbrev pub Stands : List ℕ → MagicEntry → Type 0
Stands header entry =
    (pre : List ℕ) × (post : List ℕ) × (header ≡ pre ++ (entry.bytes ++ post))
    × (length pre ≡ entry.offset)

bytes_at-cons :
    (c : ℕ) (h : List ℕ) (i : ℕ) (bs : List ℕ) → bytes_at (c ∷ h) (suc i) bs ≡ bytes_at h i bs
unfolding bytes_at
bytes_at-cons c h i [] = refl
bytes_at-cons c h i (b ∷ bs) = ground (arith, bytes_at-cons c h (suc i) bs)

bytes_at_prefix : (bs post : List ℕ) → bytes_at (bs ++ post) 0 bs ≡ true
unfolding bytes_at
bytes_at_prefix [] post = refl
bytes_at_prefix (b ∷ bs) post =
    ground (arith, bytes_at-cons b (bs ++ post) 0 bs, bytes_at_prefix bs post)

bytes_at_complete : (pre bs post : List ℕ) → bytes_at (pre ++ (bs ++ post)) (length pre) bs ≡ true
bytes_at_complete [] bs post = bytes_at_prefix bs post
bytes_at_complete (p ∷ pre) bs post =
    bytes_at-cons p (pre ++ (bs ++ post)) (length pre) bs ∙ bytes_at_complete pre bs post

prefix_of_bytes_at : (h bs : List ℕ) → bytes_at h 0 bs ≡ true → (post : List ℕ) × (h ≡ bs ++ post)
unfolding bytes_at
prefix_of_bytes_at h [] e = (h, refl)
prefix_of_bytes_at [] (b ∷ bs) e = ground arith
prefix_of_bytes_at (c ∷ h) (b ∷ bs) e =
    let (post, same) = prefix_of_bytes_at h bs (sym (bytes_at-cons c h 0 bs) ∙ ground arith) in
    (post, ground arith)

bytes_at_sound :
    (h : List ℕ) (n : ℕ) (bs : List ℕ)
    → n + length bs ≤ length h
    → bytes_at h n bs ≡ true
    → Stands h (record { bytes = bs; offset = n })
bytes_at_sound h zero bs fits e =
    let (post, same) = prefix_of_bytes_at h bs e in ([], post, same, refl)
bytes_at_sound [] (suc n) bs fits e = absurd (omega arith)
bytes_at_sound (c ∷ h) (suc n) bs fits e =
    let (pre, post, same, len) =
      bytes_at_sound h n bs (omega arith) (sym (bytes_at-cons c h n bs) ∙ e) in
    (c ∷ pre, post, ap (λ t. c ∷ t) same, ap suc len)

-- An entry matches a header exactly if its bytes stand there at its offset; a header that is too
-- short for the entry does not match.
pub matches_entry_iff : (h : List ℕ) (e : MagicEntry) → (matches_entry h e ≡ true) ↔ Stands h e
unfolding matches_entry
matches_entry_iff h e = (
  λ m. bytes_at_sound h e.offset e.bytes (ground arith) (ground arith),
  λ (pre, post, same, len).
      let full = bytes_at_complete pre e.bytes post in
      let size = length-append pre (e.bytes ++ post) in
      let size' = length-append e.bytes post in
      rw (same, ← len) (ground (arith, full, size, size')),
)

-- One of the listed values satisfies the predicate.
abbrev pub AnyOf : {A : Type 0} → (A → Type 0) → List A → Type 0
AnyOf P [] = ⊥
AnyOf P (x ∷ xs) = P x ⊎ AnyOf P xs

all-matches_iff :
    (h : List ℕ) (sig : MagicSignature) → (all (matches_entry h) sig ≡ true) ↔ All (Stands h) sig
all-matches_iff h [] = (λ e. tt, λ u. refl)
all-matches_iff h (e ∷ sig) = (
  λ m. ((matches_entry_iff h e).0 (ground arith), (all-matches_iff h sig).0 (ground arith)),
  λ (s, ss).
      let a = (matches_entry_iff h e).1 s in let b = (all-matches_iff h sig).1 ss in ground arith,
)

any-matches_iff :
    (h : List ℕ) (sigs : List MagicSignature)
    → (any (matches_signature h) sigs ≡ true) ↔ AnyOf (All (Stands h)) sigs
any-matches_iff h [] = (λ e. cc, λ u. elim u [ ])
any-matches_iff h (sig ∷ sigs) = (
  λ m. elim (Bool-cases (matches_signature h sig)) [
    | inl here ↦ inl ((all-matches_iff h sig).0 here)
    | inr gone ↦ inr ((any-matches_iff h sigs).0 (ground arith))
  ],
  elim [
    | inl s ↦ let a = (all-matches_iff h sig).1 s in ground arith
    | inr s ↦ let a = (any-matches_iff h sigs).1 s in ground arith
  ],
)

refused : (buffer : List ℕ) → check_signatures buffer Lookup.inherited ≡ ok tt → ⊥
unfolding check_signatures
refused buffer h = cc

check_signatures-own_iff :
    (buffer : List ℕ) (sigs : List MagicSignature)
    → ((check_signatures buffer (Lookup.own sigs) ≡ ok tt)
        ↔ AnyOf (All (Stands (take 16 buffer))) sigs)
      × ((check_signatures buffer (Lookup.own sigs) ≡ ok tt)
          ⊎ (check_signatures buffer (Lookup.own sigs) ≡ err Error.unsupported_media_type))
unfolding check_signatures
check_signatures-own_iff buffer sigs = (
  (
    λ e. (any-matches_iff (take 16 buffer) sigs).0 (ground arith),
    λ s. let a = (any-matches_iff (take 16 buffer) sigs).1 s in ground arith,
  ),
  ground arith,
)

validate_magic_bytes_lem :
    (buffer : List ℕ) (declared : Text)
    → validate_magic_bytes buffer declared
      ≡ check_signatures buffer (lookup_signatures (normalise_mime declared))
unfolding validate_magic_bytes
validate_magic_bytes_lem buffer declared = refl

-- For a declared type that the table lists, the buffer is accepted exactly if, for one of the
-- type's signatures, every entry stands in the first sixteen bytes; else the error is 415.
pub validate_magic_bytes_iff :
    (buffer : List ℕ) (declared : Text) (sigs : List MagicSignature)
    → lookup_signatures (normalise_mime declared) ≡ Lookup.own sigs
    → ((validate_magic_bytes buffer declared ≡ ok tt) ↔ AnyOf (All (Stands (take 16 buffer))) sigs)
      × ((validate_magic_bytes buffer declared ≡ ok tt)
          ⊎ (validate_magic_bytes buffer declared ≡ err Error.unsupported_media_type))
validate_magic_bytes_iff buffer declared sigs e =
    rw (validate_magic_bytes_lem buffer declared, e) (check_signatures-own_iff buffer sigs)

-- The bytes are those of the declared type: every entry of one of its signatures stands in the
-- first sixteen bytes; or the table knows no signature of that type.
abbrev pub IsOfType : List ℕ → Text → Type 0
IsOfType buffer declared =
    (lookup_signatures (normalise_mime declared) ≡ Lookup.missing)
    ⊎ ((sigs : List MagicSignature) × (lookup_signatures (normalise_mime declared)
          ≡ Lookup.own sigs)
        × AnyOf (All (Stands (take 16 buffer))) sigs)

pub validate_magic_bytes_ok :
    (buffer : List ℕ) (declared : Text)
    → validate_magic_bytes buffer declared ≡ ok tt
    → IsOfType buffer declared
validate_magic_bytes_ok buffer declared h =
    by_lookup (lookup_signatures (normalise_mime declared)) refl
      (sym (validate_magic_bytes_lem buffer declared) ∙ h)
  where
    by_lookup :
        (l : Lookup)
        → lookup_signatures (normalise_mime declared) ≡ l
        → check_signatures buffer l ≡ ok tt
        → IsOfType buffer declared
    by_lookup Lookup.missing e c = inl e
    by_lookup Lookup.inherited e c = absurd (refused buffer c)
    by_lookup (Lookup.own sigs) e c = inr (sigs, e, (check_signatures-own_iff buffer sigs).0.0 c)
