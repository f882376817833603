-- ===== src/Storage/Paths.antt =====
-- The paths that `buildPath` makes: they stay below their folder, and name one object each.
use media_service.Base.{
  ℕ, suc, ◌≡◌, ◌≢◌, refl, sym, ap, ◌∙◌, Bool, true, false, List, [], ◌∷◌, ◌++◌, Text, codes, length,
  All, arith, append_injective, is_space, if◌then◌else◌,
}
use media_service.Errors.{Error, Result, ok, err}
use media_service.Storage.{
  StorageContext, is_uuid, matches_classes, uuid_pattern, build_path, path_for, is_hex, is_version,
  is_variant, is_dash,
}

matches_classes-length :
    (ps : List (ℕ → Bool)) (s : Text) → matches_classes ps s ≡ true → length s ≡ length ps
unfolding matches_classes
matches_classes-length [] [] h = refl
matches_classes-length [] (c ∷ s) h = cc
matches_classes-length (p ∷ ps) [] h = cc
matches_classes-length (p ∷ ps) (c ∷ s) h = ap suc (matches_classes-length ps s (ground arith))

pub is_uuid-length : (s : Text) → is_uuid s ≡ true → length s ≡ 36
unfolding uuid_pattern is_uuid
is_uuid-length s h = matches_classes-length uuid_pattern s h

-- A code unit that cannot leave a folder or begin a new one.
abbrev pub IsInert : ℕ → Type 0
IsInert c = (c ≢ b'/') × (c ≢ b'.')

matches_classes-All :
    (P : ℕ → Type 0) (ps : List (ℕ → Bool)) (s : Text)
    → All (λ p. (c : ℕ) → p c ≡ true → P c) ps
    → matches_classes ps s ≡ true
    → All P s
unfolding matches_classes
matches_classes-All P [] [] hs h = tt
matches_classes-All P [] (c ∷ s) hs h = cc
matches_classes-All P (p ∷ ps) [] hs h = cc
matches_classes-All P (p ∷ ps) (c ∷ s) (hp, hs) h =
    (hp c (ground arith), matches_classes-All P ps s hs (ground arith))

is_hex-IsInert : (c : ℕ) → is_hex c ≡ true → IsInert c
unfolding is_hex
is_hex-IsInert c h = (ground arith, ground arith)

is_version-IsInert : (c : ℕ) → is_version c ≡ true → IsInert c
unfolding is_version
is_version-IsInert c h = (ground arith, ground arith)

is_variant-IsInert : (c : ℕ) → is_variant c ≡ true → IsInert c
unfolding is_variant
is_variant-IsInert c h = (ground arith, ground arith)

is_dash-IsInert : (c : ℕ) → is_dash c ≡ true → IsInert c
unfolding is_dash
is_dash-IsInert c h = (ground arith, ground arith)

uuid_pattern-IsInert : All (λ p. (c : ℕ) → p c ≡ true → IsInert c) uuid_pattern
unfolding uuid_pattern
uuid_pattern-IsInert =
    assumption (is_hex-IsInert, is_version-IsInert, is_variant-IsInert, is_dash-IsInert, tt)

pub is_uuid-IsInert : (s : Text) → is_uuid s ≡ true → All IsInert s
unfolding is_uuid
is_uuid-IsInert s h = matches_classes-All IsInert uuid_pattern s uuid_pattern-IsInert h

-- A code unit that ends no item of a list: no space, no comma, no bracket.
abbrev pub IsPlain : ℕ → Type 0
IsPlain c = (is_space c ≡ false) × (c ≢ b',') × (c ≢ b'[')

is_hex-IsPlain : (c : ℕ) → is_hex c ≡ true → IsPlain c
unfolding is_hex is_space
is_hex-IsPlain c h = (ground arith, ground arith, ground arith)

is_version-IsPlain : (c : ℕ) → is_version c ≡ true → IsPlain c
unfolding is_version is_space
is_version-IsPlain c h = (ground arith, ground arith, ground arith)

is_variant-IsPlain : (c : ℕ) → is_variant c ≡ true → IsPlain c
unfolding is_variant is_space
is_variant-IsPlain c h = (ground arith, ground arith, ground arith)

is_dash-IsPlain : (c : ℕ) → is_dash c ≡ true → IsPlain c
unfolding is_dash is_space
is_dash-IsPlain c h = (ground arith, ground arith, ground arith)

uuid_pattern-IsPlain : All (λ p. (c : ℕ) → p c ≡ true → IsPlain c) uuid_pattern
unfolding uuid_pattern
uuid_pattern-IsPlain =
    assumption (is_hex-IsPlain, is_version-IsPlain, is_variant-IsPlain, is_dash-IsPlain, tt)

pub is_uuid-IsPlain : (s : Text) → is_uuid s ≡ true → All IsPlain s
unfolding is_uuid
is_uuid-IsPlain s h = matches_classes-All IsPlain uuid_pattern s uuid_pattern-IsPlain h

abbrev tested : Bool → Bool → Text → Result Text
tested a b path = if a then (if b then ok path else err Error.internal) else err Error.internal

build_path_lem :
    (c : StorageContext) (o i : Text)
    → build_path c o i ≡ tested (is_uuid o) (is_uuid i) (path_for c o i)
unfolding build_path
build_path_lem c o i = refl

-- A path is made only of two UUIDs, and it is that of its context.
pub build_path_ok :
    (c : StorageContext) (owner object : Text) {path : Text}
    → build_path c owner object ≡ ok path
    → (is_uuid owner ≡ true) × (is_uuid object ≡ true) × (path ≡ path_for c owner object)
build_path_ok c owner object h =
    by_tests (is_uuid owner) (is_uuid object) (sym (build_path_lem c owner object) ∙ h)
  where
    by_tests :
        (a b : Bool) {path : Text}
        → tested a b (path_for c owner object) ≡ ok path
        → (a ≡ true) × (b ≡ true) × (path ≡ path_for c owner object)
    by_tests a b e = (ground arith, ground arith, ground arith)

abbrev pub SamePlace : StorageContext → Text → Text → Text → Text → Type 0
SamePlace StorageContext.thumbnails o i o' i' = i ≡ i'
SamePlace c o i o' i' = (o ≡ o') × (i ≡ i')

-- Behind one folder's name, owner and object can be read off.
split_ids :
    (o o' r r' : Text)
    → is_uuid o ≡ true
    → is_uuid o' ≡ true
    → o ++ r ≡ o' ++ r'
    → (o ≡ o') × (r ≡ r')
split_ids o o' r r' h h' e =
    append_injective o o' (is_uuid-length o h ∙ sym (is_uuid-length o' h')) e

same_context :
    (c : StorageContext) (o i o' i' : Text)
    → is_uuid o ≡ true
    → is_uuid o' ≡ true
    → is_uuid i ≡ true
    → is_uuid i' ≡ true
    → path_for c o i ≡ path_for c o' i'
    → SamePlace c o i o' i'
unfolding path_for
same_context StorageContext.messages o i o' i' ho ho' hi hi' e =
    let (owners, rest) =
      split_ids o o' (codes "/" ++ (i ++ codes ".bin")) (codes "/" ++ (i' ++ codes ".bin")) ho ho'
        (cc) in
    (owners, (split_ids i i' (codes ".bin") (codes ".bin") hi hi' (cc)).0)
same_context StorageContext.avatars o i o' i' ho ho' hi hi' e =
    let (owners, rest) = split_ids o o' (codes "/" ++ i) (codes "/" ++ i') ho ho' (cc) in
    (owners, cc)
same_context StorageContext.group_icons o i o' i' ho ho' hi hi' e =
    let (owners, rest) = split_ids o o' (codes "/" ++ i) (codes "/" ++ i') ho ho' (cc) in
    (owners, cc)
same_context StorageContext.thumbnails o i o' i' ho ho' hi hi' e =
    (split_ids i i' (codes ".bin") (codes ".bin") hi hi' (cc)).0

other_context :
    (c c' : StorageContext) (o i o' i' : Text) → path_for c o i ≡ path_for c' o' i' → c ≡ c'
unfolding path_for
other_context StorageContext.messages StorageContext.messages o i o' i' e = refl
other_context StorageContext.avatars StorageContext.avatars o i o' i' e = refl
other_context StorageContext.group_icons StorageContext.group_icons o i o' i' e = refl
other_context StorageContext.thumbnails StorageContext.thumbnails o i o' i' e = refl
other_context c c' o i o' i' e = ground arith

-- No two objects share a path: equal paths have the same context, the same object id and, but for
-- thumbnails, the same owner.
pub build_path_injective :
    (c c' : StorageContext) (o i o' i' path : Text)
    → build_path c o i ≡ ok path
    → build_path c' o' i' ≡ ok path
    → (c ≡ c') × SamePlace c o i o' i'
build_path_injective c c' o i o' i' path h h' =
    let (ho, hi, e) = build_path_ok c o i h in
    let (ho', hi', e') = build_path_ok c' o' i' h' in
    let same = other_context c c' o i o' i' (sym e ∙ e') in
    (
      same,
      same_context c o i o' i' ho ho' hi hi' (sym e ∙ e' ∙ ap (λ x. path_for x o' i') (sym same)),
    )
