-- ===== src/Controller/Lists.antt =====
-- A list of ids that is sent as comma-separated text is the list that is read.
use mathlib.Core.List.{reverse, reverse-reverse, reverse-cons}
use media_service.Base.{
  ℕ, ◌≡◌, ◌≢◌, refl, ap, ◌∙◌, true, false, Option, List, [], ◌∷◌, ◌++◌, map, Text, trim, trim_start,
  split, starts_with, filter, All, ◌==◌, is_space, arith,
}
use media_service.Storage.{is_uuid}
use media_service.Storage.Paths.{IsPlain, is_uuid-IsPlain, is_uuid-length}
use media_service.Media.Acl.{truthy}
use media_service.Controller.Fields.{
  FieldValue, ParsedField, csv_values, parse_text, parse_string_array,
}

abbrev pub NoSpace : ℕ → Type 0
NoSpace c = is_space c ≡ false

All-append : (P : ℕ → Type 0) (xs ys : Text) → All P xs → All P ys → All P (xs ++ ys)
All-append P [] ys a b = b
All-append P (x ∷ xs) ys (h, a) b = (h, All-append P xs ys a b)

All-reverse : (P : ℕ → Type 0) (xs : Text) → All P xs → All P (reverse xs)
All-reverse P [] a = tt
All-reverse P (x ∷ xs) (h, a) =
    rw (reverse-cons x xs) (All-append P (reverse xs) (x ∷ []) (All-reverse P xs a) (h, tt))

trim_start_id : (s : Text) → All NoSpace s → trim_start s ≡ s
unfolding trim_start
trim_start_id [] a = refl
trim_start_id (c ∷ s) (h, a) = rw h

trim_id : (s : Text) → All NoSpace s → trim s ≡ s
unfolding trim
trim_id s a =
    ap (λ t. reverse (trim_start (reverse t))) (trim_start_id s a)
    ∙ ap reverse (trim_start_id (reverse s) (All-reverse NoSpace s a))
    ∙ reverse-reverse s

-- `ids.join(',')`
abbrev pub join : Text → List Text → Text
join x [] = x
join x (y ∷ ys) = x ++ b',' ∷ join y ys

split-plain : (x : Text) → All IsPlain x → split b',' x ≡ x ∷ []
unfolding split
split-plain [] a = refl
split-plain (c ∷ x) ((s, comma, b), a) =
    let other : (c == b',') ≡ false = ground arith in rw (other, split-plain x a)

split-comma : (x t : Text) → All IsPlain x → split b',' (x ++ b',' ∷ t) ≡ x ∷ split b',' t
unfolding split
split-comma [] t a = refl
split-comma (c ∷ x) t ((s, comma, b), a) =
    let other : (c == b',') ≡ false = ground arith in rw (other, split-comma x t a)

plain-NoSpace : (x : Text) → All IsPlain x → All NoSpace x
plain-NoSpace [] a = tt
plain-NoSpace (c ∷ x) ((s, comma, bracket), a) = (s, plain-NoSpace x a)

-- Every id of the list is a UUID.
abbrev pub AreUuids : List Text → Type 0
AreUuids ids = All (λ id. is_uuid id ≡ true) ids

split-join :
    (x : Text) (ys : List Text) → is_uuid x ≡ true → AreUuids ys → split b',' (join x ys) ≡ x ∷ ys
split-join x [] h hs = split-plain x (is_uuid-IsPlain x h)
split-join x (y ∷ ys) h (hy, hs) =
    split-comma x (join y ys) (is_uuid-IsPlain x h) ∙ ap (λ t. x ∷ t) (split-join y ys hy hs)

join-NoSpace :
    (x : Text) (ys : List Text) → is_uuid x ≡ true → AreUuids ys → All NoSpace (join x ys)
unfolding is_space
join-NoSpace x [] h hs = plain-NoSpace x (is_uuid-IsPlain x h)
join-NoSpace x (y ∷ ys) h (hy, hs) =
    All-append NoSpace x (b',' ∷ join y ys) (plain-NoSpace x (is_uuid-IsPlain x h))
      (comma, join-NoSpace y ys hy hs)
  where
    comma : is_space b',' ≡ false
    comma = refl

kept : (ids : List Text) → AreUuids ids → filter truthy (map trim ids) ≡ ids
kept [] h = refl
kept ([] ∷ ids) (h, hs) = absurd (clash (is_uuid-length [] h))
  where
    clash : ◌≡◌ {A = ℕ} 0 36 → ⊥
    clash e = omega arith
kept ((c ∷ id) ∷ ids) (h, hs) =
    rw (trim_id (c ∷ id) (plain-NoSpace (c ∷ id) (is_uuid-IsPlain (c ∷ id) h)), kept ids hs)

read_text :
    (json : Text → Option (List Text)) (t : Text) (c : ℕ) (s : Text)
    → t ≡ c ∷ s
    → c ≢ b'['
    → All NoSpace t
    → parse_string_array json (FieldValue.text t) ≡ ParsedField.values (csv_values t)
unfolding parse_string_array parse_text starts_with
read_text json [] c s e b a = cc
read_text json (x ∷ t) c s e b a =
    let head : x ≡ c = cc in
    let other : (x == b'[') ≡ false = ground arith in rw (trim_id (x ∷ t) a, other)

join-cons : (c : ℕ) (x : Text) (ys : List Text) → (s : Text) × (join (c ∷ x) ys ≡ c ∷ s)
join-cons c x [] = (x, refl)
join-cons c x (y ∷ ys) = (x ++ b',' ∷ join y ys, refl)

-- A list of UUIDs that is sent as text with commas between them is read as that list, in its order
-- and with its repetitions.
pub parse_string_array-join :
    (json : Text → Option (List Text)) (x : Text) (ys : List Text)
    → is_uuid x ≡ true
    → AreUuids ys
    → parse_string_array json (FieldValue.text (join x ys)) ≡ ParsedField.values (x ∷ ys)
unfolding csv_values
parse_string_array-join json [] ys h hs = absurd (clash (is_uuid-length [] h))
  where
    clash : ◌≡◌ {A = ℕ} 0 36 → ⊥
    clash e = omega arith
parse_string_array-join json (c ∷ x) ys h hs =
    let (s, e) = join-cons c x ys in
    let ((space, comma, bracket), rest) = is_uuid-IsPlain (c ∷ x) h in
    read_text json (join (c ∷ x) ys) c s e bracket (join-NoSpace (c ∷ x) ys h hs)
    ∙ ap (λ l. ParsedField.values (filter truthy (map trim l))) (split-join (c ∷ x) ys h hs)
    ∙ ap ParsedField.values (kept ((c ∷ x) ∷ ys) (h, hs))
