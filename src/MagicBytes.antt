-- ===== src/MagicBytes.antt =====
-- The magic-byte check of an uploaded buffer, after src/modules/media/magic-bytes.validator.ts.
-- A buffer is the list of its bytes. `Table` holds `MAGIC_MAP`.
pub mod Table
pub mod Laws
pub mod Containers
pub use Table.{MagicEntry, MagicSignature}
use media_service.Base.{
  ℕ, zero, suc, ◌+◌, Bool, true, false, ◌&&◌, ◌||◌, Option, none, some, List, [], ◌∷◌, Text, codes,
  text_eq, length, take, get_elem?, any, all, ltb, ◌==◌, if◌then◌else◌, trim, split_head,
  to_lower_case,
}
use media_service.Errors.{Error, Result, ok, err}
use media_service.MagicBytes.Table.{magic_map}

abbrev pub max_magic_bytes : ℕ
max_magic_bytes = 16

-- `header[i] === b`
abbrev byte_is : Option ℕ → ℕ → Bool
byte_is none b = false
byte_is (some c) b = c == b

-- `bytes.every((b, i) => header[offset + i] === b)`, from position `i` on
bytes_at : List ℕ → ℕ → List ℕ → Bool
bytes_at header i [] = true
bytes_at header i (b ∷ bs) = byte_is (get_elem? header i) b && bytes_at header (suc i) bs

pub matches_entry : List ℕ → MagicEntry → Bool
matches_entry header entry =
    if ltb (length header) (entry.offset + length entry.bytes)
    then false
    else bytes_at header entry.offset entry.bytes

abbrev matches_signature : List ℕ → MagicSignature → Bool
matches_signature header sig = all (matches_entry header) sig

-- `declaredMimeType.split(';')[0].trim().toLowerCase()`
unfoldable pub normalise_mime : Text → Text
normalise_mime t = to_lower_case (trim (split_head b';' t))

-- `MAGIC_MAP[mime]`: the map is an object literal, so two lower-case names that it does not list
-- are found on the prototype of objects.
pub data Lookup : Type 0 where
  missing inherited : Lookup
  own : List MagicSignature → Lookup

own_signatures : List (Text × List MagicSignature) → Text → Option (List MagicSignature)
own_signatures [] mime = none
own_signatures ((m, sigs) ∷ rest) mime =
    if text_eq m mime then some sigs else own_signatures rest mime

unfoldable pub lookup_signatures : Text → Lookup
unfolding own_signatures
lookup_signatures mime = elim (own_signatures magic_map mime) [
  | some sigs ↦ Lookup.own sigs
  | none ↦
      if text_eq mime (codes "constructor") || text_eq mime (codes "__proto__")
      then Lookup.inherited
      else Lookup.missing
]

pub check_signatures : List ℕ → Lookup → Result (Unit {0})
check_signatures buffer Lookup.missing = ok tt
check_signatures buffer Lookup.inherited = err Error.type_error
check_signatures buffer (Lookup.own sigs) =
    if any (matches_signature (take max_magic_bytes buffer)) sigs
    then ok tt
    else err Error.unsupported_media_type

unfoldable pub validate_magic_bytes : List ℕ → Text → Result (Unit {0})
unfolding check_signatures lookup_signatures matches_entry bytes_at normalise_mime
validate_magic_bytes buffer declared =
    check_signatures buffer (lookup_signatures (normalise_mime declared))
