-- ===== src/Media/Acl.antt =====
-- The access list of a media as the source builds it with `Set`: insertion-ordered, without
-- duplicates. Used by `share`, and by `upload` in src/modules/media/media.service.ts.
pub mod Laws
pub mod Repeats
pub mod Growth
use media_service.Base.{
  Bool, true, false, not, ◌&&◌, Option, none, some, List, [], ◌∷◌, ◌++◌, Text, text_eq, includes,
  if◌then◌else◌, filter,
}

-- A non-empty text is true.
abbrev pub truthy : Text → Bool
truthy [] = false
truthy (c ∷ s) = true

-- `set.add(u)`
unfoldable pub set_add : List Text → Text → List Text
set_add xs u = if includes xs u then xs else xs ++ u ∷ []

-- `new Set(users)`, from a set that is there.
unfoldable pub set_of_from : List Text → List Text → List Text
set_of_from acc [] = acc
set_of_from acc (u ∷ us) = set_of_from (set_add acc u) us

abbrev pub set_of : List Text → List Text
set_of us = set_of_from [] us

-- `uid && uid !== owner`
abbrev pub is_guest : Text → Text → Bool
is_guest owner u = truthy u && not (text_eq u owner)

-- `for (const uid of users) if (uid && uid !== owner) set.add(uid)`
unfoldable pub add_guests : Text → List Text → List Text → List Text
add_guests owner acc [] = acc
add_guests owner acc (u ∷ us) =
    add_guests owner (if is_guest owner u then set_add acc u else acc) us

abbrev pub users_of : Option (List Text) → List Text
users_of none = []
users_of (some us) = us

-- The union of the stored list and the given users.
unfoldable pub merge_acl : Text → Option (List Text) → List Text → List Text
merge_acl owner stored users = add_guests owner (set_of (users_of stored)) users

-- `next.length > 0 ? next : null`
abbrev pub or_null : List Text → Option (List Text)
or_null [] = none
or_null (u ∷ us) = some (u ∷ us)

-- The list of a new media.
unfoldable pub initial_acl : Text → Option (List Text) → Option (List Text)
initial_acl owner none = none
initial_acl owner (some users) = or_null (set_of (filter (is_guest owner) users))
