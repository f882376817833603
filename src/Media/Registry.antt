-- ===== src/Media/Registry.antt =====
-- What the service promises of the media that it keeps, without its rows, caches and failures: a
-- map from ids to entries, which the requests of a user change only in the four ways of
-- `Transition`. The life time of a URL that is stored with a row is no part of an entry.
pub mod Listing
pub mod Changes
pub mod Steps
pub mod Runs
pub mod Lives
use media_service.Base.{
  ◌≡◌, true, Option, none, some, List, map, Text, text_eq, Among, if◌then◌else◌,
}
use media_service.World.Records.{Media}
use media_service.World.State.{World}
use media_service.Media.Acl.{users_of}
use media_service.Media.Repository.{find_live, with_shared_with}

-- A row without the time until which a URL was signed.
abbrev pub without_url : Media → Media
without_url m = record m { signed_url_expires_at = none }

-- The rows, as far as they are entries.
abbrev pub listing : World → List Media
listing w = map without_url w.media

-- The map from ids to live media.
abbrev pub Registry : Type 0
Registry = Text → Option Media

abbrev pub registry : World → Registry
registry w id = find_live id (listing w)

abbrev pub set_entry : Text → Option Media → Registry → Registry
set_entry id entry r k = if text_eq id k then entry else r k

-- Whoever is on the first list is on the second.
abbrev pub Extends : Option (List Text) → Option (List Text) → Type 0
Extends old new = (reader : Text) → Among reader (users_of old) → Among reader (users_of new)

-- What a request of the user may do: nothing; enter a media of theirs under an id that is free; let
-- more users read a media of theirs; or remove a media of theirs.
pub data Transition (user : Text) (r r' : Registry) : Type 0 where
  stays : ((id : Text) → r' id ≡ r id) → Transition user r r'
  enters :
      (m : Media)
      → r m.id ≡ none
      → m.owner_id ≡ user
      → ((id : Text) → r' id ≡ set_entry m.id (some m) r id)
      → Transition user r r'
  widens :
      (id : Text) (m : Media) (s : Option (List Text))
      → r id ≡ some m
      → m.owner_id ≡ user
      → Extends m.shared_with s
      → ((k : Text) → r' k ≡ set_entry id (some (with_shared_with s m)) r k)
      → Transition user r r'
  removes :
      (id : Text) (m : Media)
      → r id ≡ some m
      → m.owner_id ≡ user
      → ((k : Text) → r' k ≡ set_entry id none r k)
      → Transition user r r'
