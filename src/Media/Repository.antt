-- ===== src/Media/Repository.antt =====
-- The queries on the `media` table, after src/modules/media/repositories/media.repository.ts. Each
-- runs with the manager of its caller's transaction. The row-level policy hides no row here: what
-- it would hide, `enforceReadAccess` and the owner tests refuse (see Media/Access).
pub mod Laws
pub mod Saved
use media_service.Base.{
  ℕ, Bool, true, false, ◌&&◌, Option, none, some, List, [], ◌∷◌, ◌++◌, map, Text, text_eq, find,
  any, if◌then◌else◌,
}
use media_service.World.Records.{Media}
use media_service.World.State.{World, Env}
use media_service.World.Monad.{M, external}

abbrev pub has_id : Text → Media → Bool
has_id id m = text_eq m.id id

abbrev pub is_live : Text → Media → Bool
is_live id m = has_id id m && m.is_active

unfoldable pub find_live : Text → List Media → Option Media
find_live id rows = find (is_live id) rows

-- `UPDATE … WHERE id = …`
unfoldable pub update_media : Text → (Media → Media) → List Media → List Media
update_media id f [] = []
update_media id f (m ∷ rows) = (if has_id id m then f m else m) ∷ update_media id f rows

-- An insert, or an update of the row that has the id.
unfoldable pub save_media : Media → List Media → List Media
unfolding update_media
save_media m rows =
    if any (has_id m.id) rows then update_media m.id (λ old. m) rows else rows ++ m ∷ []

abbrev pub set_media : List Media → World → World
set_media rows w = record w { media = rows }

-- `findById`
unfoldable pub find_by_id : Text → M (Option Media)
find_by_id id = external (λ w. (find_live id w.media, w))

-- `save`
unfoldable pub save : Media → M (Unit {0})
save m = external (λ w. (tt, set_media (save_media m w.media) w))

abbrev pub with_signed_url_expiry : ℕ → Media → Media
with_signed_url_expiry t m = record m { signed_url_expires_at = some t }

-- `updateSignedUrlExpiry`
unfoldable pub update_signed_url_expiry : Text → ℕ → M (Unit {0})
update_signed_url_expiry id t =
    external (λ w. (tt, set_media (update_media id (with_signed_url_expiry t) w.media) w))

abbrev pub deactivated : Media → Media
deactivated m = record m { is_active = false }

-- `softDelete`
unfoldable pub soft_delete : Text → M (Unit {0})
soft_delete id = external (λ w. (tt, set_media (update_media id deactivated w.media) w))

abbrev pub with_shared_with : Option (List Text) → Media → Media
with_shared_with s m = record m { shared_with = s }

-- `updateSharedWith`
unfoldable pub update_shared_with : Text → Option (List Text) → M (Unit {0})
update_shared_with id s =
    external (λ w. (tt, set_media (update_media id (with_shared_with s) w.media) w))
