-- ===== src/Media/Repository/Laws.antt =====
-- What the updates of the `media` table do to the lookup of a live row.
use media_service.Base.{
  ◌≡◌, ◌≢◌, inl, inr, refl, Option, none, List, [], ◌∷◌, Text, text_eq_iff, arith, Bool-cases,
  map_some,
}
use media_service.World.Records.{Media}
use media_service.Media.Repository.{has_id, find_live, update_media, deactivated, with_shared_with}

find_live-update_shared :
    (id : Text) (s : Option (List Text)) (rows : List Media)
    → find_live id (update_media id (with_shared_with s) rows)
      ≡ map_some (with_shared_with s) (find_live id rows)
unfolding find_live update_media
find_live-update_shared id s [] = refl
find_live-update_shared id s (m ∷ rows) = ground (arith, find_live-update_shared id s rows)

find_live-deactivated :
    (id : Text) (rows : List Media) → find_live id (update_media id deactivated rows) ≡ none
unfolding find_live update_media
find_live-deactivated id [] = refl
find_live-deactivated id (m ∷ rows) = elim (Bool-cases (has_id id m)) [
  | inl here ↦ rw (here, here) (find_live-deactivated id rows)
  | inr other ↦ rw (other, other) (find_live-deactivated id rows)
]

find_live-update_ne :
    (id other : Text) (f : Media → Media) (rows : List Media)
    → ((m : Media) → (f m).id ≡ m.id)
    → id ≢ other
    → find_live other (update_media id f rows) ≡ find_live other rows
unfolding find_live update_media
find_live-update_ne id other f [] same ne = refl
find_live-update_ne id other f (m ∷ rows) same ne = ground (
  arith,
  same m,
  find_live-update_ne id other f rows same ne,
  text_eq_iff m.id other,
  text_eq_iff m.id id,
)

-- Behind a soft deletion no live row has the id, behind an update of the access list the live row
-- has the new list and nothing else new, and the live row of any other id is found as before.
pub update_media_lem :
    (id other : Text) (s : Option (List Text)) (rows : List Media)
    → (find_live id (update_media id deactivated rows) ≡ none)
      × (find_live id (update_media id (with_shared_with s) rows)
          ≡ map_some (with_shared_with s) (find_live id rows))
      × (id ≢ other
          → (find_live other (update_media id deactivated rows) ≡ find_live other rows)
            × (find_live other (update_media id (with_shared_with s) rows) ≡ find_live other rows))
update_media_lem id other s rows = (
  find_live-deactivated id rows,
  find_live-update_shared id s rows,
  λ ne. (
    find_live-update_ne id other deactivated rows (λ m. refl) ne,
    find_live-update_ne id other (with_shared_with s) rows (λ m. refl) ne,
  ),
)
