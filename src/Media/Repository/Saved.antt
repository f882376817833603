-- ===== src/Media/Repository/Saved.antt =====
-- The row that `save` writes is the live row of its id.
use media_service.Base.{
  ◌≡◌, inl, inr, refl, true, false, some, List, [], ◌∷◌, ◌++◌, text_eq_refl, any, arith, Bool-cases,
}
use media_service.World.Records.{Media}
use media_service.Media.Repository.{has_id, find_live, update_media, save_media}

find_live-update_const :
    (m : Media) (rows : List Media)
    → m.is_active ≡ true
    → any (has_id m.id) rows ≡ true
    → find_live m.id (update_media m.id (λ old. m) rows) ≡ some m
unfolding find_live update_media
find_live-update_const m [] a h = cc
find_live-update_const m (n ∷ rows) a h = elim (Bool-cases (has_id m.id n)) [
  | inl here ↦ rw (here, text_eq_refl m.id, a) refl
  | inr other ↦ rw (other, other) (find_live-update_const m rows a (rw other at h))
]

find_live-append :
    (m : Media) (rows : List Media)
    → m.is_active ≡ true
    → any (has_id m.id) rows ≡ false
    → find_live m.id (rows ++ m ∷ []) ≡ some m
unfolding find_live
find_live-append m [] a h = rw (text_eq_refl m.id, a) refl
find_live-append m (n ∷ rows) a h = elim (Bool-cases (has_id m.id n)) [
  | inl here ↦ absurd (ground arith)
  | inr other ↦ rw other (find_live-append m rows a (rw other at h))
]

pub find_live-save_media :
    (m : Media) (rows : List Media)
    → m.is_active ≡ true
    → find_live m.id (save_media m rows) ≡ some m
unfolding save_media
find_live-save_media m rows a = elim (Bool-cases (any (has_id m.id) rows)) [
  | inl there ↦ rw there (find_live-update_const m rows a there)
  | inr new ↦ rw new (find_live-append m rows a new)
]
