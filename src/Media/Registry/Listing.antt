-- ===== src/Media/Registry/Listing.antt =====
-- What the updates of the `media` table do to the rows as entries, and the ways in which a request
-- changes them.
use media_service.Base.{
  ◌≡◌, refl, inl, inr, Bool, true, false, none, some, List, [], ◌∷◌, ◌++◌, map, Text, text_eq_iff,
  text_eq_sound, any, find_sound, map_some, ℕ, arith, Bool-cases, if◌then◌else◌,
}
use media_service.World.Records.{Media}
use media_service.Media.Repository.{
  has_id, is_live, find_live, update_media, save_media, with_signed_url_expiry,
}
use media_service.Media.Registry.{without_url, set_entry}

cons-eq : {a b : Media} {xs ys : List Media} → a ≡ b → xs ≡ ys → a ∷ xs ≡ b ∷ ys
cons-eq e es = cc

listed_if :
    (b : Bool) (f : Media → Media) (m : Media)
    → without_url (f m) ≡ f (without_url m)
    → without_url (if b then f m else m) ≡ (if b then f (without_url m) else without_url m)
listed_if true f m e = e
listed_if false f m e = refl

pub update_media-listed :
    (id : Text) (f : Media → Media) (rows : List Media)
    → ((m : Media) → without_url (f m) ≡ f (without_url m))
    → map without_url (update_media id f rows) ≡ update_media id f (map without_url rows)
unfolding update_media
update_media-listed id f [] e = refl
update_media-listed id f (m ∷ rows) e =
    cons-eq (listed_if (has_id id m) f m (e m)) (update_media-listed id f rows e)

pub update_url-listed :
    (id : Text) (t : ℕ) (rows : List Media)
    → map without_url (update_media id (with_signed_url_expiry t) rows) ≡ map without_url rows
unfolding update_media
update_url-listed id t [] = refl
update_url-listed id t (m ∷ rows) = elim (Bool-cases (has_id id m)) [
  | inl here ↦ rw (here, update_url-listed id t rows)
  | inr other ↦ rw (other, update_url-listed id t rows)
]

pub find_live-listed :
    (id : Text) (rows : List Media)
    → find_live id (map without_url rows) ≡ map_some without_url (find_live id rows)
unfolding find_live
find_live-listed id [] = refl
find_live-listed id (m ∷ rows) = elim (Bool-cases (is_live id m)) [
  | inl here ↦ rw here
  | inr other ↦ rw other (find_live-listed id rows)
]

pub any-listed :
    (id : Text) (rows : List Media) → any (has_id id) (map without_url rows) ≡ any (has_id id) rows
any-listed id [] = refl
any-listed id (m ∷ rows) = rw (any-listed id rows)

pub save_media-fresh :
    (m : Media) (rows : List Media)
    → any (has_id m.id) rows ≡ false
    → save_media m rows ≡ rows ++ m ∷ []
unfolding save_media
save_media-fresh m rows h = rw h

pub any-append :
    (id : Text) (m : Media) (rows : List Media)
    → any (has_id id) rows ≡ true
    → any (has_id id) (rows ++ m ∷ []) ≡ true
any-append id m [] h = cc
any-append id m (n ∷ rows) h = let more = any-append id m rows in ground arith

pub any-update :
    (id other : Text) (f : Media → Media) (rows : List Media)
    → ((m : Media) → (f m).id ≡ m.id)
    → any (has_id other) rows ≡ true
    → any (has_id other) (update_media id f rows) ≡ true
unfolding update_media
any-update id other f [] same h = h
any-update id other f (m ∷ rows) same h =
    let more = any-update id other f rows same in let e = same m in ground arith

pub find_live-any :
    (id : Text) (rows : List Media) {m : Media}
    → find_live id rows ≡ some m
    → any (has_id id) rows ≡ true
unfolding find_live
find_live-any id [] h = cc
find_live-any id (n ∷ rows) {m} h = let more = find_live-any id rows {m = m} in ground arith

pub find_live-fresh :
    (id : Text) (rows : List Media) → any (has_id id) rows ≡ false → find_live id rows ≡ none
unfolding find_live
find_live-fresh id [] h = refl
find_live-fresh id (n ∷ rows) h = let more = find_live-fresh id rows in ground arith

-- A live row that is found has the id.
pub find_live-id :
    (id : Text) (rows : List Media) (m : Media) → find_live id rows ≡ some m → m.id ≡ id
unfolding find_live
find_live-id id rows m h =
    let live = find_sound (is_live id) rows m h in text_eq_sound m.id id (ground arith)

pub find_live-append :
    (k : Text) (m : Media) (rows : List Media)
    → m.is_active ≡ true
    → any (has_id m.id) rows ≡ false
    → find_live k (rows ++ m ∷ []) ≡ set_entry m.id (some m) (λ id. find_live id rows) k
unfolding find_live
find_live-append k m [] active h = ground (arith, active)
find_live-append k m (n ∷ rows) active h =
    let more = find_live-append k m rows active in
    ground (arith, text_eq_iff n.id m.id, text_eq_iff n.id k, text_eq_iff m.id k)
