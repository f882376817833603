-- ===== src/Media/Registry/Changes.antt =====
-- The ways in which a request changes the rows, and that they are transitions of the registry.
use media_service.Base.{
  ◌≡◌, ◌≢◌, refl, sym, ap, ◌∙◌, inl, inr, Bool, true, false, Option, none, some, List, [], ◌∷◌,
  ◌++◌, Text, text_eq, text_eq_iff, text_eq_sound, any, map_some, arith, Bool-cases, if◌then◌else◌,
}
use media_service.World.Records.{Media}
use media_service.Media.Repository.{has_id, find_live, update_media, deactivated, with_shared_with}
use media_service.Media.Repository.Laws.{update_media_lem}
use media_service.Media.Registry.{Registry, set_entry, Extends, Transition}
use media_service.Media.Registry.Listing.{any-append, any-update, find_live-fresh, find_live-append}

pub data Change (user : Text) (l l' : List Media) : Type 0 where
  nothing : l' ≡ l → Change user l l'
  added :
      (m : Media)
      → any (has_id m.id) l ≡ false
      → m.is_active ≡ true
      → m.owner_id ≡ user
      → l' ≡ l ++ m ∷ []
      → Change user l l'
  shared :
      (id : Text) (m : Media) (s : Option (List Text))
      → find_live id l ≡ some m
      → m.owner_id ≡ user
      → Extends m.shared_with s
      → l' ≡ update_media id (with_shared_with s) l
      → Change user l l'
  removed :
      (id : Text) (m : Media)
      → find_live id l ≡ some m
      → m.owner_id ≡ user
      → l' ≡ update_media id deactivated l
      → Change user l l'

-- The entries of the rows.
abbrev pub entries : List Media → Registry
entries l id = find_live id l

set_entry-eq :
    (f : Media → Media) (id k : Text) (l : List Media) (e : Option Media)
    → find_live id (update_media id f l) ≡ e
    → (id ≢ k → find_live k (update_media id f l) ≡ find_live k l)
    → find_live k (update_media id f l) ≡ set_entry id e (entries l) k
set_entry-eq f id k l e here there = elim (Bool-cases (text_eq id k)) [
  | inl same ↦
      rw (same) (ap (λ x. find_live x (update_media id f l)) (sym (text_eq_sound id k same)) ∙ here)
  | inr other ↦ rw other (there (λ p. let t = text_eq_iff id k in ground arith))
]

shared_entry :
    (id k : Text) (m : Media) (s : Option (List Text)) (l l' : List Media)
    → find_live id l ≡ some m
    → l' ≡ update_media id (with_shared_with s) l
    → find_live k l' ≡ set_entry id (some (with_shared_with s m)) (entries l) k
shared_entry id k m s l l' live e =
    ap (find_live k) e
    ∙ set_entry-eq (with_shared_with s) id k l (some (with_shared_with s m))
        ((update_media_lem id k s l).1 ∙ ap (map_some (with_shared_with s)) live)
        (λ ne. ((update_media_lem id k s l).2 ne).1)

removed_entry :
    (id k : Text) (l l' : List Media)
    → l' ≡ update_media id deactivated l
    → find_live k l' ≡ set_entry id none (entries l) k
removed_entry id k l l' e =
    ap (find_live k) e
    ∙ set_entry-eq deactivated id k l none (update_media_lem id k none l).0
        (λ ne. ((update_media_lem id k none l).2 ne).0)

pub Change-Transition :
    (user : Text) (l l' : List Media) → Change user l l' → Transition user (entries l) (entries l')
Change-Transition user l l' (nothing e) = Transition.stays (λ id. ap (find_live id) e)
Change-Transition user l l' (added m fresh active mine e) =
    Transition.enters m (find_live-fresh m.id l fresh) mine
      (λ k. ap (find_live k) e ∙ find_live-append k m l active fresh)
Change-Transition user l l' (shared id m s live mine more e) =
    Transition.widens id m s live mine more (λ k. shared_entry id k m s l l' live e)
Change-Transition user l l' (removed id m live mine e) =
    Transition.removes id m live mine (λ k. removed_entry id k l l' e)

-- No id is forgotten.
pub Change-any :
    (user : Text) (l l' : List Media) (k : Text)
    → Change user l l'
    → any (has_id k) l ≡ true
    → any (has_id k) l' ≡ true
Change-any user l l' k (nothing e) h = ap (any (has_id k)) e ∙ h
Change-any user l l' k (added m fresh active mine e) h = ap (any (has_id k)) e ∙ any-append k m l h
Change-any user l l' k (shared id m s live mine more e) h =
    ap (any (has_id k)) e ∙ any-update id k (with_shared_with s) l (λ x. refl) h
Change-any user l l' k (removed id m live mine e) h =
    ap (any (has_id k)) e ∙ any-update id k deactivated l (λ x. refl) h

-- The live row of an id that was there has the owner of the live row before.
abbrev pub HasOwner : Text → Text → List Media → Type 0
HasOwner owner k l = (m : Media) → find_live k l ≡ some m → m.owner_id ≡ owner

by_entry :
    (b : Bool) (owner : Text) (e x : Option Media) (m : Media)
    → (b ≡ true → (n : Media) → e ≡ some n → n.owner_id ≡ owner)
    → ((n : Media) → x ≡ some n → n.owner_id ≡ owner)
    → (if b then e else x) ≡ some m
    → m.owner_id ≡ owner
by_entry true owner e x m he hx h = he refl m h
by_entry false owner e x m he hx h = hx m h

pub Change-HasOwner :
    (user owner : Text) (l l' : List Media) (k : Text)
    → Change user l l'
    → any (has_id k) l ≡ true
    → HasOwner owner k l
    → HasOwner owner k l'
Change-HasOwner user owner l l' k (nothing e) there before m live =
    before m (sym (ap (find_live k) e) ∙ live)
Change-HasOwner user owner l l' k (added n fresh active mine e) there before m live =
    by_entry (text_eq n.id k) owner (some n) (find_live k l) m
      (λ same x p. absurd (clash (ap (λ i. any (has_id i) l) (text_eq_sound n.id k same)))) before
      (sym (find_live-append k n l active fresh) ∙ sym (ap (find_live k) e) ∙ live)
  where
    clash : any (has_id n.id) l ≡ any (has_id k) l → ⊥
    clash p = cc
Change-HasOwner user owner l l' k (shared id n s here mine more e) there before m live =
    by_entry (text_eq id k) owner (some (with_shared_with s n)) (find_live k l) m
      (λ same x p.
        ap (λ o. get_owner o) (sym p)
        ∙ before n (ap (λ i. find_live i l) (sym (text_eq_sound id k same)) ∙ here))
      before (sym (shared_entry id k n s l l' here e) ∙ live)
  where
    get_owner : Option Media → Text
    get_owner none = []
    get_owner (some x) = x.owner_id
Change-HasOwner user owner l l' k (removed id n here mine e) there before m live =
    by_entry (text_eq id k) owner none (find_live k l) m (λ same x p. absurd (cc p)) before
      (sym (removed_entry id k l l' e) ∙ live)

-- An id that has a row and no live one gets none.
pub Change-dead :
    (user : Text) (l l' : List Media) (k : Text)
    → Change user l l'
    → any (has_id k) l ≡ true
    → find_live k l ≡ none
    → find_live k l' ≡ none
Change-dead user l l' k (nothing e) there dead = ap (find_live k) e ∙ dead
Change-dead user l l' k (added n fresh active mine e) there dead =
    ap (find_live k) e
    ∙ find_live-append k n l active fresh
    ∙ by_test (text_eq n.id k)
        (λ same. clash (ap (λ i. any (has_id i) l) (text_eq_sound n.id k same)))
  where
    clash : any (has_id n.id) l ≡ any (has_id k) l → ⊥
    clash p = cc

    by_test : (b : Bool) → (b ≡ true → ⊥) → (if b then some n else find_live k l) ≡ none
    by_test true h = absurd (h refl)
    by_test false h = dead
Change-dead user l l' k (shared id n s here mine more e) there dead =
    shared_entry id k n s l l' here e
    ∙ by_test (text_eq id k) (λ same. clash (ap (λ i. find_live i l) (text_eq_sound id k same)))
  where
    clash : find_live id l ≡ find_live k l → ⊥
    clash p = cc

    by_test :
        (b : Bool)
        → (b ≡ true → ⊥)
        → (if b then some (with_shared_with s n) else find_live k l) ≡ none
    by_test true h = absurd (h refl)
    by_test false h = dead
Change-dead user l l' k (removed id n here mine e) there dead =
    removed_entry id k l l' e ∙ by_test (text_eq id k)
  where
    by_test : (b : Bool) → (if b then none else find_live k l) ≡ none
    by_test true = refl
    by_test false = dead
