-- ===== src/Media/Registry/Lives.antt =====
-- The life of a media over a sequence of requests.
use media_service.Base.{
  ◌≡◌, ◌≢◌, ◌⊎◌, inl, inr, refl, sym, ap, ◌∙◌, true, Option, none, some, [], Text, text_eq,
  text_eq_sound, any, Bool-cases,
}
use media_service.World.Records.{Media}
use media_service.World.State.{World}
use media_service.Media.Repository.{has_id, with_shared_with}
use media_service.Media.Registry.{Registry, registry, listing, set_entry, Extends, Transition}
use media_service.Media.Registry.Changes.{Change, Change-any, Change-dead}
use media_service.Media.Registry.Listing.{find_live-any}
use media_service.Media.Registry.Steps.{IsHonest}
use media_service.Media.Registry.Runs.{after, after-Step, request_refines, Reach, Reach-IsHonest}

-- An entry that is set at another id, or set anew.
set_entry_cases :
    (id k : Text) (e : Option Media) (r : Registry)
    → ((id ≡ k) × (set_entry id e r k ≡ e)) ⊎ (set_entry id e r k ≡ r k)
set_entry_cases id k e r = elim (Bool-cases (text_eq id k)) [
  | inl same ↦ inl (text_eq_sound id k same, rw same)
  | inr other ↦ inr (rw other)
]

same_owner : {a b : Media} → some a ≡ some b → a.owner_id ≡ b.owner_id
same_owner p = ap get p
  where
    get : Option Media → Text
    get none = []
    get (some m) = m.owner_id

-- A request of another user leaves an entry as it is.
Transition-foreign :
    (user : Text) (r r' : Registry) (id : Text) (m : Media)
    → user ≢ m.owner_id
    → r id ≡ some m
    → Transition user r r'
    → r' id ≡ some m
Transition-foreign user r r' id m other h (Transition.stays e) = e id ∙ h
Transition-foreign user r r' id m other h (Transition.enters n free mine e) =
    elim (set_entry_cases n.id id (some n) r) [
      | inl (same, new) ↦ absurd (clash (sym free ∙ ap r same ∙ h))
      | inr old ↦ e id ∙ old ∙ h
    ]
  where
    clash : none ≡ some m → ⊥
    clash p = cc
Transition-foreign user r r' id m other h (Transition.widens k n s live mine more e) =
    elim (set_entry_cases k id (some (with_shared_with s n)) r) [
      | inl (same, new) ↦ absurd (other (sym mine ∙ same_owner (sym live ∙ ap r same ∙ h)))
      | inr old ↦ e id ∙ old ∙ h
    ]
Transition-foreign user r r' id m other h (Transition.removes k n live mine e) =
    elim (set_entry_cases k id none r) [
      | inl (same, new) ↦ absurd (other (sym mine ∙ same_owner (sym live ∙ ap r same ∙ h)))
      | inr old ↦ e id ∙ old ∙ h
    ]

-- However many requests others than its owner send, a live media stays live and stays as it is, its
-- access list included, but for the time until which a URL was signed: nobody but the owner can
-- delete, replace or share it. The conditions are that the deduplication entries name media of
-- their users in the first world, that each user's id is a UUID, and that each generated id is that
-- of no row when it is generated.
pub foreign_requests_keep :
    (w : World) (id : Text) (m : Media) (v : World)
    → IsHonest w
    → registry w id ≡ some m
    → Reach (λ user. user ≢ m.owner_id) w v
    → registry v id ≡ some m
foreign_requests_keep w id m v honest live Reach.here = live
foreign_requests_keep w id m v honest live (Reach.next {v = u} reach user a env other fresh) =
    let before = foreign_requests_keep w id m u honest live reach in
    let still = Reach-IsHonest (λ x. x ≢ m.owner_id) w u honest reach in
    Transition-foreign user (registry u) (registry (after user a env u)) id m other before
      (request_refines user a env u still fresh)

-- There is a row of the id, and no live one.
pub record IsDeleted (id : Text) (w : World) : Type 0 where
  pub known : any (has_id id) (listing w) ≡ true
  pub dead : registry w id ≡ none

Change-IsDeleted :
    (user id : Text) (w v : World)
    → IsDeleted id w
    → Change user (listing w) (listing v)
    → IsDeleted id v
Change-IsDeleted user id w v d c = record {
  known = Change-any user (listing w) (listing v) id c d.known;
  dead = Change-dead user (listing w) (listing v) id c d.known d.dead;
}

-- A media that was deleted stays deleted: whatever users ask afterwards, no media is ever live again
-- under its id. The conditions are that the deduplication entries name media of their users in the
-- first world, that each user's id is a UUID, and that each generated id is that of no row when it
-- is generated.
pub no_revival :
    (w : World) (id : Text) (v : World)
    → IsHonest w
    → IsDeleted id w
    → Reach (λ user. Unit {0}) w v
    → IsDeleted id v
no_revival w id v honest d Reach.here = d
no_revival w id v honest d (Reach.next {v = u} reach user a env p fresh) =
    let still = Reach-IsHonest (λ x. Unit {0}) w u honest reach in
    let before = no_revival w id u honest d reach in
    Change-IsDeleted user id u (after user a env u) before
      (after-Step user a env u still fresh).change

-- An entry that is another's continuation: it differs at most in the access list, on which every
-- reader still is.
pub record Continues (m n : Media) : Type 0 where
  pub content : with_shared_with none n ≡ with_shared_with none m
  pub readers : Extends m.shared_with n.shared_with

-- The media of the id was deleted for good, or continues `m`.
abbrev pub GoesOn : Text → Media → World → Type 0
GoesOn id m v = IsDeleted id v ⊎ ((n : Media) × (registry v id ≡ some n) × Continues m n)

Transition-Continues :
    (user : Text) (r r' : Registry) (id : Text) (m n : Media)
    → r id ≡ some n
    → Continues m n
    → Transition user r r'
    → (r' id ≡ none) ⊎ ((n' : Media) × (r' id ≡ some n') × Continues m n')
Transition-Continues user r r' id m n h c (Transition.stays e) = inr (n, e id ∙ h, c)
Transition-Continues user r r' id m n h c (Transition.enters x free mine e) =
    elim (set_entry_cases x.id id (some x) r) [
      | inl (same, new) ↦ absurd (clash (sym free ∙ ap r same ∙ h))
      | inr old ↦ inr (n, e id ∙ old ∙ h, c)
    ]
  where
    clash : none ≡ some n → ⊥
    clash p = cc
Transition-Continues user r r' id m n h c (Transition.widens k x s live mine more e) =
    elim (set_entry_cases k id (some (with_shared_with s x)) r) [
      | inl (same, new) ↦
          let is_n : x ≡ n = some_injective (sym live ∙ ap r same ∙ h) in
          inr (
            with_shared_with s x,
            e id ∙ new,
            record {
              content = ap (with_shared_with none) is_n ∙ c.content;
              readers = λ reader p. more reader (rw is_n (c.readers reader p));
            },
          )
      | inr old ↦ inr (n, e id ∙ old ∙ h, c)
    ]
  where
    some_injective : {a b : Media} → some a ≡ some b → a ≡ b
    some_injective p = cc
Transition-Continues user r r' id m n h c (Transition.removes k x live mine e) =
    elim (set_entry_cases k id none r) [
      | inl (same, new) ↦ inl (e id ∙ new)
      | inr old ↦ inr (n, e id ∙ old ∙ h, c)
    ]

-- Over any requests of any users, a live media either was deleted, and no media is live under its
-- id, or is still live and differs at most in the time until which a URL was signed and in the
-- access list, on which everyone still is who was. The conditions are that the deduplication entries
-- name media of their users in the first world, that each user's id is a UUID, and that each
-- generated id is that of no row when it is generated.
pub life_of_media :
    (w : World) (id : Text) (m : Media) (v : World)
    → IsHonest w
    → registry w id ≡ some m
    → Reach (λ user. Unit {0}) w v
    → GoesOn id m v
life_of_media w id m v honest live Reach.here =
    inr (m, live, record { content = refl; readers = λ reader p. p })
life_of_media w id m v honest live (Reach.next {v = u} reach user a env p fresh) =
    let still = Reach-IsHonest (λ x. Unit {0}) w u honest reach in
    let change = (after-Step user a env u still fresh).change in
    elim (life_of_media w id m u honest live reach) [
      | inl d ↦ inl (Change-IsDeleted user id u (after user a env u) d change)
      | inr (n, here, c) ↦
          elim (Transition-Continues user (registry u) (registry (after user a env u)) id m n here c
            (request_refines user a env u still fresh)) [
              | inl dead ↦ inl (record {
                known =
                    Change-any user (listing u) (listing (after user a env u)) id change
                      (find_live-any id (listing u) here);
                dead = dead;
              })
              | inr goes_on ↦ inr goes_on
            ]
    ]
