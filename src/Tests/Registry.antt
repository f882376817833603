-- ===== src/Tests/Registry.antt =====
-- Requests one behind the other.
use media_service.Base.{◌≡◌, ◌≢◌, refl, none, some, [], ◌∷◌, Text, codes, text_eq, text_eq_iff}
use media_service.World.State.{World}
use media_service.Storage.{is_uuid}
use media_service.Media.Repository.{find_live, deactivated}
use media_service.Media.Registry.{registry, Transition}
use media_service.Media.Registry.Steps.{IsHonest}
use media_service.Media.Registry.Runs.{
  Action, after, IsFresh, Reach, request_refines, Reach-IsHonest,
}
use media_service.Media.Registry.Lives.{
  foreign_requests_keep, IsDeleted, no_revival, GoesOn, life_of_media,
}
use media_service.Tests.Data.{alice, bob, photo_id, photo, calm, start, world_with}

start-IsHonest : IsHonest start
start-IsHonest = record { entry = λ o c h id u e. absurd (clash e) }
  where
    clash : {id : Text} → none ≡ some id → ⊥
    clash p = cc

bob-IsFresh : IsFresh bob calm start
unfolding is_uuid text_eq
bob-IsFresh = record { user_uuid = refl; new_id = refl }

alice-IsFresh : IsFresh alice calm start
unfolding is_uuid text_eq
alice-IsFresh = record { user_uuid = refl; new_id = refl }

bob-ne : bob ≢ alice
unfolding text_eq
bob-ne e = let t = (text_eq_iff bob alice).1 e in cc t

abbrev grab : Action
grab = Action.delete photo_id none none

abbrev show : Action
show = Action.share photo_id (codes "carol" ∷ [])

request_refines_example : Transition alice (registry start) (registry (after alice show calm start))
request_refines_example = request_refines alice show calm start start-IsHonest alice-IsFresh

Reach-IsHonest_example : IsHonest (after bob grab calm start)
Reach-IsHonest_example =
    Reach-IsHonest (λ user. user ≢ alice) start (after bob grab calm start) start-IsHonest
      (Reach.next Reach.here bob grab calm bob-ne bob-IsFresh)

foreign_requests_keep_example : registry (after bob grab calm start) photo_id ≡ some photo
unfolding find_live text_eq
foreign_requests_keep_example =
    foreign_requests_keep start photo_id photo (after bob grab calm start) start-IsHonest refl
      (Reach.next Reach.here bob grab calm bob-ne bob-IsFresh)

abbrev emptied : World
emptied = world_with (deactivated photo ∷ []) []

emptied-IsHonest : IsHonest emptied
emptied-IsHonest = record { entry = λ o c h id u e. absurd (clash e) }
  where
    clash : {id : Text} → none ≡ some id → ⊥
    clash p = cc

emptied-IsFresh : IsFresh bob calm emptied
unfolding is_uuid text_eq
emptied-IsFresh = record { user_uuid = refl; new_id = refl }

no_revival_example : IsDeleted photo_id (after bob grab calm emptied)
unfolding find_live text_eq
no_revival_example =
    no_revival emptied photo_id (after bob grab calm emptied) emptied-IsHonest
      (record { known = refl; dead = refl })
      (Reach.next Reach.here bob grab calm tt emptied-IsFresh)

life_of_media_example : GoesOn photo_id photo (after alice show calm start)
unfolding find_live text_eq
life_of_media_example =
    life_of_media start photo_id photo (after alice show calm start) start-IsHonest refl
      (Reach.next Reach.here alice show calm tt alice-IsFresh)
