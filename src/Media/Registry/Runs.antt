-- ===== src/Media/Registry/Runs.antt =====
-- The requests of users, one behind the other, in any order and with any failures; and what they
-- keep.
use media_service.Base.{◌≡◌, true, false, Option, List, Text, any, ℕ}
use media_service.World.Records.{MediaContext, MulterFile}
use media_service.World.State.{World, Env}
use media_service.World.Keeps.{Keeps, keeps_rules}
use media_service.Storage.{is_uuid}
use media_service.Media.Repository.{has_id}
use media_service.Media.Upload
use media_service.Media.Upload.Changes.{upload-Step}
use media_service.Media.Read
use media_service.Media.Read.Changes.{
  get_metadata-Calm, get_blob-Calm, get_thumbnail-Calm, stream_blob-Calm, stream_thumbnail-Calm,
}
use media_service.Media.Share
use media_service.Media.Share.Changes.{share-Step}
use media_service.Media.Delete
use media_service.Media.Delete.Changes.{delete-Step}
use media_service.Media.Account
use media_service.Media.Registry.{listing, registry, Transition}
use media_service.Media.Registry.Changes.{Change-Transition}
use media_service.Media.Registry.Steps.{
  Calm, Calm-refl, calm_rules, Step, Calm-Step, IsHonest, Step-IsHonest,
}

-- What a user can ask of the service.
pub data Action : Type 0 where
  upload :
      (file : MulterFile) (context : MediaContext) (thumbnail : Option MulterFile)
      (shared_with : Option (List Text))
      → Action
  share : (id : Text) (users : List Text) → Action
  delete : (id : Text) (ip agent : Option Text) → Action
  get_metadata : (id : Text) → Action
  get_blob get_thumbnail stream_blob stream_thumbnail :
      (id : Text) (ip agent : Option Text) → Action
  get_user_quota : Action
  get_user_media : (page limit : ℕ) → Action

-- The world behind a request of `user`, whether it returned or threw.
unfoldable pub after : Text → Action → Env → World → World
after user (Action.upload file c t s) env w = (Upload.upload user file c t s env w).1
after user (Action.share id users) env w = (Share.share id user users env w).1
after user (Action.delete id ip agent) env w = (Delete.delete id user ip agent env w).1
after user (Action.get_metadata id) env w = (Read.get_metadata id user env w).1
after user (Action.get_blob id ip agent) env w = (Read.get_blob id user ip agent env w).1
after user (Action.get_thumbnail id ip agent) env w = (Read.get_thumbnail id user ip agent env w).1
after user (Action.stream_blob id ip agent) env w = (Read.stream_blob id user ip agent env w).1
after user (Action.stream_thumbnail id ip agent) env w =
    (Read.stream_thumbnail id user ip agent env w).1
after user Action.get_user_quota env w = (Account.get_user_quota user env w).1
after user (Action.get_user_media page limit) env w =
    (Account.get_user_media user page limit env w).1

-- The user's id is a UUID, and the id that `randomUUID` generates is that of no row.
pub record IsFresh (user : Text) (env : Env) (w : World) : Type 0 where
  pub user_uuid : is_uuid user ≡ true
  pub new_id : any (has_id env.random_uuid) (listing w) ≡ false

get_user_quota-Calm : (v : World) (u : Text) → Keeps (Calm v) (Account.get_user_quota u)
unfolding Account.get_user_quota
get_user_quota-Calm v u = search (keeps_rules, calm_rules)

get_user_media-Calm :
    (v : World) (u : Text) (page limit : ℕ) → Keeps (Calm v) (Account.get_user_media u page limit)
unfolding Account.get_user_media
get_user_media-Calm v u page limit = search (keeps_rules, calm_rules)

pub after-Step :
    (user : Text) (a : Action) (env : Env) (w : World)
    → IsHonest w
    → IsFresh user env w
    → Step user w (after user a env w)
unfolding after
after-Step user (Action.upload file c t s) env w honest fresh =
    upload-Step user fresh.user_uuid file c t s env w honest fresh.new_id
after-Step user (Action.share id users) env w honest fresh = share-Step id user users env w
after-Step user (Action.delete id ip agent) env w honest fresh = delete-Step id user ip agent env w
after-Step user (Action.get_metadata id) env w honest fresh =
    Calm-Step user w _ ((get_metadata-Calm w id user).at env w (Calm-refl w))
after-Step user (Action.get_blob id ip agent) env w honest fresh =
    Calm-Step user w _ ((get_blob-Calm w id user ip agent).at env w (Calm-refl w))
after-Step user (Action.get_thumbnail id ip agent) env w honest fresh =
    Calm-Step user w _ ((get_thumbnail-Calm w id user ip agent).at env w (Calm-refl w))
after-Step user (Action.stream_blob id ip agent) env w honest fresh =
    Calm-Step user w _ ((stream_blob-Calm w id user ip agent).at env w (Calm-refl w))
after-Step user (Action.stream_thumbnail id ip agent) env w honest fresh =
    Calm-Step user w _ ((stream_thumbnail-Calm w id user ip agent).at env w (Calm-refl w))
after-Step user Action.get_user_quota env w honest fresh =
    Calm-Step user w _ ((get_user_quota-Calm w user).at env w (Calm-refl w))
after-Step user (Action.get_user_media page limit) env w honest fresh =
    Calm-Step user w _ ((get_user_media-Calm w user page limit).at env w (Calm-refl w))

-- Whatever a user asks, and whichever external calls fail: the map from ids to live media is
-- afterwards as it was, or has one new media of that user under an id that was free, or one media of
-- that user lets more users read it, or one media of that user is gone. The condition is that the
-- user's id is a UUID, the generated id is that of no row, and the deduplication entries name media
-- of their users.
pub request_refines :
    (user : Text) (a : Action) (env : Env) (w : World)
    → IsHonest w
    → IsFresh user env w
    → Transition user (registry w) (registry (after user a env w))
request_refines user a env w honest fresh =
    Change-Transition user (listing w) (listing (after user a env w))
      (after-Step user a env w honest fresh).change

-- A sequence of requests by users of whom `P` holds.
pub data Reach (P : Text → Type 0) (w : World) : World → Type 0 where
  here : Reach P w w
  next :
      {v : World}
      → Reach P w v
      → (user : Text) (a : Action) (env : Env) → P user
      → IsFresh user env v
      → Reach P w (after user a env v)

-- In every world that requests lead to, the deduplication entries name media of the users whose
-- uploads made them, if they did so in the first world, the users' ids are UUIDs, and each generated
-- id is that of no row when it is generated.
pub Reach-IsHonest : (P : Text → Type 0) (w v : World) → IsHonest w → Reach P w v → IsHonest v
Reach-IsHonest P w v honest here = honest
Reach-IsHonest P w v honest (next {v = u} r user a env p fresh) =
    let before = Reach-IsHonest P w u honest r in
    Step-IsHonest user u (after user a env u) fresh.user_uuid before
      (after-Step user a env u before fresh)
