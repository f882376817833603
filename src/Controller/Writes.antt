-- ===== src/Controller/Writes.antt =====
-- The handlers that change a media, behind the guard.
use media_service.Base.{◌≡◌, refl, sym, ap, ◌∙◌, false, Option, some, List, Text, map_some}
use media_service.Errors.{ok}
use media_service.World.Records.{Media}
use media_service.World.State.{World, Env}
use media_service.World.Monad.{lift}
use media_service.World.Returns.{bind_ok}
use media_service.Media.Share.Laws.{IsOwned, IsShared, IsShared-eq, share_ok}
use media_service.Media.Delete.Released.{IsReleased, delete_ok}
use media_service.Media.Repository.{find_live}
use media_service.Auth.{AuthUser, Verifier, can_activate}
use media_service.Auth.Laws.{IsAuthenticated}
use media_service.Controller.{
  Request, given, required, extract_client_ip, share_handler, delete_handler,
}
use media_service.Controller.Laws.{required_ok, given-some}
use media_service.Controller.Guarded.{
  user_id_of, named_user, guarded, can_activate_ok, can_activate-Keeps,
}

-- The request with the user that the guard left.
abbrev with_user : Option AuthUser → Request → Request
with_user o req = record req { user_id = map_some user_id_of o }

share_handler_ok :
    (id : Text) (req : Request) (users : List Text) (env : Env) (w : World) {next : List Text}
    → (share_handler id req users env w).0 ≡ ok next
    → (user : Text) × (req.user_id ≡ some user)
      × (m : Media) × IsOwned id user m w
      × IsShared id users m next w.media (share_handler id req users env w).1.media
unfolding share_handler lift
share_handler_ok id req users env w h =
    let (user, known, e) = bind_ok (lift (required (given req.user_id))) _ env w h in
    let (m, owned, shared) = share_ok id user users env w (ap (λ x. x.0) (sym e) ∙ h) in
    (
      user,
      given-some req.user_id (required_ok (given req.user_id) known),
      m,
      owned,
      IsShared-eq id users m _ refl refl (ap (λ x. x.1.media) e) shared,
    )

delete_handler_ok :
    (id : Text) (req : Request) (env : Env) (w : World)
    → (delete_handler id req env w).0 ≡ ok tt
    → (user : Text) × (req.user_id ≡ some user)
      × IsReleased id user w (delete_handler id req env w).1
unfolding delete_handler lift
delete_handler_ok id req env w h =
    let (user, known, e) = bind_ok (lift (required (given req.user_id))) _ env w h in
    let released =
      delete_ok id user (extract_client_ip req) req.user_agent env w (ap (λ x. x.0) (sym e) ∙ h) in
    (user, given-some req.user_id (required_ok (given req.user_id) known), rw e released)

-- Behind the guard, a share that is answered was sent with a bearer token that the loaded key
-- verifies and that is not revoked, and the subject of that token owns the live media, whose list
-- it answers, widened by the users given. The rows are those of the world before the guard.
pub guarded_share_ok :
    (v : Verifier) (header : Option Text) (id : Text) (users : List Text) (req : Request)
    (env : Env) (w : World) {next : List Text}
    → (guarded v header (λ r. share_handler id r users) req env w).0 ≡ ok next
    → (user : AuthUser) × IsAuthenticated v header user w
      × (m : Media) × IsOwned id user.user_id m w
      × IsShared id users m next w.media
          (guarded v header (λ r. share_handler id r users) req env w).1.media
unfolding guarded
guarded_share_ok v header id users req env w h =
    let u = (can_activate false v header env w).1 in
    let (o, passed, e) =
      bind_ok (can_activate false v header) (λ x. share_handler id (with_user x req) users) env w
        h in
    let (user, there, known) = can_activate_ok v header env w passed in
    let (name, set, m, owned, shared) =
      share_handler_ok id (with_user o req) users env u (ap (λ x. x.0) (sym e) ∙ h) in
    let rows : u.media ≡ w.media = (can_activate-Keeps v header w.media).at env w refl in
    let same = named_user user set there in
    (
      user,
      known,
      m,
      record { live = ap (find_live id) (sym rows) ∙ owned.live; mine = owned.mine ∙ same },
      IsShared-eq id users m _ refl rows (ap (λ x. x.1.media) e) shared,
    )

IsReleased-eq :
    (id : Text) {user user' : Text} (u : World) {v v' : World}
    → user ≡ user'
    → v' ≡ v
    → IsReleased id user u v
    → IsReleased id user' u v'
IsReleased-eq id u e f r = rw (sym e, f) r

-- Behind the guard, a deletion that returns was sent with a bearer token that the loaded key
-- verifies and that is not revoked, and the subject of that token owned the live media in the world
-- behind the guard. Afterwards no live row has the id, neither the blob nor the thumbnail is stored,
-- and the subject's quota is without the media.
pub guarded_delete_ok :
    (v : Verifier) (header : Option Text) (id : Text) (req : Request) (env : Env) (w : World)
    → (guarded v header (delete_handler id) req env w).0 ≡ ok tt
    → (user : AuthUser) × IsAuthenticated v header user w
      × IsReleased id user.user_id
          (can_activate false v header env w).1
          (guarded v header (delete_handler id) req env w).1
unfolding guarded
guarded_delete_ok v header id req env w h =
    let u = (can_activate false v header env w).1 in
    let (o, passed, e) =
      bind_ok (can_activate false v header) (λ x. delete_handler id (with_user x req)) env w h in
    let (user, there, known) = can_activate_ok v header env w passed in
    let (name, set, released) =
      delete_handler_ok id (with_user o req) env u (ap (λ x. x.0) (sym e) ∙ h) in
    let same = named_user user set there in
    (user, known, IsReleased-eq id u same (ap (λ x. x.1) e) released)
