-- ===== src/Controller/Guarded.antt =====
-- A handler behind the guard, as src/modules/auth/auth.module.ts puts it in front of every route.
use media_service.Base.{◌≡◌, refl, sym, ap, ◌∙◌, false, Option, some, List, Text, map_some}
use media_service.Errors.{ok}
use media_service.World.Records.{Media}
use media_service.World.State.{World, Env}
use media_service.World.Monad.{M, pure, ◌>>=◌}
use media_service.World.Keeps.{Keeps, IsStable, keeps_rules}
use media_service.World.Returns.{bind_returns}
use media_service.Media.Read.Laws.{IsAuthorised}
use media_service.Media.Repository.{find_live}
use media_service.Auth.{AuthUser, Verifier, authenticate, can_activate, check_revoked, look_up}
use media_service.Auth.Laws.{IsAuthenticated, authenticate_ok}
use media_service.Controller.{Request, BlobAnswer, blob_handler}
use media_service.Controller.Laws.{blob_handler_ok}

pub user_id_of : AuthUser → Text
user_id_of user = user.user_id

-- The guard leaves the user on the request, and the handler runs behind it.
unfoldable pub guarded : {A : Type 0} → Verifier → Option Text → (Request → M A) → Request → M A
unfolding user_id_of
guarded v header handler req = do
  user ← can_activate false v header
  handler (record req { user_id = map_some user_id_of user })

module _ (rows : List Media) where
  stable : IsStable (λ v. v.media ≡ rows)
  stable = record { counted = λ w h. h; rolled = λ w0 w h0 h. h0 }

  look_up-Keeps : (key : Text) → Keeps (λ v. v.media ≡ rows) (look_up key)
  unfolding look_up
  look_up-Keeps key = search (keeps_rules, stable)

  check_revoked-Keeps : (jti device : Text) → Keeps (λ v. v.media ≡ rows) (check_revoked jti device)
  unfolding check_revoked
  check_revoked-Keeps jti device = search (keeps_rules, look_up-Keeps)

  authenticate-Keeps :
      (v : Verifier) (header : Option Text) → Keeps (λ v. v.media ≡ rows) (authenticate v header)
  unfolding authenticate
  authenticate-Keeps v header = search (keeps_rules, check_revoked-Keeps) depth 14

pub can_activate_ok :
    (v : Verifier) (header : Option Text) (env : Env) (w : World) {o : Option AuthUser}
    → (can_activate false v header env w).0 ≡ ok o
    → (user : AuthUser) × (o ≡ some user) × IsAuthenticated v header user w
unfolding can_activate pure
can_activate_ok v header env w {o} h =
    let (user, returned, h1) = bind_returns (authenticate v header) _ env w h in
    (user, sym (injective h1), authenticate_ok v header env w returned)
  where
    injective : {a b : Option AuthUser} → ok a ≡ ok b → a ≡ b
    injective e = cc

pub can_activate-Keeps :
    (v : Verifier) (header : Option Text) (rows : List Media)
    → Keeps (λ v. v.media ≡ rows) (can_activate false v header)
unfolding can_activate
can_activate-Keeps v header rows = let kept = authenticate-Keeps rows in search (keeps_rules, kept)

IsAuthorised-eq :
    (id user user' : Text) (w w' : World)
    → user ≡ user'
    → w'.media ≡ w.media
    → IsAuthorised id user w'
    → IsAuthorised id user' w
IsAuthorised-eq id user user' w w' e same a = record {
  media = a.media;
  live = ap (find_live id) (sym same) ∙ a.live;
  allowed = rw (sym e) a.allowed;
}

pub named_user :
    (user : AuthUser) {o : Option AuthUser} {name : Text}
    → map_some user_id_of o ≡ some name
    → o ≡ some user
    → name ≡ user.user_id
unfolding user_id_of
named_user user e e' = cc

-- Behind the guard, the blob's handler answers only a request with a bearer token that the loaded
-- key verifies and that is not revoked, and only if the subject of that token may read a live media
-- of the id.
pub guarded_blob_ok :
    (v : Verifier) (header : Option Text) (id : Text) (stream : Option Text) (req : Request)
    (env : Env) (w : World) {answer : BlobAnswer}
    → (guarded v header (blob_handler id stream) req env w).0 ≡ ok answer
    → (user : AuthUser) × IsAuthenticated v header user w × IsAuthorised id user.user_id w
unfolding guarded
guarded_blob_ok v header id stream req env w h =
    let (o, passed, h1) = bind_returns (can_activate false v header) _ env w h in
    let w' = (can_activate false v header env w).1 in
    let (user, there, known) = can_activate_ok v header env w passed in
    let (name, set, allowed) =
      blob_handler_ok id stream (record req { user_id = map_some user_id_of o }) env w' h1 in
    (
      user,
      known,
      IsAuthorised-eq id name user.user_id w w' (named_user user set there)
          ((can_activate-Keeps v header w.media).at env w refl) allowed,
    )
