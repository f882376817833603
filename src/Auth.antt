-- ===== src/Auth.antt =====
-- The guard of the routes: src/modules/auth/jwt-auth.guard.ts. Verification of a token's signature
-- and its validity is the JWT library's, a function of the key and the token.
pub mod Laws
use media_service.Base.{
  Bool, true, false, not, ◌&&◌, ◌||◌, Option, none, some, List, [], ◌∷◌, ◌++◌, Text, codes,
  starts_with, drop, is_some, if◌then◌else◌,
}
use media_service.Errors.{Error, Result, ok, err, throw_if}
use media_service.World.State.{World, Env}
use media_service.World.Monad.{M, pure, throw, lift, external, ◌>>=◌, ◌>>◌}
use media_service.Media.Read.{path_of}

-- `interface JwtPayload`; a field that is missing is none.
pub record JwtPayload : Type 0 where
  pub sub : Option Text
  pub jti : Option Text
  pub device_id : Option Text
  pub fingerprint : Option Text

-- The user that the guard leaves on the request.
pub record AuthUser : Type 0 where
  pub user_id : Text
  pub jti : Text
  pub device_id : Text
  pub fingerprint : Option Text

-- `getPublicKeyPem`, and `verifyAsync` with that key.
pub record Verifier : Type 0 where
  pub public_key_pem : Option Text
  pub verify : Text → Text → Option JwtPayload

-- `extractBearerToken`
unfoldable pub extract_bearer_token : Option Text → Option Text
extract_bearer_token none = none
extract_bearer_token (some header) =
    if starts_with header (codes "Bearer ") then some (drop 7 header) else none

-- A value that is there and not empty, or 401.
unfoldable pub required_text : Option Text → Result Text
required_text none = err Error.unauthorized
required_text (some []) = err Error.unauthorized
required_text (some (c ∷ s)) = ok (c ∷ s)

unfoldable pub verified : Option JwtPayload → Result JwtPayload
verified none = err Error.unauthorized
verified (some payload) = ok payload

unfoldable pub token_key : Text → Text
token_key jti = codes "revoked:" ++ jti

unfoldable pub device_key : Text → Text
device_key device = codes "revoked_device:" ++ device

unfoldable pub look_up : Text → M Bool
look_up key = external (λ w. (is_some (w.revoked key), w))

-- The two lookups of the revocations; either refuses the token.
unfoldable pub check_revoked : Text → Text → M (Unit {0})
unfolding look_up
check_revoked jti device = do
  token_revoked ← look_up (token_key jti)
  device_revoked ← look_up (device_key device)
  lift (throw_if (token_revoked || device_revoked) Error.unauthorized)

-- `canActivate` on a route that is not public.
unfoldable pub authenticate : Verifier → Option Text → M AuthUser
authenticate v header = do
  token ← lift (required_text (extract_bearer_token header))
  pem ← lift (required_text v.public_key_pem)
  payload ← lift (verified (v.verify pem token))
  sub ← lift (required_text payload.sub)
  jti ← lift (required_text payload.jti)
  device ← lift (required_text payload.device_id)
  check_revoked jti device
  pure (record { user_id = sub; jti = jti; device_id = device; fingerprint = payload.fingerprint })

-- `canActivate`: the user that is left on the request, if any.
unfoldable pub can_activate : Bool → Verifier → Option Text → M (Option AuthUser)
can_activate true v header = pure none
can_activate false v header = do user ← authenticate v header; pure (some user)
