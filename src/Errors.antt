-- ===== src/Errors.antt =====
-- The errors that the service throws, with the HTTP status each one reaches the client with, and
-- the result of a call that may throw. `internal` is a plain `Error`, `type_error` a failed
-- property access, `fault` the rejection of a call to the database, Redis, S3 or another service.
use media_service.Base.{ℕ, ◌≡◌, ◌↔◌, refl, Bool, true, false}

pub data TooLarge : Type 0 where
  storage_limit files_limit daily_limit context_size image_dimensions thumbnail_size : TooLarge

pub data Error : Type 0 where
  bad_request unauthorized forbidden not_found unsupported_media_type unprocessable_entity : Error
  too_many_requests service_unavailable internal type_error fault : Error
  payload_too_large : TooLarge → Error

-- The framework answers 500 for what is not an `HttpException`.
pub status : Error → ℕ
status Error.bad_request = 400
status Error.unauthorized = 401
status Error.forbidden = 403
status Error.not_found = 404
status (Error.payload_too_large r) = 413
status Error.unsupported_media_type = 415
status Error.unprocessable_entity = 422
status Error.too_many_requests = 429
status Error.service_unavailable = 503
status Error.internal = 500
status Error.type_error = 500
status Error.fault = 500

pub data Result {ℓ} (A : Type ℓ) : Type ℓ where
  ok : A → Result A
  err : Error → Result A

-- `if (test) throw e`
abbrev pub throw_if : Bool → Error → Result (Unit {0})
throw_if true e = err e
throw_if false e = ok tt

-- A throw under a test that decides `P`.
pub throw_if_iff :
    {P : Type 0} (b : Bool) (e : Error)
    → (b ≡ true) ↔ P
    → ((throw_if b e ≡ err e) ↔ P) × ((throw_if b e ≡ ok tt) ↔ ¬ P)
throw_if_iff true e d = ((λ h. d.0 refl, λ p. refl), (λ h. cc, λ n. absurd (n (d.0 refl))))
throw_if_iff false e d = ((λ h. cc, λ p. cc (d.1 p)), (λ h p. cc (d.1 p), λ n. refl))
