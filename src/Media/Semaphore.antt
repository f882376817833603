-- ===== src/Media/Semaphore.antt =====
-- The counter that bounds a user's concurrent uploads: `acquireSemaphore`, `releaseSemaphore` and
-- `runWithSemaphoreTtlRefresh` of src/modules/media/media.service.ts. The refresh of the key's time
-- to live runs beside the operation, and its failures are logged: it is no step of the model, in
-- which the key does not expire during a request.
pub mod Laws
use media_service.Base.{
  ℕ, ℤ, pos, negsuc, suc_ℤ, pred_ℤ, is_positive, Bool, true, false, Option, none, some, Text, codes,
  text_eq, ltb, ◌++◌, if◌then◌else◌, get_or_else, not,
}
use media_service.Errors.{Error, Result, ok, err}
use media_service.World.State.{World, Env}
use media_service.World.Monad.{M, pure, throw, external, ◌>>=◌, ◌>>◌, finally_do}

abbrev pub max_concurrent_uploads : ℕ
max_concurrent_uploads = 3

unfoldable pub semaphore_key : Text → Text
semaphore_key user_id = codes "upload:semaphore:" ++ user_id

abbrev pub set_counter : Text → Option ℤ → World → World
set_counter key v w = record w { counters = λ k. if text_eq k key then v else w.counters k }

-- A key that is not there counts as 0.
abbrev pub count_of : World → Text → ℤ
count_of w key = get_or_else (w.counters key) (pos 0)

incr : Text → M ℤ
incr key = external (λ w. let n = suc_ℤ (count_of w key) in (n, set_counter key (some n) w))

decr : Text → M ℤ
decr key = external (λ w. let n = pred_ℤ (count_of w key) in (n, set_counter key (some n) w))

del : Text → M (Unit {0})
del key = external (λ w. (tt, set_counter key none w))

-- The time to live is not kept.
expire : Text → M (Unit {0})
expire key = external (λ w. (tt, w))

abbrev pub is_above : ℤ → ℕ → Bool
is_above (pos n) limit = ltb limit n
is_above (negsuc n) limit = false

-- The test behind the increment, with its roll-back.
bound_slots : Text → ℤ → M (Unit {0})
bound_slots user_id count =
    if is_above count max_concurrent_uploads
    then decr (semaphore_key user_id) >> throw Error.too_many_requests
    else pure tt

unfoldable pub acquire_semaphore : Text → M (Unit {0})
unfolding incr decr expire bound_slots
acquire_semaphore user_id = do
  count ← incr (semaphore_key user_id)
  expire (semaphore_key user_id)
  bound_slots user_id count

unfoldable pub release_semaphore : Text → M (Unit {0})
unfolding decr del
release_semaphore user_id = do
  remaining ← decr (semaphore_key user_id)
  if is_positive remaining then pure tt else del (semaphore_key user_id)

-- `acquireSemaphore`, then the operation with `releaseSemaphore` in its `finally`.
unfoldable pub with_semaphore : {A : Type 0} → Text → M A → M A
with_semaphore user_id operation = do
  acquire_semaphore user_id
  finally_do operation (release_semaphore user_id)
