-- ===== src/Quota/Service.antt =====
-- The methods of `QuotaService` in src/modules/media/quota.service.ts, over PostgreSQL and Redis.
pub mod Frame
pub mod Checks
pub mod Deletions
use media_service.Base.{
  ℕ, ◌+◌, ◌*◌, ◌/◌, Bool, true, false, not, Option, none, some, List, [], ◌∷◌, ◌++◌, Text, codes,
  text_eq, leb, ◌==◌, if◌then◌else◌, to_decimal, ℤ, pos, get_or_else,
}
use media_service.Errors.{Error, TooLarge, Result, ok, err}
use media_service.World.Records.{UserQuota, CachedQuota, Event}
use media_service.World.State.{World, Env}
use media_service.World.Monad.{
  M, pure, throw, lift, ask, gets, external, modify, ◌>>=◌, ◌>>◌, attempt, fire_and_forget,
  transaction,
}
use media_service.World.Events.{publish_event}
use media_service.Quota.Rows.{
  JsNumber, validate_blob_size, QuotaCheckResult, check_limits, new_quota, after_upload,
  after_delete, find_quota, update_quota, affected, insert_or_ignore, reset_daily_uploads_sql,
  stale_users, serialise, rehydrate,
}

-- `cacheKey`
unfoldable pub cache_key : Text → Text
cache_key user_id = codes "quota:user:" ++ user_id

abbrev pub set_quota_cache : Text → Option CachedQuota → World → World
set_quota_cache key entry w = record w {
  quota_cache = λ k. if text_eq k key then entry else w.quota_cache k;
}

-- `invalidateCache`: a failure is logged.
unfoldable pub invalidate_cache : Text → M (Unit {0})
invalidate_cache user_id = do
  attempt (external (λ w. (tt, set_quota_cache (cache_key user_id) none w)))
  pure tt

find_row : Text → M (Option UserQuota)
find_row user_id = external (λ w. (find_quota user_id w.quotas, w))

insert_row : Text → Text → ℕ → M (Unit {0})
insert_row id user_id today =
    external
      (λ w. (tt, record w { quotas = insert_or_ignore (new_quota id user_id today) w.quotas }))

found_or_throw : Option UserQuota → M UserQuota
found_or_throw none = throw Error.internal
found_or_throw (some q) = pure q

-- The row that is there, or the one that is there after an insert that a concurrent one may have
-- made void. The id of a new row is the database's.
insert_missing : Text → Option UserQuota → M UserQuota
insert_missing user_id (some q) = pure q
insert_missing user_id none = do
  id ← ask (λ env. env.random_uuid)
  today ← ask (λ env. env.today)
  insert_row id user_id today
  row ← find_row user_id
  found_or_throw row

unfoldable pub load_quota : Text → M UserQuota
unfolding find_row insert_row insert_missing found_or_throw
load_quota user_id = do row ← find_row user_id; insert_missing user_id row

-- A cached entry, where the cache could be read and holds one.
abbrev pub hit : {A : Type 0} → Option (Option A) → Option A
hit none = none
hit (some entry) = entry

cached_or_loaded : Text → Option CachedQuota → M UserQuota
cached_or_loaded user_id (some c) = pure (rehydrate c)
cached_or_loaded user_id none = do
  quota ← transaction (load_quota user_id)
  attempt (external (λ w. (tt, set_quota_cache (cache_key user_id) (some (serialise quota)) w)))
  pure quota

-- `getOrCreateQuota`
unfoldable pub get_or_create_quota : Text → M UserQuota
unfolding cached_or_loaded
get_or_create_quota user_id = do
  cached ← attempt (external (λ w. (w.quota_cache (cache_key user_id), w)))
  cached_or_loaded user_id (hit cached)

-- `checkQuota`
unfoldable pub check_quota : Text → JsNumber → M QuotaCheckResult
check_quota user_id blob_size = do
  size ← lift (validate_blob_size blob_size)
  quota ← get_or_create_quota user_id
  pure (check_limits quota size)

-- A refusal always has a reason.
throw_reason : QuotaCheckResult → M (Unit {0})
throw_reason r =
    if r.allowed
    then pure tt
    else throw (Error.payload_too_large (get_or_else r.reason TooLarge.storage_limit))

-- `enforceQuota`
unfoldable pub enforce_quota : Text → JsNumber → M (Unit {0})
unfolding throw_reason
enforce_quota user_id blob_size = do result ← check_quota user_id blob_size; throw_reason result

-- One `UPDATE` of the user's row; no row is an error.
update_row : Text → (UserQuota → UserQuota) → M (Unit {0})
update_row user_id f = do
  found ←
      external
        (λ w. (affected user_id w.quotas, record w { quotas = update_quota user_id f w.quotas }))
  if found then pure tt else throw Error.internal

-- `publishQuotaAlert`
cooldown_key : Text → ℕ → Text
cooldown_key user_id percent =
    codes "quota:alert:cooldown:" ++ (user_id ++ (codes ":" ++ to_decimal percent))

-- `SET key 1 NX EX`: whether the key was free.
acquire_cooldown : Text → M Bool
acquire_cooldown key = external (λ w. (
  not (w.cooldowns key),
  record w { cooldowns = λ k. if text_eq k key then true else w.cooldowns k },
))

publish_quota_alert : Text → UserQuota → ℕ → M (Unit {0})
publish_quota_alert user_id q percent = do
  acquired ← acquire_cooldown (cooldown_key user_id percent)
  if acquired
      then publish_event (Event.quota_alert user_id q.storage_used q.storage_limit percent)
      else pure tt

abbrev pub percent_used : UserQuota → ℕ
percent_used q = (q.storage_used * 100) / q.storage_limit

-- `QUOTA_ALERT_THRESHOLDS`
abbrev pub quota_alert_thresholds : List ℕ
quota_alert_thresholds = 80 ∷ 95 ∷ []

-- The loop over the thresholds.
alert_each : Text → UserQuota → List ℕ → M (Unit {0})
alert_each user_id q [] = pure tt
alert_each user_id q (threshold ∷ rest) = do
  if leb threshold (percent_used q) then publish_quota_alert user_id q threshold else pure tt
  alert_each user_id q rest

-- `checkAndPublishQuotaAlert`
unfoldable pub check_and_publish_quota_alert : Text → M (Unit {0})
unfolding alert_each publish_quota_alert publish_event acquire_cooldown cooldown_key
check_and_publish_quota_alert user_id = do
  quota ← get_or_create_quota user_id
  if quota.storage_limit == 0 then pure tt else alert_each user_id quota quota_alert_thresholds

-- `recordUpload`: the alert runs beside the caller, and its failure is logged.
unfoldable pub record_upload : Text → JsNumber → M (Unit {0})
unfolding update_row
record_upload user_id blob_size = do
  size ← lift (validate_blob_size blob_size)
  transaction (update_row user_id (after_upload size))
  invalidate_cache user_id
  fire_and_forget (check_and_publish_quota_alert user_id)

-- `recordDelete`
unfoldable pub record_delete : Text → JsNumber → M (Unit {0})
unfolding update_row
record_delete user_id blob_size = do
  size ← lift (validate_blob_size blob_size)
  transaction (update_row user_id (after_delete size))
  invalidate_cache user_id

-- The loop over the affected users; the chunks of a hundred only spread the calls in time.
invalidate_all : List Text → M (Unit {0})
invalidate_all [] = pure tt
invalidate_all (user_id ∷ rest) = do invalidate_cache user_id; invalidate_all rest

-- `resetDailyUploads`
unfoldable pub reset_daily_uploads : M (Unit {0})
unfolding invalidate_all
reset_daily_uploads = do
  today ← ask (λ env. env.today)
  user_ids ← external (λ w.
      (stale_users today w.quotas, record w { quotas = reset_daily_uploads_sql today w.quotas }))
  invalidate_all user_ids
