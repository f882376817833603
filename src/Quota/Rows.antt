-- ===== src/Quota/Rows.antt =====
-- The rows of `user_quotas` and the pure parts of src/modules/media/quota.service.ts: the decision
-- of `checkQuota`, the SQL updates of `recordUpload` and `recordDelete`, and the update of
-- `media.reset_daily_uploads()`. Sums are natural numbers; the 64-bit bound of the column, at which
-- the database refuses an update, is left out.
use media_service.Base.{
  ℕ, ◌+◌, ◌-◌, Bool, true, false, Option, none, some, List, [], ◌∷◌, ◌++◌, Text, text_eq, leb, ltb,
  find, any, if◌then◌else◌, to_decimal, from_decimal, ℤ, pos, negsuc,
}
use media_service.Errors.{Error, TooLarge, Result, ok, err}
use media_service.World.Records.{UserQuota, CachedQuota}

-- src/modules/media/quota.constants.ts
abbrev pub default_storage_limit_bytes : ℕ
default_storage_limit_bytes = 1073741824

abbrev pub default_files_limit : ℕ
default_files_limit = 1000

abbrev pub default_daily_upload_limit : ℕ
default_daily_upload_limit = 100

abbrev pub max_safe_integer : ℕ
max_safe_integer = 9007199254740991

-- A `number`: an integer, or a fraction, an infinity or NaN.
pub data JsNumber : Type 0 where
  integral : ℤ → JsNumber
  other : JsNumber

-- `validateBlobSize`, with the size that the caller goes on with.
unfoldable pub validate_blob_size : JsNumber → Result ℕ
validate_blob_size JsNumber.other = err Error.bad_request
validate_blob_size (JsNumber.integral (negsuc n)) = err Error.bad_request
validate_blob_size (JsNumber.integral (pos n)) =
    if leb n max_safe_integer then ok n else err Error.bad_request

pub record QuotaCheckResult : Type 0 where
  pub allowed : Bool
  pub reason : Option TooLarge
  pub quota : UserQuota

-- The tests of `checkQuota`, in order.
unfoldable pub check_limits : UserQuota → ℕ → QuotaCheckResult
check_limits q blob_size =
    if ltb q.storage_limit (q.storage_used + blob_size)
    then record { allowed = false; reason = some TooLarge.storage_limit; quota = q }
    else if leb q.files_limit q.files_count
    then record { allowed = false; reason = some TooLarge.files_limit; quota = q }
    else if leb q.daily_upload_limit q.daily_uploads
    then record { allowed = false; reason = some TooLarge.daily_limit; quota = q }
    else record { allowed = true; reason = none; quota = q }

-- The row that a first access inserts.
abbrev pub new_quota : Text → Text → ℕ → UserQuota
new_quota id user_id today = record {
  id = id;
  user_id = user_id;
  storage_used = 0;
  storage_limit = default_storage_limit_bytes;
  files_count = 0;
  files_limit = default_files_limit;
  daily_uploads = 0;
  daily_upload_limit = default_daily_upload_limit;
  quota_date = today;
}

-- The SQL `SET` of `recordUpload`.
abbrev pub after_upload : ℕ → UserQuota → UserQuota
after_upload blob_size q = record q {
  storage_used = q.storage_used + blob_size;
  files_count = q.files_count + 1;
  daily_uploads = q.daily_uploads + 1;
}

-- The SQL `SET` of `recordDelete`: `GREATEST(0, a - b)` is subtraction that stops at 0.
abbrev pub after_delete : ℕ → UserQuota → UserQuota
after_delete blob_size q = record q {
  storage_used = q.storage_used - blob_size;
  files_count = q.files_count - 1;
}

abbrev pub is_of : Text → UserQuota → Bool
is_of user_id q = text_eq q.user_id user_id

-- `findOne({ where: { userId } })`
unfoldable pub find_quota : Text → List UserQuota → Option UserQuota
find_quota user_id rows = find (is_of user_id) rows

-- `UPDATE … WHERE user_id = :userId`, and whether a row was affected.
unfoldable pub update_quota : Text → (UserQuota → UserQuota) → List UserQuota → List UserQuota
update_quota user_id f [] = []
update_quota user_id f (q ∷ rows) =
    (if is_of user_id q then f q else q) ∷ update_quota user_id f rows

unfoldable pub affected : Text → List UserQuota → Bool
affected user_id rows = any (is_of user_id) rows

-- `INSERT … ON CONFLICT DO NOTHING` on the unique index of the user.
unfoldable pub insert_or_ignore : UserQuota → List UserQuota → List UserQuota
unfolding affected
insert_or_ignore q rows = if affected q.user_id rows then rows else rows ++ q ∷ []

-- The SQL of `media.reset_daily_uploads()`.
abbrev pub is_stale : ℕ → UserQuota → Bool
is_stale today q = ltb q.quota_date today

abbrev pub reset_row : ℕ → UserQuota → UserQuota
reset_row today q = record q { daily_uploads = 0; quota_date = today }

unfoldable pub reset_daily_uploads_sql : ℕ → List UserQuota → List UserQuota
reset_daily_uploads_sql today [] = []
reset_daily_uploads_sql today (q ∷ rows) =
    (if is_stale today q then reset_row today q else q) ∷ reset_daily_uploads_sql today rows

unfoldable pub stale_users : ℕ → List UserQuota → List Text
stale_users today [] = []
stale_users today (q ∷ rows) =
    if is_stale today q then q.user_id ∷ stale_users today rows else stale_users today rows

-- The DTO that is cached, and the row that a cache hit yields.
unfoldable pub serialise : UserQuota → CachedQuota
serialise q = record {
  id = q.id;
  user_id = q.user_id;
  storage_used = to_decimal q.storage_used;
  storage_limit = to_decimal q.storage_limit;
  files_count = q.files_count;
  files_limit = q.files_limit;
  daily_uploads = q.daily_uploads;
  daily_upload_limit = q.daily_upload_limit;
  quota_date = q.quota_date;
}

unfoldable pub rehydrate : CachedQuota → UserQuota
rehydrate c = record {
  id = c.id;
  user_id = c.user_id;
  storage_used = from_decimal c.storage_used;
  storage_limit = from_decimal c.storage_limit;
  files_count = c.files_count;
  files_limit = c.files_limit;
  daily_uploads = c.daily_uploads;
  daily_upload_limit = c.daily_upload_limit;
  quota_date = c.quota_date;
}
