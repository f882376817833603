-- ===== src/Quota/Service/Checks.antt =====
-- What the pre-upload check rests on: the cached quota, or the row of the user.
use media_service.Base.{ℕ, ◌+◌, ◌≤◌, ◌<◌, ◌≡◌, sym, ap, ◌∙◌, pos, true, Text, arith}
use media_service.Errors.{ok}
use media_service.World.Records.{UserQuota}
use media_service.World.State.{World, Env}
use media_service.World.Monad.{pure, throw, lift, ◌>>=◌}
use media_service.World.Returns.{bind_ok}
use media_service.Quota.Rows.{JsNumber, validate_blob_size, QuotaCheckResult, check_limits}
use media_service.Quota.Limits.{validate_blob_size_iff, check_limits_iff}
use media_service.Quota.Service.{get_or_create_quota, check_quota, throw_reason, enforce_quota}

throw_reason_ok :
    (r : QuotaCheckResult) (env : Env) (w : World)
    → (throw_reason r env w).0 ≡ ok tt
    → r.allowed ≡ true
unfolding throw_reason pure throw
throw_reason_ok r env w h = ground arith

-- A quota that let the upload of `n` bytes through: it was read, and it has room for them.
pub record HasRoom (u : Text) (n : ℕ) (env : Env) (w : World) : Type 0 where
  pub row : UserQuota
  pub read : (get_or_create_quota u env w).0 ≡ ok row
  pub fits : row.storage_used + n ≤ row.storage_limit
  pub another_file : row.files_count < row.files_limit
  pub another_today : row.daily_uploads < row.daily_upload_limit

check_quota_ok :
    (u : Text) (n : ℕ) (env : Env) (w : World) (r : QuotaCheckResult)
    → (check_quota u (JsNumber.integral (pos n)) env w).0 ≡ ok r
    → r.allowed ≡ true
    → HasRoom u n env w
unfolding check_quota ◌>>=◌
check_quota_ok u n env w r h a =
    let sized = λ (size : ℕ). get_or_create_quota u >>= λ q. pure (check_limits q size) in
    let (size, valid, e) =
      bind_ok (lift (validate_blob_size (JsNumber.integral (pos n)))) sized env w h in
    let (q, read, e') =
      bind_ok (get_or_create_quota u) (λ q. pure (check_limits q size)) env w
        (ap (λ x. x.0) (sym e) ∙ h) in
    let same : n ≡ size =
      cc ((validate_blob_size_iff (JsNumber.integral (pos n)) size).0 valid).0 in
    let found : ok (check_limits q size) ≡ ok r =
      ap (λ x. x.0) (sym e') ∙ ap (λ x. x.0) (sym e) ∙ h in
    let room =
      ap (λ k. (check_limits q k).allowed) same ∙ allowed_of (check_limits q size) r found a in
    let (fits, another_file, another_today) = (check_limits_iff q n).0 room in
    record {
      row = q;
      read = read;
      fits = fits;
      another_file = another_file;
      another_today = another_today;
    }
  where
    allowed_of : (x y : QuotaCheckResult) → ok x ≡ ok y → y.allowed ≡ true → x.allowed ≡ true
    allowed_of x y e h = ground arith

-- A check that passes has read a quota with room for the blob.
pub enforce_quota_ok :
    (u : Text) (n : ℕ) (env : Env) (w : World)
    → (enforce_quota u (JsNumber.integral (pos n)) env w).0 ≡ ok tt
    → HasRoom u n env w
unfolding enforce_quota
enforce_quota_ok u n env w h =
    let x = JsNumber.integral (pos n) in
    let (r, checked, e) = bind_ok (check_quota u x) throw_reason env w h in
    check_quota_ok u n env w r checked (throw_reason_ok r env _ (ap (λ x. x.0) (sym e) ∙ h))
