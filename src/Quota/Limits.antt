-- ===== src/Quota/Limits.antt =====
-- The arithmetic of the quota: what the check lets through, and what an upload and a deletion do.
use media_service.Base.{
  ℕ, ◌+◌, ◌≤◌, ◌<◌, ◌≡◌, ◌≢◌, ◌↔◌, inl, inr, refl, true, some, List, [], ◌∷◌, Text, text_eq_iff,
  arith, if◌then◌else◌, Bool-cases, map_some, from_decimal-to_decimal, All, pos, negsuc,
}
use media_service.Errors.{TooLarge, ok}
use media_service.World.Records.{UserQuota}
use media_service.Quota.Rows.{
  JsNumber, validate_blob_size, check_limits, after_upload, after_delete, is_of, find_quota,
  update_quota, reset_daily_uploads_sql, serialise, rehydrate, is_stale, reset_row,
}

-- No count is above its limit.
pub record IsWithin (q : UserQuota) : Type 0 where
  pub storage : q.storage_used ≤ q.storage_limit
  pub files : q.files_count ≤ q.files_limit
  pub daily : q.daily_uploads ≤ q.daily_upload_limit

-- The check allows an upload exactly if the blob still fits and both counts are below their
-- limits.
pub check_limits_iff :
    (q : UserQuota) (size : ℕ)
    → ((check_limits q size).allowed ≡ true) ↔ (
        (q.storage_used + size ≤ q.storage_limit)
        × (q.files_count < q.files_limit)
        × (q.daily_uploads < q.daily_upload_limit))
unfolding check_limits
check_limits_iff q size = (λ h. (ground arith, ground arith, ground arith), λ h. ground arith)

-- The reason of a refusal is the first limit that is met: storage, then files, then the day's.
pub check_limits_reason :
    (q : UserQuota) (size : ℕ)
    → let r = (check_limits q size).reason in
      ((r ≡ some TooLarge.storage_limit) ↔ (q.storage_limit < q.storage_used + size))
      × ((r ≡ some TooLarge.files_limit)
          ↔ ((q.storage_used + size ≤ q.storage_limit) × (q.files_limit ≤ q.files_count)))
      × ((r ≡ some TooLarge.daily_limit) ↔ (
          (q.storage_used + size ≤ q.storage_limit)
          × (q.files_count < q.files_limit)
          × (q.daily_upload_limit ≤ q.daily_uploads)))
unfolding check_limits
check_limits_reason q size = (
  (λ h. ground arith, λ h. ground arith),
  (λ h. (ground arith, ground arith), λ h. ground arith),
  (λ h. (ground arith, ground arith, ground arith), λ h. ground arith),
)

-- The row that the check allowed an upload on has no count above its limit once that upload is
-- added to it.
pub after_upload-IsWithin :
    (q : UserQuota) (size : ℕ)
    → (check_limits q size).allowed ≡ true
    → IsWithin (after_upload size q)
after_upload-IsWithin q size h =
    let (fits, files, daily) = (check_limits_iff q size).0 h in
    record { storage = omega arith; files = omega arith; daily = omega arith }

-- A deletion keeps the row within its limits, and undoes the storage and the count of an upload of
-- that size; the day's uploads stay counted.
pub after_delete-after_upload :
    (q : UserQuota) (size : ℕ)
    → let r = after_delete size (after_upload size q) in
      (r.storage_used ≡ q.storage_used)
      × (r.files_count ≡ q.files_count)
      × (r.daily_uploads ≡ q.daily_uploads + 1)
after_delete-after_upload q size = (omega arith, omega arith, refl)

-- A size passes the validation exactly if it is an integer from 0 to 2^53 - 1.
pub validate_blob_size_iff :
    (x : JsNumber) (n : ℕ)
    → (validate_blob_size x ≡ ok n) ↔ ((x ≡ JsNumber.integral (pos n)) × (n ≤ 9007199254740991))
unfolding validate_blob_size
validate_blob_size_iff JsNumber.other n = (λ h. cc, λ h. cc)
validate_blob_size_iff (JsNumber.integral (negsuc k)) n = (λ h. cc, λ h. cc)
validate_blob_size_iff (JsNumber.integral (pos k)) n =
    (λ h. (ground arith, ground arith), λ h. ground arith)

-- What the cache gives back is the row that was cached.
pub rehydrate-serialise : (q : UserQuota) → rehydrate (serialise q) ≡ q
unfolding rehydrate serialise
rehydrate-serialise q =
    ground (arith, from_decimal-to_decimal q.storage_used, from_decimal-to_decimal q.storage_limit)

find_quota-update_self :
    (u : Text) (f : UserQuota → UserQuota) (rows : List UserQuota)
    → ((q : UserQuota) → (f q).user_id ≡ q.user_id)
    → find_quota u (update_quota u f rows) ≡ map_some f (find_quota u rows)
unfolding find_quota update_quota
find_quota-update_self u f [] same = refl
find_quota-update_self u f (q ∷ rows) same = elim (Bool-cases (is_of u q)) [
  | inl here ↦ rw (here, same q, here)
  | inr other ↦ rw (other, other) (find_quota-update_self u f rows same)
]

find_quota-update_ne :
    (u v : Text) (f : UserQuota → UserQuota) (rows : List UserQuota)
    → ((q : UserQuota) → (f q).user_id ≡ q.user_id)
    → u ≢ v
    → find_quota v (update_quota u f rows) ≡ find_quota v rows
unfolding find_quota update_quota
find_quota-update_ne u v f [] same ne = refl
find_quota-update_ne u v f (q ∷ rows) same ne = elim (Bool-cases (is_of u q)) [
  | inl here ↦
      let mine = (text_eq_iff q.user_id u).0 here in
      ground (
        arith,
        same q,
        find_quota-update_ne u v f rows same ne,
        text_eq_iff q.user_id v,
        text_eq_iff q.user_id u,
      )
  | inr other ↦ ground (arith, find_quota-update_ne u v f rows same ne)
]

-- What an upload and a deletion do to the table: the user's row is updated, every other user's
-- row is found as before.
pub update_quota_lem :
    (u v : Text) (size : ℕ) (rows : List UserQuota)
    → (find_quota u (update_quota u (after_upload size) rows)
        ≡ map_some (after_upload size) (find_quota u rows))
      × (find_quota u (update_quota u (after_delete size) rows)
          ≡ map_some (after_delete size) (find_quota u rows))
      × (u ≢ v
          → (find_quota v (update_quota u (after_upload size) rows) ≡ find_quota v rows)
            × (find_quota v (update_quota u (after_delete size) rows) ≡ find_quota v rows))
update_quota_lem u v size rows = (
  find_quota-update_self u (after_upload size) rows (λ q. refl),
  find_quota-update_self u (after_delete size) rows (λ q. refl),
  λ ne. (
    find_quota-update_ne u v (after_upload size) rows (λ q. refl) ne,
    find_quota-update_ne u v (after_delete size) rows (λ q. refl) ne,
  ),
)

-- The daily reset: afterwards no row is stale, a row that was stale has no uploads of the day and
-- today's date, every other row is as it was, and nothing else of a row changes.
pub reset_daily_uploads_sql_lem :
    (today : ℕ) (u : Text) (rows : List UserQuota)
    → All (λ q. today ≤ q.quota_date) (reset_daily_uploads_sql today rows)
      × (find_quota u (reset_daily_uploads_sql today rows)
          ≡ map_some (λ q. if is_stale today q then reset_row today q else q) (find_quota u rows))
unfolding reset_daily_uploads_sql find_quota
reset_daily_uploads_sql_lem today u [] = (tt, refl)
reset_daily_uploads_sql_lem today u (q ∷ rows) =
    let (fresh, found) = reset_daily_uploads_sql_lem today u rows in
    ((ground arith, fresh), ground arith)
