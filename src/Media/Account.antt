-- ===== src/Media/Account.antt =====
-- What a user sees of their account: `getUserQuota` and `getUserMedia` of
-- src/modules/media/media.service.ts.
pub mod Laws
use media_service.Base.{
  ℕ, zero, suc, ◌+◌, ◌-◌, ◌*◌, ◌/◌, min, Bool, true, false, ◌&&◌, Option, none, some, List, [], ◌∷◌,
  map, Text, text_eq, ltb, leb, ◌==◌, if◌then◌else◌, filter, length, take, drop, get_or_else,
  map_some,
}
use media_service.World.Records.{Media, MediaContext, UserQuota}
use media_service.World.State.{World, Env}
use media_service.World.Monad.{M, pure, external, ◌>>=◌, transaction}
use media_service.Quota.Rows.{
  default_storage_limit_bytes, default_files_limit, default_daily_upload_limit, max_safe_integer,
  find_quota,
}

-- `UserQuotaResponseDto`; the percentage is kept in hundredths, as the source computes it.
pub record UserQuotaResponseDto : Type 0 where
  pub storage_used : ℕ
  pub storage_limit : ℕ
  pub files_count : ℕ
  pub files_limit : ℕ
  pub daily_uploads : ℕ
  pub daily_upload_limit : ℕ
  pub quota_date : Option ℕ
  pub usage_percent_hundredths : ℕ

-- `min(100, max(0, used * 10000 / limit / 100))`, and 0 without a limit.
unfoldable pub usage_percent_hundredths : ℕ → ℕ → ℕ
usage_percent_hundredths used zero = 0
usage_percent_hundredths used (suc n) = min 10000 ((used * 10000) / suc n)

abbrev pub clamp_safe : ℕ → ℕ
clamp_safe n = if ltb max_safe_integer n then max_safe_integer else n

-- The answer for a row, or for a user without one.
unfoldable pub quota_response : Option UserQuota → UserQuotaResponseDto
quota_response row =
    let used = get_or_else (map_some (λ (q : UserQuota). q.storage_used) row) 0 in
    let limit =
      get_or_else (map_some (λ (q : UserQuota). q.storage_limit) row) default_storage_limit_bytes in
    record {
      storage_used = clamp_safe used;
      storage_limit = clamp_safe limit;
      files_count = get_or_else (map_some (λ (q : UserQuota). q.files_count) row) 0;
      files_limit =
          get_or_else (map_some (λ (q : UserQuota). q.files_limit) row) default_files_limit;
      daily_uploads = get_or_else (map_some (λ (q : UserQuota). q.daily_uploads) row) 0;
      daily_upload_limit =
          get_or_else (map_some (λ (q : UserQuota). q.daily_upload_limit) row)
            default_daily_upload_limit;
      quota_date = map_some (λ (q : UserQuota). q.quota_date) row;
      usage_percent_hundredths = usage_percent_hundredths used limit;
    }

-- `getUserQuota`
unfoldable pub get_user_quota : Text → M UserQuotaResponseDto
get_user_quota user_id = do
  row ← transaction (external (λ w. (find_quota user_id w.quotas, w)))
  pure (quota_response row)

-- One entry of the listing.
pub record MediaItem : Type 0 where
  pub id : Text
  pub content_type : Text
  pub blob_size : ℕ
  pub context : MediaContext
  pub created_at : ℕ

unfoldable pub item_of : Media → MediaItem
item_of m = record {
  id = m.id;
  content_type = m.content_type;
  blob_size = m.blob_size;
  context = m.context;
  created_at = m.created_at;
}

pub record PaginatedMediaResponseDto : Type 0 where
  pub items : List MediaItem
  pub total : ℕ
  pub page : ℕ
  pub limit : ℕ
  pub total_pages : ℕ

-- `WHERE owner_id = … AND is_active`
abbrev pub is_listed : Text → Media → Bool
is_listed user_id m = text_eq m.owner_id user_id && m.is_active

-- `ORDER BY created_at DESC`; rows of one time keep the order of the table.
unfoldable pub insert_newest : Media → List Media → List Media
insert_newest m [] = m ∷ []
insert_newest m (n ∷ rows) =
    let rest = insert_newest m rows in
    if leb n.created_at m.created_at then m ∷ n ∷ rows else n ∷ rest

unfoldable pub newest_first : List Media → List Media
newest_first [] = []
newest_first (m ∷ rows) = insert_newest m (newest_first rows)

unfoldable pub listed_media : Text → List Media → List Media
listed_media user_id rows = newest_first (filter (is_listed user_id) rows)

-- `skip: (page - 1) * limit, take: limit`; the controller passes pages from 1 on.
unfoldable pub page_of {ℓ} : {A : Type ℓ} → List A → ℕ → ℕ → List A
page_of rows page limit = take limit (drop ((page - 1) * limit) rows)

-- `Math.ceil(total / limit)`
unfoldable pub total_pages_of : ℕ → ℕ → ℕ
total_pages_of total limit = (total + (limit - 1)) / limit

-- `getUserMedia`
unfoldable pub get_user_media : Text → ℕ → ℕ → M PaginatedMediaResponseDto
get_user_media user_id page limit = do
  rows ← transaction (external (λ w. (listed_media user_id w.media, w)))
  pure (record {
    items = map item_of (page_of rows page limit);
    total = length rows;
    page = page;
    limit = limit;
    total_pages = total_pages_of (length rows) limit;
  })
