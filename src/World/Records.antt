-- ===== src/World/Records.antt =====
-- The rows, cache entries and events of the service: src/modules/media/entities, the DTOs of
-- src/modules/media/dto, and the plain objects that src/modules/media/quota.service.ts and
-- src/modules/media/media.service.ts keep in Redis. Times are milliseconds, dates are day numbers.
use media_service.Base.{ℕ, Bool, Option, List, Text, codes}

-- `enum MediaContext`
pub data MediaContext : Type 0 where
  message avatar group_icon : MediaContext

unfoldable pub context_text : MediaContext → Text
context_text MediaContext.message = codes "message"
context_text MediaContext.avatar = codes "avatar"
context_text MediaContext.group_icon = codes "group_icon"

-- `class Media`, without `updatedAt`, which a trigger of the database keeps.
pub record Media : Type 0 where
  pub id : Text
  pub owner_id : Text
  pub context : MediaContext
  pub storage_path : Text
  pub thumbnail_path : Option Text
  pub content_type : Text
  pub blob_size : ℕ
  pub expires_at : Option ℕ
  pub signed_url_expires_at : Option ℕ
  pub is_active : Bool
  pub shared_with : Option (List Text)
  pub created_at : ℕ

-- `class UserQuota`, without `updatedAt`.
pub record UserQuota : Type 0 where
  pub id : Text
  pub user_id : Text
  pub storage_used : ℕ
  pub storage_limit : ℕ
  pub files_count : ℕ
  pub files_limit : ℕ
  pub daily_uploads : ℕ
  pub daily_upload_limit : ℕ
  pub quota_date : ℕ

-- `interface CachedQuota`: the sums are decimal texts.
pub record CachedQuota : Type 0 where
  pub id : Text
  pub user_id : Text
  pub storage_used : Text
  pub storage_limit : Text
  pub files_count : ℕ
  pub files_limit : ℕ
  pub daily_uploads : ℕ
  pub daily_upload_limit : ℕ
  pub quota_date : ℕ

-- `class MediaAccessLog`
pub record MediaAccessLog : Type 0 where
  pub media_id : Text
  pub accessor_id : Option Text
  pub access_type : Text
  pub ip_address : Option Text
  pub user_agent : Option Text
  pub accessed_at : ℕ

-- `class MediaMetadataDto`
pub record MediaMetadataDto : Type 0 where
  pub id : Text
  pub owner_id : Text
  pub context : MediaContext
  pub content_type : Text
  pub blob_size : ℕ
  pub expires_at : Option ℕ
  pub is_active : Bool
  pub created_at : ℕ
  pub has_thumbnail : Bool

-- `type CachedMeta`: the DTO with the access list.
pub record CachedMeta : Type 0 where
  pub dto : MediaMetadataDto
  pub shared_with : Option (List Text)

-- A presigned URL, as the arguments that it was signed for.
pub record SignedUrl : Type 0 where
  pub key : Text
  pub expires_in : ℕ

-- `class UploadMediaResponseDto`
pub record UploadMediaResponseDto : Type 0 where
  pub media_id : Text
  pub url : Option SignedUrl
  pub thumbnail_url : Option SignedUrl
  pub expires_at : ℕ
  pub context : MediaContext
  pub size : ℕ

-- `BlobUrlResponseDto` and `ThumbnailUrlResponseDto`
pub record UrlResponse : Type 0 where
  pub url : Option SignedUrl
  pub expires_at : Option ℕ

-- `Express.Multer.File`
pub record MulterFile : Type 0 where
  pub buffer : Option (List ℕ)
  pub mimetype : Text
  pub size : ℕ

-- The events published on Redis channels.
pub data Event : Type 0 where
  media_uploaded :
      (media_id owner_id : Text) (context : MediaContext) (content_type : Text) (size : ℕ)
      (has_thumbnail : Bool)
      → Event
  media_deleted : (media_id owner_id : Text) (context : MediaContext) → Event
  quota_alert : (user_id : Text) (storage_used storage_limit percent : ℕ) → Event
