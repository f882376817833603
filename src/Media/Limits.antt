-- ===== src/Media/Limits.antt =====
-- The limits on an upload, tables of src/modules/media/media.service.ts: sizes and MIME types for
-- each context, and those of thumbnails.
use media_service.Base.{ℕ, ◌*◌, not, List, [], ◌∷◌, ◌++◌, Text, codes, includes, ltb, get_or_else}
use media_service.Errors.{Error, TooLarge, Result, throw_if}
use media_service.World.Records.{MediaContext, MulterFile}
use media_service.ContentSafety.{image_mime_types}
use media_service.Storage.{StorageContext}

abbrev pub context_size_limit : MediaContext → ℕ
context_size_limit MediaContext.message = 100 * 1024 * 1024
context_size_limit MediaContext.avatar = 5 * 1024 * 1024
context_size_limit MediaContext.group_icon = 5 * 1024 * 1024

abbrev pub thumbnail_max_bytes : ℕ
thumbnail_max_bytes = 5 * 1024 * 1024

-- The same six types as the content check's.
abbrev pub thumbnail_allowed_mime : List Text
thumbnail_allowed_mime = image_mime_types

unfoldable pub context_mime_allowlist : MediaContext → List Text
context_mime_allowlist MediaContext.message =
    image_mime_types
    ++ (codes "video/mp4"
        ∷ codes "video/quicktime"
        ∷ codes "video/webm"
        ∷ codes "video/x-matroska"
        ∷ codes "audio/mpeg"
        ∷ codes "audio/ogg"
        ∷ codes "audio/wav"
        ∷ codes "audio/mp4"
        ∷ codes "audio/aac"
        ∷ codes "application/pdf"
        ∷ codes "application/msword"
        ∷ codes "application/vnd.openxmlformats-officedocument.wordprocessingml.document"
        ∷ codes "application/vnd.openxmlformats-officedocument.spreadsheetml.sheet"
        ∷ codes "application/vnd.openxmlformats-officedocument.presentationml.presentation"
        ∷ codes "application/zip"
        ∷ codes "application/octet-stream"
        ∷ [])
context_mime_allowlist MediaContext.avatar = image_mime_types
context_mime_allowlist MediaContext.group_icon = image_mime_types

-- `enforceContextSizeLimit`
unfoldable pub enforce_context_size_limit : ℕ → MediaContext → Result (Unit {0})
enforce_context_size_limit size context =
    throw_if (ltb (context_size_limit context) size) (Error.payload_too_large TooLarge.context_size)

unfoldable pub enforce_mime_allowlist : Text → MediaContext → Result (Unit {0})
unfolding context_mime_allowlist
enforce_mime_allowlist mimetype context =
    throw_if (not (includes (context_mime_allowlist context) mimetype)) Error.unsupported_media_type

-- `contextToStorageContext`
abbrev pub context_to_storage_context : MediaContext → StorageContext
context_to_storage_context MediaContext.avatar = StorageContext.avatars
context_to_storage_context MediaContext.group_icon = StorageContext.group_icons
context_to_storage_context MediaContext.message = StorageContext.messages

-- `file.buffer ?? Buffer.alloc(0)`
abbrev pub buffer_of : MulterFile → List ℕ
buffer_of file = get_or_else file.buffer []
