-- ===== src/Controller.antt =====
-- The HTTP handlers of src/modules/media/media.controller.ts, and `enforceE2EEContentType` of
-- src/modules/media/media.service.ts. Routing, the guards, the rate limits and the validation of
-- the DTOs come before them.
pub mod Laws
pub mod Guarded
pub mod Writes
pub mod Fields
pub mod Lists
use media_service.Base.{
  ℕ, zero, suc, min, max, ℤ, pos, negsuc, Bool, true, false, not, ◌&&◌, Option, none, some, List,
  [], ◌∷◌, Text, codes, text_eq, take, leb, trim, trim_start, split_head, from_decimal, get_or_else,
  is_some, map_some, if◌then◌else◌, ◌==◌, ◌||◌,
}
use media_service.Errors.{Error, Result, ok, err, throw_if}
use media_service.World.Records.{
  MediaContext, MulterFile, UploadMediaResponseDto, MediaMetadataDto, UrlResponse,
}
use media_service.World.Monad.{M, pure, throw, lift, ◌>>=◌, ◌>>◌}
use media_service.Peers.{is_conversation_e2ee}
use media_service.Media.Upload.{upload}
use media_service.Media.Read.{
  StreamableFile, get_metadata, get_blob, get_thumbnail, stream_blob, stream_thumbnail,
}
use media_service.Media.Share.{share}
use media_service.Media.Delete
use media_service.Media.Account.{
  PaginatedMediaResponseDto, UserQuotaResponseDto, get_user_quota, get_user_media,
}

-- A header that is missing, sent once, or sent more than once.
pub data Header : Type 0 where
  absent : Header
  single : Text → Header
  several : List Text → Header

-- What the handlers read of a request; the guard sets the user.
pub record Request : Type 0 where
  pub user_id : Option Text
  pub conversation_header : Option Text
  pub forwarded_for : Header
  pub remote_address : Option Text
  pub user_agent : Option Text

-- `class UploadMediaDto`, behind its validation.
pub record UploadMediaDto : Type 0 where
  pub context : Option MediaContext
  pub owner_id : Option Text
  pub conversation_id : Option Text
  pub shared_with : Option (List Text)

-- A text that is there and not empty.
abbrev pub given : Option Text → Option Text
given none = none
given (some []) = none
given (some (c ∷ s)) = some (c ∷ s)

-- `if (!requesterId) throw new BadRequestException(…)`
unfoldable pub required {ℓ} : {A : Type ℓ} → Option A → Result A
required none = err Error.bad_request
required (some a) = ok a

-- `dto.ownerId ?? authenticatedUserId`, which must be the user.
unfoldable pub owner_for : Option Text → Text → Result (Unit {0})
owner_for owner user = throw_if (not (text_eq (get_or_else owner user) user)) Error.bad_request

-- The header, or else the field of the body.
abbrev pub first_of : Option Text → Option Text → Option Text
first_of none field = field
first_of (some header) field = some header

abbrev pub is_message : MediaContext → Bool
is_message MediaContext.message = true
is_message MediaContext.avatar = false
is_message MediaContext.group_icon = false

-- A media of a message must name its conversation.
unfoldable pub check_conversation : MediaContext → Option Text → Result (Unit {0})
check_conversation context conversation =
    throw_if (is_message context && not (is_some conversation)) Error.bad_request

-- `enforceE2EEContentType`
unfoldable pub enforce_e2ee_content_type : Text → Text → M (Unit {0})
enforce_e2ee_content_type conversation content_type = do
  is_e2ee ← is_conversation_e2ee conversation
  lift (
      throw_if (is_e2ee && not (text_eq content_type (codes "application/octet-stream")))
        Error.unprocessable_entity)

unfoldable pub check_e2ee : Option Text → Text → M (Unit {0})
check_e2ee none content_type = pure tt
check_e2ee (some conversation) content_type = enforce_e2ee_content_type conversation content_type

-- `upload`
unfoldable pub post_upload :
    Request → Option MulterFile → Option MulterFile → UploadMediaDto → M UploadMediaResponseDto
post_upload req file thumbnail dto = do
  file ← lift (required file)
  user ← lift (required (given req.user_id))
  lift (owner_for dto.owner_id user)
  let context = get_or_else dto.context MediaContext.message
  let conversation = given (first_of req.conversation_header dto.conversation_id)
  lift (check_conversation context conversation)
  check_e2ee conversation file.mimetype
  upload user file context thumbnail dto.shared_with

-- The first address of the header, cut to the column's width; else that of the connection.
abbrev pub first_header : Header → Option Text
first_header Header.absent = none
first_header (Header.single s) = some s
first_header (Header.several []) = none
first_header (Header.several (s ∷ ss)) = some s

abbrev pub first_address : Option Text → Option Text
first_address none = none
first_address (some s) = given (some (trim (split_head b',' s)))

abbrev pub or_connection : Option Text → Option Text → Option Text
or_connection none remote = map_some (take 45) remote
or_connection (some address) remote = some (take 45 address)

-- `extractClientIp`
unfoldable pub extract_client_ip : Request → Option Text
extract_client_ip req =
    or_connection (first_address (given (first_header req.forwarded_for))) req.remote_address

-- `getQuota`
unfoldable pub get_quota : Text → M UserQuotaResponseDto
get_quota user = get_user_quota user

is_digit : ℕ → Bool
is_digit c = leb b'0' c && leb c b'9'

-- The digits that a text begins with.
unfoldable pub leading_digits : Text → Text
unfolding is_digit
leading_digits [] = []
leading_digits (c ∷ s) = let rest = leading_digits s in if is_digit c then c ∷ rest else []

-- A run of digits as a number, with its sign; no digits are NaN.
unfoldable pub signed_digits : Bool → Text → Option ℤ
signed_digits minus [] = none
signed_digits minus (c ∷ s) =
    some (if minus then neg (from_decimal (c ∷ s)) else pos (from_decimal (c ∷ s)))
  where
    neg : ℕ → ℤ
    neg zero = pos zero
    neg (suc n) = negsuc n

-- `Number.parseInt(s, 10)`, with `none` for NaN
unfoldable pub parse_int_sign : Text → Option ℤ
parse_int_sign [] = none
parse_int_sign (c ∷ s) =
    if c == b'-'
    then signed_digits true (leading_digits s)
    else if c == b'+'
    then signed_digits false (leading_digits s)
    else signed_digits false (leading_digits (c ∷ s))

unfoldable pub parse_int : Text → Option ℤ
parse_int s = parse_int_sign (trim_start s)

-- `Math.max(1, n || fallback)`: NaN and 0 are false.
abbrev pub at_least_one : ℕ → Option ℤ → ℕ
at_least_one fallback none = max 1 fallback
at_least_one fallback (some (pos zero)) = max 1 fallback
at_least_one fallback (some (pos (suc n))) = suc n
at_least_one fallback (some (negsuc n)) = 1

unfoldable pub page_number : Option Text → ℕ
page_number raw = at_least_one 1 (parse_int (get_or_else raw []))

unfoldable pub page_limit : Option Text → ℕ
page_limit raw = min 100 (at_least_one 20 (parse_int (get_or_else raw [])))

-- `getMyMedia`
unfoldable pub get_my_media : Text → Option Text → Option Text → M PaginatedMediaResponseDto
get_my_media user raw_page raw_limit =
    get_user_media user (page_number raw_page) (page_limit raw_limit)

-- `getMetadata`
unfoldable pub metadata_handler : Text → Request → M MediaMetadataDto
metadata_handler id req = do
  requester ← lift (required (given req.user_id))
  get_metadata id requester

-- A URL, or the bytes.
pub data BlobAnswer : Type 0 where
  url : UrlResponse → BlobAnswer
  bytes : StreamableFile → BlobAnswer

-- `stream === '1' || stream === 'true'`
unfoldable pub wants_stream : Option Text → Bool
wants_stream none = false
wants_stream (some s) = text_eq s (codes "1") || text_eq s (codes "true")

-- `getBlobUrl`
unfoldable pub blob_handler : Text → Option Text → Request → M BlobAnswer
blob_handler id stream req = do
  requester ← lift (required (given req.user_id))
  if wants_stream stream
      then (do
        file ← stream_blob id requester (extract_client_ip req) req.user_agent
        pure (BlobAnswer.bytes file))
      else (do
        answer ← get_blob id requester (extract_client_ip req) req.user_agent
        pure (BlobAnswer.url answer))

-- No stored thumbnail is 404 here.
unfoldable pub streamed : Option StreamableFile → M BlobAnswer
streamed none = throw Error.not_found
streamed (some file) = pure (BlobAnswer.bytes file)

-- `getThumbnailUrl`
unfoldable pub thumbnail_handler : Text → Option Text → Request → M BlobAnswer
thumbnail_handler id stream req = do
  requester ← lift (required (given req.user_id))
  if wants_stream stream
      then (do
        file ← stream_thumbnail id requester (extract_client_ip req) req.user_agent
        streamed file)
      else (do
        answer ← get_thumbnail id requester (extract_client_ip req) req.user_agent
        pure (BlobAnswer.url answer))

-- `share`
unfoldable pub share_handler : Text → Request → List Text → M (List Text)
share_handler id req users = do
  requester ← lift (required (given req.user_id))
  share id requester users

-- `delete`
unfoldable pub delete_handler : Text → Request → M (Unit {0})
delete_handler id req = do
  requester ← lift (required (given req.user_id))
  Delete.delete id requester (extract_client_ip req) req.user_agent
