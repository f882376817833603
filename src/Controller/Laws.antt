-- ===== src/Controller/Laws.antt =====
-- What the handlers let through, and the bounds on what they pass on.
use media_service.Base.{
  ℕ, zero, suc, ◌≤◌, ◌≡◌, ◌⊎◌, inl, inr, refl, ap, ℤ, pos, negsuc, Bool, true, false, not, ◌&&◌,
  Option, none, some, [], ◌∷◌, Text, codes, text_eq, text_eq_sound, length, length-take,
  get_or_else, arith, Bool-cases, if◌then◌else◌,
}
use media_service.Errors.{Error, ok, throw_if}
use media_service.World.Records.{MediaContext, MulterFile, UploadMediaResponseDto}
use media_service.World.State.{World, Env}
use media_service.World.Monad.{pure, lift, ◌>>=◌}
use media_service.World.Returns.{bind_returns}
use media_service.Peers.{is_conversation_e2ee}
use media_service.Peers.Laws.{IsKnownEncrypted, is_conversation_e2ee_no}
use media_service.Media.Upload.Checks.{IsAdmitted, upload-IsAdmitted}
use media_service.Media.Semaphore.{acquire_semaphore}
use media_service.Media.Read.{get_blob, stream_blob}
use media_service.Media.Read.Laws.{IsAuthorised, reads-IsAuthorised}
use media_service.Controller.{
  Request, UploadMediaDto, BlobAnswer, given, required, owner_for, first_of, check_conversation,
  enforce_e2ee_content_type, check_e2ee, post_upload, first_header, first_address, or_connection,
  extract_client_ip, at_least_one, parse_int, page_number, page_limit, blob_handler, wants_stream,
}

pub required_ok : {A : Type 0} (o : Option A) {a : A} → required o ≡ ok a → o ≡ some a
unfolding required
required_ok none h = cc
required_ok (some b) h = cc

pub given-some : (o : Option Text) {s : Text} → given o ≡ some s → o ≡ some s
given-some none h = h
given-some (some []) h = cc
given-some (some (c ∷ t)) h = h

owner_for_ok :
    (owner : Option Text) (user : Text)
    → owner_for owner user ≡ ok tt
    → (owner ≡ none) ⊎ (owner ≡ some user)
unfolding owner_for
owner_for_ok none user h = inl refl
owner_for_ok (some o) user h = elim (Bool-cases (text_eq o user)) [
  | inl same ↦ inr (ap some (text_eq_sound o user same))
  | inr other ↦ absurd (ground arith)
]

-- A conversation that is given is not known to be encrypted, or the content is declared opaque.
abbrev pub IsOpaqueIfEncrypted : Env → World → Option Text → Text → Type 0
IsOpaqueIfEncrypted env w none content_type = Unit
IsOpaqueIfEncrypted env w (some c) content_type =
    (¬ IsKnownEncrypted env w c) ⊎ (content_type ≡ codes "application/octet-stream")

check_e2ee_ok :
    (o : Option Text) (t : Text) (env : Env) (w : World)
    → (check_e2ee o t env w).0 ≡ ok tt
    → IsOpaqueIfEncrypted env w o t
unfolding check_e2ee enforce_e2ee_content_type lift
check_e2ee_ok none t env w h = tt
check_e2ee_ok (some c) t env w h =
    let (b, asked, returned) = bind_returns (is_conversation_e2ee c) _ env w h in
    by_answer b asked returned
  where
    by_answer :
        (b : Bool)
        → (is_conversation_e2ee c env w).0 ≡ ok b
        → throw_if
            (b && not (text_eq t (codes "application/octet-stream")))
            Error.unprocessable_entity
          ≡ ok tt
        → IsOpaqueIfEncrypted env w (some c) t
    by_answer false asked r = inl (is_conversation_e2ee_no c env w asked)
    by_answer true asked r = elim (Bool-cases (text_eq t (codes "application/octet-stream"))) [
      | inl same ↦ inr (text_eq_sound t (codes "application/octet-stream") same)
      | inr other ↦ absurd (ground arith)
    ]

check_conversation_ok :
    (c : MediaContext) (o : Option Text)
    → check_conversation c o ≡ ok tt
    → c ≡ MediaContext.message
    → (s : Text) × (o ≡ some s)
unfolding check_conversation
check_conversation_ok MediaContext.message none h e = cc
check_conversation_ok MediaContext.message (some s) h e = (s, refl)
check_conversation_ok MediaContext.avatar o h e = cc
check_conversation_ok MediaContext.group_icon o h e = cc

-- A request whose upload was accepted.
pub record IsAccepted (req : Request) (dto : UploadMediaDto) (input : Option MulterFile) (env : Env)
    (w : World) : Type 0 where
  pub user : Text
  pub authenticated : req.user_id ≡ some user
  pub owner : (dto.owner_id ≡ none) ⊎ (dto.owner_id ≡ some user)
  pub file : MulterFile
  pub sent : input ≡ some file
  pub conversation :
      get_or_else dto.context MediaContext.message ≡ MediaContext.message
      → (s : Text) × (given (first_of req.conversation_header dto.conversation_id) ≡ some s)
  pub opaque :
      IsOpaqueIfEncrypted env w
        (given (first_of req.conversation_header dto.conversation_id))
        file.mimetype
  pub admitted :
      IsAdmitted env user file
        (get_or_else dto.context MediaContext.message)
        (acquire_semaphore user env
          (check_e2ee
            (given (first_of req.conversation_header dto.conversation_id))
            file.mimetype
            env
            w).1).1

-- An upload request that is answered with a media was sent by an authenticated user, in whose name
-- alone it uploads, with a file. In the context of messages it names a conversation. Where a
-- conversation is named, the file is declared as opaque bytes, or the conversation is not known to
-- be encrypted: no cached entry says so, and without an entry messaging-service is not configured
-- or does not answer a 2xx status and `true`. And behind the question for the conversation and the
-- taking of a slot, the user and the file are admitted as an upload of the service admits them.
pub post_upload_ok :
    (req : Request) (file thumbnail : Option MulterFile) (dto : UploadMediaDto) (env : Env)
    (w : World) {answer : UploadMediaResponseDto}
    → (post_upload req file thumbnail dto env w).0 ≡ ok answer
    → IsAccepted req dto file env w
unfolding post_upload lift
post_upload_ok req file thumbnail dto env w h =
    let context = get_or_else dto.context MediaContext.message in
    let conversation = given (first_of req.conversation_header dto.conversation_id) in
    let (f, sent, h1) = bind_returns (lift (required file)) _ env w h in
    let (user, known, h2) = bind_returns (lift (required (given req.user_id))) _ env w h1 in
    let (u, owner, h3) = bind_returns (lift (owner_for dto.owner_id user)) _ env w h2 in
    let (u', named, h4) =
      bind_returns (lift (check_conversation context conversation)) _ env w h3 in
    let (u'', opaque, h5) = bind_returns (check_e2ee conversation f.mimetype) _ env w h4 in
    let v = (check_e2ee conversation f.mimetype env w).1 in
    record {
      user = user;
      authenticated = given-some req.user_id (required_ok (given req.user_id) known);
      owner = owner_for_ok dto.owner_id user owner;
      file = f;
      sent = required_ok file sent;
      conversation = check_conversation_ok context conversation named;
      opaque = check_e2ee_ok conversation f.mimetype env w opaque;
      admitted = upload-IsAdmitted user f context thumbnail dto.shared_with env v h5;
    }

-- The blob's handler answers, by a URL or by the bytes, only an authenticated user who may read a
-- live media of that id.
pub blob_handler_ok :
    (id : Text) (stream : Option Text) (req : Request) (env : Env) (w : World) {answer : BlobAnswer}
    → (blob_handler id stream req env w).0 ≡ ok answer
    → (user : Text) × (req.user_id ≡ some user) × IsAuthorised id user w
unfolding blob_handler lift
blob_handler_ok id stream req env w h =
    let (user, known, h1) = bind_returns (lift (required (given req.user_id))) _ env w h in
    (
      user,
      given-some req.user_id (required_ok (given req.user_id) known),
      read user (wants_stream stream) h1,
    )
  where
    read :
        (user : Text) (b : Bool) {answer : BlobAnswer}
        → ((if b
              then ◌>>=◌ {B = BlobAnswer}
                  (stream_blob id user (extract_client_ip req) req.user_agent)
                  (λ file. pure (BlobAnswer.bytes file))
              else ◌>>=◌ {B = BlobAnswer}
                  (get_blob id user (extract_client_ip req) req.user_agent)
                  (λ a. pure (BlobAnswer.url a)))
            env w).0
          ≡ ok answer
        → IsAuthorised id user w
    read user true h =
        let (file, returned, e) =
          bind_returns (stream_blob id user (extract_client_ip req) req.user_agent) _ env w h in
        (reads-IsAuthorised id user (extract_client_ip req) req.user_agent env w).2 file returned
    read user false h =
        let (a, returned, e) =
          bind_returns (get_blob id user (extract_client_ip req) req.user_agent) _ env w h in
        (reads-IsAuthorised id user (extract_client_ip req) req.user_agent env w).0 a returned

-- Whatever the headers hold, the address that is logged has at most 45 code units, a page is at
-- least 1, and a page's size is from 1 to 100.
pub request_bounds :
    (req : Request) (raw_page raw_limit : Option Text)
    → ((address : Text) → extract_client_ip req ≡ some address → length address ≤ 45)
      × (1 ≤ page_number raw_page)
      × (1 ≤ page_limit raw_limit)
      × (page_limit raw_limit ≤ 100)
unfolding extract_client_ip page_number page_limit
request_bounds req raw_page raw_limit = (
  λ address h.
      cut (first_address (given (first_header req.forwarded_for))) req.remote_address address h,
  at_least 1 (parse_int (get_or_else raw_page [])),
  (let low = at_least 20 (parse_int (get_or_else raw_limit [])) in omega arith),
  omega arith,
)
  where
    at_least : (n : ℕ) (o : Option ℤ) → 1 ≤ at_least_one n o
    at_least n none = omega arith
    at_least n (some (pos zero)) = omega arith
    at_least n (some (pos (suc k))) = omega arith
    at_least n (some (negsuc k)) = omega arith

    cut :
        (o remote : Option Text) (address : Text)
        → or_connection o remote ≡ some address
        → length address ≤ 45
    cut none none address h = cc
    cut none (some r) address h = let l = length-take 45 r in ground arith
    cut (some a) remote address h = let l = length-take 45 a in ground arith
