-- ===== src/Media/Upload/Checks.antt =====
-- What an upload that returned has passed.
use media_service.Base.{
  ℕ, Bool, true, false, [], ◌⊎◌, ◌≢◌, ◌≤◌, ◌≡◌, refl, sym, ap, ◌∙◌, pos, Option, List, Text,
  includes, ltb, arith, Bool-cases, inl, inr, includes_iff, Among,
}
use media_service.Errors.{Result, ok, err}
use media_service.World.Records.{MediaContext, MulterFile, UploadMediaResponseDto}
use media_service.World.State.{World, Env}
use media_service.World.Monad.{M, lift, ◌>>=◌, ◌>>◌, finally_do, ended}
use media_service.World.Returns.{bind_ok}
use media_service.MagicBytes.Laws.{IsOfType, validate_magic_bytes_ok}
use media_service.ContentSafety.Laws.{
  IsTooLarge, check_image_dimensions_ok, IsScriptless, check_pdf_java_script_ok, IsFound,
  check_clam_av_iff,
}
use media_service.Peers.{is_admin}
use media_service.Peers.Laws.{AnswersMembers, is_admin_iff}
use media_service.Quota.Rows.{JsNumber}
use media_service.Quota.Service.{enforce_quota}
use media_service.Quota.Service.Checks.{HasRoom, enforce_quota_ok}
use media_service.Media.Limits.{
  context_size_limit, context_mime_allowlist, enforce_context_size_limit, enforce_mime_allowlist,
  buffer_of,
}
use media_service.Media.Semaphore.{with_semaphore, acquire_semaphore, release_semaphore}
use media_service.Media.Upload.{
  ◌andthen◌, admin_verdict, authorize_group_icon_upload, check_file, admit, place, upload_operation,
  upload,
}

andthen_ok : (r s : Result (Unit {0})) → (r andthen s) ≡ ok tt → (r ≡ ok tt) × (s ≡ ok tt)
andthen_ok (ok u) s h = (refl, h)
andthen_ok (err e) s h = cc

-- The file is of a size and a type that the context allows, its bytes fit the type, it is no image
-- of too many pixels and no PDF with one of the tokens, and the scanner did not find anything.
pub record IsSound (env : Env) (file : MulterFile) (c : MediaContext) : Type 0 where
  pub size : file.size ≤ context_size_limit c
  pub listed : Among file.mimetype (context_mime_allowlist c)
  pub magic : IsOfType (buffer_of file) file.mimetype
  pub dimensions : ¬ IsTooLarge env.sharp (buffer_of file) file.mimetype
  pub script : IsScriptless (buffer_of file) file.mimetype
  pub virus : ¬ IsFound env.clamav_host env.clamd (buffer_of file)

size_ok :
    (n : ℕ) (c : MediaContext) → enforce_context_size_limit n c ≡ ok tt → n ≤ context_size_limit c
unfolding enforce_context_size_limit
size_ok n c h = elim (Bool-cases (ltb (context_size_limit c) n)) [
  | inl above ↦ ground arith
  | inr below ↦ ground arith
]

mime_ok :
    (m : Text) (c : MediaContext)
    → enforce_mime_allowlist m c ≡ ok tt
    → Among m (context_mime_allowlist c)
unfolding enforce_mime_allowlist
mime_ok m c h = elim (Bool-cases (includes (context_mime_allowlist c) m)) [
  | inl here ↦ (includes_iff (context_mime_allowlist c) m).0 here
  | inr gone ↦ absurd (cc gone)
]

pub check_file_ok :
    (env : Env) (file : MulterFile) (c : MediaContext)
    → check_file env file c ≡ ok tt
    → IsSound env file c
unfolding check_file
check_file_ok env file c h =
    let (h5, virus) = andthen_ok _ _ h in
    let (h4, script) = andthen_ok _ _ h5 in
    let (h3, dimensions) = andthen_ok _ _ h4 in
    let (h2, mime) = andthen_ok _ _ h3 in
    let (size, magic) = andthen_ok _ _ h2 in
    record {
      size = size_ok file.size c size;
      listed = mime_ok file.mimetype c mime;
      magic = validate_magic_bytes_ok (buffer_of file) file.mimetype magic;
      dimensions = check_image_dimensions_ok env.sharp (buffer_of file) file.mimetype dimensions;
      script = check_pdf_java_script_ok (buffer_of file) file.mimetype script;
      virus = (check_clam_av_iff env.clamav_host env.clamd (buffer_of file)).1.0 virus;
    }

admin_verdict_ok : (r : Result Bool) → admin_verdict r ≡ ok tt → r ≡ ok true
unfolding admin_verdict
admin_verdict_ok (ok true) h = refl
admin_verdict_ok (ok false) h = ground arith
admin_verdict_ok (err e) h = cc

-- The context is not that of group icons; or group-service is configured and answers a 2xx status
-- and a list in which the uploader, whose id was sent as the group's, is an admin.
abbrev pub IsAuthorisedUpload : Env → MediaContext → Text → Type 0
IsAuthorisedUpload env c owner =
    (c ≢ MediaContext.group_icon)
    ⊎ ((env.group_service_url ≢ []) × AnswersMembers (env.group_answer owner) owner)

authorize_group_icon_upload_ok :
    (env : Env) (c : MediaContext) (owner : Text)
    → authorize_group_icon_upload env c owner ≡ ok tt
    → IsAuthorisedUpload env c owner
unfolding authorize_group_icon_upload
authorize_group_icon_upload_ok env MediaContext.message owner h = inl (λ e. cc)
authorize_group_icon_upload_ok env MediaContext.avatar owner h = inl (λ e. cc)
authorize_group_icon_upload_ok env MediaContext.group_icon owner h = inr (
    (is_admin_iff env.group_service_url env.group_answer owner).0
      (admin_verdict_ok (is_admin env.group_service_url env.group_answer owner) h))

-- Behind the admission the caller is authorised, a quota was read that has room for the file, and
-- the file is sound.
pub record IsAdmitted (env : Env) (owner : Text) (file : MulterFile) (c : MediaContext) (w : World)
    : Type 0 where
  pub authorised : IsAuthorisedUpload env c owner
  pub quota : HasRoom owner file.size env w
  pub sound : IsSound env file c

pub admit_ok :
    (owner : Text) (file : MulterFile) (c : MediaContext) (env : Env) (w : World)
    → (admit owner file c env w).0 ≡ ok tt
    → IsAdmitted env owner file c w
unfolding admit ◌>>=◌
admit_ok owner file c env w h =
    let size = JsNumber.integral (pos file.size) in
    let checks = lift (check_file env file c) in
    let (u, authorised, e) =
      bind_ok (lift (authorize_group_icon_upload env c owner))
        (λ v. enforce_quota owner size >> checks) env w h in
    let (u', quota, e') =
      bind_ok (enforce_quota owner size) (λ v. checks) env w (ap (λ x. x.0) (sym e) ∙ h) in
    record {
      authorised = authorize_group_icon_upload_ok env c owner authorised;
      quota = enforce_quota_ok owner file.size env w quota;
      sound = check_file_ok env file c (ap (λ x. x.0) (sym e') ∙ ap (λ x. x.0) (sym e) ∙ h);
    }

ended_returns :
    {A : Type 0} (x : Result (Unit {0}) × World) (r : Result A) {a : A}
    → (ended x r).0 ≡ ok a
    → r ≡ ok a
ended_returns (ok u, w) r h = h
ended_returns (err e, w) r h = cc

finally_do_ok :
    {A : Type 0} (m : M A) (k : M (Unit {0})) (env : Env) (w : World) {a : A}
    → (finally_do m k env w).0 ≡ ok a
    → (m env w).0 ≡ ok a
unfolding finally_do
finally_do_ok m k env w h = let (r, v) = m env w in ended_returns (k env v) r h

with_semaphore_ok :
    {A : Type 0} (u : Text) (op : M A) (env : Env) (w : World) {a : A}
    → (with_semaphore u op env w).0 ≡ ok a
    → (op env (acquire_semaphore u env w).1).0 ≡ ok a
unfolding with_semaphore
with_semaphore_ok u op env w h =
    let (v, entered, e) =
      bind_ok (acquire_semaphore u) (λ v. finally_do op (release_semaphore u)) env w h in
    finally_do_ok op (release_semaphore u) env (acquire_semaphore u env w).1
      (ap (λ x. x.0) (sym e) ∙ h)

-- An upload that returns a response, deduplicated or stored, has passed every check. For a group
-- icon, group-service answered a 2xx status and a list with the uploader as an admin, asked for the
-- group of the uploader's own id. The quota read when the slot was held, cached or of the table, had
-- room for the bytes, one more file and one more upload of the day. The file is not above the
-- context's size and of a MIME type that the context lists; its first sixteen bytes have a signature
-- of the type, if the table has any; an image whose dimensions are known has at most fifty million
-- pixels; a PDF has none of the six tokens in its first 64 KiB; and no configured scanner answered
-- with FOUND.
pub upload-IsAdmitted :
    (owner : Text) (file : MulterFile) (c : MediaContext) (t : Option MulterFile)
    (s : Option (List Text)) (env : Env) (w : World) {dto : UploadMediaResponseDto}
    → (upload owner file c t s env w).0 ≡ ok dto
    → IsAdmitted env owner file c (acquire_semaphore owner env w).1
unfolding upload upload_operation
upload-IsAdmitted owner file c t s env w h =
    let v = (acquire_semaphore owner env w).1 in
    let done = with_semaphore_ok owner (upload_operation owner file c t s) env w h in
    let (u, admitted, e) = bind_ok (admit owner file c) (λ x. place owner file c t s) env v done in
    admit_ok owner file c env v admitted
