-- ===== src/Tests/Files.antt =====
-- The checks of files, the paths of objects and the answers of other services, applied.
use media_service.Base.{
  ◌≢◌, ℕ, List, ◌↔◌, ◌≡◌, inl, inr, refl, Bool, true, Option, some, [], ◌∷◌, Text, codes, take,
  text_eq, trim, split_head, to_lower_case,
}
use media_service.Errors.{Error, ok, err}
use media_service.World.State.{GroupBody, HttpResponse}
use media_service.MagicBytes.{
  MagicSignature, lookup_signatures, normalise_mime, validate_magic_bytes,
}
use media_service.MagicBytes.Laws.{validate_magic_bytes_iff}
use media_service.ContentSafety.{check_pdf_java_script, check_clam_av}
use media_service.ContentSafety.Laws.{IsFound, check_pdf_java_script_iff, check_clam_av_iff}
use media_service.Storage.{StorageContext, is_uuid, path_for, build_path}
use media_service.Peers.{is_admin}
use media_service.Peers.Laws.{AnswersMembers, is_admin_iff}
use media_service.Storage.Paths.{SamePlace, build_path_injective}
use media_service.Tests.Data.{alice, photo_id, png}

abbrev png_signature : MagicSignature
png_signature = record { bytes = take 8 png; offset = 0 } ∷ []

validate_magic_bytes_iff_example : validate_magic_bytes png (codes "image/png") ≡ ok tt
unfolding lookup_signatures normalise_mime text_eq trim split_head to_lower_case
validate_magic_bytes_iff_example =
    (validate_magic_bytes_iff png (codes "image/png") (png_signature ∷ []) refl).0.1
      (inl (([], 0 ∷ [], refl, refl), tt))

check_pdf_java_script_iff_example :
    check_pdf_java_script (codes "%PDF /JS(x)") (codes "application/pdf")
    ≡ err Error.unprocessable_entity
unfolding normalise_mime trim split_head to_lower_case
check_pdf_java_script_iff_example =
    (check_pdf_java_script_iff (codes "%PDF /JS(x)") (codes "application/pdf") refl).0.1
      (inr (inr (inr (inr (inl (codes "%PDF ", codes "x)", refl))))))

check_clam_av_iff_example :
    let clamd = λ (b : List ℕ). some (codes "stream: Eicar FOUND") in
    let host = some (codes "clamav") in
    ((check_clam_av host clamd png ≡ err Error.unprocessable_entity) ↔ IsFound host clamd png)
    × ((check_clam_av host clamd png ≡ ok tt) ↔ ¬ IsFound host clamd png)
check_clam_av_iff_example =
    check_clam_av_iff (some (codes "clamav")) (λ b. some (codes "stream: Eicar FOUND")) png

build_path_injective_example :
    (StorageContext.messages ≡ StorageContext.messages)
    × SamePlace StorageContext.messages alice photo_id alice photo_id
unfolding build_path is_uuid
build_path_injective_example =
    build_path_injective StorageContext.messages StorageContext.messages alice photo_id alice
      photo_id (path_for StorageContext.messages alice photo_id) refl refl

abbrev admins : Text → Option (HttpResponse GroupBody)
admins id = some (record {
  status = 200;
  body = some (GroupBody.members (record { user_id = alice; role = codes "admin" } ∷ []));
})

abbrev encrypted : Text → Option (HttpResponse (Option Bool))
encrypted id = some (record { status = 200; body = some (some true) })

is_admin_iff_example :
    (is_admin (codes "http://groups") admins alice ≡ ok true)
    ↔ ((codes "http://groups" ≢ []) × AnswersMembers (admins alice) alice)
is_admin_iff_example = is_admin_iff (codes "http://groups") admins alice
