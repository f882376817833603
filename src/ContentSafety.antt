-- ===== src/ContentSafety.antt =====
-- The content checks of an upload, after src/modules/media/content-safety.validator.ts. What the
-- image library reads and what clamd answers are values given from outside.
pub mod Laws
pub mod Clamd
use media_service.Base.{
  ℕ, ◌*◌, Bool, true, false, Option, none, some, List, [], ◌∷◌, Text, codes, text_eq, includes,
  contains, take, ltb, any, not, if◌then◌else◌,
}
use media_service.Errors.{Error, TooLarge, Result, ok, err, throw_if}
use media_service.World.State.{Metadata}
use media_service.MagicBytes.{normalise_mime}

abbrev pub max_pixels : ℕ
max_pixels = 50000000

abbrev pub pdf_js_scan_bytes : ℕ
pdf_js_scan_bytes = 64 * 1024

-- The escapes stand for a carriage return and a line feed.
abbrev pub pdf_js_tokens : List Text
pdf_js_tokens =
    codes "/JS "
    ∷ codes "/JavaScript"
    ∷ (0x2f ∷ 0x4a ∷ 0x53 ∷ 0xd ∷ [])
    ∷ (0x2f ∷ 0x4a ∷ 0x53 ∷ 0xa ∷ [])
    ∷ codes "/JS("
    ∷ codes "/JS<"
    ∷ []

abbrev pub image_mime_types : List Text
image_mime_types =
    codes "image/jpeg"
    ∷ codes "image/png"
    ∷ codes "image/gif"
    ∷ codes "image/webp"
    ∷ codes "image/heic"
    ∷ codes "image/heif"
    ∷ []

-- The product of the two dimensions against the limit; a dimension that is missing passes.
check_pixels : Metadata → Result (Unit {0})
check_pixels Metadata.unreadable = ok tt
check_pixels (Metadata.dimensions none height) = ok tt
check_pixels (Metadata.dimensions (some width) none) = ok tt
check_pixels (Metadata.dimensions (some width) (some height)) =
    throw_if (ltb max_pixels (width * height)) (Error.payload_too_large TooLarge.image_dimensions)

unfoldable pub check_image_dimensions : (List ℕ → Metadata) → List ℕ → Text → Result (Unit {0})
unfolding check_pixels
check_image_dimensions sharp buffer mime_type =
    if includes image_mime_types (normalise_mime mime_type)
    then check_pixels (sharp buffer)
    else ok tt

unfoldable pub check_pdf_java_script : List ℕ → Text → Result (Unit {0})
check_pdf_java_script buffer mime_type =
    if text_eq (normalise_mime mime_type) (codes "application/pdf")
    then throw_if (any (contains (take pdf_js_scan_bytes buffer)) pdf_js_tokens)
        Error.unprocessable_entity
    else ok tt

-- The reply of clamd; anything but a find lets the upload pass.
check_reply : Option Text → Result (Unit {0})
check_reply none = ok tt
check_reply (some reply) = throw_if (contains reply (codes "FOUND")) Error.unprocessable_entity

-- An unset or empty host means that no scanner is configured.
unfoldable pub check_clam_av : Option Text → (List ℕ → Option Text) → List ℕ → Result (Unit {0})
unfolding check_reply
check_clam_av none clamd buffer = ok tt
check_clam_av (some []) clamd buffer = ok tt
check_clam_av (some (c ∷ host)) clamd buffer = check_reply (clamd buffer)
