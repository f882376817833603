-- ===== src/ContentSafety/Laws.antt =====
-- What the content checks let through.
use media_service.Base.{
  ℕ, ◌*◌, ◌<◌, ◌≡◌, ◌↔◌, ◌⊎◌, inl, inr, refl, sym, ◌∙◌, true, Option, none, some, List, [], ◌∷◌,
  Text, codes, text_eq, ◌≢◌, text_eq_iff, contains_iff, includes_iff, Holds, Among, includes,
  contains, take, arith, any, Bool-cases,
}
use media_service.Errors.{Error, TooLarge, Result, ok, err, throw_if, throw_if_iff}
use media_service.World.State.{Metadata}
use media_service.MagicBytes.{normalise_mime}
use media_service.MagicBytes.Laws.{AnyOf}
use media_service.ContentSafety.{
  pdf_js_scan_bytes, pdf_js_tokens, image_mime_types, check_pixels, check_image_dimensions,
  check_pdf_java_script, check_clam_av, check_reply,
}

ok-err : {e : Error} → ◌≡◌ {A = Result (Unit {0})} (ok tt) (err e) → ⊥
ok-err p = cc

any-contains_iff :
    (s : Text) (parts : List Text) → (any (contains s) parts ≡ true) ↔ AnyOf (Holds s) parts
any-contains_iff s [] = (λ e. cc, λ u. elim u [ ])
any-contains_iff s (p ∷ ps) = (
  λ e. elim (Bool-cases (contains s p)) [
    | inl here ↦ inl ((contains_iff s p).0 here)
    | inr gone ↦ inr ((any-contains_iff s ps).0 (ground arith))
  ],
  elim [
    | inl here ↦ let a = (contains_iff s p).1 here in ground arith
    | inr later ↦ let a = (any-contains_iff s ps).1 later in ground arith
  ],
)

check_pdf_java_script_lem :
    (buffer : List ℕ) (mime : Text)
    → normalise_mime mime ≡ codes "application/pdf"
    → check_pdf_java_script buffer mime
      ≡ throw_if
          (any (contains (take pdf_js_scan_bytes buffer)) pdf_js_tokens)
          Error.unprocessable_entity
unfolding check_pdf_java_script
check_pdf_java_script_lem buffer mime h = rw ((text_eq_iff _ _).1 h)

-- A file declared as PDF is refused with 422 exactly if one of the six tokens stands in its first
-- 64 KiB, and passes otherwise.
pub check_pdf_java_script_iff :
    (buffer : List ℕ) (mime : Text)
    → normalise_mime mime ≡ codes "application/pdf"
    → ((check_pdf_java_script buffer mime ≡ err Error.unprocessable_entity)
        ↔ AnyOf (Holds (take pdf_js_scan_bytes buffer)) pdf_js_tokens)
      × ((check_pdf_java_script buffer mime ≡ ok tt)
          ↔ ¬ AnyOf (Holds (take pdf_js_scan_bytes buffer)) pdf_js_tokens)
check_pdf_java_script_iff buffer mime h = rw (check_pdf_java_script_lem buffer mime h) (
    throw_if_iff _ Error.unprocessable_entity
      (any-contains_iff (take pdf_js_scan_bytes buffer) pdf_js_tokens))

-- An image whose size can be read is refused exactly if it has more than fifty million pixels;
-- where a dimension is missing, the file is unreadable or the type is no image, it passes.
pub check_image_dimensions_iff :
    (sharp : List ℕ → Metadata) (buffer : List ℕ) (mime : Text)
    → (check_image_dimensions sharp buffer mime
        ≡ err (Error.payload_too_large TooLarge.image_dimensions))
      ↔ (Among (normalise_mime mime) image_mime_types
          × ((width : ℕ) × (height : ℕ) × (sharp buffer
                ≡ Metadata.dimensions (some width) (some height))
              × (50000000 < width * height)))
unfolding check_image_dimensions
check_image_dimensions_iff sharp buffer mime = (
  λ e. elim (Bool-cases (includes image_mime_types (normalise_mime mime))) [
    | inl image ↦ ((includes_iff _ _).0 image, too_large (sharp buffer) (ground arith))
    | inr other ↦ cc (other)
  ],
  λ (image, (width, height, read, large)).
      let a = (includes_iff image_mime_types (normalise_mime mime)).1 image in
      rw (a, read) (ground arith),
)
  where
    too_large :
        (m : Metadata)
        → check_pixels m ≡ err (Error.payload_too_large TooLarge.image_dimensions)
        → (width : ℕ) × (height : ℕ) × (m ≡ Metadata.dimensions (some width) (some height))
          × (50000000 < width * height)
    too_large Metadata.unreadable e = cc
    too_large (Metadata.dimensions none h) e = cc
    too_large (Metadata.dimensions (some w) none) e = cc
    too_large (Metadata.dimensions (some w) (some h)) e = (w, h, refl, ground arith)

-- An image whose two dimensions are known has more than fifty million pixels.
abbrev pub IsTooLarge : (List ℕ → Metadata) → List ℕ → Text → Type 0
IsTooLarge sharp buffer mime =
    Among (normalise_mime mime) image_mime_types
    × ((width : ℕ) × (height : ℕ) × (sharp buffer ≡ Metadata.dimensions (some width) (some height))
        × (50000000 < width * height))

pub check_image_dimensions_ok :
    (sharp : List ℕ → Metadata) (buffer : List ℕ) (mime : Text)
    → check_image_dimensions sharp buffer mime ≡ ok tt
    → ¬ IsTooLarge sharp buffer mime
check_image_dimensions_ok sharp buffer mime h large =
    ok-err (sym h ∙ (check_image_dimensions_iff sharp buffer mime).1 large)

-- A file declared as PDF has none of the tokens in its first 64 KiB.
abbrev pub IsScriptless : List ℕ → Text → Type 0
IsScriptless buffer mime =
    (normalise_mime mime ≢ codes "application/pdf")
    ⊎ (¬ AnyOf (Holds (take 65536 buffer)) pdf_js_tokens)

pub check_pdf_java_script_ok :
    (buffer : List ℕ) (mime : Text)
    → check_pdf_java_script buffer mime ≡ ok tt
    → IsScriptless buffer mime
check_pdf_java_script_ok buffer mime h =
    elim (Bool-cases (text_eq (normalise_mime mime) (codes "application/pdf"))) [
      | inl pdf ↦ inr ((check_pdf_java_script_iff buffer mime ((text_eq_iff _ _).0 pdf)).1.0 h)
      | inr other ↦ inl (λ e. let a = (text_eq_iff _ _).1 e in cc)
    ]

-- A scanner is configured and answers with FOUND.
abbrev pub IsFound : Option Text → (List ℕ → Option Text) → List ℕ → Type 0
IsFound host clamd buffer =
    (c : ℕ) × (name : Text) × (reply : Text) × (host ≡ some (c ∷ name))
    × (clamd buffer ≡ some reply)
    × Holds reply (codes "FOUND")

refused_iff :
    (host : Option Text) (clamd : List ℕ → Option Text) (buffer : List ℕ)
    → (check_clam_av host clamd buffer ≡ err Error.unprocessable_entity) ↔ IsFound host clamd buffer
unfolding check_clam_av
refused_iff none clamd buffer = (λ e. cc, λ x. cc (x.3))
refused_iff (some []) clamd buffer = (λ e. cc, λ x. cc (x.3))
refused_iff (some (c ∷ name)) clamd buffer = (
  λ e.
      let (reply, replied, found) = found_in (clamd buffer) e in
      (c, name, reply, refl, replied, found),
  λ (c', name', reply, same, replied, found).
      let a = (contains_iff reply (codes "FOUND")).1 found in rw (replied, check_reply, a),
)
  where
    found_in :
        (answer : Option Text)
        → check_reply answer ≡ err Error.unprocessable_entity
        → (reply : Text) × (answer ≡ some reply) × Holds reply (codes "FOUND")
    found_in none e = cc
    found_in (some reply) e = (reply, refl, (contains_iff reply (codes "FOUND")).0 (ground arith))

passes_or_refuses :
    (host : Option Text) (clamd : List ℕ → Option Text) (buffer : List ℕ)
    → (check_clam_av host clamd buffer ≡ ok tt)
      ⊎ (check_clam_av host clamd buffer ≡ err Error.unprocessable_entity)
unfolding check_clam_av check_reply
passes_or_refuses none clamd buffer = inl refl
passes_or_refuses (some []) clamd buffer = inl refl
passes_or_refuses (some (c ∷ name)) clamd buffer = by_reply (clamd buffer)
  where
    by_reply :
        (o : Option Text)
        → (check_reply o ≡ ok tt) ⊎ (check_reply o ≡ err Error.unprocessable_entity)
    by_reply none = inl refl
    by_reply (some reply) = ground arith

-- The scanner refuses a file with 422 exactly if its host is configured and its reply holds FOUND;
-- in every other case, without a host, without a reply or with another reply, the file passes.
pub check_clam_av_iff :
    (host : Option Text) (clamd : List ℕ → Option Text) (buffer : List ℕ)
    → ((check_clam_av host clamd buffer ≡ err Error.unprocessable_entity)
        ↔ IsFound host clamd buffer)
      × ((check_clam_av host clamd buffer ≡ ok tt) ↔ ¬ IsFound host clamd buffer)
check_clam_av_iff host clamd buffer =
    let refused = refused_iff host clamd buffer in
    (
      refused,
      (
        λ e f. ok-err (sym e ∙ refused.1 f),
        λ clean. elim (passes_or_refuses host clamd buffer) [
          | inl e ↦ e
          | inr e ↦ absurd (clean (refused.0 e))
        ],
      ),
    )
