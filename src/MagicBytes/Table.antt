-- ===== src/MagicBytes/Table.antt =====
-- `MAGIC_MAP` of src/modules/media/magic-bytes.validator.ts: for each MIME type the signatures, one
-- of which must match, each a list of entries that must all match. No entry has a mask.
use media_service.Base.{ℕ, List, [], ◌∷◌, Text, codes}

pub record MagicEntry : Type 0 where
  pub bytes : List ℕ
  pub offset : ℕ

abbrev pub MagicSignature : Type 0
MagicSignature = List MagicEntry

-- One entry, without an offset and with one.
abbrev at_start : List ℕ → List MagicSignature
at_start bs = (record { bytes = bs; offset = 0 } ∷ []) ∷ []

abbrev at_offset : ℕ → List ℕ → MagicSignature
at_offset n bs = record { bytes = bs; offset = n } ∷ []

abbrev riff : List ℕ → List MagicSignature
riff kind =
    (record { bytes = 0x52 ∷ 0x49 ∷ 0x46 ∷ 0x46 ∷ []; offset = 0 }
      ∷ record { bytes = kind; offset = 8 }
      ∷ [])
    ∷ []

-- An ISO container of the given brand.
abbrev ftyp : List ℕ → MagicSignature
ftyp brand = record { bytes = 0x66 ∷ 0x74 ∷ 0x79 ∷ 0x70 ∷ brand; offset = 4 } ∷ []

abbrev zip_header : List MagicSignature
zip_header = at_start (0x50 ∷ 0x4b ∷ 0x03 ∷ 0x04 ∷ [])

abbrev ebml_header : List MagicSignature
ebml_header = at_start (0x1a ∷ 0x45 ∷ 0xdf ∷ 0xa3 ∷ [])

abbrev pub magic_map : List (Text × List MagicSignature)
magic_map =
    (codes "image/jpeg", at_start (0xff ∷ 0xd8 ∷ 0xff ∷ []))
    ∷ (codes "image/png", at_start (0x89 ∷ 0x50 ∷ 0x4e ∷ 0x47 ∷ 0x0d ∷ 0x0a ∷ 0x1a ∷ 0x0a ∷ []))
    ∷ (codes "image/gif", at_start (0x47 ∷ 0x49 ∷ 0x46 ∷ 0x38 ∷ []))
    ∷ (codes "image/webp", riff (0x57 ∷ 0x45 ∷ 0x42 ∷ 0x50 ∷ []))
    ∷ (
      codes "image/heic",
      ftyp (0x68 ∷ 0x65 ∷ 0x69 ∷ 0x63 ∷ [])
          ∷ ftyp (0x68 ∷ 0x65 ∷ 0x69 ∷ 0x78 ∷ [])
          ∷ ftyp (0x68 ∷ 0x65 ∷ 0x76 ∷ 0x63 ∷ [])
          ∷ [],
    )
    ∷ (
      codes "image/heif",
      ftyp (0x6d ∷ 0x69 ∷ 0x66 ∷ 0x31 ∷ []) ∷ ftyp (0x6d ∷ 0x73 ∷ 0x66 ∷ 0x31 ∷ []) ∷ [],
    )
    ∷ (codes "video/mp4", ftyp [] ∷ [])
    ∷ (codes "video/quicktime", ftyp (0x71 ∷ 0x74 ∷ []) ∷ [])
    ∷ (codes "video/webm", ebml_header)
    ∷ (codes "video/x-matroska", ebml_header)
    ∷ (
      codes "audio/mpeg",
      at_offset 0 (0xff ∷ 0xfb ∷ [])
          ∷ at_offset 0 (0xff ∷ 0xf3 ∷ [])
          ∷ at_offset 0 (0xff ∷ 0xf2 ∷ [])
          ∷ at_offset 0 (0x49 ∷ 0x44 ∷ 0x33 ∷ [])
          ∷ [],
    )
    ∷ (codes "audio/ogg", at_start (0x4f ∷ 0x67 ∷ 0x67 ∷ 0x53 ∷ []))
    ∷ (codes "audio/wav", riff (0x57 ∷ 0x41 ∷ 0x56 ∷ 0x45 ∷ []))
    ∷ (codes "audio/mp4", ftyp [] ∷ [])
    ∷ (codes "audio/aac", at_offset 0 (0xff ∷ 0xf1 ∷ []) ∷ at_offset 0 (0xff ∷ 0xf9 ∷ []) ∷ [])
    ∷ (codes "application/pdf", at_start (0x25 ∷ 0x50 ∷ 0x44 ∷ 0x46 ∷ []))
    ∷ (
      codes "application/msword",
      at_start (0xd0 ∷ 0xcf ∷ 0x11 ∷ 0xe0 ∷ 0xa1 ∷ 0xb1 ∷ 0x1a ∷ 0xe1 ∷ []),
    )
    ∷ (codes "application/vnd.openxmlformats-officedocument.wordprocessingml.document", zip_header)
    ∷ (codes "application/vnd.openxmlformats-officedocument.spreadsheetml.sheet", zip_header)
    ∷ (
      codes "application/vnd.openxmlformats-officedocument.presentationml.presentation",
      zip_header,
    )
    ∷ (codes "application/zip", zip_header)
    ∷ []
