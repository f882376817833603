-- ===== src/MagicBytes/Containers.antt =====
-- How the accepted buffers of different declared types are related.
use media_service.Base.{
  ℕ, ◌≡◌, List, arith, Text, codes, ◌⊎◌, inl, inr, text_eq, trim, split_head, to_lower_case,
}
use media_service.Errors.{ok}
use media_service.MagicBytes.{validate_magic_bytes}

-- No buffer passes both as WebP and as WAV, although both are RIFF files.
pub riff_exclusive :
    (buffer : List ℕ)
    → validate_magic_bytes buffer (codes "image/webp") ≡ ok tt
    → ¬ (validate_magic_bytes buffer (codes "audio/wav") ≡ ok tt)
unfolding validate_magic_bytes text_eq trim split_head to_lower_case
riff_exclusive buffer webp wav = ground arith

-- A buffer that passes under a brand of the ISO container (HEIC, HEIF or QuickTime) passes as
-- MP4 video and as MP4 audio too.
pub iso_brand_passes_as_mp4 :
    (buffer : List ℕ) (brand : Text)
    → (brand ≡ codes "image/heic")
      ⊎ (brand ≡ codes "image/heif")
      ⊎ (brand ≡ codes "video/quicktime")
    → validate_magic_bytes buffer brand ≡ ok tt
    → (validate_magic_bytes buffer (codes "video/mp4") ≡ ok tt)
      × (validate_magic_bytes buffer (codes "audio/mp4") ≡ ok tt)
unfolding validate_magic_bytes text_eq trim split_head to_lower_case
iso_brand_passes_as_mp4 buffer brand (inl e) h =
    let h' = (rw e at h) in (ground arith, ground arith)
iso_brand_passes_as_mp4 buffer brand (inr (inl e)) h =
    let h' = (rw e at h) in (ground arith, ground arith)
iso_brand_passes_as_mp4 buffer brand (inr (inr e)) h =
    let h' = (rw e at h) in (ground arith, ground arith)
