-- ===== src/Media/Upload/Semaphore.antt =====
-- The semaphore's counter is after any upload what it was before.
use media_service.Base.{ℕ, ◌≤◌, ◌<◌, ◌≡◌, ◌⊎◌, ℤ, pos, Text, Option, List}
use media_service.Errors.{Error, err}
use media_service.World.Records.{MediaContext, MulterFile}
use media_service.World.State.{World, Env}
use media_service.Media.Semaphore.{acquire_semaphore}
use media_service.Media.Semaphore.Laws.{slots, with_semaphore_restores}
use media_service.Media.Upload.{upload_operation, upload}
use media_service.Media.Upload.Frame.{IsMediaBlind, upload_operation-Keeps}

slots-IsMediaBlind : (u : Text) (z : ℤ) → IsMediaBlind (λ v. slots u v ≡ z)
slots-IsMediaBlind u z = record {
  book = record {
    quota = record {
      stable = record { counted = λ w h. h; rolled = λ w0 w h0 h. h };
      quotas = λ w q h. h;
      quota_cache = λ w c h. h;
      cooldowns = λ w c h. h;
      published = λ w es h. h;
    };
    dedup_cache = λ w c h. h;
    uploads_total = λ w n h. h;
  };
  media = λ w ms h. h;
  meta_cache = λ w c h. h;
  objects = λ w o h. h;
}

-- Whatever happens in an upload, its checks, the storage, the database or a failing call, the
-- user's count of running uploads is afterwards what it was before, unless the run ended by the
-- failure of an external call. With three uploads running the answer is 429; with fewer it is
-- that of the operation.
pub upload_restores_semaphore :
    (owner : Text) (file : MulterFile) (c : MediaContext) (t : Option MulterFile)
    (s : Option (List Text)) (env : Env) (w : World) (n : ℕ)
    → slots owner w ≡ pos n
    → let m = upload owner file c t s in
      ((m env w).0 ≡ err Error.fault)
      ⊎ (((m env w).0 ≡ err Error.too_many_requests) × (3 ≤ n) × (slots owner (m env w).1 ≡ pos n))
      ⊎ ((n < 3)
          × (slots owner (m env w).1 ≡ pos n)
          × ((m env w).0
              ≡ (upload_operation owner file c t s env (acquire_semaphore owner env w).1).0))
unfolding upload
upload_restores_semaphore owner file c t s env w n h =
    with_semaphore_restores owner (upload_operation owner file c t s)
      (λ z. upload_operation-Keeps (slots-IsMediaBlind owner z) owner file c t s) env w n h
