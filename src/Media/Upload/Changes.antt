-- ===== src/Media/Upload/Changes.antt =====
-- An upload, whether it returns or throws, is a step of the registry by the owner, if the generated
-- id is fresh and the deduplication entries are honest.
use media_service.Base.{
  ◌≡◌, refl, sym, ap, ◌∙◌, true, false, Option, none, some, List, [], ◌∷◌, map, Text, any, map_some,
  arith,
}
use media_service.Errors.{Result, ok, err}
use media_service.World.Records.{Media, MediaContext, MulterFile, UploadMediaResponseDto}
use media_service.World.State.{World, Env}
use media_service.World.Monad.{pure, ask, external, ◌>>=◌, ended, finally_do}
use media_service.World.Keeps.{Keeps, keeps_rules}
use media_service.World.Returns.{transaction_ok, external_ok, bind_step, begun}
use media_service.Storage.{is_uuid}
use media_service.Media.Repository.{has_id, find_live, find_by_id}
use media_service.Media.Semaphore.{acquire_semaphore, release_semaphore, with_semaphore}
use media_service.Media.Upload.{
  dedup_key, find_existing, reuse_or_store, place, admit, upload_operation, upload,
}
use media_service.Media.Limits.{buffer_of}
use media_service.Media.Registry.{without_url, listing}
use media_service.Media.Registry.Listing.{find_live-listed, find_live-id}
use media_service.Media.Registry.Steps.{
  Calm, Calm-refl, calm_rules, Step, Calm-IsHonest, Calm-Step, Step-Keeps, Step-after, IsHonest,
  bind_cases,
}
use media_service.Media.Upload.Hits.{reuse-Step}
use media_service.Media.Upload.Entered.{store_new-Step}
use media_service.Media.Upload.Calm.{
  find_existing-Calm, admit-Calm, acquire_semaphore-Calm, release_semaphore-Calm,
}

find_by_id_found :
    (id : Text) (env : Env) (w : World) {m : Media}
    → (find_by_id id env w).0 ≡ ok (some m)
    → (find_live id w.media ≡ some m) × ((find_by_id id env w).1.media ≡ w.media)
unfolding find_by_id external
find_by_id_found id env w h = (ground arith, ground arith)

-- The media that a hit found.
find_existing_ok :
    (o : Option Text) (env : Env) (w : World) {m : Media}
    → (find_existing o env w).0 ≡ ok (some m)
    → (id : Text) × (o ≡ some id)
      × (find_live id w.media ≡ some m)
      × ((find_existing o env w).1.media ≡ w.media)
unfolding find_existing pure
find_existing_ok none env w h = cc
find_existing_ok (some []) env w h = cc
find_existing_ok (some (c ∷ id)) env w {m} h =
    let (done, kept) = transaction_ok (find_by_id (c ∷ id)) env w (some m) h in
    let (live, same) = find_by_id_found (c ∷ id) env (begun w) done in
    (c ∷ id, refl, live, ap (λ (x : World). x.media) kept ∙ same)

module _ (user : Text) (uuid : is_uuid user ≡ true) (file : MulterFile) (c : MediaContext)
    (t : Option MulterFile) (s : Option (List Text)) (env : Env) where
  -- A hit is the user's own media.
  hit-IsOwn :
      (h : Text) (w : World) (o : Option Text) {m : Media}
      → IsHonest w
      → w.dedup_cache (dedup_key user c h) ≡ o
      → (v : World) → v.media ≡ w.media
      → (find_existing o env v).0 ≡ ok (some m)
      → (find_live m.id (find_existing o env v).1.media ≡ some m) × (m.owner_id ≡ user)
  hit-IsOwn h w o {m} honest entry v same found =
      let (id, named, live, still) = find_existing_ok o env v found in
      let name = find_live-id id v.media m live in
      let (there, owner) = honest.entry user c h id uuid (entry ∙ named) in
      (
        ap (λ i. find_live i (find_existing o env v).1.media) name ∙ ap (find_live id) still ∙ live,
        owner (without_url m) (
            find_live-listed id w.media
            ∙ ap (λ x. map_some without_url (find_live id x)) (sym same)
            ∙ ap (map_some without_url) live),
      )

  found-Step :
      (h : Text) (w v : World) (o : Option Text)
      → IsHonest w
      → any (has_id env.random_uuid) (listing w) ≡ false
      → w.dedup_cache (dedup_key user c h) ≡ o
      → v ≡ begun w
      → Step user w
          ((find_existing o >>= reuse_or_store user file c t s (dedup_key user c h)) env v).1
  unfolding reuse_or_store
  found-Step h w v o honest fresh entry e =
      let v' = (find_existing o env v).1 in
      let same = ap (λ (x : World). x.media) e in
      let calm : Calm w v = record {
        entries = ap (map without_url) same;
        dedup = ap (λ (x : World). x.dedup_cache) e;
      } in
      let calm' = (find_existing-Calm w o).at env v calm in
      bind_cases (Step user w) (find_existing o) _ env v
        (λ m found. by_found m (λ n e. hit-IsOwn h w o honest entry v same e) found calm')
        (λ x threw. Calm-Step user w v' calm')
    where
      by_found :
          (m : Option Media)
          → ((n : Media)
              → (find_existing o env v).0 ≡ ok (some n)
              → (find_live n.id (find_existing o env v).1.media ≡ some n) × (n.owner_id ≡ user))
          → (find_existing o env v).0 ≡ ok m
          → Calm w (find_existing o env v).1
          → Step user w
              (reuse_or_store user file c t s
                (dedup_key user c h)
                m
                env
                (find_existing o env v).1).1
      by_found none own found calm' =
          let v' = (find_existing o env v).1 in
          Step-after user w v' _ calm' (
            store_new-Step user file c t s h env v'
              (ap (any (has_id env.random_uuid)) calm'.entries ∙ fresh))
      by_found (some m) own found calm' =
          let v' = (find_existing o env v).1 in
          let (live, mine) = own m found in
          Step-after user w v' _ calm' (reuse-Step user m s env v' live mine)

  place-Step :
      (w : World)
      → IsHonest w
      → any (has_id env.random_uuid) (listing w) ≡ false
      → Step user w (place user file c t s env w).1
  unfolding place ask
  place-Step w honest fresh =
      let h = env.sha256 (buffer_of file) in
      let key = dedup_key user c h in
      let read = external (λ v. (v.dedup_cache key, v)) in
      rw (bind_step (ask (λ x. x)) _ env w env refl) (
        bind_cases (Step user w) read _ env w
          (λ o e.
            let run = external_ok (λ v. (v.dedup_cache key, v)) env w o e in
            found-Step h w (read env w).1 o honest fresh (some_answer (ap (λ x. x.0) (sym run) ∙ e))
              (ap (λ x. x.1) run))
          (λ x e. Calm-Step user w (read env w).1 ((read-Calm key).at env w (Calm-refl w))))
    where
      some_answer : {a b : Option Text} → ◌≡◌ {A = Result (Option Text)} (ok a) (ok b) → a ≡ b
      some_answer p = cc

      read-Calm : (key : Text) → Keeps (Calm w) (external (λ v. (v.dedup_cache key, v)))
      read-Calm key = search (keeps_rules, calm_rules)

  operation-Step :
      (w : World)
      → IsHonest w
      → any (has_id env.random_uuid) (listing w) ≡ false
      → Step user w (upload_operation user file c t s env w).1
  unfolding upload_operation
  operation-Step w honest fresh =
      let v = (admit user file c env w).1 in
      let calm = (admit-Calm w user file c).at env w (Calm-refl w) in
      bind_cases (Step user w) (admit user file c) _ env w
        (λ u e. Step-after user w v _ calm (
          place-Step v (Calm-IsHonest w v honest calm)
            (ap (any (has_id env.random_uuid)) calm.entries ∙ fresh)))
        (λ x e. Calm-Step user w v calm)

  -- An upload, whether it returns or throws.
  pub upload-Step :
      (w : World)
      → IsHonest w
      → any (has_id env.random_uuid) (listing w) ≡ false
      → Step user w (upload user file c t s env w).1
  unfolding upload with_semaphore finally_do
  upload-Step w honest fresh =
      let v = (acquire_semaphore user env w).1 in
      let calm = (acquire_semaphore-Calm w user).at env w (Calm-refl w) in
      let operation = upload_operation user file c t s in
      bind_cases (Step user w) (acquire_semaphore user) _ env w
        (λ u e. Step-after user w v _ calm (
          let v' = (operation env v).1 in
          let step =
            operation-Step v (Calm-IsHonest w v honest calm)
              (ap (any (has_id env.random_uuid)) calm.entries ∙ fresh) in
          rw (ended_world (release_semaphore user env v') (operation env v).0)
            ((Step-Keeps user v _ (λ z. release_semaphore-Calm z user)).at env v' step)))
        (λ x e. Calm-Step user w v calm)
    where
      ended_world :
          (x : Result (Unit {0}) × World) (r : Result UploadMediaResponseDto) → (ended x r).1 ≡ x.1
      ended_world (ok u, v) r = refl
      ended_world (err e, v) r = refl
