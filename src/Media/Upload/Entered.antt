-- ===== src/Media/Upload/Entered.antt =====
-- A new media is entered under its id, in the registry and in the deduplication.
use media_service.Base.{
  ◌≡◌, refl, sym, ap, ◌∙◌, ◌⊎◌, inl, inr, Bool, true, false, Option, some, List, [], ◌∷◌, ◌++◌, map,
  Text, any, arith, text_eq, text_eq_refl, text_eq_sound,
}
use media_service.Errors.{Error, Result, ok, err}
use media_service.World.Records.{Media, MediaContext, MulterFile}
use media_service.World.State.{World, Env}
use media_service.World.Monad.{ask, lift, external, ◌>>◌, transaction, on_error, handled, ended}
use media_service.World.Keeps.{Keeps, IsStable, keeps_rules}
use media_service.World.Returns.{
  transaction_ok, transaction_err, external_ok, external_err, bind_step, begun,
}
use media_service.Storage
use media_service.Storage.{is_uuid, build_path}
use media_service.Media.Repository.{has_id, find_live, save, save_media}
use media_service.Media.Upload.{
  dedup_key, set_dedup, store_thumbnail, delete_blobs, new_media, save_or_clean, after_save,
  store_new,
}
use media_service.Media.Limits.{context_to_storage_context}
use media_service.Media.Registry.{without_url, listing, registry}
use media_service.Media.Registry.Listing.{any-listed, save_media-fresh, find_live-append}
use media_service.Media.Registry.Changes.{Change}
use media_service.Media.Registry.Steps.{
  Calm, Calm-refl, Step, Calm-Step, Step-Keeps, Step-Calm, Step-after, IsNamed, Result-cases,
  bind_cases,
}
use media_service.Media.Upload.Calm.{
  upload_object-Calm, store_thumbnail-Calm, delete_blobs-Calm, booked-Calm,
}

module _ (user : Text) where
  save-Keeps :
      (d : Text → Option Text) (m : Media) → Keeps (λ v. v.dedup_cache ≡ d) (transaction (save m))
  unfolding save
  save-Keeps d m =
      let stable : IsStable (λ v. v.dedup_cache ≡ d) = record {
        counted = λ w h. h;
        rolled = λ w0 w h0 h. h;
      } in
      search (keeps_rules, stable)

  save_ok :
      (m : Media) (env : Env) (w : World)
      → (save m env w).0 ≡ ok tt
      → (save m env w).1.media ≡ save_media m w.media
  unfolding save external
  save_ok m env w h = ground arith

  -- A step that enters `m`, which stands under its id where the run returned.
  abbrev IsEntry : Media → World → Type 0
  IsEntry m v = registry v m.id ≡ some (without_url m)

  module _ (m : Media) (env : Env) (w : World) (active : m.is_active ≡ true)
      (mine : m.owner_id ≡ user) (fresh : any (has_id m.id) (listing w) ≡ false) where
    saved_rows :
        (v : World) → v.media ≡ save_media m w.media → listing v ≡ listing w ++ without_url m ∷ []
    saved_rows v e =
        ap (map without_url)
          (e ∙ save_media-fresh m w.media (sym (any-listed m.id w.media) ∙ fresh))
        ∙ listed_append w.media
      where
        listed_append :
            (rows : List Media)
            → map without_url (rows ++ m ∷ []) ≡ map without_url rows ++ without_url m ∷ []
        listed_append [] = refl
        listed_append (n ∷ rows) = rw (listed_append rows)

    saved-Step :
        let v = (transaction (save m) env w).1 in
        Step user w v × ((transaction (save m) env w).0 ≡ ok tt → IsEntry m v)
    saved-Step =
        let body = save m in
        let v = (transaction body env w).1 in
        let dedup = (save-Keeps w.dedup_cache m).at env w refl in
        elim (Result-cases (transaction body env w).0) [
          | inl (u, e) ↦
              let (done, kept) = transaction_ok body env w u e in
              let rows =
                saved_rows v (ap (λ (x : World). x.media) kept ∙ save_ok m env (begun w) done) in
              (
                record {
                  change = Change.added (without_url m) fresh active mine rows;
                  dedup = λ k. inl (ap (λ f. f k) dedup);
                },
                λ returned.
                    ap (find_live m.id) rows
                    ∙ find_live-append m.id (without_url m) (listing w) active fresh
                    ∙ rw (text_eq_refl m.id),
              )
          | inr (x, e) ↦
              let (media, quotas) = transaction_err body env w e in
              (
                Calm-Step user w v (record { entries = ap (map without_url) media; dedup = dedup }),
                λ returned. absurd (clash e returned),
              )
        ]
      where
        clash : {r : Result (Unit {0})} {x : Error} → r ≡ err x → r ≡ ok tt → ⊥
        clash p q = cc

    save_or_clean-Step :
        let v = (save_or_clean m env w).1 in
        Step user w v × ((save_or_clean m env w).0 ≡ ok tt → IsEntry m v)
    unfolding save_or_clean on_error
    save_or_clean-Step =
        let (r, v) = transaction (save m) env w in by_result r v (saved-Step.0) (saved-Step.1)
      where
        ended_world :
            (x : Result (Unit {0}) × World) (e : Error) → (ended {A = Unit {0}} x (err e)).1 ≡ x.1
        ended_world (ok u, v) e = refl
        ended_world (err e', v) e = refl

        not_ended :
            (x : Result (Unit {0}) × World) (e : Error)
            → (ended {A = Unit {0}} x (err e)).0 ≡ ok tt
            → ⊥
        not_ended (ok u, v) e h = cc
        not_ended (err e', v) e h = cc

        by_result :
            (r : Result (Unit {0})) (v : World)
            → Step user w v
            → (r ≡ ok tt → IsEntry m v)
            → let x = handled r (delete_blobs m.storage_path m.thumbnail_path) env v in
              Step user w x.1 × (x.0 ≡ ok tt → IsEntry m x.1)
        by_result (ok u) v s entry = (s, entry)
        by_result (err e) v s entry =
            let cleaned = delete_blobs m.storage_path m.thumbnail_path env v in
            (
              rw (ended_world cleaned e) (
                  (Step-Keeps user w _
                      (λ z. delete_blobs-Calm z m.storage_path m.thumbnail_path)).at
                    env v s),
              λ returned. absurd (not_ended cleaned e returned),
            )

  -- The deduplication entry, and what follows it.
  named-Step :
      (m : Media) (c : MediaContext) (h : Text) (env : Env) (w v : World)
      → m.owner_id ≡ user
      → IsEntry m v
      → Step user w v
      → let x = external (λ z. (tt, set_dedup (dedup_key user c h) (some m.id) z)) env v in
        Step user w x.1
  named-Step m c h env w v mine entry s =
      let key = dedup_key user c h in
      let call = external (λ z. (tt, set_dedup key (some m.id) z)) in
      elim (Result-cases (call env v).0) [
        | inl (u, e) ↦
            rw (external_ok (λ z. (tt, set_dedup key (some m.id) z)) env v u e)
              (record { change = s.change; dedup = λ k. by_test k (text_eq k key) refl })
        | inr (x, e) ↦ rw (external_err (λ z. (tt, set_dedup key (some m.id) z)) env v x e) (
            Step-Calm user w w v (begun v) (Calm-refl w) s
              (record { entries = refl; dedup = refl }))
      ]
    where
      by_test :
          (k : Text) (b : Bool)
          → text_eq k (dedup_key user c h) ≡ b
          → let x = set_dedup (dedup_key user c h) (some m.id) (begun v) in
            (x.dedup_cache k ≡ w.dedup_cache k) ⊎ IsNamed user k x
      by_test k true e = inr (record {
        context = c;
        hash = h;
        key = text_eq_sound k (dedup_key user c h) e;
        media = without_url m;
        named = rw e;
        live = entry;
        mine = mine;
      })
      by_test k false e = elim (s.dedup k) [
        | inl same ↦ inl (rw e same)
        | inr n ↦ inr (record {
          context = n.context;
          hash = n.hash;
          key = n.key;
          media = n.media;
          named = rw e n.named;
          live = n.live;
          mine = n.mine;
        })
      ]

  after_save-Step :
      (m : Media) (c : MediaContext) (h : Text) (env : Env) (w v : World)
      → m.owner_id ≡ user
      → IsEntry m v
      → Step user w v
      → Step user w (after_save m (dedup_key user c h) env v).1
  unfolding after_save
  after_save-Step m c h env w v mine entry s =
      let named = named-Step m c h env w v mine entry s in
      let key = dedup_key user c h in
      let call = external (λ z. (tt, set_dedup key (some m.id) z)) in
      bind_cases (Step user w) call _ env v
        (λ u e. (Step-Keeps user w _ (λ z. booked-Calm z m)).at env (call env v).1 named)
        (λ x e. named)

  -- The row and what follows it, behind steps that changed nothing.
  entered-Step :
      (m : Media) (c : MediaContext) (h : Text) (env : Env) (w v : World)
      → m.is_active ≡ true
      → m.owner_id ≡ user
      → any (has_id m.id) (listing w) ≡ false
      → Calm w v
      → Step user w ((save_or_clean m >> after_save m (dedup_key user c h)) env v).1
  entered-Step m c h env w v active mine fresh calm =
      let (saved, entry) =
        save_or_clean-Step m env v active mine (ap (any (has_id m.id)) calm.entries ∙ fresh) in
      let v' = (save_or_clean m env v).1 in
      let step = Step-after user w v v' calm saved in
      bind_cases (Step user w) (save_or_clean m) _ env v
        (λ u e. after_save-Step m c h env w v' mine (entry e) step) (λ x e. step)

  -- A new media, with all that precedes and follows its row.
  pub store_new-Step :
      (file : MulterFile) (c : MediaContext) (t : Option MulterFile) (s : Option (List Text))
      (h : Text) (env : Env) (w : World)
      → any (has_id env.random_uuid) (listing w) ≡ false
      → Step user w (store_new user file c t s (dedup_key user c h) env w).1
  unfolding store_new ask lift new_media
  store_new-Step file c t s h env w fresh =
      let path_of = lift (build_path (context_to_storage_context c) user env.random_uuid) in
      let thumbnail_of = store_thumbnail user env.random_uuid t in
      rw (bind_step (ask (λ x. x)) _ env w env refl) (
        bind_cases (Step user w) path_of _ env w
          (λ path e.
            let store = Storage.upload path file.mimetype file.size in
            let v = (store env w).1 in
            let calm = (upload_object-Calm w path file.mimetype file.size).at env w (Calm-refl w) in
            bind_cases (Step user w) store _ env w
              (λ u e'.
                let calm' = (store_thumbnail-Calm w user env.random_uuid t).at env v calm in
                let v' = (thumbnail_of env v).1 in
                bind_cases (Step user w) thumbnail_of _ env v
                  (λ thumbnail e''.
                    entered-Step (new_media env env.random_uuid user c file path thumbnail s) c h
                      env w v' refl refl fresh calm')
                  (λ x e''. Calm-Step user w v' calm'))
              (λ x e'. Calm-Step user w v calm))
          (λ x e. Calm-Step user w w (Calm-refl w)))
