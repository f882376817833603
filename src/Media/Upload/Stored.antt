-- ===== src/Media/Upload/Stored.antt =====
-- What a new media leaves behind its upload.
use media_service.Base.{
  ℕ, ◌≡◌, refl, sym, ap, ◌∙◌, true, false, Option, none, some, List, Text, text_eq, text_eq_refl,
  text_eq_sound, Bool-cases, inl, inr, arith,
}
use media_service.Errors.{Error, Result, ok, err}
use media_service.World.Records.{MediaContext, MulterFile, Media, UploadMediaResponseDto}
use media_service.World.State.{World, Env, StoredObject}
use media_service.World.Monad.{
  M, pure, ◌>>=◌, lift, ask, external, ◌>>◌, transaction, on_error, handled, ended,
}
use media_service.World.Keeps.{
  Keeps, IsStable, Keeps-external, Keeps-bind, Keeps-pure, Keeps-throw, keeps_rules,
}
use media_service.World.Returns.{bind_ok, bind_step, transaction_ok, begun}
use media_service.Storage
use media_service.Storage.{StorageContext, build_path}
use media_service.Storage.Paths.{build_path_injective}
use media_service.Media.Limits.{context_to_storage_context}
use media_service.Media.Repository.{find_live, save, save_media}
use media_service.Media.Repository.Saved.{find_live-save_media}
use media_service.Media.Upload.{
  store_thumbnail, new_media, delete_blobs, save_or_clean, after_save, store_new,
}
use media_service.Media.Upload.Frame.{IsBookBlind, after_save-Keeps}

-- The object `o` is stored at `p`.
abbrev pub HasObject : Text → StoredObject → World → Type 0
HasObject p o w = w.objects p ≡ some o

HasObject-IsStable : (p : Text) (o : StoredObject) → IsStable (HasObject p o)
HasObject-IsStable p o = record { counted = λ w h. h; rolled = λ w0 w h0 h. h }

upload_elsewhere :
    (p : Text) (o : StoredObject) (q t : Text) (n : ℕ)
    → text_eq p q ≡ false
    → Keeps (HasObject p o) (Storage.upload q t n)
unfolding Storage.upload
upload_elsewhere p o q t n other =
    let new : StoredObject = record { content_type = t; content_length = n } in
    Keeps-external (λ w. (tt, Storage.put_object q new w)) (HasObject-IsStable p o)
      (λ w h. rw other h)

upload_at_path :
    (p : Text) (o : StoredObject) (f : MulterFile) (r : Result Text)
    → ((q : Text) → r ≡ ok q → text_eq p q ≡ false)
    → Keeps
        (HasObject p o)
        (lift r >>= λ q. Storage.upload q f.mimetype f.size >>= λ u. pure (some q))
unfolding ◌>>=◌ lift
upload_at_path p o f (ok q) n =
    let uploaded = upload_elsewhere p o q f.mimetype f.size (n q refl) in
    Keeps-bind (Storage.upload q f.mimetype f.size) (λ u. pure (some q)) uploaded
      (λ a. Keeps-pure (some q))
upload_at_path p o f (err e) n = Keeps-throw e

-- A thumbnail goes to a path of its own context.
store_thumbnail-Keeps :
    (p : Text) (o : StoredObject) (owner id : Text) (f : Option MulterFile)
    → ((q : Text) → build_path StorageContext.thumbnails owner id ≡ ok q → text_eq p q ≡ false)
    → Keeps (HasObject p o) (store_thumbnail owner id f)
unfolding store_thumbnail
store_thumbnail-Keeps p o owner id none other = search keeps_rules
store_thumbnail-Keeps p o owner id (some f) other =
    let stored = upload_at_path p o f (build_path StorageContext.thumbnails owner id) other in
    Keeps-bind _ _ (search keeps_rules) (λ u. stored)

-- The path of a new blob is none of a thumbnail.
blob_path-other :
    (c : MediaContext) (owner id path q : Text)
    → build_path (context_to_storage_context c) owner id ≡ ok path
    → build_path StorageContext.thumbnails owner id ≡ ok q
    → text_eq path q ≡ false
blob_path-other c owner id path q h h' = elim (Bool-cases (text_eq path q)) [
  | inl same ↦
      let e = text_eq_sound path q same in
      absurd (
        no_thumbnail c
          (build_path_injective (context_to_storage_context c) StorageContext.thumbnails owner id
            owner id path h (h' ∙ ap ok (sym e))).0)
  | inr other ↦ other
]
  where
    no_thumbnail : (c : MediaContext) → context_to_storage_context c ≡ StorageContext.thumbnails → ⊥
    no_thumbnail MediaContext.message e = cc
    no_thumbnail MediaContext.avatar e = cc
    no_thumbnail MediaContext.group_icon e = cc

upload-HasObject :
    (p t : Text) (n : ℕ) (env : Env) (w : World)
    → (Storage.upload p t n env w).0 ≡ ok tt
    → HasObject p (record { content_type = t; content_length = n }) (Storage.upload p t n env w).1
unfolding Storage.upload external
upload-HasObject p t n env w h = let same = text_eq_refl p in ground arith

ended_err_ok :
    {A : Type 0} (x : Result (Unit {0}) × World) (e : Error) {a : A}
    → ¬ ((ended x (err e)).0 ≡ ok a)
ended_err_ok (ok u, w) e h = cc
ended_err_ok (err e', w) e h = cc

handled_ok :
    {A : Type 0} (r : Result A) (k : M (Unit {0})) (env : Env) (w : World) {a : A}
    → (handled r k env w).0 ≡ ok a
    → (r ≡ ok a) × (handled r k env w ≡ (r, w))
handled_ok (ok a') k env w h = (h, refl)
handled_ok (err e) k env w h = absurd (ended_err_ok (k env w) e h)

save_ok :
    (m : Media) (env : Env) (w : World)
    → (save m env w).0 ≡ ok tt
    → ((save m env w).1.media ≡ save_media m w.media) × ((save m env w).1.objects ≡ w.objects)
unfolding save external
save_ok m env w h = (ground arith, ground arith)

-- A save that returned wrote the row, and cleaned nothing up.
save_or_clean_ok :
    (m : Media) (env : Env) (w : World)
    → (save_or_clean m env w).0 ≡ ok tt
    → ((save_or_clean m env w).1.media ≡ save_media m w.media)
      × ((save_or_clean m env w).1.objects ≡ w.objects)
unfolding save_or_clean on_error
save_or_clean_ok m env w h =
    let (r, v) = transaction (save m) env w in
    let (done, same) = handled_ok r (delete_blobs m.storage_path m.thumbnail_path) env v h in
    let (body, kept) = transaction_ok (save m) env w tt done in
    let (media, objects) = save_ok m env (begun w) body in
    (
      ap (λ x. x.1.media) same ∙ ap (λ (x : World). x.media) kept ∙ media,
      ap (λ x. x.1.objects) same ∙ ap (λ (x : World). x.objects) kept ∙ objects,
    )

media-IsBookBlind : (rows : List Media) → IsBookBlind (λ v. v.media ≡ rows)
media-IsBookBlind rows = record {
  quota = record {
    stable = record { counted = λ w h. h; rolled = λ w0 w h0 h. h0 };
    quotas = λ w q h. h;
    quota_cache = λ w c h. h;
    cooldowns = λ w c h. h;
    published = λ w es h. h;
  };
  dedup_cache = λ w c h. h;
  uploads_total = λ w n h. h;
}

HasObject-IsBookBlind : (p : Text) (o : StoredObject) → IsBookBlind (HasObject p o)
HasObject-IsBookBlind p o = record {
  quota = record {
    stable = HasObject-IsStable p o;
    quotas = λ w q h. h;
    quota_cache = λ w c h. h;
    cooldowns = λ w c h. h;
    published = λ w es h. h;
  };
  dedup_cache = λ w c h. h;
  uploads_total = λ w n h. h;
}

-- What a stored upload leaves: the row under the new id, and the blob at the path that the row
-- names.
pub record IsStored (env : Env) (owner : Text) (file : MulterFile) (c : MediaContext)
    (s : Option (List Text)) (v : World) : Type 0 where
  pub path : Text
  pub built : build_path (context_to_storage_context c) owner env.random_uuid ≡ ok path
  pub row : Media
  pub live : find_live env.random_uuid v.media ≡ some row
  pub owned : row.owner_id ≡ owner
  pub in_context : row.context ≡ c
  pub at_path : row.storage_path ≡ path
  pub typed : row.content_type ≡ file.mimetype
  pub sized : row.blob_size ≡ file.size
  pub active : row.is_active ≡ true
  pub unsigned : row.signed_url_expires_at ≡ none
  pub created : row.created_at ≡ env.now
  pub blob : HasObject path (record { content_type = file.mimetype; content_length = file.size }) v

saved_and_booked :
    (m : Media) (o : StoredObject) (key : Text) (env : Env) (w : World)
    {dto : UploadMediaResponseDto}
    → m.is_active ≡ true
    → ((save_or_clean m >> after_save m key) env w).0 ≡ ok dto
    → HasObject m.storage_path o w
    → let v = ((save_or_clean m >> after_save m key) env w).1 in
      (find_live m.id v.media ≡ some m) × HasObject m.storage_path o v
saved_and_booked m o key env w a h there =
    let (u, done, e) = bind_ok (save_or_clean m) (λ x. after_save m key) env w h in
    let v = (save_or_clean m env w).1 in
    let (media, objects) = save_or_clean_ok m env w done in
    let rows = (after_save-Keeps (media-IsBookBlind v.media) m key).at env v refl in
    let blob = ap (λ os. os m.storage_path) objects ∙ there in
    (
      ap (λ x. find_live m.id x.1.media) e
          ∙ ap (find_live m.id) (rows ∙ media)
          ∙ find_live-save_media m w.media a,
      ap (λ x. x.1.objects m.storage_path) e
          ∙ (after_save-Keeps (HasObject-IsBookBlind m.storage_path o) m key).at env v blob,
    )

-- An upload that is no duplicate and that returns leaves a live row under the new id, which names
-- the owner, the context, the type and the size of the file, the time of the upload and the path
-- built of the context, the owner and the id, and has no signed URL; and at that path there is an
-- object of the type and the size of the file.
pub store_new_ok :
    (owner : Text) (file : MulterFile) (c : MediaContext) (t : Option MulterFile)
    (s : Option (List Text)) (key : Text) (env : Env) (w : World) {dto : UploadMediaResponseDto}
    → (store_new owner file c t s key env w).0 ≡ ok dto
    → IsStored env owner file c s (store_new owner file c t s key env w).1
unfolding store_new ask lift new_media
store_new_ok owner file c t s key env w h =
    let started = bind_step (ask (λ x. x)) _ env w env refl in
    let path_of = lift (build_path (context_to_storage_context c) owner env.random_uuid) in
    let (path, built, e) = bind_ok path_of _ env w (ap (λ x. x.0) (sym started) ∙ h) in
    let store = Storage.upload path file.mimetype file.size in
    let h' = ap (λ x. x.0) (sym e) ∙ ap (λ x. x.0) (sym started) ∙ h in
    let (u, stored, e') = bind_ok store _ env w h' in
    let v = (store env w).1 in
    let (thumbnail, made, e'') =
      bind_ok (store_thumbnail owner env.random_uuid t) _ env v (ap (λ x. x.0) (sym e') ∙ h') in
    let v' = (store_thumbnail owner env.random_uuid t env v).1 in
    let m = new_media env env.random_uuid owner c file path thumbnail s in
    let o : StoredObject = record { content_type = file.mimetype; content_length = file.size } in
    let there =
      (store_thumbnail-Keeps path o owner env.random_uuid t
          (λ q. blob_path-other c owner env.random_uuid path q built)).at
        env v (upload-HasObject path file.mimetype file.size env w stored) in
    let (row, blob) =
      saved_and_booked m o key env v' refl (ap (λ x. x.0) (sym e'') ∙ ap (λ x. x.0) (sym e') ∙ h')
        there in
    let end = ap (λ x. x.1) started ∙ ap (λ x. x.1) e ∙ ap (λ x. x.1) e' ∙ ap (λ x. x.1) e'' in
    record {
      path = path;
      built = built;
      row = m;
      live = ap (λ (x : World). find_live env.random_uuid x.media) end ∙ row;
      owned = refl;
      in_context = refl;
      at_path = refl;
      typed = refl;
      sized = refl;
      active = refl;
      unsigned = refl;
      created = refl;
      blob = ap (λ (x : World). x.objects path) end ∙ blob;
    }
