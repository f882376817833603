-- ===== src/Media/Delete/Released.antt =====
-- What a deletion gives back: the objects, and the quota.
use media_service.Base.{
  ◌≡◌, refl, sym, ap, ◌∙◌, pos, Bool, true, false, Option, none, some, List, Text, text_eq,
  text_eq_refl, arith, if◌then◌else◌,
}
use media_service.Errors.{ok}
use media_service.World.Records.{Media, UserQuota}
use media_service.World.State.{World, Env, StoredObject}
use media_service.World.Monad.{external, ◌>>◌, transaction}
use media_service.World.Keeps.{Keeps, IsStable, Keeps-external, keeps_rules}
use media_service.World.Returns.{bind_ok, transaction_ok, begun}
use media_service.Storage
use media_service.Quota.Rows.{JsNumber, find_quota, after_delete}
use media_service.Quota.Service.{record_delete}
use media_service.Quota.Service.Frame.{IsQuotaBlind, record_delete-Keeps}
use media_service.Quota.Service.Deletions.{record_delete_ok}
use media_service.Media.Repository.{find_live, update_media, deactivated}
use media_service.Media.Repository.Laws.{update_media_lem}
use media_service.Media.Upload.{meta_key, set_meta}
use media_service.Media.Read.{path_of}
use media_service.Media.Share.Laws.{IsOwned}
use media_service.Media.Delete.{
  deactivate, delete_thumbnail_object, release, announce_deletion, delete,
}
use media_service.Media.Delete.Laws.{
  IsLogBlind, announce_deletion-Keeps, delete_object-Keeps, delete_thumbnail_object-Keeps,
  release-media, deactivate_ok, media-IsLogBlind,
}

-- There is no object at `p`.
abbrev pub IsGone : Text → World → Type 0
IsGone p w = w.objects p ≡ none

IsGone-IsStable : (p : Text) → IsStable (IsGone p)
IsGone-IsStable p = record { counted = λ w h. h; rolled = λ w0 w h0 h. h }

IsGone-IsQuotaBlind : (p : Text) → IsQuotaBlind (IsGone p)
IsGone-IsQuotaBlind p = record {
  stable = IsGone-IsStable p;
  quotas = λ w q h. h;
  quota_cache = λ w c h. h;
  cooldowns = λ w c h. h;
  published = λ w es h. h;
}

IsGone-IsLogBlind : (p : Text) → IsLogBlind (IsGone p)
IsGone-IsLogBlind p = record {
  stable = IsGone-IsStable p;
  access_logs = λ w l h. h;
  published = λ w es h. h;
  deletes_total = λ w n h. h;
}

deleted_stays : (b : Bool) (o : Option StoredObject) → o ≡ none → (if b then none else o) ≡ none
deleted_stays true o h = refl
deleted_stays false o h = h

-- A deletion of any object brings none back.
IsGone-delete : (p p' : Text) → Keeps (IsGone p) (Storage.delete p')
unfolding Storage.delete
IsGone-delete p p' =
    Keeps-external (λ w. (tt, Storage.delete_object p' w)) (IsGone-IsStable p)
      (λ w h. deleted_stays (text_eq p p') (w.objects p) h)

IsGone-thumbnail : (p : Text) (o : Option Text) → Keeps (IsGone p) (delete_thumbnail_object o)
unfolding delete_thumbnail_object
IsGone-thumbnail p none = search keeps_rules
IsGone-thumbnail p (some p') = IsGone-delete p p'

delete-IsGone :
    (p : Text) (env : Env) (w : World)
    → (Storage.delete p env w).0 ≡ ok tt
    → IsGone p (Storage.delete p env w).1
unfolding Storage.delete external
delete-IsGone p env w h = let same = text_eq_refl p in ground arith

thumbnail-IsGone :
    (o : Option Text) (env : Env) (w : World) (p : Text)
    → (delete_thumbnail_object o env w).0 ≡ ok tt
    → o ≡ some p
    → IsGone p (delete_thumbnail_object o env w).1
unfolding delete_thumbnail_object
thumbnail-IsGone none env w p h e = cc
thumbnail-IsGone (some p') env w p h e =
    let same : p' ≡ p = cc in
    ap (λ q. (Storage.delete p' env w).1.objects q) (sym same) ∙ delete-IsGone p' env w h

-- Neither object is there afterwards.
release_objects :
    (id r : Text) (m : Media) (env : Env) (w : World)
    → (release id r m env w).0 ≡ ok tt
    → let v = (release id r m env w).1 in
      IsGone m.storage_path v × ((p : Text) → path_of m.thumbnail_path ≡ some p → IsGone p v)
unfolding release
release_objects id r m env w h =
    let forget = external (λ w. (tt, set_meta (meta_key id) none w)) in
    let recorded = record_delete r (JsNumber.integral (pos m.blob_size)) in
    let late = forget >> recorded in
    let rest = delete_thumbnail_object (path_of m.thumbnail_path) >> late in
    let (u, blob, e) = bind_ok (Storage.delete m.storage_path) (λ x. rest) env w h in
    let v = (Storage.delete m.storage_path env w).1 in
    let (u', thumbnail, e') =
      bind_ok (delete_thumbnail_object (path_of m.thumbnail_path)) (λ x. late) env v
        (ap (λ x. x.0) (sym e) ∙ h) in
    let v' = (delete_thumbnail_object (path_of m.thumbnail_path) env v).1 in
    (
      ap (λ x. x.1.objects m.storage_path) e
          ∙ ap (λ x. x.1.objects m.storage_path) e'
          ∙ (late-Keeps m.storage_path).at env v' (
              (IsGone-thumbnail m.storage_path (path_of m.thumbnail_path)).at env v
                (delete-IsGone m.storage_path env w blob)),
      λ p here.
          ap (λ x. x.1.objects p) e
          ∙ ap (λ x. x.1.objects p) e'
          ∙ (late-Keeps p).at env v'
              (thumbnail-IsGone (path_of m.thumbnail_path) env v p thumbnail here),
    )
  where
    late-Keeps :
        (p : Text)
        → Keeps (IsGone p) (
            external (λ w. (tt, set_meta (meta_key id) none w))
            >> record_delete r (JsNumber.integral (pos m.blob_size)))
    late-Keeps p =
        let stable = IsGone-IsStable p in
        let recorded = record_delete-Keeps (IsGone-IsQuotaBlind p) in
        search (keeps_rules, stable, recorded)

rows-IsStable : (rows : List UserQuota) → IsStable (λ v. v.quotas ≡ rows)
rows-IsStable rows = record { counted = λ w h. h; rolled = λ w0 w h0 h. h0 }

-- The blob is off the quota of the user afterwards.
release_quota :
    (id r : Text) (m : Media) (env : Env) (w : World)
    → (release id r m env w).0 ≡ ok tt
    → (q : UserQuota) × (find_quota r w.quotas ≡ some q)
      × (find_quota r (release id r m env w).1.quotas ≡ some (after_delete m.blob_size q))
unfolding release
release_quota id r m env w h =
    let thumbnail = delete_thumbnail_object (path_of m.thumbnail_path) in
    let recorded = record_delete r (JsNumber.integral (pos m.blob_size)) in
    let forget = external (λ w. (tt, set_meta (meta_key id) none w)) in
    let (u, blob, e) =
      bind_ok (Storage.delete m.storage_path) (λ x. thumbnail >> (forget >> recorded)) env w h in
    let v = (Storage.delete m.storage_path env w).1 in
    let (u', gone, e') =
      bind_ok thumbnail (λ x. forget >> recorded) env v (ap (λ x. x.0) (sym e) ∙ h) in
    let v' = (thumbnail env v).1 in
    let (u'', forgot, e'') =
      bind_ok forget (λ x. recorded) env v' (ap (λ x. x.0) (sym e') ∙ ap (λ x. x.0) (sym e) ∙ h) in
    let done = ap (λ x. x.0) (sym e'') ∙ ap (λ x. x.0) (sym e') ∙ ap (λ x. x.0) (sym e) ∙ h in
    let (q, here, after) = record_delete_ok r m.blob_size env (forget env v').1 done in
    let stable = rows-IsStable w.quotas in
    let same : (forget env v').1.quotas ≡ w.quotas =
      (Keeps-external (λ x. (tt, set_meta (meta_key id) none x)) stable (λ x k. k)).at env v' (
        (delete_thumbnail_object-Keeps stable (λ x o k. k) (path_of m.thumbnail_path)).at env v
          ((delete_object-Keeps stable (λ x o k. k) m.storage_path).at env w refl)) in
    (
      q,
      ap (find_quota r) (sym same) ∙ here,
      ap (λ x. find_quota r x.1.quotas) e
          ∙ ap (λ x. find_quota r x.1.quotas) e'
          ∙ ap (λ x. find_quota r x.1.quotas) e''
          ∙ after,
    )

quota-IsLogBlind :
    (r : Text) (rows : List UserQuota) → IsLogBlind (λ v. find_quota r v.quotas ≡ find_quota r rows)
quota-IsLogBlind r rows = record {
  stable = record { counted = λ w h. h; rolled = λ w0 w h0 h. h0 };
  access_logs = λ w l h. h;
  published = λ w es h. h;
  deletes_total = λ w n h. h;
}

-- What holds behind a deletion.
pub record IsReleased (id requester : Text) (w v : World) : Type 0 where
  pub media : Media
  pub owned : IsOwned id requester media w
  pub no_row : find_live id v.media ≡ none
  pub no_blob : IsGone media.storage_path v
  pub no_thumbnail : (p : Text) → path_of media.thumbnail_path ≡ some p → IsGone p v
  pub before : UserQuota
  pub was : find_quota requester w.quotas ≡ some before
  pub quota : find_quota requester v.quotas ≡ some (after_delete media.blob_size before)

-- A deletion that returns was asked for by the owner of a live media. Afterwards no live row has
-- the id, neither the blob nor the thumbnail is stored, and the owner's quota is that of before
-- without the blob's size and without one file.
pub delete_ok :
    (id requester : Text) (ip agent : Option Text) (env : Env) (w : World)
    → (delete id requester ip agent env w).0 ≡ ok tt
    → IsReleased id requester w (delete id requester ip agent env w).1
unfolding delete
delete_ok id r ip agent env w h =
    let body = deactivate id r in
    let (m, committed, e) =
      bind_ok (transaction body) (λ m. release id r m >> announce_deletion r m ip agent) env w h in
    let v = (transaction body env w).1 in
    let (done, kept) = transaction_ok body env w m committed in
    let (owned, media, quotas) = deactivate_ok id r env (begun w) done in
    let (u, released, e') =
      bind_ok (release id r m) (λ x. announce_deletion r m ip agent) env v
        (ap (λ x. x.0) (sym e) ∙ h) in
    let v' = (release id r m env v).1 in
    let (blob, thumbnail) = release_objects id r m env v released in
    let (q, here, after) = release_quota id r m env v released in
    let rows = update_media id deactivated w.media in
    let gone = λ (p : Text). announce_deletion-Keeps (IsGone-IsLogBlind p) r m ip agent in
    let table =
      (announce_deletion-Keeps (media-IsLogBlind rows) r m ip agent).at env v'
        ((release-media id r m rows).at env v (ap (λ (x : World). x.media) kept ∙ media)) in
    let end = ap (λ x. x.1) e ∙ ap (λ x. x.1) e' in
    record {
      media = m;
      owned = record { live = owned.live; mine = owned.mine };
      no_row =
          ap (λ (x : World). find_live id x.media) end
          ∙ ap (find_live id) table
          ∙ (update_media_lem id id none w.media).0;
      no_blob =
          ap (λ (x : World). x.objects m.storage_path) end ∙ (gone m.storage_path).at env v' blob;
      no_thumbnail =
          λ p t. ap (λ (x : World). x.objects p) end ∙ (gone p).at env v' (thumbnail p t);
      before = q;
      was = ap (find_quota r) (sym quotas ∙ ap (λ (x : World). x.quotas) (sym kept)) ∙ here;
      quota =
          ap (λ (x : World). find_quota r x.quotas) end
          ∙ (announce_deletion-Keeps (quota-IsLogBlind r v'.quotas) r m ip agent).at env v' refl
          ∙ after;
    }
