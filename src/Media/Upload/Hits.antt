-- ===== src/Media/Upload/Hits.antt =====
-- A hit of the deduplication changes no more than the access list of the media that it names.
use media_service.Base.{
  ◌≡◌, refl, ap, ◌∙◌, inl, inr, Option, some, List, [], ◌∷◌, map, Text, map_some, arith, length,
  ◌==◌, Bool-cases, includes_iff,
}
use media_service.Errors.{ok}
use media_service.World.Records.{Media}
use media_service.World.State.{World, Env}
use media_service.World.Monad.{pure, external, transaction}
use media_service.World.Keeps.{Keeps, IsStable, keeps_rules}
use media_service.World.Returns.{transaction_ok, transaction_err, begun}
use media_service.Media.Acl.{users_of, merge_acl}
use media_service.Media.Acl.Laws.{merge_acl_iff}
use media_service.Media.Repository.{find_live, update_media, update_shared_with, with_shared_with}
use media_service.Media.Upload.{widen, reuse}
use media_service.Media.Registry.{without_url, Extends}
use media_service.Media.Registry.Listing.{update_media-listed, find_live-listed}
use media_service.Media.Registry.Changes.{Change}
use media_service.Media.Registry.Steps.{
  Calm-refl, Step, Calm-Step, Step-Keeps, Result-cases, bind_cases,
}
use media_service.Media.Upload.Calm.{build_upload_response-Calm, forgotten-Calm}

module _ (user : Text) where
  update_shared_with_ok :
      (id : Text) (s : Option (List Text)) (env : Env) (w : World)
      → (update_shared_with id s env w).0 ≡ ok tt
      → (update_shared_with id s env w).1.media ≡ update_media id (with_shared_with s) w.media
  unfolding update_shared_with external
  update_shared_with_ok id s env w h = ground arith

  update_shared_with-Keeps :
      (d : Text → Option Text) (id : Text) (s : Option (List Text))
      → Keeps (λ v. v.dedup_cache ≡ d) (transaction (update_shared_with id s))
  unfolding update_shared_with
  update_shared_with-Keeps d id s =
      let stable : IsStable (λ v. v.dedup_cache ≡ d) = record {
        counted = λ w h. h;
        rolled = λ w0 w h0 h. h;
      } in
      search (keeps_rules, stable)

  Extends-merge_some :
      (owner : Text) (s : Option (List Text)) (us : List Text)
      → Extends s (some (merge_acl owner s us))
  Extends-merge_some owner s us reader h =
      (includes_iff (merge_acl owner s us) reader).0 ((merge_acl_iff owner s us reader).1 (inl h))

  -- The transaction of a hit.
  widened-Step :
      (m : Media) (us : List Text) (env : Env) (w : World)
      → find_live m.id w.media ≡ some m
      → m.owner_id ≡ user
      → let next = merge_acl m.owner_id m.shared_with us in
        Step user w (transaction (update_shared_with m.id (some next)) env w).1
  widened-Step m us env w live mine =
      let next = merge_acl m.owner_id m.shared_with us in
      let body = update_shared_with m.id (some next) in
      let v = (transaction body env w).1 in
      let dedup = (update_shared_with-Keeps w.dedup_cache m.id (some next)).at env w refl in
      elim (Result-cases (transaction body env w).0) [
        | inl (u, e) ↦
            let (done, kept) = transaction_ok body env w u e in
            record {
              change =
                  Change.shared m.id (without_url m) (some next)
                    (find_live-listed m.id w.media ∙ ap (map_some without_url) live) mine
                    (Extends-merge_some m.owner_id m.shared_with us)
                    (ap (λ (x : World). map without_url x.media) kept
                      ∙ ap (map without_url)
                          (update_shared_with_ok m.id (some next) env (begun w) done)
                      ∙ update_media-listed m.id (with_shared_with (some next)) w.media
                          (λ x. refl));
              dedup = λ k. inl (ap (λ f. f k) dedup);
            }
        | inr (x, e) ↦
            let (media, quotas) = transaction_err body env w e in
            Calm-Step user w v (record { entries = ap (map without_url) media; dedup = dedup })
      ]

  widen-Step :
      (m : Media) (us : List Text) (env : Env) (w : World)
      → find_live m.id w.media ≡ some m
      → m.owner_id ≡ user
      → Step user w (widen m us env w).1
  unfolding widen pure
  widen-Step m [] env w live mine = Calm-Step user w w (Calm-refl w)
  widen-Step m (u ∷ us) env w live mine =
      let next = merge_acl m.owner_id m.shared_with (u ∷ us) in
      elim (Bool-cases (length next == length (users_of m.shared_with))) [
        | inl same ↦ rw same (Calm-Step user w w (Calm-refl w))
        | inr new ↦ rw new (
            bind_cases (Step user w) (transaction (update_shared_with m.id (some next))) _ env w
              (λ a e.
                (Step-Keeps user w _ (λ v. forgotten-Calm v m next)).at env
                  (transaction (update_shared_with m.id (some next)) env w).1
                  (widened-Step m (u ∷ us) env w live mine))
              (λ x e. widened-Step m (u ∷ us) env w live mine))
      ]

  pub reuse-Step :
      (m : Media) (s : Option (List Text)) (env : Env) (w : World)
      → find_live m.id w.media ≡ some m
      → m.owner_id ≡ user
      → Step user w (reuse m s env w).1
  unfolding reuse
  reuse-Step m s env w live mine =
      bind_cases (Step user w) (widen m (users_of s)) _ env w
        (λ n e.
          (Step-Keeps user w _ (λ v. build_upload_response-Calm v n)).at env
            (widen m (users_of s) env w).1 (widen-Step m (users_of s) env w live mine))
        (λ x e. widen-Step m (users_of s) env w live mine)
