-- ===== src/Quota/Service/Deletions.antt =====
-- What `recordDelete` did when it returned.
use media_service.Base.{
  ℕ, ◌≡◌, inl, inr, refl, sym, ap, ◌∙◌, pos, Bool, true, false, Option, some, List, [], ◌∷◌, Text,
  arith, Bool-cases, map_some, if◌then◌else◌,
}
use media_service.Errors.{Error, Result, ok}
use media_service.World.Records.{UserQuota, CachedQuota}
use media_service.World.State.{World, Env}
use media_service.World.Monad.{pure, throw, lift, external, ◌>>=◌, transaction}
use media_service.World.Keeps.{Keeps, IsStable, keeps_rules}
use media_service.World.Returns.{bind_ok, transaction_ok, external_ok, begun}
use media_service.Quota.Rows.{
  JsNumber, validate_blob_size, after_delete, find_quota, update_quota, affected, is_of,
}
use media_service.Quota.Limits.{validate_blob_size_iff, update_quota_lem}
use media_service.Quota.Service.{update_row, invalidate_cache, record_delete}

affected_found :
    (u : Text) (rows : List UserQuota)
    → affected u rows ≡ true
    → (q : UserQuota) × (find_quota u rows ≡ some q)
unfolding affected find_quota
affected_found u [] h = cc
affected_found u (q ∷ rows) h = elim (Bool-cases (is_of u q)) [
  | inl here ↦ (q, ground arith)
  | inr other ↦ let (p, e) = affected_found u rows (ground arith) in (p, ground arith)
]

if_ok :
    (b : Bool) (env : Env) (w : World)
    → ((if b then pure tt else throw Error.internal) env w).0 ≡ ok tt
    → (b ≡ true) × (((if b then pure tt else throw Error.internal) env w).1 ≡ w)
unfolding pure throw
if_ok true env w h = (refl, refl)
if_ok false env w h = cc

update_row_ok :
    (u : Text) (f : UserQuota → UserQuota) (env : Env) (w : World)
    → (update_row u f env w).0 ≡ ok tt
    → (affected u w.quotas ≡ true) × ((update_row u f env w).1.quotas ≡ update_quota u f w.quotas)
unfolding update_row
update_row_ok u f env w h =
    let call : World → Bool × World =
      λ v. (affected u v.quotas, record v { quotas = update_quota u f v.quotas }) in
    let rest = λ (b : Bool). if b then pure tt else throw Error.internal in
    let (b, called, e) = bind_ok (external call) rest env w h in
    let e' = external_ok call env w b called in
    let (held, same) = if_ok b env (external call env w).1 (ap (λ x. x.0) (sym e) ∙ h) in
    (
      injective (ap (λ x. x.0) (sym e') ∙ called) ∙ held,
      ap (λ x. x.1.quotas) e ∙ ap (λ (x : World). x.quotas) same ∙ ap (λ x. x.1.quotas) e',
    )
  where
    injective : {a b : Bool} → ◌≡◌ {A = Result Bool} (ok a) (ok b) → a ≡ b
    injective p = cc

invalidate_cache-Keeps :
    {P : World → Type 0} (u : Text)
    → IsStable P
    → ((w : World) (c : Text → Option CachedQuota) → P w → P (record w { quota_cache = c }))
    → Keeps P (invalidate_cache u)
unfolding invalidate_cache
invalidate_cache-Keeps u stable quota_cache = search (keeps_rules, stable, quota_cache)

-- The quotas' table is a given one, now and where a rollback would lead.
rows-IsStable :
    (rows : List UserQuota) (u : Text) → IsStable (λ v. find_quota u v.quotas ≡ find_quota u rows)
rows-IsStable rows u = record { counted = λ w h. h; rolled = λ w0 w h0 h. h0 }

-- A recorded deletion took the blob off the user's row, and that row was there.
pub record_delete_ok :
    (u : Text) (n : ℕ) (env : Env) (w : World)
    → (record_delete u (JsNumber.integral (pos n)) env w).0 ≡ ok tt
    → (q : UserQuota) × (find_quota u w.quotas ≡ some q)
      × (find_quota u (record_delete u (JsNumber.integral (pos n)) env w).1.quotas
          ≡ some (after_delete n q))
unfolding record_delete lift
record_delete_ok u n env w h =
    let valid = lift (validate_blob_size (JsNumber.integral (pos n))) in
    let rest =
      λ (size : ℕ). transaction (update_row u (after_delete size)) >>= λ x. invalidate_cache u in
    let (size, validated, e) = bind_ok valid rest env w h in
    let same : n ≡ size =
      cc ((validate_blob_size_iff (JsNumber.integral (pos n)) size).0 validated).0 in
    let m = transaction (update_row u (after_delete size)) in
    let (x, committed, e') =
      bind_ok m (λ x. invalidate_cache u) env w (ap (λ x. x.0) (sym e) ∙ h) in
    let (body, kept) = transaction_ok (update_row u (after_delete size)) env w x committed in
    let (there, written) = update_row_ok u (after_delete size) env (begun w) body in
    let (q, here) = affected_found u w.quotas there in
    let rows = update_quota u (after_delete size) w.quotas in
    let updated : find_quota u (m env w).1.quotas ≡ find_quota u rows =
      ap (λ (v : World). find_quota u v.quotas) kept ∙ ap (find_quota u) written in
    let after =
      (invalidate_cache-Keeps u (rows-IsStable rows u) (λ v c p. p)).at env (m env w).1 updated in
    (
      q,
      here,
      ap (λ x. find_quota u x.1.quotas) e
          ∙ ap (λ x. find_quota u x.1.quotas) e'
          ∙ after
          ∙ (update_quota_lem u u size w.quotas).1
          ∙ ap (map_some (after_delete size)) here
          ∙ ap (λ k. some (after_delete k q)) (sym same),
    )
