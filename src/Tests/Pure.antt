-- ===== src/Tests/Pure.antt =====
-- The rules of access, access lists, quotas, rows and listings, applied.
use media_service.Base.{
  ◌≡◌, inl, inr, refl, pos, true, some, [], ◌∷◌, codes, text_eq, includes, arith,
}
use media_service.Errors.{ok}
use media_service.World.Records.{MediaContext, UserQuota}
use media_service.World.Monad.{
  ◌>>=◌, external, lift, pure, throw, transaction, transaction_body, attempt, ask,
}
use media_service.Quota.Rows.{
  JsNumber, validate_blob_size, check_limits, after_delete, update_quota, find_quota, affected,
}
use media_service.Quota.Limits.{check_limits_iff}
use media_service.Quota.Service.{record_delete, invalidate_cache, cache_key}
use media_service.Quota.Service.Deletions.{record_delete_ok}
use media_service.Media.Access.{enforce_read_access, enforce_read_access_iff}
use media_service.Media.Acl.{merge_acl}
use media_service.Media.Acl.Laws.{merge_acl_iff}
use media_service.Tests.Data.{alice, bob, calm, start, quota_of}

enforce_read_access_iff_example :
    enforce_read_access MediaContext.message alice (some (bob ∷ [])) bob ≡ ok tt
enforce_read_access_iff_example =
    (enforce_read_access_iff MediaContext.message alice (some (bob ∷ [])) bob).0.1
      (inr (inr (inr (bob ∷ [], refl, inl refl))))

merge_acl_iff_example :
    includes (merge_acl alice (some (bob ∷ [])) (alice ∷ codes "c" ∷ [])) bob ≡ true
merge_acl_iff_example =
    (merge_acl_iff alice (some (bob ∷ [])) (alice ∷ codes "c" ∷ []) bob).1 (inl (inl refl))

check_limits_iff_example : (check_limits (quota_of alice 300) 700).allowed ≡ true
check_limits_iff_example =
    (check_limits_iff (quota_of alice 300) 700).1 (omega arith, omega arith, omega arith)

record_delete_ok_example :
    (q : UserQuota) × (find_quota alice start.quotas ≡ some q)
    × (find_quota alice (record_delete alice (JsNumber.integral (pos 100)) calm start).1.quotas
        ≡ some (after_delete 100 q))
unfolding record_delete validate_blob_size affected update_quota invalidate_cache cache_key text_eq
    ◌>>=◌ ask attempt external lift pure throw transaction transaction_body
record_delete_ok_example = record_delete_ok alice 100 calm start refl
