-- ===== src/Quota/Service/Frame.antt =====
-- The methods of the quota service act on the quotas, their cache, the cooldowns and the channels,
-- and on nothing else.
use media_service.Base.{ℕ, Bool, Option, none, some, List, [], ◌∷◌, Text}
use media_service.World.Records.{UserQuota, CachedQuota, Event}
use media_service.World.State.{World}
use media_service.World.Events.{publish_event}
use media_service.World.Keeps.{Keeps, IsStable, Keeps-bind, keeps_rules}
use media_service.Quota.Rows.{JsNumber, QuotaCheckResult}
use media_service.Quota.Service.{
  invalidate_cache, find_row, insert_row, found_or_throw, insert_missing, load_quota,
  cached_or_loaded, get_or_create_quota, check_quota, throw_reason, enforce_quota, update_row,
  acquire_cooldown, publish_quota_alert, alert_each, check_and_publish_quota_alert, record_upload,
  record_delete, invalidate_all, reset_daily_uploads,
}

-- `P` says nothing of what the quota service writes.
pub record IsQuotaBlind (P : World → Type 0) : Type 0 where
  pub stable : IsStable P
  pub quotas : (w : World) (q : List UserQuota) → P w → P (record w { quotas = q })
  pub quota_cache :
      (w : World) (c : Text → Option CachedQuota) → P w → P (record w { quota_cache = c })
  pub cooldowns : (w : World) (c : Text → Bool) → P w → P (record w { cooldowns = c })
  pub published : (w : World) (es : List Event) → P w → P (record w { published = es })

module _ {P : World → Type 0} (blind : IsQuotaBlind P) where
  open blind use {stable, quotas, quota_cache, cooldowns, published}

  invalidate_cache-Keeps : (u : Text) → Keeps P (invalidate_cache u)
  unfolding invalidate_cache
  invalidate_cache-Keeps u = search (keeps_rules, stable, quota_cache)

  find_row-Keeps : (u : Text) → Keeps P (find_row u)
  unfolding find_row
  find_row-Keeps u = search (keeps_rules, stable)

  insert_row-Keeps : (id u : Text) (today : ℕ) → Keeps P (insert_row id u today)
  unfolding insert_row
  insert_row-Keeps id u today = search (keeps_rules, stable, quotas)

  found_or_throw-Keeps : (o : Option UserQuota) → Keeps P (found_or_throw o)
  unfolding found_or_throw
  found_or_throw-Keeps none = search keeps_rules
  found_or_throw-Keeps (some q) = search keeps_rules

  insert_missing-Keeps : (u : Text) (o : Option UserQuota) → Keeps P (insert_missing u o)
  unfolding insert_missing
  insert_missing-Keeps u (some q) = search keeps_rules
  insert_missing-Keeps u none =
      search (keeps_rules, find_row-Keeps, insert_row-Keeps, found_or_throw-Keeps) depth 9

  load_quota-Keeps : (u : Text) → Keeps P (load_quota u)
  unfolding load_quota
  load_quota-Keeps u = search (keeps_rules, find_row-Keeps, insert_missing-Keeps)

  cached_or_loaded-Keeps : (u : Text) (c : Option CachedQuota) → Keeps P (cached_or_loaded u c)
  unfolding cached_or_loaded
  cached_or_loaded-Keeps u (some c) = search keeps_rules
  cached_or_loaded-Keeps u none =
      search (keeps_rules, stable, quota_cache, load_quota-Keeps) depth 9

  pub get_or_create_quota-Keeps : (u : Text) → Keeps P (get_or_create_quota u)
  unfolding get_or_create_quota
  get_or_create_quota-Keeps u = search (keeps_rules, stable, cached_or_loaded-Keeps)

  check_quota-Keeps : (u : Text) (n : JsNumber) → Keeps P (check_quota u n)
  unfolding check_quota
  check_quota-Keeps u n = search (keeps_rules, get_or_create_quota-Keeps)

  throw_reason-Keeps : (r : QuotaCheckResult) → Keeps P (throw_reason r)
  unfolding throw_reason
  throw_reason-Keeps r = search keeps_rules

  pub enforce_quota-Keeps : (u : Text) (n : JsNumber) → Keeps P (enforce_quota u n)
  unfolding enforce_quota
  enforce_quota-Keeps u n = search (keeps_rules, check_quota-Keeps, throw_reason-Keeps)

  update_row-Keeps : (u : Text) (f : UserQuota → UserQuota) → Keeps P (update_row u f)
  unfolding update_row
  update_row-Keeps u f = search (keeps_rules, stable, quotas)

  publish_quota_alert-Keeps :
      (u : Text) (q : UserQuota) (n : ℕ) → Keeps P (publish_quota_alert u q n)
  unfolding publish_quota_alert acquire_cooldown publish_event
  publish_quota_alert-Keeps u q n = search (keeps_rules, stable, cooldowns, published)

  alert_each-Keeps : (u : Text) (q : UserQuota) (ts : List ℕ) → Keeps P (alert_each u q ts)
  unfolding alert_each
  alert_each-Keeps u q [] = search keeps_rules
  alert_each-Keeps u q (t ∷ ts) =
      Keeps-bind _ _ (search (keeps_rules, publish_quota_alert-Keeps))
        (λ v. alert_each-Keeps u q ts)

  check_and_publish_quota_alert-Keeps : (u : Text) → Keeps P (check_and_publish_quota_alert u)
  unfolding check_and_publish_quota_alert
  check_and_publish_quota_alert-Keeps u =
      search (keeps_rules, get_or_create_quota-Keeps, alert_each-Keeps)

  pub record_upload-Keeps : (u : Text) (n : JsNumber) → Keeps P (record_upload u n)
  unfolding record_upload
  record_upload-Keeps u n =
      search
        (
          keeps_rules, stable, update_row-Keeps, invalidate_cache-Keeps,
          check_and_publish_quota_alert-Keeps,
        )
        depth 9

  pub record_delete-Keeps : (u : Text) (n : JsNumber) → Keeps P (record_delete u n)
  unfolding record_delete
  record_delete-Keeps u n =
      search (keeps_rules, stable, update_row-Keeps, invalidate_cache-Keeps) depth 9

  invalidate_all-Keeps : (us : List Text) → Keeps P (invalidate_all us)
  unfolding invalidate_all
  invalidate_all-Keeps [] = search keeps_rules
  invalidate_all-Keeps (u ∷ us) =
      Keeps-bind _ _ (invalidate_cache-Keeps u) (λ v. invalidate_all-Keeps us)

  pub reset_daily_uploads-Keeps : Keeps P reset_daily_uploads
  unfolding reset_daily_uploads
  reset_daily_uploads-Keeps = search (keeps_rules, stable, quotas, invalidate_all-Keeps) depth 9
