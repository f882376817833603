-- ===== src/Lifecycle.antt =====
-- The bucket's expiry rules, after src/modules/media/lifecycle.service.ts: what is sent at start-up,
-- given what the bucket answers. Of a rule only what the service reads or sets is kept.
pub mod Laws
use media_service.Base.{
  ℕ, Bool, true, false, not, ◌&&◌, Option, none, some, List, [], ◌∷◌, ◌++◌, Text, codes, text_eq,
  includes, filter, find, any, ◌==◌, get_or_else, if◌then◌else◌,
}

pub record LifecycleRule : Type 0 where
  pub id : Option Text
  pub status : Text
  pub prefix : Text
  pub days : Option ℕ

-- `desiredRuleIds`
abbrev pub desired_rule_ids : List Text
desired_rule_ids = codes "messages-expiry" ∷ codes "thumbnails-expiry" ∷ []

abbrev pub id_of : LifecycleRule → Text
id_of r = get_or_else r.id []

-- `r.ID === id`
abbrev pub same_id : Option Text → Text → Bool
same_id none id = false
same_id (some i) id = text_eq i id

abbrev pub has_rule_id : Text → LifecycleRule → Bool
has_rule_id id r = same_id r.id id

abbrev pub any_id : Text → LifecycleRule → Bool
any_id id r = text_eq (id_of r) id

-- `rule?.Expiration?.Days === days`
abbrev pub expires_after : ℕ → Option LifecycleRule → Bool
expires_after days none = false
expires_after days (some r) = same_days r.days
  where
    same_days : Option ℕ → Bool
    same_days none = false
    same_days (some n) = n == days

-- `rulesUpToDate`
unfoldable pub up_to_date : ℕ → ℕ → List LifecycleRule → Bool
up_to_date message_days thumbnail_days rules =
    any (any_id (codes "messages-expiry")) rules
    && any (any_id (codes "thumbnails-expiry")) rules
    && expires_after message_days (find (has_rule_id (codes "messages-expiry")) rules)
    && expires_after thumbnail_days (find (has_rule_id (codes "thumbnails-expiry")) rules)

abbrev pub is_foreign : LifecycleRule → Bool
is_foreign r = not (includes desired_rule_ids (id_of r))

abbrev pub message_rule : ℕ → LifecycleRule
message_rule days = record {
  id = some (codes "messages-expiry");
  status = codes "Enabled";
  prefix = codes "messages/";
  days = some days;
}

abbrev pub thumbnail_rule : ℕ → LifecycleRule
thumbnail_rule days = record {
  id = some (codes "thumbnails-expiry");
  status = codes "Enabled";
  prefix = codes "thumbnails/";
  days = some days;
}

-- `newRules`
unfoldable pub new_rules : ℕ → ℕ → List LifecycleRule → List LifecycleRule
new_rules message_days thumbnail_days rules =
    filter is_foreign rules ++ message_rule message_days ∷ thumbnail_rule thumbnail_days ∷ []

-- The answer to the question for the rules.
pub data GetAnswer : Type 0 where
  configured : Option (List LifecycleRule) → GetAnswer
  no_configuration failed : GetAnswer

unfoldable pub rules_to_put : ℕ → ℕ → List LifecycleRule → Option (List LifecycleRule)
rules_to_put message_days thumbnail_days rules =
    if up_to_date message_days thumbnail_days rules
    then none
    else some (new_rules message_days thumbnail_days rules)

-- `ensureLifecyclePolicies`: the rules that are sent, if any. A failure ends it, and is logged.
unfoldable pub ensure_lifecycle_policies : ℕ → ℕ → GetAnswer → Option (List LifecycleRule)
ensure_lifecycle_policies message_days thumbnail_days (GetAnswer.configured rules) =
    rules_to_put message_days thumbnail_days (get_or_else rules [])
ensure_lifecycle_policies message_days thumbnail_days GetAnswer.no_configuration =
    rules_to_put message_days thumbnail_days []
ensure_lifecycle_policies message_days thumbnail_days GetAnswer.failed = none
