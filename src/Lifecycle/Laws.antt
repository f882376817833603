-- ===== src/Lifecycle/Laws.antt =====
-- What the start-up leaves in the bucket.
use media_service.Base.{
  ℕ, ◌≡◌, inl, inr, refl, ap, ◌∙◌, Bool, true, false, not, Option, none, some, List, [], ◌∷◌, ◌++◌,
  Text, codes, text_eq, text_eq_sound, includes, filter, find, any, arith, Bool-cases, get_or_else,
  ==_iff,
}
use mathlib.Core.List.{append-nil}
use media_service.Lifecycle.{
  LifecycleRule, GetAnswer, desired_rule_ids, same_id, has_rule_id, any_id, up_to_date, is_foreign,
  message_rule, thumbnail_rule, new_rules, rules_to_put, ensure_lifecycle_policies,
}

not_foreign :
    (r : LifecycleRule) (x : Text)
    → includes desired_rule_ids x ≡ true
    → is_foreign r ≡ true
    → has_rule_id x r ≡ false
not_foreign r x desired foreign = by_id r.id foreign
  where
    by_id :
        (o : Option Text)
        → not (includes desired_rule_ids (get_or_else o [])) ≡ true
        → same_id o x ≡ false
    by_id none h = refl
    by_id (some i) h = elim (Bool-cases (text_eq i x)) [
      | inl same ↦
          let e = text_eq_sound i x same in
          absurd (clash (ap (includes desired_rule_ids) e ∙ desired) h)
      | inr other ↦ other
    ]
      where
        clash : {b : Bool} → b ≡ true → not b ≡ true → ⊥
        clash p q = cc

find-foreign :
    (x : Text) (rules others : List LifecycleRule)
    → includes desired_rule_ids x ≡ true
    → find (has_rule_id x) (filter is_foreign rules ++ others) ≡ find (has_rule_id x) others
find-foreign x [] others d = refl
find-foreign x (r ∷ rules) others d = elim (Bool-cases (is_foreign r)) [
  | inl foreign ↦ rw (foreign, not_foreign r x d foreign) (find-foreign x rules others d)
  | inr ours ↦ rw ours (find-foreign x rules others d)
]

any-append :
    (p : LifecycleRule → Bool) (xs ys : List LifecycleRule)
    → any p ys ≡ true
    → any p (xs ++ ys) ≡ true
any-append p [] ys h = h
any-append p (x ∷ xs) ys h = let rest = any-append p xs ys h in ground arith

filter-foreign :
    (rules others : List LifecycleRule)
    → filter is_foreign (filter is_foreign rules ++ others)
      ≡ filter is_foreign rules ++ filter is_foreign others
filter-foreign [] others = refl
filter-foreign (r ∷ rules) others = elim (Bool-cases (is_foreign r)) [
  | inl foreign ↦ rw (foreign, foreign) (ap (λ xs. r ∷ xs) (filter-foreign rules others))
  | inr ours ↦ rw ours (filter-foreign rules others)
]

-- The rules that a start-up sends keep those of others as they were, in their order, and are such
-- that the next start-up with the same settings sends nothing.
pub rules_to_put_settles :
    (message_days thumbnail_days : ℕ) (rules : List LifecycleRule)
    → let sent = new_rules message_days thumbnail_days rules in
      (filter is_foreign sent ≡ filter is_foreign rules)
      × (ensure_lifecycle_policies message_days thumbnail_days (GetAnswer.configured (some sent))
          ≡ none)
unfolding new_rules ensure_lifecycle_policies rules_to_put up_to_date includes text_eq
rules_to_put_settles m t rules =
    let ours = message_rule m ∷ thumbnail_rule t ∷ [] in
    let there = any-append (any_id (codes "messages-expiry")) (filter is_foreign rules) ours refl in
    let there' =
      any-append (any_id (codes "thumbnails-expiry")) (filter is_foreign rules) ours refl in
    let first = find-foreign (codes "messages-expiry") rules ours refl in
    let second = find-foreign (codes "thumbnails-expiry") rules ours refl in
    let m_same = (==_iff m m).1 refl in
    let t_same = (==_iff t t).1 refl in
    (
      filter-foreign rules ours ∙ append-nil (filter is_foreign rules),
      rw (there, there', first, second, m_same, t_same) refl,
    )
