-- ===== src/Startup/Required.antt =====
-- When the service may start.
use media_service.Base.{
  Option, none, some, ◌≢◌, sym, ap, text_eq, text_eq_iff, trim, ℕ, ◌+◌, ◌≡◌, ◌↔◌, ◌⊎◌, inl, inr,
  refl, ◌∙◌, false, List, [], ◌∷◌, Text, ltb, All, arith, Bool-cases, if◌then◌else◌, filter, length,
}
use media_service.Errors.{Error, Result, ok, err}
use media_service.Startup.{
  ProcessEnv, Counts, is_unset, check_required, check_optional, check_each, required_vars,
  optional_vars_list, run_env_checks,
}

-- The names of a list that are not set.
abbrev pub unset : ProcessEnv → List Text → List Text
unset env names = filter (λ name. is_unset (env name)) names

check_required-count :
    (env : ProcessEnv) (name : Text) (names : List Text) (n : Counts)
    → (check_required env name n).1.missing_vars + length (unset env names)
      ≡ n.missing_vars + length (unset env (name ∷ names))
unfolding check_required
check_required-count env name names n = ground arith

check_required-missing :
    (env : ProcessEnv) (names : List Text) (n : Counts)
    → (check_each (check_required env) names n).missing_vars
      ≡ n.missing_vars + length (unset env names)
unfolding check_each
check_required-missing env [] n = omega arith
check_required-missing env (name ∷ names) n =
    check_required-missing env names (check_required env name n).1
    ∙ check_required-count env name names n

check_optional-count :
    (env : ProcessEnv) (name : Text) (n : Counts)
    → (check_optional env name n).1.missing_vars ≡ n.missing_vars
unfolding check_optional
check_optional-count env name n = ground arith

check_optional-missing :
    (env : ProcessEnv) (names : List Text) (n : Counts)
    → (check_each (check_optional env) names n).missing_vars ≡ n.missing_vars
unfolding check_each
check_optional-missing env [] n = refl
check_optional-missing env (name ∷ names) n =
    check_optional-missing env names (check_optional env name n).1 ∙ check_optional-count env name n

-- A variable has a value, and it is not blank.
abbrev pub IsFilled : Option Text → Type 0
IsFilled o = (value : Text) × (o ≡ some value) × (trim value ≢ [])

is_unset_iff : (o : Option Text) → (is_unset o ≡ false) ↔ IsFilled o
unfolding is_unset trim
is_unset_iff none = (λ h. cc, λ x. cc (x.1))
is_unset_iff (some []) = (λ h. cc, λ (v, e, full). absurd (full (ap trim (sym (value_eq e)))))
  where
    value_eq : {a b : Text} → some a ≡ some b → a ≡ b
    value_eq e = cc
is_unset_iff (some (c ∷ s)) = (
  λ h. (c ∷ s, refl, λ e. let a = (text_eq_iff (trim (c ∷ s)) []).1 e in cc),
  λ (v, e, full). elim (Bool-cases (text_eq (trim (c ∷ s)) [])) [
    | inl blank ↦
        absurd (full (ap trim (sym (value_eq e)) ∙ (text_eq_iff (trim (c ∷ s)) []).0 blank))
    | inr other ↦ other
  ],
)
  where
    value_eq : {a b : Text} → some a ≡ some b → a ≡ b
    value_eq e = cc

-- Every variable of the list has a value, and it is not blank.
abbrev pub AllSet : ProcessEnv → List Text → Type 0
AllSet env names = All (λ name. IsFilled (env name)) names

unset_iff :
    (env : ProcessEnv) (names : List Text) → (length (unset env names) ≡ 0) ↔ AllSet env names
unset_iff env [] = (λ h. tt, λ h. refl)
unset_iff env (name ∷ names) = elim (Bool-cases (is_unset (env name))) [
  | inl missing ↦
      rw missing
        (λ h. absurd (omega arith), λ (e, rest). absurd (cc ((is_unset_iff (env name)).1 e)))
  | inr there ↦
      let filled = (is_unset_iff (env name)).0 there in
      rw there (λ h. (filled, (unset_iff env names).0 h), λ (e, rest). (unset_iff env names).1 rest)
]

-- The decision at the end, by the number of those that are missing.
decided_iff :
    (k : ℕ) (after : Counts)
    → after.missing_vars ≡ k
    → let run : Result (Unit {0}) × Counts =
        if ltb 0 after.missing_vars then (err Error.internal, after) else (ok tt, after) in
      ((run.0 ≡ ok tt) ↔ (k ≡ 0))
      × ((run.0 ≡ ok tt) ⊎ (run.0 ≡ err Error.internal))
      × (run.1.missing_vars ≡ k)
decided_iff k after e = elim (Bool-cases (ltb 0 after.missing_vars)) [
  | inl missing ↦ rw missing ((λ h. cc, λ h. absurd (ground arith)), inr refl, e)
  | inr complete ↦ rw complete ((λ h. ground arith, λ h. refl), inl refl, e)
]

count_first :
    (env : ProcessEnv) (req opt : List Text)
    → (check_each (check_optional env) opt (
        check_each
          (check_required env)
          req
          (record { missing_vars = 0; optional_vars = 0 }))).missing_vars
      ≡ length (unset env req)
count_first env req opt =
    let start : Counts = record { missing_vars = 0; optional_vars = 0 } in
    check_optional-missing env opt (check_each (check_required env) req start)
    ∙ check_required-missing env req start
    ∙ zero_plus (length (unset env req))
  where
    zero_plus : (n : ℕ) → 0 + n ≡ n
    zero_plus n = omega arith

-- A first run of the checks lets the service start exactly if each of the thirteen required
-- variables is there and not blank, whatever the optional ones are; else it throws, and it has
-- counted those that are missing.
pub run_env_checks_iff :
    (env : ProcessEnv)
    → let run = run_env_checks env (record { missing_vars = 0; optional_vars = 0 }) in
      ((run.0 ≡ ok tt) ↔ AllSet env required_vars)
      × ((run.0 ≡ ok tt) ⊎ (run.0 ≡ err Error.internal))
      × (run.1.missing_vars ≡ length (unset env required_vars))
unfolding run_env_checks
run_env_checks_iff env =
    let start : Counts = record { missing_vars = 0; optional_vars = 0 } in
    let required = check_each (check_required env) required_vars start in
    let after = check_each (check_optional env) optional_vars_list required in
    let k = length (unset env required_vars) in
    let (iff, known, missing) =
      decided_iff k after (count_first env required_vars optional_vars_list) in
    let (set, back) = unset_iff env required_vars in
    ((λ h. set (iff.0 h), λ all. iff.1 (back all)), known, missing)
