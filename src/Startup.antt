-- ===== src/Startup.antt =====
-- The check of the environment before the start: src/docker/check-env.ts.
pub mod Required
use media_service.Base.{
  ℕ, ◌+◌, suc, Bool, true, false, Option, none, some, List, [], ◌∷◌, Text, codes, trim, text_eq,
  ltb, if◌then◌else◌,
}
use media_service.Errors.{Error, Result, ok, err}

-- `process.env`
abbrev pub ProcessEnv : Type 0
ProcessEnv = Text → Option Text

-- `missingVars` and `optionalVars`, which the module keeps from one run to the next.
pub record Counts : Type 0 where
  pub missing_vars : ℕ
  pub optional_vars : ℕ

-- `!value || value.trim() === ''`
unfoldable pub is_unset : Option Text → Bool
is_unset none = true
is_unset (some []) = true
is_unset (some (c ∷ s)) = text_eq (trim (c ∷ s)) []

-- `checkRequired`
unfoldable pub check_required : ProcessEnv → Text → Counts → Bool × Counts
check_required env name n =
    if is_unset (env name)
    then (false, record n { missing_vars = suc n.missing_vars })
    else (true, n)

-- `checkOptional`; the default is only for the log line.
unfoldable pub check_optional : ProcessEnv → Text → Counts → Bool × Counts
check_optional env name n =
    if is_unset (env name)
    then (false, record n { optional_vars = suc n.optional_vars })
    else (true, n)

abbrev pub required_vars : List Text
required_vars =
    codes "NODE_ENV"
    ∷ codes "DB_HOST"
    ∷ codes "DB_PORT"
    ∷ codes "DB_USERNAME"
    ∷ codes "DB_PASSWORD"
    ∷ codes "DB_NAME"
    ∷ codes "JWT_JWKS_URL"
    ∷ codes "REDIS_HOST"
    ∷ codes "REDIS_PORT"
    ∷ codes "HTTP_PORT"
    ∷ codes "S3_ACCESS_KEY_ID"
    ∷ codes "S3_SECRET_ACCESS_KEY"
    ∷ codes "S3_ENDPOINT"
    ∷ []

abbrev pub optional_vars_list : List Text
optional_vars_list =
    codes "DB_URL"
    ∷ codes "DB_LOGGING"
    ∷ codes "DB_MIGRATIONS_RUN"
    ∷ codes "DB_SYNCHRONIZE"
    ∷ codes "REDIS_PASSWORD"
    ∷ codes "NODE_OPTIONS"
    ∷ codes "PORT"
    ∷ codes "LOG_LEVEL"
    ∷ codes "METRICS_ENABLED"
    ∷ codes "HEALTH_CHECK_TIMEOUT"
    ∷ codes "DEMO_MODE"
    ∷ []

-- One check for each name, in order.
unfoldable pub check_each : (Text → Counts → Bool × Counts) → List Text → Counts → Counts
check_each check [] n = n
check_each check (name ∷ names) n = let (set, after) = check name n in check_each check names after

-- `runEnvChecks`
unfoldable pub run_env_checks : ProcessEnv → Counts → Result (Unit {0}) × Counts
run_env_checks env n =
    let after =
      check_each (check_optional env) optional_vars_list
        (check_each (check_required env) required_vars n) in
    if ltb 0 after.missing_vars then (err Error.internal, after) else (ok tt, after)
