-- ===== src/Tests/Operations.antt =====
-- The parts that run beside the requests.
use media_service.Base.{
  ℕ, ◌<◌, ◌++◌, if◌then◌else◌, ◌≤◌, ◌≡◌, ◌↔◌, ◌⊎◌, refl, true, false, Option, none, some, List, [],
  ◌∷◌, Text, codes, length, includes, to_lower_case, is_some, arith,
}
use media_service.Errors.{Error, ok, err}
use media_service.ContentSafety.Clamd.{instream, read_instream, instream_roundtrip}
use media_service.Partitions.{YearMonth, Tables, Pool, partition_for, ensure_partition_for_month}
use media_service.Partitions.Names.{next_month, IsFirstOf, partitions_tile}
use media_service.Partitions.Lock.{IsSettled, ensure_partition_lem, lock_outlives_run}
use media_service.Logger.{LogLevel, inherited_names, level_order, parse_level, emit}
use media_service.Logger.Levels.{emit_iff}
use media_service.Startup.{ProcessEnv, run_env_checks, required_vars}
use media_service.Startup.Required.{AllSet, unset, run_env_checks_iff}
use media_service.Health.{readiness}
use media_service.Health.Reports.{readiness_iff}
use media_service.Storage.{is_uuid}
use media_service.Controller.Fields.{FieldValue, ParsedField, parse_string_array}
use media_service.Controller.Lists.{join, parse_string_array-join}
use media_service.Tests.Data.{alice, bob, calm, start, png}

abbrev december : YearMonth
december = record { year = 2026; month = 11 }

partitions_tile_example :
    IsFirstOf december (partition_for december).from
    × IsFirstOf (next_month december) (partition_for december).to
    × ((partition_for (next_month december)).from ≡ (partition_for december).to)
    × ((partition_for december).name ≡ (partition_for december).name → december ≡ december)
partitions_tile_example = partitions_tile december december (omega arith) (omega arith)

-- Each query runs on the connection that `f` gives it.
abbrev pool_on : (ℕ → ℕ) → Pool
pool_on f = record { connection = f; throws = λ n. false }

abbrev no_tables : Tables
no_tables = record { partitions = []; holders = [] }

ensure_partition_lem_example :
    let pool = pool_on (λ n. 4) in
    IsSettled pool december 4 no_tables (ensure_partition_for_month pool december no_tables)
ensure_partition_lem_example =
    ensure_partition_lem (pool_on (λ n. 4)) december no_tables 4 (λ n. refl)

lock_outlives_run_example :
    let pool = pool_on (λ n. n) in
    let later = pool_on (λ n. 7) in
    let run = ensure_partition_for_month pool december (record { partitions = []; holders = [] }) in
    (run.0 ≡ ok tt)
    × (run.1.holders ≡ 0 ∷ [])
    × (ensure_partition_for_month later december run.1 ≡ (ok tt, run.1))
lock_outlives_run_example =
    lock_outlives_run (pool_on (λ n. n)) (pool_on (λ n. 7)) december december [] (λ n. (refl, refl))
      (λ e. absurd (omega arith)) (λ e. absurd (omega arith))

emit_iff_example :
    let min = parse_level (some (codes "Warn")) in
    ((l h : LogLevel)
      → level_order l ≤ level_order h
      → is_some (emit (codes "media") min l (codes "m") none none) ≡ true
      → is_some (emit (codes "media") min h (codes "m") none none) ≡ true)
    × ((is_some (emit (codes "media") min LogLevel.fatal (codes "m") none none) ≡ true)
        ↔ (includes inherited_names (to_lower_case (codes "Warn")) ≡ false))
emit_iff_example = emit_iff (codes "media") (codes "m") none none (some (codes "Warn"))

abbrev full_env : ProcessEnv
full_env name = some (codes "x")

run_env_checks_iff_example :
    let run = run_env_checks full_env (record { missing_vars = 0; optional_vars = 0 }) in
    ((run.0 ≡ ok tt) ↔ AllSet full_env required_vars)
    × ((run.0 ≡ ok tt) ⊎ (run.0 ≡ err Error.internal))
    × (run.1.missing_vars ≡ length (unset full_env required_vars))
run_env_checks_iff_example = run_env_checks_iff full_env

readiness_iff_example :
    (((readiness true calm start).0 ≡ ok tt) ↔ (
      (true ≡ true) × (calm.throws 0 ≡ false) × (calm.throws 1 ≡ false) × (calm.throws 2 ≡ false)))
    × (((readiness true calm start).0 ≡ ok tt)
        ⊎ ((readiness true calm start).0 ≡ err Error.service_unavailable))
readiness_iff_example = readiness_iff true calm start

-- A conversion that knows the canonical ids alone.
abbrev canonical : Text → Option Text
canonical s = if is_uuid s then some s else none

instream_roundtrip_example :
    ((length png < 4294967296)
      × ((bytes : List ℕ) × (instream png ≡ (bytes, ok tt)) × (read_instream bytes ≡ some png)))
    ⊎ ((4294967296 ≤ length png)
        × (instream png ≡ (codes "zINSTREAM" ++ 0 ∷ [], err Error.fault))
        × (read_instream (instream png).0 ≡ none))
instream_roundtrip_example = instream_roundtrip png

parse_string_array-join_example :
    parse_string_array (λ s. none) (FieldValue.text (join alice (bob ∷ [])))
    ≡ ParsedField.values (alice ∷ bob ∷ [])
unfolding is_uuid
parse_string_array-join_example =
    parse_string_array-join (λ s. none) alice (bob ∷ []) refl (refl, tt)
