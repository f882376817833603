-- ===== src/Health.antt =====
-- The probes of src/modules/health/health.controller.ts, and the guard of the metrics endpoint,
-- src/modules/metrics/metrics.guard.ts. Whether a key is loaded is `isReady` of the key's client.
pub mod Reports
use media_service.Base.{
  Bool, true, false, ◌&&◌, ◌||◌, Option, none, some, [], ◌∷◌, Text, codes, text_eq, get_or_else,
  if◌then◌else◌,
}
use media_service.Errors.{Error, Result, ok, err, throw_if}
use media_service.World.State.{World, Env}
use media_service.World.Monad.{M, pure, throw, lift, external, ◌>>=◌, ◌>>◌, attempt}

-- `SELECT 1`, `cacheManager.set`, `cacheManager.get` and `listBuckets`: all that counts is whether
-- the call is rejected.
unfoldable pub ping : M (Unit {0})
ping = external (λ w. (tt, w))

-- `'healthy'` or `'unhealthy'`, of the four services.
pub record Services : Type 0 where
  pub database : Bool
  pub cache : Bool
  pub minio : Bool
  pub jwks : Bool

-- The report, without what the process says of itself; `ok` stands for the status `'ok'`.
pub record Health : Type 0 where
  pub is_ok : Bool
  pub services : Services

abbrev pub passed : Option (Unit {0}) → Bool
passed none = false
passed (some u) = true

unfoldable pub ping_cache : M (Unit {0})
ping_cache = do ping; ping

-- `check`: each probe in a `try` of its own.
unfoldable pub check : Bool → M Health
check jwks_ready = do
  database ← attempt ping
  cache ← attempt ping_cache
  minio ← attempt ping
  pure (record {
    is_ok = passed database && passed cache && passed minio && jwks_ready;
    services = record {
      database = passed database;
      cache = passed cache;
      minio = passed minio;
      jwks = jwks_ready;
    };
  })

-- `readiness`: the probes in one `try`, whose every failure is 503.
unfoldable pub probes : Bool → M (Unit {0})
probes true = do ping; ping; ping
probes false = do ping; ping; ping; throw Error.internal

abbrev pub ready_or_503 : Option (Unit {0}) → Result (Unit {0})
ready_or_503 none = err Error.service_unavailable
ready_or_503 (some u) = ok tt

unfoldable pub readiness : Bool → M (Unit {0})
readiness jwks_ready = do outcome ← attempt (probes jwks_ready); lift (ready_or_503 outcome)

-- `canActivate` of the guard of the metrics, by the configured key and environment and the header;
-- an empty key counts as none.
unfoldable pub can_read_metrics : Option Text → Option Text → Option Text → Bool
can_read_metrics none node_env provided =
    let env = get_or_else node_env (codes "production") in
    text_eq env (codes "development") || text_eq env (codes "test")
can_read_metrics (some []) node_env provided =
    let env = get_or_else node_env (codes "production") in
    text_eq env (codes "development") || text_eq env (codes "test")
can_read_metrics (some (c ∷ key)) node_env none = false
can_read_metrics (some (c ∷ key)) node_env (some provided) = text_eq provided (c ∷ key)
