-- ===== src/Health/Reports.antt =====
-- What the probes answer, by the calls that are rejected.
use media_service.Base.{
  ◌||◌, [], ◌∷◌, Text, codes, text_eq, text_eq_sound, get_or_else, or_iff, Option, none, some, suc,
  ◌≡◌, ◌↔◌, ◌⊎◌, inl, inr, refl, ap, Bool, true, false, ◌&&◌, not, arith, Bool-cases,
}
use media_service.Errors.{Error, ok, err}
use media_service.World.State.{World, Env}
use media_service.World.Monad.{pure, throw, lift, external, ◌>>=◌, attempt, caught}
use media_service.Health.{
  Health, ping, ping_cache, passed, can_read_metrics, check, probes, readiness,
}

all_four :
    (a b c d : Bool)
    → ((a && b && c && d) ≡ true) ↔ ((a ≡ true) × (b ≡ true) × (c ≡ true) × (d ≡ true))
all_four a b c d = (
  λ h. (ground arith, ground arith, ground arith, ground arith),
  λ (ha, hb, hc, hd). ground arith,
)

ping-passed : (env : Env) (w : World) → passed (caught (ping env w).0) ≡ not (env.throws w.calls)
unfolding ping external
ping-passed env w = elim (Bool-cases (env.throws w.calls)) [
  | inl fails ↦ rw fails
  | inr runs ↦ rw runs
]

-- The health check always answers. Its status is ok exactly if each of the four services is
-- reported as healthy; the database is so if its query ran, and the keys if one is loaded.
pub check_lem :
    (ready : Bool) (env : Env) (w : World)
    → (h : Health) × ((check ready env w).0 ≡ ok h)
      × ((h.is_ok ≡ true) ↔ (
          (h.services.database ≡ true)
          × (h.services.cache ≡ true)
          × (h.services.minio ≡ true)
          × (h.services.jwks ≡ true)))
      × (h.services.database ≡ not (env.throws w.calls))
      × (h.services.jwks ≡ ready)
unfolding check ping_cache attempt ◌>>=◌ pure
check_lem ready env w =
    let database = passed (caught (ping env w).0) in
    let v = (ping env w).1 in
    let cache = passed (caught (ping_cache env v).0) in
    let minio = passed (caught (ping env (ping_cache env v).1).0) in
    (_, refl, all_four database cache minio ready, ping-passed env w, refl)

-- Readiness is answered with 503 or not at all; it is answered with success exactly if the three
-- calls run and a key is loaded.
pub readiness_iff :
    (ready : Bool) (env : Env) (w : World)
    → (((readiness ready env w).0 ≡ ok tt) ↔ (
        (ready ≡ true)
        × (env.throws w.calls ≡ false)
        × (env.throws (suc w.calls) ≡ false)
        × (env.throws (suc (suc w.calls)) ≡ false)))
      × (((readiness ready env w).0 ≡ ok tt)
          ⊎ ((readiness ready env w).0 ≡ err Error.service_unavailable))
unfolding readiness probes ping attempt ◌>>=◌ external pure throw lift
readiness_iff true env w = (ground arith, ground arith)
readiness_iff false env w = (ground arith, ground arith)

dev_or_test :
    (env : Text)
    → (text_eq env (codes "development") || text_eq env (codes "test")) ≡ true
    → (env ≡ codes "development") ⊎ (env ≡ codes "test")
dev_or_test env h = elim ((or_iff _ _).0 h) [
  | inl d ↦ inl (text_eq_sound env (codes "development") d)
  | inr t ↦ inr (text_eq_sound env (codes "test") t)
]

-- No key is configured, and the environment is one of development or test.
abbrev pub IsOpenMetrics : Option Text → Option Text → Type 0
IsOpenMetrics key node_env =
    ((key ≡ none) ⊎ (key ≡ some []))
    × ((get_or_else node_env (codes "production") ≡ codes "development")
        ⊎ (get_or_else node_env (codes "production") ≡ codes "test"))

-- The metrics are shown only where no key is configured in development or test, or to a request that
-- sends the configured key.
pub can_read_metrics_ok :
    (key node_env provided : Option Text)
    → can_read_metrics key node_env provided ≡ true
    → IsOpenMetrics key node_env ⊎ ((k : Text) × (key ≡ some k) × (provided ≡ some k))
unfolding can_read_metrics
can_read_metrics_ok none node_env provided h =
    inl (inl refl, dev_or_test (get_or_else node_env (codes "production")) h)
can_read_metrics_ok (some []) node_env provided h =
    inl (inr refl, dev_or_test (get_or_else node_env (codes "production")) h)
can_read_metrics_ok (some (c ∷ key)) node_env none h = cc
can_read_metrics_ok (some (c ∷ key)) node_env (some sent) h =
    inr (c ∷ key, refl, ap some (text_eq_sound sent (c ∷ key) h))
