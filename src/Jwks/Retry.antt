-- ===== src/Jwks/Retry.antt =====
-- The retries end, and the key comes when the endpoint has recovered.
use media_service.Base.{
  ℕ, zero, suc, ◌+◌, ◌*◌, min, ◌≤◌, ◌<◌, ◌≡◌, ◌⊎◌, inl, inr, refl, false, List, [], ◌∷◌, leb, arith,
  Bool-cases,
}
use media_service.Jwks.{
  Schedule, Loaded, LoadError, Outcome, retry_from, background_from, go_on,
  load_public_key_with_retry, backoff_cap_ms, backoff_initial_ms, backoff_max_attempts,
}

module _ {Key : Type 0} where
  Loaded-cases :
      (l : Loaded Key)
      → ((k : Key) × (l ≡ Loaded.loaded k)) ⊎ ((e : LoadError) × (l ≡ Loaded.failed e))
  Loaded-cases (Loaded.loaded k) = inl (k, refl)
  Loaded-cases (Loaded.failed e) = inr (e, refl)

-- The schedule lets a key through from time `T` on, and the module is not destroyed.
pub record Recovers {Key : Type 0} (s : Schedule Key) (T : ℕ) : Type 0 where
  pub serves : (t : ℕ) → T ≤ t → (k : Key) × (s.load t ≡ Loaded.loaded k)
  pub alive : (t : ℕ) → s.destroyed t ≡ false

module _ {Key : Type 0} where
  -- The key is there at a time that is not after `bound`.
  abbrev pub IsReadyBy : ℕ → Outcome Key → Type 0
  IsReadyBy bound o = (k : Key) × (u : ℕ) × (o ≡ Outcome.ready k u) × (u ≤ bound)

  failed_early :
      {s : Schedule Key} {T : ℕ} (t : ℕ) {e : LoadError}
      → Recovers s T
      → s.load t ≡ Loaded.failed e
      → t < T
  failed_early {s} {T} t r h = elim (Bool-cases (leb T t)) [
    | inl late ↦ absurd (clash ((r.serves t (ground arith)).1) h)
    | inr early ↦ ground arith
  ]
    where
      clash :
          {k : Key} {e : LoadError} {l : Loaded Key} → l ≡ Loaded.loaded k → l ≡ Loaded.failed e → ⊥
      clash p q = cc

  -- The loop ends ready in time, or out of attempts before the recovery.
  retry_reaches_key :
      (s : Schedule Key) (T left delay now : ℕ)
      → Recovers s T
      → delay ≤ 30000
      → now ≤ T + 30000
      → let o = (retry_from s (suc left) delay now).outcome in
        IsReadyBy (T + 30000) o ⊎ ((t : ℕ) × (o ≡ Outcome.exhausted t) × (t < T))
  unfolding retry_from
  retry_reaches_key s T zero delay now r d b = elim (Loaded-cases (s.load now)) [
    | inl (k, e) ↦ inl (rw (r.alive now, e) (k, now, refl, b))
    | inr (x, e) ↦ inr (rw (r.alive now, e) (now, refl, failed_early now r e))
  ]
  retry_reaches_key s T (suc left) delay now r d b = elim (Loaded-cases (s.load now)) [
    | inl (k, e) ↦ inl (rw (r.alive now, e) (k, now, refl, b))
    | inr (x, e) ↦
        let early = failed_early now r e in
        rw (r.alive now, e)
          (retry_reaches_key s T left (min (delay * 2) backoff_cap_ms) (now + delay) r (omega arith)
            (omega arith))
  ]

  background_reaches_key :
      (s : Schedule Key) (T rounds now : ℕ)
      → Recovers s T
      → now < T
      → T ≤ now + rounds * 30000
      → IsReadyBy (T + 30000) (background_from s rounds now)
  unfolding background_from
  background_reaches_key s T zero now r early enough = absurd (omega arith)
  background_reaches_key s T (suc rounds) now r early enough =
      elim (Loaded-cases (s.load (now + backoff_cap_ms))) [
        | inl (k, e) ↦
            rw (r.alive now, r.alive (now + backoff_cap_ms), e) (k, now + 30000, refl, omega arith)
        | inr (x, e) ↦
            let early' = failed_early (now + backoff_cap_ms) r e in
            rw (r.alive now, r.alive (now + backoff_cap_ms), e)
              (background_reaches_key s T rounds (now + backoff_cap_ms) r early' (omega arith))
      ]

  -- If the endpoint serves a key from some time on and the module is not destroyed, the service has
  -- a key after at most thirty more seconds of sleep, however long the endpoint failed before: as
  -- many background rounds are enough as there are thirty seconds until that time.
  pub recovery_makes_ready :
      (s : Schedule Key) (T rounds : ℕ)
      → Recovers s T
      → T ≤ rounds * 30000
      → IsReadyBy (T + 30000) (load_public_key_with_retry s rounds)
  unfolding load_public_key_with_retry
  recovery_makes_ready s T rounds r enough =
      by_phase (retry_from s 10 1000 0).outcome
        (retry_reaches_key s T 9 1000 0 r (omega arith) (omega arith))
    where
      by_phase :
          (o : Outcome Key)
          → IsReadyBy (T + 30000) o ⊎ ((t : ℕ) × (o ≡ Outcome.exhausted t) × (t < T))
          → IsReadyBy (T + 30000) (go_on s rounds o)
      by_phase o (inl (k, u, e, b)) = rw e (k, u, refl, b)
      by_phase o (inr (t, e, early)) =
          rw e (background_reaches_key s T rounds t r early (omega arith))

abbrev pub sum : List ℕ → ℕ
sum [] = 0
sum (n ∷ ns) = n + sum ns

-- The longest that the first phase can sleep.
abbrev longest : ℕ → ℕ → ℕ
longest zero delay = 0
longest (suc zero) delay = 0
longest (suc (suc left)) delay = delay + longest (suc left) (min (delay * 2) backoff_cap_ms)

-- A loop that is over: not waiting.
abbrev pub IsOver : {Key : Type 0} → Outcome Key → Type 0
IsOver (Outcome.ready key at) = Unit
IsOver Outcome.stopped = Unit
IsOver (Outcome.exhausted now) = Unit
IsOver (Outcome.waiting now) = ⊥

module _ {Key : Type 0} where
  retry_ends :
      (s : Schedule Key) (left delay now : ℕ)
      → let r = retry_from s left delay now in
        IsOver r.outcome × (r.attempts ≤ left) × (sum r.sleeps ≤ longest left delay)
  unfolding retry_from
  retry_ends s zero delay now = (tt, omega arith, omega arith)
  retry_ends s (suc zero) delay now = elim (Bool-cases (s.destroyed now)) [
    | inl gone ↦ rw gone (tt, omega arith, omega arith)
    | inr alive ↦ elim (Loaded-cases (s.load now)) [
      | inl (k, e) ↦ rw (alive, e) (tt, omega arith, omega arith)
      | inr (x, e) ↦ rw (alive, e) (tt, omega arith, omega arith)
    ]
  ]
  retry_ends s (suc (suc left)) delay now =
      let (over, few, short) =
        retry_ends s (suc left) (min (delay * 2) backoff_cap_ms) (now + delay) in
      elim (Bool-cases (s.destroyed now)) [
        | inl gone ↦ rw gone (tt, omega arith, omega arith)
        | inr alive ↦ elim (Loaded-cases (s.load now)) [
          | inl (k, e) ↦ rw (alive, e) (tt, omega arith, omega arith)
          | inr (x, e) ↦ rw (alive, e) (over, omega arith, omega arith)
        ]
      ]

  -- Whatever the endpoint answers and whenever the module is destroyed, the first phase is over
  -- after ten attempts and 151 seconds of sleep at most: with a key, stopped, or out of attempts.
  pub first_phase_ends :
      (s : Schedule Key)
      → let r = retry_from s backoff_max_attempts backoff_initial_ms 0 in
        IsOver r.outcome × (r.attempts ≤ 10) × (sum r.sleeps ≤ 151000)
  first_phase_ends s = retry_ends s 10 1000 0
