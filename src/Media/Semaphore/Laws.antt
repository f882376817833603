-- ===== src/Media/Semaphore/Laws.antt =====
-- The semaphore bounds the uploads of a user, and gives back what it took.
use media_service.Base.{
  ℕ, suc, ◌≤◌, ◌<◌, ℤ, pos, ◌≡◌, ◌⊎◌, inl, inr, refl, ap, ◌∙◌, Text, text_eq_refl, arith,
  Bool-cases,
}
use media_service.Errors.{Error, Result, ok, err}
use media_service.World.State.{World, Env}
use media_service.World.Monad.{M, ◌>>=◌, finally_do, ended}
use media_service.World.Keeps.{Keeps}
use media_service.World.Returns.{bind_step, bind_err}
use media_service.Media.Semaphore.{
  semaphore_key, count_of, acquire_semaphore, release_semaphore, with_semaphore, bound_slots,
  is_above, incr, decr, expire,
}

-- The count under the key of the user.
abbrev pub slots : Text → World → ℤ
slots u w = count_of w (semaphore_key u)

ended_err :
    {A : Type 0} (x : Result (Unit {0}) × World) (r : Result A)
    → x.0 ≡ err Error.fault
    → (ended x r).0 ≡ err Error.fault
ended_err (ok u, w) r h = cc
ended_err (err e, w) r h = ground arith

ended_ok :
    {A : Type 0} (x : Result (Unit {0}) × World) (r : Result A) → x.0 ≡ ok tt → ended x r ≡ (r, x.1)
ended_ok (ok u, w) r h = refl
ended_ok (err e, w) r h = cc

-- The test on the count, and the roll-back of a rejected request.
above_lem :
    (u : Text) (env : Env) (w : World) (n : ℕ)
    → slots u w ≡ pos (suc n)
    → let m = bound_slots u (pos (suc n)) in
      ((m env w).0 ≡ err Error.fault)
      ⊎ (((m env w).0 ≡ err Error.too_many_requests) × (3 ≤ n) × (slots u (m env w).1 ≡ pos n))
      ⊎ (((m env w).0 ≡ ok tt) × (n < 3) × (slots u (m env w).1 ≡ pos (suc n)))
unfolding bound_slots decr ◌>>=◌
above_lem u env w n h =
    let same = text_eq_refl (semaphore_key u) in
    elim (Bool-cases (is_above (pos (suc n)) 3)) [
      | inl above ↦ elim (Bool-cases (env.throws w.calls)) [
        | inl stopped ↦ inl (rw (above, stopped))
        | inr through ↦ inr (inl (rw (above, through), ground arith, rw (above, through, same, h)))
      ]
      | inr below ↦ inr (inr (rw below, ground arith, rw below h))
    ]

acquire_lem :
    (u : Text) (env : Env) (w : World) (n : ℕ)
    → slots u w ≡ pos n
    → let m = acquire_semaphore u in
      ((m env w).0 ≡ err Error.fault)
      ⊎ (((m env w).0 ≡ err Error.too_many_requests) × (3 ≤ n) × (slots u (m env w).1 ≡ pos n))
      ⊎ (((m env w).0 ≡ ok tt) × (n < 3) × (slots u (m env w).1 ≡ pos (suc n)))
unfolding acquire_semaphore incr expire ◌>>=◌
acquire_lem u env w n h =
    let same = text_eq_refl (semaphore_key u) in
    elim (Bool-cases (env.throws w.calls)) [
      | inl stopped ↦ inl (rw stopped)
      | inr through ↦ elim (Bool-cases (env.throws (suc w.calls))) [
        | inl stopped ↦ inl (rw (through, stopped))
        | inr through' ↦ rw (through, through', h) (above_lem u env _ n (rw (same)))
      ]
    ]

release_lem :
    (u : Text) (env : Env) (w : World) (n : ℕ)
    → slots u w ≡ pos (suc n)
    → ((release_semaphore u env w).0 ≡ err Error.fault)
      ⊎ (((release_semaphore u env w).0 ≡ ok tt) × (slots u (release_semaphore u env w).1 ≡ pos n))
unfolding release_semaphore ◌>>=◌
release_lem u env w (suc n) h =
    let same = text_eq_refl (semaphore_key u) in
    elim (Bool-cases (env.throws w.calls)) [
      | inl stopped ↦ inl (rw stopped)
      | inr through ↦ inr (rw (through, h), rw (through, h, same))
    ]
release_lem u env w _ h =
    let same = text_eq_refl (semaphore_key u) in
    elim (Bool-cases (env.throws w.calls)) [
      | inl stopped ↦ inl (rw stopped)
      | inr through ↦ elim (Bool-cases (env.throws (suc w.calls))) [
        | inl stopped ↦ inl (rw (through, h, stopped))
        | inr through' ↦ inr (rw (through, h, through'), rw (through, h, through', same))
      ]
    ]

module _ {A : Type 0} (u : Text) (op : M A) (keeps : (z : ℤ) → Keeps (λ v. slots u v ≡ z) op) where
  finally_lem :
      (env : Env) (w : World) (n : ℕ)
      → slots u w ≡ pos (suc n)
      → let m = finally_do op (release_semaphore u) in
        ((m env w).0 ≡ err Error.fault)
        ⊎ (((m env w).0 ≡ (op env w).0) × (slots u (m env w).1 ≡ pos n))
  unfolding finally_do
  finally_lem env w n h =
      let (r, v) = op env w in
      elim (release_lem u env v n ((keeps (pos (suc n))).at env w h)) [
        | inl failed ↦ inl (ended_err (release_semaphore u env v) r failed)
        | inr (done, count) ↦ inr (
          ap (λ x. x.0) (ended_ok (release_semaphore u env v) r done),
          ap (λ x. slots u x.1) (ended_ok (release_semaphore u env v) r done) ∙ count,
        )
      ]

  -- Whatever the operation does, and however it ends, the user's count is afterwards what it was
  -- before, unless an external call of the semaphore itself failed; a request that finds three
  -- uploads running is refused with 429, and no other is.
  pub with_semaphore_restores :
      (env : Env) (w : World) (n : ℕ)
      → slots u w ≡ pos n
      → let m = with_semaphore u op in
        ((m env w).0 ≡ err Error.fault)
        ⊎ (((m env w).0 ≡ err Error.too_many_requests) × (3 ≤ n) × (slots u (m env w).1 ≡ pos n))
        ⊎ ((n < 3)
            × (slots u (m env w).1 ≡ pos n)
            × ((m env w).0 ≡ (op env (acquire_semaphore u env w).1).0))
  unfolding with_semaphore
  with_semaphore_restores env w n h = elim (acquire_lem u env w n h) [
    | inl failed ↦ inl (ap (λ x. x.0) (bind_err _ _ env w _ failed))
    | inr (inl (refused, full, count)) ↦
        let e =
          bind_err (acquire_semaphore u) (λ x. finally_do op (release_semaphore u)) env w _
            refused in
        inr (inl (ap (λ x. x.0) e, full, ap (λ x. slots u x.1) e ∙ count))
    | inr (inr (entered, free, count)) ↦
        let e =
          bind_step (acquire_semaphore u) (λ x. finally_do op (release_semaphore u)) env w tt
            entered in
        elim (finally_lem env (acquire_semaphore u env w).1 n count) [
          | inl failed ↦ inl (ap (λ x. x.0) e ∙ failed)
          | inr (same, restored) ↦
              inr (inr (free, ap (λ x. slots u x.1) e ∙ restored, ap (λ x. x.0) e ∙ same))
        ]
  ]
