-- ===== src/World/Returns.antt =====
-- What a run that returned, or that threw, went through.
use media_service.Base.{◌≡◌, refl, ap, sym, ◌∙◌, suc, arith}
use media_service.Errors.{Error, Result, ok, err}
use media_service.World.State.{World, Env}
use media_service.World.Monad.{
  M, external, ◌>>=◌, call_only, transaction_body, transaction, continue, committed, settled,
}

module _ {A B : Type 0} where
  continue_ok :
      (r : Result A) (f : A → M B) (env : Env) (w : World) {b : B}
      → (continue r f env w).0 ≡ ok b
      → (a : A) × (r ≡ ok a) × (continue r f env w ≡ f a env w)
  continue_ok (ok a) f env w h = (a, refl, refl)
  continue_ok (err e) f env w h = cc

  -- A bind that returned: its first part returned, and the rest ran from there.
  pub bind_ok :
      (m : M A) (f : A → M B) (env : Env) (w : World) {b : B}
      → ((m >>= f) env w).0 ≡ ok b
      → (a : A) × ((m env w).0 ≡ ok a) × ((m >>= f) env w ≡ f a env (m env w).1)
  unfolding ◌>>=◌
  bind_ok m f env w h = let (r, w') = m env w in continue_ok r f env w' h

  -- The same, as the two runs that it is made of.
  pub bind_returns :
      (m : M A) (f : A → M B) (env : Env) (w : World) {b : B}
      → ((m >>= f) env w).0 ≡ ok b
      → (a : A) × ((m env w).0 ≡ ok a) × ((f a env (m env w).1).0 ≡ ok b)
  bind_returns m f env w h =
      let (a, returned, e) = bind_ok m f env w h in (a, returned, ap (λ x. x.0) (sym e) ∙ h)

  continue-eq :
      (r : Result A) (f : A → M B) (env : Env) (w : World) (a : A)
      → r ≡ ok a
      → continue r f env w ≡ f a env w
  continue-eq r f env w a e = rw e

  -- A bind whose first part returns.
  pub bind_step :
      (m : M A) (f : A → M B) (env : Env) (w : World) (a : A)
      → (m env w).0 ≡ ok a
      → (m >>= f) env w ≡ f a env (m env w).1
  unfolding ◌>>=◌
  bind_step m f env w a e = continue-eq (m env w).0 f env (m env w).1 a e

  pub bind_err :
      (m : M A) (f : A → M B) (env : Env) (w : World) (x : Error)
      → (m env w).0 ≡ err x
      → (m >>= f) env w ≡ (err x, (m env w).1)
  unfolding ◌>>=◌
  bind_err m f env w x e = rw e

-- The world after a call that wrote nothing.
abbrev pub begun : World → World
begun w = record w { calls = suc w.calls }

module _ {A : Type 0} where
  pub external_ok :
      (f : World → A × World) (env : Env) (w : World) (a : A)
      → (external f env w).0 ≡ ok a
      → external f env w ≡ (ok (f (begun w)).0, (f (begun w)).1)
  unfolding external
  external_ok f env w a h = ground arith

  pub external_err :
      (f : World → A × World) (env : Env) (w : World) (x : Error)
      → (external f env w).0 ≡ err x
      → external f env w ≡ (err Error.fault, begun w)
  unfolding external
  external_err f env w x h = ground arith

  settled_ok :
      (w0 : World) (a b : A) (r : Result (Unit {0})) (w : World)
      → (settled w0 a (r, w)).0 ≡ ok b
      → (a ≡ b) × (r ≡ ok tt) × ((settled w0 a (r, w)).1 ≡ w)
  settled_ok w0 a b (ok u) w h = (ground arith, refl, refl)
  settled_ok w0 a b (err e) w h = cc

pub call_only_ok :
    (env : Env) (w : World) → (call_only env w).0 ≡ ok tt → (call_only env w).1 ≡ begun w
call_only_ok env w h = ap (λ x. x.1) (external_ok (λ v. (tt, v)) env w tt h)

call_only_tables :
    (env : Env) (w : World)
    → let v = (call_only env w).1 in (v.media ≡ w.media) × (v.quotas ≡ w.quotas)
unfolding external
call_only_tables env w = ground arith

module _ {A : Type 0} where
  committed_ok :
      (w0 : World) (r : Result A) (env : Env) (w : World) (a : A)
      → (committed w0 r env w).0 ≡ ok a
      → (r ≡ ok a) × ((committed w0 r env w).1 ≡ begun w)
  committed_ok w0 (ok a') env w a h =
      let (r, v) = call_only env w in
      let (same, returned, kept) = settled_ok w0 a' a r v h in
      (ap ok same, kept ∙ call_only_ok env w returned)
  committed_ok w0 (err e) env w a h = cc

  -- A transaction that returned: its body returned, and its writes stand.
  pub transaction_ok :
      (m : M A) (env : Env) (w : World) (a : A)
      → (transaction m env w).0 ≡ ok a
      → ((m env (begun w)).0 ≡ ok a) × ((transaction m env w).1 ≡ begun (m env (begun w)).1)
  unfolding transaction
  transaction_ok m env w a h =
      let (r, v) = call_only env w in
      let (u, returned, same) = continue_ok r (λ u. transaction_body w m) env v h in
      from_body u returned (same ∙ ap (transaction_body w m env) (call_only_ok env w returned))
    where
      from_body :
          (u : Unit {0})
          → (call_only env w).0 ≡ ok u
          → transaction m env w ≡ transaction_body w m env (begun w)
          → ((m env (begun w)).0 ≡ ok a) × ((transaction m env w).1 ≡ begun (m env (begun w)).1)
      from_body u returned same =
          let (r, v) = m env (begun w) in
          let (done, kept) = committed_ok w r env v a (ap (λ x. x.0) (sym same) ∙ h) in
          (done, ap (λ x. x.1) same ∙ kept)

  -- A transaction that threw leaves the tables as they were.
  rolled_settled :
      (w0 : World) (a : A) (r : Result (Unit {0})) (w : World) {x : Error}
      → (settled w0 a (r, w)).0 ≡ err x
      → let v = (settled w0 a (r, w)).1 in (v.media ≡ w0.media) × (v.quotas ≡ w0.quotas)
  rolled_settled w0 a (ok u) w h = cc
  rolled_settled w0 a (err e) w h = (refl, refl)

  rolled_committed :
      (w0 : World) (r : Result A) (env : Env) (w : World) {x : Error}
      → (committed w0 r env w).0 ≡ err x
      → let v = (committed w0 r env w).1 in (v.media ≡ w0.media) × (v.quotas ≡ w0.quotas)
  rolled_committed w0 (ok a) env w h = let (r, v) = call_only env w in rolled_settled w0 a r v h
  rolled_committed w0 (err e) env w h = (refl, refl)

  rolled_began :
      (w0 : World) (r : Result (Unit {0})) (m : M A) (env : Env) (w : World) {x : Error}
      → (w.media ≡ w0.media) × (w.quotas ≡ w0.quotas)
      → (continue r (λ u. transaction_body w0 m) env w).0 ≡ err x
      → let v = (continue r (λ u. transaction_body w0 m) env w).1 in
        (v.media ≡ w0.media) × (v.quotas ≡ w0.quotas)
  unfolding transaction_body
  rolled_began w0 (ok u) m env w same h = let (r, v) = m env w in rolled_committed w0 r env v h
  rolled_began w0 (err e) m env w same h = same

  pub transaction_err :
      (m : M A) (env : Env) (w : World) {x : Error}
      → (transaction m env w).0 ≡ err x
      → let v = (transaction m env w).1 in (v.media ≡ w.media) × (v.quotas ≡ w.quotas)
  unfolding transaction
  transaction_err m env w h =
      let (r, v) = call_only env w in rolled_began w r m env v (call_only_tables env w) h
