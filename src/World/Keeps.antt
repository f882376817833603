-- ===== src/World/Keeps.antt =====
-- Rules for what an action keeps, and for what holds when it returns: one for each way to build
-- an action.
use media_service.Base.{Bool, true, false, if◌then◌else◌, suc}
use media_service.Errors.{Error, Result, ok, err}
use media_service.World.State.{World, Env}
use media_service.World.Monad.{
  M, pure, throw, lift, ask, gets, external, modify, ◌>>=◌, finally_do, attempt, fire_and_forget,
  on_error, ended, handled, continue, committed, settled, rollback, call_only, transaction_body,
  transaction,
}

-- `m` keeps `P`, whether it returns or throws, and whichever calls fail.
pub record Keeps {A : Type 0} (P : World → Type 0) (m : M A) : Type 0 where
  pub at : (env : Env) (w : World) → P w → P (m env w).1

-- `P` does not read the tables, or a rollback keeps it.
pub record IsStable (P : World → Type 0) : Type 0 where
  pub counted : (w : World) → P w → P (record w { calls = suc w.calls })
  pub rolled : (w0 w : World) → P w0 → P w → P (rollback w0 w)

by_test :
    {A : Type 0} (P : World → Type 0) (b : Bool) (x y : Result A × World)
    → P x.1
    → P y.1
    → P (if b then x else y).1
by_test P true x y px py = px
by_test P false x y px py = py

module _ {A : Type 0} {P : World → Type 0} where
  pub Keeps-pure : (a : A) → Keeps P (pure a)
  unfolding pure
  Keeps-pure a = record { at = λ env w h. h }

  pub Keeps-throw : (e : Error) → Keeps P (throw {A = A} e)
  unfolding throw
  Keeps-throw e = record { at = λ env w h. h }

  pub Keeps-lift : (r : Result A) → Keeps P (lift r)
  unfolding lift
  Keeps-lift r = record { at = λ env w h. h }

  pub Keeps-ask : (f : Env → A) → Keeps P (ask f)
  unfolding ask
  Keeps-ask f = record { at = λ env w h. h }

  pub Keeps-gets : (f : World → A) → Keeps P (gets f)
  unfolding gets
  Keeps-gets f = record { at = λ env w h. h }

  pub Keeps-external :
      (f : World → A × World) → IsStable P → ((w : World) → P w → P (f w).1) → Keeps P (external f)
  unfolding external
  Keeps-external f s kf = record {
    at = λ env w h.
        let counted = record w { calls = suc w.calls } in
        let found = f counted in
        by_test P (env.throws w.calls) (err Error.fault, counted) (ok found.0, found.1)
          (s.counted w h) (kf counted (s.counted w h));
  }

  pub Keeps-if : (b : Bool) (m n : M A) → Keeps P m → Keeps P n → Keeps P (if b then m else n)
  Keeps-if true m n km kn = km
  Keeps-if false m n km kn = kn

pub Keeps-modify :
    {P : World → Type 0} (f : World → World) → ((w : World) → P w → P (f w)) → Keeps P (modify f)
unfolding modify
Keeps-modify f kf = record { at = λ env w h. kf w h }

call_only_keeps :
    {P : World → Type 0} (env : Env) (w : World) → IsStable P → P w → P (call_only env w).1
call_only_keeps env w s h = (Keeps-external (λ v. (tt, v)) s (λ v p. p)).at env w h

module _ {A B : Type 0} {P : World → Type 0} where
  Keeps-continue :
      (r : Result A) (f : A → M B) (env : Env) (w : World)
      → ((a : A) → Keeps P (f a))
      → P w
      → P ((lift r >>= f) env w).1
  unfolding ◌>>=◌
  Keeps-continue (ok a) f env w kf h = (kf a).at env w h
  Keeps-continue (err e) f env w kf h = h

  pub Keeps-bind :
      (m : M A) (f : A → M B) → Keeps P m → ((a : A) → Keeps P (f a)) → Keeps P (m >>= f)
  unfolding ◌>>=◌
  Keeps-bind m f km kf = record {
    at = λ env w h. let (r, w') = m env w in Keeps-continue r f env w' kf (km.at env w h);
  }

module _ {A : Type 0} {P : World → Type 0} where
  ended_keeps :
      (r : Result A) (k : M (Unit {0})) (env : Env) (w : World)
      → Keeps P k
      → P w
      → P (finally_do (lift r) k env w).1
  unfolding finally_do lift
  ended_keeps r k env w kk h = by_result (k env w) (kk.at env w h)
    where
      by_result : (x : Result (Unit {0}) × World) → P x.1 → P (ended x r).1
      by_result (ok u, v) p = p
      by_result (err e, v) p = p

  pub Keeps-finally_do :
      (m : M A) (k : M (Unit {0})) → Keeps P m → Keeps P k → Keeps P (finally_do m k)
  unfolding finally_do lift
  Keeps-finally_do m k km kk = record {
    at = λ env w h. let (r, w') = m env w in ended_keeps r k env w' kk (km.at env w h);
  }

  pub Keeps-attempt : (m : M A) → Keeps P m → Keeps P (attempt m)
  unfolding attempt
  Keeps-attempt m km = record { at = λ env w h. km.at env w h }

  pub Keeps-fire_and_forget : (m : M A) → Keeps P m → Keeps P (fire_and_forget m)
  unfolding fire_and_forget
  Keeps-fire_and_forget m km = record { at = λ env w h. km.at env w h }

  pub Keeps-on_error : (m : M A) (k : M (Unit {0})) → Keeps P m → Keeps P k → Keeps P (on_error m k)
  unfolding on_error finally_do lift
  Keeps-on_error m k km kk = record {
    at = λ env w h. let (r, w') = m env w in by_result env r w' (km.at env w h);
  }
    where
      by_result : (env : Env) (r : Result A) (v : World) → P v → P (handled r k env v).1
      by_result env (ok a) v p = p
      by_result env (err e) v p = ended_keeps (err e) k env v kk p

  settled_keeps :
      (w0 : World) (a : A) (r : Result (Unit {0})) (w : World)
      → IsStable P
      → P w0
      → P w
      → P (settled w0 a (r, w)).1
  settled_keeps w0 a (ok u) w s h0 h = h
  settled_keeps w0 a (err e) w s h0 h = s.rolled w0 w h0 h

  committed_keeps :
      (w0 : World) (r : Result A) (env : Env) (w : World)
      → IsStable P
      → P w0
      → P w
      → P (committed w0 r env w).1
  committed_keeps w0 (ok a) env w s h0 h =
      let (r, v) = call_only env w in settled_keeps w0 a r v s h0 (call_only_keeps env w s h)
  committed_keeps w0 (err e) env w s h0 h = s.rolled w0 w h0 h

  began_keeps :
      (w0 : World) (r : Result (Unit {0})) (m : M A) (env : Env) (w : World)
      → IsStable P
      → Keeps P m
      → P w0
      → P w
      → P (continue r (λ u. transaction_body w0 m) env w).1
  unfolding transaction_body
  began_keeps w0 (ok u) m env w s km h0 h =
      let (r, v) = m env w in committed_keeps w0 r env v s h0 (km.at env w h)
  began_keeps w0 (err e) m env w s km h0 h = h

  pub Keeps-transaction : (m : M A) → IsStable P → Keeps P m → Keeps P (transaction m)
  unfolding transaction
  Keeps-transaction m s km = record {
    at = λ env w h.
        let (r, v) = call_only env w in began_keeps w r m env v s km h (call_only_keeps env w s h);
  }

pub ruleset keeps_rules = (
  Keeps-pure, Keeps-throw, Keeps-lift, Keeps-ask, Keeps-gets, Keeps-external, Keeps-if,
  Keeps-modify, Keeps-bind, Keeps-finally_do, Keeps-attempt, Keeps-fire_and_forget, Keeps-on_error,
  Keeps-transaction,
)
