-- ===== src/World/Monad.antt =====
-- An async method: it reads the environment and returns its result or error with the world that
-- it leaves. What was written before an error stays written, but in a transaction.
use media_service.Base.{suc, Option, none, some, if◌then◌else◌}
use media_service.Errors.{Error, Result, ok, err}
use media_service.World.State.{World, Env}

abbrev pub M : Type 0 → Type 0
M A = Env → World → Result A × World

module _ {A : Type 0} where
  unfoldable pub pure : A → M A
  pure a env w = (ok a, w)

  unfoldable pub throw : Error → M A
  throw e env w = (err e, w)

  -- A synchronous computation that may throw.
  unfoldable pub lift : Result A → M A
  lift r env w = (r, w)

  unfoldable pub ask : (Env → A) → M A
  ask f env w = (ok (f env), w)

  unfoldable pub gets : (World → A) → M A
  gets f env w = (ok (f w), w)

  -- One external call: it is counted, and where the schedule says so it is rejected unperformed.
  unfoldable pub external : (World → A × World) → M A
  external f env w =
      let w' : World = record w { calls = suc w.calls } in
      if env.throws w.calls then (err Error.fault, w') else (let (a, w'') = f w' in (ok a, w''))

unfoldable pub modify : (World → World) → M (Unit {0})
modify f env w = (ok tt, f w)

module _ {A B : Type 0} where
  abbrev pub continue : Result A → (A → M B) → M B
  continue (ok a) f env w = f a env w
  continue (err e) f env w = (err e, w)

  infixl 5 ◌>>=◌ ◌>>◌
  -- Opening this opens the actions above too.
  unfoldable pub ◌>>=◌ : M A → (A → M B) → M B
  unfolding pure throw lift ask gets external modify
  ◌>>=◌ m f env w = let (r, w') = m env w in continue r f env w'

  abbrev pub ◌>>◌ : M A → M B → M B
  m >> n = m >>= λ _. n

module _ {A : Type 0} where
  abbrev pub ended : Result (Unit {0}) × World → Result A → Result A × World
  ended (ok u, w) r = (r, w)
  ended (err e, w) r = (err e, w)

  -- `try { m } finally { k }`: an error of `k` replaces the result of `m`.
  unfoldable pub finally_do : M A → M (Unit {0}) → M A
  finally_do m k env w = let (r, w') = m env w in ended (k env w') r

  abbrev pub caught : Result A → Option A
  caught (ok a) = some a
  caught (err e) = none

  -- `try { m } catch { … }` with nothing but a log line in the handler.
  unfoldable pub attempt : M A → M (Option A)
  attempt m env w = let (r, w') = m env w in (ok (caught r), w')

  -- `promise.catch(log)`: the outcome is dropped.
  unfoldable pub fire_and_forget : M A → M (Unit {0})
  fire_and_forget m env w = let (r, w') = m env w in (ok tt, w')

  -- `try { m } catch (e) { handler; throw e }`
  abbrev pub handled : Result A → M (Unit {0}) → M A
  handled (ok a) h env w = (ok a, w)
  handled (err e) h env w = ended (h env w) (err e)

  unfoldable pub on_error : M A → M (Unit {0}) → M A
  on_error m h env w = let (r, w') = m env w in handled r h env w'

-- The tables as they were when the transaction began.
abbrev pub rollback : World → World → World
rollback w0 w = record w { media = w0.media; quotas = w0.quotas }

abbrev pub call_only : M (Unit {0})
call_only = external (λ w. (tt, w))

module _ {A : Type 0} where
  abbrev pub settled : World → A → Result (Unit {0}) × World → Result A × World
  settled w0 a (ok u, w) = (ok a, w)
  settled w0 a (err e, w) = (err e, rollback w0 w)

  abbrev pub committed : World → Result A → M A
  committed w0 (ok a) env w = settled w0 a (call_only env w)
  committed w0 (err e) env w = (err e, rollback w0 w)

  -- The body and COMMIT, behind BEGIN.
  unfoldable pub transaction_body : World → M A → M A
  unfolding external
  transaction_body w0 m env w = let (r, w') = m env w in committed w0 r env w'

  -- `dataSource.transaction(m)`: an error anywhere leaves the tables as they were, and reaches
  -- the caller.
  unfoldable pub transaction : M A → M A
  unfolding transaction_body external
  transaction m env w =
      let (r, w') = call_only env w in continue r (λ u. transaction_body w m) env w'
