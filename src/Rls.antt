-- ===== src/Rls.antt =====
-- The user of a transaction, for the row-level policies: src/modules/media/rls.interceptor.ts,
-- rls-context.service.ts and rls.subscriber.ts.
pub mod Policy
use media_service.Base.{
  Bool, true, false, Option, none, some, List, [], ◌∷◌, Text, codes, text_eq, if◌then◌else◌,
}
use media_service.Errors.{Error, Result, ok, err}

-- The store of AsyncLocalStorage, where a request runs in one.
pub record RlsContext : Type 0 where
  pub user_id : Text

-- `intercept`, and `run`: the context in which the handler of a request runs.
unfoldable pub intercept : Option Text → Option RlsContext
intercept none = none
intercept (some []) = none
intercept (some (c ∷ user)) = some (record { user_id = c ∷ user })

-- `getCurrentUserId`
unfoldable pub get_current_user_id : Option RlsContext → Option Text
get_current_user_id none = none
get_current_user_id (some context) = some context.user_id

-- `afterTransactionStart`: the setting `app.current_user_id` of the transaction, or the failure of
-- the query that sets it, which ends the transaction.
unfoldable pub set_config : Bool → Option Text → Result (Option Text)
set_config throws none = ok none
set_config throws (some []) = ok none
set_config throws (some (c ∷ user)) = if throws then err Error.fault else ok (some (c ∷ user))

unfoldable pub after_transaction_start : Bool → Option RlsContext → Result (Option Text)
unfolding set_config
after_transaction_start throws context = set_config throws (get_current_user_id context)

-- `onModuleInit`: a superuser passes by the policies, so the service does not start.
unfoldable pub on_module_init : Option Text → Result (Unit {0})
on_module_init none = ok tt
on_module_init (some is_superuser) =
    if text_eq is_superuser (codes "on") then err Error.internal else ok tt
