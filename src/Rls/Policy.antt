-- ===== src/Rls/Policy.antt =====
-- The policy in a transaction of a request, and what the service lets the request read.
use media_service.Base.{◌≡◌, ◌↔◌, ◌⊎◌, true, false, Option, none, some, List, Text}
use media_service.Errors.{Error, ok, err}
use media_service.World.Records.{MediaContext}
use media_service.Media.Access.{select_policy, enforce_read_access}

-- What the policy answers for a row in a transaction whose setting is the id `r`: by the id that
-- PostgreSQL makes of `r`, or, where that is no UUID, an error for every row that is not public.
abbrev pub IsGoverned :
    (Text → Option Text) → Text → MediaContext → Text → Option (List Text) → Type 0
IsGoverned cast r c owner s =
    ((u : Text) × (cast r ≡ some u)
      × ((select_policy cast (some r) c owner s ≡ ok true)
          ↔ (enforce_read_access c owner s u ≡ ok tt))
      × ((select_policy cast (some r) c owner s ≡ ok false)
          ↔ (enforce_read_access c owner s u ≡ err Error.forbidden)))
    ⊎ ((cast r ≡ none)
        × ((select_policy cast (some r) c owner s ≡ ok true)
            ↔ ((c ≡ MediaContext.avatar) ⊎ (c ≡ MediaContext.group_icon)))
        × ((select_policy cast (some r) c owner s ≡ err Error.fault) ↔ (c ≡ MediaContext.message)))
