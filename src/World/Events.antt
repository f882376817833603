-- ===== src/World/Events.antt =====
-- `redisClient.publish`: events reach their channel in order.
use media_service.Base.{[], ◌∷◌, ◌++◌}
use media_service.World.Records.{Event}
use media_service.World.Monad.{M, external}

unfoldable pub publish_event : Event → M (Unit {0})
publish_event e = external (λ w. (tt, record w { published = w.published ++ e ∷ [] }))
