-- ===== src/Media/Delete.antt =====
-- `delete` of src/modules/media/media.service.ts.
pub mod Laws
pub mod Changes
pub mod Released
use media_service.Base.{ℕ, ◌+◌, Option, none, some, Text, [], ◌∷◌, codes, pos}
use media_service.World.Records.{Media, Event}
use media_service.World.State.{World, Env}
use media_service.World.Monad.{M, pure, external, modify, ◌>>=◌, ◌>>◌, fire_and_forget, transaction}
use media_service.World.Events.{publish_event}
use media_service.Storage
use media_service.Quota.Rows.{JsNumber}
use media_service.Quota.Service.{record_delete}
use media_service.Media.Repository.{soft_delete}
use media_service.Media.Upload.{meta_key, set_meta}
use media_service.Media.Read.{write_access_log, path_of}
use media_service.Media.Share.{find_owned}

-- The body of the transaction: the owner's row is marked as deleted.
unfoldable pub deactivate : Text → Text → M Media
deactivate id requester = do media ← find_owned id requester; soft_delete id; pure media

unfoldable pub delete_thumbnail_object : Option Text → M (Unit {0})
delete_thumbnail_object none = pure tt
delete_thumbnail_object (some path) = Storage.delete path

-- The objects, the cached metadata and the quota, in this order; a failure ends the request.
unfoldable pub release : Text → Text → Media → M (Unit {0})
release id requester media = do
  Storage.delete media.storage_path
  delete_thumbnail_object (path_of media.thumbnail_path)
  external (λ w. (tt, set_meta (meta_key id) none w))
  record_delete requester (JsNumber.integral (pos media.blob_size))

-- The log entry and the event, whose failures are logged, and the metric.
unfoldable pub announce_deletion : Text → Media → Option Text → Option Text → M (Unit {0})
announce_deletion requester media ip agent = do
  fire_and_forget (write_access_log media.id (some requester) (codes "delete") ip agent)
  fire_and_forget (publish_event (Event.media_deleted media.id media.owner_id media.context))
  modify (λ w. record w { deletes_total = w.deletes_total + 1 })

-- `delete`
unfoldable pub delete : Text → Text → Option Text → Option Text → M (Unit {0})
delete id requester ip agent = do
  media ← transaction (deactivate id requester)
  release id requester media
  announce_deletion requester media ip agent
