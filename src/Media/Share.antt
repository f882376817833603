-- ===== src/Media/Share.antt =====
-- `share` of src/modules/media/media.service.ts: the owner widens the access list of a media.
pub mod Laws
pub mod Changes
use media_service.Base.{
  Bool, true, false, not, Option, none, List, Text, text_eq, length, ◌==◌, if◌then◌else◌,
}
use media_service.Errors.{Error, throw_if}
use media_service.World.Records.{Media}
use media_service.World.Monad.{M, pure, lift, external, ◌>>=◌, ◌>>◌, transaction}
use media_service.Media.Acl.{users_of, set_of, merge_acl, or_null}
use media_service.Media.Repository.{find_by_id, update_shared_with}
use media_service.Media.Upload.{meta_key, set_meta}
use media_service.Media.Read.{found}

-- `if (media.ownerId !== requesterId) throw new ForbiddenException(…)`
unfoldable pub owned : Text → Media → M Media
owned requester m = do lift (throw_if (not (text_eq m.owner_id requester)) Error.forbidden); pure m

-- The row of the caller's own media, within a transaction.
unfoldable pub find_owned : Text → Text → M Media
find_owned id requester = do row ← find_by_id id; media ← found row; owned requester media

-- The new list, and whether it is written.
unfoldable pub extend_acl : Text → List Text → Media → M (List Text × Bool)
extend_acl id users media =
    let next = merge_acl media.owner_id media.shared_with users in
    if length next == length (set_of (users_of media.shared_with))
    then pure (next, false)
    else (do update_shared_with id (or_null next); pure (next, true))

-- The body of the transaction.
unfoldable pub share_body : Text → Text → List Text → M (List Text × Bool)
share_body id requester users = do media ← find_owned id requester; extend_acl id users media

-- The cached metadata still hold the old list.
unfoldable pub forget_meta : Text → Bool → M (Unit {0})
forget_meta id changed =
    if changed then external (λ w. (tt, set_meta (meta_key id) none w)) else pure tt

-- `share`
unfoldable pub share : Text → Text → List Text → M (List Text)
share id requester users = do
  (shared_with, changed) ← transaction (share_body id requester users)
  forget_meta id changed
  pure shared_with
