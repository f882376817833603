-- ===== src/Storage.antt =====
-- The S3 store of blobs, after src/modules/media/storage.service.ts: the paths of objects, and the
-- three calls on the bucket.
pub mod Uuid
pub mod Paths
use media_service.Base.{
  ℕ, suc, Bool, true, false, ◌&&◌, ◌||◌, Option, none, some, List, [], ◌∷◌, ◌++◌, Text, codes,
  text_eq, leb, ◌==◌, if◌then◌else◌, replicate,
}
use media_service.Errors.{Error, Result, ok, err}
use media_service.World.State.{World, StoredObject}
use media_service.World.Monad.{M, pure, throw, external, ◌>>=◌}

-- `type StorageContext`
pub data StorageContext : Type 0 where
  messages avatars group_icons thumbnails : StorageContext

-- The classes of the pattern, upper and lower case.
is_hex : ℕ → Bool
is_hex c = (leb b'0' c && leb c b'9') || (leb b'a' c && leb c b'f') || (leb b'A' c && leb c b'F')

is_version : ℕ → Bool
is_version c = leb b'1' c && leb c b'5'

is_variant : ℕ → Bool
is_variant c = c == b'8' || c == b'9' || c == b'a' || c == b'b' || c == b'A' || c == b'B'

is_dash : ℕ → Bool
is_dash c = c == b'-'

-- One class for each position of `UUID_PATTERN`.
uuid_pattern : List (ℕ → Bool)
uuid_pattern =
    replicate 8 is_hex
    ++ (is_dash
        ∷ (replicate 4 is_hex
            ++ (is_dash
                ∷ is_version
                ∷ (replicate 3 is_hex
                    ++ (is_dash
                        ∷ is_variant
                        ∷ (replicate 3 is_hex ++ (is_dash ∷ replicate 12 is_hex)))))))

matches_classes : List (ℕ → Bool) → Text → Bool
matches_classes [] [] = true
matches_classes [] (c ∷ s) = false
matches_classes (p ∷ ps) [] = false
matches_classes (p ∷ ps) (c ∷ s) = p c && matches_classes ps s

-- `UUID_PATTERN.test(s)`
unfoldable pub is_uuid : Text → Bool
unfolding matches_classes uuid_pattern is_hex is_version is_variant is_dash
is_uuid s = matches_classes uuid_pattern s

pub path_for : StorageContext → Text → Text → Text
path_for StorageContext.messages owner object =
    codes "messages/" ++ (owner ++ (codes "/" ++ (object ++ codes ".bin")))
path_for StorageContext.avatars owner object = codes "avatars/" ++ (owner ++ (codes "/" ++ object))
path_for StorageContext.group_icons owner object =
    codes "group_icons/" ++ (owner ++ (codes "/" ++ object))
path_for StorageContext.thumbnails owner object = codes "thumbnails/" ++ (object ++ codes ".bin")

-- `buildPath`: both ids must be UUIDs.
unfoldable pub build_path : StorageContext → Text → Text → Result Text
unfolding path_for
build_path context owner object =
    if is_uuid owner
    then (if is_uuid object then ok (path_for context owner object) else err Error.internal)
    else err Error.internal

abbrev pub put_object : Text → StoredObject → World → World
put_object path o w = record w { objects = λ k. if text_eq k path then some o else w.objects k }

abbrev pub delete_object : Text → World → World
delete_object path w = record w { objects = λ k. if text_eq k path then none else w.objects k }

-- `upload`
unfoldable pub upload : Text → Text → ℕ → M (Unit {0})
unfolding external
upload path content_type content_length = external (λ w. (
  tt,
  put_object path (record { content_type = content_type; content_length = content_length }) w,
))

-- S3 rejects the read of a key that is not there.
unfoldable pub present : Option StoredObject → M StoredObject
present none = throw Error.fault
present (some o) = pure o

-- `download`
unfoldable pub download : Text → M StoredObject
unfolding present
download path = do object ← external (λ w. (w.objects path, w)); present object

-- `delete`: S3 accepts the deletion of a key that is not there.
unfoldable pub delete : Text → M (Unit {0})
unfolding external
delete path = external (λ w. (tt, delete_object path w))
