-- ===== src/World/State.antt =====
-- What the service acts on: the tables of PostgreSQL, the caches and counters of Redis, the
-- objects of S3, and the answers of everything else. A call to the outside may fail, at any place:
-- `throws n` says whether the n-th external call of a run is rejected.

use media_service.Base.{ℕ, ℤ, Bool, Option, List, Text}
use media_service.World.Records.{Media, UserQuota, MediaAccessLog, CachedMeta, CachedQuota, Event}

-- An object of the bucket: its content type and its length.
pub record StoredObject : Type 0 where
  pub content_type : Text
  pub content_length : ℕ

pub record World : Type 0 where
  pub media : List Media
  pub quotas : List UserQuota
  pub access_logs : List MediaAccessLog
  pub meta_cache : Text → Option CachedMeta
  pub quota_cache : Text → Option CachedQuota
  pub dedup_cache : Text → Option Text
  pub e2ee_cache : Text → Option Bool
  pub revoked : Text → Option Text
  pub counters : Text → Option ℤ
  pub cooldowns : Text → Bool
  pub objects : Text → Option StoredObject
  pub published : List Event
  pub uploads_total : ℕ
  pub downloads_total : ℕ
  pub deletes_total : ℕ
  pub calls : ℕ

-- A member as group-service lists it, and the two shapes of its answer.
pub record GroupMember : Type 0 where
  pub user_id : Text
  pub role : Text

pub data GroupBody : Type 0 where
  members : List GroupMember → GroupBody
  wrapped : Option (List GroupMember) → GroupBody

-- An HTTP answer; the body is missing where it is not JSON.
pub record HttpResponse (B : Type 0) : Type 0 where
  pub status : ℕ
  pub body : Option B

-- What `sharp(…).metadata()` answers, and clamd.
pub data Metadata : Type 0 where
  unreadable : Metadata
  dimensions : (width height : Option ℕ) → Metadata

-- What one request meets: the fault schedule, one reading of the clock, the generated id, the
-- configuration, and the answers of the libraries and services that the source calls.
pub record Env : Type 0 where
  pub throws : ℕ → Bool
  pub now : ℕ
  pub today : ℕ
  pub random_uuid : Text
  pub sha256 : List ℕ → Text
  pub sharp : List ℕ → Metadata
  pub clamav_host : Option Text
  pub clamd : List ℕ → Option Text
  pub group_service_url : Text
  pub group_answer : Text → Option (HttpResponse GroupBody)
  pub messaging_service_url : Text
  pub messaging_answer : Text → Option (HttpResponse (Option Bool))
  pub signed_url_expiry_seconds : ℕ
  pub message_blob_ttl_days : ℕ
