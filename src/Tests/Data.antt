-- ===== src/Tests/Data.antt =====
-- The inputs of the tests.
use media_service.Base.{ℕ, true, false, none, some, List, [], ◌∷◌, Text, codes}
use media_service.World.Records.{MediaContext, Media, UserQuota, MulterFile}
use media_service.World.State.{World, Env, Metadata, StoredObject}

abbrev pub alice : Text
alice = codes "11111111-1111-4111-8111-111111111111"

abbrev pub bob : Text
bob = codes "22222222-2222-4222-8222-222222222222"

abbrev pub photo_id : Text
photo_id = codes "33333333-3333-4333-8333-333333333333"

-- Nothing fails, no service is configured, and no image is readable.
abbrev pub calm : Env
calm = record {
  throws = λ n. false;
  now = 5000;
  today = 20;
  random_uuid = codes "44444444-4444-4444-8444-444444444444";
  sha256 = λ bytes. codes "00";
  sharp = λ bytes. Metadata.unreadable;
  clamav_host = none;
  clamd = λ bytes. none;
  group_service_url = [];
  group_answer = λ id. none;
  messaging_service_url = [];
  messaging_answer = λ id. none;
  signed_url_expiry_seconds = 900;
  message_blob_ttl_days = 30;
}

abbrev pub quota_of : Text → ℕ → UserQuota
quota_of user used = record {
  id = codes "q";
  user_id = user;
  storage_used = used;
  storage_limit = 1000;
  files_count = 2;
  files_limit = 10;
  daily_uploads = 1;
  daily_upload_limit = 5;
  quota_date = 19;
}

-- A photo of Alice, shown to Bob.
abbrev pub photo : Media
photo = record {
  id = photo_id;
  owner_id = alice;
  context = MediaContext.message;
  storage_path = codes "messages/a/p.bin";
  thumbnail_path = some (codes "thumbnails/p.bin");
  content_type = codes "image/png";
  blob_size = 100;
  expires_at = none;
  signed_url_expires_at = none;
  is_active = true;
  shared_with = some (bob ∷ []);
  created_at = 4000;
}

abbrev pub stored : StoredObject
stored = record { content_type = codes "image/png"; content_length = 100 }

abbrev pub world_with : List Media → List UserQuota → World
world_with media quotas = record {
  media = media;
  quotas = quotas;
  access_logs = [];
  meta_cache = λ k. none;
  quota_cache = λ k. none;
  dedup_cache = λ k. none;
  e2ee_cache = λ k. none;
  revoked = λ k. none;
  counters = λ k. none;
  cooldowns = λ k. false;
  objects = λ k. some stored;
  published = [];
  uploads_total = 0;
  downloads_total = 0;
  deletes_total = 0;
  calls = 0;
}

abbrev pub start : World
start = world_with (photo ∷ []) (quota_of alice 300 ∷ [])

-- Nine bytes of a PNG.
abbrev pub png : List ℕ
png = 0x89 ∷ 0x50 ∷ 0x4e ∷ 0x47 ∷ 0x0d ∷ 0x0a ∷ 0x1a ∷ 0x0a ∷ 0 ∷ []

abbrev pub png_file : MulterFile
png_file = record { buffer = some png; mimetype = codes "image/png"; size = 9 }
