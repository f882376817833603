-- ===== src/Tests/Keys.antt =====
-- A key that is loaded, late, and a token that it verifies.
use media_service.Base.{
  ℕ, ◌≤◌, ◌≡◌, refl, false, Option, none, some, [], ◌∷◌, Text, codes, leb, if◌then◌else◌,
  starts_with, text_eq, includes, trim, split_head, arith,
}
use media_service.World.State.{HttpResponse}
use media_service.World.Monad.{
  ◌>>=◌, pure, throw, lift, ask, external, modify, fire_and_forget, transaction, transaction_body,
}
use media_service.Jwks.{
  JwkKey, JwksDocument, Loaded, LoadError, Schedule, load_public_key, load_public_key_with_retry,
  retry_from, backoff_max_attempts, backoff_initial_ms, read_response, read_document, import_key,
}
use media_service.Jwks.Keys.{IsServed, load_public_key_ok}
use media_service.Jwks.Retry.{
  IsReadyBy, recovery_makes_ready, IsOver, sum, first_phase_ends, Recovers,
}
use media_service.Auth.{
  JwtPayload, AuthUser, Verifier, authenticate, can_activate, check_revoked, look_up,
  extract_bearer_token, required_text, verified, token_key, device_key,
}
use media_service.Auth.Laws.{IsAuthenticated, authenticate_ok}
use media_service.World.Monad.{attempt}
use media_service.World.Events.{publish_event}
use media_service.Storage
use media_service.Quota.Rows.{validate_blob_size, affected, update_quota}
use media_service.Quota.Service.{record_delete, invalidate_cache, cache_key}
use media_service.Media.Repository.{soft_delete}
use media_service.Media.Upload.{meta_key}
use media_service.Media.Share.{owned, find_owned}
use media_service.Media.Delete.{
  delete, deactivate, delete_thumbnail_object, release, announce_deletion,
}
use media_service.Media.Delete.Released.{IsReleased}
use media_service.Controller.Writes.{guarded_delete_ok}
use media_service.Controller.{
  delete_handler, blob_handler, required, wants_stream, extract_client_ip,
}
use media_service.Controller.Guarded.{guarded, guarded_blob_ok}
use media_service.Media.Access.{enforce_read_access}
use media_service.Media.Repository.{find_live, find_by_id, update_media, update_signed_url_expiry}
use media_service.Media.SignedUrl.{generate_presigned_url, valid_expiry, get_or_generate_signed_url}
use media_service.Media.Read.{get_blob, found, readable, sign_readable, write_access_log}
use media_service.Media.Read.Laws.{IsAuthorised}
use media_service.Tests.Data.{alice, bob, photo_id, calm, start}
use media_service.Tests.Handlers.{request}

abbrev jwk : JwkKey
jwk = record {
  kty = codes "EC";
  use_for = some (codes "sig");
  alg = none;
  crv = some (codes "P-256");
  x = some (codes "x");
  y = some (codes "y");
}

abbrev imported : JwkKey → Option ℕ
imported k = some 7

abbrev served : HttpResponse JwksDocument
served = record { status = 200; body = some (record { keys = some (jwk ∷ []) }) }

load_public_key_ok_example :
    (u : Text) × (some (codes "http://auth") ≡ some u) × IsServed imported (some served) 7
unfolding load_public_key read_response read_document import_key text_eq
load_public_key_ok_example =
    load_public_key_ok imported (some (codes "http://auth")) (λ u. some served) 7 refl

-- The endpoint fails for two minutes.
abbrev late : Schedule ℕ
late = record {
  load = λ t. if leb 120000 t then Loaded.loaded 7 else Loaded.failed LoadError.fetch_failed;
  destroyed = λ t. false;
}

late-Recovers : Recovers late 120000
late-Recovers = record { serves = λ t b. (7, ground arith); alive = λ t. refl }

recovery_makes_ready_example : IsReadyBy 150000 (load_public_key_with_retry late 4)
recovery_makes_ready_example = recovery_makes_ready late 120000 4 late-Recovers (omega arith)

first_phase_ends_example :
    let r = retry_from late backoff_max_attempts backoff_initial_ms 0 in
    IsOver r.outcome × (r.attempts ≤ 10) × (sum r.sleeps ≤ 151000)
first_phase_ends_example = first_phase_ends late

abbrev payload : JwtPayload
payload = record {
  sub = some bob;
  jti = some (codes "token");
  device_id = some (codes "phone");
  fingerprint = none;
}

abbrev verifier : Verifier
verifier = record {
  public_key_pem = some (codes "pem");
  verify = λ pem token. if text_eq token (codes "abc") then some payload else none;
}

abbrev bearer : Option Text
bearer = some (codes "Bearer abc")

abbrev bob_user : AuthUser
bob_user = record {
  user_id = bob;
  jti = codes "token";
  device_id = codes "phone";
  fingerprint = none;
}

authenticate_ok_example : IsAuthenticated verifier bearer bob_user start
unfolding authenticate check_revoked look_up extract_bearer_token required_text verified token_key
    device_key starts_with text_eq ◌>>=◌ pure lift external
authenticate_ok_example = authenticate_ok verifier bearer calm start refl

guarded_blob_ok_example :
    (user : AuthUser) × IsAuthenticated verifier bearer user start
    × IsAuthorised photo_id user.user_id start
unfolding guarded can_activate authenticate check_revoked look_up extract_bearer_token required_text
    verified token_key device_key starts_with blob_handler required wants_stream extract_client_ip
    get_blob sign_readable find_by_id found find_live readable enforce_read_access
    get_or_generate_signed_url valid_expiry generate_presigned_url update_signed_url_expiry
    update_media write_access_log includes text_eq trim split_head ◌>>=◌ ask external lift pure
    throw modify fire_and_forget transaction transaction_body
guarded_blob_ok_example = guarded_blob_ok verifier bearer photo_id none request calm start refl

abbrev alice_verifier : Verifier
alice_verifier = record {
  public_key_pem = some (codes "pem");
  verify = λ pem token. some (record payload { sub = some alice });
}

guarded_delete_ok_example :
    (user : AuthUser) × IsAuthenticated alice_verifier bearer user start
    × IsReleased photo_id user.user_id
        (can_activate false alice_verifier bearer calm start).1
        (guarded alice_verifier bearer (delete_handler photo_id) request calm start).1
unfolding guarded can_activate authenticate check_revoked look_up extract_bearer_token required_text
    verified token_key device_key starts_with delete_handler required extract_client_ip delete
    deactivate find_owned find_by_id found find_live owned soft_delete release Storage.delete
    delete_thumbnail_object record_delete validate_blob_size affected invalidate_cache
    announce_deletion write_access_log publish_event update_media meta_key update_quota cache_key
    trim split_head ◌>>=◌ ask attempt external fire_and_forget lift modify pure throw transaction
    transaction_body text_eq
guarded_delete_ok_example = guarded_delete_ok alice_verifier bearer photo_id request calm start refl
