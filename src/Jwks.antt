-- ===== src/Jwks.antt =====
-- The key of the tokens: src/modules/jwks/jwks.service.ts. What the endpoint answers at a time, and
-- when the module is destroyed, is a schedule; the clock counts the sleeps, and a fetch takes no
-- time on it. A sleep that the destruction cuts off is never resumed: the loop is stopped. Keys are imported by `createPublicKey` of node:crypto, a parameter.
pub mod Keys
pub mod Retry
use media_service.Base.{
  ℕ, zero, suc, ◌+◌, ◌*◌, min, Bool, true, false, ◌&&◌, ◌||◌, Option, none, some, List, [], ◌∷◌,
  Text, codes, text_eq, find, leb, if◌then◌else◌,
}
use media_service.World.State.{HttpResponse}
use media_service.Peers.{is_success}

-- `interface JwkKey`
pub record JwkKey : Type 0 where
  pub kty : Text
  pub use_for : Option Text
  pub alg : Option Text
  pub crv : Option Text
  pub x : Option Text
  pub y : Option Text

-- `interface JwksDocument`, which may lack its keys.
pub record JwksDocument : Type 0 where
  pub keys : Option (List JwkKey)

-- What `loadPublicKey` throws.
pub data LoadError : Type 0 where
  not_configured fetch_failed unparseable no_key missing_coordinates import_failed : LoadError
  http_status : ℕ → LoadError

pub data Loaded (Key : Type 0) : Type 0 where
  loaded : Key → Loaded Key
  failed : LoadError → Loaded Key

-- `===` between a field and a text.
abbrev pub field_is : Option Text → Text → Bool
field_is none s = false
field_is (some t) s = text_eq t s

-- The test of `find`.
abbrev pub is_es256 : JwkKey → Bool
is_es256 k =
    text_eq k.kty (codes "EC")
    && field_is k.crv (codes "P-256")
    && (field_is k.use_for (codes "sig") || field_is k.alg (codes "ES256"))

abbrev pub truthy_field : Option Text → Bool
truthy_field none = false
truthy_field (some []) = false
truthy_field (some (c ∷ s)) = true

abbrev pub find_key : Option (List JwkKey) → Option JwkKey
find_key none = none
find_key (some keys) = find is_es256 keys

module _ {Key : Type 0} (create_public_key : JwkKey → Option Key) where
  abbrev pub import_with : Option Key → Loaded Key
  import_with none = Loaded.failed LoadError.import_failed
  import_with (some key) = Loaded.loaded key

  unfoldable pub import_key : Option JwkKey → Loaded Key
  import_key none = Loaded.failed LoadError.no_key
  import_key (some k) =
      if truthy_field k.x && truthy_field k.y
      then import_with (create_public_key k)
      else Loaded.failed LoadError.missing_coordinates

  unfoldable pub read_document : Option JwksDocument → Loaded Key
  read_document none = Loaded.failed LoadError.unparseable
  read_document (some document) = import_key (find_key document.keys)

  -- `none` stands for a network fault or the time limit.
  unfoldable pub read_response : Option (HttpResponse JwksDocument) → Loaded Key
  read_response none = Loaded.failed LoadError.fetch_failed
  read_response (some r) =
      if is_success r.status
      then read_document r.body
      else Loaded.failed (LoadError.http_status r.status)

  -- `loadPublicKey`, with the configured address.
  unfoldable pub load_public_key :
      Option Text → (Text → Option (HttpResponse JwksDocument)) → Loaded Key
  load_public_key none fetch = Loaded.failed LoadError.not_configured
  load_public_key (some uri) fetch = read_response (fetch uri)

abbrev pub backoff_initial_ms : ℕ
backoff_initial_ms = 1000

abbrev pub backoff_cap_ms : ℕ
backoff_cap_ms = 30000

abbrev pub backoff_max_attempts : ℕ
backoff_max_attempts = 10

-- What the service meets at each time.
pub record Schedule (Key : Type 0) : Type 0 where
  pub load : ℕ → Loaded Key
  pub destroyed : ℕ → Bool

-- How a loop stands: with a key since a time, ended by the destruction, out of attempts at a time,
-- or still waiting then.
pub data Outcome (Key : Type 0) : Type 0 where
  ready : Key → ℕ → Outcome Key
  stopped : Outcome Key
  exhausted : ℕ → Outcome Key
  waiting : ℕ → Outcome Key

-- A loop's outcome, its attempts, and its sleeps in order.
pub record Run (Key : Type 0) : Type 0 where
  pub outcome : Outcome Key
  pub attempts : ℕ
  pub sleeps : List ℕ

module _ {Key : Type 0} where
  abbrev pub at_once : Outcome Key → Run Key
  at_once o = record { outcome = o; attempts = 0; sleeps = [] }

  abbrev pub attempted : Run Key → Run Key
  attempted r = record r { attempts = suc r.attempts }

  abbrev pub slept : ℕ → Run Key → Run Key
  slept ms r = record r { sleeps = ms ∷ r.sleeps }

  -- `try { await this.loadPublicKey(); … } catch { … }`
  abbrev pub on_load {ℓ} : {R : Type ℓ} → Loaded Key → (Key → R) → R → R
  on_load (Loaded.loaded key) done rest = done key
  on_load (Loaded.failed e) done rest = rest

  -- The `for` loop of `loadPublicKeyWithRetry`, by the attempts left: a failed attempt that is not
  -- the last is followed by a sleep, whose length doubles up to the cap.
  unfoldable pub retry_from : Schedule Key → ℕ → ℕ → ℕ → Run Key
  retry_from s zero delay now = at_once (Outcome.exhausted now)
  retry_from s (suc zero) delay now =
      if s.destroyed now
      then at_once Outcome.stopped
      else attempted (
          on_load (s.load now) (λ key. at_once (Outcome.ready key now))
            (at_once (Outcome.exhausted now)))
  retry_from s (suc (suc left)) delay now =
      let rest =
        slept delay (retry_from s (suc left) (min (delay * 2) backoff_cap_ms) (now + delay)) in
      if s.destroyed now
      then at_once Outcome.stopped
      else attempted (on_load (s.load now) (λ key. at_once (Outcome.ready key now)) rest)

  -- `continueBackgroundRetry`, as it stands after a number of rounds.
  unfoldable pub background_from : Schedule Key → ℕ → ℕ → Outcome Key
  background_from s zero now = Outcome.waiting now
  background_from s (suc rounds) now =
      let rest = background_from s rounds (now + backoff_cap_ms) in
      if s.destroyed now
      then Outcome.stopped
      else if s.destroyed (now + backoff_cap_ms)
      then Outcome.stopped
      else on_load (s.load (now + backoff_cap_ms)) (λ key. Outcome.ready key (now + backoff_cap_ms))
          rest

  -- Out of attempts, the background goes on.
  abbrev pub go_on : Schedule Key → ℕ → Outcome Key → Outcome Key
  go_on s rounds (Outcome.ready key at) = Outcome.ready key at
  go_on s rounds Outcome.stopped = Outcome.stopped
  go_on s rounds (Outcome.waiting now) = Outcome.waiting now
  go_on s rounds (Outcome.exhausted now) = background_from s rounds now

  -- `loadPublicKeyWithRetry`
  unfoldable pub load_public_key_with_retry : Schedule Key → ℕ → Outcome Key
  load_public_key_with_retry s rounds =
      go_on s rounds (retry_from s backoff_max_attempts backoff_initial_ms 0).outcome

  -- `isReady`, of a service that stands so.
  abbrev pub is_ready : Outcome Key → Bool
  is_ready (Outcome.ready key at) = true
  is_ready Outcome.stopped = false
  is_ready (Outcome.exhausted now) = false
  is_ready (Outcome.waiting now) = false
