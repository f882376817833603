-- ===== src/Peers.antt =====
-- The services that this one asks: `GroupService.isAdmin` of src/modules/media/group.service.ts and
-- `MessagingService.isConversationE2EE` of src/modules/media/messaging.service.ts. What an HTTP call
-- answers is given from outside; `none` stands for a network fault or the time limit.
pub mod Laws
use media_service.Base.{
  ℕ, Bool, true, false, ◌&&◌, ◌||◌, Option, none, some, List, [], ◌∷◌, ◌++◌, Text, codes, text_eq,
  leb, any, ◌==◌, if◌then◌else◌, get_or_else,
}
use media_service.Errors.{Error, Result, ok, err}
use media_service.World.State.{World, Env, GroupMember, GroupBody, members, wrapped, HttpResponse}
use media_service.World.Monad.{M, pure, ask, external, ◌>>=◌, ◌>>◌}

-- `response.ok`
abbrev pub is_success : ℕ → Bool
is_success status = leb 200 status && leb status 299

abbrev pub members_of : GroupBody → List GroupMember
members_of (members ms) = ms
members_of (wrapped none) = []
members_of (wrapped (some ms)) = ms

abbrev pub is_admin_entry : Text → GroupMember → Bool
is_admin_entry id m = text_eq m.role (codes "admin") && text_eq m.user_id id

-- The body, where it is JSON.
read_members : Text → Option GroupBody → Result Bool
read_members id none = err Error.fault
read_members id (some body) = ok (any (is_admin_entry id) (members_of body))

read_group_answer : Text → Option (HttpResponse GroupBody) → Result Bool
read_group_answer id none = err Error.fault
read_group_answer id (some r) =
    if r.status == 404 || r.status == 403
    then ok false
    else if is_success r.status
    then read_members id r.body
    else err Error.internal

-- `isAdmin`: the id is sent to group-service as the group's, and compared as the member's.
unfoldable pub is_admin : Text → (Text → Option (HttpResponse GroupBody)) → Text → Result Bool
unfolding read_group_answer read_members
is_admin [] fetch id = err Error.internal
is_admin (c ∷ base_url) fetch id = read_group_answer id (fetch id)

-- `body.e2ee_enabled === true`
abbrev enabled : Option (Option Bool) → Bool
enabled none = false
enabled (some none) = false
enabled (some (some b)) = b

read_e2ee_answer : Option (HttpResponse (Option Bool)) → Bool
read_e2ee_answer none = false
read_e2ee_answer (some r) =
    if r.status == 404 then false else if is_success r.status then enabled r.body else false

-- `fetchE2eeStatus`: every failure answers false.
unfoldable pub fetch_e2ee_status : Text → (Text → Option (HttpResponse (Option Bool))) → Text → Bool
unfolding read_e2ee_answer
fetch_e2ee_status [] fetch conversation = false
fetch_e2ee_status (c ∷ base_url) fetch conversation = read_e2ee_answer (fetch conversation)

unfoldable pub e2ee_key : Text → Text
e2ee_key conversation = codes "e2ee:conv:" ++ conversation

store_e2ee : Text → Bool → World → World
store_e2ee key b w = record w { e2ee_cache = λ k. if text_eq k key then some b else w.e2ee_cache k }

cached_or_fetched : Text → Option Bool → M Bool
cached_or_fetched conversation (some b) = pure b
cached_or_fetched conversation none = do
  result ←
      ask (λ env. fetch_e2ee_status env.messaging_service_url env.messaging_answer conversation)
  external (λ w. (tt, store_e2ee (e2ee_key conversation) result w))
  pure result

-- `isConversationE2EE`
unfoldable pub is_conversation_e2ee : Text → M Bool
unfolding cached_or_fetched store_e2ee
is_conversation_e2ee conversation = do
  cached ← external (λ w. (w.e2ee_cache (e2ee_key conversation), w))
  cached_or_fetched conversation cached
