-- ===== src/Peers/Laws.antt =====
-- When the answers of the other services count.
use media_service.Base.{
  ℕ, ◌≤◌, ◌≡◌, ◌≢◌, ◌↔◌, ◌⊎◌, inl, inr, refl, sym, ap, ◌∙◌, Bool, true, false, Option, none, some,
  List, [], ◌∷◌, Text, codes, text_eq_iff, any, arith, Bool-cases,
}
use media_service.Errors.{Result, ok}
use media_service.World.State.{World, Env, GroupMember, GroupBody, HttpResponse}
use media_service.World.Monad.{M, pure, ask, external}
use media_service.World.Returns.{bind_returns, external_ok}
use media_service.Peers.{
  members_of, is_admin_entry, is_admin, read_group_answer, fetch_e2ee_status, read_e2ee_answer,
  e2ee_key, cached_or_fetched, is_conversation_e2ee,
}

-- Somebody on the list is an admin with that user id.
abbrev pub ListsAdmin : Text → List GroupMember → Type 0
ListsAdmin id [] = ⊥
ListsAdmin id (m ∷ ms) = ((m.role ≡ codes "admin") × (m.user_id ≡ id)) ⊎ ListsAdmin id ms

any-admin_iff :
    (id : Text) (ms : List GroupMember) → (any (is_admin_entry id) ms ≡ true) ↔ ListsAdmin id ms
any-admin_iff id [] = (λ h. cc, λ x. elim x [ ])
any-admin_iff id (m ∷ ms) = (
  λ h. elim (Bool-cases (is_admin_entry id m)) [
    | inl here ↦ inl (
      (text_eq_iff m.role (codes "admin")).0 (ground arith),
      (text_eq_iff m.user_id id).0 (ground arith),
    )
    | inr other ↦ inr ((any-admin_iff id ms).0 (ground arith))
  ],
  elim [
    | inl (role, user) ↦
        let a = (text_eq_iff m.role (codes "admin")).1 role in
        let b = (text_eq_iff m.user_id id).1 user in ground arith
    | inr later ↦ let a = (any-admin_iff id ms).1 later in ground arith
  ],
)

abbrev pub AnswersMembers : Option (HttpResponse GroupBody) → Text → Type 0
AnswersMembers answer id =
    (status : ℕ) × (body : GroupBody) × (answer
      ≡ some (record { status = status; body = some body }))
    × (200 ≤ status)
    × (status ≤ 299)
    × ListsAdmin id (members_of body)

-- The caller counts as an admin exactly if group-service is configured and answers with a 2xx
-- status and a list in which the very id that named the group is an admin's user id.
pub is_admin_iff :
    (base_url : Text) (fetch : Text → Option (HttpResponse GroupBody)) (id : Text)
    → (is_admin base_url fetch id ≡ ok true) ↔ ((base_url ≢ []) × AnswersMembers (fetch id) id)
unfolding is_admin
is_admin_iff [] fetch id = (λ h. cc, λ x. absurd (x.0 refl))
is_admin_iff (c ∷ base_url) fetch id = (
  λ h. (λ e. cc, read (fetch id) h),
  λ (n, (status, body, same, low, high, lists)).
      let a = (any-admin_iff id (members_of body)).1 lists in rw same (ground arith),
)
  where
    listed :
        (status : ℕ) (b : Option GroupBody)
        → read_group_answer id (some (record { status = status; body = b })) ≡ ok true
        → AnswersMembers (some (record { status = status; body = b })) id
    listed status none h = ground arith
    listed status (some body) h = (
      status,
      body,
      refl,
      ground arith,
      ground arith,
      (any-admin_iff id (members_of body)).0 (ground arith),
    )

    read :
        (answer : Option (HttpResponse GroupBody))
        → read_group_answer id answer ≡ ok true
        → AnswersMembers answer id
    read none h = cc
    read (some r) h = listed r.status r.body h

abbrev pub AnswersEnabled : Option (HttpResponse (Option Bool)) → Type 0
AnswersEnabled answer =
    (status : ℕ) × (answer ≡ some (record { status = status; body = some (some true) }))
    × (200 ≤ status)
    × (status ≤ 299)

-- A conversation counts as encrypted exactly if messaging-service is configured and answers with a
-- 2xx status and `true`; every failure counts as not encrypted.
pub fetch_e2ee_status_iff :
    (base_url : Text) (fetch : Text → Option (HttpResponse (Option Bool))) (id : Text)
    → (fetch_e2ee_status base_url fetch id ≡ true) ↔ ((base_url ≢ []) × AnswersEnabled (fetch id))
unfolding fetch_e2ee_status
fetch_e2ee_status_iff [] fetch id = (λ h. cc, λ x. absurd (x.0 refl))
fetch_e2ee_status_iff (c ∷ base_url) fetch id =
    (λ h. (λ e. cc, read (fetch id) h), λ (n, (status, same, low, high)). rw same (ground arith))
  where
    answered :
        (status : ℕ) (b : Option (Option Bool))
        → read_e2ee_answer (some (record { status = status; body = b })) ≡ true
        → AnswersEnabled (some (record { status = status; body = b }))
    answered status none h = ground arith
    answered status (some none) h = ground arith
    answered status (some (some true)) h = (status, refl, ground arith, ground arith)
    answered status (some (some false)) h = ground arith

    read :
        (answer : Option (HttpResponse (Option Bool)))
        → read_e2ee_answer answer ≡ true
        → AnswersEnabled answer
    read none h = cc
    read (some r) h = answered r.status r.body h

-- What the service takes a conversation for encrypted by: the entry in the cache says so; or there
-- is no entry, and messaging-service is configured and answers a 2xx status and `true`.
abbrev pub IsKnownEncrypted : Env → World → Text → Type 0
IsKnownEncrypted env w conversation =
    (w.e2ee_cache (e2ee_key conversation) ≡ some true)
    ⊎ ((w.e2ee_cache (e2ee_key conversation) ≡ none)
        × (env.messaging_service_url ≢ [])
        × AnswersEnabled (env.messaging_answer conversation))

bool_ok : {a b : Bool} → ◌≡◌ {A = Result Bool} (ok a) (ok b) → a ≡ b
bool_ok e = cc

option_ok : {a b : Option Bool} → ◌≡◌ {A = Result (Option Bool)} (ok a) (ok b) → a ≡ b
option_ok e = cc

-- An answer that is no is given only for a conversation that is not known to be encrypted.
pub is_conversation_e2ee_no :
    (conversation : Text) (env : Env) (w : World)
    → (is_conversation_e2ee conversation env w).0 ≡ ok false
    → ¬ IsKnownEncrypted env w conversation
unfolding is_conversation_e2ee pure ask
is_conversation_e2ee_no conversation env w h =
    let call : M (Option Bool) = external (λ v. (v.e2ee_cache (e2ee_key conversation), v)) in
    let (cached, found, returned) = bind_returns call (cached_or_fetched conversation) env w h in
    let e = external_ok (λ v. (v.e2ee_cache (e2ee_key conversation), v)) env w cached found in
    by_entry cached (call env w).1 (option_ok (ap (λ x. x.0) (sym e) ∙ found)) returned
  where
    by_entry :
        (o : Option Bool) (v : World)
        → w.e2ee_cache (e2ee_key conversation) ≡ o
        → (cached_or_fetched conversation o env v).0 ≡ ok false
        → ¬ IsKnownEncrypted env w conversation
    by_entry (some b) v here r (inl known) = let no = bool_ok r in cc
    by_entry (some b) v here r (inr (missing, url, answer)) = cc
    by_entry none v here r (inl known) = cc
    by_entry none v here r (inr (missing, url, answer)) =
        let (b, fetched, r1) =
          bind_returns
            (ask (λ e. fetch_e2ee_status e.messaging_service_url e.messaging_answer conversation)) _
            env v r in
        let yes =
          (fetch_e2ee_status_iff env.messaging_service_url env.messaging_answer conversation).1
            (url, answer) in
        let (u, stored, r2) = bind_returns (external _) (λ x. pure b) env _ r1 in
        let no = bool_ok r2 in let same = bool_ok fetched in cc
