-- ===== src/Auth/Laws.antt =====
-- Whom the guard lets pass, and the guard in front of a handler.
use media_service.Base.{
  Bool, true, false, ◌≡◌, refl, sym, ap, ◌∙◌, inl, inr, Option, none, some, [], ◌∷◌, ◌≢◌, Text,
  codes, starts_with, drop, is_some, ◌||◌, arith, Bool-cases,
}
use media_service.Errors.{Error, Result, ok, throw_if}
use media_service.World.State.{World, Env}
use media_service.World.Monad.{pure, lift}
use media_service.World.Returns.{bind_returns, external_ok, begun}
use media_service.Auth.{
  JwtPayload, AuthUser, Verifier, extract_bearer_token, required_text, verified, token_key,
  device_key, look_up, check_revoked, authenticate,
}

required_text_ok : (o : Option Text) {s : Text} → required_text o ≡ ok s → (o ≡ some s) × (s ≢ [])
unfolding required_text
required_text_ok none h = cc
required_text_ok (some []) h = cc
required_text_ok (some (c ∷ t)) h = (cc, λ e. cc)

verified_ok : (o : Option JwtPayload) {p : JwtPayload} → verified o ≡ ok p → o ≡ some p
unfolding verified
verified_ok none h = cc
verified_ok (some p) h = cc

extract_bearer_token_ok :
    (h : Option Text) {token : Text}
    → extract_bearer_token h ≡ some token
    → (header : Text) × (h ≡ some header)
      × (starts_with header (codes "Bearer ") ≡ true)
      × (token ≡ drop 7 header)
unfolding extract_bearer_token
extract_bearer_token_ok none e = cc
extract_bearer_token_ok (some header) {token} e =
    elim (Bool-cases (starts_with header (codes "Bearer "))) [
      | inl bearer ↦ (header, refl, bearer, ground arith)
      | inr other ↦ absurd (ground arith)
    ]

look_up_ok :
    (key : Text) (env : Env) (w : World) {b : Bool}
    → (look_up key env w).0 ≡ ok b
    → (is_some (w.revoked key) ≡ b) × ((look_up key env w).1 ≡ begun w)
unfolding look_up
look_up_ok key env w {b} h =
    let e = external_ok (λ v. (is_some (v.revoked key), v)) env w b h in
    let found : ok (is_some (w.revoked key)) ≡ ok b = ap (λ x. x.0) (sym e) ∙ h in
    (cc, ap (λ x. x.1) e)

ok_injective : {A : Type 0} (a : A) {b : A} → ◌≡◌ {A = Result A} (ok a) (ok b) → a ≡ b
ok_injective a p = cc

none-is_some : (o : Option Text) → is_some o ≡ false → o ≡ none
none-is_some none h = refl
none-is_some (some s) h = cc

-- Neither the token nor the device is revoked.
pub record IsUnrevoked (jti device_id : Text) (w : World) : Type 0 where
  pub token : w.revoked (token_key jti) ≡ none
  pub device : w.revoked (device_key device_id) ≡ none

check_revoked_ok :
    (jti device : Text) (env : Env) (w : World)
    → (check_revoked jti device env w).0 ≡ ok tt
    → IsUnrevoked jti device w
unfolding check_revoked lift
check_revoked_ok jti device env w h =
    let (a, token, h1) = bind_returns (look_up (token_key jti)) _ env w h in
    let v = (look_up (token_key jti) env w).1 in
    let (b, dev, h2) = bind_returns (look_up (device_key device)) _ env v h1 in
    let (ta, still) = look_up_ok (token_key jti) env w token in
    let (db, still') = look_up_ok (device_key device) env v dev in
    let (na, nb) = neither a b h2 in
    record {
      token = none-is_some (w.revoked (token_key jti)) (ta ∙ na);
      device =
          none-is_some (w.revoked (device_key device))
            (ap (λ (x : World). is_some (x.revoked (device_key device))) (sym still) ∙ db ∙ nb);
    }
  where
    neither :
        (a b : Bool) → throw_if (a || b) Error.unauthorized ≡ ok tt → (a ≡ false) × (b ≡ false)
    neither a b e = ground arith

-- A request that the guard let pass as `user`.
pub record IsAuthenticated (v : Verifier) (header : Option Text) (user : AuthUser) (w : World)
    : Type 0 where
  pub sent : Text
  pub given : header ≡ some sent
  pub bearer : starts_with sent (codes "Bearer ") ≡ true
  pub pem : Text
  pub key : v.public_key_pem ≡ some pem
  pub payload : JwtPayload
  pub signed : v.verify pem (drop 7 sent) ≡ some payload
  pub subject : payload.sub ≡ some user.user_id
  pub token : payload.jti ≡ some user.jti
  pub device : payload.device_id ≡ some user.device_id
  pub named : user.user_id ≢ []
  pub token_named : user.jti ≢ []
  pub device_named : user.device_id ≢ []
  pub unrevoked : IsUnrevoked user.jti user.device_id w

-- The guard lets a request pass only with a bearer token that the loaded key verifies, whose
-- payload names a user, a token and a device, none of them empty; neither the token nor the device
-- is revoked; and the user left on the request is the subject of the token.
pub authenticate_ok :
    (v : Verifier) (header : Option Text) (env : Env) (w : World) {user : AuthUser}
    → (authenticate v header env w).0 ≡ ok user
    → IsAuthenticated v header user w
unfolding authenticate lift pure
authenticate_ok v header env w {user} h =
    let (token, extracted, h1) =
      bind_returns (lift (required_text (extract_bearer_token header))) _ env w h in
    let (pem, loaded, h2) = bind_returns (lift (required_text v.public_key_pem)) _ env w h1 in
    let (payload, signed, h3) = bind_returns (lift (verified (v.verify pem token))) _ env w h2 in
    let (sub, has_sub, h4) = bind_returns (lift (required_text payload.sub)) _ env w h3 in
    let (jti, has_jti, h5) = bind_returns (lift (required_text payload.jti)) _ env w h4 in
    let (device, has_device, h6) =
      bind_returns (lift (required_text payload.device_id)) _ env w h5 in
    let (u, unrevoked, h7) = bind_returns (check_revoked jti device) _ env w h6 in
    let (t, full) = required_text_ok (extract_bearer_token header) extracted in
    let (sent, given, bearer, cut) = extract_bearer_token_ok header t in
    let user' : AuthUser = record {
      user_id = sub;
      jti = jti;
      device_id = device;
      fingerprint = payload.fingerprint;
    } in
    let same = ok_injective user' h7 in
    let name = ap (λ (x : AuthUser). x.user_id) same in
    let (subject, named) = required_text_ok payload.sub has_sub in
    let of_token = check_revoked_ok jti device env w unrevoked in
    record {
      sent = sent;
      given = given;
      bearer = bearer;
      pem = pem;
      key = (required_text_ok v.public_key_pem loaded).0;
      payload = payload;
      signed = ap (v.verify pem) (sym cut) ∙ verified_ok (v.verify pem token) signed;
      subject = subject ∙ ap some name;
      token = (required_text_ok payload.jti has_jti).0 ∙ ap (λ (x : AuthUser). some x.jti) same;
      device =
          (required_text_ok payload.device_id has_device).0
          ∙ ap (λ (x : AuthUser). some x.device_id) same;
      named = λ e. named (name ∙ e);
      token_named =
          λ e. (required_text_ok payload.jti has_jti).1 (ap (λ (x : AuthUser). x.jti) same ∙ e);
      device_named = λ e.
          (required_text_ok payload.device_id has_device).1
            (ap (λ (x : AuthUser). x.device_id) same ∙ e);
      unrevoked = record {
        token = ap (λ (x : AuthUser). w.revoked (token_key x.jti)) (sym same) ∙ of_token.token;
        device =
            ap (λ (x : AuthUser). w.revoked (device_key x.device_id)) (sym same) ∙ of_token.device;
      };
    }
