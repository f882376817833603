-- ===== src/Jwks/Keys.antt =====
-- Which key is taken.
use media_service.Base.{
  ◌≡◌, ◌⊎◌, inl, inr, refl, true, ◌&&◌, ◌||◌, Option, none, some, List, Text, codes, text_eq,
  text_eq_sound, find_sound, and_iff, or_iff, arith, Bool-cases,
}
use media_service.World.State.{HttpResponse}
use media_service.Peers.{is_success}
use media_service.Jwks.{
  JwkKey, JwksDocument, Loaded, field_is, is_es256, truthy_field, find_key, import_with, import_key,
  read_document, read_response, load_public_key,
}

-- A key for ES256, with both coordinates.
pub record IsUsable (k : JwkKey) : Type 0 where
  pub kty : k.kty ≡ codes "EC"
  pub crv : k.crv ≡ some (codes "P-256")
  pub purpose : (k.use_for ≡ some (codes "sig")) ⊎ (k.alg ≡ some (codes "ES256"))
  pub x : truthy_field k.x ≡ true
  pub y : truthy_field k.y ≡ true

field_is_sound : (o : Option Text) (s : Text) → field_is o s ≡ true → o ≡ some s
field_is_sound none s h = cc
field_is_sound (some t) s h = let e = text_eq_sound t s h in cc e

is_es256-IsUsable :
    (k : JwkKey) → is_es256 k ≡ true → (truthy_field k.x && truthy_field k.y) ≡ true → IsUsable k
is_es256-IsUsable k h c =
    let signs = field_is k.use_for (codes "sig") in
    let es = field_is k.alg (codes "ES256") in
    let on_curve = field_is k.crv (codes "P-256") in
    let (front, purpose) = (and_iff (text_eq k.kty (codes "EC") && on_curve) (signs || es)).0 h in
    let (kty, crv) = (and_iff (text_eq k.kty (codes "EC")) on_curve).0 front in
    let (x, y) = (and_iff (truthy_field k.x) (truthy_field k.y)).0 c in
    record {
      kty = text_eq_sound k.kty (codes "EC") kty;
      crv = field_is_sound k.crv (codes "P-256") crv;
      purpose = elim ((or_iff signs es).0 purpose) [
        | inl a ↦ inl (field_is_sound k.use_for (codes "sig") a)
        | inr b ↦ inr (field_is_sound k.alg (codes "ES256") b)
      ];
      x = x;
      y = y;
    }

module _ {Key : Type 0} (create_public_key : JwkKey → Option Key) where
  -- Where a key that was loaded comes from.
  pub record IsServed (r : Option (HttpResponse JwksDocument)) (key : Key) : Type 0 where
    pub response : HttpResponse JwksDocument
    pub answered : r ≡ some response
    pub success : is_success response.status ≡ true
    pub document : JwksDocument
    pub body : response.body ≡ some document
    pub jwk : JwkKey
    pub first : find_key document.keys ≡ some jwk
    pub usable : IsUsable jwk
    pub imported : create_public_key jwk ≡ some key

  import_with_ok :
      (o : Option Key) (key : Key)
      → import_with create_public_key o ≡ Loaded.loaded key
      → o ≡ some key
  import_with_ok none key h = cc
  import_with_ok (some k) key h = cc

  find_key_sound :
      (ks : Option (List JwkKey)) (k : JwkKey) → find_key ks ≡ some k → is_es256 k ≡ true
  find_key_sound none k h = cc
  find_key_sound (some ks) k h = find_sound is_es256 ks k h

  import_key_ok :
      (o : Option JwkKey) (key : Key)
      → import_key create_public_key o ≡ Loaded.loaded key
      → (k : JwkKey) × (o ≡ some k)
        × ((truthy_field k.x && truthy_field k.y) ≡ true)
        × (create_public_key k ≡ some key)
  unfolding import_key
  import_key_ok none key h = cc
  import_key_ok (some k) key h = elim (Bool-cases (truthy_field k.x && truthy_field k.y)) [
    | inl both ↦ (k, refl, both, import_with_ok (create_public_key k) key (rw both at h))
    | inr missing ↦ absurd (ground arith)
  ]

  read_response_ok :
      (r : Option (HttpResponse JwksDocument)) (key : Key)
      → read_response create_public_key r ≡ Loaded.loaded key
      → IsServed r key
  unfolding read_response read_document
  read_response_ok none key h = cc
  read_response_ok (some r) key h = elim (Bool-cases (is_success r.status)) [
    | inl success ↦ by_body success r.body refl (rw success at h)
    | inr other ↦ absurd (ground arith)
  ]
    where
      by_body :
          is_success r.status ≡ true
          → (b : Option JwksDocument) → r.body ≡ b
          → read_document create_public_key b ≡ Loaded.loaded key
          → IsServed (some r) key
      by_body ok2 none e h = cc
      by_body ok2 (some d) e h =
          let (k, first, both, imported) = import_key_ok (find_key d.keys) key h in
          record {
            response = r;
            answered = refl;
            success = ok2;
            document = d;
            body = e;
            jwk = k;
            first = first;
            usable = is_es256-IsUsable k (find_key_sound d.keys k first) both;
            imported = imported;
          }

  -- A key is loaded only from the configured address, out of an answer with a 2xx status and a
  -- document, whose first EC key on P-256 for signatures or ES256 it is, with both coordinates.
  pub load_public_key_ok :
      (uri : Option Text) (fetch : Text → Option (HttpResponse JwksDocument)) (key : Key)
      → load_public_key create_public_key uri fetch ≡ Loaded.loaded key
      → (u : Text) × (uri ≡ some u) × IsServed (fetch u) key
  unfolding load_public_key
  load_public_key_ok none fetch key h = cc
  load_public_key_ok (some u) fetch key h = (u, refl, read_response_ok (fetch u) key h)
