-- ===== src/Media/Read/Laws.antt =====
-- Who gets an answer from the reads.
use media_service.Base.{
  ℕ, ◌≡◌, ◌⊎◌, inl, inr, sym, ap, ◌∙◌, Option, none, some, Text, arith, is_some,
}
use media_service.Errors.{Result, ok}
use media_service.World.Records.{Media, MediaMetadataDto, CachedMeta, UrlResponse, SignedUrl}
use media_service.World.State.{World, Env}
use media_service.World.Monad.{M, pure, throw, lift, external, ◌>>=◌, transaction}
use media_service.World.Returns.{bind_returns, transaction_ok, external_ok, begun}
use media_service.Media.Access.{enforce_read_access, MayRead, enforce_read_access_iff}
use media_service.Media.Repository.{find_live, find_by_id}
use media_service.Media.Upload.{meta_key}
use media_service.Media.Read.{
  StreamableFile, metadata_of, found, readable, find_readable, from_cache, get_metadata,
  sign_readable, get_blob, get_thumbnail, stream_blob, stream_thumbnail,
}

-- There is a live row of that id, and the requester may read it.
pub record IsAuthorised (id requester : Text) (w : World) : Type 0 where
  pub media : Media
  pub live : find_live id w.media ≡ some media
  pub allowed : MayRead media.context media.owner_id media.shared_with requester

pub found_ok :
    (o : Option Media) (env : Env) (w : World) {m : Media} → (found o env w).0 ≡ ok m → o ≡ some m
unfolding found pure throw
found_ok none env w h = cc
found_ok (some m) env w h = ground arith

ok_injective : {A : Type 0} {a b : A} → ◌≡◌ {A = Result A} (ok a) (ok b) → a ≡ b
ok_injective p = cc

pub find_by_id_ok :
    (id : Text) (env : Env) (w : World) {o : Option Media}
    → (find_by_id id env w).0 ≡ ok o
    → (find_live id w.media ≡ o) × ((find_by_id id env w).1 ≡ begun w)
unfolding find_by_id
find_by_id_ok id env w h =
    let e = external_ok (λ v. (find_live id v.media, v)) env w _ h in
    (ok_injective (ap (λ x. x.0) (sym e) ∙ h), ap (λ x. x.1) e)

readable_ok :
    (requester : Text) (m : Media) (env : Env) (w : World) {n : Media}
    → (readable requester m env w).0 ≡ ok n
    → (m ≡ n) × MayRead m.context m.owner_id m.shared_with requester
unfolding readable pure lift
readable_ok requester m env w h =
    let access = enforce_read_access m.context m.owner_id m.shared_with requester in
    let (u, allowed, returned) = bind_returns (lift access) (λ v. pure m) env w h in
    (
      ok_injective returned,
      (enforce_read_access_iff m.context m.owner_id m.shared_with requester).0.0 allowed,
    )

found-readable :
    (id requester : Text) (o : Option Media) (env : Env) (w v : World) {m : Media}
    → find_live id w.media ≡ o
    → ((found o >>= readable requester) env v).0 ≡ ok m
    → (a : IsAuthorised id requester w) × (a.media ≡ m)
found-readable id requester o env w v here h =
    let (m, same, returned) = bind_returns (found o) (readable requester) env v h in
    let (answered, allowed) = readable_ok requester m env (found o env v).1 returned in
    (record { media = m; live = here ∙ found_ok o env v same; allowed = allowed }, answered)

pub find_readable_ok :
    (id requester : Text) (env : Env) (w : World) {m : Media}
    → (find_readable id requester env w).0 ≡ ok m
    → (a : IsAuthorised id requester w) × (a.media ≡ m)
unfolding find_readable
find_readable_ok id requester env w h =
    let rest = λ (row : Option Media). found row >>= readable requester in
    let (o, row, returned) = bind_returns (transaction (find_by_id id)) rest env w h in
    let (looked_up, kept) = transaction_ok (find_by_id id) env w o row in
    found-readable id requester o env w (transaction (find_by_id id) env w).1
      (find_by_id_ok id env (begun w) looked_up).0 returned

-- A body that starts by the lookup returns only to an authorised requester.
behind_lookup :
    {B : Type 0} (id requester : Text) (f : Media → M B) (env : Env) (w : World) {b : B}
    → ((find_readable id requester >>= f) env w).0 ≡ ok b
    → IsAuthorised id requester w
behind_lookup id requester f env w h =
    let (m, read, returned) = bind_returns (find_readable id requester) f env w h in
    (find_readable_ok id requester env w read).0

sign_readable_ok :
    (id requester : Text) (env : Env) (w : World) {x : Media × SignedUrl × ℕ}
    → (sign_readable id requester env w).0 ≡ ok x
    → IsAuthorised id requester w
unfolding sign_readable
sign_readable_ok id requester env w h =
    let (o, row, returned) = bind_returns (find_by_id id) _ env w h in
    let (m, same, returned') = bind_returns (found o) _ env (find_by_id id env w).1 returned in
    let v = (found o env (find_by_id id env w).1).1 in
    let (n, read, returned'') = bind_returns (readable requester m) _ env v returned' in
    record {
      media = m;
      live = (find_by_id_ok id env w row).0 ∙ found_ok o env (find_by_id id env w).1 same;
      allowed = (readable_ok requester m env v read).1;
    }

-- A blob's URL, a thumbnail's URL and the bytes of either are given only where there is a live row
-- of that id that the requester may read: as its owner, as a user on its list, or because it is an
-- avatar or a group icon.
pub reads-IsAuthorised :
    (id requester : Text) (ip agent : Option Text) (env : Env) (w : World)
    → ((r : UrlResponse)
        → (get_blob id requester ip agent env w).0 ≡ ok r
        → IsAuthorised id requester w)
      × ((r : UrlResponse)
          → (get_thumbnail id requester ip agent env w).0 ≡ ok r
          → IsAuthorised id requester w)
      × ((r : StreamableFile)
          → (stream_blob id requester ip agent env w).0 ≡ ok r
          → IsAuthorised id requester w)
      × ((r : Option StreamableFile)
          → (stream_thumbnail id requester ip agent env w).0 ≡ ok r
          → IsAuthorised id requester w)
unfolding get_blob get_thumbnail stream_blob stream_thumbnail
reads-IsAuthorised id requester ip agent env w = (
  λ r h.
      let (x, signed, returned) =
        bind_returns (transaction (sign_readable id requester)) _ env w h in
      let (body, kept) = transaction_ok (sign_readable id requester) env w x signed in
      let a = sign_readable_ok id requester env (begun w) body in
      record { media = a.media; live = a.live; allowed = a.allowed },
  λ r h. behind_lookup id requester _ env w h,
  λ r h. behind_lookup id requester _ env w h,
  λ r h. behind_lookup id requester _ env w h,
)

-- The metadata are those of a row.
abbrev pub Describes : MediaMetadataDto → Media → Type 0
Describes dto m =
    (dto.id ≡ m.id)
    × (dto.owner_id ≡ m.owner_id)
    × (dto.context ≡ m.context)
    × (dto.content_type ≡ m.content_type)
    × (dto.blob_size ≡ m.blob_size)
    × (dto.expires_at ≡ m.expires_at)
    × (dto.is_active ≡ m.is_active)
    × (dto.created_at ≡ m.created_at)
    × (dto.has_thumbnail ≡ is_some m.thumbnail_path)

describes : (m : Media) (dto : MediaMetadataDto) → metadata_of m ≡ dto → Describes dto m
unfolding metadata_of
describes m dto e =
    let f = ap (λ (x : MediaMetadataDto). x.id) e in
    (
      sym f,
      sym (ap (λ (x : MediaMetadataDto). x.owner_id) e),
      sym (ap (λ (x : MediaMetadataDto). x.context) e),
      sym (ap (λ (x : MediaMetadataDto). x.content_type) e),
      sym (ap (λ (x : MediaMetadataDto). x.blob_size) e),
      sym (ap (λ (x : MediaMetadataDto). x.expires_at) e),
      sym (ap (λ (x : MediaMetadataDto). x.is_active) e),
      sym (ap (λ (x : MediaMetadataDto). x.created_at) e),
      sym (ap (λ (x : MediaMetadataDto). x.has_thumbnail) e),
    )

-- The metadata of a media are given only to a requester whom the cached entry, or without one the
-- live row, lets read it. They are those of the entry; or else each field is that of the row, and a
-- thumbnail is announced if the row names one.
pub get_metadata_ok :
    (id requester : Text) (env : Env) (w : World) {dto : MediaMetadataDto}
    → (get_metadata id requester env w).0 ≡ ok dto
    → ((c : CachedMeta) × (w.meta_cache (meta_key id) ≡ some c)
        × (c.dto ≡ dto)
        × MayRead c.dto.context c.dto.owner_id c.shared_with requester)
      ⊎ ((w.meta_cache (meta_key id) ≡ none)
          × ((a : IsAuthorised id requester w) × Describes dto a.media))
unfolding get_metadata from_cache pure lift
get_metadata_ok id requester env w {dto} h =
    let call = external (λ v. (v.meta_cache (meta_key id), v)) in
    let (entry, looked_up, returned) = bind_returns call (from_cache id requester) env w h in
    let e = external_ok (λ v. (v.meta_cache (meta_key id), v)) env w entry looked_up in
    by_entry entry (call env w).1 (ap (λ x. x.1) e)
      (ok_injective (ap (λ x. x.0) (sym e) ∙ looked_up)) returned
  where
    by_entry :
        (o : Option CachedMeta) (v : World)
        → v ≡ begun w
        → w.meta_cache (meta_key id) ≡ o
        → (from_cache id requester o env v).0 ≡ ok dto
        → ((c : CachedMeta) × (w.meta_cache (meta_key id) ≡ some c)
            × (c.dto ≡ dto)
            × MayRead c.dto.context c.dto.owner_id c.shared_with requester)
          ⊎ ((w.meta_cache (meta_key id) ≡ none)
              × ((a : IsAuthorised id requester w) × Describes dto a.media))
    by_entry (some c) v same here r =
        let access = enforce_read_access c.dto.context c.dto.owner_id c.shared_with requester in
        let (u, allowed, given) = bind_returns (lift access) (λ x. pure c.dto) env v r in
        inl (
          c,
          here,
          ok_injective given,
          (enforce_read_access_iff c.dto.context c.dto.owner_id c.shared_with requester).0.0
              allowed,
        )
    by_entry none v same here r =
        let (m, read, r1) = bind_returns (find_readable id requester) _ env v r in
        let v' = (find_readable id requester env v).1 in
        let (u, set, r2) = bind_returns (external _) (λ x. pure (metadata_of m)) env v' r1 in
        let (a, row) = find_readable_ok id requester env v read in
        inr (
          here,
          (
            record {
              media = a.media;
              live = ap (λ (x : World). find_live id x.media) (sym same) ∙ a.live;
              allowed = a.allowed;
            },
            describes a.media dto (ap metadata_of row ∙ ok_injective r2),
          ),
        )
