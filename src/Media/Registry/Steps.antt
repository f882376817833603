-- ===== src/Media/Registry/Steps.antt =====
-- What a run of a request may do to the rows and to the deduplication entries, and the rules to
-- show it; and that the deduplication entries stay honest.
use media_service.Base.{
  ℕ, ℤ, ◌≡◌, refl, sym, ap, ◌∙◌, ◌⊎◌, inl, inr, Bool, true, Option, some, List, ◌++◌, Text, codes,
  any, append_injective,
}
use media_service.Errors.{Error, Result, ok, err}
use media_service.World.Records.{
  Media, MediaContext, context_text, UserQuota, CachedQuota, CachedMeta, MediaAccessLog, Event,
}
use media_service.World.State.{World, Env, StoredObject}
use media_service.World.Monad.{M, ◌>>=◌}
use media_service.World.Keeps.{Keeps, IsStable}
use media_service.World.Returns.{bind_step, bind_err}
use media_service.Storage.{is_uuid}
use media_service.Quota.Service.Frame.{IsQuotaBlind}
use media_service.Storage.Paths.{is_uuid-length}
use media_service.Media.Repository.{has_id, find_live}
use media_service.Media.Upload.{dedup_key}
use media_service.Media.Registry.{listing, registry}
use media_service.Media.Registry.Listing.{find_live-any}
use media_service.Media.Registry.Changes.{Change, HasOwner, Change-any, Change-HasOwner}

-- Neither the entries nor the deduplication changed.
pub record Calm (w v : World) : Type 0 where
  pub entries : listing v ≡ listing w
  pub dedup : v.dedup_cache ≡ w.dedup_cache

pub Calm-refl : (w : World) → Calm w w
Calm-refl w = record { entries = refl; dedup = refl }

pub Calm-IsStable : (w : World) → IsStable (Calm w)
Calm-IsStable w = record {
  counted = λ v c. record { entries = c.entries; dedup = c.dedup };
  rolled = λ w0 v c0 c. record { entries = c0.entries; dedup = c.dedup };
}

-- What is written elsewhere is calm.
module _ (w v : World) (c : Calm w v) where
  pub Calm-quotas : (x : List UserQuota) → Calm w (record v { quotas = x })
  Calm-quotas x = record { entries = c.entries; dedup = c.dedup }

  pub Calm-access_logs : (x : List MediaAccessLog) → Calm w (record v { access_logs = x })
  Calm-access_logs x = record { entries = c.entries; dedup = c.dedup }

  pub Calm-meta_cache : (x : Text → Option CachedMeta) → Calm w (record v { meta_cache = x })
  Calm-meta_cache x = record { entries = c.entries; dedup = c.dedup }

  pub Calm-quota_cache : (x : Text → Option CachedQuota) → Calm w (record v { quota_cache = x })
  Calm-quota_cache x = record { entries = c.entries; dedup = c.dedup }

  pub Calm-counters : (x : Text → Option ℤ) → Calm w (record v { counters = x })
  Calm-counters x = record { entries = c.entries; dedup = c.dedup }

  pub Calm-cooldowns : (x : Text → Bool) → Calm w (record v { cooldowns = x })
  Calm-cooldowns x = record { entries = c.entries; dedup = c.dedup }

  pub Calm-objects : (x : Text → Option StoredObject) → Calm w (record v { objects = x })
  Calm-objects x = record { entries = c.entries; dedup = c.dedup }

  pub Calm-published : (x : List Event) → Calm w (record v { published = x })
  Calm-published x = record { entries = c.entries; dedup = c.dedup }

  pub Calm-uploads_total : (x : ℕ) → Calm w (record v { uploads_total = x })
  Calm-uploads_total x = record { entries = c.entries; dedup = c.dedup }

  pub Calm-downloads_total : (x : ℕ) → Calm w (record v { downloads_total = x })
  Calm-downloads_total x = record { entries = c.entries; dedup = c.dedup }

  pub Calm-deletes_total : (x : ℕ) → Calm w (record v { deletes_total = x })
  Calm-deletes_total x = record { entries = c.entries; dedup = c.dedup }

pub ruleset calm_rules = (
  Calm-IsStable, Calm-quotas, Calm-access_logs, Calm-meta_cache, Calm-quota_cache, Calm-counters,
  Calm-cooldowns, Calm-objects, Calm-published, Calm-uploads_total, Calm-downloads_total,
  Calm-deletes_total,
)

pub Calm-IsQuotaBlind : (w : World) → IsQuotaBlind (Calm w)
Calm-IsQuotaBlind w = record {
  stable = Calm-IsStable w;
  quotas = λ v x c. Calm-quotas w v c x;
  quota_cache = λ v x c. Calm-quota_cache w v c x;
  cooldowns = λ v x c. Calm-cooldowns w v c x;
  published = λ v x c. Calm-published w v c x;
}

-- The deduplication entry names a live media of the user.
pub record IsNamed (user k : Text) (v : World) : Type 0 where
  pub context : MediaContext
  pub hash : Text
  pub key : k ≡ dedup_key user context hash
  pub media : Media
  pub named : v.dedup_cache k ≡ some media.id
  pub live : registry v media.id ≡ some media
  pub mine : media.owner_id ≡ user

pub record Step (user : Text) (w v : World) : Type 0 where
  pub change : Change user (listing w) (listing v)
  pub dedup : (k : Text) → (v.dedup_cache k ≡ w.dedup_cache k) ⊎ IsNamed user k v

pub Calm-Step : (user : Text) (w v : World) → Calm w v → Step user w v
Calm-Step user w v c = record {
  change = Change.nothing c.entries;
  dedup = λ k. inl (ap (λ f. f k) c.dedup);
}

Change-eq :
    (user : Text) {l l' r r' : List Media} → l ≡ r → l' ≡ r' → Change user l l' → Change user r r'
Change-eq user e e' c = rw (sym e, sym e') c

-- What is calm before and behind a step is part of it.
pub Step-Calm :
    (user : Text) (w w' v' v : World) → Calm w w' → Step user w' v' → Calm v' v → Step user w v
Step-Calm user w w' v' v before s after = record {
  change = Change-eq user before.entries (sym after.entries) s.change;
  dedup = λ k. by_key k (s.dedup k);
}
  where
    by_key :
        (k : Text)
        → (v'.dedup_cache k ≡ w'.dedup_cache k) ⊎ IsNamed user k v'
        → (v.dedup_cache k ≡ w.dedup_cache k) ⊎ IsNamed user k v
    by_key k (inl same) = inl (ap (λ f. f k) after.dedup ∙ same ∙ ap (λ f. f k) before.dedup)
    by_key k (inr n) = inr (record {
      context = n.context;
      hash = n.hash;
      key = n.key;
      media = n.media;
      named = ap (λ f. f k) after.dedup ∙ n.named;
      live = ap (find_live n.media.id) after.entries ∙ n.live;
      mine = n.mine;
    })

-- What is calm from any world on, may follow a step.
pub Step-Keeps :
    {A : Type 0} (user : Text) (w : World) (m : M A)
    → ((v : World) → Keeps (Calm v) m)
    → Keeps (Step user w) m
Step-Keeps user w m calm = record {
  at = λ env v s.
      let after = (calm v).at env v (Calm-refl v) in
      Step-Calm user w w v (m env v).1 (Calm-refl w) s after;
}

-- A step that begins behind what is calm.
pub Step-after : (user : Text) (w w' v : World) → Calm w w' → Step user w' v → Step user w v
Step-after user w w' v before s = Step-Calm user w w' v v before s (Calm-refl v)

pub Result-cases :
    {A : Type 0} (r : Result A) → ((a : A) × (r ≡ ok a)) ⊎ ((x : Error) × (r ≡ err x))
Result-cases (ok a) = inl (a, refl)
Result-cases (err x) = inr (x, refl)

-- The world behind a bind is that of its first part, where this threw, or of the rest.
pub bind_cases :
    {A B : Type 0} (P : World → Type 0) (m : M A) (f : A → M B) (env : Env) (w : World)
    → ((a : A) → (m env w).0 ≡ ok a → P (f a env (m env w).1).1)
    → ((x : Error) → (m env w).0 ≡ err x → P (m env w).1)
    → P ((m >>= f) env w).1
bind_cases P m f env w returned threw = elim (Result-cases (m env w).0) [
  | inl (a, e) ↦ rw (bind_step m f env w a e) (returned a e)
  | inr (x, e) ↦ rw (bind_err m f env w x e) (threw x e)
]

-- Each deduplication entry names a media of the user whose upload it was made by.
pub record IsHonest (w : World) : Type 0 where
  pub entry :
      (owner : Text) (context : MediaContext) (hash id : Text)
      → is_uuid owner ≡ true
      → w.dedup_cache (dedup_key owner context hash) ≡ some id
      → (any (has_id id) (listing w) ≡ true) × HasOwner owner id (listing w)

dedup_key-owner :
    (o o' : Text) (c c' : MediaContext) (h h' : Text)
    → is_uuid o ≡ true
    → is_uuid o' ≡ true
    → dedup_key o c h ≡ dedup_key o' c' h'
    → o ≡ o'
unfolding dedup_key
dedup_key-owner o o' c c' h h' u u' e =
    (append_injective o o' (is_uuid-length o u ∙ sym (is_uuid-length o' u')) (rest e)).0
  where
    rest :
        codes "dedup:blob:" ++ (o ++ (codes ":" ++ (context_text c ++ (codes ":" ++ h))))
          ≡ codes "dedup:blob:" ++ (o' ++ (codes ":" ++ (context_text c' ++ (codes ":" ++ h'))))
        → o ++ (codes ":" ++ (context_text c ++ (codes ":" ++ h)))
          ≡ o' ++ (codes ":" ++ (context_text c' ++ (codes ":" ++ h')))
    rest p = cc

-- A step of a user whose id is a UUID keeps the entries honest.
pub Step-IsHonest :
    (user : Text) (w v : World) → is_uuid user ≡ true → IsHonest w → Step user w v → IsHonest v
Step-IsHonest user w v uuid honest s = record {
  entry = λ o c h id u e. by_key o c h id u e (s.dedup (dedup_key o c h));
}
  where
    by_key :
        (o : Text) (c : MediaContext) (h id : Text)
        → is_uuid o ≡ true
        → v.dedup_cache (dedup_key o c h) ≡ some id
        → (v.dedup_cache (dedup_key o c h) ≡ w.dedup_cache (dedup_key o c h))
          ⊎ IsNamed user (dedup_key o c h) v
        → (any (has_id id) (listing v) ≡ true) × HasOwner o id (listing v)
    by_key o c h id u e (inl same) =
        let (there, owner) = honest.entry o c h id u (sym same ∙ e) in
        (
          Change-any user (listing w) (listing v) id s.change there,
          Change-HasOwner user o (listing w) (listing v) id s.change there owner,
        )
    by_key o c h id u e (inr n) =
        let owner = dedup_key-owner o user c n.context h n.hash u uuid n.key in
        let same : n.media.id ≡ id = some_injective (sym n.named ∙ e) in
        let live : find_live id (listing v) ≡ some n.media =
          ap (λ i. find_live i (listing v)) (sym same) ∙ n.live in
        (
          find_live-any id (listing v) live,
          λ m here.
              ap (λ (x : Media). x.owner_id) (some_injective (sym here ∙ live))
              ∙ n.mine
              ∙ sym owner,
        )
      where
        some_injective : {A : Type 0} {a b : A} → some a ≡ some b → a ≡ b
        some_injective p = cc

pub Calm-IsHonest : (w v : World) → IsHonest w → Calm w v → IsHonest v
Calm-IsHonest w v honest calm = record {
  entry = λ o c h id uuid e.
      let (there, owner) =
        honest.entry o c h id uuid (ap (λ f. f (dedup_key o c h)) (sym calm.dedup) ∙ e) in
      (
        ap (any (has_id id)) calm.entries ∙ there,
        λ m live. owner m (ap (find_live id) (sym calm.entries) ∙ live),
      );
}
