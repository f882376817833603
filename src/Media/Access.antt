-- ===== src/Media/Access.antt =====
-- Who may read a media: `enforceReadAccess` of src/modules/media/media.service.ts, and the policy
-- of the database in src/config/migrations/1743200000000-AddSharedWithToMedia.ts.
use media_service.Base.{
  ◌≡◌, ◌↔◌, ◌⊎◌, inl, inr, refl, Bool, true, false, ◌||◌, Option, none, some, List, [], ◌∷◌, Text,
  codes, text_eq, text_eq_iff, includes, includes_iff, Among, if◌then◌else◌, arith, Bool-cases,
}
use media_service.Errors.{Error, Result, ok, err}
use media_service.World.Records.{MediaContext, context_text}

-- `PUBLIC_READABLE_CONTEXTS.has(context)`
abbrev pub public_readable : MediaContext → Bool
public_readable MediaContext.message = false
public_readable MediaContext.avatar = true
public_readable MediaContext.group_icon = true

-- `sharedWith && sharedWith.includes(requesterId)`
abbrev pub shared_to : Option (List Text) → Text → Bool
shared_to none requester = false
shared_to (some users) requester = includes users requester

unfoldable pub enforce_read_access :
    MediaContext → Text → Option (List Text) → Text → Result (Unit {0})
enforce_read_access context owner shared_with requester =
    if public_readable context
    then ok tt
    else if text_eq owner requester
    then ok tt
    else if shared_to shared_with requester
    then ok tt
    else err Error.forbidden

-- `current_setting('app.current_user_id', TRUE)::UUID`: null where the setting is missing. `cast` is
-- the conversion of PostgreSQL, to the canonical text of a UUID, as the columns hold it; it has no
-- value where the conversion raises an error, which ends the query.
abbrev converted : Option Text → Result (Option Text)
converted none = err Error.fault
converted (some user) = ok (some user)

abbrev pub current_user : (Text → Option Text) → Option Text → Result (Option Text)
current_user cast none = ok none
current_user cast (some setting) = converted (cast setting)

-- The comparisons of the `USING` clause of the policy for `SELECT`; without a current user none of
-- them holds.
abbrev pub owned_by : Option Text → Text → Bool
owned_by none owner = false
owned_by (some user) owner = text_eq owner user

abbrev pub shared_to_current : Option (List Text) → Option Text → Bool
shared_to_current none current = false
shared_to_current (some users) none = false
shared_to_current (some users) (some user) = includes users user

private_policy : Text → Option (List Text) → Result (Option Text) → Result Bool
private_policy owner shared_with (err e) = err e
private_policy owner shared_with (ok current) =
    ok (owned_by current owner || shared_to_current shared_with current)

-- The clause, from the left: the setting is not converted for a row of a public context.
unfoldable pub select_policy :
    (Text → Option Text) → Option Text → MediaContext → Text → Option (List Text) → Result Bool
unfolding context_text private_policy
select_policy cast setting context owner shared_with =
    if includes (codes "avatar" ∷ codes "group_icon" ∷ []) (context_text context)
    then ok true
    else private_policy owner shared_with (current_user cast setting)

-- The reader is the owner, the context is public, or the reader is on the media's list.
abbrev pub MayRead : MediaContext → Text → Option (List Text) → Text → Type 0
MayRead context owner shared_with requester =
    (context ≡ MediaContext.avatar)
    ⊎ (context ≡ MediaContext.group_icon)
    ⊎ (owner ≡ requester)
    ⊎ ((users : List Text) × (shared_with ≡ some users) × Among requester users)

shared_to_iff :
    (s : Option (List Text)) (r : Text)
    → (shared_to s r ≡ true) ↔ ((users : List Text) × (s ≡ some users) × Among r users)
shared_to_iff none r = (λ h. cc, λ x. cc (x.1))
shared_to_iff (some users) r = (
  λ h. (users, refl, (includes_iff users r).0 h),
  λ (us, same, here). let a = (includes_iff us r).1 here in ground arith,
)

-- Reading is allowed exactly to the owner, to the users on the list, and to all for avatars and
-- group icons; anyone else is refused with 403.
pub enforce_read_access_iff :
    (c : MediaContext) (owner : Text) (s : Option (List Text)) (r : Text)
    → ((enforce_read_access c owner s r ≡ ok tt) ↔ MayRead c owner s r)
      × ((enforce_read_access c owner s r ≡ ok tt)
          ⊎ (enforce_read_access c owner s r ≡ err Error.forbidden))
unfolding enforce_read_access
enforce_read_access_iff c owner s r = (
  (
    λ h. allowed c h,
    elim [
      | inl e ↦ rw e
      | inr (inl e) ↦ rw e
      | inr (inr (inl e)) ↦ let a = (text_eq_iff owner r).1 e in ground arith
      | inr (inr (inr x)) ↦ let a = (shared_to_iff s r).1 x in ground arith
    ],
  ),
  ground arith,
)
  where
    private_read :
        enforce_read_access MediaContext.message owner s r ≡ ok tt
        → (owner ≡ r) ⊎ ((users : List Text) × (s ≡ some users) × Among r users)
    private_read h = elim (Bool-cases (text_eq owner r)) [
      | inl mine ↦ inl ((text_eq_iff owner r).0 mine)
      | inr other ↦ inr ((shared_to_iff s r).0 (ground arith))
    ]

    allowed : (x : MediaContext) → enforce_read_access x owner s r ≡ ok tt → MayRead x owner s r
    allowed MediaContext.message h = inr (inr (private_read h))
    allowed MediaContext.avatar h = inl refl
    allowed MediaContext.group_icon h = inr (inl refl)

-- The policy of the database lets a user, whose id is converted to `u`, see exactly the rows that
-- the service lets `u` read.
pub select_policy_agrees :
    (cast : Text → Option Text) (c : MediaContext) (owner : Text) (s : Option (List Text))
    (r u : Text)
    → cast r ≡ some u
    → ((select_policy cast (some r) c owner s ≡ ok true)
        ↔ (enforce_read_access c owner s u ≡ ok tt))
      × ((select_policy cast (some r) c owner s ≡ ok false)
          ↔ (enforce_read_access c owner s u ≡ err Error.forbidden))
unfolding select_policy enforce_read_access includes text_eq
select_policy_agrees cast MediaContext.message owner none r u e =
    rw e ((λ h. ground arith, λ h. ground arith), (λ h. ground arith, λ h. ground arith))
select_policy_agrees cast MediaContext.message owner (some users) r u e =
    rw e ((λ h. ground arith, λ h. ground arith), (λ h. ground arith, λ h. ground arith))
select_policy_agrees cast MediaContext.avatar owner s r u e =
    ((λ h. refl, λ h. refl), (λ h. cc, λ h. cc))
select_policy_agrees cast MediaContext.group_icon owner s r u e =
    ((λ h. refl, λ h. refl), (λ h. cc, λ h. cc))

-- The policy without a setting, and with one that is no UUID.
pub select_policy_bare :
    (cast : Text → Option Text) (c : MediaContext) (owner : Text) (s : Option (List Text))
    → ((select_policy cast none c owner s ≡ ok true)
        ↔ ((c ≡ MediaContext.avatar) ⊎ (c ≡ MediaContext.group_icon)))
      × ((select_policy cast none c owner s ≡ ok false) ↔ (c ≡ MediaContext.message))
unfolding select_policy includes text_eq
select_policy_bare cast MediaContext.message owner none =
    ((λ h. cc, λ h. elim h [ inl e ↦ cc | inr e ↦ cc ]), (λ h. refl, λ h. refl))
select_policy_bare cast MediaContext.message owner (some us) =
    ((λ h. cc, λ h. elim h [ inl e ↦ cc | inr e ↦ cc ]), (λ h. refl, λ h. refl))
select_policy_bare cast MediaContext.avatar owner s =
    ((λ h. inl refl, λ h. refl), (λ h. cc, λ h. cc))
select_policy_bare cast MediaContext.group_icon owner s =
    ((λ h. inr refl, λ h. refl), (λ h. cc, λ h. cc))

pub select_policy_unreadable :
    (cast : Text → Option Text) (c : MediaContext) (owner : Text) (s : Option (List Text))
    (r : Text)
    → cast r ≡ none
    → ((select_policy cast (some r) c owner s ≡ ok true)
        ↔ ((c ≡ MediaContext.avatar) ⊎ (c ≡ MediaContext.group_icon)))
      × ((select_policy cast (some r) c owner s ≡ err Error.fault) ↔ (c ≡ MediaContext.message))
unfolding select_policy includes text_eq
select_policy_unreadable cast MediaContext.message owner s r e =
    rw e ((λ h. cc, λ h. elim h [ inl e ↦ cc | inr e ↦ cc ]), (λ h. refl, λ h. refl))
select_policy_unreadable cast MediaContext.avatar owner s r e =
    ((λ h. inl refl, λ h. refl), (λ h. cc, λ h. cc))
select_policy_unreadable cast MediaContext.group_icon owner s r e =
    ((λ h. inr refl, λ h. refl), (λ h. cc, λ h. cc))
