-- ===== src/Partitions/Lock.antt =====
-- What a run leaves: the lock given back, and the partition there.
use media_service.Base.{
  ℕ, ◌≡◌, ◌≢◌, ◌⊎◌, inl, inr, refl, sym, ap, ◌∙◌, true, false, List, [], ◌∷◌, ◌++◌, Text,
  text_eq_refl, any, ==_iff, arith, Bool-cases,
}
use media_service.Errors.{Error, Result, ok, err}
use media_service.Partitions.{
  YearMonth, Partition, Tables, Pool, is_named, create_if_missing, lock_is_free, unlock,
  release_lock, create_partition, partition_for, ensure_partition_for_month,
}

-- A table of that name is there.
abbrev pub Exists : Text → Tables → Type 0
Exists name t = any (is_named name) t.partitions ≡ true

any-last : (p : Partition) (ps : List Partition) → any (is_named p.name) (ps ++ p ∷ []) ≡ true
any-last p [] = rw (text_eq_refl p.name)
any-last p (q ∷ ps) = let more = any-last p ps in ground arith

create_if_missing-any :
    (p : Partition) (ps : List Partition) → any (is_named p.name) (create_if_missing p ps) ≡ true
unfolding create_if_missing
create_if_missing-any p ps = elim (Bool-cases (any (is_named p.name) ps)) [
  | inl there ↦ rw there there
  | inr missing ↦ rw missing (any-last p ps)
]

unlock-own : (c : ℕ) (holders : List ℕ) → unlock c (c ∷ holders) ≡ holders
unfolding unlock
unlock-own c holders = let same = (==_iff c c).1 refl in ground arith

-- What is settled behind a run.
abbrev pub IsSettled : Pool → YearMonth → ℕ → Tables → Result (Unit {0}) × Tables → Type 0
IsSettled pool d c t run =
    ((pool.throws 2 ≡ true) ⊎ (run.1.holders ≡ t.holders))
    × (run.0 ≡ ok tt
        → ((lock_is_free c t.holders ≡ false) × (run.1 ≡ t)) ⊎ Exists (partition_for d).name run.1)
    × ((run.0 ≡ ok tt) ⊎ (run.0 ≡ err Error.fault))

not_ok : {P : Type 0} {e : Error} → ◌≡◌ {A = Result (Unit {0})} (err e) (ok tt) → P
not_ok h = absurd (cc h)

IsSettled-release :
    (pool : Pool) (d : YearMonth) (t u : Tables) (c : ℕ) (r : Result (Unit {0}))
    → pool.connection 2 ≡ c
    → u.holders ≡ c ∷ t.holders
    → (r ≡ ok tt → Exists (partition_for d).name u)
    → (r ≡ ok tt) ⊎ (r ≡ err Error.fault)
    → IsSettled pool d c t (release_lock pool r u)
unfolding release_lock
IsSettled-release pool d t u c r two held there known = elim (Bool-cases (pool.throws 2)) [
  | inl fails ↦ rw fails (inl refl, λ h. not_ok h, inr refl)
  | inr runs ↦ rw runs (inr (rw (two, held) (unlock-own c t.holders)), λ h. inr (there h), known)
]

-- Where the three queries of a run get the same connection: the lock is held afterwards by those
-- who held it before, unless the query that gives it back is itself rejected; a run that returns has
-- skipped, since another connection held the lock, and changed nothing, or the partition of the
-- month is there; and a run that throws names the rejected query's fault.
pub ensure_partition_lem :
    (pool : Pool) (d : YearMonth) (t : Tables) (c : ℕ)
    → ((n : ℕ) → pool.connection n ≡ c)
    → IsSettled pool d c t (ensure_partition_for_month pool d t)
unfolding ensure_partition_for_month create_partition
ensure_partition_lem pool d t c one = elim (Bool-cases (pool.throws 0)) [
  | inl fails ↦ rw fails (inr refl, λ h. not_ok h, inr refl)
  | inr runs ↦ elim (Bool-cases (lock_is_free (pool.connection 0) t.holders)) [
    | inl free ↦
        let locked = record t { holders = pool.connection 0 ∷ t.holders } in
        let held = ap (λ n. n ∷ t.holders) (one 0) in
        elim (Bool-cases (pool.throws 1)) [
          | inl create_fails ↦
              rw (runs, free, create_fails)
                (IsSettled-release pool d t locked c (err Error.fault) (one 2) held (λ h. not_ok h)
                  (inr refl))
          | inr created ↦
              rw (runs, free, created)
                (IsSettled-release pool d t
                  (record locked { partitions = create_if_missing (partition_for d) t.partitions })
                  c (ok tt) (one 2) held (λ h. create_if_missing-any (partition_for d) t.partitions)
                  (inl refl))
        ]
    | inr taken ↦
        rw (runs, taken)
          (
            inr refl,
            λ h. inl (ap (λ n. lock_is_free n t.holders) (sym (one 0)) ∙ taken, refl),
            inl refl,
          )
  ]
]

-- Where the pool gives the last query another connection than the first, a run that finds the lock
-- free returns and leaves the lock with the first connection; from then on every run that starts on
-- another connection returns without making a partition.
pub lock_outlives_run :
    (pool later : Pool) (d e : YearMonth) (ps : List Partition)
    → ((n : ℕ) → (pool.throws n ≡ false) × (later.throws n ≡ false))
    → pool.connection 0 ≢ pool.connection 2
    → later.connection 0 ≢ pool.connection 0
    → let run = ensure_partition_for_month pool d (record { partitions = ps; holders = [] }) in
      (run.0 ≡ ok tt)
      × (run.1.holders ≡ pool.connection 0 ∷ [])
      × (ensure_partition_for_month later e run.1 ≡ (ok tt, run.1))
unfolding ensure_partition_for_month create_partition release_lock lock_is_free unlock
lock_outlives_run pool later d e ps quiet moved other =
    let (q0, l0) = quiet 0 in
    let (q1, l1) = quiet 1 in
    let (q2, l2) = quiet 2 in
    let kept = ==_iff (pool.connection 0) (pool.connection 2) in
    let taken = ==_iff (pool.connection 0) (later.connection 0) in
    (ground arith, ground arith, ground arith)
