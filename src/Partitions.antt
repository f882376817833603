-- ===== src/Partitions.antt =====
-- The monthly partitions of the access log: src/modules/media/media-access-log-partition.service.ts.
-- A query runs on one of the connections of the pool, and the advisory lock belongs to the
-- connection that took it.
pub mod Names
pub mod Lock
use media_service.Base.{
  ℕ, suc, ◌+◌, ◌/◌, ◌%◌, Bool, true, false, ◌||◌, List, [], ◌∷◌, ◌++◌, Text, codes, text_eq,
  to_decimal, ltb, ◌==◌, any, all, if◌then◌else◌,
}
use media_service.Errors.{Error, Result, ok, err}

-- `getUTCFullYear` and `getUTCMonth` of a date; the month is from 0 on.
pub record YearMonth : Type 0 where
  pub year : ℕ
  pub month : ℕ

-- `new Date(Date.UTC(year, month, 1))`: a month past December is of a later year.
unfoldable pub date_utc : ℕ → ℕ → YearMonth
date_utc year month = record { year = year + month / 12; month = month % 12 }

-- `padStart(2, '0')` of a decimal text
unfoldable pub pad_start_2 : ℕ → Text
pad_start_2 n = if ltb n 10 then codes "0" ++ to_decimal n else to_decimal n

-- `formatPartitionName`
unfoldable pub format_partition_name : YearMonth → Text
format_partition_name d =
    codes "media_access_logs_" ++ (to_decimal d.year ++ (codes "_" ++ pad_start_2 (suc d.month)))

-- `formatTimestamp`
unfoldable pub format_timestamp : YearMonth → Text
format_timestamp d =
    to_decimal d.year ++ (codes "-" ++ (pad_start_2 (suc d.month) ++ codes "-01 00:00:00+00"))

-- A partition of `media_access_logs`, with the bounds of its range.
pub record Partition : Type 0 where
  pub name : Text
  pub from : Text
  pub to : Text

unfoldable pub month_start : YearMonth → YearMonth
month_start d = date_utc d.year d.month

unfoldable pub month_end : YearMonth → YearMonth
month_end d = date_utc d.year (suc d.month)

-- The partition that covers the month of a date.
unfoldable pub partition_for : YearMonth → Partition
partition_for d = record {
  name = format_partition_name (month_start d);
  from = format_timestamp (month_start d);
  to = format_timestamp (month_end d);
}

-- The partitions that are there, and the connections that hold the advisory lock, once for each
-- time that they took it.
pub record Tables : Type 0 where
  pub partitions : List Partition
  pub holders : List ℕ

-- Which connection the n-th query of a run gets, and whether the query is rejected.
pub record Pool : Type 0 where
  pub connection : ℕ → ℕ
  pub throws : ℕ → Bool

abbrev pub is_named : Text → Partition → Bool
is_named name p = text_eq p.name name

-- `CREATE TABLE IF NOT EXISTS … PARTITION OF …`
unfoldable pub create_if_missing : Partition → List Partition → List Partition
create_if_missing p ps = if any (is_named p.name) ps then ps else ps ++ p ∷ []

-- `pg_try_advisory_lock`: no other connection has the lock.
unfoldable pub lock_is_free : ℕ → List ℕ → Bool
lock_is_free c holders = all (λ h. h == c) holders

-- `pg_advisory_unlock`: the connection gives back one of its locks, if it has any.
unfoldable pub unlock : ℕ → List ℕ → List ℕ
unlock c [] = []
unlock c (h ∷ holders) = let rest = unlock c holders in if h == c then holders else h ∷ rest

-- The query of the `finally`, whose rejection replaces the result.
unfoldable pub release_lock : Pool → Result (Unit {0}) → Tables → Result (Unit {0}) × Tables
release_lock pool r t =
    if pool.throws 2
    then (err Error.fault, t)
    else (r, record t { holders = unlock (pool.connection 2) t.holders })

unfoldable pub create_partition : Pool → Partition → Tables → Result (Unit {0}) × Tables
create_partition pool p t =
    if pool.throws 1
    then release_lock pool (err Error.fault) t
    else release_lock pool (ok tt) (record t { partitions = create_if_missing p t.partitions })

-- `ensurePartitionForMonth`
unfoldable pub ensure_partition_for_month : Pool → YearMonth → Tables → Result (Unit {0}) × Tables
ensure_partition_for_month pool d t =
    if pool.throws 0
    then (err Error.fault, t)
    else if lock_is_free (pool.connection 0) t.holders
    then create_partition pool (partition_for d)
        (record t { holders = pool.connection 0 ∷ t.holders })
    else (ok tt, t)

-- `onApplicationBootstrap`: a failure is logged.
unfoldable pub on_application_bootstrap : Pool → YearMonth → Tables → Tables
on_application_bootstrap pool now t =
    let (r, after) = ensure_partition_for_month pool now t in after

-- `createNextMonthPartition`
unfoldable pub create_next_month_partition : Pool → YearMonth → Tables → Result (Unit {0}) × Tables
create_next_month_partition pool now t =
    ensure_partition_for_month pool (date_utc now.year (suc now.month)) t
