-- ===== src/Partitions/Names.antt =====
-- The months' ranges follow one another, and their names differ.
use media_service.Base.{
  ℕ, suc, ◌+◌, ◌==◌, if◌then◌else◌, ◌<◌, ◌≡◌, refl, sym, ap, ◌∙◌, inl, inr, ◌++◌, Text, codes,
  length, length-append, append_injective, to_decimal, from_decimal, from_decimal-to_decimal,
  to_decimal-length, ltb, arith, Bool-cases,
}
use media_service.Partitions.{
  YearMonth, date_utc, pad_start_2, format_partition_name, format_timestamp, month_start, month_end,
  partition_for,
}

-- `getUTCMonth` is below 12.
abbrev pub IsMonth : YearMonth → Type 0
IsMonth d = d.month < 12

pub date_utc-IsMonth : (y m : ℕ) → IsMonth (date_utc y m)
unfolding date_utc
date_utc-IsMonth y m = omega arith

month-eq : {d e : YearMonth} → d.year ≡ e.year → d.month ≡ e.month → d ≡ e
month-eq y m = cc

month_start-eq : (d : YearMonth) → IsMonth d → month_start d ≡ d
unfolding month_start date_utc
month_start-eq d h = month-eq {d = month_start d} (omega arith) (omega arith)

-- The month behind that of `d` in the calendar: behind December, January of the next year.
abbrev pub next_month : YearMonth → YearMonth
next_month d =
    if d.month == 11
    then record { year = suc d.year; month = 0 }
    else record { year = d.year; month = suc d.month }

next_month-IsMonth : (d : YearMonth) → IsMonth d → IsMonth (next_month d)
next_month-IsMonth d h = ground arith

month_end-next : (d : YearMonth) → IsMonth d → month_end d ≡ next_month d
unfolding month_end date_utc
month_end-next d h = elim (Bool-cases (d.month == 11)) [
  | inl december ↦
      let last : d.month ≡ 11 = ground arith in rw december (month-eq (omega arith) (omega arith))
  | inr earlier ↦
      let below : d.month < 11 = ground arith in rw earlier (month-eq (omega arith) (omega arith))
]

to_decimal_injective : (m n : ℕ) → to_decimal m ≡ to_decimal n → m ≡ n
to_decimal_injective m n e =
    sym (from_decimal-to_decimal m) ∙ ap from_decimal e ∙ from_decimal-to_decimal n

pad_start_2-length : (n : ℕ) → n < 100 → length (pad_start_2 n) ≡ 2
unfolding pad_start_2
pad_start_2-length n h = let l = to_decimal-length n h in ground arith

padded : (s : Text) → from_decimal (codes "0" ++ s) ≡ from_decimal s
unfolding from_decimal
padded s = refl

from_decimal-pad_start_2 : (n : ℕ) → from_decimal (pad_start_2 n) ≡ n
unfolding pad_start_2
from_decimal-pad_start_2 n = elim (Bool-cases (ltb n 10)) [
  | inl short ↦ rw short (padded (to_decimal n) ∙ from_decimal-to_decimal n)
  | inr long ↦ rw long (from_decimal-to_decimal n)
]

pad_start_2_injective : (m n : ℕ) → pad_start_2 m ≡ pad_start_2 n → m ≡ n
pad_start_2_injective m n e =
    sym (from_decimal-pad_start_2 m) ∙ ap from_decimal e ∙ from_decimal-pad_start_2 n

suffix_injective :
    (xs ys us vs : Text) → length us ≡ length vs → xs ++ us ≡ ys ++ vs → (xs ≡ ys) × (us ≡ vs)
suffix_injective xs ys us vs same e =
    let left = length-append xs us in
    let right = length-append ys vs in
    let whole = ap (λ (t : Text). length t) e in append_injective xs ys (omega arith) e

-- The months of a name can be read off it.
same_month :
    (d e : YearMonth)
    → IsMonth d
    → IsMonth e
    → format_partition_name d ≡ format_partition_name e
    → d ≡ e
unfolding format_partition_name
same_month d e hd he p =
    let ld = pad_start_2-length (suc d.month) (omega arith) in
    let le = pad_start_2-length (suc e.month) (omega arith) in
    let (years, rest) =
      suffix_injective (to_decimal d.year) (to_decimal e.year)
        (codes "_" ++ pad_start_2 (suc d.month)) (codes "_" ++ pad_start_2 (suc e.month))
        (ap suc (ld ∙ sym le)) (cc p) in
    month-eq (to_decimal_injective d.year e.year years)
      (suc_injective (pad_start_2_injective (suc d.month) (suc e.month) (cc rest)))
  where
    suc_injective : {a b : ℕ} → suc a ≡ suc b → a ≡ b
    suc_injective e = omega arith

-- A text is the first instant of a month: the year, two digits of the month's number, where January
-- is 1, and the first day at midnight.
abbrev pub IsFirstOf : YearMonth → Text → Type 0
IsFirstOf d t =
    (digits : Text) × (length digits ≡ 2)
    × (from_decimal digits ≡ d.month + 1)
    × (t ≡ to_decimal d.year ++ (codes "-" ++ (digits ++ codes "-01 00:00:00+00")))

format_timestamp-IsFirstOf : (d : YearMonth) → IsMonth d → IsFirstOf d (format_timestamp d)
unfolding format_timestamp
format_timestamp-IsFirstOf d h = (
  pad_start_2 (suc d.month),
  pad_start_2-length (suc d.month) (omega arith),
  from_decimal-pad_start_2 (suc d.month) ∙ omega arith,
  refl,
)

-- The partition of a month covers it from its first instant to that of the month behind it in the
-- calendar, January of the next year behind December. So that month's partition begins where this one
-- ends; and two dates have partitions of one name only if they are of the same month.
pub partitions_tile :
    (d e : YearMonth)
    → IsMonth d
    → IsMonth e
    → IsFirstOf d (partition_for d).from
      × IsFirstOf (next_month d) (partition_for d).to
      × ((partition_for (next_month d)).from ≡ (partition_for d).to)
      × ((partition_for d).name ≡ (partition_for e).name → d ≡ e)
unfolding partition_for
partitions_tile d e hd he = (
  rw (month_start-eq d hd) (format_timestamp-IsFirstOf d hd),
  rw (month_end-next d hd) (format_timestamp-IsFirstOf (next_month d) (next_month-IsMonth d hd)),
  ap format_timestamp
      (month_start-eq (next_month d) (next_month-IsMonth d hd) ∙ sym (month_end-next d hd)),
  λ p. same_month d e hd he (
      ap format_partition_name (sym (month_start-eq d hd))
      ∙ p
      ∙ ap format_partition_name (month_start-eq e he)),
)
