-- ===== src/Media/Account/Laws.antt =====
-- What the account's answers hold.
use media_service.Base.{
  ℕ, zero, suc, ◌+◌, ◌-◌, ◌*◌, ◌/◌, ◌≤◌, ◌<◌, ◌≡◌, ◌↔◌, refl, ap, ◌∙◌, List, [], ◌∷◌, ◌++◌, length,
  take, drop, arith,
}
use media_service.Media.Account.{usage_percent_hundredths, page_of, total_pages_of}
use native.Mathlib.Nat.{le-div_iff_mul-le, div-lt_iff_lt-mul}

-- The percentage is at most a hundred, and it is a hundred exactly if there is a limit that the use
-- has reached.
pub usage_percent_hundredths_lem :
    (used limit : ℕ)
    → (usage_percent_hundredths used limit ≤ 10000)
      × ((usage_percent_hundredths used limit ≡ 10000) ↔ ((0 < limit) × (limit ≤ used)))
unfolding usage_percent_hundredths
usage_percent_hundredths_lem used zero = (omega arith, (λ h. omega arith, λ h. omega arith))
usage_percent_hundredths_lem used (suc n) =
    let full : (10000 ≤ (used * 10000) / suc n) ↔ (10000 * suc n ≤ used * 10000) =
      le-div_iff_mul-le {k = suc n} {x = 10000} {y = used * 10000} (omega arith) in
    (
      omega arith,
      (
        (λ h. let a = full.0 (omega arith) in (omega arith, omega arith)),
        (λ h. let a = full.1 (omega arith) in omega arith),
      ),
    )

module _ {A : Type 0} where
  -- The pages from the first to the `n`-th.
  abbrev pub pages_up_to : List A → ℕ → ℕ → List A
  pages_up_to rows limit zero = []
  pages_up_to rows limit (suc n) = pages_up_to rows limit n ++ page_of rows (suc n) limit

  take-nil : (n l : ℕ) → take {A = A} l [] ≡ take n []
  take-nil zero zero = refl
  take-nil zero (suc l) = refl
  take-nil (suc n) zero = refl
  take-nil (suc n) (suc l) = refl

  take-add : (k l : ℕ) (xs : List A) → take k xs ++ take l (drop k xs) ≡ take (k + l) xs
  take-add zero l xs = ap (λ n. take n xs) (omega arith)
  take-add (suc k) l [] = take-nil (suc k + l) l
  take-add (suc k) l (x ∷ xs) =
      let later : suc (k + l) ≡ suc k + l = omega arith in
      ap (λ ys. x ∷ ys) (take-add k l xs) ∙ ap (λ n. take n (x ∷ xs)) later

  take_all : (n : ℕ) (xs : List A) → length xs ≤ n → take n xs ≡ xs
  take_all zero [] h = refl
  take_all zero (x ∷ xs) h = absurd (omega arith)
  take_all (suc n) [] h = refl
  take_all (suc n) (x ∷ xs) h = ap (λ ys. x ∷ ys) (take_all n xs (omega arith))

  pages_take : (rows : List A) (limit n : ℕ) → pages_up_to rows limit n ≡ take (n * limit) rows
  unfolding page_of
  pages_take rows limit zero =
      let none_yet : 0 ≡ 0 * limit = omega arith in ap (λ k. take k rows) none_yet
  pages_take rows limit (suc n) =
      let place : (suc n - 1) * limit ≡ n * limit = ap (λ k. k * limit) (pred n) in
      let size : n * limit + limit ≡ suc n * limit = omega arith in
      ap (λ k. pages_up_to rows limit n ++ take limit (drop k rows)) place
      ∙ ap (λ xs. xs ++ take limit (drop (n * limit) rows)) (pages_take rows limit n)
      ∙ take-add (n * limit) limit rows
      ∙ ap (λ k. take k rows) size
    where
      pred : (k : ℕ) → suc k - 1 ≡ k
      pred k = omega arith

total_pages_enough : (total limit : ℕ) → 0 < limit → total ≤ total_pages_of total limit * limit
unfolding total_pages_of
total_pages_enough total limit h =
    let y = total + (limit - 1) in
    let c = y / limit in
    let below : y < suc c * limit =
      (div-lt_iff_lt-mul {k = limit} {x = y} {y = suc c} h).0 (omega arith) in
    let split : suc c * limit ≡ c * limit + limit = omega arith in omega arith

-- The pages from the first to the last that is announced are together the whole listing, each row
-- once and in its order.
pub pages_cover :
    {A : Type 0} (rows : List A) (limit : ℕ)
    → 0 < limit
    → pages_up_to rows limit (total_pages_of (length rows) limit) ≡ rows
pages_cover rows limit h =
    pages_take rows limit (total_pages_of (length rows) limit)
    ∙ take_all (total_pages_of (length rows) limit * limit) rows
        (total_pages_enough (length rows) limit h)
