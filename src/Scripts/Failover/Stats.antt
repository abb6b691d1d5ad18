-- ===== src/Scripts/Failover/Stats.antt =====
-- The sorted reconnection times, their distribution function and their percentiles.
use tinytelegram.Base.{ℕ, zero, suc, ◌/◌, List, [], ◌∷◌, length, if◌then◌else◌}
use tinytelegram.Base.Exec.{Result, ok, err}
use tinytelegram.Scripts.Python.{Floats}

-- xs[i]
unfoldable pub item_at {ℓ} : {A : Type ℓ} → List A → ℕ → Result A
item_at [] i = err "IndexError"
item_at (x ∷ xs) zero = ok x
item_at (x ∷ xs) (suc i) = item_at xs i

-- xs[-1], of the list x ∷ xs
unfoldable pub last_item {ℓ} : {A : Type ℓ} → A → List A → A
last_item x [] = x
last_item x (y ∷ ys) = last_item y ys

pub record Percentiles (Num : Type 0) : Type 0 where
  pub p50 : Num
  pub p95 : Num
  pub p99 : Num

module _ (F : Floats) where
  open F use {Num, at_most, ratio, percent}

  unfoldable pub place : Num → List Num → List Num
  place x [] = x ∷ []
  place x (y ∷ ys) = if at_most x y then x ∷ y ∷ ys else y ∷ place x ys

  -- sorted(xs)
  unfoldable pub sorted : List Num → List Num
  sorted [] = []
  sorted (x ∷ xs) = place x (sorted xs)

  -- [i / n for i in range(i, i + k)]
  unfoldable pub ratios : ℕ → ℕ → ℕ → List Num
  ratios i zero n = []
  ratios i (suc k) n = ratio i n ∷ ratios (suc i) k n

  -- [i / len(xs) for i in range(1, len(xs) + 1)]
  unfoldable pub cdf : List Num → List Num
  unfolding ratios
  cdf xs = ratios 1 (length xs) (length xs)

  -- xs[len(xs)//2], xs[int(len(xs)*0.95)], xs[int(len(xs)*0.99)]
  unfoldable pub percentiles : List Num → Result (Percentiles Num)
  unfolding item_at
  percentiles xs = elim (item_at xs (length xs / 2)) [
    | err e ↦ err e
    | ok a ↦ elim (item_at xs (percent 95 (length xs))) [
      | err e ↦ err e
      | ok b ↦ elim (item_at xs (percent 99 (length xs))) [
        | err e ↦ err e
        | ok c ↦ ok (record { p50 = a; p95 = b; p99 = c })
      ]
    ]
  ]
