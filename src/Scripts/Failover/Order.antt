-- ===== src/Scripts/Failover/Order.antt =====
-- The percentiles of the reconnection times exist and are in order.
use tinytelegram.Base.{
  ℕ, zero, suc, ◌/◌, ◌≤◌, ◌<◌, ◌≡◌, refl, ap, inl, inr, true, false, List, [], ◌∷◌, length, All,
  arith, Bool-cases,
}
use tinytelegram.Base.Exec.{ok}
use tinytelegram.Scripts.Python.{Floats}
use tinytelegram.Scripts.Failover.Stats.{
  item_at, Percentiles, place, sorted, ratios, cdf, percentiles,
}

item_at-total {ℓ} :
    {A : Type ℓ} (xs : List A) (i : ℕ) → i < length xs → (x : A) × (item_at xs i ≡ ok x)
unfolding item_at
item_at-total [] i h = absurd (omega arith)
item_at-total (x ∷ xs) zero h = (x, refl)
item_at-total (x ∷ xs) (suc i) h = item_at-total xs i (omega arith)

module _ (F : Floats) where
  open F use {Num, at_most, percent}

  abbrev pub Ascends : List Num → Type 0
  Ascends [] = Unit
  Ascends (x ∷ xs) = All (λ y. at_most x y ≡ true) xs × Ascends xs

  All-above :
      (x y : Num) (ys : List Num)
      → at_most x y ≡ true
      → All (λ z. at_most y z ≡ true) ys
      → All (λ z. at_most x z ≡ true) ys
  All-above x y [] le h = tt
  All-above x y (z ∷ zs) le h = (F.at_most_trans x y z le h.0, All-above x y zs le h.1)

  above-place :
      (w x : Num) (ys : List Num)
      → at_most w x ≡ true
      → All (λ z. at_most w z ≡ true) ys
      → All (λ z. at_most w z ≡ true) (place F x ys)
  unfolding place
  above-place w x [] le h = (le, tt)
  above-place w x (y ∷ ys) le h = elim (Bool-cases (at_most x y)) [
    | inl e ↦ rw e (le, h)
    | inr e ↦ rw e (h.0, above-place w x ys le h.1)
  ]

  not_below : (x y : Num) → at_most x y ≡ false → at_most y x ≡ true
  not_below x y e = elim (F.at_most_total x y) [ inl le ↦ absurd (ground arith) | inr le ↦ le ]

  place-Ascends : (x : Num) (ys : List Num) → Ascends ys → Ascends (place F x ys)
  unfolding place
  place-Ascends x [] h = (tt, tt)
  place-Ascends x (y ∷ ys) h = elim (Bool-cases (at_most x y)) [
    | inl e ↦ rw e ((e, All-above x y ys e h.0), h)
    | inr e ↦ rw e (above-place y x ys (not_below x y e) h.0, place-Ascends x ys h.1)
  ]

  pub sorted-Ascends : (xs : List Num) → Ascends (sorted F xs)
  unfolding sorted
  sorted-Ascends [] = tt
  sorted-Ascends (x ∷ xs) = place-Ascends x (sorted F xs) (sorted-Ascends xs)

  length-place : (x : Num) (ys : List Num) → length (place F x ys) ≡ suc (length ys)
  unfolding place
  length-place x [] = refl
  length-place x (y ∷ ys) = elim (Bool-cases (at_most x y)) [
    | inl e ↦ rw e refl
    | inr e ↦ rw e (ap suc (length-place x ys))
  ]

  pub length-sorted : (xs : List Num) → length (sorted F xs) ≡ length xs
  unfolding sorted
  length-sorted [] = refl
  length-sorted (x ∷ xs) = omega (arith, length-place x (sorted F xs), length-sorted xs)

  length-ratios : (i k n : ℕ) → length (ratios F i k n) ≡ k
  unfolding ratios
  length-ratios i zero n = refl
  length-ratios i (suc k) n = ap suc (length-ratios (suc i) k n)

  above-item :
      (w : Num) (xs : List Num) (i : ℕ) (v : Num)
      → All (λ z. at_most w z ≡ true) xs
      → item_at xs i ≡ ok v
      → at_most w v ≡ true
  unfolding item_at
  above-item w [] i v h e = absurd (ground arith)
  above-item w (x ∷ xs) zero v h e = let same : x ≡ v = ground arith in rw same at h.0
  above-item w (x ∷ xs) (suc i) v h e = above-item w xs i v h.1 e

  at_most_refl : (x : Num) → at_most x x ≡ true
  at_most_refl x = elim (F.at_most_total x x) [ inl le ↦ le | inr le ↦ le ]

  items_ascend :
      (xs : List Num) (i j : ℕ) (v w : Num)
      → Ascends xs
      → i ≤ j
      → item_at xs i ≡ ok v
      → item_at xs j ≡ ok w
      → at_most v w ≡ true
  unfolding item_at
  items_ascend [] i j v w h le a b = absurd (ground arith)
  items_ascend (x ∷ xs) zero zero v w h le a b =
      let same : w ≡ v = ground arith in rw same (at_most_refl v)
  items_ascend (x ∷ xs) zero (suc j) v w h le a b =
      let first : x ≡ v = ground arith in rw first at (above-item x xs j w h.0 b)
  items_ascend (x ∷ xs) (suc i) zero v w h le a b = absurd (omega arith)
  items_ascend (x ∷ xs) (suc i) (suc j) v w h le a b = items_ascend xs i j v w h.1 (omega arith) a b

  -- Of at least one reconnection time, the three percentiles are found with no IndexError, and they
  -- are in order.
  pub percentiles_ordered :
      (xs : List Num)
      → 0 < length xs
      → (p : Percentiles Num) × (percentiles F (sorted F xs) ≡ ok p)
        × (at_most p.p50 p.p95 ≡ true)
        × (at_most p.p95 p.p99 ≡ true)
  unfolding percentiles
  percentiles_ordered xs h =
      let s = sorted F xs in
      let n = length s in
      let same = length-sorted xs in
      let half = F.percent_half n in
      let up = F.percent_mono 50 95 n (omega arith) in
      let up' = F.percent_mono 95 99 n (omega arith) in
      let (a, got_a) = item_at-total s (n / 2) (omega arith) in
      let (b, got_b) =
        item_at-total s (percent 95 n) (F.percent_lt 95 n (omega arith) (omega arith)) in
      let (c, got_c) =
        item_at-total s (percent 99 n) (F.percent_lt 99 n (omega arith) (omega arith)) in
      let up_to = sorted-Ascends xs in
      (
        record { p50 = a; p95 = b; p99 = c },
        rw (got_a, got_b, got_c, percentiles),
        items_ascend s (n / 2) (percent 95 n) a b up_to (omega arith) got_a got_b,
        items_ascend s (percent 95 n) (percent 99 n) b c up_to up' got_b got_c,
      )

  -- The two lists of the distribution plot have the same length, and the times ascend.
  pub cdf_fits :
      (xs : List Num)
      → (length (cdf F (sorted F xs)) ≡ length (sorted F xs)) × Ascends (sorted F xs)
  unfolding cdf
  cdf_fits xs = (length-ratios 1 _ _, sorted-Ascends xs)
