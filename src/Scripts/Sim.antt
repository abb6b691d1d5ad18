-- ===== src/Scripts/Sim.antt =====
-- Whole numbers in place of floats, for the tests.
use tinytelegram.Base.{ℕ, ◌+◌, ◌-◌, ◌*◌, ◌/◌, ◌≤◌, ◌<◌, ◌≡◌, ◌⊎◌, true, arith, leb}
use tinytelegram.Scripts.Python.{Floats}

pub leb_total : (x y : ℕ) → (leb x y ≡ true) ⊎ (leb y x ≡ true)
leb_total x y = ground arith

pub leb_trans : (x y z : ℕ) → leb x y ≡ true → leb y z ≡ true → leb x z ≡ true
leb_trans x y z p q = ground arith

pub share_lt : (p n : ℕ) → p < 100 → 1 ≤ n → n * p / 100 < n
share_lt p n h k = grind arith

pub share_mono : (p q n : ℕ) → p ≤ q → n * p / 100 ≤ n * q / 100
share_mono p q n h = grind arith

pub share_half : (n : ℕ) → n * 50 / 100 ≡ n / 2
share_half n = omega arith

abbrev pub whole : Floats
whole = record {
  Num = ℕ;
  zero_num = 0;
  add = ◌+◌;
  minus = ◌-◌;
  over = ◌/◌;
  decimal = λ mantissa digits. mantissa;
  ratio = λ a b. a;
  tenths = λ x k. x * k / 10;
  at_most = leb;
  show = λ x. "n";
  show_int = λ x. "n";
  fmt = λ d x. "n";
  percent = λ p n. n * p / 100;
  at_most_total = leb_total;
  at_most_trans = leb_trans;
  percent_lt = share_lt;
  percent_mono = share_mono;
  percent_half = share_half;
}
