-- ===== src/Scripts/TimeSeries/Cover.antt =====
-- Which window a sample falls into, and which sample falls into none.
use tinytelegram.Base.{ℕ, ◌/◌, ◌%◌, ◌≤◌, ◌<◌, ◌≡◌, refl, ◌≢◌, ◌↔◌, ◌⊎◌, true, arith}
use tinytelegram.Scripts.TimeSeries.Bins.{width, window_count, in_window}

-- A sample lies in one window at most, that of its time divided by the width.
pub window_iff : (i t : ℕ) → (in_window i t ≡ true) ↔ (i ≡ t / width)
unfolding in_window
window_iff i t = ground arith

-- Of the samples up to the last one, a sample lies in some window exactly if it is earlier than the
-- last one or the last time is no multiple of five seconds.
pub covered_iff :
    (t max_t : ℕ)
    → t ≤ max_t
    → (t / width < window_count max_t) ↔ ((t < max_t) ⊎ (max_t % width ≢ 0))
unfolding window_count
covered_iff t max_t h = ground arith

-- Of the samples up to the last one, a sample lies in one of the windows of the script exactly if it
-- is earlier than the last one or the last time is no multiple of five seconds.
pub sample_binned_iff :
    (t max_t : ℕ)
    → t ≤ max_t
    → ((i : ℕ) × (i < window_count max_t) × (in_window i t ≡ true))
      ↔ ((t < max_t) ⊎ (max_t % width ≢ 0))
sample_binned_iff t max_t h =
    let (to, from) = covered_iff t max_t h in
    (
      λ (i, below, here). let same = (window_iff i t).0 here in to (omega arith),
      λ late. (t / width, from late, (window_iff (t / width) t).1 refl),
    )
