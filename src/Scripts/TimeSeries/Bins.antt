-- ===== src/Scripts/TimeSeries/Bins.antt =====
-- The windows of five seconds.
use tinytelegram.Base.{
  ℕ, suc, ◌+◌, ◌-◌, ◌*◌, ◌/◌, Bool, ◌&&◌, List, [], ◌∷◌, ltb, leb, if◌then◌else◌,
}

-- Five seconds in microseconds.
abbrev pub width : ℕ
width = 5000000

-- len(np.arange(0, max_t + 5, 5)): the multiples of 5 below max_t + 5.
unfoldable pub edge_count : ℕ → ℕ
edge_count max_t = (max_t + width + (width - 1)) / width

-- bins[i]
unfoldable pub edge : ℕ → ℕ
edge i = i * width

-- len(bins) - 1 windows
unfoldable pub window_count : ℕ → ℕ
unfolding edge_count
window_count max_t = edge_count max_t - 1

-- bins[i] <= t < bins[i+1]
unfoldable pub in_window : ℕ → ℕ → Bool
unfolding edge
in_window i t = leb (edge i) t && ltb t (edge (suc i))

-- (bins[i] + bins[i+1]) / 2
unfoldable pub center : ℕ → ℕ
unfolding edge
center i = (edge i + edge (suc i)) / 2

module _ {A : Type 0} where
  -- [d for d, t in zip(durations, rel_times) if bins[i] <= t < bins[i+1]]
  unfoldable pub window : ℕ → List A → List ℕ → List A
  window i [] times = []
  window i (d ∷ ds) [] = []
  window i (d ∷ ds) (t ∷ ts) = let rest = window i ds ts in if in_window i t then d ∷ rest else rest
