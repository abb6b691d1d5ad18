-- ===== src/MessageService/DbCheck/Gaps.antt =====
-- The gap query of message-service/cmd/dbcheck/main.go.
pub mod Numbers
pub mod Found
use tinytelegram.Base.{
  ℕ, suc, ◌-◌, ◌≤◌, ◌<◌, ◌≡◌, refl, sym, ap, ◌⊎◌, inl, inr, ◌↔◌, String, Bool, true, false, ◌||◌,
  List, [], ◌∷◌, ◌++◌, ◌==◌, eq_iff, eq_refl, arith, leb, ltb, leb→le, ltb→lt, take, All,
  Bool-cases, if◌then◌else◌,
}
use tinytelegram.MessageService.Schema.{Row}

-- SELECT receiver_id, prev, receiver_pts, (receiver_pts - prev) AS gap
pub record Gap : Type 0 where
  pub receiver_id : String
  pub prev : ℕ
  pub receiver_pts : ℕ
  pub gap : ℕ

abbrev pub gap_of : String → ℕ → ℕ → Gap
gap_of u p q = record { receiver_id = u; prev = p; receiver_pts = q; gap = q - p }

-- ORDER BY receiver_pts
unfoldable pub insert_number : ℕ → List ℕ → List ℕ
insert_number n [] = n ∷ []
insert_number n (m ∷ l) = if leb n m then n ∷ m ∷ l else m ∷ insert_number n l

-- PARTITION BY receiver_id: the numbers of one receiver, in order.
unfoldable pub partition : String → List Row → List ℕ
unfolding insert_number
partition u [] = []
partition u (r ∷ rows) =
    let rest = partition u rows in
    if r.receiver_id == u then insert_number r.receiver_pts rest else rest

-- LAG(receiver_pts) after the number `p`, and WHERE receiver_pts - prev > 1. The numbers are in order, so
-- no difference is below 0.
unfoldable pub lag_gaps : String → ℕ → List ℕ → List Gap
lag_gaps u p [] = []
lag_gaps u p (q ∷ l) =
    let rest = lag_gaps u q l in if ltb 1 (q - p) then gap_of u p q ∷ rest else rest

-- The first number of a receiver has no LAG, and NULL > 1 is not true.
unfoldable pub partition_gaps : String → List ℕ → List Gap
unfolding lag_gaps
partition_gaps u [] = []
partition_gaps u (p ∷ l) = lag_gaps u p l

abbrev is_among : String → List String → Bool
is_among u [] = false
is_among u (v ∷ us) = (u == v) || is_among u us

unfoldable pub receivers : List Row → List String
receivers [] = []
receivers (r ∷ rows) =
    let us = receivers rows in if is_among r.receiver_id us then us else r.receiver_id ∷ us

unfoldable pub all_gaps : List String → List Row → List Gap
all_gaps [] rows = []
all_gaps (u ∷ us) rows = partition_gaps u (partition u rows) ++ all_gaps us rows

-- ORDER BY gap DESC
unfoldable pub insert_gap : Gap → List Gap → List Gap
insert_gap g [] = g ∷ []
insert_gap g (h ∷ l) = if leb h.gap g.gap then g ∷ h ∷ l else h ∷ insert_gap g l

unfoldable pub order_by_gap : List Gap → List Gap
unfolding insert_gap
order_by_gap [] = []
order_by_gap (g ∷ l) = insert_gap g (order_by_gap l)

abbrev pub gap_limit : ℕ
gap_limit = 20

-- The whole statement.
unfoldable pub receiver_pts_gaps : List Row → List Gap
receiver_pts_gaps rows = take gap_limit (order_by_gap (all_gaps (receivers rows) rows))
