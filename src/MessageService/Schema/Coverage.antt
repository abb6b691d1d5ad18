-- ===== src/MessageService/Schema/Coverage.antt =====
-- Tables whose numbers all lie at or below given bounds: a row with numbers above them is admitted.
use tinytelegram.Base.{ℕ, ◌≤◌, ◌<◌, ◌≡◌, refl, String, true, List, [], ◌∷◌, arith, eq_iff}
use tinytelegram.MessageService.Keys.{pts_key}
use tinytelegram.MessageService.Schema.{Row, same_id, same_receiver, same_sender, is_fresh, admits}

-- `bound` gives the highest number used so far, by Redis key.
abbrev pub IsCovered : (String → ℕ) → List Row → Type 0
IsCovered bound [] = Unit
IsCovered bound (r ∷ rows) =
    (r.receiver_pts ≤ bound (pts_key r.receiver_id))
    × (r.sender_pts ≤ bound (pts_key r.sender_id))
    × IsCovered bound rows

pub IsCovered-mono :
    (f g : String → ℕ) (rows : List Row)
    → ((k : String) → f k ≤ g k)
    → IsCovered f rows
    → IsCovered g rows
IsCovered-mono f g [] le h = tt
IsCovered-mono f g (r ∷ rows) le h =
    let receiver_le = le (pts_key r.receiver_id) in
    let sender_le = le (pts_key r.sender_id) in
    (omega arith, omega arith, IsCovered-mono f g rows le h.2)

fresh_receiver :
    (bound : String → ℕ) (r : Row) (rows : List Row)
    → IsCovered bound rows
    → bound (pts_key r.receiver_id) < r.receiver_pts
    → is_fresh same_receiver r rows ≡ true
unfolding is_fresh
fresh_receiver bound r [] h lt = refl
fresh_receiver bound r (s ∷ rows) h lt =
    ground (arith, eq_iff r.receiver_id s.receiver_id, fresh_receiver bound r rows h.2 lt)

fresh_sender :
    (bound : String → ℕ) (r : Row) (rows : List Row)
    → IsCovered bound rows
    → bound (pts_key r.sender_id) < r.sender_pts
    → is_fresh same_sender r rows ≡ true
unfolding is_fresh
fresh_sender bound r [] h lt = refl
fresh_sender bound r (s ∷ rows) h lt =
    ground (arith, eq_iff r.sender_id s.sender_id, fresh_sender bound r rows h.2 lt)

pub covered-admits :
    (bound : String → ℕ) (r : Row) (rows : List Row)
    → IsCovered bound rows
    → bound (pts_key r.receiver_id) < r.receiver_pts
    → bound (pts_key r.sender_id) < r.sender_pts
    → is_fresh same_id r rows ≡ true
    → admits rows r ≡ true
unfolding admits
covered-admits bound r rows h lt_r lt_s new_id =
    ground (arith, fresh_receiver bound r rows h lt_r, fresh_sender bound r rows h lt_s)

-- The primary key looks at the id alone.
pub fresh_id-eq :
    (r s : Row) (rows : List Row) → r.id ≡ s.id → is_fresh same_id r rows ≡ is_fresh same_id s rows
unfolding is_fresh
fresh_id-eq r s [] e = refl
fresh_id-eq r s (t ∷ rows) e = rw (e, fresh_id-eq r s rows e)
