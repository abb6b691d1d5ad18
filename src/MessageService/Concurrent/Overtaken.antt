-- ===== src/MessageService/Concurrent/Overtaken.antt =====
-- A message that is stored after another one with a higher number.
use tinytelegram.Base.{
  In, ℕ, ◌≤◌, ◌<◌, ◌≡◌, ◌≢◌, ◌⊎◌, refl, arith, inl, inr, ap, sym, ◌∙◌, String, true, List, [], ◌∷◌,
  All, All-map, All_In, eq_refl, length,
}
use tinytelegram.Base.Exec.{ok}
use tinytelegram.Base.Int.{pos}
use tinytelegram.Proto.{PersistedMessage}
use tinytelegram.MessageService.Redis.{Redis}
use tinytelegram.MessageService.Schema.{Row, is_fresh, same_id, admits}
use tinytelegram.MessageService.DiffQuery.{
  DiffRow, pts_for, is_party, is_missed, project, diff_query,
}
use tinytelegram.MessageService.DiffQuery.Pages.{Shows, diff_page}
use tinytelegram.MessageService.Postgres.{Postgres, row_of}
use tinytelegram.MessageService.Persist.{World, reply, columns, after_allocate}
use tinytelegram.MessageService.Persist.Storage.{new_row, store-stored, store-admitted}
use tinytelegram.MessageService.Concurrent.{
  Phase, started, got_receiver, got_both, granted, finished, Request, advance, System, pick, picks,
  counts, Reach, here, next,
}

-- A row that is admitted has an id of its own.
fresh-other :
    (r : Row) (rows : List Row)
    → is_fresh same_id r rows ≡ true
    → All (λ (t : Row). t.id ≢ r.id) rows
unfolding is_fresh
fresh-other r [] h = tt
fresh-other r (t ∷ rows) h = (
  (λ same. ground (arith, same, eq_refl r.id, eq_refl t.id, h)),
  fresh-other r rows (ground arith),
)

-- The row is in the table and no other has its id.
abbrev IsOnly : Row → List Row → Type 0
IsOnly r rows = In r rows × All (λ (t : Row). t.id ≡ r.id → t ≡ r) rows

IsOnly-more :
    (r t : Row) (rows : List Row) → IsOnly r rows → admits rows t ≡ true → IsOnly r (t ∷ rows)
unfolding admits
IsOnly-more r t rows (stored, only) fits =
    let differs = All_In _ rows r (fresh-other t rows (ground arith)) stored in
    (inr stored, ((λ same. absurd (differs (sym same))), only))

-- No page has a message with the id.
abbrev pub IsAbsent : String → List DiffRow → Type 0
IsAbsent id page = All (λ (d : DiffRow). d.id ≢ id) page

-- A page has no message that is not in the table.
page-IsAbsent :
    (u : String) (c limit : ℕ) (id : String) (rows : List Row)
    → All (λ (t : Row). t.id ≢ id) rows
    → IsAbsent id (diff_query u (pos c) limit rows)
unfolding project
page-IsAbsent u c limit id rows h =
    All-map (Shows u (pos c) rows) (λ d. d.id ≢ id) (diff_query u (pos c) limit rows)
      (λ d (t, stored, missed, shown) same.
        All_In _ rows t h stored (ap (λ (d : DiffRow). d.id) shown ∙ same))
      (diff_page u (pos c) limit rows).2

-- A page that starts at its number or above has no message that is stored once.
passed-IsAbsent :
    (u : String) (c limit : ℕ) (r : Row) (rows : List Row)
    → IsOnly r rows
    → pts_for u r ≤ c
    → IsAbsent r.id (diff_query u (pos c) limit rows)
unfolding project is_missed
passed-IsAbsent u c limit r rows (_, only) le =
    All-map (Shows u (pos c) rows) (λ d. d.id ≢ r.id) (diff_query u (pos c) limit rows)
      (λ d (t, stored, missed, shown) same.
        let is_r : t ≡ r = All_In _ rows t only stored (ap (λ (d : DiffRow). d.id) shown ∙ same) in
        let above : is_missed u (pos c) r ≡ true = rw is_r at missed in ground (arith, above))
      (diff_page u (pos c) limit rows).2

receiver-missed :
    (u : String) (c : ℕ) (r : Row)
    → r.receiver_id ≡ u
    → c < r.receiver_pts
    → is_missed u (pos c) r ≡ true
unfolding is_missed is_party pts_for
receiver-missed u c r is_u lt = rw is_u (ground (arith, eq_refl u))

module _ (R : Redis) (P : Postgres) (request : ℕ → Request) where
  open P use {rows}

  abbrev pub row : ℕ → ℕ → ℕ → System R P → Row
  row i p q s = let r = request i in new_row R P r.msg_id r.now r.msg p q s.world.db

  -- The INSERT of a call that is acknowledged.
  insert-stored :
      (i p q : ℕ) (s : System R P) (m : PersistedMessage)
      → s.phase i ≡ granted p q
      → (pick R P request i s).phase i ≡ finished (reply m)
      → (rows (pick R P request i s).world.db ≡ row i p q s ∷ rows s.world.db)
        × (admits (rows s.world.db) (row i p q s) ≡ true)
        × (m.receiver_pts ≡ p)
  unfolding pick advance after_allocate
  insert-stored i p q s m ready done =
      let r = request i in
      let answered : (after_allocate R P r.msg_id r.now r.msg (ok (p, q)) s.world.db).0 ≡ reply m =
        ground (arith, ready, done) in
      let stored = store-stored R P r.msg_id r.now r.msg p q s.world.db m answered in
      (
        rw ready stored.0,
        store-admitted R P r.msg_id r.now r.msg p q s.world.db m answered,
        ap (λ m. m.receiver_pts) stored.1,
      )

  other_phase : (i j : ℕ) (s : System R P) → i ≢ j → (pick R P request j s).phase i ≡ s.phase i
  unfolding pick
  other_phase i j s ne = ground arith

  advance-IsOnly :
      (r : Row) (q : Request) (x : Phase) (w : World R P)
      → IsOnly r (rows w.db)
      → IsOnly r (rows (advance R P q x w).1.db)
  unfolding advance
  advance-IsOnly r q started w h = h
  advance-IsOnly r q (got_receiver p) w h = h
  advance-IsOnly r q (got_both p p₂) w h = h
  advance-IsOnly r q (granted p p₂) w h = elim (P.insert_rows (columns q.msg_id q.msg p p₂) w.db) [
    | inl (same, _) ↦ rw same h
    | inr (more, fits) ↦
        rw more
          (IsOnly-more r (row_of (columns q.msg_id q.msg p p₂) (P.clock w.db)) (rows w.db) h fits)
  ]
  advance-IsOnly r q (finished a) w h = h

  Reach-IsOnly :
      (r : Row) {s s' : System R P}
      → IsOnly r (rows s.world.db)
      → Reach R P request s s'
      → IsOnly r (rows s'.world.db)
  unfolding pick
  Reach-IsOnly r h here = h
  Reach-IsOnly r h (next {t} before (picks i e)) =
      rw e (advance-IsOnly r (request i) (t.phase i) t.world (Reach-IsOnly r h before))
  Reach-IsOnly r h (next {t} before (counts user_id e)) = rw e (Reach-IsOnly r h before)

  abbrev pub page : String → ℕ → ℕ → System R P → List DiffRow
  page u c limit s = diff_query u (pos c) limit (rows s.world.db)

  before-IsAbsent :
      (i j p p₂ : ℕ) (s : System R P)
      → admits (rows s.world.db) (row i p p₂ s) ≡ true
      → (c limit : ℕ) → IsAbsent (request i).msg_id (page (request j).msg.receiver_id c limit s)
  unfolding admits
  before-IsAbsent i j p p₂ s fits c limit =
      page-IsAbsent (request j).msg.receiver_id c limit (request i).msg_id (rows s.world.db)
        (fresh-other (row i p p₂ s) (rows s.world.db) (ground arith))

  insert-IsOnly :
      (i p p₂ : ℕ) (s : System R P)
      → rows (pick R P request i s).world.db ≡ row i p p₂ s ∷ rows s.world.db
      → admits (rows s.world.db) (row i p p₂ s) ≡ true
      → IsOnly (row i p p₂ s) (rows (pick R P request i s).world.db)
  unfolding admits
  insert-IsOnly i p p₂ s stored fits =
      let others = fresh-other (row i p p₂ s) (rows s.world.db) (ground arith) in
      rw stored (
        inl refl,
        (
          (λ same. refl),
          All-map _ _ (rows s.world.db) (λ t differs same. absurd (differs same)) others,
        ),
      )

  own_number :
      (i j p p₂ : ℕ) (s : System R P) (c : ℕ)
      → (request i).msg.receiver_id ≡ (request j).msg.receiver_id
      → p ≤ c
      → pts_for (request j).msg.receiver_id (row i p p₂ s) ≤ c
  unfolding pts_for
  own_number i j p p₂ s c same le = rw (same, eq_refl (request j).msg.receiver_id) le

  shown_first :
      (j q q₂ : ℕ) (s : System R P) (m' : PersistedMessage) (c limit : ℕ)
      → let s₁ = pick R P request j s in
        let u = (request j).msg.receiver_id in
        rows s₁.world.db ≡ row j q q₂ s ∷ rows s.world.db
        → m'.receiver_pts ≡ q
        → c < m'.receiver_pts
        → In (project u (row j q q₂ s)) (page u c limit s₁)
          ⊎ ((length (page u c limit s₁) ≡ limit)
              × All (λ (d : DiffRow). d.pts ≤ m'.receiver_pts) (page u c limit s₁))
  unfolding pts_for
  shown_first j q q₂ s m' c limit stored first below =
      let s₁ = pick R P request j s in
      let u = (request j).msg.receiver_id in
      let r = row j q q₂ s in
      let missed = receiver-missed u c r refl (omega arith) in
      elim ((diff_page u (pos c) limit (rows s₁.world.db)).3 r (rw stored (inl refl)) missed) [
        | inl found ↦ inl found
        | inr (full, below_q) ↦ inr (
          full,
          All-map _ _ (page u c limit s₁) (λ d le. ground (arith, le, first, eq_refl u)) below_q,
        )
      ]

  -- When two calls for one receiver come to their INSERT, and the one with the higher number stores
  -- its message first: just before the other stores its message, no page of the receiver has that
  -- message, but a page that the receiver asks for from below the higher number has the message with
  -- this number, or is full with numbers up to it. After that, and through any steps, the other message
  -- is stored and has a lower number, and no page that the receiver asks for from the higher number or
  -- above has it.
  pub overtaken_missed :
      (s : System R P) (i j p p₂ q q₂ : ℕ) (m m' : PersistedMessage)
      → i ≢ j
      → s.phase i ≡ granted p p₂
      → s.phase j ≡ granted q q₂
      → p < q
      → (request i).msg.receiver_id ≡ (request j).msg.receiver_id
      → let s₁ = pick R P request j s in
        let s₂ = pick R P request i s₁ in
        let u = (request j).msg.receiver_id in
        s₁.phase j ≡ finished (reply m')
        → s₂.phase i ≡ finished (reply m)
        → (m.receiver_pts < m'.receiver_pts)
          × ((c limit : ℕ) → IsAbsent (request i).msg_id (page u c limit s₁))
          × ((c limit : ℕ)
              → c < m'.receiver_pts
              → In (project u (row j q q₂ s)) (page u c limit s₁)
                ⊎ ((length (page u c limit s₁) ≡ limit)
                    × All (λ (d : DiffRow). d.pts ≤ m'.receiver_pts) (page u c limit s₁)))
          × ((s₃ : System R P)
              → Reach R P request s₂ s₃
              → In (row i p p₂ s₁) (rows s₃.world.db)
                × ((c limit : ℕ)
                    → m'.receiver_pts ≤ c
                    → IsAbsent (request i).msg_id (page u c limit s₃)))
  overtaken_missed s i j p p₂ q q₂ m m' ne ready_i ready_j lt same done_j done_i =
      let s₁ = pick R P request j s in
      let s₂ = pick R P request i s₁ in
      let (stored_j, _, first) = insert-stored j q q₂ s m' ready_j done_j in
      let still : s₁.phase i ≡ granted p p₂ = other_phase i j s ne ∙ ready_i in
      let (stored_i, fits, second) = insert-stored i p p₂ s₁ m still done_i in
      (
        omega (arith, first, second, lt),
        before-IsAbsent i j p p₂ s₁ fits,
        (λ c limit below. shown_first j q q₂ s m' c limit stored_j first below),
        (λ s₃ reach.
            let only = Reach-IsOnly (row i p p₂ s₁) (insert-IsOnly i p p₂ s₁ stored_i fits) reach in
            (
              only.0,
              λ c limit above.
                  passed-IsAbsent (request j).msg.receiver_id c limit (row i p p₂ s₁)
                    (rows s₃.world.db) only (own_number i j p p₂ s₁ c same (omega arith)),
            )),
      )
