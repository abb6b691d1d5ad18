-- ===== src/MessageService/DbCheck/Exact.antt =====
-- The duplicate queries report nothing exactly when the uniqueness constraint holds.
use tinytelegram.Base.{
  ℕ, suc, ◌≤◌, ◌≡◌, refl, ◌↔◌, String, Bool, true, false, ◌&&◌, List, [], ◌∷◌, arith, ◌==◌, eq_iff,
  eqb, ltb, filter, take, All,
}
use tinytelegram.MessageService.Schema.{Row, is_fresh, admits, IsConsistent}
use tinytelegram.MessageService.DbCheck.{
  Group, in_group, tally, groups, duplicates, duplicate_receiver_pts, duplicate_sender_pts,
}

module _ (user : Row → String) (number : Row → ℕ) where
  abbrev same : Row → Row → Bool
  same r s = (user r == user s) && eqb (number r) (number s)

  -- Each row is alone in its group.
  abbrev pub AllFresh : List Row → Type 0
  AllFresh [] = Unit
  AllFresh (r ∷ rows) = (is_fresh same r rows ≡ true) × AllFresh rows

  abbrev NoGroup : Row → List Group → Type 0
  NoGroup r gs = All (λ g. in_group user number r g ≡ false) gs

  abbrev Small : List Group → Type 0
  Small gs = All (λ g. g.dups ≤ 1) gs

  abbrev Counted : List Group → Type 0
  Counted gs = All (λ (g : Group). 1 ≤ g.dups) gs

  tally-Counted : (r : Row) (gs : List Group) → Counted gs → Counted (tally user number r gs)
  unfolding tally
  tally-Counted r [] h = omega arith
  tally-Counted r (g ∷ gs) h = ground (arith, tally-Counted r gs h.1)

  groups-Counted : (rows : List Row) → Counted (groups user number rows)
  unfolding groups
  groups-Counted [] = tt
  groups-Counted (r ∷ rows) = tally-Counted r (groups user number rows) (groups-Counted rows)

  -- A row is counted in a group of its own exactly if no row below it has its key.
  NoGroup-tally :
      (r s : Row) (gs : List Group)
      → ((same r s ≡ false) × NoGroup r gs) ↔ NoGroup r (tally user number s gs)
  unfolding tally in_group
  NoGroup-tally r s [] = ground (arith, eq_iff (user r) (user s), eq_iff (user s) (user r))
  NoGroup-tally r s (g ∷ gs) = ground (
    arith,
    eq_iff (user r) (user s),
    eq_iff g.user_id (user r),
    eq_iff g.user_id (user s),
    NoGroup-tally r s gs,
  )

  NoGroup-fresh :
      (r : Row) (rows : List Row)
      → NoGroup r (groups user number rows) ↔ (is_fresh same r rows ≡ true)
  unfolding groups is_fresh
  NoGroup-fresh r [] = ((λ _. refl), (λ _. tt))
  NoGroup-fresh r (s ∷ rows) =
      ground (arith, NoGroup-tally r s (groups user number rows), NoGroup-fresh r rows)

  Small-tally :
      (r : Row) (gs : List Group)
      → Counted gs
      → (NoGroup r gs × Small gs) ↔ Small (tally user number r gs)
  unfolding tally
  Small-tally r [] c = ((λ h. omega arith), (λ h. omega arith))
  Small-tally r (g ∷ gs) c = ground (arith, Small-tally r gs c.1)

  Small-groups : (rows : List Row) → AllFresh rows ↔ Small (groups user number rows)
  unfolding groups
  Small-groups [] = ((λ h. h), (λ h. h))
  Small-groups (r ∷ rows) = ground (
    arith,
    Small-tally r (groups user number rows) (groups-Counted rows),
    NoGroup-fresh r rows,
    Small-groups rows,
  )

  reported : (gs : List Group) → Small gs ↔ (filter (λ g. ltb 1 g.dups) gs ≡ [])
  reported [] = ((λ _. refl), (λ _. tt))
  reported (g ∷ gs) = ground (arith, reported gs)

  take_nothing : (n : ℕ) (gs : List Group) → (take (suc n) gs ≡ []) ↔ (gs ≡ [])
  take_nothing n [] = ((λ h. h), (λ h. h))
  take_nothing n (g ∷ gs) = ground arith

  -- A duplicate query, over any choice of the two grouping columns, returns no row exactly when no
  -- two rows of the table agree in those columns.
  pub duplicates_exact : (rows : List Row) → AllFresh rows ↔ (duplicates user number rows ≡ [])
  unfolding duplicates
  duplicates_exact rows =
      let gs = groups user number rows in
      ground (arith, Small-groups rows, reported gs, take_nothing 9 (filter (λ g. ltb 1 g.dups) gs))

fresh_parts :
    (rows : List Row)
    → IsConsistent rows
    → AllFresh (λ r. r.receiver_id) (λ r. r.receiver_pts) rows
      × AllFresh (λ r. r.sender_id) (λ r. r.sender_pts) rows
unfolding admits
fresh_parts [] h = (tt, tt)
fresh_parts (r ∷ rows) h = ground (arith, fresh_parts rows h.1)

-- On a table that keeps its constraints the check reports no duplicate, of either kind.
pub consistent-no_duplicates :
    (rows : List Row)
    → IsConsistent rows
    → (duplicate_receiver_pts rows ≡ []) × (duplicate_sender_pts rows ≡ [])
unfolding duplicate_receiver_pts duplicate_sender_pts
consistent-no_duplicates rows h =
    let fresh = fresh_parts rows h in
    ((duplicates_exact _ _ rows).0 fresh.0, (duplicates_exact _ _ rows).0 fresh.1)
