-- ===== src/MessageService/DiffQuery/Rows.antt =====
-- The order of the rows in the table, which SQL leaves open, against the page that the SELECT returns.
use mathlib.Core.List.{Perm, Permᴰ}
use mathlib.Core.Logic.{∥∥₁_elim}
use mathlib.Core.Path.{subst}
use mathlib.Core.HLevel.{hedberg}
use native.Mathlib.Nat.{ℕ_set}
use tinytelegram.Base.{
  ℕ, ◌≡◌, ◌≢◌, refl, ap, sym, ◌∙◌, String, true, List, [], ◌∷◌, map, arith, filter, take, All, ◌==◌,
  eq_iff, inl, inr, Bool-cases, if◌then◌else◌,
}
use tinytelegram.Base.Int.{ℤ}
use tinytelegram.MessageService.Schema.{Row}
use tinytelegram.MessageService.DiffQuery.{
  DiffRow, pts_for, is_party, is_missed, project, place, order_by_pts, diff_query,
}

-- Two rows of the user have two numbers.
abbrev pub NumbersDiffer : String → List Row → Type 0
NumbersDiffer u [] = Unit
NumbersDiffer u (r ∷ rows) =
    (is_party u r ≡ true → All (λ s. is_party u s ≡ true → pts_for u s ≢ pts_for u r) rows)
    × NumbersDiffer u rows

-- The rows with one more in its place.
place_comm :
    (r s : DiffRow) (l : List DiffRow) → r.pts ≢ s.pts → place r (place s l) ≡ place s (place r l)
unfolding place
place_comm r s [] differ = ground arith
place_comm r s (t ∷ l) differ = ground (arith, place_comm r s l differ)

String_discrete : Discrete String
String_discrete s t = elim (Bool-cases (s == t)) [
  | inl e ↦ yes ((eq_iff s t).0 e)
  | inr e ↦ no (λ same. absurd (ground (arith, (eq_iff s t).1 same)))
]

rows_set : IsSet (List DiffRow)
rows_set = hlevel (hedberg String_discrete, ℕ_set)

module _ (u : String) (c : ℤ) where
  abbrev ordered : List Row → List DiffRow
  ordered table = order_by_pts (map (project u) (filter (is_missed u c) table))

  add : Row → List DiffRow → List DiffRow
  add r l = if is_missed u c r then place (project u r) l else l

  ordered-add : (r : Row) (table : List Row) → ordered (r ∷ table) ≡ add r (ordered table)
  unfolding add order_by_pts
  ordered-add r table = elim (Bool-cases (is_missed u c r)) [
    | inl e ↦ rw e refl
    | inr e ↦ rw e refl
  ]

  missed-party : (r : Row) → is_missed u c r ≡ true → is_party u r ≡ true
  unfolding is_missed
  missed-party r h = ground arith

  add_comm :
      (r s : Row) (table : List Row) (l : List DiffRow)
      → NumbersDiffer u (r ∷ s ∷ table)
      → add r (add s l) ≡ add s (add r l)
  unfolding add project
  add_comm r s table l h = elim (Bool-cases (is_missed u c r)) [
    | inr e ↦ rw e refl
    | inl e ↦ elim (Bool-cases (is_missed u c s)) [
      | inr f ↦ rw (e, f) refl
      | inl f ↦
          rw (e, f)
            (place_comm (project u r) (project u s) l
              (λ same. (h.0 (missed-party r e)).0 (missed-party s f) (sym same)))
    ]
  ]

  All-Permᴰ : (P : Row → Type 0) {t t' : List Row} → Permᴰ t t' → All P t → All P t'
  All-Permᴰ P Permᴰ.nil h = tt
  All-Permᴰ P (Permᴰ.cons e p) h = (subst P e h.0, All-Permᴰ P p h.1)
  All-Permᴰ P (Permᴰ.swap e f) h = (subst P f h.1.0, (subst P e h.0, h.1.1))
  All-Permᴰ P (Permᴰ.trans p q) h = All-Permᴰ P q (All-Permᴰ P p h)

  differ-swap :
      (r s : Row) (table : List Row)
      → NumbersDiffer u (r ∷ s ∷ table)
      → NumbersDiffer u (s ∷ r ∷ table)
  differ-swap r s table h = (
    λ party_s. ((λ party_r same. (h.0 party_r).0 party_s (sym same)), h.1.0 party_s),
    ((λ party_r. (h.0 party_r).1), h.1.1),
  )

  NumbersDiffer-Permᴰ : {t t' : List Row} → Permᴰ t t' → NumbersDiffer u t → NumbersDiffer u t'
  NumbersDiffer-Permᴰ Permᴰ.nil h = h
  NumbersDiffer-Permᴰ (Permᴰ.cons {a} {b} e p) h =
      rw (← e) ((λ party. All-Permᴰ _ p (h.0 party)), NumbersDiffer-Permᴰ p h.1)
  NumbersDiffer-Permᴰ (Permᴰ.swap {a} {b} {b' = b'} {l = l} e f) h =
      subst (λ x. NumbersDiffer u (x ∷ b' ∷ l)) f
        (subst (λ x. NumbersDiffer u (b ∷ x ∷ l)) e (differ-swap a b l h))
  NumbersDiffer-Permᴰ (Permᴰ.trans p q) h = NumbersDiffer-Permᴰ q (NumbersDiffer-Permᴰ p h)

  ordered-Permᴰ : {t t' : List Row} → Permᴰ t t' → NumbersDiffer u t → ordered t ≡ ordered t'
  ordered-Permᴰ Permᴰ.nil h = refl
  ordered-Permᴰ (Permᴰ.cons {a} {b} {l₁} {l₂} e p) h =
      ordered-add a l₁ ∙ ap (add a) (ordered-Permᴰ p h.1) ∙ rw e (sym (ordered-add b l₂))
  ordered-Permᴰ (Permᴰ.swap {a} {b} {l = l} e f) h =
      ordered-add a (b ∷ l)
      ∙ ap (add a) (ordered-add b l)
      ∙ add_comm a b l (ordered l) h
      ∙ ap (add b) (sym (ordered-add a l))
      ∙ sym (ordered-add b (a ∷ l))
      ∙ rw (e, f) refl
  ordered-Permᴰ (Permᴰ.trans p q) h = ordered-Permᴰ p h ∙ ordered-Permᴰ q (NumbersDiffer-Permᴰ p h)

  -- The SELECT returns the same page for a table with the same rows in another order.
  pub diff_query-Perm :
      (limit : ℕ) (table table' : List Row)
      → NumbersDiffer u table
      → Perm table table'
      → diff_query u c limit table ≡ diff_query u c limit table'
  unfolding diff_query
  diff_query-Perm limit table table' h same =
      ap (take limit) (∥∥₁_elim same (rows_set _ _) (λ p. ordered-Permᴰ p h))
