-- ===== src/MessageService/DbCheck/Gaps/Found.antt =====
-- What the gap query reports.
use mathlib.Core.Path.{subst}
use tinytelegram.Base.{
  In, All_In, ℕ, zero, length, suc, ◌-◌, ◌≤◌, ◌<◌, ◌≡◌, refl, sym, ap, ◌⊎◌, inl, inr, ◌↔◌, String,
  true, List, [], ◌∷◌, ◌++◌, eq_iff, arith, leb, ltb, leb→le, lt→ltb, take, All, Bool-cases,
}
use tinytelegram.MessageService.Schema.{Row}
use tinytelegram.MessageService.DbCheck.Gaps.{
  Gap, gap_of, partition, lag_gaps, partition_gaps, is_among, receivers, all_gaps, insert_gap,
  order_by_gap, gap_limit, receiver_pts_gaps,
}
use tinytelegram.MessageService.DbCheck.Gaps.Numbers.{
  Received, NoneBetween, IsAscending, Apart, partition-IsAscending, partition-In, partition-Apart,
}

-- The two numbers are next to each other in the list, and they differ by more than 1.
abbrev IsJump : ℕ → ℕ → List ℕ → Type 0
IsJump p q l = In p l × In q l × (suc p < q) × Apart p q l

Apart-above : (p q : ℕ) (l : List ℕ) → All (λ m. q ≤ m) l → Apart p q l
Apart-above p q [] h = tt
Apart-above p q (m ∷ l) h = (inr h.0, Apart-above p q l h.1)

IsJump-first : (p q : ℕ) (l : List ℕ) → IsAscending (p ∷ q ∷ l) → suc p < q → IsJump p q (p ∷ q ∷ l)
IsJump-first p q l asc far = (
  inl refl,
  inr (inl refl),
  far,
  (inl (omega arith), (inr (omega arith), Apart-above p q l asc.1.0)),
)

IsJump-later : (a b p : ℕ) (l : List ℕ) → IsAscending (p ∷ l) → IsJump a b l → IsJump a b (p ∷ l)
IsJump-later a b p l asc (has_a, has_b, far, apart) =
    (inr has_a, inr has_b, far, (inl (All_In (λ m. p ≤ m) l a asc.0 has_a), apart))

IsJump-cases :
    (a b p q : ℕ) (l : List ℕ)
    → IsAscending (p ∷ q ∷ l)
    → IsJump a b (p ∷ q ∷ l)
    → ((a ≡ p) × (b ≡ q)) ⊎ IsJump a b (q ∷ l)
IsJump-cases a b p q l asc h =
    ground (arith, All_In (λ m. q ≤ m) l a asc.1.0, All_In (λ m. q ≤ m) l b asc.1.0)

lag-IsJump :
    (u : String) (g : Gap) (p : ℕ) (l : List ℕ)
    → IsAscending (p ∷ l)
    → In g (lag_gaps u p l)
    → (g ≡ gap_of u g.prev g.receiver_pts) × IsJump g.prev g.receiver_pts (p ∷ l)
unfolding lag_gaps
lag-IsJump u g p [] asc h = absurd h
lag-IsJump u g p (q ∷ l) asc h =
    let later : In g (lag_gaps u q l)
        → (g ≡ gap_of u g.prev g.receiver_pts) × IsJump g.prev g.receiver_pts (p ∷ q ∷ l) =
      λ i.
        let (made, jump) = lag-IsJump u g q l asc.1 i in
        (made, IsJump-later g.prev g.receiver_pts p (q ∷ l) asc jump) in
    elim (Bool-cases (ltb 1 (q - p))) [
      | inr e ↦ later (rw e at h)
      | inl e ↦ elim (rw e at h) [
        | inr i ↦ later i
        | inl same ↦
            subst
              (λ (g : Gap).
                (g ≡ gap_of u g.prev g.receiver_pts) × IsJump g.prev g.receiver_pts (p ∷ q ∷ l))
              same (refl, IsJump-first p q l asc (ground arith))
      ]
    ]

IsJump-lag :
    (u : String) (a b p : ℕ) (l : List ℕ)
    → IsAscending (p ∷ l)
    → IsJump a b (p ∷ l)
    → In (gap_of u a b) (lag_gaps u p l)
unfolding lag_gaps
IsJump-lag u a b p [] asc h = ground arith
IsJump-lag u a b p (q ∷ l) asc h = elim (IsJump-cases a b p q l asc h) [
  | inl (at_p, at_q) ↦
      rw (at_p, at_q) (rw (lt→ltb 1 (q - p) (omega (arith, h.2, at_p, at_q))) (inl refl))
  | inr later ↦
      let found = IsJump-lag u a b q l asc.1 later in
      elim (Bool-cases (ltb 1 (q - p))) [ inl e ↦ rw e (inr found) | inr e ↦ rw e found ]
]

partition-gaps :
    (u : String) (g : Gap) (l : List ℕ)
    → IsAscending l
    → In g (partition_gaps u l)
    → (g ≡ gap_of u g.prev g.receiver_pts) × IsJump g.prev g.receiver_pts l
unfolding partition_gaps
partition-gaps u g [] asc h = absurd h
partition-gaps u g (p ∷ l) asc h = lag-IsJump u g p l asc h

gaps-partition :
    (u : String) (a b : ℕ) (l : List ℕ)
    → IsAscending l
    → IsJump a b l
    → In (gap_of u a b) (partition_gaps u l)
unfolding partition_gaps
gaps-partition u a b [] asc h = ground arith
gaps-partition u a b (p ∷ l) asc h = IsJump-lag u a b p l asc h

-- A user has two numbers as a receiver that differ by more than 1, and none strictly between them.
abbrev pub IsGap : Gap → List Row → Type 0
IsGap g rows =
    (g.gap ≡ g.receiver_pts - g.prev)
    × Received g.receiver_id g.prev rows
    × Received g.receiver_id g.receiver_pts rows
    × (suc g.prev < g.receiver_pts)
    × NoneBetween g.receiver_id g.prev g.receiver_pts rows

append-In : {A : Type 0} (x : A) (l m : List A) → In x (l ++ m) ↔ (In x l ⊎ In x m)
append-In x [] m = ground arith
append-In x (y ∷ l) m = ground (arith, append-In x l m)

partition-IsGap :
    (u : String) (g : Gap) (rows : List Row)
    → In g (partition_gaps u (partition u rows))
    → (g.receiver_id ≡ u) × IsGap g rows
partition-IsGap u g rows h =
    let l = partition u rows in
    let (made, (has_p, has_q, far, apart)) =
      partition-gaps u g l (partition-IsAscending u rows) h in
    let same : g.receiver_id ≡ u = ap (λ h. h.receiver_id) made in
    (
      same,
      (
        ap (λ h. h.gap) made,
        rw same ((partition-In u g.prev rows).0 has_p),
        rw same ((partition-In u g.receiver_pts rows).0 has_q),
        far,
        rw same ((partition-Apart u g.prev g.receiver_pts rows).0 apart),
      ),
    )

IsGap-partition :
    (g : Gap) (rows : List Row)
    → IsGap g rows
    → In g (partition_gaps g.receiver_id (partition g.receiver_id rows))
IsGap-partition g rows (gap, has_p, has_q, far, none) =
    let u = g.receiver_id in
    let made : gap_of u g.prev g.receiver_pts ≡ g = ap (λ n. record g { gap = n }) (sym gap) in
    subst (λ h. In h (partition_gaps u (partition u rows))) made
      (gaps-partition u g.prev g.receiver_pts (partition u rows) (partition-IsAscending u rows) (
        (partition-In u g.prev rows).1 has_p,
        (partition-In u g.receiver_pts rows).1 has_q,
        far,
        (partition-Apart u g.prev g.receiver_pts rows).1 none,
      ))

all-IsGap : (us : List String) (g : Gap) (rows : List Row) → In g (all_gaps us rows) → IsGap g rows
unfolding all_gaps
all-IsGap [] g rows h = absurd h
all-IsGap (u ∷ us) g rows h =
    elim ((append-In g (partition_gaps u (partition u rows)) (all_gaps us rows)).0 h) [
      | inl i ↦ (partition-IsGap u g rows i).1
      | inr i ↦ all-IsGap us g rows i
    ]

IsGap-all :
    (us : List String) (g : Gap) (rows : List Row)
    → In g.receiver_id us
    → IsGap g rows
    → In g (all_gaps us rows)
unfolding all_gaps
IsGap-all [] g rows i h = absurd i
IsGap-all (u ∷ us) g rows i h =
    (append-In g (partition_gaps u (partition u rows)) (all_gaps us rows)).1 (elim i [
      | inl same ↦ inl (
          subst (λ v. In g (partition_gaps v (partition v rows))) (sym same)
            (IsGap-partition g rows h))
      | inr later ↦ inr (IsGap-all us g rows later h)
    ])

among-In : (u : String) (us : List String) → is_among u us ≡ true → In u us
among-In u [] h = ground arith
among-In u (v ∷ us) h = ground (arith, eq_iff u v, among-In u us)

receivers-Received :
    (u : String) (n : ℕ) (rows : List Row) → Received u n rows → In u (receivers rows)
unfolding receivers
receivers-Received u n [] h = h
receivers-Received u n (r ∷ rows) h =
    ground (arith, receivers-Received u n rows, among-In r.receiver_id (receivers rows))

-- The gaps in order, the widest first.
abbrev IsDescending : List Gap → Type 0
IsDescending [] = Unit
IsDescending (g ∷ l) = All (λ h. h.gap ≤ g.gap) l × IsDescending l

insert-In : (x g : Gap) (l : List Gap) → In x (insert_gap g l) ↔ ((g ≡ x) ⊎ In x l)
unfolding insert_gap
insert-In x g [] = ((λ h. h), (λ h. h))
insert-In x g (h ∷ l) = ground (arith, insert-In x g l)

order-In : (x : Gap) (l : List Gap) → In x (order_by_gap l) ↔ In x l
unfolding order_by_gap
order-In x [] = ((λ h. h), (λ h. h))
order-In x (g ∷ l) = ground (arith, order-In x l, insert-In x g (order_by_gap l))

All-intro : (P : Gap → Type 0) (l : List Gap) → ((x : Gap) → In x l → P x) → All P l
All-intro P [] f = tt
All-intro P (x ∷ l) f = (f x (inl refl), All-intro P l (λ y i. f y (inr i)))

insert-IsDescending : (g : Gap) (l : List Gap) → IsDescending l → IsDescending (insert_gap g l)
unfolding insert_gap
insert-IsDescending g [] d = (tt, tt)
insert-IsDescending g (h ∷ l) d =
    let below = λ (x : Gap) (i : In x l). All_In (λ y. y.gap ≤ h.gap) l x d.0 i in
    elim (Bool-cases (leb h.gap g.gap)) [
      | inl e ↦
          let le = leb→le h.gap g.gap e in
          rw e ((le, All-intro (λ y. y.gap ≤ g.gap) l (λ x i. omega (arith, below x i))), d)
      | inr e ↦ rw e (
        All-intro (λ y. y.gap ≤ h.gap) (insert_gap g l)
            (λ x i. ground (arith, (insert-In x g l).0 i, below x)),
        insert-IsDescending g l d.1,
      )
    ]

order-IsDescending : (l : List Gap) → IsDescending (order_by_gap l)
unfolding order_by_gap
order-IsDescending [] = tt
order-IsDescending (g ∷ l) = insert-IsDescending g (order_by_gap l) (order-IsDescending l)

In-take : (n : ℕ) (l : List Gap) (x : Gap) → In x (take n l) → In x l
In-take zero l x i = absurd i
In-take (suc n) [] x i = i
In-take (suc n) (y ∷ l) x (inl e) = inl e
In-take (suc n) (y ∷ l) x (inr i) = inr (In-take n l x i)

-- What is cut off comes after a whole page.
take-In :
    (n : ℕ) (l : List Gap) (x : Gap)
    → IsDescending l
    → In x l
    → In x (take n l) ⊎ ((length (take n l) ≡ n) × All (λ (y : Gap). x.gap ≤ y.gap) (take n l))
take-In zero l x d i = inr (refl, tt)
take-In (suc n) [] x d i = absurd i
take-In (suc n) (y ∷ l) x d (inl e) = inl (inl e)
take-In (suc n) (y ∷ l) x d (inr i) = elim (take-In n l x d.1 i) [
  | inl j ↦ inl (inr j)
  | inr (full, wide) ↦ inr (ap (λ k. suc k) full, (All_In (λ z. z.gap ≤ y.gap) l x d.0 i, wide))
]

-- The gap query reports only gaps in the numbers that a user has as a receiver, whatever numbers the user
-- has as a sender, and a gap that it does not report comes after 20 reported ones that are at
-- least as wide.
pub gaps_exact :
    (g : Gap) (rows : List Row)
    → let page = receiver_pts_gaps rows in
      (In g page → IsGap g rows)
      × (IsGap g rows
          → In g page ⊎ ((length page ≡ gap_limit) × All (λ (h : Gap). g.gap ≤ h.gap) page))
unfolding receiver_pts_gaps
gaps_exact g rows =
    let us = receivers rows in
    let l = all_gaps us rows in
    (
      (λ i. all-IsGap us g rows ((order-In g l).0 (In-take gap_limit (order_by_gap l) g i))),
      (λ h.
          let listed = receivers-Received g.receiver_id g.prev rows h.1 in
          take-In gap_limit (order_by_gap l) g (order-IsDescending l)
            ((order-In g l).1 (IsGap-all us g rows listed h))),
    )
