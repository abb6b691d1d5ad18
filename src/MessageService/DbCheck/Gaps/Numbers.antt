-- ===== src/MessageService/DbCheck/Gaps/Numbers.antt =====
-- The numbers of a receiver that the gap query goes through are those in the table, in order.
use tinytelegram.Base.{
  In, ℕ, ◌≤◌, ◌≡◌, ◌⊎◌, inl, inr, ◌↔◌, String, List, [], ◌∷◌, ◌==◌, eq_iff, arith, leb, leb→le, All,
  Bool-cases,
}
use tinytelegram.MessageService.Schema.{Row}
use tinytelegram.MessageService.DbCheck.Gaps.{insert_number, partition}

-- The user has the number as a receiver.
abbrev pub Received : String → ℕ → List Row → Type 0
Received u n [] = ⊥
Received u n (r ∷ rows) = ((r.receiver_id ≡ u) × (r.receiver_pts ≡ n)) ⊎ Received u n rows

-- The user has no number as a receiver strictly between the two.
abbrev pub NoneBetween : String → ℕ → ℕ → List Row → Type 0
NoneBetween u p q rows =
    All (λ r. r.receiver_id ≡ u → (r.receiver_pts ≤ p) ⊎ (q ≤ r.receiver_pts)) rows

abbrev pub IsAscending : List ℕ → Type 0
IsAscending [] = Unit
IsAscending (n ∷ l) = All (λ m. n ≤ m) l × IsAscending l

insert-In : (x n : ℕ) (l : List ℕ) → In x (insert_number n l) ↔ ((n ≡ x) ⊎ In x l)
unfolding insert_number
insert-In x n [] = ((λ h. h), (λ h. h))
insert-In x n (m ∷ l) = ground (arith, insert-In x n l)

insert-All : (P : ℕ → Type 0) (n : ℕ) (l : List ℕ) → All P (insert_number n l) ↔ (P n × All P l)
unfolding insert_number
insert-All P n [] = ((λ h. h), (λ h. h))
insert-All P n (m ∷ l) = elim (Bool-cases (leb n m)) [
  | inl e ↦ rw e ((λ h. h), (λ h. h))
  | inr e ↦
      let (to, from) = insert-All P n l in
      rw e ((λ h. ((to h.1).0, (h.0, (to h.1).1))), (λ h. (h.1.0, from (h.0, h.1.1))))
]

All-le : (n m : ℕ) (l : List ℕ) → n ≤ m → All (λ x. m ≤ x) l → All (λ x. n ≤ x) l
All-le n m [] le h = tt
All-le n m (x ∷ l) le h = (omega arith, All-le n m l le h.1)

insert-IsAscending : (n : ℕ) (l : List ℕ) → IsAscending l → IsAscending (insert_number n l)
unfolding insert_number
insert-IsAscending n [] h = (tt, tt)
insert-IsAscending n (m ∷ l) h = elim (Bool-cases (leb n m)) [
  | inl e ↦ let le = leb→le n m e in rw e ((le, All-le n m l le h.0), h)
  | inr e ↦ rw e ((insert-All (λ x. m ≤ x) n l).1 (ground arith, h.0), insert-IsAscending n l h.1)
]

pub partition-IsAscending : (u : String) (rows : List Row) → IsAscending (partition u rows)
unfolding partition
partition-IsAscending u [] = tt
partition-IsAscending u (r ∷ rows) = elim (Bool-cases (r.receiver_id == u)) [
  | inl e ↦
      rw e (insert-IsAscending r.receiver_pts (partition u rows) (partition-IsAscending u rows))
  | inr e ↦ rw e (partition-IsAscending u rows)
]

pub partition-In :
    (u : String) (n : ℕ) (rows : List Row) → In n (partition u rows) ↔ Received u n rows
unfolding partition
partition-In u n [] = ((λ h. h), (λ h. h))
partition-In u n (r ∷ rows) = ground (
  arith,
  eq_iff r.receiver_id u,
  partition-In u n rows,
  insert-In n r.receiver_pts (partition u rows),
)

-- No number of the partition lies strictly between the two.
abbrev pub Apart : ℕ → ℕ → List ℕ → Type 0
Apart p q l = All (λ n. (n ≤ p) ⊎ (q ≤ n)) l

pub partition-Apart :
    (u : String) (p q : ℕ) (rows : List Row) → Apart p q (partition u rows) ↔ NoneBetween u p q rows
unfolding partition
partition-Apart u p q [] = ((λ h. h), (λ h. h))
partition-Apart u p q (r ∷ rows) = ground (
  arith,
  eq_iff r.receiver_id u,
  partition-Apart u p q rows,
  insert-All (λ n. (n ≤ p) ⊎ (q ≤ n)) r.receiver_pts (partition u rows),
)
