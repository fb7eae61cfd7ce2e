-- ===== src/Jobs/Queue.antt =====
-- The order of the queue: which jobs the reads of srv/blockchain/wallet-worker/job-store.ts return, and in
-- which order.
use odatano.Base.{
  ℕ, ◌≡◌, refl, ◌⊎◌, inl, inr, Bool, true, false, Option, none, some, List, [], ◌∷◌, ◌&&◌, ◌==◌,
  arith, length, keep, All, if_ind,
}
use odatano.Jobs.{JobStatus, JobRow, Db, status_eq}
use odatano.Jobs.Creation.{sooner, place, order_by, has_status, is_due, find_due_jobs, first_of}

-- How many rows pass.
abbrev pub count : (JobRow → Bool) → List JobRow → ℕ
count p rs = length (keep p rs)

All-keep :
    (P : JobRow → Type 0) (q : JobRow → Bool) (rs : List JobRow) → All P rs → All P (keep q rs)
All-keep P q [] h = tt
All-keep P q (r ∷ rs) h = ground (arith, All-keep P q rs)

module _ (before : JobRow → JobRow → Bool) where
  -- No later row comes before an earlier one.
  abbrev pub IsOrdered : List JobRow → Type 0
  IsOrdered [] = Unit
  IsOrdered (r ∷ rs) = All (λ s. before s r ≡ false) rs × IsOrdered rs

  All-place :
      (P : JobRow → Type 0) (r : JobRow) (rs : List JobRow)
      → P r
      → All P rs
      → All P (place before r rs)
  All-place P r [] p h = (p, tt)
  All-place P r (s ∷ rs) p h =
      if_ind (All P) (before s r) (λ e. (h.0, All-place P r rs p h.1)) (λ e. (p, h))

  IsOrdered-keep : (q : JobRow → Bool) (rs : List JobRow) → IsOrdered rs → IsOrdered (keep q rs)
  IsOrdered-keep q [] h = tt
  IsOrdered-keep q (r ∷ rs) h =
      if_ind IsOrdered (q r)
        (λ e. (All-keep (λ s. before s r ≡ false) q rs h.0, IsOrdered-keep q rs h.1))
        (λ e. IsOrdered-keep q rs h.1)

  -- `before` is an order in which rows may tie.
  module _ (asym : (r s : JobRow) → before r s ≡ true → before s r ≡ false)
      (join : (r s t : JobRow) → before s r ≡ false → before t s ≡ false → before t r ≡ false) where
    all_after :
        (r s : JobRow) (rs : List JobRow)
        → before s r ≡ false
        → All (λ t. before t s ≡ false) rs
        → All (λ t. before t r ≡ false) rs
    all_after r s [] e h = tt
    all_after r s (t ∷ rs) e h = (join r s t e h.0, all_after r s rs e h.1)

    place-IsOrdered : (r : JobRow) (rs : List JobRow) → IsOrdered rs → IsOrdered (place before r rs)
    place-IsOrdered r [] h = (tt, tt)
    place-IsOrdered r (s ∷ rs) h =
        if_ind IsOrdered (before s r)
          (λ e.
            (All-place (λ t. before t s ≡ false) r rs (asym s r e) h.0, place-IsOrdered r rs h.1))
          (λ e. ((e, all_after r s rs e h.0), h))

    order_by-IsOrdered : (rs : List JobRow) → IsOrdered (order_by before rs)
    order_by-IsOrdered [] = tt
    order_by-IsOrdered (r ∷ rs) = place-IsOrdered r (order_by before rs) (order_by-IsOrdered rs)

sooner_join : (r s t : JobRow) → sooner s r ≡ false → sooner t s ≡ false → sooner t r ≡ false
sooner_join r s t h k = ground (arith, h, k)

All-order_by :
    (before : JobRow → JobRow → Bool) (P : JobRow → Type 0) (rs : List JobRow)
    → All P rs
    → All P (order_by before rs)
All-order_by before P [] h = tt
All-order_by before P (r ∷ rs) h =
    All-place before P r (order_by before rs) h.0 (All-order_by before P rs h.1)

-- What holds of a sorted list's rows holds of the list's.
placed :
    (before : JobRow → JobRow → Bool) (P : JobRow → Type 0) (r : JobRow) (rs : List JobRow)
    → All P (place before r rs)
    → P r × All P rs
placed before P r [] h = h
placed before P r (s ∷ rs) h =
    if_ind (λ (l : List JobRow). All P l → P r × All P (s ∷ rs)) (before s r)
      (λ e k. let later = placed before P r rs k.1 in (later.0, (k.0, later.1))) (λ e k. k) h

ordered :
    (before : JobRow → JobRow → Bool) (P : JobRow → Type 0) (rs : List JobRow)
    → All P (order_by before rs)
    → All P rs
ordered before P [] h = tt
ordered before P (r ∷ rs) h =
    let (first, rest) = placed before P r (order_by before rs) h in
    (first, ordered before P rs rest)

-- What holds of the rows that pass.
kept :
    (P : JobRow → Type 0) (q : JobRow → Bool) (rs : List JobRow)
    → All P (keep q rs)
    → All (λ r. q r ≡ true → P r) rs
kept P q [] h = tt
kept P q (r ∷ rs) h =
    if_ind (λ (l : List JobRow). All P l → All (λ r. q r ≡ true → P r) (r ∷ rs)) (q r)
      (λ e k. ((λ x. k.0), kept P q rs k.1)) (λ e k. ((λ x. ground (arith, e, x)), kept P q rs k)) h

own : (q : JobRow → Bool) (rs : List JobRow) → All (λ r. q r ≡ true) (keep q rs)
own q [] = tt
own q (r ∷ rs) = if_ind (All (λ r. q r ≡ true)) (q r) (λ e. (e, own q rs)) (λ e. own q rs)

abbrev pub IsIn : JobRow → List JobRow → Type 0
IsIn r [] = ⊥
IsIn r (q ∷ rs) = (r ≡ q) ⊎ IsIn r rs

widen : (q : JobRow) (xs rs : List JobRow) → All (λ r. IsIn r rs) xs → All (λ r. IsIn r (q ∷ rs)) xs
widen q [] rs h = tt
widen q (x ∷ xs) rs h = (inr h.0, widen q xs rs h.1)

all-IsIn : (rs : List JobRow) → All (λ r. IsIn r rs) rs
all-IsIn [] = tt
all-IsIn (r ∷ rs) = (inl refl, widen r rs rs (all-IsIn rs))

-- What holds of the rows holds of them under another name.
pub All-map :
    {P Q : JobRow → Type 0} (rs : List JobRow) → ((r : JobRow) → P r → Q r) → All P rs → All Q rs
All-map [] f h = tt
All-map (r ∷ rs) f h = (f r h.0, All-map rs f h.1)

module _ (before : JobRow → JobRow → Bool) (q : JobRow → Bool) (rs : List JobRow) where
  -- The row is one of the table that passes, and no other that passes comes before it; or none passes.
  abbrev pub IsFirst : Option JobRow → Type 0
  IsFirst none = All (λ r. q r ≡ false) rs
  IsFirst (some r) = IsIn r rs × (q r ≡ true) × All (λ s. q s ≡ true → before s r ≡ false) rs

  none_passes : (rs : List JobRow) → All (λ r. q r ≡ true → ⊥) rs → All (λ r. q r ≡ false) rs
  none_passes [] h = tt
  none_passes (r ∷ rs) h = (ground (arith, h.0), none_passes rs h.1)

  -- The head of an ordered list of all rows that pass.
  pub first_lem :
      (xs : List JobRow)
      → ((r : JobRow) → before r r ≡ false)
      → IsOrdered before xs
      → All (λ r. IsIn r rs) xs
      → All (λ r. q r ≡ true) xs
      → ((P : JobRow → Type 0) → All P xs → All (λ r. q r ≡ true → P r) rs)
      → IsFirst (first_of xs)
  first_lem [] irr sorted in_table its back = none_passes rs (back (λ r. ⊥) tt)
  first_lem (r ∷ xs) irr sorted in_table its back =
      (in_table.0, its.0, back (λ s. before s r ≡ false) (irr r, sorted.0))

abbrev pub of_wallet : ℕ → JobRow → Bool
of_wallet w r = r.wallet_id == w

-- A job that the wallet could start with.
abbrev pub is_runnable : ℕ → ℕ → JobRow → Bool
is_runnable w now r = of_wallet w r && is_due now r && status_eq r.status JobStatus.pending

pub next_of_wallet :
    (w now : ℕ) (d : Db)
    → IsFirst sooner
        (is_runnable w now)
        d.jobs
        (first_of (keep (of_wallet w) (find_due_jobs now d)))
unfolding find_due_jobs
next_of_wallet w now d =
    let rows = keep (has_status JobStatus.pending) d.jobs in
    let due = keep (is_due now) (order_by sooner rows) in
    let In = λ (r : JobRow). IsIn r d.jobs in
    let all_of : (P : JobRow → Type 0) → All P rows → All P (keep (of_wallet w) due) = λ P h.
      All-keep P (of_wallet w) due
        (All-keep P (is_due now) (order_by sooner rows) (All-order_by sooner P rows h)) in
    let are_pending =
      all_of (λ r. has_status JobStatus.pending r ≡ true)
        (own (has_status JobStatus.pending) d.jobs) in
    let are_due =
      All-keep (λ r. is_due now r ≡ true) (of_wallet w) due
        (own (is_due now) (order_by sooner rows)) in
    first_lem sooner (is_runnable w now) d.jobs (keep (of_wallet w) due) (λ r. ground arith)
      (IsOrdered-keep sooner (of_wallet w) due (
        IsOrdered-keep sooner (is_due now) (order_by sooner rows)
          (order_by-IsOrdered sooner (λ r s e. ground (arith, e)) sooner_join rows)))
      (all_of In (All-keep In (has_status JobStatus.pending) d.jobs (all-IsIn d.jobs)))
      (all_three (keep (of_wallet w) due) (own (of_wallet w) due) are_due are_pending)
      (λ P h.
        All-map d.jobs (λ r k e. k (ground (arith, e)) (ground (arith, e)) (ground (arith, e)))
          (kept (λ r. is_due now r ≡ true → of_wallet w r ≡ true → P r)
            (has_status JobStatus.pending) d.jobs
            (ordered sooner (λ r. is_due now r ≡ true → of_wallet w r ≡ true → P r) rows
              (kept (λ r. of_wallet w r ≡ true → P r) (is_due now) (order_by sooner rows)
                (kept P (of_wallet w) due h)))))
  where
    all_three :
        (rs : List JobRow)
        → All (λ r. of_wallet w r ≡ true) rs
        → All (λ r. is_due now r ≡ true) rs
        → All (λ r. has_status JobStatus.pending r ≡ true) rs
        → All (λ r. is_runnable w now r ≡ true) rs
    all_three [] a b c = tt
    all_three (r ∷ rs) a b c = (ground (arith, a.0, b.0, c.0), all_three rs a.1 b.1 c.1)
