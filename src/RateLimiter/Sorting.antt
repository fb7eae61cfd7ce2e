-- ===== src/RateLimiter/Sorting.antt =====
-- The sort of the recorded hits: length, order and first element.
use odatano.Base.{
  ℕ, suc, ◌≤◌, ◌≡◌, refl, inl, inr, List, [], ◌∷◌, arith, leb, length, if◌then◌else◌, Bool-cases,
  All,
}
use odatano.RateLimiter.{Wait, ms, infinity, sort, insert_sorted, minimum}

length-insert_sorted : (t : ℕ) (ts : List ℕ) → length (insert_sorted t ts) ≡ suc (length ts)
length-insert_sorted t [] = refl
length-insert_sorted t (u ∷ us) = ground (arith, length-insert_sorted t us)

pub length-sort : (ts : List ℕ) → length (sort ts) ≡ length ts
length-sort [] = refl
length-sort (t ∷ ts) = omega (arith, length-insert_sorted t (sort ts), length-sort ts)

-- The first of the sorted hits is the least one.
abbrev pub IsSorted : List ℕ → Type 0
IsSorted [] = Unit
IsSorted (t ∷ ts) = All (λ u. t ≤ u) ts × IsSorted ts

module _ (P : ℕ → Type 0) where
  All-insert_sorted : (t : ℕ) (ts : List ℕ) → P t → All P ts → All P (insert_sorted t ts)
  All-insert_sorted t [] p h = (p, tt)
  All-insert_sorted t (u ∷ us) p h = ground (arith, All-insert_sorted t us p h.1)

  pub All-sort : (ts : List ℕ) → All P ts → All P (sort ts)
  All-sort [] h = tt
  All-sort (t ∷ ts) h = All-insert_sorted t (sort ts) h.0 (All-sort ts h.1)

All-le : (t u : ℕ) (us : List ℕ) → t ≤ u → All (λ v. u ≤ v) us → All (λ v. t ≤ v) us
All-le t u [] h k = tt
All-le t u (v ∷ us) h k = (omega arith, All-le t u us h k.1)

insert_sorted-IsSorted : (t : ℕ) (ts : List ℕ) → IsSorted ts → IsSorted (insert_sorted t ts)
insert_sorted-IsSorted t [] h = (tt, tt)
insert_sorted-IsSorted t (u ∷ us) h = elim (Bool-cases (leb t u)) [
  | inl le ↦ rw le ((ground arith, All-le t u us (ground arith) h.0), h)
  | inr gt ↦
      rw gt
        (All-insert_sorted (λ v. u ≤ v) t us (ground arith) h.0, insert_sorted-IsSorted t us h.1)
]

pub sort-IsSorted : (ts : List ℕ) → IsSorted (sort ts)
sort-IsSorted [] = tt
sort-IsSorted (t ∷ ts) = insert_sorted-IsSorted t (sort ts) (sort-IsSorted ts)

abbrev pub least : List ℕ → Wait
least [] = infinity
least (t ∷ ts) = ms t

least-insert_sorted :
    (t : ℕ) (ts : List ℕ)
    → least (insert_sorted t ts)
      ≡ (elim (least ts) [ infinity ↦ ms t | ms u ↦ ms (if leb t u then t else u) ])
least-insert_sorted t [] = refl
least-insert_sorted t (u ∷ us) = ground arith

pub minimum-sort : (ts : List ℕ) → minimum ts ≡ least (sort ts)
minimum-sort [] = refl
minimum-sort (t ∷ ts) = ground (arith, least-insert_sorted t (sort ts), minimum-sort ts)
