-- ===== src/Worker/Turns.antt =====
-- Whose turn it is: the jobs that a tick of srv/blockchain/wallet-worker/wallet-worker.ts goes through.
use odatano.Base.{
  ℕ, ◌≤◌, ◌≡◌, refl, sym, subst, ◌∙◌, inl, inr, true, false, Option, none, some, List, [], ◌∷◌,
  ◌==◌, not, arith, length, keep, Bool-cases, if◌then◌else◌,
}
use odatano.Jobs.{JobRow, Db}
use odatano.Jobs.Creation.{sooner, first_of, find_due_jobs}
use odatano.Jobs.Queue.{IsFirst, of_wallet, is_runnable, next_of_wallet}
use odatano.Worker.Dispatch.{next_per_wallet}

-- The pairs with this wallet.
abbrev pub turns_of : ℕ → List (ℕ × JobRow) → List (ℕ × JobRow)
turns_of w ps = keep (λ p. p.0 == w) ps

-- The job of the wallet's first turn.
abbrev pub turn_of : ℕ → List (ℕ × JobRow) → Option JobRow
turn_of w [] = none
turn_of w ((v, r) ∷ ps) = if v == w then some r else turn_of w ps

others :
    (w v : ℕ) (ps : List (ℕ × JobRow))
    → (v == w) ≡ false
    → (turn_of w (keep (λ p. not (p.0 == v)) ps) ≡ turn_of w ps)
      × (turns_of w (keep (λ p. not (p.0 == v)) ps) ≡ turns_of w ps)
others w v [] ne = (refl, refl)
others w v ((u, r) ∷ ps) ne = elim (Bool-cases (u == v)) [
  | inl gone ↦ ground (arith, others w v ps ne)
  | inr stays ↦ ground (arith, others w v ps ne)
]

same_gone :
    (w v : ℕ) (ps : List (ℕ × JobRow))
    → (v == w) ≡ true
    → turns_of w (keep (λ p. not (p.0 == v)) ps) ≡ []
same_gone w v [] e = refl
same_gone w v ((u, r) ∷ ps) e = ground (arith, same_gone w v ps)

turn-next_per_wallet :
    (w : ℕ) (rs : List JobRow) → turn_of w (next_per_wallet rs) ≡ first_of (keep (of_wallet w) rs)
turn-next_per_wallet w [] = refl
turn-next_per_wallet w (r ∷ rs) = elim (Bool-cases (r.wallet_id == w)) [
  | inl own ↦ rw own refl
  | inr other ↦
      rw other ((others w r.wallet_id (next_per_wallet rs) other).0 ∙ turn-next_per_wallet w rs)
]

one_turn : (w : ℕ) (rs : List JobRow) → length (turns_of w (next_per_wallet rs)) ≤ 1
one_turn w [] = omega arith
one_turn w (r ∷ rs) = elim (Bool-cases (r.wallet_id == w)) [
  | inl own ↦
      let gone = same_gone w r.wallet_id (next_per_wallet rs) own in ground (arith, own, gone)
  | inr other ↦
      let same = (others w r.wallet_id (next_per_wallet rs) other).1 in
      ground (arith, other, same, one_turn w rs)
]

-- The jobs that a tick goes through, by any time and table: each wallet has at most one turn. Its job is a
-- pending and due job of the wallet in the table, and no other such job of the wallet has
-- a smaller priority number or the same and an earlier creation; and a wallet without a turn
-- has no pending and due job.
pub next_per_wallet-find_due_jobs :
    (w now : ℕ) (d : Db)
    → (length (turns_of w (next_per_wallet (find_due_jobs now d))) ≤ 1)
      × IsFirst sooner
          (is_runnable w now)
          d.jobs
          (turn_of w (next_per_wallet (find_due_jobs now d)))
next_per_wallet-find_due_jobs w now d = (
  one_turn w (find_due_jobs now d),
  subst (IsFirst sooner (is_runnable w now) d.jobs)
      (sym (turn-next_per_wallet w (find_due_jobs now d))) (next_of_wallet w now d),
)
