-- ===== src/Ledger/Rollback.antt =====
-- A rollback of a block undoes it.
use odatano.Base.{
  ℕ, ◌≡◌, ◌⊎◌, inl, inr, refl, sym, ap, subst, ◌∙◌, Bool, true, false, none, some, List, [], ◌∷◌,
  ◌++◌, ◌||◌, not, keep, keep-append, arith, All, if_ind, Bool-cases, Option-cases, if◌then◌else◌,
}
use odatano.Base.Table.{update_where}
use odatano.Ledger.{
  LedgerUtxo, spent_by_tx, is_among, spent_among, reopened, undo_chunk,
  undo_ledger_for_transactions,
}

-- The hash is in one of the chunks.
abbrev pub covers : List (List ℕ) → ℕ → Bool
covers [] h = false
covers (c ∷ cs) h = is_among c h || covers cs h

-- No transaction of the chunks has spent the row.
abbrev pub IsQuiet : List (List ℕ) → LedgerUtxo → Type 0
IsQuiet cs r = (h : ℕ) → r.spent_tx_hash ≡ some h → covers cs h ≡ false

-- A row from before the block, and as it is with what the chunks have not undone yet.
abbrev pub IsOff : List (List ℕ) → LedgerUtxo → LedgerUtxo → Type 0
IsOff cs r q =
    (covers cs r.tx_hash ≡ false)
    × (((q ≡ r) × IsQuiet cs r)
        ⊎ ((h : ℕ) × (s : ℕ) × (covers cs h ≡ true) × (reopened r ≡ r) × (q ≡ spent_by_tx s h r)))

abbrev pub AreOff : List (List ℕ) → List LedgerUtxo → List LedgerUtxo → Type 0
AreOff cs [] [] = Unit
AreOff cs [] (q ∷ qs) = ⊥
AreOff cs (r ∷ rs) [] = ⊥
AreOff cs (r ∷ rs) (q ∷ qs) = IsOff cs r q × AreOff cs rs qs

abbrev pub AreNew : List (List ℕ) → List LedgerUtxo → Type 0
AreNew cs zs = All (λ z. covers cs z.tx_hash ≡ true) zs

none_is_not_some : (k : ℕ) → none ≡ some k → ⊥
none_is_not_some k e = ground arith

pub append_nil : (rs : List LedgerUtxo) → rs ++ [] ≡ rs
append_nil [] = refl
append_nil (r ∷ rs) = ap (λ l. r ∷ l) (append_nil rs)

next : List ℕ → LedgerUtxo → LedgerUtxo
next c q = if spent_among c q then reopened q else q

IsQuiet-spent_among :
    (c : List ℕ) (cs : List (List ℕ)) (r : LedgerUtxo)
    → IsQuiet (c ∷ cs) r
    → spent_among c r ≡ false
IsQuiet-spent_among c cs r quiet = elim (Option-cases r.spent_tx_hash) [
  | inl off ↦ ground (arith, off)
  | inr (h, spent) ↦ let uncovered = quiet h spent in ground (arith, spent, uncovered)
]

next_lem :
    (c : List ℕ) (cs : List (List ℕ)) (r q : LedgerUtxo)
    → IsOff (c ∷ cs) r q
    → (is_among c q.tx_hash ≡ false) × IsOff cs r (next c q)
unfolding next
next_lem c cs r q (off, inl (same, quiet)) =
    let unspent : spent_among c r ≡ false = IsQuiet-spent_among c cs r quiet in
    (
      ground (arith, off, same),
      (
        ground (arith, off),
        inl (
          subst (λ q. (if spent_among c q then reopened q else q) ≡ r) (sym same)
              (subst (λ b. (if b then reopened r else r) ≡ r) (sym unspent) refl),
          λ h spent. ground (arith, quiet h spent),
        ),
      ),
    )
next_lem c cs r q (off, inr (h, s, covered, unspent, spent)) =
    let Next : LedgerUtxo → Bool → LedgerUtxo = λ q b. if b then reopened q else q in
    (
      ground (arith, off, spent),
      (
        ground (arith, off),
        elim (Bool-cases (is_among c h)) [
          | inl here ↦ inl (
            subst (λ q. Next q (spent_among c q) ≡ r) (sym spent)
                (subst (λ b. Next (spent_by_tx s h r) b ≡ r) (sym here) unspent),
            λ k again.
                absurd
                  (none_is_not_some k (ap (λ (x : LedgerUtxo). x.spent_tx_hash) unspent ∙ again)),
          )
          | inr later ↦ inr (
            h,
            s,
            ground (arith, covered, later),
            unspent,
            subst (λ q. Next q (spent_among c q) ≡ spent_by_tx s h r) (sym spent)
                (subst (λ b. Next (spent_by_tx s h r) b ≡ spent_by_tx s h r) (sym later) refl),
          )
        ],
      ),
    )

undo_rows :
    (c : List ℕ) (cs : List (List ℕ)) (rs qs : List LedgerUtxo)
    → AreOff (c ∷ cs) rs qs
    → AreOff cs rs (undo_chunk c qs)
unfolding undo_chunk next
undo_rows c cs [] [] h = tt
undo_rows c cs [] (q ∷ qs) h = absurd h
undo_rows c cs (r ∷ rs) [] h = absurd h
undo_rows c cs (r ∷ rs) (q ∷ qs) h =
    let (off, row) = next_lem c cs r q h.0 in
    subst
      (λ b. AreOff cs (r ∷ rs) (
        update_where (spent_among c) reopened (
          if not b
          then q ∷ keep (λ r. not (is_among c r.tx_hash)) qs
          else keep (λ r. not (is_among c r.tx_hash)) qs)))
      (sym off) (row, undo_rows c cs rs qs h.1)

undo_new :
    (c : List ℕ) (cs : List (List ℕ)) (zs : List LedgerUtxo)
    → AreNew (c ∷ cs) zs
    → AreNew cs (undo_chunk c zs)
unfolding undo_chunk
undo_new c cs [] h = tt
undo_new c cs (z ∷ zs) h =
    let p : LedgerUtxo → Bool = λ r. not (is_among c r.tx_hash) in
    if_ind (λ l. AreNew cs (update_where (spent_among c) reopened l)) (p z) {x = z ∷ keep p zs}
      {y = keep p zs}
      (λ e.
        let covered : covers cs z.tx_hash ≡ true = ground (arith, e, h.0) in
        (
          if_ind (λ (q : LedgerUtxo). covers cs q.tx_hash ≡ true) (spent_among c z) (λ x. covered)
              (λ x. covered),
          undo_new c cs zs h.1,
        ))
      (λ e. undo_new c cs zs h.1)

update_where-append :
    (w : LedgerUtxo → Bool) (f : LedgerUtxo → LedgerUtxo) (xs ys : List LedgerUtxo)
    → update_where w f (xs ++ ys) ≡ update_where w f xs ++ update_where w f ys
update_where-append w f [] ys = refl
update_where-append w f (x ∷ xs) ys =
    ap (λ l. (if w x then f x else x) ∷ l) (update_where-append w f xs ys)

undo_chunk-append :
    (c : List ℕ) (xs ys : List LedgerUtxo)
    → undo_chunk c (xs ++ ys) ≡ undo_chunk c xs ++ undo_chunk c ys
unfolding undo_chunk
undo_chunk-append c xs ys =
    let p : LedgerUtxo → Bool = λ r. not (is_among c r.tx_hash) in
    ap (update_where (spent_among c) reopened) (keep-append p xs ys)
    ∙ update_where-append (spent_among c) reopened (keep p xs) (keep p ys)

off_nothing : (rs qs : List LedgerUtxo) → AreOff [] rs qs → qs ≡ rs
off_nothing [] [] h = refl
off_nothing [] (q ∷ qs) h = absurd h
off_nothing (r ∷ rs) [] h = absurd h
off_nothing (r ∷ rs) (q ∷ qs) ((off, inl (same, quiet)), h) =
    ap (λ x. x ∷ qs) same ∙ ap (λ l. r ∷ l) (off_nothing rs qs h)
off_nothing (r ∷ rs) (q ∷ qs) ((off, inr (k, s, covered, unspent, spent)), h) =
    absurd (ground (arith, covered))

pub undo_lem :
    (cs : List (List ℕ)) (rs qs zs : List LedgerUtxo)
    → AreOff cs rs qs
    → AreNew cs zs
    → undo_ledger_for_transactions cs (qs ++ zs) ≡ rs
unfolding undo_ledger_for_transactions
undo_lem [] rs qs [] h k = ap (λ l. l ++ []) (off_nothing rs qs h) ∙ append_nil rs
undo_lem [] rs qs (z ∷ zs) h k = absurd (ground (arith, k.0))
undo_lem (c ∷ cs) rs qs zs h k =
    ap (undo_ledger_for_transactions cs) (undo_chunk-append c qs zs)
    ∙ undo_lem cs rs (undo_chunk c qs) (undo_chunk c zs) (undo_rows c cs rs qs h)
        (undo_new c cs zs k)
