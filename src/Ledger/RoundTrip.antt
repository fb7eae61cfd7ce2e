-- ===== src/Ledger/RoundTrip.antt =====
-- A block that is applied and rolled back.
use odatano.Base.{
  ℕ, ◌≡◌, inl, inr, refl, sym, ap, subst, ◌∙◌, true, false, Option, none, some, List, [], ◌∷◌, ◌++◌,
  is_some, arith, All, if_ind, Bool-cases, if◌then◌else◌,
}
use odatano.Base.Table.{select_one}
use odatano.Ledger.{
  LedgerUtxo, ChainTransaction, Outpoint, Spending, has_outpoint, outpoint_of, upsert, upsert_all,
  created_outputs, consume_all, spent_by_tx, open_row, spent_rows, apply_block_to_ledger, reopened,
  undo_ledger_for_transactions,
}
use odatano.Ledger.Rollback.{covers, IsQuiet, IsOff, AreOff, AreNew, append_nil, undo_lem}
use odatano.Ledger.Application.{
  AreOurs, tidy_all, upsert_behind, AreNew-created_outputs, AreNew-upsert,
}

-- A row from before the block: it is of no transaction of the chunks and spent by none of them, and an
-- open row has no slot of a spending.
abbrev pub IsEarlier : List (List ℕ) → LedgerUtxo → Type 0
IsEarlier cs r =
    (covers cs r.tx_hash ≡ false) × IsQuiet cs r × (r.spent_tx_hash ≡ none → r.spent_slot ≡ none)

module _ (cs : List (List ℕ)) (slot : ℕ) where
  -- The same rows, and behind them new ones.
  abbrev Extended : List LedgerUtxo → List LedgerUtxo → Type 0
  Extended qs l = (zs : List LedgerUtxo) × AreNew cs zs × (l ≡ qs ++ zs)

  added :
      (rs qs zs : List LedgerUtxo)
      → AreNew cs rs
      → AreNew cs zs
      → All (λ q. covers cs q.tx_hash ≡ false) qs
      → Extended qs (upsert_all rs (qs ++ zs))
  unfolding upsert_all
  added [] qs zs h k old = (zs, k, refl)
  added (r ∷ rs) qs zs h k old =
      subst (λ l. Extended qs (upsert_all rs l)) (sym (upsert_behind cs slot r qs zs h.0 old))
        (added rs qs (upsert r zs) h.1 (AreNew-upsert cs slot r zs h.0 k) old)

  same_key : (k : Outpoint) (r q : LedgerUtxo) → IsOff cs r q → has_outpoint k q ≡ has_outpoint k r
  same_key k r q (off, inl (same, quiet)) = ap (has_outpoint k) same
  same_key k r q (off, inr (h, s, covered, unspent, spent)) = ap (has_outpoint k) spent

  -- The row that a spending finds is marked in its place.
  marked :
      (h : ℕ) (r : LedgerUtxo) (rs qs zs : List LedgerUtxo)
      → covers cs h ≡ true
      → reopened r ≡ r
      → AreOff cs rs qs
      → select_one (has_outpoint (outpoint_of r)) rs ≡ some r
      → (ps : List LedgerUtxo) × AreOff cs rs ps
        × (upsert (spent_by_tx slot h r) (qs ++ zs) ≡ ps ++ zs)
  marked h r [] [] zs c o k e = ground arith
  marked h r [] (q ∷ qs) zs c o k e = absurd k
  marked h r (x ∷ rs) [] zs c o k e = absurd k
  marked h r (x ∷ rs) (q ∷ qs) zs c o k e = elim (Bool-cases (has_outpoint (outpoint_of r) x)) [
    | inl here ↦
        let at : x ≡ r = ground arith in
        let hit : has_outpoint (outpoint_of r) q ≡ true = same_key (outpoint_of r) x q k.0 ∙ here in
        (
          spent_by_tx slot h r ∷ qs,
          (
            (
              k.0.0,
              inr (
                h,
                slot,
                c,
                subst (λ x. reopened x ≡ x) (sym at) o,
                ap (spent_by_tx slot h) (sym at),
              ),
            ),
            k.1,
          ),
          ap
              (λ b.
                if b
                then spent_by_tx slot h r ∷ (qs ++ zs)
                else q ∷ upsert (spent_by_tx slot h r) (qs ++ zs))
              hit,
        )
    | inr other ↦
        let miss : has_outpoint (outpoint_of r) q ≡ false =
          same_key (outpoint_of r) x q k.0 ∙ other in
        let (ps, off, eq) = marked h r rs qs zs c o k.1 (ground arith) in
        (
          q ∷ ps,
          (k.0, off),
          ap
                (λ b.
                  if b
                  then spent_by_tx slot h r ∷ (qs ++ zs)
                  else q ∷ upsert (spent_by_tx slot h r) (qs ++ zs))
                miss
              ∙ ap (λ l. q ∷ l) eq,
        )
  ]

  by_own_key :
      (k : Outpoint) (r : LedgerUtxo) (rs : List LedgerUtxo)
      → select_one (has_outpoint k) rs ≡ some r
      → select_one (has_outpoint (outpoint_of r)) rs ≡ some r
  by_own_key k r [] e = ground arith
  by_own_key k r (x ∷ rs) e = elim (Bool-cases (has_outpoint k x)) [
    | inl here ↦ let at : x ≡ r = ground arith in ground arith
    | inr other ↦
        let later : select_one (has_outpoint k) rs ≡ some r = ground arith in
        let own = by_own_key k r rs later in
        let hit : has_outpoint k r ≡ true = found k r rs later in ground (arith, own, hit, other)
  ]
    where
      found :
          (k : Outpoint) (r : LedgerUtxo) (rs : List LedgerUtxo)
          → select_one (has_outpoint k) rs ≡ some r
          → has_outpoint k r ≡ true
      found k r [] e = ground arith
      found k r (x ∷ rs) e = elim (Bool-cases (has_outpoint k x)) [
        | inl here ↦ let at : x ≡ r = ground arith in subst (λ x. has_outpoint k x ≡ true) at here
        | inr other ↦ found k r rs (ground arith)
      ]

  IsEarlier-row :
      (k : Outpoint) (r : LedgerUtxo) (rs : List LedgerUtxo)
      → All (IsEarlier cs) rs
      → select_one (has_outpoint k) rs ≡ some r
      → IsEarlier cs r
  IsEarlier-row k r [] h e = ground arith
  IsEarlier-row k r (x ∷ rs) h e = elim (Bool-cases (has_outpoint k x)) [
    | inl here ↦ let at : x ≡ r = ground arith in subst (IsEarlier cs) at h.0
    | inr other ↦ IsEarlier-row k r rs h.1 (ground arith)
  ]

  reopened_open :
      (r : LedgerUtxo) → IsEarlier cs r → is_some r.spent_tx_hash ≡ false → reopened r ≡ r
  reopened_open r h e =
      let unspent : r.spent_tx_hash ≡ none = ground (arith, e) in
      ap (λ (s : Option ℕ). record r { spent_tx_hash = s; spent_slot = none }) (sym unspent)
      ∙ ap (λ (s : Option ℕ). record r { spent_slot = s }) (sym (h.2 unspent))

  -- What all spendings make of the rows.
  abbrev Marks : List LedgerUtxo → List LedgerUtxo → List LedgerUtxo → Type 0
  Marks table zs l = (ps : List LedgerUtxo) × AreOff cs table ps × (l ≡ ps ++ zs)

  all_marked :
      (table : List LedgerUtxo) (zs : List LedgerUtxo) (ls : List Spending) (qs : List LedgerUtxo)
      → All (IsEarlier cs) table
      → AreOurs cs slot ls
      → AreOff cs table qs
      → Marks table zs (upsert_all (spent_rows slot table ls) (qs ++ zs))
  unfolding upsert_all spent_rows
  all_marked table zs [] qs old ours off = (qs, off, refl)
  all_marked table zs (l ∷ ls) qs old ours off =
      one (select_one (has_outpoint l.key) table) refl
        (λ ps off. all_marked table zs ls ps old ours.1 off)
    where
      one :
          (o : Option LedgerUtxo)
          → select_one (has_outpoint l.key) table ≡ o
          → ((ps : List LedgerUtxo)
              → AreOff cs table ps
              → Marks table zs (upsert_all (spent_rows slot table ls) (ps ++ zs)))
          → Marks table zs
              (upsert_all (open_row slot l.spender o ++ spent_rows slot table ls) (qs ++ zs))
      one none e rest = rest qs off
      one (some r) e rest =
          if_ind (λ xs. Marks table zs (upsert_all (xs ++ spent_rows slot table ls) (qs ++ zs)))
            (is_some r.spent_tx_hash) {x = []} {y = spent_by_tx slot l.spender r ∷ []}
            (λ spent. rest qs off)
            (λ unspent.
              let (ps, off', eq) =
                marked l.spender r table qs zs ours.0
                  (reopened_open r (IsEarlier-row l.key r table old e) unspent) off
                  (by_own_key l.key r table e) in
              subst (λ x. Marks table zs (upsert_all (spent_rows slot table ls) x)) (sym eq)
                (rest ps off'))

  old_hashes :
      (rs : List LedgerUtxo) → All (IsEarlier cs) rs → All (λ q. covers cs q.tx_hash ≡ false) rs
  old_hashes [] h = tt
  old_hashes (r ∷ rs) h = (h.0.0, old_hashes rs h.1)

  untouched : (rs : List LedgerUtxo) → All (IsEarlier cs) rs → AreOff cs rs rs
  untouched [] h = tt
  untouched (r ∷ rs) h = ((h.0.0, inl (refl, h.0.1)), untouched rs h.1)

  -- Round trip: if the chunks name all transactions of a block, and no row of the table is of one of
  -- their transactions or spent by one (and an open row has no slot of a spending), then rolling the
  -- chunks back after the block has been applied gives the table as it was, row by row: what the block
  -- has produced is gone, and what it has spent is open again.
  pub undo_ledger_for_transactions-apply_block_to_ledger :
      (txs : List ChainTransaction) (table : List LedgerUtxo)
      → All (λ t. covers cs t.hash ≡ true) txs
      → All (IsEarlier cs) table
      → undo_ledger_for_transactions cs (apply_block_to_ledger slot txs table) ≡ table
  unfolding apply_block_to_ledger
  undo_ledger_for_transactions-apply_block_to_ledger txs table ours old =
      let p = consume_all slot txs (created_outputs slot txs []) [] in
      let tidy =
        tidy_all cs slot txs (created_outputs slot txs []) [] ours
          (AreNew-created_outputs cs slot txs [] ours tt, tt) in
      let (zs, new, behind) =
        subst (λ l. Extended table (upsert_all p.0 l)) (append_nil table)
          (added p.0 table [] tidy.0 tt (old_hashes table old)) in
      let (ps, off, marks) = all_marked table zs p.1 table old tidy.1 (untouched table old) in
      ap (λ l. undo_ledger_for_transactions cs (upsert_all (spent_rows slot table p.1) l)) behind
      ∙ ap (undo_ledger_for_transactions cs) marks
      ∙ undo_lem cs table ps zs off new
