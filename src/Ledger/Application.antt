-- ===== src/Ledger/Application.antt =====
-- What a block does to the rows from before it, and which rows it adds.
use odatano.Base.{
  ℕ, ◌≡◌, inl, inr, refl, sym, ap, ◌∙◌, true, false, List, [], ◌∷◌, ◌++◌, any, map, ◌==◌, arith,
  All, if_ind, Bool-cases,
}
use odatano.Base.Table.{update_where, All-update_where}
use odatano.Ledger.{
  LedgerUtxo, TxInput, TxOutput, ChainTransaction, Spending, has_outpoint, outpoint_of,
  produced_outputs, consumed_inputs, build_ledger_utxo_row, upsert, upsert_all, created_outputs,
  key_of, consume_input, consume_inputs, consume_all, spent_by_tx,
}
use odatano.Ledger.Rollback.{covers, AreNew}

pub true_is_not_false : true ≡ false → ⊥
true_is_not_false e = ground arith

module _ (cs : List (List ℕ)) (slot : ℕ) where
  pub AreNew-upsert :
      (r : LedgerUtxo) (qs : List LedgerUtxo)
      → covers cs r.tx_hash ≡ true
      → AreNew cs qs
      → AreNew cs (upsert r qs)
  AreNew-upsert r [] h k = (h, tt)
  AreNew-upsert r (q ∷ qs) h k =
      if_ind (AreNew cs) (has_outpoint (outpoint_of r) q) (λ e. (h, k.1))
        (λ e. (k.0, AreNew-upsert r qs h k.1))

  AreNew-upsert_all :
      (rs qs : List LedgerUtxo) → AreNew cs rs → AreNew cs qs → AreNew cs (upsert_all rs qs)
  unfolding upsert_all
  AreNew-upsert_all [] qs h k = k
  AreNew-upsert_all (r ∷ rs) qs h k =
      AreNew-upsert_all rs (upsert r qs) h.1 (AreNew-upsert r qs h.0 k)

  built :
      (hash : ℕ) (os : List TxOutput)
      → covers cs hash ≡ true
      → AreNew cs (map (build_ledger_utxo_row slot hash) os)
  built hash [] h = tt
  built hash (o ∷ os) h = (h, built hash os h)

  pub AreNew-created_outputs :
      (ts : List ChainTransaction) (rs : List LedgerUtxo)
      → All (λ t. covers cs t.hash ≡ true) ts
      → AreNew cs rs
      → AreNew cs (created_outputs slot ts rs)
  unfolding created_outputs
  AreNew-created_outputs [] rs h k = k
  AreNew-created_outputs (t ∷ ts) rs h k = AreNew-created_outputs ts _ h.1 (
      AreNew-upsert_all (map (build_ledger_utxo_row slot t.hash) (produced_outputs t)) rs
        (built t.hash (produced_outputs t) h.0) k)

  -- The spendings are of the block's transactions.
  abbrev pub AreOurs : List Spending → Type 0
  AreOurs ls = All (λ l. covers cs l.spender ≡ true) ls

  AreOurs-append :
      (ls : List Spending) (l : Spending)
      → AreOurs ls
      → covers cs l.spender ≡ true
      → AreOurs (ls ++ (l ∷ []))
  AreOurs-append [] l h k = (k, tt)
  AreOurs-append (x ∷ ls) l h k = (h.0, AreOurs-append ls l h.1 k)

  abbrev pub AreTidy : List LedgerUtxo × List Spending → Type 0
  AreTidy p = AreNew cs p.0 × AreOurs p.1

  tidy_inputs :
      (hash : ℕ) (is : List TxInput) (created : List LedgerUtxo) (spent : List Spending)
      → covers cs hash ≡ true
      → AreTidy (created, spent)
      → AreTidy (consume_inputs slot hash is created spent)
  unfolding consume_inputs
  tidy_inputs hash [] created spent h k = k
  tidy_inputs hash (i ∷ is) created spent h k =
      let p = consume_input slot hash i created spent in
      tidy_inputs hash is p.0 p.1 h (
        if_ind AreTidy (any (has_outpoint (key_of i)) created)
          {x = (update_where (has_outpoint (key_of i)) (spent_by_tx slot hash) created, spent)}
          {y = (created, spent ++ (record { key = key_of i; spender = hash } ∷ []))}
          (λ e. (
            All-update_where (λ z. covers cs z.tx_hash ≡ true) (has_outpoint (key_of i))
                (spent_by_tx slot hash) (λ r e c. c) created k.0,
            k.1,
          ))
          (λ e. (k.0, AreOurs-append spent (record { key = key_of i; spender = hash }) k.1 h)))

  pub tidy_all :
      (ts : List ChainTransaction) (created : List LedgerUtxo) (spent : List Spending)
      → All (λ t. covers cs t.hash ≡ true) ts
      → AreTidy (created, spent)
      → AreTidy (consume_all slot ts created spent)
  unfolding consume_all
  tidy_all [] created spent h k = k
  tidy_all (t ∷ ts) created spent h k =
      let p = consume_inputs slot t.hash (consumed_inputs t) created spent in
      tidy_all ts p.0 p.1 h.1 (tidy_inputs t.hash (consumed_inputs t) created spent h.0 k)

  -- A new row goes behind those from before the block.
  pub upsert_behind :
      (r : LedgerUtxo) (qs zs : List LedgerUtxo)
      → covers cs r.tx_hash ≡ true
      → All (λ q. covers cs q.tx_hash ≡ false) qs
      → upsert r (qs ++ zs) ≡ qs ++ upsert r zs
  upsert_behind r [] zs h k = refl
  upsert_behind r (q ∷ qs) zs h k =
      let other : q.tx_hash == r.tx_hash ≡ false = differ q.tx_hash r.tx_hash k.0 h in
      ground (arith, other, upsert_behind r qs zs h k.1)
    where
      differ : (m n : ℕ) → covers cs m ≡ false → covers cs n ≡ true → m == n ≡ false
      differ m n off on = elim (Bool-cases (m == n)) [
        | inl same ↦
            let at : m ≡ n = ground arith in
            absurd (true_is_not_false (sym on ∙ ap (covers cs) (sym at) ∙ off))
        | inr other ↦ other
      ]
