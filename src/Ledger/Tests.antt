-- ===== src/Ledger/Tests.antt =====
-- A block of two transactions, and the theorem at a concrete input.
use odatano.Base.{ℕ, ◌≡◌, refl, false, Option, none, some, List, [], ◌∷◌, arith}
use odatano.Ledger.{
  LedgerUtxo, TxInput, TxOutput, ChainTransaction, apply_block_to_ledger,
  undo_ledger_for_transactions, created_outputs, consume_all, consume_inputs, spent_rows,
  upsert_all,
}
use odatano.Ledger.RoundTrip.{undo_ledger_for_transactions-apply_block_to_ledger}

abbrev held : LedgerUtxo
held = record {
  tx_hash = 1;
  output_index = 0;
  address = 50;
  lovelace = 900;
  created_slot = none;
  spent_tx_hash = none;
  spent_slot = none;
}

abbrev gone : LedgerUtxo
gone = record held { output_index = 1; spent_tx_hash = some 2; spent_slot = some 9 }

abbrev input : ℕ → ℕ → TxInput
input hash place = record {
  from_hash = hash;
  from_index = place;
  is_collateral_input = false;
  is_reference = false;
}

abbrev output : ℕ → ℕ → TxOutput
output place amount = record {
  index = place;
  to_address = 51;
  amount = amount;
  is_collateral_output = false;
}

-- The second transaction spends an output of the first, one that is gone, and one that is unknown.
abbrev block : List ChainTransaction
block =
    record {
      hash = 10;
      inputs = input 1 0 ∷ [];
      outputs = output 0 400 ∷ output 1 500 ∷ [];
      spends_collaterals = false;
    }
    ∷ record {
      hash = 11;
      inputs = input 10 1 ∷ input 1 1 ∷ input 7 7 ∷ [];
      outputs = output 0 500 ∷ [];
      spends_collaterals = false;
    }
    ∷ []

abbrev before : List LedgerUtxo
before = held ∷ gone ∷ []

abbrev spenders : List LedgerUtxo → List (Option ℕ)
spenders [] = []
spenders (r ∷ rs) = r.spent_tx_hash ∷ spenders rs

applied :
    spenders (apply_block_to_ledger 20 block before) ≡ some 10 ∷ some 2 ∷ none ∷ some 11 ∷ none ∷ []
unfolding apply_block_to_ledger created_outputs consume_all consume_inputs spent_rows upsert_all
applied = refl

undo_ledger_for_transactions-apply_block_to_ledger_example :
    undo_ledger_for_transactions
      ((10 ∷ []) ∷ (11 ∷ []) ∷ [])
      (apply_block_to_ledger 20 block before)
    ≡ before
undo_ledger_for_transactions-apply_block_to_ledger_example =
    undo_ledger_for_transactions-apply_block_to_ledger ((10 ∷ []) ∷ (11 ∷ []) ∷ []) 20 block before
      (refl, (refl, tt))
      (
        (refl, (λ h e. ground arith), λ e. refl),
        ((refl, (λ h e. ground arith), λ e. ground arith), tt),
      )
