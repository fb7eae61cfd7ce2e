-- ===== src/Ledger.antt =====
-- srv/blockchain/ledger-state.ts: the rows of the UTxO set (LedgerUTxOs), which a block changes and a
-- rollback changes back. The sums of addresses and accounts, the assets, and the columns that are read
-- off an output's address and datum are not modelled. Lovelace, hashes and addresses are numbers.
pub mod Rollback
pub mod Application
pub mod RoundTrip
mod Tests
use odatano.Base.{
  ℕ, suc, ◌+◌, Bool, true, false, Option, none, some, List, [], ◌∷◌, ◌++◌, ◌&&◌, not, any, keep,
  is_some, length, map, ◌==◌, if◌then◌else◌,
}
use odatano.Base.Table.{select_one, update_where}

pub record LedgerUtxo : Type 0 where
  pub tx_hash : ℕ
  pub output_index : ℕ
  pub address : ℕ
  pub lovelace : ℕ
  pub created_slot : Option ℕ
  pub spent_tx_hash : Option ℕ
  pub spent_slot : Option ℕ

pub record TxInput : Type 0 where
  pub from_hash : ℕ
  pub from_index : ℕ
  pub is_collateral_input : Bool
  pub is_reference : Bool

pub record TxOutput : Type 0 where
  pub index : ℕ
  pub to_address : ℕ
  pub amount : ℕ
  pub is_collateral_output : Bool

pub record ChainTransaction : Type 0 where
  pub hash : ℕ
  pub inputs : List TxInput
  pub outputs : List TxOutput
  pub spends_collaterals : Bool

-- `outpoint`
pub record Outpoint : Type 0 where
  pub source : ℕ
  pub place : ℕ

abbrev pub has_outpoint : Outpoint → LedgerUtxo → Bool
has_outpoint p r = r.tx_hash == p.source && r.output_index == p.place

abbrev pub outpoint_of : LedgerUtxo → Outpoint
outpoint_of r = record { source = r.tx_hash; place = r.output_index }

-- `producedOutputs` and `consumedInputs`: the collateral on a phase-2 failure
abbrev pub produced_outputs : ChainTransaction → List TxOutput
produced_outputs t =
    keep (λ o. if t.spends_collaterals then o.is_collateral_output else not o.is_collateral_output)
      t.outputs

abbrev pub consumed_inputs : ChainTransaction → List TxInput
consumed_inputs t =
    keep
      (λ i.
        if t.spends_collaterals
        then i.is_collateral_input
        else not i.is_reference && not i.is_collateral_input)
      t.inputs

-- `buildLedgerUtxoRows`
abbrev pub build_ledger_utxo_row : ℕ → ℕ → TxOutput → LedgerUtxo
build_ledger_utxo_row slot hash o = record {
  tx_hash = hash;
  output_index = o.index;
  address = o.to_address;
  lovelace = o.amount;
  created_slot = some slot;
  spent_tx_hash = none;
  spent_slot = none;
}

-- UPSERT of a row, and `Map.set` with its outpoint: a row with the same key is replaced in its place.
abbrev pub upsert : LedgerUtxo → List LedgerUtxo → List LedgerUtxo
upsert r [] = r ∷ []
upsert r (q ∷ qs) = if has_outpoint (outpoint_of r) q then r ∷ qs else q ∷ upsert r qs

unfoldable pub upsert_all : List LedgerUtxo → List LedgerUtxo → List LedgerUtxo
upsert_all [] qs = qs
upsert_all (r ∷ rs) qs = upsert_all rs (upsert r qs)

-- All that the block produces.
unfoldable pub created_outputs : ℕ → List ChainTransaction → List LedgerUtxo → List LedgerUtxo
unfolding upsert_all
created_outputs slot [] rs = rs
created_outputs slot (t ∷ ts) rs =
    created_outputs slot ts
      (upsert_all (map (build_ledger_utxo_row slot t.hash) (produced_outputs t)) rs)

-- A consumed output that the block has not produced, with its spender.
pub record Spending : Type 0 where
  pub key : Outpoint
  pub spender : ℕ

abbrev pub spent_by_tx : ℕ → ℕ → LedgerUtxo → LedgerUtxo
spent_by_tx slot hash r = record r { spent_tx_hash = some hash; spent_slot = some slot }

abbrev pub key_of : TxInput → Outpoint
key_of i = record { source = i.from_hash; place = i.from_index }

abbrev pub consume_input :
    ℕ → ℕ → TxInput → List LedgerUtxo → List Spending → List LedgerUtxo × List Spending
consume_input slot hash i created spent =
    if any (has_outpoint (key_of i)) created
    then (update_where (has_outpoint (key_of i)) (spent_by_tx slot hash) created, spent)
    else (created, spent ++ (record { key = key_of i; spender = hash } ∷ []))

-- The produced rows with their spenders in the block, and the other spendings in their order.
unfoldable pub consume_inputs :
    ℕ → ℕ → List TxInput → List LedgerUtxo → List Spending → List LedgerUtxo × List Spending
consume_inputs slot hash [] created spent = (created, spent)
consume_inputs slot hash (i ∷ inputs) created spent =
    let (created', spent') = consume_input slot hash i created spent in
    consume_inputs slot hash inputs created' spent'

unfoldable pub consume_all :
    ℕ → List ChainTransaction → List LedgerUtxo → List Spending → List LedgerUtxo × List Spending
unfolding consume_inputs
consume_all slot [] created spent = (created, spent)
consume_all slot (t ∷ ts) created spent =
    let (created', spent') = consume_inputs slot t.hash (consumed_inputs t) created spent in
    consume_all slot ts created' spent'

-- The row of a spending, read before the block is written: none if it is unknown or already spent.
abbrev pub open_row : ℕ → ℕ → Option LedgerUtxo → List LedgerUtxo
open_row slot spender none = []
open_row slot spender (some r) =
    if is_some r.spent_tx_hash then [] else spent_by_tx slot spender r ∷ []

unfoldable pub spent_rows : ℕ → List LedgerUtxo → List Spending → List LedgerUtxo
spent_rows slot table [] = []
spent_rows slot table (l ∷ ls) =
    open_row slot l.spender (select_one (has_outpoint l.key) table) ++ spent_rows slot table ls

-- `applyBlockToLedger`, on the rows of LedgerUTxOs
unfoldable pub apply_block_to_ledger : ℕ → List ChainTransaction → List LedgerUtxo → List LedgerUtxo
unfolding created_outputs consume_all spent_rows upsert_all
apply_block_to_ledger slot txs table =
    let (created, spent) = consume_all slot txs (created_outputs slot txs []) [] in
    upsert_all (spent_rows slot table spent) (upsert_all created table)

abbrev pub is_among : List ℕ → ℕ → Bool
is_among hashes h = any (λ x. x == h) hashes

abbrev pub spent_among : List ℕ → LedgerUtxo → Bool
spent_among hashes r = elim r.spent_tx_hash [ none ↦ false | some h ↦ is_among hashes h ]

abbrev pub reopened : LedgerUtxo → LedgerUtxo
reopened r = record r { spent_tx_hash = none; spent_slot = none }

-- The DELETE and the UPDATE for one chunk of hashes.
unfoldable pub undo_chunk : List ℕ → List LedgerUtxo → List LedgerUtxo
undo_chunk hashes rs =
    update_where (spent_among hashes) reopened (keep (λ r. not (is_among hashes r.tx_hash)) rs)

-- `undoLedgerForTransactions`, for the chunks of the transactions' hashes
unfoldable pub undo_ledger_for_transactions : List (List ℕ) → List LedgerUtxo → List LedgerUtxo
unfolding undo_chunk
undo_ledger_for_transactions [] rs = rs
undo_ledger_for_transactions (c ∷ cs) rs = undo_ledger_for_transactions cs (undo_chunk c rs)
