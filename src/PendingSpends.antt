-- ===== src/PendingSpends.antt =====
-- srv/blockchain/pending-spends.ts: the submitted transactions that are not yet in a block, whose
-- inputs builders skip and whose outputs they may spend. Hashes are numbers, as they are after
-- `toLowerCase`; the amounts and datums of an output are one number. What `parseTransaction` reads
-- from the CBOR is an argument, nothing where it throws; `Date.now()` is an argument.
pub mod Offers
mod Tests
use odatano.Base.{
  ℕ, ◌+◌, Bool, true, false, Option, none, some, List, [], ◌∷◌, ◌++◌, ◌==◌, ◌&&◌, ◌||◌, not, ltb,
  any, keep, if◌then◌else◌,
}
use odatano.Base.Dict.{Dict, insert}

-- An output reference, as `refKey` writes it.
pub record OutRef : Type 0 where
  pub hash : ℕ
  pub index : ℕ

pub record Utxo : Type 0 where
  pub ref : OutRef
  pub address : ℕ
  pub content : ℕ

pub record Parsed : Type 0 where
  pub hash : ℕ
  pub inputs : List OutRef
  -- each output's address and content
  pub outputs : List (ℕ × ℕ)

pub record PendingTx : Type 0 where
  pub inputs : List OutRef
  pub outputs : List Utxo
  pub expires_at : ℕ

-- `PENDING_TX_TTL_MS`
abbrev pub pending_tx_ttl_ms : ℕ
pending_tx_ttl_ms = 600_000

abbrev pub Pending : Type 0
Pending = Dict PendingTx

abbrev pub same_ref : OutRef → OutRef → Bool
same_ref a b = a.hash == b.hash && a.index == b.index

abbrev pub includes : OutRef → List OutRef → Bool
includes r rs = any (same_ref r) rs

abbrev pub numbered : ℕ → ℕ → List (ℕ × ℕ) → List Utxo
numbered hash i [] = []
numbered hash i ((address, content) ∷ os) =
    record { ref = record { hash = hash; index = i }; address = address; content = content }
    ∷ numbered hash (i + 1) os

abbrev pub pending_of : Parsed → ℕ → PendingTx
pending_of p now = record {
  inputs = p.inputs;
  outputs = numbered p.hash 0 p.outputs;
  expires_at = now + pending_tx_ttl_ms;
}

-- `record`
unfoldable pub record_tx : ℕ → Option Parsed → Pending → Pending
record_tx now none m = m
record_tx now (some p) m = insert p.hash (pending_of p now) m

abbrev pub is_live : ℕ → ℕ × PendingTx → Bool
is_live now (hash, t) = ltb now t.expires_at

unfoldable pub prune : ℕ → Pending → Pending
prune now m = keep (is_live now) m

abbrev pub first_spender : OutRef → Pending → Option ℕ
first_spender r [] = none
first_spender r ((hash, t) ∷ m) = if includes r t.inputs then some hash else first_spender r m

-- `spentBy`
unfoldable pub spent_by : ℕ → OutRef → Pending → Option ℕ × Pending
unfolding prune
spent_by now r m = let m' = prune now m in (first_spender r m', m')

abbrev pub all_inputs : Pending → List OutRef
all_inputs [] = []
all_inputs ((hash, t) ∷ m) = t.inputs ++ all_inputs m

abbrev pub all_outputs : Pending → List Utxo
all_outputs [] = []
all_outputs ((hash, t) ∷ m) = t.outputs ++ all_outputs m

-- A transaction none of whose outputs is listed.
abbrev pub is_unlisted : List Utxo → ℕ × PendingTx → Bool
is_unlisted utxos (hash, t) = not (any (λ u. u.ref.hash == hash) utxos)

abbrev pub offered : ℕ → List Utxo → Pending → List Utxo
offered address utxos m =
    keep (λ u. not (includes u.ref (all_inputs m))) utxos
    ++ keep (λ u. u.address == address && not (includes u.ref (all_inputs m))) (all_outputs m)

abbrev pub apply_live : ℕ → List Utxo → Pending → List Utxo × Pending
apply_live address utxos [] = (utxos, [])
apply_live address utxos (e ∷ m) =
    let m' = keep (is_unlisted utxos) (e ∷ m) in (offered address utxos m', m')

-- `apply`
unfoldable pub apply : ℕ → ℕ → List Utxo → Pending → List Utxo × Pending
unfolding prune
apply now address utxos m = apply_live address utxos (prune now m)
