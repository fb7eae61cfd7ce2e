-- ===== src/PendingSpends/Tests.antt =====
-- Two transactions in the mempool, the second spending the change of the first.
use odatano.Base.{◌≡◌, refl, false, none, some, List, [], ◌∷◌, arith, All}
use odatano.PendingSpends.{Utxo, Parsed, record_tx, spent_by, apply, includes}
use odatano.PendingSpends.Offers.{
  Use, submits, asks, lists, use_all, use_store, apply-spent_by, inputs_are_withheld,
}

abbrev first : Parsed
first = record {
  hash = 20;
  inputs = record { hash = 10; index = 0 } ∷ [];
  outputs = (5, 900) ∷ (7, 100) ∷ [];
}

abbrev second : Parsed
second = record { hash = 30; inputs = record { hash = 20; index = 1 } ∷ []; outputs = (7, 90) ∷ [] }

abbrev listed : List Utxo
listed =
    record { ref = record { hash = 10; index = 0 }; address = 7; content = 1000 }
    ∷ record { ref = record { hash = 11; index = 2 }; address = 7; content = 50 }
    ∷ []

abbrev later : List Use
later =
    submits 2000 (some second)
    ∷ lists 3000 7 listed
    ∷ asks 4000 (record { hash = 20; index = 1 })
    ∷ []

-- The spent output is withheld, and the change of the second transaction is offered.
offers :
    (apply 5000 7 listed (use_all later (record_tx 1000 (some first) []))).0
    ≡ record { ref = record { hash = 11; index = 2 }; address = 7; content = 50 }
      ∷ record { ref = record { hash = 30; index = 0 }; address = 7; content = 90 }
      ∷ []
unfolding apply record_tx use_all use_store spent_by
offers = refl

apply-spent_by_example :
    let offer = apply 5000 7 listed (record_tx 1000 (some first) []) in
    All (λ u. (spent_by 5000 u.ref offer.1).0 ≡ none) offer.0
apply-spent_by_example = apply-spent_by 5000 7 listed (record_tx 1000 (some first) [])

inputs_are_withheld_example :
    All
      (λ u. includes u.ref first.inputs ≡ false)
      (apply 5000 7 listed (use_all later (record_tx 1000 (some first) []))).0
inputs_are_withheld_example =
    inputs_are_withheld first 1000 5000 7 listed later [] (ground arith) (omega arith) refl
