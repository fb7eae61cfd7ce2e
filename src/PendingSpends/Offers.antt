-- ===== src/PendingSpends/Offers.antt =====
-- Builders are never offered an output that a pending transaction spends.
use odatano.Base.{
  ℕ, ◌+◌, ◌<◌, ◌≡◌, ◌≢◌, refl, ap, sym, subst, ◌∙◌, inl, inr, Bool, true, false, Option, none, some,
  List, [], ◌∷◌, ◌++◌, arith, not, any, keep, ◌==◌, ◌&&◌, ◌||◌, All, keep_idem, Bool-cases,
}
use odatano.Base.Dict.{lookup, insert, lookup-insert, lookup-insert_self}
use odatano.PendingSpends.{
  OutRef, Utxo, Parsed, PendingTx, Pending, pending_tx_ttl_ms, includes, pending_of, record_tx,
  is_live, prune, first_spender, spent_by, all_inputs, all_outputs, is_unlisted, offered,
  apply_live, apply,
}

module _ (r : OutRef) where
  includes-append : (xs ys : List OutRef) → includes r (xs ++ ys) ≡ (includes r xs || includes r ys)
  includes-append [] ys = refl
  includes-append (x ∷ xs) ys = ground (arith, includes-append xs ys)

  no_spender : (m : Pending) → includes r (all_inputs m) ≡ false → first_spender r m ≡ none
  no_spender [] h = refl
  no_spender ((hash, t) ∷ m) h =
      ground (arith, includes-append t.inputs (all_inputs m), no_spender m)

  spends_all :
      (hash : ℕ) (m : Pending) {t : PendingTx}
      → lookup hash m ≡ some t
      → includes r t.inputs ≡ true
      → includes r (all_inputs m) ≡ true
  spends_all hash [] {t} e h = ground arith
  spends_all hash ((j, s) ∷ m) {t} e h =
      ground (arith, includes-append s.inputs (all_inputs m), spends_all hash m {t = t})

keep_idem_pending : (p : ℕ × PendingTx → Bool) (m : Pending) → keep p (keep p m) ≡ keep p m
keep_idem_pending p m = keep_idem p m

-- Keeping more entries away keeps the live ones live.
keep-keep :
    (p q : ℕ × PendingTx → Bool) (m : Pending) → keep p (keep q (keep p m)) ≡ keep q (keep p m)
keep-keep p q [] = refl
keep-keep p q (e ∷ m) = elim (Bool-cases (p e)) [
  | inl a ↦ elim (Bool-cases (q e)) [
    | inl b ↦ ground (arith, keep-keep p q m)
    | inr b ↦ ground (arith, keep-keep p q m)
  ]
  | inr a ↦ ground (arith, keep-keep p q m)
]

kept_unspent :
    (P : Utxo → Type 0) (p : Utxo → Bool)
    → ((u : Utxo) → p u ≡ true → P u)
    → (us : List Utxo) → All P (keep p us)
kept_unspent P p h [] = tt
kept_unspent P p h (u ∷ us) = ground (arith, h u, kept_unspent P p h us)

All-append : (P : Utxo → Type 0) (us vs : List Utxo) → All P us → All P vs → All P (us ++ vs)
All-append P [] vs h k = k
All-append P (u ∷ us) vs h k = (h.0, All-append P us vs h.1 k)

-- No input of the store is among the outputs.
abbrev pub IsUnspent : Pending → Utxo → Type 0
IsUnspent m u = includes u.ref (all_inputs m) ≡ false

offered-IsUnspent :
    (address : ℕ) (utxos : List Utxo) (m : Pending) → All (IsUnspent m) (offered address utxos m)
offered-IsUnspent address utxos m =
    All-append (IsUnspent m) (keep (λ u. not (includes u.ref (all_inputs m))) utxos) _
      (kept_unspent (IsUnspent m) (λ u. not (includes u.ref (all_inputs m))) (λ u h. ground arith)
        utxos)
      (kept_unspent (IsUnspent m) (λ u. u.address == address && not (includes u.ref (all_inputs m)))
        (λ u h. ground arith) (all_outputs m))

every : (P : Utxo → Type 0) → ((u : Utxo) → P u) → (us : List Utxo) → All P us
every P h [] = tt
every P h (u ∷ us) = (h u, every P h us)

implied : (P Q : Utxo → Type 0) → ((u : Utxo) → P u → Q u) → (us : List Utxo) → All P us → All Q us
implied P Q h [] k = tt
implied P Q h (u ∷ us) k = (h u k.0, implied P Q h us k.1)

apply_live-unspent :
    (now address : ℕ) (utxos : List Utxo) (l : Pending)
    → keep (is_live now) (keep (is_unlisted utxos) l) ≡ keep (is_unlisted utxos) l
    → All
        (λ u. first_spender u.ref (keep (is_live now) (apply_live address utxos l).1) ≡ none)
        (apply_live address utxos l).0
apply_live-unspent now address utxos [] e = every _ (λ u. refl) utxos
apply_live-unspent now address utxos (x ∷ l) e =
    let m = keep (is_unlisted utxos) (x ∷ l) in
    implied (IsUnspent m) (λ u. first_spender u.ref (keep (is_live now) m) ≡ none)
      (λ u h. ap (first_spender u.ref) e ∙ no_spender u.ref m h) (offered address utxos m)
      (offered-IsUnspent address utxos m)

-- The outputs that a builder is offered for an address are none of those for which `spentBy` names a
-- pending transaction at that time, whichever outputs the chain lists and whatever is pending.
pub apply-spent_by :
    (now address : ℕ) (utxos : List Utxo) (m : Pending)
    → let offer = apply now address utxos m in
      All (λ u. (spent_by now u.ref offer.1).0 ≡ none) offer.0
unfolding apply spent_by prune
apply-spent_by now address utxos m =
    apply_live-unspent now address utxos (keep (is_live now) m)
      (keep-keep (is_live now) (is_unlisted utxos) m)

-- What the client does with the store, each at a time.
pub data Use : Type 0 where
  submits : ℕ → Option Parsed → Use
  asks : ℕ → OutRef → Use
  lists : ℕ → ℕ → List Utxo → Use

unfoldable pub use_store : Use → Pending → Pending
use_store (submits now p) m = record_tx now p m
use_store (asks now r) m = (spent_by now r m).1
use_store (lists now address utxos) m = (apply now address utxos m).1

unfoldable pub use_all : List Use → Pending → Pending
use_all [] m = m
use_all (u ∷ us) m = use_all us (use_store u m)

module _ (hash deadline : ℕ) (inputs : List OutRef) where
  -- The transaction is pending until the deadline.
  Holds : Pending → Type 0
  Holds m =
      (t : PendingTx) × (lookup hash m ≡ some t) × (t.inputs ≡ inputs) × (t.expires_at ≡ deadline)

  -- No output of the transaction is listed.
  abbrev pub IsUnseen : List Utxo → Type 0
  IsUnseen utxos = any (λ u. u.ref.hash == hash) utxos ≡ false

  abbrev pub IsOther : Option Parsed → Type 0
  IsOther none = Unit
  IsOther (some p) = p.hash ≢ hash

  -- A use before the deadline, of another transaction or before this one is crawled.
  abbrev pub IsEarly : Use → Type 0
  IsEarly (submits now p) = IsOther p
  IsEarly (asks now r) = now < deadline
  IsEarly (lists now address utxos) = (now < deadline) × IsUnseen utxos

  abbrev pub AllEarly : List Use → Type 0
  AllEarly [] = Unit
  AllEarly (u ∷ us) = IsEarly u × AllEarly us

  lookup-keep :
      (p : ℕ × PendingTx → Bool) (m : Pending) {t : PendingTx}
      → lookup hash m ≡ some t
      → p (hash, t) ≡ true
      → lookup hash (keep p m) ≡ some t
  lookup-keep p [] {t} e h = ground arith
  lookup-keep p ((j, s) ∷ m) {t} e h = elim (Bool-cases (j == hash)) [
    | inl same ↦
        let js : j ≡ hash = ground arith in
        let st : s ≡ t = ground (arith, js) in
        let kept : p (j, s) ≡ true =
          subst (λ i. p (i, s) ≡ true) (sym js) (subst (λ x. p (hash, x) ≡ true) (sym st) h) in
        ground (arith, kept)
    | inr other ↦ ground (arith, lookup-keep p m {t = t})
  ]

  prune-Holds : (now : ℕ) (m : Pending) → now < deadline → Holds m → Holds (keep (is_live now) m)
  unfolding Holds
  prune-Holds now m early (t, e, i, x) =
      (t, lookup-keep (is_live now) m {t = t} e (ground arith), i, x)

  unlisted-Holds :
      (utxos : List Utxo) (m : Pending)
      → IsUnseen utxos
      → Holds m
      → Holds (keep (is_unlisted utxos) m)
  unfolding Holds
  unlisted-Holds utxos m unseen (t, e, i, x) =
      (t, lookup-keep (is_unlisted utxos) m {t = t} e (ground arith), i, x)

  apply_live-Holds :
      (address : ℕ) (utxos : List Utxo) (l : Pending)
      → IsUnseen utxos
      → Holds l
      → Holds (apply_live address utxos l).1
  apply_live-Holds address utxos [] unseen h = h
  apply_live-Holds address utxos (x ∷ l) unseen h = unlisted-Holds utxos (x ∷ l) unseen h

  use-Holds : (u : Use) (m : Pending) → IsEarly u → Holds m → Holds (use_store u m)
  unfolding use_store record_tx spent_by apply prune Holds
  use-Holds (submits now none) m early h = h
  use-Holds (submits now (some p)) m early (t, e, i, x) =
      (t, ground (arith, lookup-insert p.hash hash (pending_of p now) m), i, x)
  use-Holds (asks now r) m early h = prune-Holds now m early h
  use-Holds (lists now address utxos) m early h =
      apply_live-Holds address utxos (keep (is_live now) m) early.1 (prune-Holds now m early.0 h)

  uses-Holds : (us : List Use) (m : Pending) → AllEarly us → Holds m → Holds (use_all us m)
  unfolding use_all
  uses-Holds [] m early h = h
  uses-Holds (u ∷ us) m early h = uses-Holds us (use_store u m) early.1 (use-Holds u m early.0 h)

  withheld :
      (address : ℕ) (utxos : List Utxo) (l : Pending)
      → IsUnseen utxos
      → Holds l
      → All (λ u. includes u.ref inputs ≡ false) (apply_live address utxos l).0
  unfolding Holds
  withheld address utxos [] unseen (t, e, i, x) = ground arith
  withheld address utxos (y ∷ l) unseen h =
      let m = keep (is_unlisted utxos) (y ∷ l) in
      let (t, e, i, x) = unlisted-Holds utxos (y ∷ l) unseen h in
      implied (IsUnspent m) (λ u. includes u.ref inputs ≡ false)
        (λ u free. ground (arith, spends_all u.ref hash m {t = t} e, i, free))
        (offered address utxos m) (offered-IsUnspent address utxos m)

-- After a transaction has been recorded, and until its time to live has passed or one of its outputs
-- is listed as crawled, no list of outputs that a builder is offered has an input of it, whatever
-- other transactions are recorded and whatever is asked in between, in any order.
pub inputs_are_withheld :
    (p : Parsed) (start now address : ℕ) (utxos : List Utxo) (us : List Use) (m : Pending)
    → AllEarly p.hash (start + pending_tx_ttl_ms) p.inputs us
    → now < start + pending_tx_ttl_ms
    → IsUnseen p.hash (start + pending_tx_ttl_ms) p.inputs utxos
    → All
        (λ u. includes u.ref p.inputs ≡ false)
        (apply now address utxos (use_all us (record_tx start (some p) m))).0
unfolding apply prune record_tx Holds
inputs_are_withheld p start now address utxos us m early soon unseen =
    let deadline = start + pending_tx_ttl_ms in
    let m' = use_all us (insert p.hash (pending_of p start) m) in
    let there : Holds p.hash deadline p.inputs (insert p.hash (pending_of p start) m) =
      (pending_of p start, lookup-insert_self p.hash (pending_of p start) m, refl, refl) in
    withheld p.hash deadline p.inputs address utxos (keep (is_live now) m') unseen (
      prune-Holds p.hash deadline p.inputs now m' soon
        (uses-Holds p.hash deadline p.inputs us _ early there))
