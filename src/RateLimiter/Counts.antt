-- ===== src/RateLimiter/Counts.antt =====
-- Maps with distinct keys: what `set` and `delete` do to the size and to the keys of a group.
use odatano.Base.{
  ℕ, suc, ◌+◌, ◌≡◌, refl, none, some, [], ◌∷◌, arith, ◌==◌, length, if◌then◌else◌, or_default,
}
use odatano.Base.Dict.{Dict, lookup, insert, erase, lookup-insert, lookup-erase_ne}

module _ {V : Type 0} where
  abbrev pub Distinct : Dict V → Type 0
  Distinct [] = Unit
  Distinct ((k, v) ∷ m) = (lookup k m ≡ none) × Distinct m

  pub lookup-erase_self : (k : ℕ) (m : Dict V) → Distinct m → lookup k (erase k m) ≡ none
  lookup-erase_self k [] d = refl
  lookup-erase_self k ((j, v) ∷ m) d = ground (arith, lookup-erase_self k m d.1)

  pub lookup-erase-none :
      (k j : ℕ) (m : Dict V) → Distinct m → lookup j m ≡ none → lookup j (erase k m) ≡ none
  lookup-erase-none k j [] d h = refl
  lookup-erase-none k j ((i, v) ∷ m) d h = ground (arith, lookup-erase-none k j m d.1)

  pub erase-Distinct : (k : ℕ) (m : Dict V) → Distinct m → Distinct (erase k m)
  erase-Distinct k [] d = tt
  erase-Distinct k ((j, v) ∷ m) d =
      ground (arith, d, lookup-erase-none k j m d.1 d.0, erase-Distinct k m d.1)

  pub insert-Distinct : (k : ℕ) (v : V) (m : Dict V) → Distinct m → Distinct (insert k v m)
  insert-Distinct k v [] d = (refl, tt)
  insert-Distinct k v ((j, w) ∷ m) d =
      ground (arith, d, lookup-insert k j v m, insert-Distinct k v m d.1)

  pub length-erase :
      (k : ℕ) (m : Dict V) {v : V} → lookup k m ≡ some v → length m ≡ suc (length (erase k m))
  length-erase k [] h = ground arith
  length-erase k ((j, w) ∷ m) {v} h = ground (arith, length-erase k m {v = v})

  pub erase_missing : (k : ℕ) (m : Dict V) → lookup k m ≡ none → erase k m ≡ m
  erase_missing k [] h = refl
  erase_missing k ((j, w) ∷ m) h = ground (arith, erase_missing k m)

  pub length-insert_new :
      (k : ℕ) (v : V) (m : Dict V) → lookup k m ≡ none → length (insert k v m) ≡ suc (length m)
  length-insert_new k v [] h = refl
  length-insert_new k v ((j, w) ∷ m) h = ground (arith, length-insert_new k v m)

  module _ (group_of : ℕ → ℕ) where
    -- How many keys of the map are in a group.
    abbrev pub members : ℕ → Dict V → ℕ
    members g [] = 0
    members g ((k, v) ∷ m) = if group_of k == g then suc (members g m) else members g m

    pub members-erase :
        (g k : ℕ) (m : Dict V) {v : V}
        → lookup k m ≡ some v
        → members g m ≡ members g (erase k m) + (if group_of k == g then 1 else 0)
    members-erase g k [] h = ground arith
    members-erase g k ((j, w) ∷ m) {v} h = ground (arith, members-erase g k m {v = v})

    pub members-insert_new :
        (g k : ℕ) (v : V) (m : Dict V)
        → lookup k m ≡ none
        → members g (insert k v m) ≡ members g m + (if group_of k == g then 1 else 0)
    members-insert_new g k v [] h = ground arith
    members-insert_new g k v ((j, w) ∷ m) h = ground (arith, members-insert_new g k v m)

-- The counter of a group after `set`, and after `delete`.
abbrev pub count_in : Dict ℕ → ℕ → ℕ
count_in counts g = or_default (lookup g counts) 0

pub count-insert :
    (g h n : ℕ) (counts : Dict ℕ)
    → count_in (insert g n counts) h ≡ (if g == h then n else count_in counts h)
count-insert g h n counts = ground (arith, lookup-insert g h n counts)

pub count-erase :
    (g h : ℕ) (counts : Dict ℕ)
    → Distinct counts
    → count_in (erase g counts) h ≡ (if g == h then 0 else count_in counts h)
count-erase g h counts d = ground (arith, lookup-erase_self g counts d, lookup-erase_ne g h counts)
