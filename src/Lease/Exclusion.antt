-- ===== src/Lease/Exclusion.antt =====
-- Two instances that compete for one lease: a race for it, and a renewal that comes too late.
use odatano.Base.{ℕ, ◌≤◌, ◌≡◌, ◌≢◌, ap, ◌∙◌, inl, inr, true, false, some, arith, Option-cases}
use odatano.Lease.{Lease, acquire, renew}

owner_differs : (o first : ℕ) (l : Lease) → l.owner ≢ some first → l.owner ≡ some o → o ≢ first
owner_differs o first l h e same = h (e ∙ ap some same)

-- Two instances that have read the same free or foreign lease: once one of them is granted it, the
-- other's acquisition fails and leaves the lease to the first.
pub race_has_one_winner :
    (first second t u ttl : ℕ) (seen l : Lease)
    → first ≢ second
    → seen.owner ≢ some first
    → (acquire seen first t ttl l).0 ≡ true
    → l.owner ≡ seen.owner
    → let l' = (acquire seen first t ttl l).1 in
      (acquire seen second u ttl l').0 ≡ false × ((acquire seen second u ttl l').1 ≡ l')
unfolding acquire
race_has_one_winner first second t u ttl seen l ne fresh won same = elim (Option-cases seen.owner) [
  | inl nobody ↦ ground arith
  | inr (o, held) ↦ ground (arith, owner_differs o first seen fresh held)
]

-- An owner that renews an expired lease after another instance has read it still loses the lease to
-- that instance, since only the owner is compared; its next renewal then fails.
pub late_renewal_is_fenced :
    (me other deadline t u v ttl : ℕ) (l : Lease)
    → me ≢ other
    → l ≡ record { owner = some me; until = some deadline }
    → deadline ≤ u
    → let renewed = (renew me t ttl l).1 in
      let taken = acquire l other u ttl renewed in
      ((renew me t ttl l).0 ≡ true) × (taken.0 ≡ true) × ((renew me v ttl taken.1).0 ≡ false)
unfolding acquire renew
late_renewal_is_fenced me other deadline t u v ttl l ne shape expired = ground arith
