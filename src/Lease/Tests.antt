-- ===== src/Lease/Tests.antt =====
-- Leases of concrete instances.
use odatano.Base.{◌≡◌, refl, true, false, some, arith}
use odatano.Lease.{Lease, free, acquire, renew}
use odatano.Lease.Exclusion.{race_has_one_winner, late_renewal_is_fenced}

race_has_one_winner_example :
    let l' = (acquire free 1 10 100 free).1 in
    (acquire free 2 11 100 l').0 ≡ false × ((acquire free 2 11 100 l').1 ≡ l')
unfolding acquire
race_has_one_winner_example =
    race_has_one_winner 1 2 10 11 100 free free (ground arith) (ground arith) refl refl

abbrev expired : Lease
expired = record { owner = some 1; until = some 10 }

late_renewal_is_fenced_example :
    let renewed = (renew 1 11 100 expired).1 in
    let taken = acquire expired 2 12 100 renewed in
    ((renew 1 11 100 expired).0 ≡ true) × (taken.0 ≡ true) × ((renew 1 13 100 taken.1).0 ≡ false)
late_renewal_is_fenced_example =
    late_renewal_is_fenced 1 2 10 11 12 13 100 expired (ground arith) refl (ground arith)
