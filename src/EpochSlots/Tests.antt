-- ===== src/EpochSlots/Tests.antt =====
-- Slots and epochs of known blocks.
use odatano.Base.{ℕ, ◌+◌, ◌≤◌, ◌<◌, ◌≡◌, ◌↔◌, refl, some, arith}
use odatano.EpochSlots.{
  mainnet, preprod, epoch_of_slot, epoch_start_slot, slot_to_posix_ms, posix_to_slot,
}
use odatano.EpochSlots.RoundTrips.{
  posix_to_slot-slot_to_posix_ms, posix_to_slot_contains, epoch_of_slot_iff,
}

byron_epoch : epoch_of_slot mainnet 4_492_799 ≡ 207
unfolding epoch_of_slot
byron_epoch = refl

posix_to_slot-slot_to_posix_ms_example :
    posix_to_slot mainnet (slot_to_posix_ms mainnet 100_000_000) ≡ some 100_000_000
posix_to_slot-slot_to_posix_ms_example =
    posix_to_slot-slot_to_posix_ms mainnet 100_000_000 (omega arith)

posix_to_slot_contains_example :
    (slot_to_posix_ms preprod 86_401 ≤ 1655769601500)
    × (1655769601500 < slot_to_posix_ms preprod (86_401 + 1))
unfolding posix_to_slot slot_to_posix_ms
posix_to_slot_contains_example = posix_to_slot_contains preprod 1655769601500 86_401 refl

epoch_of_slot_iff_example :
    (first : ℕ) × (next : ℕ) × (epoch_start_slot mainnet 500 ≡ some first)
    × (epoch_start_slot mainnet (500 + 1) ≡ some next)
    × ((epoch_of_slot mainnet 130_600_000 ≡ 500) ↔ ((first ≤ 130_600_000) × (130_600_000 < next)))
epoch_of_slot_iff_example = epoch_of_slot_iff mainnet 500 130_600_000 (omega arith)
