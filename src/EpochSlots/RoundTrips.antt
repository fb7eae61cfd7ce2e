-- ===== src/EpochSlots/RoundTrips.antt =====
-- Slots, epochs and times agree from the Shelley start on.
use odatano.Base.{ℕ, ◌+◌, ◌≤◌, ◌<◌, ◌≡◌, ◌↔◌, ◌-◌, ◌*◌, some, arith}
use odatano.EpochSlots.{
  EpochNetwork, mainnet, preprod, preview, epoch_config, epoch_of_slot, epoch_start_slot,
  slot_to_posix_ms, posix_to_slot,
}

-- A slot from the Shelley start on is the slot that contains the time at which it begins.
pub posix_to_slot-slot_to_posix_ms :
    (n : EpochNetwork) (slot : ℕ)
    → (epoch_config n).shelley_start_slot ≤ slot
    → posix_to_slot n (slot_to_posix_ms n slot) ≡ some slot
unfolding posix_to_slot slot_to_posix_ms
posix_to_slot-slot_to_posix_ms mainnet slot h = ground arith
posix_to_slot-slot_to_posix_ms preprod slot h = ground arith
posix_to_slot-slot_to_posix_ms preview slot h = ground arith

-- The slot found for a time has begun by then, and the next one has not.
pub posix_to_slot_contains :
    (n : EpochNetwork) (ms slot : ℕ)
    → posix_to_slot n ms ≡ some slot
    → (slot_to_posix_ms n slot ≤ ms) × (ms < slot_to_posix_ms n (slot + 1))
unfolding posix_to_slot slot_to_posix_ms
posix_to_slot_contains mainnet ms slot h = ground arith
posix_to_slot_contains preprod ms slot h = ground arith
posix_to_slot_contains preview ms slot h = ground arith

-- An epoch from the Shelley start on begins at a slot of it, and is the epoch of exactly the slots
-- from there until the next epoch begins.
pub epoch_of_slot_iff :
    (n : EpochNetwork) (epoch slot : ℕ)
    → (epoch_config n).shelley_start_epoch ≤ epoch
    → (first : ℕ) × (next : ℕ) × (epoch_start_slot n epoch ≡ some first)
      × (epoch_start_slot n (epoch + 1) ≡ some next)
      × ((epoch_of_slot n slot ≡ epoch) ↔ ((first ≤ slot) × (slot < next)))
unfolding epoch_of_slot epoch_start_slot
epoch_of_slot_iff mainnet epoch slot h = (
  4_492_800 + (epoch - 208) * 432_000,
  4_492_800 + (epoch + 1 - 208) * 432_000,
  ground arith,
  ground arith,
  ground arith,
)
epoch_of_slot_iff preprod epoch slot h = (
  86_400 + (epoch - 4) * 432_000,
  86_400 + (epoch + 1 - 4) * 432_000,
  ground arith,
  ground arith,
  ground arith,
)
epoch_of_slot_iff preview epoch slot h =
    (epoch * 86_400, (epoch + 1) * 86_400, ground arith, ground arith, ground arith)
