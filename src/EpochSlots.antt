-- ===== src/EpochSlots.antt =====
-- srv/utils/epoch-slots.ts, with the two tables of srv/utils/const.ts: slots, epochs and POSIX times
-- of the three networks. Before the Shelley start the source's differences are negative; they are
-- written out. Its `Math.floor` rounds down there, so that the quotient of the distance rounds up.
pub mod RoundTrips
mod Tests
use odatano.Base.{ℕ, ◌+◌, ◌-◌, ◌*◌, ◌/◌, Option, none, some, ltb, leb, if◌then◌else◌}

pub data EpochNetwork : Type 0 where
  mainnet preprod preview : EpochNetwork

pub record EpochConfig : Type 0 where
  pub shelley_start_epoch : ℕ
  pub shelley_start_slot : ℕ
  pub slots_per_epoch : ℕ

pub record GenesisInfos : Type 0 where
  pub system_start_posix_ms : ℕ
  pub slot_length_ms : ℕ
  pub start_slot_no : ℕ

-- `EPOCH_CONFIG_BY_NETWORK`
abbrev pub epoch_config : EpochNetwork → EpochConfig
epoch_config mainnet = record {
  shelley_start_epoch = 208;
  shelley_start_slot = 4_492_800;
  slots_per_epoch = 432_000;
}
epoch_config preprod = record {
  shelley_start_epoch = 4;
  shelley_start_slot = 86_400;
  slots_per_epoch = 432_000;
}
epoch_config preview = record {
  shelley_start_epoch = 0;
  shelley_start_slot = 0;
  slots_per_epoch = 86_400;
}

-- `GENESIS_INFOS_BY_NETWORK`
abbrev pub genesis_infos : EpochNetwork → GenesisInfos
genesis_infos mainnet = record {
  system_start_posix_ms = 1596059091000;
  slot_length_ms = 1000;
  start_slot_no = 4492800;
}
genesis_infos preprod = record {
  system_start_posix_ms = 1655683200000;
  slot_length_ms = 1000;
  start_slot_no = 0;
}
genesis_infos preview = record {
  system_start_posix_ms = 1666656000000;
  slot_length_ms = 1000;
  start_slot_no = 0;
}

-- `epochOfSlot`; no slot lies more epochs before the Shelley start than its epoch's number.
unfoldable pub epoch_of_slot : EpochNetwork → ℕ → ℕ
epoch_of_slot n slot =
    let c = epoch_config n in
    if ltb slot c.shelley_start_slot
    then c.shelley_start_epoch
      - (c.shelley_start_slot - slot + (c.slots_per_epoch - 1)) / c.slots_per_epoch
    else c.shelley_start_epoch + (slot - c.shelley_start_slot) / c.slots_per_epoch

-- `epochStartSlot`; nothing where the source's value is negative.
unfoldable pub epoch_start_slot : EpochNetwork → ℕ → Option ℕ
epoch_start_slot n epoch =
    let c = epoch_config n in
    if leb c.shelley_start_epoch epoch
    then some (c.shelley_start_slot + (epoch - c.shelley_start_epoch) * c.slots_per_epoch)
    else if leb ((c.shelley_start_epoch - epoch) * c.slots_per_epoch) c.shelley_start_slot
    then some (c.shelley_start_slot - (c.shelley_start_epoch - epoch) * c.slots_per_epoch)
    else none

-- `slotToPosixMs`; the system start is later than any slot's distance from it.
unfoldable pub slot_to_posix_ms : EpochNetwork → ℕ → ℕ
slot_to_posix_ms n slot =
    let g = genesis_infos n in
    if ltb slot g.start_slot_no
    then g.system_start_posix_ms - (g.start_slot_no - slot) * g.slot_length_ms
    else g.system_start_posix_ms + (slot - g.start_slot_no) * g.slot_length_ms

unfoldable pub slot_to_posix_seconds : EpochNetwork → ℕ → ℕ
unfolding slot_to_posix_ms
slot_to_posix_seconds n slot = slot_to_posix_ms n slot / 1000

-- `posixToSlot` of a finite time; nothing where it throws.
unfoldable pub posix_to_slot : EpochNetwork → ℕ → Option ℕ
unfolding slot_to_posix_ms
posix_to_slot n ms =
    let g = genesis_infos n in
    let shelley_start = slot_to_posix_ms n (epoch_config n).shelley_start_slot in
    if ltb ms shelley_start
    then none
    else some (g.start_slot_no + (ms - g.system_start_posix_ms) / g.slot_length_ms)
