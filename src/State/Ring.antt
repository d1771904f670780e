-- ===== src/State/Ring.antt =====
-- program/src/state.rs, `FinalizationRing`: the last 128 finalizations, written in place.
pub mod Block
pub mod Slots
pub mod Write
pub mod Lookup
pub mod Total
pub mod Scan
pub mod Fresh
use zkasper_solana.Base.{
  ℕ, zero, suc, ◌+◌, ◌*◌, ◌%◌, Bool, true, false, not, ltb, ◌==◌, bytes_eq, length, if◌then◌else◌,
  Option, none, some,
}
use zkasper_solana.Base.Slices.{Bytes}
use zkasper_solana.Base.Result.{Result, ok, ◌>>=◌, ◌>>◌, refuse_if, ok_or}
use zkasper_solana.Base.Memory.{read, read_byte, write, write_byte}
use zkasper_solana.Base.Words.{u64_bytes, IsArray, IsU64}
use zkasper_solana.Errors.{
  ZkasperError, account_data_too_small, wrong_account_tag, epoch_not_in_ring,
  state_root_not_anchored,
}
use zkasper_solana.State.LightClient.{u64_at, a32}

abbrev pub tag_finalization_ring : ℕ
tag_finalization_ring = 2

abbrev pub tag_ring_entry : ℕ
tag_ring_entry = 3

abbrev pub ring_entries : ℕ
ring_entries = 128

abbrev ring_off_tag : ℕ
ring_off_tag = 0

abbrev ring_off_bump : ℕ
ring_off_bump = 1

abbrev pub ring_header_len : ℕ
ring_header_len = 2

abbrev pub ent_off_tag : ℕ
ent_off_tag = 0

abbrev pub ent_off_epoch : ℕ
ent_off_epoch = 1

abbrev pub ent_off_root : ℕ
ent_off_root = 9

abbrev pub ent_off_state_root : ℕ
ent_off_state_root = 41

abbrev pub ring_entry_len : ℕ
ring_entry_len = 73

abbrev pub ring_len : ℕ
ring_len = ring_header_len + ring_entries * ring_entry_len

pub record FinalizationEntry : Type 0 where
  pub finalized_epoch : ℕ
  pub finalized_root : Bytes
  pub finalized_state_root : Bytes

pub record IsEntry (e : FinalizationEntry) : Type 0 where
  pub finalized_epoch : IsU64 e.finalized_epoch
  pub finalized_root : IsArray 32 e.finalized_root
  pub finalized_state_root : IsArray 32 e.finalized_state_root

unfoldable pub init : Bytes → ℕ → Result ZkasperError Bytes
init bytes bump = do
  refuse_if (ltb (length bytes) ring_len) account_data_too_small
  bytes ← write_byte ring_off_tag tag_finalization_ring bytes
  write_byte ring_off_bump bump bytes

unfoldable pub header : Bytes → Result ZkasperError (Unit {0})
header bytes = do
  refuse_if (ltb (length bytes) ring_len) account_data_too_small
  tag ← read_byte ring_off_tag bytes
  refuse_if (not (tag == tag_finalization_ring)) wrong_account_tag

unfoldable pub bump : Bytes → Result ZkasperError ℕ
bump bytes = do header bytes; read_byte ring_off_bump bytes

unfoldable pub index_of : ℕ → ℕ
index_of epoch = epoch % ring_entries

unfoldable pub offset : ℕ → ℕ
offset index = ring_header_len + index * ring_entry_len

-- The body of `slot` at the offset `at`; `none` is a slot that nothing was written to.
unfoldable pub slot_at : ℕ → Bytes → Result ZkasperError (Option FinalizationEntry)
slot_at at bytes = do
  tag ← read_byte (at + ent_off_tag) bytes
  if not (tag == tag_ring_entry) then ok none else do
    epoch ← u64_at bytes (at + ent_off_epoch)
    root ← a32 bytes (at + ent_off_root)
    state_root ← a32 bytes (at + ent_off_state_root)
    ok (
        some (record {
          finalized_epoch = epoch;
          finalized_root = root;
          finalized_state_root = state_root;
        }))

unfoldable pub slot : Bytes → ℕ → Result ZkasperError (Option FinalizationEntry)
slot bytes index = slot_at (offset index) bytes

-- The stores of `write`, at the offset `at`.
unfoldable pub write_at : ℕ → FinalizationEntry → Bytes → Result ZkasperError Bytes
write_at at entry bytes = do
  bytes ← write_byte (at + ent_off_tag) tag_ring_entry bytes
  bytes ←
      write (at + ent_off_epoch) (at + ent_off_epoch + 8) (u64_bytes entry.finalized_epoch) bytes
  bytes ← write (at + ent_off_root) (at + ent_off_root + 32) entry.finalized_root bytes
  write (at + ent_off_state_root) (at + ent_off_state_root + 32) entry.finalized_state_root bytes

unfoldable pub write_entry : Bytes → FinalizationEntry → Result ZkasperError Bytes
write_entry bytes entry = do
  header bytes
  write_at (offset (index_of entry.finalized_epoch)) entry bytes

-- `Option::filter`
abbrev pub filter {ℓ} : {A : Type ℓ} → (A → Bool) → Option A → Option A
filter test none = none
filter test (some a) = if test a then some a else none

unfoldable pub entry : Bytes → ℕ → Result ZkasperError FinalizationEntry
entry bytes epoch = do
  header bytes
  found ← slot bytes (index_of epoch)
  ok_or epoch_not_in_ring (filter (λ e. e.finalized_epoch == epoch) found)

-- The closure of the search, at one index.
unfoldable pub names_root : Bytes → Bytes → ℕ → Result ZkasperError Bool
names_root bytes state_root index = do
  tag ← read_byte (offset index + ent_off_tag) bytes
  if not (tag == tag_ring_entry) then ok false else do
    stored ← a32 bytes (offset index + ent_off_state_root)
    ok (bytes_eq stored state_root)

-- `(index..index + count).find(…)`
unfoldable pub find_index : Bytes → Bytes → ℕ → ℕ → Result ZkasperError (Option ℕ)
find_index bytes state_root zero index = ok none
find_index bytes state_root (suc count) index =
    let rest = find_index bytes state_root count (index + 1) in
    names_root bytes state_root index >>= λ found. if found then ok (some index) else rest

unfoldable pub entry_by_state_root : Bytes → Bytes → Result ZkasperError FinalizationEntry
entry_by_state_root bytes state_root = do
  header bytes
  found ← find_index bytes state_root ring_entries 0
  index ← ok_or state_root_not_anchored found
  held ← slot bytes index
  ok_or state_root_not_anchored held
