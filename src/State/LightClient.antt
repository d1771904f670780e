-- ===== src/State/LightClient.antt =====
-- program/src/state.rs, `LightClientState`: the light client's account, read and written by offset.
pub mod Layout
pub mod Unpack
pub mod Total
use zkasper_solana.Base.{ℕ, ◌+◌, ◌≡◌, Bool, not, ltb, ◌==◌, length, if◌then◌else◌}
use zkasper_solana.Base.Slices.{Bytes}
use zkasper_solana.Base.Result.{Result, ok, ◌>>=◌, ◌>>◌, refuse_if}
use zkasper_solana.Base.Memory.{read, read_byte, write, write_byte}
use zkasper_solana.Base.Words.{from_le_bytes, u64_bytes, IsArray, IsU64, IsByte}
use zkasper_solana.Errors.{ZkasperError, account_data_too_small, wrong_account_tag}

abbrev pub tag_light_client : ℕ
tag_light_client = 1

abbrev off_tag : ℕ
off_tag = 0

abbrev off_bump : ℕ
off_bump = 1

abbrev off_authority : ℕ
off_authority = 2

abbrev off_acc_commitment : ℕ
off_acc_commitment = 34

abbrev off_latest_state_root : ℕ
off_latest_state_root = 66

abbrev off_finalized_epoch : ℕ
off_finalized_epoch = 98

abbrev off_finalized_root : ℕ
off_finalized_root = 106

abbrev off_program_vk : ℕ
off_program_vk = 138

abbrev off_submission_count : ℕ
off_submission_count = 170

abbrev off_acc_epoch : ℕ
off_acc_epoch = 178

abbrev pub light_client_len : ℕ
light_client_len = 186

-- A `Pubkey` is its 32 bytes.
abbrev pub Pubkey : Type 0
Pubkey = Bytes

pub record LightClientState : Type 0 where
  pub bump : ℕ
  pub authority : Pubkey
  pub accumulator_commitment : Bytes
  pub latest_state_root : Bytes
  pub finalized_epoch : ℕ
  pub finalized_root : Bytes
  pub program_vk : Bytes
  pub submission_count : ℕ
  pub accumulator_epoch : ℕ

-- The values of the Rust type.
pub record IsState (s : LightClientState) : Type 0 where
  pub bump : IsByte s.bump
  pub authority : IsArray 32 s.authority
  pub accumulator_commitment : IsArray 32 s.accumulator_commitment
  pub latest_state_root : IsArray 32 s.latest_state_root
  pub finalized_epoch : IsU64 s.finalized_epoch
  pub finalized_root : IsArray 32 s.finalized_root
  pub program_vk : IsArray 32 s.program_vk
  pub submission_count : IsU64 s.submission_count
  pub accumulator_epoch : IsU64 s.accumulator_epoch

abbrev pub u64_at : {E : Type 0} → Bytes → ℕ → Result E ℕ
u64_at bytes off = do word ← read off (off + 8) bytes; ok (from_le_bytes word)

abbrev pub a32 : {E : Type 0} → Bytes → ℕ → Result E Bytes
a32 bytes off = read off (off + 32) bytes

unfoldable pub unpack : Bytes → Result ZkasperError LightClientState
unpack bytes = do
  refuse_if (ltb (length bytes) light_client_len) account_data_too_small
  tag ← read_byte off_tag bytes
  refuse_if (not (tag == tag_light_client)) wrong_account_tag
  bump ← read_byte off_bump bytes
  authority ← a32 bytes off_authority
  commitment ← a32 bytes off_acc_commitment
  state_root ← a32 bytes off_latest_state_root
  epoch ← u64_at bytes off_finalized_epoch
  root ← a32 bytes off_finalized_root
  vk ← a32 bytes off_program_vk
  count ← u64_at bytes off_submission_count
  acc_epoch ← u64_at bytes off_acc_epoch
  ok (record {
    bump = bump;
    authority = authority;
    accumulator_commitment = commitment;
    latest_state_root = state_root;
    finalized_epoch = epoch;
    finalized_root = root;
    program_vk = vk;
    submission_count = count;
    accumulator_epoch = acc_epoch;
  })

unfoldable pub pack_into : LightClientState → Bytes → Result ZkasperError Bytes
pack_into s bytes = do
  refuse_if (ltb (length bytes) light_client_len) account_data_too_small
  bytes ← write_byte off_tag tag_light_client bytes
  bytes ← write_byte off_bump s.bump bytes
  bytes ← write off_authority (off_authority + 32) s.authority bytes
  bytes ← write off_acc_commitment (off_acc_commitment + 32) s.accumulator_commitment bytes
  bytes ← write off_latest_state_root (off_latest_state_root + 32) s.latest_state_root bytes
  bytes ← write off_finalized_epoch (off_finalized_epoch + 8) (u64_bytes s.finalized_epoch) bytes
  bytes ← write off_finalized_root (off_finalized_root + 32) s.finalized_root bytes
  bytes ← write off_program_vk (off_program_vk + 32) s.program_vk bytes
  bytes ← write off_submission_count (off_submission_count + 8) (u64_bytes s.submission_count) bytes
  write off_acc_epoch (off_acc_epoch + 8) (u64_bytes s.accumulator_epoch) bytes
