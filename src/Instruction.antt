-- ===== src/Instruction.antt =====
-- program/src/instruction.rs: the instructions, their decoding, and the client-side builders.
pub mod Build
pub mod Payload
pub mod RoundTrip
pub mod Canonical
use zkasper_solana.Base.{ℕ, ◌+◌, Bool, not, ◌==◌, ◌||◌, length, List, [], ◌∷◌, if◌then◌else◌}
use zkasper_solana.Base.Slices.{Bytes, slice}
use zkasper_solana.Base.Result.{Result, ok, err, ◌>>=◌, ◌>>◌, refuse_if, ok_or}
use zkasper_solana.Base.Words.{from_le_bytes}
use zkasper_solana.Errors.{ZkasperError, invalid_instruction_data}
use zkasper_solana.Plonk.Encoding.{compressed_proof_len}
use zkasper_solana.Wire.{FinalizationOutput, finalization_public_bytes, from_public_bytes}
use zkasper_solana.State.LightClient.{Pubkey}

abbrev pub ix_initialize : ℕ
ix_initialize = 0

abbrev pub ix_submit_finalization : ℕ
ix_submit_finalization = 1

abbrev pub ix_assert_finalized : ℕ
ix_assert_finalized = 2

abbrev pub ix_assert_anchored : ℕ
ix_assert_anchored = 3

abbrev pub ix_verify_only : ℕ
ix_verify_only = 4

abbrev pub initialize_len : ℕ
initialize_len = 1 + 32 + 32 + 8 + 32 + 32

abbrev pub submit_finalization_len : ℕ
submit_finalization_len = 1 + compressed_proof_len + finalization_public_bytes

abbrev pub assert_finalized_len : ℕ
assert_finalized_len = 1 + 32 + 8 + 32

abbrev pub assert_anchored_len : ℕ
assert_anchored_len = 1 + 32 + 32

abbrev pub verify_only_len : ℕ
verify_only_len = submit_finalization_len

pub data ZkasperInstruction : Type 0 where
  -- accumulator_commitment, latest_state_root, finalized_epoch, finalized_root, program_vk
  initialize : Bytes → Bytes → ℕ → Bytes → Bytes → ZkasperInstruction
  -- proof, output
  submit_finalization : Bytes → FinalizationOutput → ZkasperInstruction
  -- authority, epoch, root
  assert_finalized : Pubkey → ℕ → Bytes → ZkasperInstruction
  -- authority, state_root
  assert_anchored : Pubkey → Bytes → ZkasperInstruction
  -- proof, output
  verify_only : Bytes → FinalizationOutput → ZkasperInstruction

-- `split::<N>(data, off)`
unfoldable pub split : ℕ → Bytes → ℕ → Result ZkasperError Bytes
split n bytes off = ok_or invalid_instruction_data (slice off (off + n) bytes)

unfoldable pub unpack_initialize : Bytes → Result ZkasperError ZkasperInstruction
unpack_initialize bytes = do
  refuse_if (not (length bytes == initialize_len)) invalid_instruction_data
  commitment ← split 32 bytes 1
  state_root ← split 32 bytes 33
  epoch ← split 8 bytes 65
  root ← split 32 bytes 73
  vk ← split 32 bytes 105
  ok (initialize commitment state_root (from_le_bytes epoch) root vk)

-- The arm shared by `IX_SUBMIT_FINALIZATION` and `IX_VERIFY_ONLY`.
unfoldable pub unpack_proof : ℕ → Bytes → Result ZkasperError ZkasperInstruction
unpack_proof tag bytes = do
  refuse_if (not (length bytes == submit_finalization_len)) invalid_instruction_data
  proof ← split compressed_proof_len bytes 1
  publics ← split finalization_public_bytes bytes (1 + compressed_proof_len)
  output ← from_public_bytes publics
  if tag == ix_verify_only
      then ok (verify_only proof output)
      else ok (submit_finalization proof output)

unfoldable pub unpack_assert_finalized : Bytes → Result ZkasperError ZkasperInstruction
unpack_assert_finalized bytes = do
  refuse_if (not (length bytes == assert_finalized_len)) invalid_instruction_data
  authority ← split 32 bytes 1
  epoch ← split 8 bytes 33
  root ← split 32 bytes 41
  ok (assert_finalized authority (from_le_bytes epoch) root)

unfoldable pub unpack_assert_anchored : Bytes → Result ZkasperError ZkasperInstruction
unpack_assert_anchored bytes = do
  refuse_if (not (length bytes == assert_anchored_len)) invalid_instruction_data
  authority ← split 32 bytes 1
  state_root ← split 32 bytes 33
  ok (assert_anchored authority state_root)

unfoldable pub unpack : Bytes → Result ZkasperError ZkasperInstruction
unpack [] = err invalid_instruction_data
unpack (tag ∷ rest) =
    let bytes = tag ∷ rest in
    if tag == ix_initialize
    then unpack_initialize bytes
    else if tag == ix_submit_finalization || tag == ix_verify_only
    then unpack_proof tag bytes
    else if tag == ix_assert_finalized
    then unpack_assert_finalized bytes
    else if tag == ix_assert_anchored
    then unpack_assert_anchored bytes
    else err invalid_instruction_data
