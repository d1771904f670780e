-- ===== src/Errors.antt =====
-- program/src/error.rs: the program's errors and their conversion to `ProgramError`.
use zkasper_solana.Base.{ℕ, ◌≡◌, arith}

pub data ZkasperError : Type 0 where
  invalid_instruction_data : ZkasperError
  account_already_initialized : ZkasperError
  wrong_account_tag : ZkasperError
  invalid_state_account : ZkasperError
  invalid_ring_account : ZkasperError
  missing_signer : ZkasperError
  proof_verification_failed : ZkasperError
  epoch_not_advancing : ZkasperError
  checkpoint_not_finalized : ZkasperError
  state_root_not_anchored : ZkasperError
  epoch_not_in_ring : ZkasperError
  account_data_too_small : ZkasperError
  accumulator_mismatch : ZkasperError
  accumulator_epoch_mismatch : ZkasperError

-- `e as u32`
unfoldable pub code : ZkasperError → ℕ
code invalid_instruction_data = 0
code account_already_initialized = 1
code wrong_account_tag = 3
code invalid_state_account = 4
code invalid_ring_account = 5
code missing_signer = 7
code proof_verification_failed = 8
code epoch_not_advancing = 9
code checkpoint_not_finalized = 10
code state_root_not_anchored = 11
code epoch_not_in_ring = 12
code account_data_too_small = 14
code accumulator_mismatch = 15
code accumulator_epoch_mismatch = 17

-- Solana's `ProgramError`, as far as the program returns it: its own errors, the two that the
-- handlers name, and whatever error a system call comes back with.
pub data ProgramError : Type 0 where
  custom : ℕ → ProgramError
  incorrect_program_id : ProgramError
  not_enough_account_keys : ProgramError
  from_runtime : ℕ → ProgramError

-- `impl From<ZkasperError> for ProgramError`
unfoldable pub into : ZkasperError → ProgramError
unfolding code
into e = custom (code e)

-- No two errors of the program share a code, so a caller reading `Custom(n)` can tell any two
-- refusals apart.
pub into-injective : (a b : ZkasperError) → into a ≡ into b → a ≡ b
unfolding into
into-injective a b h = ground arith
