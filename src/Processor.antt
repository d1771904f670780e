-- ===== src/Processor.antt =====
-- program/src/processor.rs: the instruction handlers.
pub mod Checks
pub mod Submit
pub mod Landed
pub mod Refused
pub mod ReadPath
pub mod Typed
pub mod CreatePda
pub mod Dispatch
pub mod Proved
pub mod VerifyOnly
pub mod Total
pub mod Checked
pub mod Verdict
use zkasper_solana.Base.{
  ℕ, suc, ◌+◌, ◌-◌, ◌^◌, Bool, true, false, not, ltb, leb, ◌==◌, bytes_eq, length, List, [], ◌∷◌,
  if◌then◌else◌,
}
use zkasper_solana.Base.Slices.{Bytes}
use zkasper_solana.Base.Result.{Result, ok, err, ◌>>=◌, ◌>>◌, refuse_if, ok_or, map_err}
use zkasper_solana.Errors.{
  ZkasperError, ProgramError, into, missing_signer, incorrect_program_id, invalid_state_account,
  invalid_ring_account, account_already_initialized, epoch_not_advancing,
  accumulator_epoch_mismatch, accumulator_mismatch, checkpoint_not_finalized,
}
use zkasper_solana.Instruction
use zkasper_solana.Instruction.{ZkasperInstruction}
use zkasper_solana.Plonk.Backend.{Backend}
use zkasper_solana.Plonk.Encoding.{decompress_proof}
use zkasper_solana.Plonk.Verify
use zkasper_solana.Runtime.Address.{Derivation, seed_state, seed_ring}
use zkasper_solana.Runtime.Accounts.{
  Account, Ledger, AccountInfo, System, next_account_info, set_bytes, add_u64,
}
use zkasper_solana.State.LightClient
use zkasper_solana.State.LightClient.{Pubkey, LightClientState, pack_into, light_client_len}
use zkasper_solana.State.Ring
use zkasper_solana.State.Ring.{FinalizationEntry, ring_len}
use zkasper_solana.Wire.{FinalizationOutput, public_values}

-- What the program runs on.
pub record Host : Type 1 where
  pub derivation : Derivation
  pub system : System
  pub backend : Backend

-- Where the output must resume the sequence.
unfoldable pub expect_next : LightClientState → FinalizationOutput → Result ProgramError (Unit {0})
expect_next state output = do
  refuse_if (leb output.finalized_epoch state.finalized_epoch) (into epoch_not_advancing)
  refuse_if (not (state.accumulator_epoch == output.finalized_epoch))
      (into accumulator_epoch_mismatch)
  refuse_if (not (bytes_eq state.accumulator_commitment output.accumulator_commitment))
      (into accumulator_mismatch)

-- The state after an accepted output, but for its count.
abbrev pub advance : LightClientState → FinalizationOutput → ℕ → LightClientState
advance state output count = record {
  bump = state.bump;
  authority = state.authority;
  accumulator_commitment = output.next_accumulator_commitment;
  latest_state_root = output.finalized_state_root;
  finalized_epoch = output.finalized_epoch;
  finalized_root = output.finalized_root;
  program_vk = state.program_vk;
  submission_count = count;
  accumulator_epoch = output.justified_epoch;
}

abbrev pub entry_of : FinalizationOutput → FinalizationEntry
entry_of output = record {
  finalized_epoch = output.finalized_epoch;
  finalized_root = output.finalized_root;
  finalized_state_root = output.finalized_state_root;
}

unfoldable pub verify : Host → Bytes → Bytes → FinalizationOutput → Result ZkasperError (Unit {0})
verify h proof program_vk output = do
  proof ← decompress_proof h.backend.syscalls proof
  window ← public_values output program_vk
  Verify.verify h.backend proof program_vk window

module _ (h : Host) (program_id : Pubkey) where
  unfoldable pub expect_pda : AccountInfo → List Bytes → ZkasperError → Result ZkasperError ℕ
  expect_pda account seeds refusal =
      let found = h.derivation.find_program_address seeds program_id in
      if not (bytes_eq account.key found.0) then err refusal else ok found.1

  unfoldable pub expect_ring : AccountInfo → Pubkey → Ledger → Result ZkasperError (Unit {0})
  expect_ring ring_info authority ledger = do
    refuse_if (not (bytes_eq (ledger ring_info.key).owner program_id)) invalid_ring_account
    bump ← Ring.bump (ledger ring_info.key).bytes
    created ←
        ok_or invalid_ring_account (
          h.derivation.create_program_address (seed_ring ∷ authority ∷ (bump ∷ []) ∷ []) program_id)
    refuse_if (not (bytes_eq created ring_info.key)) invalid_ring_account

  -- The branch of `create_pda` for a target that holds lamports already.
  unfoldable pub allocate_funded :
      AccountInfo → AccountInfo → ℕ → List Bytes → ℕ → Ledger → Result ProgramError Ledger
  allocate_funded payer target space seeds rent ledger = do
    let top_up = rent - (ledger target.key).lamports
    ledger ← if ltb 0 top_up then h.system.transfer payer target top_up ledger else ok ledger
    ledger ← h.system.allocate target space seeds ledger
    h.system.assign target program_id seeds ledger

  unfoldable pub create_pda :
      AccountInfo → AccountInfo → ℕ → List Bytes → Ledger → Result ProgramError Ledger
  create_pda payer target space seeds ledger = do
    minimum_balance ← h.system.minimum_balance
    let rent = minimum_balance space
    if (ledger target.key).lamports == 0
        then h.system.create_account payer target rent space program_id seeds ledger
        else allocate_funded payer target space seeds rent ledger

  unfoldable pub initialize :
      List AccountInfo → Bytes → Bytes → ℕ → Bytes → Bytes → Ledger → Result ProgramError Ledger
  initialize accounts commitment state_root epoch root vk ledger = do
    (authority, accounts) ← next_account_info accounts
    (state_info, accounts) ← next_account_info accounts
    (ring_info, accounts) ← next_account_info accounts
    (system, accounts) ← next_account_info accounts
    refuse_if (not authority.is_signer) (into missing_signer)
    refuse_if (not (bytes_eq system.key h.system.system_id)) incorrect_program_id
    bump ←
        map_err into (expect_pda state_info (seed_state ∷ authority.key ∷ []) invalid_state_account)
    ring_bump ←
        map_err into (expect_pda ring_info (seed_ring ∷ authority.key ∷ []) invalid_ring_account)
    refuse_if (not (length (ledger state_info.key).bytes == 0)) (into account_already_initialized)
    ledger ←
        create_pda authority state_info light_client_len
          (seed_state ∷ authority.key ∷ (bump ∷ []) ∷ []) ledger
    accumulator_epoch ← add_u64 epoch 1
    packed ← map_err into (
        pack_into
          (record {
            bump = bump;
            authority = authority.key;
            accumulator_commitment = commitment;
            latest_state_root = state_root;
            finalized_epoch = epoch;
            finalized_root = root;
            program_vk = vk;
            submission_count = 0;
            accumulator_epoch = accumulator_epoch;
          })
          (ledger state_info.key).bytes)
    let ledger = set_bytes state_info.key packed ledger
    ledger ←
        create_pda authority ring_info ring_len (seed_ring ∷ authority.key ∷ (ring_bump ∷ []) ∷ [])
          ledger
    ring ← map_err into (Ring.init (ledger ring_info.key).bytes ring_bump)
    ok (set_bytes ring_info.key ring ledger)

  -- The state of `submit_finalization`'s first account, which must be the light client's own.
  unfoldable pub expect_state : AccountInfo → Ledger → Result ProgramError LightClientState
  expect_state state_info ledger = do
    refuse_if (not (bytes_eq (ledger state_info.key).owner program_id)) (into invalid_state_account)
    state ← map_err into (LightClient.unpack (ledger state_info.key).bytes)
    created ← ok_or (into invalid_state_account) (
        h.derivation.create_program_address (seed_state ∷ state.authority ∷ (state.bump ∷ []) ∷ [])
          program_id)
    refuse_if (not (bytes_eq created state_info.key)) (into invalid_state_account)
    ok state

  unfoldable pub submit_finalization :
      List AccountInfo → Bytes → FinalizationOutput → Ledger → Result ProgramError Ledger
  submit_finalization accounts proof output ledger = do
    (state_info, accounts) ← next_account_info accounts
    (ring_info, accounts) ← next_account_info accounts
    state ← expect_state state_info ledger
    expect_next state output
    map_err into (expect_ring ring_info state.authority ledger)
    map_err into (verify h proof state.program_vk output)
    count ← add_u64 state.submission_count 1
    packed ← map_err into (pack_into (advance state output count) (ledger state_info.key).bytes)
    let ledger = set_bytes state_info.key packed ledger
    ring ← map_err into (Ring.write_entry (ledger ring_info.key).bytes (entry_of output))
    ok (set_bytes ring_info.key ring ledger)

  unfoldable pub verify_only :
      List AccountInfo → Bytes → FinalizationOutput → Ledger → Result ProgramError (Unit {0})
  verify_only accounts proof output ledger = do
    (state_info, accounts) ← next_account_info accounts
    refuse_if (not (bytes_eq (ledger state_info.key).owner program_id)) (into invalid_state_account)
    state ← map_err into (LightClient.unpack (ledger state_info.key).bytes)
    map_err into (verify h proof state.program_vk output)

  unfoldable pub assert_finalized :
      List AccountInfo → Pubkey → ℕ → Bytes → Ledger → Result ProgramError (Unit {0})
  assert_finalized accounts authority epoch root ledger = do
    (ring_info, accounts) ← next_account_info accounts
    map_err into (expect_ring ring_info authority ledger)
    entry ← map_err into (Ring.entry (ledger ring_info.key).bytes epoch)
    refuse_if (not (bytes_eq entry.finalized_root root)) (into checkpoint_not_finalized)

  unfoldable pub assert_anchored :
      List AccountInfo → Pubkey → Bytes → Ledger → Result ProgramError (Unit {0})
  assert_anchored accounts authority state_root ledger = do
    (ring_info, accounts) ← next_account_info accounts
    map_err into (expect_ring ring_info authority ledger)
    found ← map_err into (Ring.entry_by_state_root (ledger ring_info.key).bytes state_root)
    ok tt

  -- The match of `process_instruction`; the instructions that only read keep the ledger.
  unfoldable pub dispatch :
      List AccountInfo → ZkasperInstruction → Ledger → Result ProgramError Ledger
  dispatch accounts (Instruction.initialize commitment state_root epoch root vk) ledger =
      initialize accounts commitment state_root epoch root vk ledger
  dispatch accounts (Instruction.submit_finalization proof output) ledger =
      submit_finalization accounts proof output ledger
  dispatch accounts (Instruction.assert_finalized authority epoch root) ledger =
      assert_finalized accounts authority epoch root ledger >> ok ledger
  dispatch accounts (Instruction.assert_anchored authority state_root) ledger =
      assert_anchored accounts authority state_root ledger >> ok ledger
  dispatch accounts (Instruction.verify_only proof output) ledger =
      verify_only accounts proof output ledger >> ok ledger

  -- An error or a panic fails the transaction, which then leaves the ledger as it was.
  unfoldable pub process_instruction :
      List AccountInfo → Bytes → Ledger → Result ProgramError Ledger
  process_instruction accounts bytes ledger = do
    instruction ← map_err into (Instruction.unpack bytes)
    dispatch accounts instruction ledger
