-- ===== src/Processor/Dispatch.antt =====
-- From a client's builder to the program's handler.
use zkasper_solana.Base.{◌≡◌, List}
use zkasper_solana.Base.Result.{Result, ok, ◌>>=◌}
use zkasper_solana.Errors.{ProgramError}
use zkasper_solana.Instruction
use zkasper_solana.Instruction.{ZkasperInstruction}
use zkasper_solana.Instruction.Build
use zkasper_solana.Instruction.Payload.{encode_instruction, IsInstruction}
use zkasper_solana.Instruction.RoundTrip.{unpack-encode_instruction}
use zkasper_solana.Processor.{Host, dispatch, process_instruction}
use zkasper_solana.Runtime.Address.{Derivation}
use zkasper_solana.Runtime.Accounts.{Ledger, AccountInfo}
use zkasper_solana.State.LightClient.{Pubkey}
use zkasper_solana.Wire.PublicBytes.{public_bytes-encode_output}

-- The builder of each instruction.
abbrev pub build :
    Derivation → Pubkey → Pubkey → ZkasperInstruction → Result ProgramError Build.Instruction
build d program_id authority (Instruction.initialize commitment state_root epoch root vk) =
    ok (Build.initialize d program_id authority commitment state_root epoch root vk)
build d program_id authority (Instruction.submit_finalization proof output) =
    Build.submit_finalization d program_id authority proof output
build d program_id authority (Instruction.assert_finalized owner epoch root) =
    ok (Build.assert_finalized d program_id owner epoch root)
build d program_id authority (Instruction.assert_anchored owner state_root) =
    ok (Build.assert_anchored d program_id owner state_root)
build d program_id authority (Instruction.verify_only proof output) =
    Build.verify_only d program_id authority proof output

module _ (h : Host) (program_id : Pubkey) where
  process_encoded :
      (accounts : List AccountInfo) (i : ZkasperInstruction) (ledger : Ledger)
      → IsInstruction i
      → process_instruction h program_id accounts (encode_instruction i) ledger
        ≡ dispatch h program_id accounts i ledger
  unfolding process_instruction
  process_encoded accounts i ledger v = rw (unpack-encode_instruction i v)

  -- The data that the client's builder makes for a well-typed instruction is decoded by the program to
  -- that instruction, and handed to the handler with the arguments it was built from.
  pub process_instruction-build :
      (d : Derivation) (authority : Pubkey) (accounts : List AccountInfo) (i : ZkasperInstruction)
      (ledger : Ledger)
      → IsInstruction i
      → (build d program_id authority i >>= λ ix.
          process_instruction h program_id accounts ix.payload ledger)
        ≡ dispatch h program_id accounts i ledger
  unfolding Build.initialize Build.submit_finalization Build.assert_finalized Build.assert_anchored
      Build.verify_only
  process_instruction-build d authority accounts
        (Instruction.initialize commitment state_root epoch root vk) ledger v =
      process_encoded accounts (Instruction.initialize commitment state_root epoch root vk) ledger v
  process_instruction-build d authority accounts (Instruction.submit_finalization proof output)
        ledger v =
      rw (public_bytes-encode_output {E = ProgramError} output v.1)
        (process_encoded accounts (Instruction.submit_finalization proof output) ledger v)
  process_instruction-build d authority accounts (Instruction.assert_finalized owner epoch root)
        ledger v =
      process_encoded accounts (Instruction.assert_finalized owner epoch root) ledger v
  process_instruction-build d authority accounts (Instruction.assert_anchored owner state_root)
        ledger v =
      process_encoded accounts (Instruction.assert_anchored owner state_root) ledger v
  process_instruction-build d authority accounts (Instruction.verify_only proof output) ledger v =
      rw (public_bytes-encode_output {E = ProgramError} output v.1)
        (process_encoded accounts (Instruction.verify_only proof output) ledger v)
