-- ===== src/Tests/Panics.antt =====
-- The theorems on outcomes and panics at concrete inputs.
use zkasper_solana.Base.{◌≡◌, ◌≢◌, refl, ◌-◌, ◌^◌, true, [], ◌∷◌, replicate, arith, bytes_eq, All}
use zkasper_solana.Base.Slices.{slice}
use zkasper_solana.Base.Result.{ok, panic}
use zkasper_solana.Base.Memory.{zeros}
use zkasper_solana.Base.Words.{IsByte, to_le_bytes, from_le_bytes}
use zkasper_solana.Instruction
use zkasper_solana.Instruction.{ZkasperInstruction, unpack, unpack_initialize, split}
use zkasper_solana.Instruction.Payload.{encode_instruction}
use zkasper_solana.Plonk.Total.Equation.{verify_with-ne-panic}
use zkasper_solana.Plonk.Verify.{verify_with}
use zkasper_solana.Processor.{
  submit_finalization, process_instruction, dispatch, initialize, verify_only, expect_pda,
  create_pda, allocate_funded,
}
use zkasper_solana.Processor.Total.Instructions.{Wraps, process_instruction-Wraps}
use zkasper_solana.Processor.Verdict.{Verdict}
use zkasper_solana.Processor.Verdict.Reasons.{submit_finalization-Verdict}
use zkasper_solana.Runtime.Accounts.{store, add_u64}
use zkasper_solana.Tests.Client.{
  program, state_info, ring_info, accounts, root, vk, proof, before_ledger, before-IsLedger,
  start_ledger, output_at,
}
use zkasper_solana.Tests.LongRun.{array, keys, output_at-IsOutput, start_Stands}
use zkasper_solana.Processor.VerifyOnly.{Verified, verify_only-Verified}
use zkasper_solana.Tests.Sizes.{toy-IsSized, toy-SystemReturns}
use zkasper_solana.Tests.Toy.{toy, give}

submit_finalization-Verdict_example :
    Verdict toy program state_info ring_info proof (output_at 0) start_ledger (
      submit_finalization toy program
        (state_info ∷ ring_info ∷ [])
        proof
        (output_at 0)
        start_ledger)
submit_finalization-Verdict_example =
    submit_finalization-Verdict toy program state_info ring_info [] proof (output_at 0) start_ledger
      toy-IsSized start_Stands.typed (output_at-IsOutput 0 (omega arith))

verify_with-ne-panic_example :
    verify_with toy.backend (replicate 768 4) vk (replicate 512 0) true ≢ panic
verify_with-ne-panic_example =
    verify_with-ne-panic toy.backend toy-IsSized (replicate 768 4) vk (replicate 512 0) true refl
      refl

-- An `initialize` at the last epoch.
abbrev last_epoch : ZkasperInstruction
last_epoch = Instruction.initialize root root (2 ^ 64 - 1) root vk

overflows :
    process_instruction toy program accounts (encode_instruction last_epoch) before_ledger ≡ panic
unfolding process_instruction dispatch unpack unpack_initialize split slice initialize expect_pda
    create_pda allocate_funded give add_u64 store bytes_eq zeros to_le_bytes from_le_bytes
overflows = refl

data_bytes : All IsByte (encode_instruction last_epoch)
unfolding to_le_bytes
data_bytes = (array 137 (encode_instruction last_epoch) refl refl).bytes

process_instruction-Wraps_example :
    (i : ZkasperInstruction) × (unpack (encode_instruction last_epoch) ≡ ok i)
    × Wraps toy program accounts i before_ledger
process_instruction-Wraps_example =
    process_instruction-Wraps toy program toy-SystemReturns toy-IsSized accounts before_ledger keys
      before-IsLedger (encode_instruction last_epoch) data_bytes overflows

verify_only-Verified_example :
    Verified toy program state_info.key start_ledger proof
      (output_at 4)
      (verify_only toy program (state_info ∷ []) proof (output_at 4) start_ledger)
verify_only-Verified_example =
    verify_only-Verified toy program state_info [] start_ledger proof (output_at 4) toy-IsSized
      start_Stands.typed (output_at-IsOutput 4 (omega arith))
