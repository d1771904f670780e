-- ===== src/Processor/Verdict.antt =====
-- Every way in which `submit_finalization` can end.
pub mod Reasons
use zkasper_solana.Base.{
  ◌≡◌, ◌≢◌, refl, ap, ◌∙◌, ◌+◌, ◌≤◌, ◌<◌, ◌^◌, List, ◌∷◌, arith, inl, inr, ◌⊎◌, bytes_eq,
  Bool-cases, bytes_eq→eq, bytes_eq-false→ne,
}
use zkasper_solana.Base.Slices.{Bytes}
use zkasper_solana.Base.Result.{Result, ok, err, panic}
use zkasper_solana.Base.Yields.{Yields-cases}
use zkasper_solana.Errors.{
  ProgramError, ZkasperError, into, epoch_not_advancing, accumulator_epoch_mismatch,
  accumulator_mismatch, proof_verification_failed,
}
use zkasper_solana.Plonk.Total.{IsSized}
use zkasper_solana.Processor.{Host, expect_state, expect_ring, verify, submit_finalization}
use zkasper_solana.Processor.Checks.{
  StateAt, RingAt, Next, expect_state-StateAt, expect_ring-RingAt, expect_next-Next,
}
use zkasper_solana.Processor.Checked.Reasons.{expect_state-StateChecked, expect_ring-RingChecked}
use zkasper_solana.Processor.Checked.{StateChecked, RingChecked, located, located_ring}
use zkasper_solana.Processor.Refused.{
  submit_finalization-stale, submit_finalization-gap, submit_finalization-branch,
}
use zkasper_solana.Processor.Submit.{Admits, landed, submit_finalization-accepts}
use zkasper_solana.Processor.Total.{Holds, verify-Returns, verify-failed}
use zkasper_solana.Processor.Total.Outcome.{Overflows, submit_finalization_panics_iff}
use zkasper_solana.Runtime.Accounts.{Ledger, AccountInfo}
use zkasper_solana.State.LightClient.{Pubkey, LightClientState}
use zkasper_solana.State.LightClient.Unpack.{unpack-eq-ok}
use zkasper_solana.Wire.{FinalizationOutput, IsOutput}
use native.Mathlib.Decide.{dec_lt, ℕ_discrete}

-- The result of a submission with its reason: one constructor for each demand that can fail first,
-- with the demands before it met, one for the overflow, and one for acceptance.
pub data Verdict (h : Host) (program_id : Pubkey) (state_info ring_info : AccountInfo)
    (proof : Bytes) (output : FinalizationOutput) (ledger : Ledger)
    : Result ProgramError Ledger → Type 0 where
  not_the_state :
      (e : ProgramError)
      → StateChecked h program_id state_info.key ledger (err e)
      → Verdict h program_id state_info ring_info proof output ledger (err e)
  stale :
      (s : LightClientState)
      → StateAt h program_id state_info.key ledger s
      → output.finalized_epoch ≤ s.finalized_epoch
      → Verdict h program_id state_info ring_info proof output ledger
          (err (into epoch_not_advancing))
  gap :
      (s : LightClientState)
      → StateAt h program_id state_info.key ledger s
      → s.finalized_epoch < output.finalized_epoch
      → s.accumulator_epoch ≢ output.finalized_epoch
      → Verdict h program_id state_info ring_info proof output ledger
          (err (into accumulator_epoch_mismatch))
  branch :
      (s : LightClientState)
      → StateAt h program_id state_info.key ledger s
      → s.finalized_epoch < output.finalized_epoch
      → s.accumulator_epoch ≡ output.finalized_epoch
      → s.accumulator_commitment ≢ output.accumulator_commitment
      → Verdict h program_id state_info ring_info proof output ledger
          (err (into accumulator_mismatch))
  not_the_ring :
      (s : LightClientState) (e : ZkasperError)
      → StateAt h program_id state_info.key ledger s
      → Next s output
      → RingChecked h program_id ring_info.key ledger s.authority (err e)
      → Verdict h program_id state_info ring_info proof output ledger (err (into e))
  not_proved :
      (s : LightClientState)
      → StateAt h program_id state_info.key ledger s
      → Next s output
      → RingAt h program_id ring_info.key s.authority ledger
      → verify h proof s.program_vk output ≡ err proof_verification_failed
      → Verdict h program_id state_info ring_info proof output ledger
          (err (into proof_verification_failed))
  overflow :
      Overflows h program_id state_info ring_info proof output ledger
      → Verdict h program_id state_info ring_info proof output ledger panic
  accepted :
      (s : LightClientState)
      → Admits h program_id state_info.key ring_info.key s proof output ledger
      → Verdict h program_id state_info ring_info proof output ledger
          (ok (landed state_info.key ring_info.key s output ledger))
