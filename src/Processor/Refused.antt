-- ===== src/Processor/Refused.antt =====
-- The refusals of `submit_finalization` that come before the proof, and replays.
use zkasper_solana.Base.{
  ◌≡◌, ◌≢◌, ◌≤◌, ◌<◌, ==_ne, ==_self, lt→leb-false, le→leb, bytes_eq_ne, List, ◌∷◌, All,
}
use zkasper_solana.Base.Slices.{Bytes}
use zkasper_solana.Base.Result.{ok, err}
use zkasper_solana.Base.Words.{IsByte}
use zkasper_solana.Errors.{
  into, epoch_not_advancing, accumulator_epoch_mismatch, accumulator_mismatch,
  invalid_state_account,
}
use zkasper_solana.Processor.{Host, expect_state, expect_next, submit_finalization}
use zkasper_solana.Processor.Checks.{StateAt, expect_state-StateAt}
use zkasper_solana.Processor.Submit.{landed, advanced}
use zkasper_solana.Processor.Landed.{submit_finalization-eq-ok, landed-StateAt}
use zkasper_solana.Runtime.Accounts.{Ledger, AccountInfo}
use zkasper_solana.State.LightClient.{Pubkey, LightClientState}
use zkasper_solana.Wire.{FinalizationOutput, IsOutput}

module _ (h : Host) (program_id : Pubkey) where
  -- An account of another program is refused before it is read.
  pub submit_finalization-foreign :
      (state_info ring_info : AccountInfo) (rest : List AccountInfo) (proof : Bytes)
      (output : FinalizationOutput) (ledger : Ledger)
      → (ledger state_info.key).owner ≢ program_id
      → submit_finalization h program_id (state_info ∷ ring_info ∷ rest) proof output ledger
        ≡ err (into invalid_state_account)
  unfolding submit_finalization expect_state
  submit_finalization-foreign state_info ring_info rest proof output ledger ne =
      rw (bytes_eq_ne (ledger state_info.key).owner program_id ne)

  -- On the light client's own account, an output for an epoch that is not later than the finalized one
  -- is refused with `EpochNotAdvancing`, whatever the proof and the ring account are.
  pub submit_finalization-stale :
      (state_info ring_info : AccountInfo) (rest : List AccountInfo) (s : LightClientState)
      (proof : Bytes) (output : FinalizationOutput) (ledger : Ledger)
      → StateAt h program_id state_info.key ledger s
      → output.finalized_epoch ≤ s.finalized_epoch
      → submit_finalization h program_id (state_info ∷ ring_info ∷ rest) proof output ledger
        ≡ err (into epoch_not_advancing)
  unfolding submit_finalization expect_next
  submit_finalization-stale state_info ring_info rest s proof output ledger at stale = rw (
    expect_state-StateAt h program_id state_info ledger s at,
    le→leb output.finalized_epoch s.finalized_epoch stale,
  )

  -- A later output that does not finalize the accumulator's epoch is refused as a gap, with
  -- `AccumulatorEpochMismatch`, whatever its commitment, the proof and the ring account are.
  pub submit_finalization-gap :
      (state_info ring_info : AccountInfo) (rest : List AccountInfo) (s : LightClientState)
      (proof : Bytes) (output : FinalizationOutput) (ledger : Ledger)
      → StateAt h program_id state_info.key ledger s
      → s.finalized_epoch < output.finalized_epoch
      → s.accumulator_epoch ≢ output.finalized_epoch
      → submit_finalization h program_id (state_info ∷ ring_info ∷ rest) proof output ledger
        ≡ err (into accumulator_epoch_mismatch)
  unfolding submit_finalization expect_next
  submit_finalization-gap state_info ring_info rest s proof output ledger at later gap = rw (
    expect_state-StateAt h program_id state_info ledger s at,
    lt→leb-false output.finalized_epoch s.finalized_epoch later,
    ==_ne s.accumulator_epoch output.finalized_epoch gap,
  )

  -- A later output at the accumulator's epoch that starts from another commitment is refused as a
  -- branch, with `AccumulatorMismatch`, whatever the proof and the ring account are.
  pub submit_finalization-branch :
      (state_info ring_info : AccountInfo) (rest : List AccountInfo) (s : LightClientState)
      (proof : Bytes) (output : FinalizationOutput) (ledger : Ledger)
      → StateAt h program_id state_info.key ledger s
      → s.finalized_epoch < output.finalized_epoch
      → s.accumulator_epoch ≡ output.finalized_epoch
      → s.accumulator_commitment ≢ output.accumulator_commitment
      → submit_finalization h program_id (state_info ∷ ring_info ∷ rest) proof output ledger
        ≡ err (into accumulator_mismatch)
  unfolding submit_finalization expect_next
  submit_finalization-branch state_info ring_info rest s proof output ledger at later resumes
        branch =
      rw (
        expect_state-StateAt h program_id state_info ledger s at,
        lt→leb-false output.finalized_epoch s.finalized_epoch later,
        resumes,
        ==_self output.finalized_epoch,
        bytes_eq_ne s.accumulator_commitment output.accumulator_commitment branch,
      )

  -- Once a submission is accepted, every output for its epoch or an earlier one is refused on the
  -- same accounts, whatever proof comes with it.
  pub submit_finalization-replayed :
      (accounts : List AccountInfo) (proof later_proof : Bytes) (output later : FinalizationOutput)
      (before after : Ledger)
      → ((key : Pubkey) → All IsByte (before key).bytes)
      → IsOutput output
      → submit_finalization h program_id accounts proof output before ≡ ok after
      → later.finalized_epoch ≤ output.finalized_epoch
      → submit_finalization h program_id accounts later_proof later after
        ≡ err (into epoch_not_advancing)
  submit_finalization-replayed accounts proof later_proof output later before after b o e le =
      let r = submit_finalization-eq-ok h program_id accounts proof output before after b o e in
      let at = landed-StateAt h program_id r.valid o r.admits in
      rw (r.accounts_are, r.lands)
        (submit_finalization-stale r.state_info r.ring_info r.rest (advanced r.state output)
          later_proof later (landed r.state_info.key r.ring_info.key r.state output before) at le)
