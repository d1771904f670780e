-- ===== src/Chain/Epochs.antt =====
-- The outputs of a run as a chain: epochs, commitments, guest key.
use zkasper_solana.Base.{ℕ, ◌≡◌, refl, sym, ap, ◌∙◌, ◌+◌, List, [], ◌∷◌, length, Option, arith}
use zkasper_solana.Base.Slices.{Bytes}
use zkasper_solana.Base.Result.{ok}
use zkasper_solana.Chain.{Run, state_after, slot_after}
use zkasper_solana.Chain.Invariant.{Stands, Stands-Admits, Run-Stands}
use zkasper_solana.Processor.{Host, verify}
use zkasper_solana.Runtime.Accounts.{Ledger, AccountInfo}
use zkasper_solana.State.LightClient.{Pubkey, LightClientState}
use zkasper_solana.State.Ring.{FinalizationEntry}
use zkasper_solana.Wire.{FinalizationOutput}

-- The outputs, the latest first, extend the state `s` one epoch at a time, each from the accumulator
-- that the one before it ends in, and each has a proof under the guest key of `s`.
abbrev pub History : Host → LightClientState → List FinalizationOutput → Type 0
History h s [] = Unit {0}
History h s (output ∷ outputs) =
    (output.finalized_epoch ≡ s.accumulator_epoch + length outputs)
    × (output.accumulator_commitment ≡ (state_after s outputs).accumulator_commitment)
    × ((proof : Bytes) × (verify h proof s.program_vk output ≡ ok tt))
    × History h s outputs

pub state_after-keeps :
    (s : LightClientState) (outputs : List FinalizationOutput)
    → ((state_after s outputs).authority ≡ s.authority)
      × ((state_after s outputs).program_vk ≡ s.program_vk)
      × ((state_after s outputs).bump ≡ s.bump)
state_after-keeps s [] = (refl, refl, refl)
state_after-keeps s (output ∷ outputs) = state_after-keeps s outputs

module _ (h : Host) (program_id : Pubkey) (state_info ring_info : AccountInfo) where
  chained :
      (s : LightClientState) (slots : ℕ → Option FinalizationEntry) (start : Ledger)
      (outputs : List FinalizationOutput) (ledger : Ledger)
      → Stands h program_id state_info ring_info s slots start
      → Run h program_id state_info ring_info start outputs ledger
      → ((state_after s outputs).accumulator_epoch ≡ s.accumulator_epoch + length outputs)
        × History h s outputs
  chained s slots start _ _ st Run.begin = (omega arith, tt)
  chained s slots start _ _ st
        (Run.submit outputs before after rest proof output run o adjacent e) =
      let (at, history) = chained s slots start outputs before st run in
      let stands =
        Run-Stands h program_id state_info ring_info s slots start outputs before st run in
      let a =
        Stands-Admits h program_id state_info ring_info (state_after s outputs)
          (slot_after slots outputs) before after rest proof output stands e in
      let numbered : output.finalized_epoch ≡ s.accumulator_epoch + length outputs =
        sym a.next.resumes ∙ at in
      let proved : verify h proof s.program_vk output ≡ ok tt =
        ap (λ vk. verify h proof vk output) (sym (state_after-keeps s outputs).1) ∙ a.proved in
      (omega (arith, adjacent, numbered), (numbered, sym a.next.extends, (proof, proved), history))
  chained s slots start _ _ st (Run.elsewhere outputs before after run typed same_state same_ring) =
      chained s slots start outputs before st run

  -- The outputs accepted in a run have consecutive epochs that start at the accumulator's epoch, each
  -- starts from the commitment that the one before it ends in, and each was accepted with a proof
  -- under the guest key that the run started with.
  pub Run-History :
      (s : LightClientState) (slots : ℕ → Option FinalizationEntry) (start : Ledger)
      (outputs : List FinalizationOutput) (ledger : Ledger)
      → Stands h program_id state_info ring_info s slots start
      → Run h program_id state_info ring_info start outputs ledger
      → History h s outputs
  Run-History s slots start outputs ledger st run = (chained s slots start outputs ledger st run).1
