-- ===== src/Chain.antt =====
-- The light client over time: accepted submissions, interleaved with other transactions, and the
-- history that its state and its ring stand for.
pub mod Invariant
pub mod Epochs
pub mod Window
pub mod Bootstrap
pub mod Initialize
pub mod Endings
use zkasper_solana.Base.{
  ℕ, zero, suc, ◌≡◌, ◌+◌, ◌<◌, ◌==◌, List, [], ◌∷◌, Option, some, if◌then◌else◌, All,
}
use zkasper_solana.Base.Slices.{Bytes}
use zkasper_solana.Base.Result.{Result, ok}
use zkasper_solana.Base.Words.{IsByte}
use zkasper_solana.Errors.{ProgramError}
use zkasper_solana.Processor.{Host, entry_of, submit_finalization}
use zkasper_solana.Processor.Submit.{advanced}
use zkasper_solana.Runtime.Accounts.{Ledger, AccountInfo, Same}
use zkasper_solana.State.LightClient.{Pubkey, LightClientState}
use zkasper_solana.State.Ring.{FinalizationEntry, index_of}
use zkasper_solana.Wire.{FinalizationOutput, IsOutput}

-- What the guest asserts of the outputs that it proves: the two epochs are adjacent.
abbrev pub Adjacent : FinalizationOutput → Type 0
Adjacent output = output.justified_epoch ≡ output.finalized_epoch + 1

-- Every account's data is a byte string.
abbrev pub IsLedger : Ledger → Type 0
IsLedger ledger = (key : Pubkey) → All IsByte (ledger key).bytes

module _ (h : Host) (program_id : Pubkey) (state_info ring_info : AccountInfo) where
  -- The ledgers that can be reached from `start`, with the outputs accepted on the way, the latest
  -- first. Other transactions may do anything to other accounts: no program but this one can write
  -- the data of the state and of the ring, or give them away.
  pub data Run (start : Ledger) : List FinalizationOutput → Ledger → Type 0 where
    begin : Run start [] start
    submit :
        (outputs : List FinalizationOutput) (before after : Ledger) (rest : List AccountInfo)
        (proof : Bytes) (output : FinalizationOutput)
        → Run start outputs before
        → IsOutput output
        → Adjacent output
        → submit_finalization h program_id (state_info ∷ ring_info ∷ rest) proof output before
          ≡ ok after
        → Run start (output ∷ outputs) after
    elsewhere :
        (outputs : List FinalizationOutput) (before after : Ledger)
        → Run start outputs before
        → IsLedger after
        → Same (before state_info.key) (after state_info.key)
        → Same (before ring_info.key) (after ring_info.key)
        → Run start outputs after

-- The state that a list of outputs leads to.
abbrev pub state_after : LightClientState → List FinalizationOutput → LightClientState
state_after s [] = s
state_after s (output ∷ outputs) = advanced (state_after s outputs) output

-- What slot `i` holds after the outputs: the latest output whose epoch owns the slot.
abbrev pub slot_after :
    (ℕ → Option FinalizationEntry) → List FinalizationOutput → ℕ → Option FinalizationEntry
slot_after start [] i = start i
slot_after start (output ∷ outputs) i =
    if i == index_of output.finalized_epoch
    then some (entry_of output)
    else slot_after start outputs i
