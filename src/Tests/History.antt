-- ===== src/Tests/History.antt =====
-- The theorems on runs, bootstraps and the read path at concrete inputs.
use zkasper_solana.Base.{ℕ, ◌≡◌, refl, ◌⊎◌, ◌<◌, [], ◌∷◌, some, none, arith, get_elem?, bytes_eq}
use zkasper_solana.Base.Result.{ok, err}
use zkasper_solana.Chain.{Run, state_after, slot_after}
use zkasper_solana.Chain.Invariant.{Stands, Run-Stands}
use zkasper_solana.Chain.Initialize.{Initialized, initialize-eq-ok}
use zkasper_solana.Chain.Epochs.{History, Run-History}
use zkasper_solana.Chain.Window.{Run-attests, Run-evicts, Run-sound}
use zkasper_solana.Errors.{into, epoch_not_in_ring, state_root_not_anchored}
use zkasper_solana.Processor.{
  initialize, assert_finalized, assert_anchored, create_pda, allocate_funded,
}
use zkasper_solana.Processor.Checks.{RingAt-IsRing}
use zkasper_solana.Processor.CreatePda.{Created, create_pda-Created}
use zkasper_solana.Processor.ReadPath.{verdict, assert_finalized-verdict, assert_anchored_cases}
use zkasper_solana.Runtime.Accounts.{Ledger, store}
use zkasper_solana.State.Ring.{FinalizationEntry, ring_entries, index_of}
use zkasper_solana.State.Ring.Slots.{held}
use zkasper_solana.State.Ring.Scan.{NoneFrom}
use zkasper_solana.Chain.Endings.{Ending}
use zkasper_solana.Chain.Endings.Installed.{initialize-Ending}
use zkasper_solana.Tests.Sizes.{toy-SystemReturns}
use zkasper_solana.Tests.Toy.{toy, give}
use zkasper_solana.Tests.Client.{
  program, owner, state_info, ring_info, system, accounts, root, vk, start_ledger, before_ledger,
  before-IsLedger, initialized, output_at,
}
use zkasper_solana.Tests.LongRun.{start_Stands, client, outputs, long_history, keys, arguments}
use zkasper_solana.Wire.{FinalizationOutput}

initialize-eq-ok_example :
    Initialized toy program accounts root root 0 root vk before_ledger start_ledger
initialize-eq-ok_example =
    initialize-eq-ok toy program accounts root root 0 root vk before_ledger start_ledger keys
      arguments before-IsLedger initialized

initialize-Ending_example :
    Ending toy program owner state_info ring_info system before_ledger [] root root 0 root vk
      (initialize toy program accounts root root 0 root vk before_ledger)
initialize-Ending_example =
    initialize-Ending toy program owner state_info ring_info system before_ledger [] root root 0
      root vk toy-SystemReturns before-IsLedger keys arguments

-- The ledger after 130 outputs.
ledger_130 : Ledger
ledger_130 = (long_history 130 (omega arith)).0

history_130 : Run toy program state_info ring_info start_ledger (outputs 130) ledger_130
unfolding ledger_130
history_130 = (long_history 130 (omega arith)).1

Run-Stands_example :
    Stands toy program state_info ring_info
      (state_after (client 0) (outputs 130))
      (slot_after (λ _. none) (outputs 130))
      ledger_130
Run-Stands_example =
    Run-Stands toy program state_info ring_info (client 0) (λ _. none) start_ledger (outputs 130)
      ledger_130 start_Stands history_130

Run-History_example : History toy (client 0) (outputs 130)
Run-History_example =
    Run-History toy program state_info ring_info (client 0) (λ _. none) start_ledger (outputs 130)
      ledger_130 start_Stands history_130

Run-attests_example :
    assert_finalized toy program
      (ring_info ∷ [])
      owner.key
      (output_at 2).finalized_epoch
      (output_at 2).finalized_root
      ledger_130
    ≡ ok tt
Run-attests_example =
    Run-attests toy program state_info ring_info (client 0) (λ _. none) start_ledger (outputs 130)
      ledger_130 start_Stands history_130 [] 127 (output_at 2) refl (omega arith)

Run-evicts_example :
    assert_finalized toy program
      (ring_info ∷ [])
      owner.key
      (output_at 1).finalized_epoch
      root
      ledger_130
    ≡ err (into epoch_not_in_ring)
Run-evicts_example =
    Run-evicts toy program state_info ring_info (client 0) (λ _. none) start_ledger (outputs 130)
      ledger_130 start_Stands history_130 [] 128 (output_at 1) root refl (omega arith)

Run-sound_example :
    (p : ℕ) × (o : FinalizationOutput) × (get_elem? (outputs 130) p ≡ some o)
    × (p < ring_entries)
    × (o.finalized_epoch ≡ (output_at 2).finalized_epoch)
    × (o.finalized_root ≡ (output_at 2).finalized_root)
Run-sound_example =
    Run-sound toy program state_info ring_info (client 0) start_ledger (outputs 130) ledger_130
      start_Stands history_130 [] (output_at 2).finalized_epoch (output_at 2).finalized_root
      (Run-attests toy program state_info ring_info (client 0) (λ _. none) start_ledger
        (outputs 130) ledger_130 start_Stands history_130 [] 127 (output_at 2) refl (omega arith))

assert_finalized-verdict_example :
    assert_finalized toy program (ring_info ∷ []) owner.key 7 root start_ledger
    ≡ verdict 7 root (held (start_ledger ring_info.key).bytes (index_of 7))
assert_finalized-verdict_example =
    assert_finalized-verdict toy program ring_info [] owner.key 7 root start_ledger
      start_Stands.ring_at

assert_anchored_cases_example :
    ((assert_anchored toy program (ring_info ∷ []) owner.key root start_ledger
        ≡ err (into state_root_not_anchored))
      × NoneFrom
          (start_ledger ring_info.key).bytes
          root
          (RingAt-IsRing toy program ring_info.key owner.key start_ledger start_Stands.ring_at)
          0
          ring_entries)
    ⊎ ((k : ℕ) × (e : FinalizationEntry) × (assert_anchored toy program
            (ring_info ∷ [])
            owner.key
            root
            start_ledger
          ≡ ok tt)
        × (k < ring_entries)
        × (held (start_ledger ring_info.key).bytes k ≡ some e)
        × (e.finalized_state_root ≡ root))
assert_anchored_cases_example =
    assert_anchored_cases toy program ring_info [] owner.key root start_ledger start_Stands.ring_at

-- The ring's address holds a lamport, so its account is funded, allocated and assigned.
funded : (ledger : Ledger) × (create_pda toy program owner ring_info 4 [] before_ledger ≡ ok ledger)
unfolding create_pda allocate_funded give bytes_eq store
funded = (_, refl)

create_pda-Created_example : Created toy program ring_info 4 before_ledger funded.0
create_pda-Created_example =
    create_pda-Created toy program owner ring_info 4 [] before_ledger funded.0 funded.1
