-- ===== src/Tests/Formats.antt =====
-- The theorems on the wire format, the accounts and the instructions at concrete inputs.
use zkasper_solana.Base.{
  ℕ, ◌≡◌, ◌⊎◌, refl, ◌<◌, ◌==◌, [], ◌∷◌, some, none, drop, replicate, arith, if◌then◌else◌,
}
use zkasper_solana.Base.Slices.{Bytes}
use zkasper_solana.Base.Result.{ok, err, ◌>>=◌}
use zkasper_solana.Base.Memory.{zeros}
use zkasper_solana.Errors.{ZkasperError, epoch_not_in_ring, state_root_not_anchored}
use zkasper_solana.Instruction.{submit_finalization}
use zkasper_solana.Instruction.Canonical.{Outcome, unpack-Outcome}
use zkasper_solana.Processor.{process_instruction, dispatch, entry_of}
use zkasper_solana.Processor.Dispatch.{build, process_instruction-build}
use zkasper_solana.State.LightClient.{LightClientState, light_client_len, pack_into, unpack}
use zkasper_solana.State.LightClient.Unpack.{
  Short, Mistagged, Unpacked, unpack-classes, unpack-pack_into,
}
use zkasper_solana.State.Ring.{
  slot, FinalizationEntry, IsEntry, ring_len, ring_entries, index_of, init, bump, entry,
  write_entry, entry_by_state_root,
}
use zkasper_solana.State.Ring.Slots.{IsRing, held}
use zkasper_solana.State.Ring.Fresh.{init-empty}
use zkasper_solana.State.Ring.Lookup.{entry-write_entry}
use zkasper_solana.State.Ring.Scan.{NoneFrom, entry_by_state_root_cases}
use zkasper_solana.Processor.Checks.{RingAt-IsRing}
use zkasper_solana.Processor.Submit.{entry_of-IsEntry}
use zkasper_solana.Tests.Toy.{toy}
use zkasper_solana.Tests.Client.{
  program, owner, state_info, ring_info, root, vk, proof, start_ledger, output_at,
}
use zkasper_solana.Tests.LongRun.{array, client, start_Stands, output_at-IsOutput}
use zkasper_solana.Wire.{public_bytes, from_public_bytes, public_values}
use zkasper_solana.Wire.PublicBytes.{from_public_bytes-public_bytes, public_bytes-from_public_bytes}
use zkasper_solana.Wire.Window.{window_of, public_values-window_of}
use zkasper_solana.Wire.Binding.{public_values-binds}

from_public_bytes-public_bytes_example :
    (public_bytes {E = ZkasperError} (output_at 8) >>= from_public_bytes) ≡ ok (output_at 8)
from_public_bytes-public_bytes_example =
    from_public_bytes-public_bytes (output_at 8) (output_at-IsOutput 8 (omega arith))

public_bytes-from_public_bytes_example :
    (from_public_bytes {E = ZkasperError} (replicate 176 7) >>= public_bytes) ≡ ok (replicate 176 7)
public_bytes-from_public_bytes_example =
    public_bytes-from_public_bytes (replicate 176 7) (array 176 (replicate 176 7) refl refl)

public_values-window_of_example :
    public_values {E = ZkasperError} (output_at 8) vk ≡ ok (window_of (output_at 8) vk)
public_values-window_of_example =
    public_values-window_of (output_at 8) vk (output_at-IsOutput 8 (omega arith))
      (array 32 vk refl refl)

public_values-binds_example : (output_at 8 ≡ output_at 8) × (vk ≡ vk)
public_values-binds_example =
    public_values-binds (output_at 8) (output_at 8) vk vk (output_at-IsOutput 8 (omega arith))
      (output_at-IsOutput 8 (omega arith)) (array 32 vk refl refl) (array 32 vk refl refl) refl

abbrev counted : Bytes
counted =
    0 ∷ 1 ∷ 2 ∷ 3 ∷ 4 ∷ 5 ∷ 6 ∷ 7 ∷ 8 ∷ 9 ∷ 10 ∷ 11 ∷ 12 ∷ 13 ∷ 14 ∷ 15 ∷ 16 ∷ 17 ∷ 18 ∷ 19 ∷ 20
    ∷ 21 ∷ 22 ∷ 23 ∷ 24 ∷ 25 ∷ 26 ∷ 27 ∷ 28 ∷ 29 ∷ 30 ∷ 31 ∷ []

abbrev account : Bytes
account = 1 ∷ replicate 200 9

unpack-classes_example :
    Short account ⊎ (Mistagged account ⊎ ((s : LightClientState) × Unpacked account s))
unpack-classes_example = unpack-classes account (array 201 account refl refl).bytes

unpack-pack_into_example :
    (out : Bytes) × (pack_into (client 3) account ≡ ok out)
    × (unpack out ≡ ok (client 3))
    × (drop light_client_len out ≡ drop light_client_len account)
unpack-pack_into_example =
    unpack-pack_into (client 3) account
      (record {
        bump = omega arith;
        authority = array 32 owner.key refl refl;
        accumulator_commitment = array 32 root refl refl;
        latest_state_root = array 32 root refl refl;
        finalized_epoch = omega arith;
        finalized_root = array 32 root refl refl;
        program_vk = array 32 vk refl refl;
        submission_count = omega arith;
        accumulator_epoch = omega arith;
      })
      (omega arith)

init-empty_example :
    (out : Bytes) × (init (zeros ring_len) 254 ≡ ok out)
    × IsRing out
    × (bump out ≡ ok 254)
    × (slot out 0 ≡ ok none)
    × (entry out 0 ≡ err epoch_not_in_ring)
    × (entry_by_state_root out (zeros 32) ≡ err state_root_not_anchored)
init-empty_example = init-empty ring_len 254 (omega arith) 0 0 (zeros 32) (omega arith)

abbrev ring : Bytes
ring = (start_ledger ring_info.key).bytes

ring-IsRing : IsRing ring
ring-IsRing = RingAt-IsRing toy program ring_info.key owner.key start_ledger start_Stands.ring_at

abbrev checkpoint : FinalizationEntry
checkpoint = entry_of (output_at 299)

checkpoint-IsEntry : IsEntry checkpoint
checkpoint-IsEntry = entry_of-IsEntry (output_at 299) (output_at-IsOutput 299 (omega arith))

entry-write_entry_example :
    (out : Bytes) × (write_entry ring checkpoint ≡ ok out)
    × (entry out 172 ≡ (
        if 172 == checkpoint.finalized_epoch
        then ok checkpoint
        else if index_of 172 == index_of checkpoint.finalized_epoch
        then err epoch_not_in_ring
        else entry ring 172))
entry-write_entry_example = entry-write_entry ring checkpoint 172 ring-IsRing checkpoint-IsEntry

entry_by_state_root_cases_example :
    ((entry_by_state_root ring root ≡ err state_root_not_anchored)
      × NoneFrom ring root ring-IsRing 0 ring_entries)
    ⊎ ((k : ℕ) × (e : FinalizationEntry) × (entry_by_state_root ring root ≡ ok e)
        × (k < ring_entries)
        × (held ring k ≡ some e)
        × (e.finalized_state_root ≡ root)
        × NoneFrom ring root ring-IsRing 0 k)
entry_by_state_root_cases_example = entry_by_state_root_cases ring root ring-IsRing

unpack-Outcome_example : Outcome (3 ∷ replicate 64 6)
unpack-Outcome_example =
    unpack-Outcome (3 ∷ replicate 64 6) (array 65 (3 ∷ replicate 64 6) refl refl).bytes

process_instruction-build_example :
    (build toy.derivation program owner.key (submit_finalization proof (output_at 0)) >>= λ ix.
    process_instruction toy program (state_info ∷ ring_info ∷ []) ix.payload start_ledger)
    ≡ dispatch toy program
        (state_info ∷ ring_info ∷ [])
        (submit_finalization proof (output_at 0))
        start_ledger
process_instruction-build_example =
    process_instruction-build toy program toy.derivation owner.key (state_info ∷ ring_info ∷ [])
      (submit_finalization proof (output_at 0)) start_ledger
      (array 480 proof refl refl, output_at-IsOutput 0 (omega arith))
