-- ===== src/Processor/Typed.antt =====
-- The bytes of the accounts after an accepted submission.
use zkasper_solana.Base.{
  All, All-drop, drop, Bool-cases, inl, inr, bytes_eq, bytes_eq→eq, bytes_eq-false→ne, arith,
}
use zkasper_solana.Base.Slices.{Bytes}
use zkasper_solana.Base.Words.{IsByte, to_le_bytes-IsArray}
use zkasper_solana.Base.Layout.{concat-bytes}
use zkasper_solana.Processor.{Host, entry_of}
use zkasper_solana.Processor.Submit.{landed, advanced, Admits, entry_of-IsEntry}
use zkasper_solana.Processor.Landed.{
  landed-state, landed-ring_bytes, landed-other, advanced-IsState,
}
use zkasper_solana.Runtime.Accounts.{Ledger}
use zkasper_solana.State.LightClient.{Pubkey, LightClientState, IsState, light_client_len}
use zkasper_solana.State.LightClient.Layout.{encode_state, state_fields}
use zkasper_solana.State.Ring.Write.{after-bytes}
use zkasper_solana.Wire.{FinalizationOutput, IsOutput}

module _ (s : LightClientState) (v : IsState s) where
  pub encode_state-bytes : (rest : Bytes) → All IsByte rest → All IsByte (encode_state s rest)
  encode_state-bytes rest r =
      concat-bytes (state_fields s) rest
        (
          (omega arith, tt),
          (
            (v.bump, tt),
            (
              v.authority.bytes,
              (
                v.accumulator_commitment.bytes,
                (
                  v.latest_state_root.bytes,
                  (
                    (to_le_bytes-IsArray 8 s.finalized_epoch).bytes,
                    (
                      v.finalized_root.bytes,
                      (
                        v.program_vk.bytes,
                        (
                          (to_le_bytes-IsArray 8 s.submission_count).bytes,
                          ((to_le_bytes-IsArray 8 s.accumulator_epoch).bytes, tt),
                        ),
                      ),
                    ),
                  ),
                ),
              ),
            ),
          ),
        )
        r

module _ (h : Host) (program_id : Pubkey) {state_key ring_key : Pubkey} {s : LightClientState}
    {proof : Bytes} {output : FinalizationOutput} {ledger : Ledger} (v : IsState s)
    (o : IsOutput output) (a : Admits h program_id state_key ring_key s proof output ledger)
    (all : (key : Pubkey) → All IsByte (ledger key).bytes) where
  pub landed-bytes :
      (key : Pubkey) → All IsByte (landed state_key ring_key s output ledger key).bytes
  landed-bytes key = elim (Bool-cases (bytes_eq key state_key)) [
    | inl at_state ↦
        rw (bytes_eq→eq key state_key at_state, landed-state h program_id v o a)
          (encode_state-bytes (advanced s output) (advanced-IsState h program_id v o a)
            (drop light_client_len (ledger state_key).bytes)
            (All-drop IsByte light_client_len (ledger state_key).bytes (all state_key)))
    | inr not_state ↦ elim (Bool-cases (bytes_eq key ring_key)) [
      | inl at_ring ↦
          rw (bytes_eq→eq key ring_key at_ring, landed-ring_bytes h program_id v o a)
            (after-bytes (ledger ring_key).bytes (entry_of output) (entry_of-IsEntry output o)
              (all ring_key))
      | inr not_ring ↦
          rw
            (landed-other h program_id v o a key (bytes_eq-false→ne key state_key not_state)
              (bytes_eq-false→ne key ring_key not_ring))
            (all key)
    ]
  ]
