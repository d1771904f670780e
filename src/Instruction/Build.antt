-- ===== src/Instruction/Build.antt =====
-- program/src/instruction.rs, the builders: what a client puts into a transaction.
use zkasper_solana.Base.{ℕ, Bool, true, false, List, [], ◌∷◌}
use zkasper_solana.Base.Slices.{Bytes}
use zkasper_solana.Base.Result.{Result, ok, ◌>>=◌}
use zkasper_solana.Base.Words.{u64_bytes}
use zkasper_solana.Base.Memory.{zeros}
use zkasper_solana.Base.Layout.{concat}
use zkasper_solana.Wire.{FinalizationOutput, public_bytes}
use zkasper_solana.State.LightClient.{Pubkey}
use zkasper_solana.Runtime.Address.{Derivation, light_client_address, finalization_ring_address}
use zkasper_solana.Instruction.{
  ix_initialize, ix_submit_finalization, ix_assert_finalized, ix_assert_anchored, ix_verify_only,
}

pub record AccountMeta : Type 0 where
  pub pubkey : Pubkey
  pub is_signer : Bool
  pub is_writable : Bool

-- `AccountMeta::new` and `AccountMeta::new_readonly`
abbrev pub writable : Pubkey → Bool → AccountMeta
writable key signer = record { pubkey = key; is_signer = signer; is_writable = true }

abbrev pub readonly : Pubkey → Bool → AccountMeta
readonly key signer = record { pubkey = key; is_signer = signer; is_writable = false }

-- `payload` is the field `data`: the pieces in the order in which they are pushed and extended.
pub record Instruction : Type 0 where
  pub program_id : Pubkey
  pub accounts : List AccountMeta
  pub payload : Bytes

-- The address of the system program.
abbrev pub system_program : Pubkey
system_program = zeros 32

module _ (d : Derivation) where
  unfoldable pub initialize : Pubkey → Pubkey → Bytes → Bytes → ℕ → Bytes → Bytes → Instruction
  initialize program_id authority commitment state_root epoch root vk =
      let (state, _) = light_client_address d program_id authority in
      let (ring, _) = finalization_ring_address d program_id authority in
      record {
        program_id = program_id;
        accounts =
            writable authority true
            ∷ writable state false
            ∷ writable ring false
            ∷ readonly system_program false
            ∷ [];
        payload =
            concat
              ((ix_initialize ∷ []) ∷ commitment ∷ state_root ∷ u64_bytes epoch ∷ root ∷ vk ∷ [])
              [];
      }

  module _ {E : Type 0} where
    unfoldable pub submit_finalization :
        Pubkey → Pubkey → Bytes → FinalizationOutput → Result E Instruction
    submit_finalization program_id authority proof output = do
      let (state, _) = light_client_address d program_id authority
      let (ring, _) = finalization_ring_address d program_id authority
      publics ← public_bytes output
      ok (record {
        program_id = program_id;
        accounts = writable state false ∷ writable ring false ∷ [];
        payload = concat ((ix_submit_finalization ∷ []) ∷ proof ∷ publics ∷ []) [];
      })

    unfoldable pub verify_only : Pubkey → Pubkey → Bytes → FinalizationOutput → Result E Instruction
    verify_only program_id authority proof output = do
      let (state, _) = light_client_address d program_id authority
      publics ← public_bytes output
      ok (record {
        program_id = program_id;
        accounts = readonly state false ∷ [];
        payload = concat ((ix_verify_only ∷ []) ∷ proof ∷ publics ∷ []) [];
      })

  unfoldable pub assert_finalized : Pubkey → Pubkey → ℕ → Bytes → Instruction
  assert_finalized program_id authority epoch root =
      let (ring, _) = finalization_ring_address d program_id authority in
      record {
        program_id = program_id;
        accounts = readonly ring false ∷ [];
        payload = concat ((ix_assert_finalized ∷ []) ∷ authority ∷ u64_bytes epoch ∷ root ∷ []) [];
      }

  unfoldable pub assert_anchored : Pubkey → Pubkey → Bytes → Instruction
  assert_anchored program_id authority state_root =
      let (ring, _) = finalization_ring_address d program_id authority in
      record {
        program_id = program_id;
        accounts = readonly ring false ∷ [];
        payload = concat ((ix_assert_anchored ∷ []) ∷ authority ∷ state_root ∷ []) [];
      }
