-- ===== src/Runtime/Address.antt =====
-- Program-derived addresses: `Pubkey::find_program_address` and `Pubkey::create_program_address`.
use zkasper_solana.Base.{ℕ, ◌≡◌, List, [], ◌∷◌, ◌++◌, Option, some}
use zkasper_solana.Base.Slices.{Bytes}
use zkasper_solana.Base.Text.{codes}
use zkasper_solana.Base.Words.{IsByte}
use zkasper_solana.State.LightClient.{Pubkey}

-- `find_program_address` walks the bumps down to one that `create_program_address` accepts, and
-- returns that address with its bump.
pub record Derivation : Type 0 where
  pub find_program_address : List Bytes → Pubkey → Pubkey × ℕ
  pub create_program_address : List Bytes → Pubkey → Option Pubkey
  pub found_is_created :
      (seeds : List Bytes) (program_id : Pubkey)
      → create_program_address
          (seeds ++ ((find_program_address seeds program_id).1 ∷ []) ∷ [])
          program_id
        ≡ some (find_program_address seeds program_id).0
  pub found_bump_fits :
      (seeds : List Bytes) (program_id : Pubkey) → IsByte (find_program_address seeds program_id).1

abbrev pub seed_state : Bytes
seed_state = codes "zkasper-state"

abbrev pub seed_ring : Bytes
seed_ring = codes "zkasper-ring"

-- program/src/state.rs
module _ (d : Derivation) where
  unfoldable pub light_client_address : Pubkey → Pubkey → Pubkey × ℕ
  light_client_address program_id authority =
      d.find_program_address (seed_state ∷ authority ∷ []) program_id

  unfoldable pub finalization_ring_address : Pubkey → Pubkey → Pubkey × ℕ
  finalization_ring_address program_id authority =
      d.find_program_address (seed_ring ∷ authority ∷ []) program_id
