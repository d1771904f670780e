-- ===== src/Wire.antt =====
-- program/src/wire.rs: the committed output of a finalization proof, and the public window.
pub mod PublicBytes
pub mod GuestKey
pub mod Window
pub mod Binding
use zkasper_solana.Base.{
  ℕ, ◌+◌, ◌*◌, ◌/◌, List, [], ◌∷◌, ◌++◌, Bool, true, map, flatten, length, drop, if◌then◌else◌,
}
use zkasper_solana.Base.Slices.{Bytes}
use zkasper_solana.Base.Result.{Result, ok, ◌>>=◌}
use zkasper_solana.Base.Memory.{read, write, zeros, chunks_exact}
use zkasper_solana.Base.Layout.{concat}
use zkasper_solana.Base.Words.{from_le_bytes, u64_bytes, IsArray, IsU64}
use zkasper_solana.Plonk.Vk.{public_values_len}
use mathlib.Core.List.{reverse}

abbrev pub finalization_public_bytes : ℕ
finalization_public_bytes = 32 + 32 + 8 + 32 + 32 + 8 + 32

abbrev guest_commits_program_vk : Bool
guest_commits_program_vk = true

pub record FinalizationOutput : Type 0 where
  pub accumulator_commitment : Bytes
  pub next_accumulator_commitment : Bytes
  pub finalized_epoch : ℕ
  pub finalized_root : Bytes
  pub finalized_state_root : Bytes
  pub justified_epoch : ℕ
  pub justified_root : Bytes

-- The values of the Rust type: arrays of 32 bytes and two `u64`.
pub record IsOutput (o : FinalizationOutput) : Type 0 where
  pub accumulator_commitment : IsArray 32 o.accumulator_commitment
  pub next_accumulator_commitment : IsArray 32 o.next_accumulator_commitment
  pub finalized_epoch : IsU64 o.finalized_epoch
  pub finalized_root : IsArray 32 o.finalized_root
  pub finalized_state_root : IsArray 32 o.finalized_state_root
  pub justified_epoch : IsU64 o.justified_epoch
  pub justified_root : IsArray 32 o.justified_root

module _ {E : Type 0} where
  unfoldable pub public_bytes : FinalizationOutput → Result E Bytes
  public_bytes o = do
    out ← write 0 32 o.accumulator_commitment (zeros finalization_public_bytes)
    out ← write 32 64 o.next_accumulator_commitment out
    out ← write 64 72 (u64_bytes o.finalized_epoch) out
    out ← write 72 104 o.finalized_root out
    out ← write 104 136 o.finalized_state_root out
    out ← write 136 144 (u64_bytes o.justified_epoch) out
    write 144 176 o.justified_root out

  -- `a32` and `u64_at` of `from_public_bytes`
  abbrev pub a32 : Bytes → ℕ → Result E Bytes
  a32 bytes off = read off (off + 32) bytes

  abbrev pub u64_at : Bytes → ℕ → Result E ℕ
  u64_at bytes off = do word ← read off (off + 8) bytes; ok (from_le_bytes word)

  unfoldable pub from_public_bytes : Bytes → Result E FinalizationOutput
  from_public_bytes bytes = do
    accumulator ← a32 bytes 0
    next_accumulator ← a32 bytes 32
    epoch ← u64_at bytes 64
    root ← a32 bytes 72
    state_root ← a32 bytes 104
    justified ← u64_at bytes 136
    justified_root ← a32 bytes 144
    ok (record {
      accumulator_commitment = accumulator;
      next_accumulator_commitment = next_accumulator;
      finalized_epoch = epoch;
      finalized_root = root;
      finalized_state_root = state_root;
      justified_epoch = justified;
      justified_root = justified_root;
    })

-- Every whole word of eight bytes is reversed; a shorter rest would stay as it is.
unfoldable pub guest_program_vk : Bytes → Bytes
guest_program_vk program_vk =
    concat (map reverse (chunks_exact 8 program_vk)) (drop (8 * (length program_vk / 8)) program_vk)

module _ {E : Type 0} where
  -- `slot[..4].copy_from_slice(four)` for the slots and fours in step, until either runs out.
  unfoldable pub spread : List Bytes → List Bytes → Result E (List Bytes)
  spread [] fours = ok []
  spread (slot ∷ slots) [] = ok (slot ∷ slots)
  spread (slot ∷ slots) (four ∷ fours) = do
    filled ← write 0 4 four slot
    rest ← spread slots fours
    ok (filled ∷ rest)

  unfoldable pub public_values : FinalizationOutput → Bytes → Result E Bytes
  public_values output program_vk = do
    bytes ← public_bytes output
    committed ← write 0 finalization_public_bytes bytes (zeros (finalization_public_bytes + 32))
    committed ←
        if guest_commits_program_vk
        then write finalization_public_bytes (finalization_public_bytes + 32)
            (guest_program_vk program_vk) committed
        else ok committed
    slots ← spread (chunks_exact 8 (zeros public_values_len)) (chunks_exact 4 committed)
    ok (concat slots [])
