-- ===== src/Cli.antt =====
-- cli/src/main.rs: the client. Here, of `read_wrap`: the committed output, from the public window.
pub mod Recover
pub mod Artifact
pub mod Commands
pub mod Posting
pub mod Demo
pub mod Read
pub mod Typed
pub mod Sends
use zkasper_solana.Base.{ℕ, ◌==◌, not, length, List, [], ◌∷◌}
use zkasper_solana.Base.Slices.{Bytes}
use zkasper_solana.Base.Result.{Result, ok, ◌>>=◌, ◌>>◌, refuse_if}
use zkasper_solana.Base.Memory.{read, write, zeros, chunks_exact}
use zkasper_solana.Base.Layout.{concat}
use zkasper_solana.Plonk.Vk.{public_values_len}
use zkasper_solana.Wire.{FinalizationOutput, finalization_public_bytes, from_public_bytes}

-- `four.copy_from_slice(&slot[..4])` for the fours and slots in step, until either runs out.
unfoldable pub gather : List Bytes → List Bytes → Result (Unit {0}) (List Bytes)
gather [] slots = ok []
gather (four ∷ fours) [] = ok (four ∷ fours)
gather (four ∷ fours) (slot ∷ slots) = do
  half ← read 0 4 slot
  filled ← write 0 4 half four
  rest ← gather fours slots
  ok (filled ∷ rest)

-- The field `output` of what `read_wrap` returns, from the decoded `publicValues`; an error is `die`.
unfoldable pub wrap_output : Bytes → Result (Unit {0}) FinalizationOutput
wrap_output publics = do
  refuse_if (not (length publics == public_values_len)) tt
  head ← gather (chunks_exact 4 (zeros finalization_public_bytes)) (chunks_exact 8 publics)
  from_public_bytes (concat head [])
