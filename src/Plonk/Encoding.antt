-- ===== src/Plonk/Encoding.antt =====
-- program/src/plonk.rs: the two encodings of a proof, and the conversion between them.
use zkasper_solana.Base.{ℕ, ◌+◌, ◌*◌, not, ◌==◌, length, List, [], ◌∷◌, Option}
use zkasper_solana.Base.Slices.{Bytes}
use zkasper_solana.Base.Result.{Result, ok, ◌>>=◌, ◌>>◌, refuse_if, ok_or}
use zkasper_solana.Base.Memory.{read, write, zeros, chunks_exact}
use zkasper_solana.Errors.{ZkasperError, proof_verification_failed}
use zkasper_solana.Plonk.Backend.{Syscalls}

abbrev pub proof_len : ℕ
proof_len = 768

abbrev pub compressed_proof_len : ℕ
compressed_proof_len = 9 * 32 + 6 * 32

abbrev pub failed : ZkasperError
failed = proof_verification_failed

-- Each piece goes through `convert` and is stored at the i-th place of `width` bytes.
unfoldable pub convert_points :
    (Bytes → Option Bytes) → ℕ → List Bytes → ℕ → Bytes → Result ZkasperError Bytes
convert_points convert width [] i out = ok out
convert_points convert width (piece ∷ pieces) i out = do
  point ← ok_or failed (convert piece)
  out ← write (i * width) (i * width + width) point out
  convert_points convert width pieces (i + 1) out

module _ (calls : Syscalls) where
  unfoldable pub decompress_proof : Bytes → Result ZkasperError Bytes
  decompress_proof compressed = do
    refuse_if (not (length compressed == compressed_proof_len)) failed
    words ← read 0 (9 * 32) compressed
    proof ← convert_points calls.g1_decompress 64 (chunks_exact 32 words) 0 (zeros proof_len)
    evaluations ← read (9 * 32) compressed_proof_len compressed
    write (9 * 64) proof_len evaluations proof

  unfoldable pub compress_proof : Bytes → Result ZkasperError Bytes
  compress_proof proof = do
    refuse_if (not (length proof == proof_len)) failed
    points ← read 0 (9 * 64) proof
    compressed ←
        convert_points calls.g1_compress 32 (chunks_exact 64 points) 0 (zeros compressed_proof_len)
    evaluations ← read (9 * 64) proof_len proof
    write (9 * 32) compressed_proof_len evaluations compressed
