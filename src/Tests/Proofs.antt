-- ===== src/Tests/Proofs.antt =====
-- The theorems on the verifier at concrete inputs.
use zkasper_solana.Base.{
  ℕ, ◌≡◌, ◌↔◌, All, refl, Option, some, none, length, replicate, arith, bytes_eq, bytes_eq→eq, Bool,
  true, Bool-cases, inl, inr, sym, ap, if◌then◌else◌,
}
use zkasper_solana.Base.Slices.{Bytes, slice, copy_slice, set_byte}
use zkasper_solana.Base.Result.{Result, ok}
use zkasper_solana.Base.Memory.{read, read_byte, write, write_byte, zeros, chunks, chunks_exact}
use zkasper_solana.Base.Words.{to_le_bytes, from_le_bytes, from_be_bytes, to_be_bytes}
use zkasper_solana.Errors.{ZkasperError}
use zkasper_solana.Plonk.Accept.{membership_iff}
use zkasper_solana.Plonk.Curve.{OnCurve, points_of}
use zkasper_solana.Plonk.Backend.{Syscalls}
use zkasper_solana.Plonk.Encoding.{compress_proof, decompress_proof, convert_points}
use zkasper_solana.Plonk.Group.{
  be_words, be_limbs, put_words, fr_reduce, fr_canonical, fr_bytes, g1_neg, g1_mul, g1_add,
  g1_mul_acc, fq_canonical,
}
use zkasper_solana.Plonk.Proof.{parse, commitments, on_curve, all_on_curve, well_formed}
use zkasper_solana.Plonk.RoundTrip.{Invertible, decompress_proof-compress_proof}
use zkasper_solana.Plonk.Statement.{statement-binds}
use zkasper_solana.Plonk.Transcript.{
  put_points, square_times, public_preimage, public_input, challenge_beta, challenge_alpha,
  challenge_xi, challenge_v, challenge_u, challenges,
}
use zkasper_solana.Plonk.Verify.{
  lagrange_1, eval_r0, z_scalar, s3_scalar, e_scalar, calculate_d, calculate_f, calculate_e,
  check_pairing, verify_with, verify,
}
use zkasper_solana.Tests.Toy.{toy}
use zkasper_solana.Tests.Client.{vk, output_at}
use zkasper_solana.Tests.LongRun.{array, output_at-IsOutput}

abbrev raw_proof : Bytes
raw_proof = replicate 768 4

abbrev window : Bytes
window = replicate 512 0

abbrev mode : Bool → Result ZkasperError (Unit {0})
mode check_membership = verify_with toy.backend raw_proof vk window check_membership

-- Every point of the toy host is on its curve.
checked : mode true ≡ ok tt
unfolding be_words be_limbs put_words fr_reduce fr_canonical fr_bytes fq_canonical g1_neg g1_mul
    g1_add g1_mul_acc parse commitments on_curve all_on_curve well_formed put_points square_times
    public_preimage public_input challenge_beta challenge_alpha challenge_xi challenge_v challenge_u
    challenges lagrange_1 eval_r0 z_scalar s3_scalar e_scalar calculate_d calculate_f calculate_e
    check_pairing verify_with read read_byte write write_byte zeros slice copy_slice set_byte
    from_le_bytes from_be_bytes to_le_bytes to_be_bytes
checked = refl

membership_iff_example : (mode true ≡ ok tt) ↔ (
    (verify toy.backend raw_proof vk window ≡ ok tt)
    × All (OnCurve toy.backend.base) (points_of raw_proof))
membership_iff_example = membership_iff toy.backend raw_proof vk window

statement-binds_example : (output_at 8 ≡ output_at 8) × (vk ≡ vk)
statement-binds_example =
    statement-binds toy.backend (output_at 8) (output_at 8) vk vk
      (output_at-IsOutput 8 (omega arith)) (output_at-IsOutput 8 (omega arith))
      (array 32 vk refl refl) (array 32 vk refl refl) refl

-- Curve points that are each their first half twice.
abbrev halves : Syscalls
halves = record {
  g1_addition = λ bytes. none;
  g1_multiplication = λ bytes. none;
  pairing = λ bytes. none;
  g1_compress = λ point. if bytes_eq point (replicate 64 4) then some (replicate 32 4) else none;
  g1_decompress = λ packed. some (replicate 64 4);
  sha256 = λ bytes. replicate 32 5;
  keccak = λ bytes. replicate 32 6;
}

halves-Invertible : Invertible toy.backend.base halves
halves-Invertible point packed sized on_curve e =
    elim (Bool-cases (bytes_eq point (replicate 64 4))) [
      | inl same ↦
          let packed_is : some (replicate 32 4) ≡ some packed = rw same at e in
          (
            cc (ap (λ o. ok_length o) packed_is),
            ap some (sym (bytes_eq→eq point (replicate 64 4) same)),
          )
      | inr other ↦ cc (rw other at e)
    ]
  where
    ok_length : Option Bytes → ℕ
    ok_length none = 0
    ok_length (some xs) = length xs

abbrev small_proof : Bytes
small_proof = replicate 480 4

compressed : compress_proof halves raw_proof ≡ ok small_proof
unfolding compress_proof convert_points read write zeros chunks chunks_exact slice copy_slice
    bytes_eq
compressed = refl

decompress_proof-compress_proof_example : decompress_proof halves small_proof ≡ ok raw_proof
decompress_proof-compress_proof_example =
    decompress_proof-compress_proof toy.backend.base halves raw_proof small_proof halves-Invertible
      (membership_iff_example.0 checked).1 compressed
