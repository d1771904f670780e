-- ===== src/Plonk/Total.antt =====
-- program/src/plonk.rs, panics: the helpers on fields, points and encodings.
pub mod Membership
pub mod Hashing
pub mod Equation
use zkasper_solana.Base.{
  ℕ, zero, suc, ◌≡◌, refl, sym, ◌∙◌, ◌+◌, ◌-◌, ◌*◌, ◌≤◌, ◌<◌, ◌/◌, Bool-cases, inl, inr, List, [],
  ◌∷◌, Option, some, not, length, arith, ==_iff, if◌then◌else◌, ◌==◌, length-reverse, drop,
}
use zkasper_solana.Base.Slices.{Bytes}
use zkasper_solana.Base.Result.{Result, ok, ◌>>=◌, refuse_if, ok_or}
use zkasper_solana.Base.Memory.{read, write, zeros, length-zeros, chunks, chunks_exact}
use zkasper_solana.Base.Chunks.{length-chunks}
use zkasper_solana.Base.Words.{to_be_bytes, length-to_be_bytes}
use zkasper_solana.Base.Yields.{
  Yields, yields, refuses, Returns, Sized, Yields-bind, Yields-ok_or, refuse_if-Yields, read-Yields,
  write-Yields,
}
use zkasper_solana.Errors.{ZkasperError}
use zkasper_solana.Plonk.Backend.{Backend, ScalarField, BaseField, Syscalls}
use zkasper_solana.Plonk.Encoding.{
  failed, convert_points, decompress_proof, compress_proof, proof_len, compressed_proof_len,
}
use zkasper_solana.Plonk.Group.{
  be_words, be_limbs, put_words, fr_reduce, fr_canonical, fr_bytes, fq_canonical, g1_neg, g1_mul,
  g1_add, g1_mul_acc,
}
use mathlib.Core.List.{reverse}

-- What a call returns has `n` bytes.
abbrev pub ReturnsSized : (Bytes → Option Bytes) → ℕ → Type 0
ReturnsSized call n = (input out : Bytes) → call input ≡ some out → length out ≡ n

-- The sizes of what the fields and the syscalls return: a point has 64 bytes and 32 compressed, a
-- digest or a coordinate 32, and a `BigInt<4>` four limbs.
pub record IsSized (b : Backend) : Type 0 where
  pub g1_addition : ReturnsSized b.syscalls.g1_addition 64
  pub g1_multiplication : ReturnsSized b.syscalls.g1_multiplication 64
  pub g1_compress : ReturnsSized b.syscalls.g1_compress 32
  pub g1_decompress : ReturnsSized b.syscalls.g1_decompress 64
  pub sha256 : (input : Bytes) → length (b.syscalls.sha256 input) ≡ 32
  pub keccak : (input : Bytes) → length (b.syscalls.keccak input) ≡ 32
  pub into_bigint : (x : b.scalar.Fr) → length (b.scalar.into_bigint x) ≡ 4
  pub to_bytes_be : (y : b.base.Fq) → length (b.base.to_bytes_be y) ≡ 32

module _ {E : Type 0} where
  be_words-Returns :
      (count i : ℕ) (bytes : Bytes)
      → (i + count) * 8 ≤ length bytes
      → Returns {E = E} (be_words count i bytes)
  unfolding be_words
  be_words-Returns zero i bytes h = yields tt
  be_words-Returns (suc count) i bytes h =
      Yields-bind (read-Yields (i * 8) (i * 8 + 8) bytes (omega arith) (omega arith)) λ word w.
        Yields-bind (be_words-Returns count (i + 1) bytes (omega arith)) λ rest r. yields tt

  be_limbs-Returns : (bytes : Bytes) → Sized 32 bytes → Returns {E = E} (be_limbs bytes)
  unfolding be_limbs
  be_limbs-Returns bytes s =
      Yields-bind (be_words-Returns 4 0 bytes (omega (arith, s))) λ words w. yields tt

  put_words-Yields :
      (limbs : List ℕ) (i n : ℕ) (out : Bytes)
      → Sized n out
      → (i + length limbs) * 8 ≤ n
      → Yields {E = E} (Sized n) (put_words limbs i out)
  unfolding put_words
  put_words-Yields [] i n out s h = yields s
  put_words-Yields (limb ∷ limbs) i n out s h =
      Yields-bind
        (write-Yields n (i * 8) (i * 8 + 8) (to_be_bytes 8 limb) out s (omega arith) (omega arith)
          (omega (arith, length-to_be_bytes 8 limb)))
        λ out s. put_words-Yields limbs (i + 1) n out s (omega arith)

  module _ (f : ScalarField) where
    pub fr_reduce-Returns : (bytes : Bytes) → Sized 32 bytes → Returns {E = E} (fr_reduce f bytes)
    unfolding fr_reduce
    fr_reduce-Returns bytes s =
        Yields-bind (read-Yields 0 16 bytes (omega arith) (omega (arith, s))) λ hi h.
          Yields-bind (read-Yields 16 32 bytes (omega arith) (omega (arith, s))) λ lo l. yields tt

    pub fr_canonical-Returns :
        (bytes : Bytes) → Sized 32 bytes → Returns {E = E} (fr_canonical f bytes)
    unfolding fr_canonical
    fr_canonical-Returns bytes s = Yields-bind (be_limbs-Returns bytes s) λ limbs l. yields tt

    pub fr_bytes-Yields :
        (x : f.Fr) → length (f.into_bigint x) ≡ 4 → Yields {E = E} (Sized 32) (fr_bytes f x)
    unfolding fr_bytes
    fr_bytes-Yields x s =
        put_words-Yields (reverse (f.into_bigint x)) 0 32 (zeros 32) (length-zeros 32)
          (omega (arith, s, length-reverse (f.into_bigint x)))

  module _ (q : BaseField) where
    pub fq_canonical-Returns :
        (bytes : Bytes) → Sized 32 bytes → Returns {E = E} (fq_canonical q bytes)
    unfolding fq_canonical
    fq_canonical-Returns bytes s = Yields-bind (be_limbs-Returns bytes s) λ limbs l. yields tt

module _ (b : Backend) (sized : IsSized b) where
  pub g1_neg-Yields :
      {E : Type 0} (point : Bytes)
      → Sized 64 point
      → Yields {E = E} (Sized 64) (g1_neg b.base point)
  unfolding g1_neg
  g1_neg-Yields point s =
      Yields-bind (read-Yields 32 64 point (omega arith) (omega (arith, s))) λ half h.
        elim (Bool-cases (b.base.is_zero (b.base.from_be_bytes_mod_order half))) [
          | inl vanishes ↦ rw vanishes (yields s)
          | inr nonzero ↦ rw nonzero (
              write-Yields 64 32 64 _ point s (omega arith) (omega arith)
                (sized.to_bytes_be (b.base.neg (b.base.from_be_bytes_mod_order half))))
        ]

  pub g1_mul-Yields :
      (point : Bytes) (scalar : b.scalar.Fr)
      → Sized 64 point
      → Yields (Sized 64) (g1_mul b point scalar)
  unfolding g1_mul
  g1_mul-Yields point scalar s =
      Yields-bind
        (write-Yields 96 0 64 point (zeros 96) (length-zeros 96) (omega arith) (omega arith) s)
        λ input i.
          Yields-bind (fr_bytes-Yields b.scalar scalar (sized.into_bigint scalar)) λ bytes w.
            Yields-bind (write-Yields 96 64 96 bytes input i (omega arith) (omega arith) w)
              λ input i.
                Yields-bind
                  (Yields-ok_or failed (b.syscalls.g1_multiplication input)
                    (sized.g1_multiplication input))
                  λ out o.
                    write-Yields 64 0 64 out (zeros 64) (length-zeros 64) (omega arith)
                      (omega arith) o

  pub g1_add-Yields : (p q : Bytes) → Sized 64 p → Sized 64 q → Yields (Sized 64) (g1_add b p q)
  unfolding g1_add
  g1_add-Yields p q s t =
      Yields-bind
        (write-Yields 128 0 64 p (zeros 128) (length-zeros 128) (omega arith) (omega arith) s)
        λ input i.
          Yields-bind (write-Yields 128 64 128 q input i (omega arith) (omega arith) t) λ input i.
            Yields-bind
              (Yields-ok_or failed (b.syscalls.g1_addition input) (sized.g1_addition input))
              λ out o.
                write-Yields 64 0 64 out (zeros 64) (length-zeros 64) (omega arith) (omega arith) o

  pub g1_mul_acc-Yields :
      (acc point : Bytes) (scalar : b.scalar.Fr)
      → Sized 64 acc
      → Sized 64 point
      → Yields (Sized 64) (g1_mul_acc b acc point scalar)
  unfolding g1_mul_acc
  g1_mul_acc-Yields acc point scalar s t =
      Yields-bind (g1_mul-Yields point scalar t) λ product p. g1_add-Yields acc product s p

convert_points-Yields :
    (convert : Bytes → Option Bytes) (width n : ℕ) (pieces : List Bytes) (i : ℕ) (out : Bytes)
    → ReturnsSized convert width
    → Sized n out
    → (i + length pieces) * width ≤ n
    → Yields (Sized n) (convert_points convert width pieces i out)
unfolding convert_points
convert_points-Yields convert width n [] i out c s h = yields s
convert_points-Yields convert width n (piece ∷ pieces) i out c s h =
    Yields-bind (Yields-ok_or failed (convert piece) (c piece)) λ point p.
      Yields-bind
        (write-Yields n (i * width) (i * width + width) point out s (omega arith) (omega arith)
          (omega arith))
        λ out s. convert_points-Yields convert width n pieces (i + 1) out c s (omega arith)

-- The two conversions, on nine points and six evaluations.
module _ (calls : Syscalls) where
  pub decompress_proof-Yields :
      (proof : Bytes)
      → ReturnsSized calls.g1_decompress 64
      → Yields (Sized 768) (decompress_proof calls proof)
  unfolding decompress_proof chunks_exact
  decompress_proof-Yields proof g =
      Yields-bind (refuse_if-Yields (not (length proof == compressed_proof_len)) failed)
        λ done long.
          let sized : length proof ≡ 480 = ground (arith, long) in
          Yields-bind (read-Yields 0 288 proof (omega arith) (omega (arith, sized))) λ words w.
            let count : length (chunks 32 (length words / 32) words) ≡ 9 =
              omega (arith, length-chunks 32 (length words / 32) words, w) in
            Yields-bind
              (convert_points-Yields calls.g1_decompress 64 768 _ 0 (zeros 768) g (length-zeros 768)
                (omega (arith, count)))
              λ points p.
                Yields-bind (read-Yields 288 480 proof (omega arith) (omega (arith, sized)))
                  λ tail t. write-Yields 768 576 768 tail points p (omega arith) (omega arith) t

  pub compress_proof-Yields :
      (proof : Bytes)
      → ReturnsSized calls.g1_compress 32
      → Yields (Sized 480) (compress_proof calls proof)
  unfolding compress_proof chunks_exact
  compress_proof-Yields proof g =
      Yields-bind (refuse_if-Yields (not (length proof == proof_len)) failed) λ done long.
        let sized : length proof ≡ 768 = ground (arith, long) in
        Yields-bind (read-Yields 0 576 proof (omega arith) (omega (arith, sized))) λ points w.
          let count : length (chunks 64 (length points / 64) points) ≡ 9 =
            omega (arith, length-chunks 64 (length points / 64) points, w) in
          Yields-bind
            (convert_points-Yields calls.g1_compress 32 480 _ 0 (zeros 480) g (length-zeros 480)
              (omega (arith, count)))
            λ packed p.
              Yields-bind (read-Yields 576 768 proof (omega arith) (omega (arith, sized)))
                λ tail t. write-Yields 480 288 480 tail packed p (omega arith) (omega arith) t
