-- ===== src/Plonk/Group.antt =====
-- program/src/plonk.rs: the field and group helpers.
use zkasper_solana.Base.{ℕ, zero, suc, ◌+◌, ◌*◌, ◌-◌, ◌^◌, List, [], ◌∷◌, Option, if◌then◌else◌}
use zkasper_solana.Base.Slices.{Bytes}
use zkasper_solana.Base.Result.{Result, ok, ◌>>=◌, ok_or}
use zkasper_solana.Base.Memory.{read, write, zeros}
use zkasper_solana.Base.Words.{from_be_bytes, to_be_bytes}
use zkasper_solana.Errors.{ZkasperError}
use zkasper_solana.Plonk.Backend.{Backend, ScalarField, BaseField}
use zkasper_solana.Plonk.Encoding.{failed}
use mathlib.Core.List.{reverse}

-- `u128::MAX`
abbrev max_u128 : ℕ
max_u128 = 2 ^ 128 - 1

module _ {E : Type 0} where
  -- The words of eight bytes from the i-th on, in the order in which the loop reads them.
  unfoldable pub be_words : ℕ → ℕ → Bytes → Result E (List ℕ)
  be_words zero i bytes = ok []
  be_words (suc count) i bytes = do
    word ← read (i * 8) (i * 8 + 8) bytes
    rest ← be_words count (i + 1) bytes
    ok (from_be_bytes word ∷ rest)

  -- The limbs, lowest first: the loop fills them from the last.
  unfoldable pub be_limbs : Bytes → Result E (List ℕ)
  be_limbs bytes = do words ← be_words 4 0 bytes; ok (reverse words)

  unfoldable pub put_words : List ℕ → ℕ → Bytes → Result E Bytes
  put_words [] i out = ok out
  put_words (limb ∷ limbs) i out = do
    out ← write (i * 8) (i * 8 + 8) (to_be_bytes 8 limb) out
    put_words limbs (i + 1) out

  module _ (f : ScalarField) where
    open f use {Fr, add, mul, from_int, from_bigint, into_bigint}

    unfoldable pub fr_reduce : Bytes → Result E Fr
    fr_reduce bytes = do
      hi ← read 0 16 bytes
      lo ← read 16 32 bytes
      ok (
          add (mul (from_int (from_be_bytes hi)) (add (from_int max_u128) (from_int 1)))
            (from_int (from_be_bytes lo)))

    unfoldable pub fr_canonical : Bytes → Result E (Option Fr)
    fr_canonical bytes = do limbs ← be_limbs bytes; ok (from_bigint limbs)

    unfoldable pub fr_bytes : Fr → Result E Bytes
    fr_bytes x = put_words (reverse (into_bigint x)) 0 (zeros 32)

  module _ (q : BaseField) where
    unfoldable pub fq_canonical : Bytes → Result E (Option q.Fq)
    fq_canonical bytes = do limbs ← be_limbs bytes; ok (q.from_bigint limbs)

    unfoldable pub g1_neg : Bytes → Result E Bytes
    g1_neg point = do
      half ← read 32 64 point
      let y = q.from_be_bytes_mod_order half
      if q.is_zero y then ok point else write 32 64 (q.to_bytes_be (q.neg y)) point

module _ (b : Backend) where
  open b.scalar use {Fr}

  unfoldable pub g1_mul : Bytes → Fr → Result ZkasperError Bytes
  g1_mul point scalar = do
    input ← write 0 64 point (zeros 96)
    bytes ← fr_bytes b.scalar scalar
    input ← write 64 96 bytes input
    out ← ok_or failed (b.syscalls.g1_multiplication input)
    write 0 64 out (zeros 64)

  unfoldable pub g1_add : Bytes → Bytes → Result ZkasperError Bytes
  g1_add p q = do
    input ← write 0 64 p (zeros 128)
    input ← write 64 128 q input
    out ← ok_or failed (b.syscalls.g1_addition input)
    write 0 64 out (zeros 64)

  unfoldable pub g1_mul_acc : Bytes → Bytes → Fr → Result ZkasperError Bytes
  g1_mul_acc acc point scalar = do product ← g1_mul point scalar; g1_add acc product
