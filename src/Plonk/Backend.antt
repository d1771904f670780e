-- ===== src/Plonk/Backend.antt =====
-- What the verifier takes from `ark_bn254`, from Solana's `alt_bn128` syscalls and from its hashes:
-- two prime fields, the group operations on encoded points, SHA-256 and Keccak-256.
use zkasper_solana.Base.{ℕ, Bool, List, Option}
use zkasper_solana.Base.Slices.{Bytes}

-- `ark_bn254::Fr`. A `BigInt<4>` is its four limbs, the lowest first.
pub record ScalarField : Type 1 where
  pub Fr : Type 0
  pub add : Fr → Fr → Fr
  pub sub : Fr → Fr → Fr
  pub mul : Fr → Fr → Fr
  pub neg : Fr → Fr
  -- `Fr::from` of an unsigned integer
  pub from_int : ℕ → Fr
  pub inverse : Fr → Option Fr
  pub from_bigint : List ℕ → Option Fr
  pub into_bigint : Fr → List ℕ
  pub eq : Fr → Fr → Bool
  -- `into_bigint().to_bytes_be()`
  pub to_bytes_be : Fr → Bytes

-- `ark_bn254::Fq`
pub record BaseField : Type 1 where
  pub Fq : Type 0
  pub add : Fq → Fq → Fq
  pub mul : Fq → Fq → Fq
  pub neg : Fq → Fq
  pub from_int : ℕ → Fq
  pub eq : Fq → Fq → Bool
  pub is_zero : Fq → Bool
  pub from_bigint : List ℕ → Option Fq
  pub from_be_bytes_mod_order : Bytes → Fq
  -- `into_bigint().to_bytes_be()`
  pub to_bytes_be : Fq → Bytes

-- The syscalls; `none` is an error.
pub record Syscalls : Type 0 where
  pub g1_addition : Bytes → Option Bytes
  pub g1_multiplication : Bytes → Option Bytes
  pub pairing : Bytes → Option Bytes
  pub g1_compress : Bytes → Option Bytes
  pub g1_decompress : Bytes → Option Bytes
  pub sha256 : Bytes → Bytes
  pub keccak : Bytes → Bytes

pub record Backend : Type 1 where
  pub scalar : ScalarField
  pub base : BaseField
  pub syscalls : Syscalls
