-- ===== src/Plonk/Transcript.antt =====
-- program/src/plonk.rs: the public input and the Fiat-Shamir challenges.
use zkasper_solana.Base.{ℕ, zero, suc, ◌+◌, ◌*◌, List, [], ◌∷◌}
use zkasper_solana.Base.Slices.{Bytes}
use zkasper_solana.Base.Result.{Result, ok, ◌>>=◌}
use zkasper_solana.Base.Memory.{read, write, zeros}
use zkasper_solana.Plonk.Vk
use zkasper_solana.Plonk.Backend.{Backend, ScalarField}
use zkasper_solana.Plonk.Group.{fr_reduce, fr_bytes}
use zkasper_solana.Plonk.Proof.{Proof}

pub record Challenges (f : ScalarField) : Type 0 where
  pub alpha : f.Fr
  pub alpha2 : f.Fr
  pub beta : f.Fr
  pub gamma : f.Fr
  pub xi : f.Fr
  pub xin : f.Fr
  pub beta_xi : f.Fr
  pub zh : f.Fr
  pub v1 : f.Fr
  pub v2 : f.Fr
  pub v3 : f.Fr
  pub v4 : f.Fr
  pub v5 : f.Fr
  pub u : f.Fr

module _ {E : Type 0} where
  -- The points side by side, from the i-th place on.
  unfoldable pub put_points : List Bytes → ℕ → Bytes → Result E Bytes
  put_points [] i t = ok t
  put_points (p ∷ ps) i t = do t ← write (i * 64) (i * 64 + 64) p t; put_points ps (i + 1) t

module _ (f : ScalarField) where
  -- `count` squarings
  unfoldable pub square_times : ℕ → f.Fr → f.Fr
  square_times zero x = x
  square_times (suc count) x = square_times count (f.mul x x)

module _ {E : Type 0} (b : Backend) where
  open b.scalar use {Fr, add, sub, mul, from_int}

  -- `preimage`, before it is hashed.
  unfoldable pub public_preimage : Bytes → Bytes → Result E Bytes
  public_preimage program_vk public_values = do
    preimage ← write 0 32 program_vk (zeros (32 + Vk.public_values_len + 32))
    preimage ← write 32 (32 + Vk.public_values_len) public_values preimage
    write (32 + Vk.public_values_len) (32 + Vk.public_values_len + 32) Vk.root_c_vadcop_final
        preimage

  unfoldable pub public_input : Bytes → Bytes → Result E Fr
  public_input program_vk public_values = do
    preimage ← public_preimage program_vk public_values
    fr_reduce b.scalar (b.syscalls.sha256 preimage)

  abbrev pub squeeze : Bytes → Result E Fr
  squeeze t = fr_reduce b.scalar (b.syscalls.keccak t)

  unfoldable pub challenge_beta : Proof b.scalar → Fr → Result E Fr
  challenge_beta proof pi = do
    t ←
        put_points (Vk.qm ∷ Vk.ql ∷ Vk.qr ∷ Vk.qo ∷ Vk.qc ∷ Vk.s1 ∷ Vk.s2 ∷ Vk.s3 ∷ []) 0
          (zeros 736)
    pi_bytes ← fr_bytes b.scalar pi
    t ← write 512 544 pi_bytes t
    t ← write 544 608 proof.a t
    t ← write 608 672 proof.b t
    t ← write 672 736 proof.c t
    squeeze t

  unfoldable pub challenge_alpha : Proof b.scalar → Fr → Fr → Result E Fr
  challenge_alpha proof beta gamma = do
    beta_bytes ← fr_bytes b.scalar beta
    t ← write 0 32 beta_bytes (zeros 128)
    gamma_bytes ← fr_bytes b.scalar gamma
    t ← write 32 64 gamma_bytes t
    t ← write 64 128 proof.z t
    squeeze t

  unfoldable pub challenge_xi : Proof b.scalar → Fr → Result E Fr
  challenge_xi proof alpha = do
    alpha_bytes ← fr_bytes b.scalar alpha
    t ← write 0 32 alpha_bytes (zeros 224)
    t ← write 32 96 proof.t1 t
    t ← write 96 160 proof.t2 t
    t ← write 160 224 proof.t3 t
    squeeze t

  unfoldable pub challenge_v : Proof b.scalar → Fr → Result E Fr
  challenge_v proof xi = do
    xi_bytes ← fr_bytes b.scalar xi
    t ← write 0 32 xi_bytes (zeros 224)
    evaluations ← read 576 768 proof.raw
    t ← write 32 224 evaluations t
    squeeze t

  unfoldable pub challenge_u : Proof b.scalar → Result E Fr
  challenge_u proof = do
    t ← write 0 64 proof.wxi (zeros 128)
    t ← write 64 128 proof.wxiw t
    squeeze t

  unfoldable pub challenges : Proof b.scalar → Fr → Result E (Challenges b.scalar)
  challenges proof pi = do
    beta ← challenge_beta proof pi
    beta_bytes ← fr_bytes b.scalar beta
    gamma ← squeeze beta_bytes
    alpha ← challenge_alpha proof beta gamma
    xi ← challenge_xi proof alpha
    v1 ← challenge_v proof xi
    u ← challenge_u proof
    let xin = square_times b.scalar Vk.power xi
    let v2 = mul v1 v1
    let v3 = mul v2 v1
    let v4 = mul v3 v1
    let v5 = mul v4 v1
    ok (record {
      alpha = alpha;
      alpha2 = mul alpha alpha;
      beta = beta;
      gamma = gamma;
      xi = xi;
      xin = xin;
      beta_xi = mul beta xi;
      zh = sub xin (from_int 1);
      v1 = v1;
      v2 = v2;
      v3 = v3;
      v4 = v4;
      v5 = v5;
      u = u;
    })
