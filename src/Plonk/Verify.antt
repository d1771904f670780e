-- ===== src/Plonk/Verify.antt =====
-- program/src/plonk.rs: the verification equation.
use zkasper_solana.Base.{ℕ, ◌==◌, not, Bool, true, false, Option, none, some, if◌then◌else◌}
use zkasper_solana.Base.Slices.{Bytes}
use zkasper_solana.Base.Result.{Result, ok, err, ◌>>=◌, ◌>>◌, refuse_if, ok_or, map_err}
use zkasper_solana.Base.Memory.{write, zeros}
use zkasper_solana.Errors.{ZkasperError}
use zkasper_solana.Plonk.Vk
use zkasper_solana.Plonk.Backend.{Backend, ScalarField}
use zkasper_solana.Plonk.Encoding.{failed}
use zkasper_solana.Plonk.Group.{fr_canonical, g1_mul, g1_add, g1_neg, g1_mul_acc}
use zkasper_solana.Plonk.Proof.{Proof, parse, well_formed}
use zkasper_solana.Plonk.Transcript.{Challenges, public_input, challenges}
use mathlib.Core.List.{get_last?}

module _ (f : ScalarField) where
  open f use {Fr, add, sub, mul, neg, from_int, inverse}

  unfoldable pub lagrange_1 : Challenges f → Result ZkasperError Fr
  lagrange_1 c = do
    let denominator = mul (from_int Vk.n) (sub c.xi (from_int 1))
    acc ← ok_or failed (inverse (mul c.zh denominator))
    let eval_l1_inv = mul acc c.zh
    ok (mul eval_l1_inv c.zh)

  unfoldable pub eval_r0 : Proof f → Challenges f → Fr → Fr → Fr
  eval_r0 proof c pi eval_l1 =
      let e2 = mul eval_l1 c.alpha2 in
      let e3a = add (add proof.eval_a (mul c.beta proof.eval_s1)) c.gamma in
      let e3b = add (add proof.eval_b (mul c.beta proof.eval_s2)) c.gamma in
      let e3c = add proof.eval_c c.gamma in
      let e3 = mul (mul (mul (mul e3a e3b) e3c) proof.eval_zw) c.alpha in sub (sub pi e2) e3

  -- The scalar of `Z` in `calculate_d`.
  unfoldable pub z_scalar : Proof f → Challenges f → Fr → Fr
  z_scalar proof c eval_l1 =
      let val1 = add (add proof.eval_a c.beta_xi) c.gamma in
      let val2 = add (add proof.eval_b (mul c.beta_xi (from_int Vk.k1))) c.gamma in
      let val3 = add (add proof.eval_c (mul c.beta_xi (from_int Vk.k2))) c.gamma in
      add (add (mul (mul (mul val1 val2) val3) c.alpha) (mul eval_l1 c.alpha2)) c.u

  -- The scalar of `S3` in `calculate_d`.
  unfoldable pub s3_scalar : Proof f → Challenges f → Fr
  s3_scalar proof c =
      let val1 = add (add proof.eval_a (mul c.beta proof.eval_s1)) c.gamma in
      let val2 = add (add proof.eval_b (mul c.beta proof.eval_s2)) c.gamma in
      let val3 = mul (mul c.alpha c.beta) proof.eval_zw in mul (mul val1 val2) val3

  -- The scalar of the generator in `calculate_e`.
  unfoldable pub e_scalar : Proof f → Challenges f → Fr → Fr
  e_scalar proof c r0 =
      add
        (add
          (add
            (add (add (add (neg r0) (mul proof.eval_a c.v1)) (mul proof.eval_b c.v2))
              (mul proof.eval_c c.v3))
            (mul proof.eval_s1 c.v4))
          (mul proof.eval_s2 c.v5))
        (mul proof.eval_zw c.u)

module _ (b : Backend) where
  open b.scalar use {Fr, add, mul, neg}

  unfoldable pub calculate_d : Proof b.scalar → Challenges b.scalar → Fr → Result ZkasperError Bytes
  calculate_d proof c eval_l1 = do
    d ← g1_mul_acc b Vk.qc Vk.qm (mul proof.eval_a proof.eval_b)
    d ← g1_mul_acc b d Vk.ql proof.eval_a
    d ← g1_mul_acc b d Vk.qr proof.eval_b
    d ← g1_mul_acc b d Vk.qo proof.eval_c
    d2 ← g1_mul b proof.z (z_scalar b.scalar proof c eval_l1)
    d3 ← g1_mul b Vk.s3 (s3_scalar b.scalar proof c)
    d4 ← g1_mul_acc b proof.t1 proof.t2 c.xin
    d4 ← g1_mul_acc b d4 proof.t3 (mul c.xin c.xin)
    d4 ← g1_mul b d4 c.zh
    d ← g1_add b d d2
    neg_d3 ← g1_neg b.base d3
    d ← g1_add b d neg_d3
    neg_d4 ← g1_neg b.base d4
    g1_add b d neg_d4

  unfoldable pub calculate_f :
      Proof b.scalar → Challenges b.scalar → Bytes → Result ZkasperError Bytes
  calculate_f proof c d = do
    f ← g1_mul_acc b d proof.a c.v1
    f ← g1_mul_acc b f proof.b c.v2
    f ← g1_mul_acc b f proof.c c.v3
    f ← g1_mul_acc b f Vk.s1 c.v4
    g1_mul_acc b f Vk.s2 c.v5

  unfoldable pub calculate_e : Proof b.scalar → Challenges b.scalar → Fr → Result ZkasperError Bytes
  calculate_e proof c r0 = g1_mul b Vk.g1_gen (e_scalar b.scalar proof c r0)

  -- `Ok(out) if out.last() == Some(&1)`
  abbrev pub pairs_to_one : Option Bytes → Result ZkasperError (Unit {0})
  pairs_to_one none = err failed
  pairs_to_one (some out) = last_is_one (get_last? out)
    where
      last_is_one : Option ℕ → Result ZkasperError (Unit {0})
      last_is_one none = err failed
      last_is_one (some last) = if last == 1 then ok tt else err failed

  unfoldable pub check_pairing :
      Proof b.scalar → Challenges b.scalar → Bytes → Bytes → Result ZkasperError (Unit {0})
  check_pairing proof c f e = do
    opened ← g1_mul b proof.wxiw c.u
    opened ← g1_add b opened proof.wxi
    a1 ← g1_neg b.base opened
    b1 ← g1_mul b proof.wxi c.xi
    w1 ← fr_canonical b.scalar Vk.w1
    w1 ← ok_or failed w1
    shifted ← g1_mul b proof.wxiw (mul (mul c.u c.xi) w1)
    b1 ← g1_add b b1 shifted
    b1 ← g1_add b b1 f
    neg_e ← g1_neg b.base e
    b1 ← g1_add b b1 neg_e
    input ← write 0 64 a1 (zeros 384)
    input ← write 64 192 Vk.x_2 input
    input ← write 192 256 b1 input
    input ← write 256 384 Vk.g2_gen input
    pairs_to_one (b.syscalls.pairing input)

  unfoldable pub verify_with : Bytes → Bytes → Bytes → Bool → Result ZkasperError (Unit {0})
  verify_with proof_bytes program_vk public_values check_membership = do
    proof ← map_err (λ _. failed) (parse b.scalar proof_bytes)
    member ← if check_membership then well_formed b.base proof else ok true
    refuse_if (not member) failed
    pi ← public_input b program_vk public_values
    c ← challenges b proof pi
    eval_l1 ← lagrange_1 b.scalar c
    let pi_xi = neg (mul eval_l1 pi)
    let r0 = eval_r0 b.scalar proof c pi_xi eval_l1
    d ← calculate_d proof c eval_l1
    f ← calculate_f proof c d
    e ← calculate_e proof c r0
    check_pairing proof c f e

  unfoldable pub verify : Bytes → Bytes → Bytes → Result ZkasperError (Unit {0})
  unfolding verify_with
  verify proof_bytes program_vk public_values =
      verify_with proof_bytes program_vk public_values false
