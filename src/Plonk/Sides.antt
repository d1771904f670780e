-- ===== src/Plonk/Sides.antt =====
-- The two sides of the verification equation, as combinations of the proof's and the key's points.
use zkasper_solana.Base.{◌≡◌, some, ◌++◌}
use zkasper_solana.Base.Slices.{Bytes}
use zkasper_solana.Base.Result.{ok}
use zkasper_solana.Errors.{ZkasperError}
use zkasper_solana.Plonk.Backend.{Backend}
use zkasper_solana.Plonk.Group.{fr_canonical}
use zkasper_solana.Plonk.Proof.{Proof, parse}
use zkasper_solana.Plonk.Terms.{Term, point, plus, times, minus, Evaluates}
use zkasper_solana.Plonk.Transcript.{Challenges, public_input, challenges}
use zkasper_solana.Plonk.Verify.{lagrange_1}
use zkasper_solana.Plonk.Vk
use mathlib.Core.List.{get_last?}

module _ (b : Backend) where
  open b.scalar use {Fr, add, sub, mul, neg, from_int}

  module _ (proof : Proof b.scalar) (c : Challenges b.scalar) where
    -- qM ab + qL a + qR b + qO c + qC
    abbrev pub gates : Term b
    gates =
        plus
          (plus
            (plus (plus (point Vk.qc) (times (mul proof.eval_a proof.eval_b) (point Vk.qm)))
              (times proof.eval_a (point Vk.ql)))
            (times proof.eval_b (point Vk.qr)))
          (times proof.eval_c (point Vk.qo))

    -- t1 + xi^n t2 + xi^2n t3
    abbrev pub quotient : Term b
    quotient =
        plus (plus (point proof.t1) (times c.xin (point proof.t2)))
          (times (mul c.xin c.xin) (point proof.t3))

    -- ((a + beta xi + gamma) (b + beta xi k1 + gamma) (c + beta xi k2 + gamma)) alpha + L1 alpha^2 + u
    abbrev pub z_factor : Fr → Fr
    z_factor l1 =
        add
          (add
            (mul
              (mul
                (mul (add (add proof.eval_a c.beta_xi) c.gamma)
                  (add (add proof.eval_b (mul c.beta_xi (from_int Vk.k1))) c.gamma))
                (add (add proof.eval_c (mul c.beta_xi (from_int Vk.k2))) c.gamma))
              c.alpha)
            (mul l1 c.alpha2))
          c.u

    -- (a + beta s1 + gamma) (b + beta s2 + gamma) alpha beta zw
    abbrev pub s3_factor : Fr
    s3_factor =
        mul
          (mul (add (add proof.eval_a (mul c.beta proof.eval_s1)) c.gamma)
            (add (add proof.eval_b (mul c.beta proof.eval_s2)) c.gamma))
          (mul (mul c.alpha c.beta) proof.eval_zw)

    -- PI - L1 alpha^2 - (a + beta s1 + gamma) (b + beta s2 + gamma) (c + gamma) zw alpha
    abbrev pub r0_of : Fr → Fr → Fr
    r0_of l1 pi_xi = sub (sub pi_xi (mul l1 c.alpha2)) (
        mul
          (mul
            (mul
              (mul (add (add proof.eval_a (mul c.beta proof.eval_s1)) c.gamma)
                (add (add proof.eval_b (mul c.beta proof.eval_s2)) c.gamma))
              (add proof.eval_c c.gamma))
            proof.eval_zw)
          c.alpha)

    -- -r0 + v1 a + v2 b + v3 c + v4 s1 + v5 s2 + u zw
    abbrev pub opened : Fr → Fr
    opened r0 =
        add
          (add
            (add
              (add (add (add (neg r0) (mul proof.eval_a c.v1)) (mul proof.eval_b c.v2))
                (mul proof.eval_c c.v3))
              (mul proof.eval_s1 c.v4))
            (mul proof.eval_s2 c.v5))
          (mul proof.eval_zw c.u)

    -- [D]
    abbrev pub linearised : Fr → Term b
    linearised l1 =
        plus
          (plus (plus gates (times (z_factor l1) (point proof.z)))
            (minus (times s3_factor (point Vk.s3))))
          (minus (times c.zh quotient))

    -- [F]
    abbrev pub batched : Fr → Term b
    batched l1 =
        plus
          (plus
            (plus
              (plus (plus (linearised l1) (times c.v1 (point proof.a)))
                (times c.v2 (point proof.b)))
              (times c.v3 (point proof.c)))
            (times c.v4 (point Vk.s1)))
          (times c.v5 (point Vk.s2))

    -- [E]
    abbrev pub evaluated : Fr → Term b
    evaluated r0 = times (opened r0) (point Vk.g1_gen)

    -- -(u [Wxiw] + [Wxi])
    abbrev pub left : Term b
    left = minus (plus (times c.u (point proof.wxiw)) (point proof.wxi))

    -- xi [Wxi] + u xi w [Wxiw] + [F] - [E]
    abbrev pub right : Fr → Fr → Fr → Term b
    right l1 r0 w1 =
        plus
          (plus
            (plus (times c.xi (point proof.wxi)) (times (mul (mul c.u c.xi) w1) (point proof.wxiw)))
            (batched l1))
          (minus (evaluated r0))

    -- The pairing syscall held for the two sides of the equation: it was given the left side, the key's
    -- [x]2, the right side and the generator [1]2, one behind the other, and returned data whose last
    -- byte is one. The sides are what the syscalls make of `left` and `right`.
    pub record Asked (l1 r0 : Fr) : Type 0 where
      pub generator : Fr
      pub generator_is : fr_canonical {E = ZkasperError} b.scalar Vk.w1 ≡ ok (some generator)
      pub a1 : Bytes
      pub b1 : Bytes
      pub left_is : Evaluates b left a1
      pub right_is : Evaluates b (right l1 r0 generator) b1
      pub out : Bytes
      pub pairs : b.syscalls.pairing (a1 ++ (Vk.x_2 ++ (b1 ++ Vk.g2_gen))) ≡ some out
      pub holds : get_last? out ≡ some 1

  -- The equation held for the points and values that the bytes hold, with the challenges for the public
  -- input of the key and the window.
  pub record Paired (proof_bytes program_vk window : Bytes) : Type 0 where
    pub proof : Proof b.scalar
    pub parsed : parse b.scalar proof_bytes ≡ ok proof
    pub pi : Fr
    pub hashed : public_input {E = ZkasperError} b program_vk window ≡ ok pi
    pub c : Challenges b.scalar
    pub squeezed : challenges {E = ZkasperError} b proof pi ≡ ok c
    pub l1 : Fr
    pub l1_is : lagrange_1 b.scalar c ≡ ok l1
    pub asked : Asked proof c l1 (r0_of proof c l1 (neg (mul l1 pi)))
