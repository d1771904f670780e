-- ===== src/Plonk/Pairing.antt =====
-- What the code asks of the pairing.
use zkasper_solana.Base.{
  ◌≡◌, refl, sym, ap, ◌∙◌, ◌==◌, ==_iff, Bool-cases, Option-cases, inl, inr, Option, none, some, [],
  ◌++◌, length-append, append_assoc, arith,
}
use zkasper_solana.Base.Slices.{Bytes}
use zkasper_solana.Base.Result.{Result, ok, ◌>>=◌, map_err, map_err-eq-ok}
use zkasper_solana.Base.Gives.{Gives, gives_err, Gives-bind, Gives-known, Gives-ok_or, Gives-eq-ok}
use zkasper_solana.Base.Memory.{write, zeros, length-zeros}
use zkasper_solana.Errors.{ZkasperError}
use zkasper_solana.Plonk.Backend.{Backend}
use zkasper_solana.Plonk.Encoding.{failed}
use zkasper_solana.Plonk.Group.{fr_canonical, g1_mul_acc}
use zkasper_solana.Plonk.Proof.{Proof, parse}
use zkasper_solana.Plonk.Terms.{
  Evaluates, at, ValueOf, write-extends, written-full, g1_add-Evaluates, g1_mul-Evaluates,
  g1_mul_acc-Evaluates, g1_neg-Evaluates,
}
use zkasper_solana.Plonk.Transcript.{Challenges, public_input, challenges}
use zkasper_solana.Plonk.Verify.{
  lagrange_1, eval_r0, z_scalar, s3_scalar, e_scalar, calculate_d, calculate_f, calculate_e,
  check_pairing, pairs_to_one, verify_with, verify,
}
use zkasper_solana.Plonk.Vk
use mathlib.Core.List.{get_last?}
use zkasper_solana.Plonk.Sides.{gates, linearised, batched, evaluated, Asked, Paired}

module _ (b : Backend) where
  open b.scalar use {Fr, mul, neg}

  module _ (proof : Proof b.scalar) (c : Challenges b.scalar) where
    gates-Evaluates :
        {B : Type 0} {Q : B → Type 0} {k : Bytes → Result ZkasperError B}
        → ((x : Bytes) → Evaluates b (gates b proof c) x → Gives Q (k x))
        → Gives Q (do
          d ← g1_mul_acc b Vk.qc Vk.qm (mul proof.eval_a proof.eval_b)
          d ← g1_mul_acc b d Vk.ql proof.eval_a
          d ← g1_mul_acc b d Vk.qr proof.eval_b
          d ← g1_mul_acc b d Vk.qo proof.eval_c
          k d)
    gates-Evaluates next =
        Gives-bind (g1_mul_acc-Evaluates b (mul proof.eval_a proof.eval_b) at at) λ x0 v0.
          Gives-bind (g1_mul_acc-Evaluates b proof.eval_a v0.0 at) λ x1 v1.
            Gives-bind (g1_mul_acc-Evaluates b proof.eval_b v1.0 at) λ x2 v2.
              Gives-bind (g1_mul_acc-Evaluates b proof.eval_c v2.0 at) λ x3 v3. next x3 v3.0

    calculate_d-Evaluates :
        (l1 : Fr) → Gives (ValueOf b (linearised b proof c l1)) (calculate_d b proof c l1)
    unfolding calculate_d z_scalar s3_scalar
    calculate_d-Evaluates l1 = gates-Evaluates λ x3 g.
        Gives-bind (g1_mul-Evaluates b (z_scalar b.scalar proof c l1) at) λ d2 v2.
          Gives-bind (g1_mul-Evaluates b (s3_scalar b.scalar proof c) at) λ d3 v3.
            Gives-bind (g1_mul_acc-Evaluates b c.xin at at) λ t0 w0.
              Gives-bind (g1_mul_acc-Evaluates b (mul c.xin c.xin) w0.0 at) λ t1 w1.
                Gives-bind (g1_mul-Evaluates b c.zh w1.0) λ d4 v4.
                  Gives-bind (g1_add-Evaluates b g v2.0) λ y0 u0.
                    Gives-bind (g1_neg-Evaluates b v3) λ neg_d3 n3.
                      Gives-bind (g1_add-Evaluates b u0.0 n3.0) λ y1 u1.
                        Gives-bind (g1_neg-Evaluates b v4) λ neg_d4 n4. g1_add-Evaluates b u1.0 n4.0

    calculate_f-Evaluates :
        (l1 : Fr) {d : Bytes}
        → Evaluates b (linearised b proof c l1) d
        → Gives (ValueOf b (batched b proof c l1)) (calculate_f b proof c d)
    unfolding calculate_f
    calculate_f-Evaluates l1 is_d = Gives-bind (g1_mul_acc-Evaluates b c.v1 is_d at) λ f0 v0.
        Gives-bind (g1_mul_acc-Evaluates b c.v2 v0.0 at) λ f1 v1.
          Gives-bind (g1_mul_acc-Evaluates b c.v3 v1.0 at) λ f2 v2.
            Gives-bind (g1_mul_acc-Evaluates b c.v4 v2.0 at)
              λ f3 v3. g1_mul_acc-Evaluates b c.v5 v3.0 at

    calculate_e-Evaluates :
        (r0 : Fr) → Gives (ValueOf b (evaluated b proof c r0)) (calculate_e b proof c r0)
    unfolding calculate_e e_scalar
    calculate_e-Evaluates r0 = g1_mul-Evaluates b (e_scalar b.scalar proof c r0) at

    -- The four writes that fill the input of the pairing.
    four_filled :
        (a1 x b1 g i1 i2 i3 i4 : Bytes)
        → write {E = ZkasperError} 0 64 a1 (zeros 384) ≡ ok i1
        → write {E = ZkasperError} 64 192 x i1 ≡ ok i2
        → write {E = ZkasperError} 192 256 b1 i2 ≡ ok i3
        → write {E = ZkasperError} 256 384 g i3 ≡ ok i4
        → i4 ≡ a1 ++ (x ++ (b1 ++ g))
    four_filled a1 x b1 g i1 i2 i3 i4 s1 s2 s3 s4 =
        let zs = zeros 384 in
        let n = length-zeros 384 in
        let (e1, k1) =
          write-extends {E = ZkasperError} [] a1 zs i1 0 64 refl (omega arith) (omega (arith, n))
            s1 in
        let (e2, k2) =
          write-extends {E = ZkasperError} a1 x zs i2 64 192 (omega (arith, k1)) (omega arith)
            (omega (arith, n)) (ap (write {E = ZkasperError} 64 192 x) (sym e1) ∙ s2) in
        let (e3, k3) =
          write-extends {E = ZkasperError} (a1 ++ x) b1 zs i3 192 256
            (omega (arith, k1, k2, length-append a1 x)) (omega arith) (omega (arith, n))
            (ap (write {E = ZkasperError} 192 256 b1) (sym e2) ∙ s3) in
        let (e4, k4) =
          write-extends {E = ZkasperError} ((a1 ++ x) ++ b1) g zs i4 256 384
            (omega (arith, k1, k2, k3, length-append a1 x, length-append (a1 ++ x) b1))
            (omega arith) (omega (arith, n))
            (ap (write {E = ZkasperError} 256 384 g) (sym e3) ∙ s4) in
        e4
        ∙ written-full (((a1 ++ x) ++ b1) ++ g) zs (
            omega (
              arith,
              n,
              k1,
              k2,
              k3,
              k4,
              length-append a1 x,
              length-append (a1 ++ x) b1,
              length-append ((a1 ++ x) ++ b1) g,
            ))
        ∙ append_assoc (a1 ++ x) b1 g
        ∙ append_assoc a1 x (b1 ++ g)

    last_is_one : (out : Bytes) → Gives (λ done. get_last? out ≡ some 1) (pairs_to_one b (some out))
    last_is_one out = Gives-known (pairs_to_one b (some out)) λ done h.
        elim (Option-cases (get_last? out)) [
          | inl nothing ↦ cc (rw nothing at h)
          | inr (byte, is_last) ↦ elim (Bool-cases (byte == 1)) [
            | inl one ↦ is_last ∙ ap some ((==_iff byte 1).0 one)
            | inr other ↦ cc (rw (is_last, other) at h)
          ]
        ]

    paired :
        (answer : Option Bytes)
        → Gives
            (λ done. (out : Bytes) × (answer ≡ some out) × (get_last? out ≡ some 1))
            (pairs_to_one b answer)
    paired none = gives_err
    paired (some out) =
        Gives-known (pairs_to_one b (some out))
          λ done h. (out, refl, Gives-eq-ok (last_is_one out) h)

    -- The input is filled and the pairing asked.
    ask-Gives :
        (a1 b1 : Bytes)
        → Gives
            (λ done.
              (out : Bytes) × (b.syscalls.pairing (a1 ++ (Vk.x_2 ++ (b1 ++ Vk.g2_gen))) ≡ some out)
              × (get_last? out ≡ some 1))
            (do
              input ← write 0 64 a1 (zeros 384)
              input ← write 64 192 Vk.x_2 input
              input ← write 192 256 b1 input
              input ← write 256 384 Vk.g2_gen input
              pairs_to_one b (b.syscalls.pairing input))
    ask-Gives a1 b1 = Gives-bind (Gives-known (write 0 64 a1 (zeros 384)) λ i e. e) λ i1 s1.
        Gives-bind (Gives-known (write 64 192 Vk.x_2 i1) λ i e. e) λ i2 s2.
          Gives-bind (Gives-known (write 192 256 b1 i2) λ i e. e) λ i3 s3.
            Gives-bind (Gives-known (write 256 384 Vk.g2_gen i3) λ i e. e) λ i4 s4.
              Gives-known (pairs_to_one b (b.syscalls.pairing i4)) λ done h.
                let (out, pairs, holds) = Gives-eq-ok (paired (b.syscalls.pairing i4)) h in
                let filled_as = four_filled a1 Vk.x_2 b1 Vk.g2_gen i1 i2 i3 i4 s1 s2 s3 s4 in
                (out, ap b.syscalls.pairing (sym filled_as) ∙ pairs, holds)

    check_pairing-Asked :
        (l1 r0 : Fr) {f e : Bytes}
        → Evaluates b (batched b proof c l1) f
        → ValueOf b (evaluated b proof c r0) e
        → Gives (λ done. Asked b proof c l1 r0) (check_pairing b proof c f e)
    unfolding check_pairing
    check_pairing-Asked l1 r0 is_f is_e = Gives-bind (g1_mul-Evaluates b c.u at) λ o1 u1.
        Gives-bind (g1_add-Evaluates b u1.0 at) λ o2 u2. Gives-bind (g1_neg-Evaluates b u2) λ a1 va.
          Gives-bind (g1_mul-Evaluates b c.xi at) λ x1 v1.
            Gives-bind (Gives-known (fr_canonical b.scalar Vk.w1) λ w e. e) λ w w_is.
              Gives-bind (Gives-ok_or failed w λ w1 e. e) λ w1 w1_is.
                Gives-bind (g1_mul-Evaluates b (mul (mul c.u c.xi) w1) at) λ sh vs.
                  Gives-bind (g1_add-Evaluates b v1.0 vs.0) λ b1 v2.
                    Gives-bind (g1_add-Evaluates b v2.0 is_f) λ b2 v3.
                      Gives-bind (g1_neg-Evaluates b is_e) λ ne vn.
                        Gives-bind (g1_add-Evaluates b v3.0 vn.0) λ b3 v4. Gives-known _ λ done h.
                          let (out, pairs, holds) = Gives-eq-ok (ask-Gives a1 b3) h in
                          record {
                            generator = w1;
                            generator_is = w_is ∙ ap ok w1_is;
                            a1 = a1;
                            b1 = b3;
                            left_is = va.0;
                            right_is = v4.0;
                            out = out;
                            pairs = pairs;
                            holds = holds;
                          }

  -- What an accepted proof has asked of the pairing.
  pub verify-Paired :
      (proof_bytes program_vk window : Bytes)
      → verify b proof_bytes program_vk window ≡ ok tt
      → Paired b proof_bytes program_vk window
  unfolding verify verify_with eval_r0
  verify-Paired proof_bytes program_vk window =
      Gives-eq-ok {P = λ done. Paired b proof_bytes program_vk window} (
        Gives-bind (Gives-known (map_err (λ _. failed) (parse b.scalar proof_bytes)) λ p e. e)
          λ proof s0. Gives-bind (Gives-known (public_input b program_vk window) λ pi e. e) λ pi s1.
            Gives-bind (Gives-known (challenges b proof pi) λ c e. e) λ c s2.
              Gives-bind (Gives-known (lagrange_1 b.scalar c) λ l1 e. e) λ l1 s3.
                Gives-bind (calculate_d-Evaluates proof c l1) λ d vd.
                  Gives-bind (calculate_f-Evaluates proof c l1 vd.0) λ f vf.
                    Gives-bind
                      (calculate_e-Evaluates proof c
                        (eval_r0 b.scalar proof c (neg (mul l1 pi)) l1))
                      λ e ve. Gives-known (check_pairing b proof c f e) λ done h.
                        let asked =
                          Gives-eq-ok
                            (check_pairing-Asked proof c l1
                              (eval_r0 b.scalar proof c (neg (mul l1 pi)) l1) vf.0 ve)
                            h in
                        record {
                          proof = proof;
                          parsed = map_err-eq-ok (λ _. failed) _ s0;
                          pi = pi;
                          hashed = s1;
                          c = c;
                          squeezed = s2;
                          l1 = l1;
                          l1_is = s3;
                          asked = asked;
                        })
