-- ===== src/Plonk/Total/Equation.antt =====
-- program/src/plonk.rs, panics: the group equation, and the whole verifier.
use zkasper_solana.Base.{
  ◌≡◌, ◌≢◌, refl, length, not, arith, Bool, ◌==◌, Option, none, some, Option-cases, inl, inr,
}
use zkasper_solana.Base.Slices.{Bytes}
use zkasper_solana.Base.Result.{panic}
use zkasper_solana.Base.Memory.{zeros, length-zeros}
use zkasper_solana.Base.Yields.{
  Yields, yields, refuses, Returns, Sized, Yields-bind, Yields-if, Yields-map_err, Yields-ok_or,
  Yields-ne-panic, refuse_if-Yields, write-Yields,
}
use zkasper_solana.Plonk.Backend.{Backend, ScalarField}
use zkasper_solana.Plonk.Encoding.{failed}
use zkasper_solana.Plonk.Proof.{Proof}
use zkasper_solana.Plonk.Total.{
  IsSized, g1_neg-Yields, g1_mul-Yields, g1_add-Yields, g1_mul_acc-Yields, fr_canonical-Returns,
}
use zkasper_solana.Plonk.Total.Hashing.{
  ProofSized, parse-Yields, well_formed-Returns, public_input-Returns, challenges-Returns,
}
use zkasper_solana.Plonk.Transcript.{Challenges}
use zkasper_solana.Plonk.Verify.{
  lagrange_1, calculate_d, calculate_f, calculate_e, check_pairing, pairs_to_one, verify_with,
}
use zkasper_solana.Plonk.Vk
use mathlib.Core.List.{get_last?}

lagrange_1-Returns : (f : ScalarField) (c : Challenges f) → Returns (lagrange_1 f c)
unfolding lagrange_1
lagrange_1-Returns f c =
    Yields-bind
      (Yields-ok_or failed
        (f.inverse (f.mul c.zh (f.mul (f.from_int Vk.n) (f.sub c.xi (f.from_int 1))))) λ acc e. tt)
      λ acc d. yields tt

module _ (b : Backend) where
  pairs_to_one-Returns : (answer : Option Bytes) → Returns (pairs_to_one b answer)
  pairs_to_one-Returns none = refuses
  pairs_to_one-Returns (some out) = elim (Option-cases (get_last? out)) [
    | inl nothing ↦ rw nothing refuses
    | inr (last, found) ↦ rw found (Yields-if (last == 1) (yields tt) refuses)
  ]

module _ (b : Backend) (sized : IsSized b) (p : Proof b.scalar) (s : ProofSized p)
    (c : Challenges b.scalar) where
  calculate_d-Yields : (l : b.scalar.Fr) → Yields (Sized 64) (calculate_d b p c l)
  unfolding calculate_d
  calculate_d-Yields l = Yields-bind (g1_mul_acc-Yields b sized Vk.qc Vk.qm _ refl refl) λ d h.
      Yields-bind (g1_mul_acc-Yields b sized d Vk.ql _ h refl) λ d h.
        Yields-bind (g1_mul_acc-Yields b sized d Vk.qr _ h refl) λ d h.
          Yields-bind (g1_mul_acc-Yields b sized d Vk.qo _ h refl) λ d h.
            Yields-bind (g1_mul-Yields b sized p.z _ s.z) λ d2 h2.
              Yields-bind (g1_mul-Yields b sized Vk.s3 _ refl) λ d3 h3.
                Yields-bind (g1_mul_acc-Yields b sized p.t1 p.t2 _ s.t1 s.t2) λ d4 h4.
                  Yields-bind (g1_mul_acc-Yields b sized d4 p.t3 _ h4 s.t3) λ d4 h4.
                    Yields-bind (g1_mul-Yields b sized d4 _ h4) λ d4 h4.
                      Yields-bind (g1_add-Yields b sized d d2 h h2) λ d h.
                        Yields-bind (g1_neg-Yields b sized d3 h3) λ n3 k3.
                          Yields-bind (g1_add-Yields b sized d n3 h k3) λ d h.
                            Yields-bind (g1_neg-Yields b sized d4 h4)
                              λ n4 k4. g1_add-Yields b sized d n4 h k4

  calculate_f-Yields : (d : Bytes) → Sized 64 d → Yields (Sized 64) (calculate_f b p c d)
  unfolding calculate_f
  calculate_f-Yields d h = Yields-bind (g1_mul_acc-Yields b sized d p.a _ h s.a) λ f h.
      Yields-bind (g1_mul_acc-Yields b sized f p.b _ h s.b) λ f h.
        Yields-bind (g1_mul_acc-Yields b sized f p.c _ h s.c) λ f h.
          Yields-bind (g1_mul_acc-Yields b sized f Vk.s1 _ h refl)
            λ f h. g1_mul_acc-Yields b sized f Vk.s2 _ h refl

  calculate_e-Yields : (r0 : b.scalar.Fr) → Yields (Sized 64) (calculate_e b p c r0)
  unfolding calculate_e
  calculate_e-Yields r0 = g1_mul-Yields b sized Vk.g1_gen _ refl

  check_pairing-Returns :
      (f e : Bytes) → Sized 64 f → Sized 64 e → Returns (check_pairing b p c f e)
  unfolding check_pairing
  check_pairing-Returns f e hf he = Yields-bind (g1_mul-Yields b sized p.wxiw _ s.wxiw) λ o h.
      Yields-bind (g1_add-Yields b sized o p.wxi h s.wxi) λ o h.
        Yields-bind (g1_neg-Yields b sized o h) λ a1 ha.
          Yields-bind (g1_mul-Yields b sized p.wxi _ s.wxi) λ b1 h1.
            Yields-bind (fr_canonical-Returns b.scalar Vk.w1 refl) λ w d.
              Yields-bind (Yields-ok_or failed w λ w1 e. tt) λ w1 d.
                Yields-bind (g1_mul-Yields b sized p.wxiw _ s.wxiw) λ shifted h2.
                  Yields-bind (g1_add-Yields b sized b1 shifted h1 h2) λ b1 h1.
                    Yields-bind (g1_add-Yields b sized b1 f h1 hf) λ b1 h1.
                      Yields-bind (g1_neg-Yields b sized e he) λ n hn.
                        Yields-bind (g1_add-Yields b sized b1 n h1 hn) λ b1 h1.
                          Yields-bind
                            (write-Yields 384 0 64 a1 (zeros 384) (length-zeros 384) (omega arith)
                              (omega arith) ha)
                            λ t h.
                              Yields-bind
                                (write-Yields 384 64 192 Vk.x_2 t h (omega arith) (omega arith)
                                  refl)
                                λ t h.
                                  Yields-bind
                                    (write-Yields 384 192 256 b1 t h (omega arith) (omega arith) h1)
                                    λ t h.
                                      Yields-bind
                                        (write-Yields 384 256 384 Vk.g2_gen t h (omega arith)
                                          (omega arith) refl)
                                        λ t h. pairs_to_one-Returns b (b.syscalls.pairing t)

module _ (b : Backend) (sized : IsSized b) where
  pub verify_with-Returns :
      (proof vk window : Bytes) (check_membership : Bool)
      → Sized 32 vk
      → Sized 512 window
      → Returns (verify_with b proof vk window check_membership)
  unfolding verify_with
  verify_with-Returns proof vk window check_membership k w =
      Yields-bind (Yields-map_err (λ _. failed) (parse-Yields b.scalar proof)) λ p s.
        Yields-bind (Yields-if check_membership (well_formed-Returns b.base p s) (yields tt))
          λ member d. Yields-bind (refuse_if-Yields (not member) failed) λ done d.
            Yields-bind (public_input-Returns b sized vk window k w) λ pi d.
              Yields-bind (challenges-Returns b sized p s pi) λ c d.
                Yields-bind (lagrange_1-Returns b.scalar c) λ l d.
                  Yields-bind (calculate_d-Yields b sized p s c l) λ d hd.
                    Yields-bind (calculate_f-Yields b sized p s c d hd) λ f hf.
                      Yields-bind (calculate_e-Yields b sized p s c _)
                        λ e he. check_pairing-Returns b sized p s c f e hf he

  -- The verifier returns a verdict, with the membership check and without, on whatever bytes it gets
  -- for a proof: it does not panic for a key of 32 bytes and a window of 512, when the fields and the
  -- syscalls return values of their sizes.
  pub verify_with-ne-panic :
      (proof vk window : Bytes) (check_membership : Bool)
      → length vk ≡ 32
      → length window ≡ 512
      → verify_with b proof vk window check_membership ≢ panic
  verify_with-ne-panic proof vk window check_membership k w =
      Yields-ne-panic (verify_with-Returns proof vk window check_membership k w)
