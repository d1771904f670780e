-- ===== src/Plonk/Total/Hashing.antt =====
-- program/src/plonk.rs, panics: `Proof::parse`, the membership check and the challenges.
use zkasper_solana.Base.{ℕ, refl, ◌+◌, ◌*◌, ◌≤◌, List, [], ◌∷◌, not, length, arith, ◌==◌, All}
use zkasper_solana.Base.Slices.{Bytes}
use zkasper_solana.Base.Memory.{zeros, length-zeros}
use zkasper_solana.Base.Yields.{
  Yields, yields, Returns, Sized, Yields-bind, Yields-if, read_at-Yields, Yields-ok_or,
  refuse_if-Yields, read-Yields, write-Yields,
}
use zkasper_solana.Plonk.Backend.{Backend, ScalarField, BaseField}
use zkasper_solana.Plonk.Encoding.{proof_len}
use zkasper_solana.Plonk.Group.{fr_bytes}
use zkasper_solana.Plonk.Proof.{
  Proof, parse, point, evaluation, commitments, on_curve, all_on_curve, well_formed,
}
use zkasper_solana.Plonk.Total.{
  IsSized, fr_canonical-Returns, fq_canonical-Returns, fr_reduce-Returns, fr_bytes-Yields,
}
use zkasper_solana.Plonk.Transcript.{
  put_points, public_preimage, public_input, squeeze, challenge_beta, challenge_alpha, challenge_xi,
  challenge_v, challenge_u, challenges,
}
use zkasper_solana.Plonk.Vk

-- The sizes of a parsed proof.
pub record ProofSized {f : ScalarField} (p : Proof f) : Type 0 where
  pub a : Sized 64 p.a
  pub b : Sized 64 p.b
  pub c : Sized 64 p.c
  pub z : Sized 64 p.z
  pub t1 : Sized 64 p.t1
  pub t2 : Sized 64 p.t2
  pub t3 : Sized 64 p.t3
  pub wxi : Sized 64 p.wxi
  pub wxiw : Sized 64 p.wxiw
  pub raw : Sized 768 p.raw

module _ (f : ScalarField) (raw : Bytes) (s : Sized 768 raw) where
  point-Yields : (i : ℕ) → i * 32 + 64 ≤ 768 → Yields (Sized 64) (point f raw i)
  point-Yields i h = read_at-Yields 64 (i * 32) raw (omega (arith, s))

  evaluation-Returns : (i : ℕ) → i * 32 + 32 ≤ 768 → Returns (evaluation f raw i)
  evaluation-Returns i h = Yields-bind (read_at-Yields 32 (i * 32) raw (omega (arith, s))) λ word w.
      Yields-bind (fr_canonical-Returns f word w) λ parsed r. Yields-ok_or tt parsed λ x e. tt

pub parse-Yields : (f : ScalarField) (raw : Bytes) → Yields ProofSized (parse f raw)
unfolding parse
parse-Yields f raw = Yields-bind (refuse_if-Yields (not (length raw == proof_len)) tt) λ done long.
    let s : Sized 768 raw = ground (arith, long) in
    Yields-bind (point-Yields f raw s 0 (omega arith)) λ a a_sized.
      Yields-bind (point-Yields f raw s 2 (omega arith)) λ b b_sized.
        Yields-bind (point-Yields f raw s 4 (omega arith)) λ c c_sized.
          Yields-bind (point-Yields f raw s 6 (omega arith)) λ z z_sized.
            Yields-bind (point-Yields f raw s 8 (omega arith)) λ t1 t1_sized.
              Yields-bind (point-Yields f raw s 10 (omega arith)) λ t2 t2_sized.
                Yields-bind (point-Yields f raw s 12 (omega arith)) λ t3 t3_sized.
                  Yields-bind (point-Yields f raw s 14 (omega arith)) λ wxi wxi_sized.
                    Yields-bind (point-Yields f raw s 16 (omega arith)) λ wxiw wxiw_sized.
                      Yields-bind (evaluation-Returns f raw s 18 (omega arith)) λ e0 d0.
                        Yields-bind (evaluation-Returns f raw s 19 (omega arith)) λ e1 d1.
                          Yields-bind (evaluation-Returns f raw s 20 (omega arith)) λ e2 d2.
                            Yields-bind (evaluation-Returns f raw s 21 (omega arith)) λ e3 d3.
                              Yields-bind (evaluation-Returns f raw s 22 (omega arith)) λ e4 d4.
                                Yields-bind (evaluation-Returns f raw s 23 (omega arith)) λ e5 d5.
                                  yields (record {
                                    a = a_sized;
                                    b = b_sized;
                                    c = c_sized;
                                    z = z_sized;
                                    t1 = t1_sized;
                                    t2 = t2_sized;
                                    t3 = t3_sized;
                                    wxi = wxi_sized;
                                    wxiw = wxiw_sized;
                                    raw = s;
                                  })

module _ {E : Type 0} (q : BaseField) where
  on_curve-Returns : (point : Bytes) → Sized 64 point → Returns {E = E} (on_curve q point)
  unfolding on_curve
  on_curve-Returns point s =
      Yields-bind (read-Yields 0 32 point (omega arith) (omega (arith, s))) λ x_bytes xs.
        Yields-bind (fq_canonical-Returns q x_bytes xs) λ x d.
          Yields-bind (read-Yields 32 64 point (omega arith) (omega (arith, s)))
            λ y_bytes ys. Yields-bind (fq_canonical-Returns q y_bytes ys) λ y d. yields tt

  all_on_curve-Returns : (ps : List Bytes) → All (Sized 64) ps → Returns {E = E} (all_on_curve q ps)
  unfolding all_on_curve
  all_on_curve-Returns [] s = yields tt
  all_on_curve-Returns (p ∷ ps) s =
      Yields-bind (on_curve-Returns p s.0)
        λ good d. Yields-if good (all_on_curve-Returns ps s.1) (yields tt)

  pub well_formed-Returns :
      {f : ScalarField} (p : Proof f) → ProofSized p → Returns {E = E} (well_formed q p)
  unfolding well_formed commitments
  well_formed-Returns p s =
      all_on_curve-Returns (commitments _ p)
        (s.a, (s.b, (s.c, (s.z, (s.t1, (s.t2, (s.t3, (s.wxi, (s.wxiw, tt)))))))))

module _ {E : Type 0} where
  put_points-Yields :
      (ps : List Bytes) (i n : ℕ) (t : Bytes)
      → All (Sized 64) ps
      → Sized n t
      → (i + length ps) * 64 ≤ n
      → Yields {E = E} (Sized n) (put_points ps i t)
  unfolding put_points
  put_points-Yields [] i n t s h k = yields h
  put_points-Yields (p ∷ ps) i n t s h k =
      Yields-bind
        (write-Yields n (i * 64) (i * 64 + 64) p t h (omega arith) (omega arith)
          (omega (arith, s.0)))
        λ t h. put_points-Yields ps (i + 1) n t s.1 h (omega arith)

module _ {E : Type 0} (b : Backend) (sized : IsSized b) where
  squeeze-Returns : (t : Bytes) → Returns {E = E} (squeeze b t)
  squeeze-Returns t = fr_reduce-Returns b.scalar (b.syscalls.keccak t) (sized.keccak t)

  word : (x : b.scalar.Fr) → Yields {E = E} (Sized 32) (fr_bytes b.scalar x)
  word x = fr_bytes-Yields b.scalar x (sized.into_bigint x)

  pub public_input-Returns :
      (vk window : Bytes)
      → Sized 32 vk
      → Sized 512 window
      → Returns {E = E} (public_input b vk window)
  unfolding public_input public_preimage
  public_input-Returns vk window k w =
      Yields-bind
        (Yields-bind
          (write-Yields 576 0 32 vk (zeros 576) (length-zeros 576) (omega arith) (omega arith) k)
          λ t h.
            Yields-bind (write-Yields 576 32 544 window t h (omega arith) (omega arith) w) λ t h.
              write-Yields 576 544 576 Vk.root_c_vadcop_final t h (omega arith) (omega arith) refl)
        λ preimage d.
          fr_reduce-Returns b.scalar (b.syscalls.sha256 preimage) (sized.sha256 preimage)

  module _ (proof : Proof b.scalar) (s : ProofSized proof) where
    challenge_beta-Returns : (pi : b.scalar.Fr) → Returns {E = E} (challenge_beta b proof pi)
    unfolding challenge_beta
    challenge_beta-Returns pi =
        Yields-bind
          (put_points-Yields _ 0 736 (zeros 736)
            (refl, (refl, (refl, (refl, (refl, (refl, (refl, (refl, tt)))))))) (length-zeros 736)
            (omega arith))
          λ t h. Yields-bind (word pi) λ pi_bytes w.
            Yields-bind (write-Yields 736 512 544 pi_bytes t h (omega arith) (omega arith) w) λ t h.
              Yields-bind (write-Yields 736 544 608 proof.a t h (omega arith) (omega arith) s.a)
                λ t h.
                  Yields-bind (write-Yields 736 608 672 proof.b t h (omega arith) (omega arith) s.b)
                    λ t h.
                      Yields-bind
                        (write-Yields 736 672 736 proof.c t h (omega arith) (omega arith) s.c)
                        λ t h. squeeze-Returns t

    challenge_alpha-Returns :
        (beta gamma : b.scalar.Fr) → Returns {E = E} (challenge_alpha b proof beta gamma)
    unfolding challenge_alpha
    challenge_alpha-Returns beta gamma = Yields-bind (word beta) λ beta_bytes w.
        Yields-bind
          (write-Yields 128 0 32 beta_bytes (zeros 128) (length-zeros 128) (omega arith)
            (omega arith) w)
          λ t h. Yields-bind (word gamma) λ gamma_bytes w.
            Yields-bind (write-Yields 128 32 64 gamma_bytes t h (omega arith) (omega arith) w)
              λ t h.
                Yields-bind (write-Yields 128 64 128 proof.z t h (omega arith) (omega arith) s.z)
                  λ t h. squeeze-Returns t

    challenge_xi-Returns : (alpha : b.scalar.Fr) → Returns {E = E} (challenge_xi b proof alpha)
    unfolding challenge_xi
    challenge_xi-Returns alpha = Yields-bind (word alpha) λ alpha_bytes w.
        Yields-bind
          (write-Yields 224 0 32 alpha_bytes (zeros 224) (length-zeros 224) (omega arith)
            (omega arith) w)
          λ t h.
            Yields-bind (write-Yields 224 32 96 proof.t1 t h (omega arith) (omega arith) s.t1)
              λ t h.
                Yields-bind (write-Yields 224 96 160 proof.t2 t h (omega arith) (omega arith) s.t2)
                  λ t h.
                    Yields-bind
                      (write-Yields 224 160 224 proof.t3 t h (omega arith) (omega arith) s.t3)
                      λ t h. squeeze-Returns t

    challenge_v-Returns : (xi : b.scalar.Fr) → Returns {E = E} (challenge_v b proof xi)
    unfolding challenge_v
    challenge_v-Returns xi = Yields-bind (word xi) λ xi_bytes w.
        Yields-bind
          (write-Yields 224 0 32 xi_bytes (zeros 224) (length-zeros 224) (omega arith) (omega arith)
            w)
          λ t h.
            Yields-bind (read-Yields 576 768 proof.raw (omega arith) (omega (arith, s.raw)))
              λ evaluations v.
                Yields-bind (write-Yields 224 32 224 evaluations t h (omega arith) (omega arith) v)
                  λ t h. squeeze-Returns t

    challenge_u-Returns : Returns {E = E} (challenge_u b proof)
    unfolding challenge_u
    challenge_u-Returns =
        Yields-bind
          (write-Yields 128 0 64 proof.wxi (zeros 128) (length-zeros 128) (omega arith)
            (omega arith) s.wxi)
          λ t h.
            Yields-bind (write-Yields 128 64 128 proof.wxiw t h (omega arith) (omega arith) s.wxiw)
              λ t h. squeeze-Returns t

    pub challenges-Returns : (pi : b.scalar.Fr) → Returns {E = E} (challenges b proof pi)
    unfolding challenges
    challenges-Returns pi = Yields-bind (challenge_beta-Returns pi) λ beta d.
        Yields-bind (word beta) λ beta_bytes w. Yields-bind (squeeze-Returns beta_bytes) λ gamma d.
          Yields-bind (challenge_alpha-Returns beta gamma) λ alpha d.
            Yields-bind (challenge_xi-Returns alpha) λ xi d.
              Yields-bind (challenge_v-Returns xi)
                λ v1 d. Yields-bind challenge_u-Returns λ u d. yields tt
