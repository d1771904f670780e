-- ===== src/Plonk/Accept.antt =====
-- The membership check and the verdict.
use zkasper_solana.Base.{◌≡◌, not, true, sym, ap, ◌∙◌, ◌↔◌, All}
use zkasper_solana.Base.Slices.{Bytes}
use zkasper_solana.Base.Result.{
  ok, refuse_if, map_err, >>=-eq-ok, map_err-eq-ok, refuse_unless-eq-ok,
}
use zkasper_solana.Errors.{ZkasperError}
use zkasper_solana.Plonk.Backend.{Backend}
use zkasper_solana.Plonk.Encoding.{failed}
use zkasper_solana.Plonk.Proof.{Proof, parse, well_formed, all_on_curve}
use zkasper_solana.Plonk.Verify.{verify_with, verify}
use zkasper_solana.Plonk.Curve.{
  OnCurve, points_of, points_AllSized, parse-sized, commitments-points_of, all_on_curve-OnCurve,
  OnCurve-all_on_curve,
}

module _ (b : Backend) where
  -- The membership check only ever refuses: a proof that is accepted with it is a parsed proof whose
  -- nine points are on the curve, and it is accepted without it too.
  pub verify_with-verify :
      (proof program_vk public_values : Bytes)
      → verify_with b proof program_vk public_values true ≡ ok tt
      → (verify b proof program_vk public_values ≡ ok tt)
        × ((parsed : Proof b.scalar) × (parse b.scalar proof ≡ ok parsed)
            × (well_formed {E = ZkasperError} b.base parsed ≡ ok true))
  unfolding verify verify_with
  verify_with-verify proof program_vk public_values e =
      let (parsed, parsed_ok, e1) = >>=-eq-ok (map_err (λ _. failed) (parse b.scalar proof)) _ e in
      let (member, member_ok, e2) = >>=-eq-ok (well_formed b.base parsed) _ e1 in
      let (u, holds, e3) = >>=-eq-ok (refuse_if (not member) failed) _ e2 in
      let good = refuse_unless-eq-ok member failed holds in
      (rw parsed_ok e3, (parsed, map_err-eq-ok (λ _. failed) _ parsed_ok, rw good at member_ok))

module _ (b : Backend) (proof program_vk public_values : Bytes) where
  well_formed-OnCurve :
      (p : Proof b.scalar)
      → parse b.scalar proof ≡ ok p
      → well_formed {E = ZkasperError} b.base p ≡ ok true
      → All (OnCurve b.base) (points_of proof)
  unfolding well_formed
  well_formed-OnCurve p e good =
      all_on_curve-OnCurve b.base {E = ZkasperError} (points_of proof)
        (points_AllSized proof (parse-sized b.scalar proof p e))
        (ap (all_on_curve b.base) (sym (commitments-points_of b.scalar proof p e)) ∙ good)

  OnCurve-well_formed :
      (p : Proof b.scalar)
      → parse b.scalar proof ≡ ok p
      → All (OnCurve b.base) (points_of proof)
      → well_formed {E = ZkasperError} b.base p ≡ ok true
  unfolding well_formed
  OnCurve-well_formed p e c =
      ap (all_on_curve b.base) (commitments-points_of b.scalar proof p e)
      ∙ OnCurve-all_on_curve b.base {E = ZkasperError} (points_of proof)
          (points_AllSized proof (parse-sized b.scalar proof p e)) c

  restricted :
      (verify b proof program_vk public_values ≡ ok tt) × All (OnCurve b.base) (points_of proof)
      → verify_with b proof program_vk public_values true ≡ ok tt
  unfolding verify verify_with
  restricted (accepted, c) =
      let (p, parsed, e1) = >>=-eq-ok (map_err (λ _. failed) (parse b.scalar proof)) _ accepted in
      let parsed_ok = map_err-eq-ok (λ _. failed) _ parsed in
      rw (parsed_ok, OnCurve-well_formed p parsed_ok c) (rw parsed_ok at accepted)

  -- The verifier accepts with the membership check if and only if it accepts without it and each of
  -- the nine points in the proof's first 576 bytes has canonical coordinates that satisfy y² = x³ + 3.
  pub membership_iff :
      (verify_with b proof program_vk public_values true ≡ ok tt)
      ↔ ((verify b proof program_vk public_values ≡ ok tt) × All (OnCurve b.base) (points_of proof))
  membership_iff = (
    λ e.
        let (accepted, (p, parsed, good)) = verify_with-verify b proof program_vk public_values e in
        (accepted, well_formed-OnCurve p parsed good),
    restricted,
  )
