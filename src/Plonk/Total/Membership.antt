-- ===== src/Plonk/Total/Membership.antt =====
-- The membership check at two error types.
use zkasper_solana.Base.{ℕ, zero, suc, ◌+◌, ◌*◌, ◌≡◌, Bool, List, [], ◌∷◌}
use zkasper_solana.Base.Slices.{Bytes}
use zkasper_solana.Base.Agree.{Agree, returned, Agree-bind, Agree-if, Agree-eq-ok, read-Agree}
use zkasper_solana.Base.Result.{ok}
use zkasper_solana.Plonk.Backend.{BaseField, ScalarField}
use zkasper_solana.Plonk.Group.{be_words, be_limbs, fq_canonical}
use zkasper_solana.Plonk.Proof.{Proof, commitments, on_curve, all_on_curve, well_formed}

module _ {E F : Type 0} where
  be_words-Agree :
      (count i : ℕ) (bytes : Bytes)
      → Agree (be_words {E = E} count i bytes) (be_words {E = F} count i bytes)
  unfolding be_words
  be_words-Agree zero i bytes = returned
  be_words-Agree (suc count) i bytes =
      Agree-bind (read-Agree (i * 8) (i * 8 + 8) bytes)
        λ word. Agree-bind (be_words-Agree count (i + 1) bytes) λ rest. returned

  module _ (q : BaseField) where
    fq_canonical-Agree :
        (bytes : Bytes) → Agree (fq_canonical {E = E} q bytes) (fq_canonical {E = F} q bytes)
    unfolding fq_canonical be_limbs
    fq_canonical-Agree bytes =
        Agree-bind (Agree-bind (be_words-Agree 4 0 bytes) λ words. returned) λ limbs. returned

    on_curve-Agree : (point : Bytes) → Agree (on_curve {E = E} q point) (on_curve {E = F} q point)
    unfolding on_curve
    on_curve-Agree point = Agree-bind (read-Agree 0 32 point) λ x_bytes.
        Agree-bind (fq_canonical-Agree x_bytes) λ x.
          Agree-bind (read-Agree 32 64 point)
            λ y_bytes. Agree-bind (fq_canonical-Agree y_bytes) λ y. returned

    all_on_curve-Agree :
        (ps : List Bytes) → Agree (all_on_curve {E = E} q ps) (all_on_curve {E = F} q ps)
    unfolding all_on_curve
    all_on_curve-Agree [] = returned
    all_on_curve-Agree (p ∷ ps) =
        Agree-bind (on_curve-Agree p) λ good. Agree-if good (all_on_curve-Agree ps) returned

    pub well_formed-eq-ok :
        {f : ScalarField} (p : Proof f) {answer : Bool}
        → well_formed {E = E} q p ≡ ok answer
        → well_formed {E = F} q p ≡ ok answer
    unfolding well_formed
    well_formed-eq-ok {f} p e = Agree-eq-ok (all_on_curve-Agree (commitments f p)) e
