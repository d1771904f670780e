-- ===== src/Plonk/Refusal.antt =====
-- program/src/plonk.rs: the error of a refusal.
use zkasper_solana.Base.{
  ℕ, zero, suc, List, [], ◌∷◌, Option-cases, inl, inr, Option, none, some, Bool, true,
}
use zkasper_solana.Base.Slices.{Bytes}
use zkasper_solana.Base.Only.{Only, only_ok, only_err, only_rules}
use zkasper_solana.Plonk.Backend.{Backend, ScalarField, BaseField, Syscalls}
use zkasper_solana.Plonk.Encoding.{failed, convert_points, decompress_proof}
use zkasper_solana.Plonk.Proof.{Proof, on_curve, all_on_curve, well_formed, commitments}
use zkasper_solana.Plonk.Transcript.{
  Challenges, public_input, public_preimage, put_points, challenges, challenge_beta,
  challenge_alpha, challenge_xi, challenge_v, challenge_u,
}
use zkasper_solana.Plonk.Verify.{
  lagrange_1, calculate_d, calculate_f, calculate_e, pairs_to_one, check_pairing, verify_with,
}
use mathlib.Core.List.{get_last?}
use zkasper_solana.Plonk.Group.{
  be_words, be_limbs, put_words, fr_reduce, fr_canonical, fr_bytes, fq_canonical, g1_neg, g1_mul,
  g1_add, g1_mul_acc,
}

Only-be_words : (count i : ℕ) (bytes : Bytes) → Only failed (be_words count i bytes)
unfolding be_words
Only-be_words zero i bytes = only_ok []
Only-be_words (suc count) i bytes = search (only_rules, Only-be_words count)

Only-be_limbs : (bytes : Bytes) → Only failed (be_limbs bytes)
unfolding be_limbs
Only-be_limbs bytes = search (only_rules, Only-be_words)

Only-put_words : (limbs : List ℕ) (i : ℕ) (out : Bytes) → Only failed (put_words limbs i out)
unfolding put_words
Only-put_words [] i out = only_ok out
Only-put_words (limb ∷ limbs) i out = search (only_rules, Only-put_words limbs)

module _ (f : ScalarField) where
  Only-fr_reduce : (bytes : Bytes) → Only failed (fr_reduce f bytes)
  unfolding fr_reduce
  Only-fr_reduce bytes = search only_rules

  Only-fr_canonical : (bytes : Bytes) → Only failed (fr_canonical f bytes)
  unfolding fr_canonical
  Only-fr_canonical bytes = search (only_rules, Only-be_limbs)

  Only-fr_bytes : (x : f.Fr) → Only failed (fr_bytes f x)
  unfolding fr_bytes
  Only-fr_bytes x = search Only-put_words

module _ (q : BaseField) where
  Only-fq_canonical : (bytes : Bytes) → Only failed (fq_canonical q bytes)
  unfolding fq_canonical
  Only-fq_canonical bytes = search (only_rules, Only-be_limbs)

  Only-g1_neg : (point : Bytes) → Only failed (g1_neg q point)
  unfolding g1_neg
  Only-g1_neg point = search only_rules

  Only-on_curve : (point : Bytes) → Only failed (on_curve q point)
  unfolding on_curve
  Only-on_curve point = search (only_rules, Only-fq_canonical)

  Only-all_on_curve : (points : List Bytes) → Only failed (all_on_curve q points)
  unfolding all_on_curve
  Only-all_on_curve [] = only_ok true
  Only-all_on_curve (p ∷ ps) = search (only_rules, Only-on_curve p, Only-all_on_curve ps)

module _ (b : Backend) where
  Only-pairs_to_one : (o : Option Bytes) → Only failed (pairs_to_one b o)
  Only-pairs_to_one none = only_err
  Only-pairs_to_one (some out) = elim (Option-cases (get_last? out)) [
    | inl nothing ↦ rw nothing only_err
    | inr (last, found) ↦ rw found (search only_rules)
  ]

  Only-g1_mul : (point : Bytes) (scalar : b.scalar.Fr) → Only failed (g1_mul b point scalar)
  unfolding g1_mul
  Only-g1_mul point scalar = search (only_rules, Only-fr_bytes b.scalar)

  Only-g1_add : (p q : Bytes) → Only failed (g1_add b p q)
  unfolding g1_add
  Only-g1_add p q = search only_rules

  Only-g1_mul_acc :
      (acc point : Bytes) (scalar : b.scalar.Fr) → Only failed (g1_mul_acc b acc point scalar)
  unfolding g1_mul_acc
  Only-g1_mul_acc acc point scalar = search (only_rules, Only-g1_mul, Only-g1_add)

ruleset group_rules = (
  only_rules, Only-g1_neg, Only-g1_mul, Only-g1_add, Only-g1_mul_acc, Only-fr_canonical,
  Only-fr_bytes, Only-fr_reduce,
)

module _ (b : Backend) where
  Only-calculate_d :
      (p : Proof b.scalar) (c : Challenges b.scalar) (l : b.scalar.Fr)
      → Only failed (calculate_d b p c l)
  unfolding calculate_d
  Only-calculate_d p c l = search group_rules depth 30

  Only-calculate_f :
      (p : Proof b.scalar) (c : Challenges b.scalar) (d : Bytes) → Only failed (calculate_f b p c d)
  unfolding calculate_f
  Only-calculate_f p c d = search group_rules depth 30

  Only-check_pairing :
      (p : Proof b.scalar) (c : Challenges b.scalar) (f e : Bytes)
      → Only failed (check_pairing b p c f e)
  unfolding check_pairing
  Only-check_pairing p c f e = search (group_rules, Only-pairs_to_one b) depth 30

  Only-put_points : (points : List Bytes) (i : ℕ) (t : Bytes) → Only failed (put_points points i t)
  unfolding put_points
  Only-put_points [] i t = only_ok t
  Only-put_points (p ∷ ps) i t = search (only_rules, Only-put_points ps)

  Only-challenges : (p : Proof b.scalar) (pi : b.scalar.Fr) → Only failed (challenges b p pi)
  unfolding challenges challenge_beta challenge_alpha challenge_xi challenge_v challenge_u
  Only-challenges p pi = search (group_rules, Only-put_points) depth 60

  Only-public_input : (vk window : Bytes) → Only failed (public_input b vk window)
  unfolding public_input public_preimage
  Only-public_input vk window = search group_rules depth 10

  Only-lagrange_1 : (c : Challenges b.scalar) → Only failed (lagrange_1 b.scalar c)
  unfolding lagrange_1
  Only-lagrange_1 c = search only_rules

  Only-calculate_e :
      (p : Proof b.scalar) (c : Challenges b.scalar) (r : b.scalar.Fr)
      → Only failed (calculate_e b p c r)
  unfolding calculate_e
  Only-calculate_e p c r = search group_rules

  Only-well_formed : (p : Proof b.scalar) → Only failed (well_formed b.base p)
  unfolding well_formed
  Only-well_formed p = Only-all_on_curve b.base (commitments b.scalar p)

  ruleset equation_rules = (
    only_rules, Only-public_input, Only-challenges, Only-lagrange_1, Only-calculate_d,
    Only-calculate_f, Only-calculate_e, Only-check_pairing, Only-well_formed,
  )

  pub Only-verify_with :
      (proof vk window : Bytes) (check_membership : Bool)
      → Only failed (verify_with b proof vk window check_membership)
  unfolding verify_with
  Only-verify_with proof vk window check_membership = search equation_rules depth 15

Only-convert_points :
    (convert : Bytes → Option Bytes) (width : ℕ) (pieces : List Bytes) (i : ℕ) (out : Bytes)
    → Only failed (convert_points convert width pieces i out)
unfolding convert_points
Only-convert_points convert width [] i out = only_ok out
Only-convert_points convert width (piece ∷ pieces) i out =
    search (only_rules, Only-convert_points convert width pieces)

pub Only-decompress_proof :
    (calls : Syscalls) (proof : Bytes) → Only failed (decompress_proof calls proof)
unfolding decompress_proof
Only-decompress_proof calls proof = search (only_rules, Only-convert_points) depth 10
