-- ===== src/Plonk/Proof.antt =====
-- program/src/plonk.rs, `Proof`: the 24 words of a proof, and the membership check.
use zkasper_solana.Base.{
  ℕ, ◌+◌, ◌*◌, Bool, true, false, not, ◌==◌, length, List, [], ◌∷◌, Option, none, some,
  if◌then◌else◌,
}
use zkasper_solana.Base.Slices.{Bytes}
use zkasper_solana.Base.Result.{Result, ok, ◌>>=◌, ◌>>◌, refuse_if, ok_or}
use zkasper_solana.Base.Memory.{read}
use zkasper_solana.Plonk.Backend.{ScalarField, BaseField}
use zkasper_solana.Plonk.Encoding.{proof_len}
use zkasper_solana.Plonk.Group.{fr_canonical, fq_canonical}

pub record Proof (f : ScalarField) : Type 0 where
  pub a : Bytes
  pub b : Bytes
  pub c : Bytes
  pub z : Bytes
  pub t1 : Bytes
  pub t2 : Bytes
  pub t3 : Bytes
  pub wxi : Bytes
  pub wxiw : Bytes
  pub eval_a : f.Fr
  pub eval_b : f.Fr
  pub eval_c : f.Fr
  pub eval_s1 : f.Fr
  pub eval_s2 : f.Fr
  pub eval_zw : f.Fr
  pub raw : Bytes

module _ (f : ScalarField) where
  -- The closures of `parse`; an error, `err tt`, is its `None`.
  abbrev pub point : Bytes → ℕ → Result (Unit {0}) Bytes
  point raw i = read (i * 32) (i * 32 + 64) raw

  abbrev pub evaluation : Bytes → ℕ → Result (Unit {0}) f.Fr
  evaluation raw i = do
    word ← read (i * 32) (i * 32 + 32) raw
    parsed ← fr_canonical f word
    ok_or tt parsed

  unfoldable pub parse : Bytes → Result (Unit {0}) (Proof f)
  parse raw = do
    refuse_if (not (length raw == proof_len)) tt
    a ← point raw 0
    b ← point raw 2
    c ← point raw 4
    z ← point raw 6
    t1 ← point raw 8
    t2 ← point raw 10
    t3 ← point raw 12
    wxi ← point raw 14
    wxiw ← point raw 16
    eval_a ← evaluation raw 18
    eval_b ← evaluation raw 19
    eval_c ← evaluation raw 20
    eval_s1 ← evaluation raw 21
    eval_s2 ← evaluation raw 22
    eval_zw ← evaluation raw 23
    ok (record {
      a = a;
      b = b;
      c = c;
      z = z;
      t1 = t1;
      t2 = t2;
      t3 = t3;
      wxi = wxi;
      wxiw = wxiw;
      eval_a = eval_a;
      eval_b = eval_b;
      eval_c = eval_c;
      eval_s1 = eval_s1;
      eval_s2 = eval_s2;
      eval_zw = eval_zw;
      raw = raw;
    })

  unfoldable pub commitments : Proof f → List Bytes
  commitments p = p.a ∷ p.b ∷ p.c ∷ p.z ∷ p.t1 ∷ p.t2 ∷ p.t3 ∷ p.wxi ∷ p.wxiw ∷ []

module _ (q : BaseField) where
  open q use {Fq, add, mul, from_int, eq}

  -- `y * y == x * x * x + 3`, once both coordinates are there.
  abbrev pub on_equation : Option Fq → Option Fq → Bool
  on_equation (some x) (some y) = eq (mul y y) (add (mul (mul x x) x) (from_int 3))
  on_equation none y = false
  on_equation (some x) none = false

module _ {E : Type 0} (q : BaseField) where
  unfoldable pub on_curve : Bytes → Result E Bool
  on_curve point = do
    x_bytes ← read 0 32 point
    x ← fq_canonical q x_bytes
    y_bytes ← read 32 64 point
    y ← fq_canonical q y_bytes
    ok (on_equation q x y)

  -- `.iter().all(…)`
  unfoldable pub all_on_curve : List Bytes → Result E Bool
  all_on_curve [] = ok true
  all_on_curve (p ∷ ps) = do
    let rest = all_on_curve ps
    good ← on_curve p
    if good then rest else ok false

  unfoldable pub well_formed : {f : ScalarField} → Proof f → Result E Bool
  well_formed {f} p = all_on_curve (commitments f p)
