-- ===== src/Plonk/Curve.antt =====
-- The curve's equation on the 64 bytes of a point, and the points of a proof.
use zkasper_solana.Base.{
  ℕ, zero, suc, take-take, drop-take, ◌≡◌, refl, sym, ap, ap₂, ◌∙◌, ◌+◌, ◌*◌, ◌-◌, ◌≤◌, leb, true,
  Bool-cases, inl, inr, not, ◌==◌, ==_iff, List, [], ◌∷◌, map, Option, none, some, length, take,
  drop, drop-drop, take-all, All, length-take, length-drop, arith, subst,
}
use zkasper_solana.Base.Slices.{Bytes}
use zkasper_solana.Base.Result.{ok, refuse_if, >>=-eq-ok, ok-injective, refuse_unless-eq-ok}
use zkasper_solana.Base.Memory.{read_in_range, chunks}
use zkasper_solana.Base.Chunks.{AllSized, chunks-AllSized}
use zkasper_solana.Base.Words.{from_be_bytes}
use zkasper_solana.Plonk.Backend.{BaseField, ScalarField}
use zkasper_solana.Plonk.Encoding.{proof_len}
use zkasper_solana.Plonk.Fields.{be_limbs-chunks}
use zkasper_solana.Plonk.Parse.{pieces}
use zkasper_solana.Plonk.Group.{fq_canonical}
use zkasper_solana.Plonk.Proof.{
  Proof, parse, point, evaluation, commitments, on_curve, on_equation, all_on_curve,
}
use mathlib.Core.List.{reverse}

-- The words of eight bytes of 32 as limbs, the lowest first.
abbrev pub limbs_of : Bytes → List ℕ
limbs_of half = reverse (map from_be_bytes (chunks 8 4 half))

module _ (q : BaseField) where
  -- Both halves of the 64 bytes are canonical coordinates, x and y, and y² = x³ + 3.
  pub record OnCurve (bytes : Bytes) : Type 0 where
    pub x : q.Fq
    pub y : q.Fq
    pub x_is : q.from_bigint (limbs_of (take 32 bytes)) ≡ some x
    pub y_is : q.from_bigint (limbs_of (drop 32 bytes)) ≡ some y
    pub equation : q.eq (q.mul y y) (q.add (q.mul (q.mul x x) x) (q.from_int 3)) ≡ true

  fq_canonical-limbs :
      {E : Type 0} (half : Bytes)
      → length half ≡ 32
      → fq_canonical {E = E} q half ≡ ok (q.from_bigint (limbs_of half))
  unfolding fq_canonical
  fq_canonical-limbs {E} half s = rw (be_limbs-chunks {E = E} half s)

  on_curve-equation :
      {E : Type 0} (bytes : Bytes)
      → length bytes ≡ 64
      → on_curve {E = E} q bytes
        ≡ ok (
            on_equation q
              (q.from_bigint (limbs_of (take 32 bytes)))
              (q.from_bigint (limbs_of (drop 32 bytes))))
  unfolding on_curve
  on_curve-equation {E} bytes s = rw (
    read_in_range {E = E} 0 32 bytes (omega arith) (omega (arith, s)),
    fq_canonical-limbs {E = E} (take 32 bytes) (omega (arith, s, length-take 32 bytes)),
    read_in_range {E = E} 32 64 bytes (omega arith) (omega (arith, s)),
    take-all 32 (drop 32 bytes) (omega (arith, s, length-drop 32 bytes)),
    fq_canonical-limbs {E = E} (drop 32 bytes) (omega (arith, s, length-drop 32 bytes)),
  )

  on_equation-OnCurve :
      (bytes : Bytes) (o o' : Option q.Fq)
      → q.from_bigint (limbs_of (take 32 bytes)) ≡ o
      → q.from_bigint (limbs_of (drop 32 bytes)) ≡ o'
      → on_equation q o o' ≡ true
      → OnCurve bytes
  on_equation-OnCurve bytes (some x) (some y) p p' h = record {
    x = x;
    y = y;
    x_is = p;
    y_is = p';
    equation = h;
  }
  on_equation-OnCurve bytes (some x) none p p' h = cc
  on_equation-OnCurve bytes none o' p p' h = cc

  on_curve-OnCurve :
      {E : Type 0} (bytes : Bytes)
      → length bytes ≡ 64
      → on_curve {E = E} q bytes ≡ ok true
      → OnCurve bytes
  on_curve-OnCurve {E} bytes s e =
      on_equation-OnCurve bytes _ _ refl refl
        (ok-injective {E = E} (sym (on_curve-equation {E = E} bytes s) ∙ e))

  OnCurve-on_curve :
      {E : Type 0} (bytes : Bytes)
      → length bytes ≡ 64
      → OnCurve bytes
      → on_curve {E = E} q bytes ≡ ok true
  OnCurve-on_curve {E} bytes s c =
      on_curve-equation {E = E} bytes s ∙ rw (c.x_is, c.y_is, c.equation) refl

  pub all_on_curve-OnCurve :
      {E : Type 0} (points : List Bytes)
      → AllSized 64 points
      → all_on_curve {E = E} q points ≡ ok true
      → All OnCurve points
  unfolding all_on_curve
  all_on_curve-OnCurve [] s e = tt
  all_on_curve-OnCurve {E} (p ∷ ps) s e =
      let (good, here, e1) = >>=-eq-ok (on_curve {E = E} q p) _ e in
      elim (Bool-cases good) [
        | inl yes_good ↦ (
          on_curve-OnCurve {E = E} p s.0 (here ∙ ap ok yes_good),
          all_on_curve-OnCurve {E = E} ps s.1 (rw yes_good at e1),
        )
        | inr bad ↦ cc (rw bad at e1)
      ]

  pub OnCurve-all_on_curve :
      {E : Type 0} (points : List Bytes)
      → AllSized 64 points
      → All OnCurve points
      → all_on_curve {E = E} q points ≡ ok true
  unfolding all_on_curve
  OnCurve-all_on_curve [] s c = refl
  OnCurve-all_on_curve {E} (p ∷ ps) s c =
      rw (OnCurve-on_curve {E = E} p s.0 c.0) (OnCurve-all_on_curve {E = E} ps s.1 c.1)

-- The nine points of the 768 bytes of a proof.
abbrev pub points_of : Bytes → List Bytes
points_of proof = chunks 64 9 (take 576 proof)

chunks-pieces :
    (w count off : ℕ) (xs : Bytes) → chunks w count (drop off xs) ≡ pieces w count off xs
unfolding chunks pieces
chunks-pieces w zero off xs = refl
chunks-pieces w (suc count) off xs =
    ap (λ t. take w (drop off xs) ∷ t)
      (ap (chunks w count) (drop-drop w off xs) ∙ chunks-pieces w count (off + w) xs)

pub points_AllSized : (proof : Bytes) → length proof ≡ 768 → AllSized 64 (points_of proof)
points_AllSized proof s =
    chunks-AllSized 64 9 (take 576 proof) (omega (arith, s, length-take 576 proof))

module _ (f : ScalarField) (raw : Bytes) where
  pub parse-sized : (p : Proof f) → parse f raw ≡ ok p → length raw ≡ 768
  unfolding parse
  parse-sized p e =
      let (u, sized, e0) = >>=-eq-ok (refuse_if (not (length raw == proof_len)) tt) _ e in
      (==_iff (length raw) 768).0 (refuse_unless-eq-ok (length raw == proof_len) tt sized)

  -- The i-th word of 32 bytes and the next, inside the points.
  point_piece :
      (i : ℕ) (p : Bytes)
      → length raw ≡ 768
      → leb (i * 32 + 64) 576 ≡ true
      → point f raw i ≡ ok p
      → p ≡ take 64 (drop (i * 32) (take 576 raw))
  point_piece i p sized inside e =
      let k : i * 32 + 64 ≤ 576 = ground arith in
      let width : i * 32 + 64 - i * 32 ≡ 64 = omega arith in
      ok-injective (
        sym e
        ∙ read_in_range {E = Unit {0}} (i * 32) (i * 32 + 64) raw (omega arith)
            (omega (arith, sized, k)))
      ∙ ap (λ n. take n (drop (i * 32) raw)) width
      ∙ sym (take-take 64 (576 - i * 32) (drop (i * 32) raw) (omega arith))
      ∙ ap (take 64) (sym (drop-take (i * 32) 576 raw))

  cons : {x y : Bytes} {xs ys : List Bytes} → x ≡ y → xs ≡ ys → x ∷ xs ≡ y ∷ ys
  cons p q = ap₂ (λ x xs. x ∷ xs) p q

  pub commitments-points_of : (p : Proof f) → parse f raw ≡ ok p → commitments f p ≡ points_of raw
  unfolding parse commitments pieces
  commitments-points_of p e =
      let s = parse-sized p e in
      let (u, sized, e0) = >>=-eq-ok (refuse_if (not (length raw == proof_len)) tt) _ e in
      let (a, q0, e1) = >>=-eq-ok (point f raw 0) _ e0 in
      let (b, q1, e2) = >>=-eq-ok (point f raw 2) _ e1 in
      let (c, q2, e3) = >>=-eq-ok (point f raw 4) _ e2 in
      let (z, q3, e4) = >>=-eq-ok (point f raw 6) _ e3 in
      let (t1, q4, e5) = >>=-eq-ok (point f raw 8) _ e4 in
      let (t2, q5, e6) = >>=-eq-ok (point f raw 10) _ e5 in
      let (t3, q6, e7) = >>=-eq-ok (point f raw 12) _ e6 in
      let (wxi, q7, e8) = >>=-eq-ok (point f raw 14) _ e7 in
      let (wxiw, q8, e9) = >>=-eq-ok (point f raw 16) _ e8 in
      let (va, q9, e10) = >>=-eq-ok (evaluation f raw 18) _ e9 in
      let (vb, q10, e11) = >>=-eq-ok (evaluation f raw 19) _ e10 in
      let (vc, q11, e12) = >>=-eq-ok (evaluation f raw 20) _ e11 in
      let (vs1, q12, e13) = >>=-eq-ok (evaluation f raw 21) _ e12 in
      let (vs2, q13, e14) = >>=-eq-ok (evaluation f raw 22) _ e13 in
      let (vzw, q14, e15) = >>=-eq-ok (evaluation f raw 23) _ e14 in
      subst (λ r. commitments f r ≡ points_of raw) (ok-injective e15)
        (cons (point_piece 0 a s refl q0) (
            cons (point_piece 2 b s refl q1) (
              cons (point_piece 4 c s refl q2) (
                cons (point_piece 6 z s refl q3) (
                  cons (point_piece 8 t1 s refl q4) (
                    cons (point_piece 10 t2 s refl q5) (
                      cons (point_piece 12 t3 s refl q6) (
                        cons (point_piece 14 wxi s refl q7)
                          (cons (point_piece 16 wxiw s refl q8) refl))))))))
          ∙ sym (chunks-pieces 64 9 0 (take 576 raw)))
