-- ===== src/Plonk/Parse.antt =====
-- `Proof::parse` and the encodings of a proof.
use zkasper_solana.Base.{
  ℕ, zero, suc, ◌≡◌, refl, sym, ap, ap₂, ◌∙◌, ◌+◌, ◌*◌, ◌-◌, ◌≤◌, leb, true, not, ◌==◌, List, [],
  ◌∷◌, ◌++◌, some, map, length, take, drop, drop-drop, take-split, take-all, All-take, All-drop,
  arith, length-take, length-drop, subst,
}
use zkasper_solana.Base.Slices.{Bytes}
use zkasper_solana.Base.Result.{ok, >>=-eq-ok, ok-injective, refuse_if, ok_or-eq-ok}
use zkasper_solana.Base.Memory.{read, read_in_range}
use zkasper_solana.Base.Layout.{concat, concat-append}
use zkasper_solana.Base.Words.{IsByte, IsArray}
use zkasper_solana.Plonk.Backend.{ScalarField}
use zkasper_solana.Plonk.Encoding.{proof_len}
use zkasper_solana.Plonk.Fields.{IsCanonical, word_of, fr_bytes-word_of, fr_bytes-fr_canonical}
use zkasper_solana.Plonk.Group.{fr_canonical}
use zkasper_solana.Plonk.Proof.{Proof, parse, point, evaluation, commitments}

-- `count` pieces of `w` bytes from the offset `off` on.
unfoldable pub pieces : ℕ → ℕ → ℕ → Bytes → List Bytes
pieces w zero off xs = []
pieces w (suc count) off xs = take w (drop off xs) ∷ pieces w count (off + w) xs

concat-pieces_at :
    (w count off : ℕ) (xs : Bytes)
    → concat (pieces w count off xs) [] ≡ take (count * w) (drop off xs)
unfolding pieces
concat-pieces_at w zero off xs =
    let e : zero ≡ zero * w = omega arith in ap (λ n. take n (drop off xs)) e
concat-pieces_at w (suc count) off xs =
    let e : w + count * w ≡ suc count * w = omega arith in
    ap (λ t. take w (drop off xs) ++ t)
      (concat-pieces_at w count (off + w) xs ∙ ap (take (count * w)) (sym (drop-drop w off xs)))
    ∙ take-split w (count * w) (drop off xs)
    ∙ ap (λ n. take n (drop off xs)) e

module _ (f : ScalarField) where
  abbrev pub evaluations : Proof f → List f.Fr
  evaluations p = p.eval_a ∷ p.eval_b ∷ p.eval_c ∷ p.eval_s1 ∷ p.eval_s2 ∷ p.eval_zw ∷ []

module _ (f : ScalarField) (canonical : IsCanonical f) (raw : Bytes) (h : IsArray 768 raw) where
  point_piece :
      (i : ℕ) (p : Bytes)
      → leb (i * 32 + 64) 768 ≡ true
      → point f raw i ≡ ok p
      → p ≡ take 64 (drop (i * 32) raw)
  point_piece i p inside e =
      let k : i * 32 + 64 ≤ 768 = ground arith in
      let width : i * 32 + 64 - i * 32 ≡ 64 = omega arith in
      let there =
        read_in_range {E = Unit {0}} (i * 32) (i * 32 + 64) raw (omega arith)
          (omega (arith, h.sized, k)) in
      ok-injective (sym e ∙ there) ∙ ap (λ n. take n (drop (i * 32) raw)) width

  evaluation_piece :
      (i : ℕ) (x : f.Fr)
      → leb (i * 32 + 32) 768 ≡ true
      → evaluation f raw i ≡ ok x
      → word_of f canonical x ≡ take 32 (drop (i * 32) raw)
  evaluation_piece i x inside e =
      let k : i * 32 + 32 ≤ 768 = ground arith in
      let piece = take 32 (drop (i * 32) raw) in
      let width : i * 32 + 32 - i * 32 ≡ 32 = omega arith in
      let (word, word_read, e1) = >>=-eq-ok (read (i * 32) (i * 32 + 32) raw) _ e in
      let (parsed, parsed_word, e2) = >>=-eq-ok (fr_canonical f word) _ e1 in
      let there =
        read_in_range {E = Unit {0}} (i * 32) (i * 32 + 32) raw (omega arith)
          (omega (arith, h.sized, k)) in
      let word_is : word ≡ piece =
        ok-injective (sym word_read ∙ there) ∙ ap (λ n. take n (drop (i * 32) raw)) width in
      let array : IsArray 32 piece = record {
        sized =
            omega (arith, h.sized, k, length-take 32 (drop (i * 32) raw), length-drop (i * 32) raw);
        bytes = All-take IsByte 32 (drop (i * 32) raw) (All-drop IsByte (i * 32) raw h.bytes);
      } in
      let found : fr_canonical {E = Unit {0}} f piece ≡ ok (some x) =
        ap (fr_canonical f) (sym word_is) ∙ parsed_word ∙ ap ok (ok_or-eq-ok tt parsed e2) in
      ok-injective {E = Unit {0}} (
        sym (fr_bytes-word_of f canonical x)
        ∙ fr_bytes-fr_canonical f canonical piece x array found)

  -- Nine points and six words that are the pieces of `raw` are all of it.
  assembled :
      (points words : List Bytes)
      → points ≡ pieces 64 9 0 raw
      → words ≡ pieces 32 6 576 raw
      → concat points (concat words []) ≡ raw
  assembled points words p w =
      let front : concat points [] ≡ take 576 raw =
        ap (λ l. concat l []) p ∙ concat-pieces_at 64 9 0 raw in
      let back : concat words [] ≡ take 192 (drop 576 raw) =
        ap (λ l. concat l []) w ∙ concat-pieces_at 32 6 576 raw in
      sym (concat-append points (concat words []))
      ∙ ap₂ (λ x y. x ++ y) front back
      ∙ take-split 576 192 raw
      ∙ take-all 768 raw (omega (arith, h.sized))

  cons : {x y : Bytes} {xs ys : List Bytes} → x ≡ y → xs ≡ ys → x ∷ xs ≡ y ∷ ys
  cons p q = ap₂ (λ x xs. x ∷ xs) p q

  -- The bytes of a proof that parses are its nine points and its six evaluations, each written as the
  -- one word that is read as it, end to end: no two encodings parse to the same points and values.
  -- That holds of byte strings, in a field whose elements are exactly their four words of 64 bits.
  pub parse-canonical :
      (p : Proof f)
      → parse f raw ≡ ok p
      → concat (commitments f p) (concat (map (word_of f canonical) (evaluations f p)) []) ≡ raw
  unfolding parse commitments pieces
  parse-canonical p e =
      let (u, sized, e0) = >>=-eq-ok (refuse_if (not (length raw == proof_len)) tt) _ e in
      let (a, q0, e1) = >>=-eq-ok (point f raw 0) _ e0 in
      let (b, q1, e2) = >>=-eq-ok (point f raw 2) _ e1 in
      let (c, q2, e3) = >>=-eq-ok (point f raw 4) _ e2 in
      let (z, q3, e4) = >>=-eq-ok (point f raw 6) _ e3 in
      let (t1, q4, e5) = >>=-eq-ok (point f raw 8) _ e4 in
      let (t2, q5, e6) = >>=-eq-ok (point f raw 10) _ e5 in
      let (t3, q6, e7) = >>=-eq-ok (point f raw 12) _ e6 in
      let (wxi, q7, e8) = >>=-eq-ok (point f raw 14) _ e7 in
      let (wxiw, q8, e9) = >>=-eq-ok (point f raw 16) _ e8 in
      let (va, q9, e10) = >>=-eq-ok (evaluation f raw 18) _ e9 in
      let (vb, q10, e11) = >>=-eq-ok (evaluation f raw 19) _ e10 in
      let (vc, q11, e12) = >>=-eq-ok (evaluation f raw 20) _ e11 in
      let (vs1, q12, e13) = >>=-eq-ok (evaluation f raw 21) _ e12 in
      let (vs2, q13, e14) = >>=-eq-ok (evaluation f raw 22) _ e13 in
      let (vzw, q14, e15) = >>=-eq-ok (evaluation f raw 23) _ e14 in
      subst
        (λ r.
          concat (commitments f r) (concat (map (word_of f canonical) (evaluations f r)) []) ≡ raw)
        (ok-injective e15)
        (assembled _ _
          (cons (point_piece 0 a refl q0) (
            cons (point_piece 2 b refl q1) (
              cons (point_piece 4 c refl q2) (
                cons (point_piece 6 z refl q3) (
                  cons (point_piece 8 t1 refl q4) (
                    cons (point_piece 10 t2 refl q5) (
                      cons (point_piece 12 t3 refl q6) (
                        cons (point_piece 14 wxi refl q7)
                          (cons (point_piece 16 wxiw refl q8) refl)))))))))
          (cons (evaluation_piece 18 va refl q9) (
            cons (evaluation_piece 19 vb refl q10) (
              cons (evaluation_piece 20 vc refl q11) (
                cons (evaluation_piece 21 vs1 refl q12) (
                  cons (evaluation_piece 22 vs2 refl q13)
                    (cons (evaluation_piece 23 vzw refl q14) refl)))))))
