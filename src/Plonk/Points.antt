-- ===== src/Plonk/Points.antt =====
-- The loop of the two proof encodings: each piece converted, and stored behind the ones before.
use zkasper_solana.Base.{
  ℕ, ◌≡◌, sym, ap, ◌∙◌, ◌+◌, ◌*◌, ◌≤◌, List, [], ◌∷◌, ◌++◌, Option, some, length, length-append,
  append_assoc, append-nil, arith,
}
use zkasper_solana.Base.Slices.{Bytes, written}
use zkasper_solana.Base.Result.{ok, ok_or, >>=-eq-ok, ok_or-eq-ok}
use zkasper_solana.Base.Memory.{write, write-written}
use zkasper_solana.Base.Layout.{concat, total}
use zkasper_solana.Base.Chunks.{AllSized}
use zkasper_solana.Errors.{ZkasperError}
use zkasper_solana.Plonk.Encoding.{convert_points, failed}

-- `outs` are the pieces converted, one by one.
abbrev pub Converted : (Bytes → Option Bytes) → List Bytes → List Bytes → Type 0
Converted convert [] [] = Unit {0}
Converted convert [] (out ∷ outs) = ⊥
Converted convert (piece ∷ pieces) [] = ⊥
Converted convert (piece ∷ pieces) (out ∷ outs) =
    (convert piece ≡ some out) × Converted convert pieces outs

concat_snoc : (done : List Bytes) (q : Bytes) → concat done [] ++ q ≡ concat (done ++ (q ∷ [])) []
concat_snoc [] q = sym (append-nil q)
concat_snoc (f ∷ fs) q = append_assoc f (concat fs []) q ∙ ap (λ t. f ++ t) (concat_snoc fs q)

pub convert_points-Converted :
    (convert : Bytes → Option Bytes) (width : ℕ) (pieces done outs : List Bytes) (i : ℕ)
    (xs : Bytes)
    → Converted convert pieces outs
    → AllSized width outs
    → i * width ≡ length (concat done [])
    → length (concat done []) + total outs ≤ length xs
    → convert_points convert width pieces i (written (concat done []) xs)
      ≡ ok (written (concat (done ++ outs) []) xs)
unfolding convert_points
convert_points-Converted convert width [] done [] i xs c sized place room =
    ap (λ l. ok (written (concat l []) xs)) (sym (append-nil done))
convert_points-Converted convert width [] done (q ∷ qs) i xs c sized place room = absurd c
convert_points-Converted convert width (p ∷ ps) done [] i xs c sized place room = absurd c
convert_points-Converted convert width (p ∷ ps) done (q ∷ qs) i xs c sized place room =
    let next : (i + 1) * width ≡ length (concat (done ++ (q ∷ [])) []) =
      omega
        (arith, place, sized.0, length-append (concat done []) q, ap length (concat_snoc done q)) in
    let fits : length (concat (done ++ (q ∷ [])) []) + total qs ≤ length xs =
      omega (arith, room, length-append (concat done []) q, ap length (concat_snoc done q)) in
    rw
      (
        c.0,
        write-written {E = ZkasperError} (concat done []) q xs (i * width) (i * width + width) place
            (omega (arith, sized.0)) (omega (arith, sized.0, place, room)),
        concat_snoc done q,
        convert_points-Converted convert width ps (done ++ (q ∷ [])) qs (i + 1) xs c.1 sized.1 next
            fits,
      )
      (ap (λ l. ok (written (concat l []) xs)) (append_assoc done (q ∷ []) qs))

pub convert_points-eq-ok :
    (convert : Bytes → Option Bytes) (width : ℕ) (pieces : List Bytes) (i : ℕ) (out result : Bytes)
    → convert_points convert width pieces i out ≡ ok result
    → (outs : List Bytes) × Converted convert pieces outs
unfolding convert_points
convert_points-eq-ok convert width [] i out result e = ([], tt)
convert_points-eq-ok convert width (p ∷ ps) i out result e =
    let (q, converted, e1) = >>=-eq-ok (ok_or failed (convert p)) _ e in
    let (stored, write_ok, e2) = >>=-eq-ok (write (i * width) (i * width + width) q out) _ e1 in
    let (qs, rest) = convert_points-eq-ok convert width ps (i + 1) stored result e2 in
    (q ∷ qs, (ok_or-eq-ok failed (convert p) converted, rest))
