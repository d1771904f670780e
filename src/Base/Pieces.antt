-- ===== src/Base/Pieces.antt =====
-- Cutting an array at given widths, the converse of laying fields end to end.
use Prim.Native.Nat.{ℕ, ◌+◌, ◌-◌, ◌≤◌}
use mathlib.Core.Path.{◌≡◌, refl, ap, ◌∙◌}
use mathlib.Core.List.{List, [], ◌∷◌, ◌++◌}
use native.Mathlib.Omega.{arith}
use package.zkasper_solana.Base.Lists.{
  length, take, drop, All-take, All-drop, length-take, length-drop, take-append-drop,
}
use package.zkasper_solana.Base.Slices.{Bytes}
use package.zkasper_solana.Base.Words.{IsArray, IsByte}
use package.zkasper_solana.Base.Layout.{concat}

abbrev pub pieces : List ℕ → Bytes → List Bytes
pieces [] xs = []
pieces (w ∷ ws) xs = take w xs ∷ pieces ws (drop w xs)

abbrev pub sum : List ℕ → ℕ
sum [] = 0
sum (w ∷ ws) = w + sum ws

nothing_left : (xs : Bytes) → length xs ≡ 0 → [] ≡ xs
nothing_left [] h = refl
nothing_left (x ∷ xs) h = absurd (omega arith)

pub concat-pieces : (ws : List ℕ) (xs : Bytes) → length xs ≡ sum ws → concat (pieces ws xs) [] ≡ xs
concat-pieces [] xs h = nothing_left xs h
concat-pieces (w ∷ ws) xs h =
    ap (λ t. take w xs ++ t) (concat-pieces ws (drop w xs) (omega (arith, length-drop w xs)))
    ∙ take-append-drop w xs

pub take-IsArray : (n w : ℕ) (xs : Bytes) → w ≤ n → IsArray n xs → IsArray w (take w xs)
take-IsArray n w xs le h = record {
  sized = omega (arith, length-take w xs, h.sized);
  bytes = All-take IsByte w xs h.bytes;
}

pub drop-IsArray : (n w : ℕ) (xs : Bytes) → IsArray n xs → IsArray (n - w) (drop w xs)
drop-IsArray n w xs h = record {
  sized = omega (arith, length-drop w xs, h.sized);
  bytes = All-drop IsByte w xs h.bytes;
}
