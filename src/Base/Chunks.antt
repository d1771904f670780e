-- ===== src/Base/Chunks.antt =====
-- `chunks_exact`: cutting into equal pieces and joining them again.
use Prim.Native.Nat.{ℕ, zero, suc, ◌+◌, ◌*◌, ◌≤◌}
use mathlib.Core.Path.{◌≡◌, refl, ap, ◌∙◌}
use mathlib.Core.List.{List, [], ◌∷◌, ◌++◌}
use native.Mathlib.Omega.{arith}
use package.zkasper_solana.Base.Lists.{
  length, take, drop, All, length-take, length-drop, length-append, take-append-drop, take-split,
}
use package.zkasper_solana.Base.Slices.{Bytes, take-append_at, drop-append_at}
use package.zkasper_solana.Base.Memory.{chunks}
use package.zkasper_solana.Base.Layout.{concat}

-- Every piece has `n` bytes.
abbrev pub AllSized : ℕ → List Bytes → Type 0
AllSized n = All (λ c. length c ≡ n)

pub length-chunks : (n count : ℕ) (xs : Bytes) → length (chunks n count xs) ≡ count
unfolding chunks
length-chunks n zero xs = refl
length-chunks n (suc count) xs = ap suc (length-chunks n count (drop n xs))

pub chunks-AllSized :
    (n count : ℕ) (xs : Bytes) → count * n ≤ length xs → AllSized n (chunks n count xs)
unfolding chunks
chunks-AllSized n zero xs h = tt
chunks-AllSized n (suc count) xs h = (
  omega (arith, length-take n xs),
  chunks-AllSized n count (drop n xs) (omega (arith, length-drop n xs)),
)

empty_of_length : (xs : Bytes) → length xs ≡ 0 → [] ≡ xs
empty_of_length [] h = refl
empty_of_length (x ∷ xs) h = absurd (omega arith)

pub concat-chunks :
    (n count : ℕ) (xs : Bytes) → length xs ≡ count * n → concat (chunks n count xs) [] ≡ xs
unfolding chunks
concat-chunks n zero xs h = empty_of_length xs (omega arith)
concat-chunks n (suc count) xs h =
    ap (λ t. take n xs ++ t) (concat-chunks n count (drop n xs) (omega (arith, length-drop n xs)))
    ∙ take-append-drop n xs

-- Equal pieces laid end to end are cut where they meet.
pub chunks-concat :
    (n : ℕ) (cs : List Bytes) (rest : Bytes)
    → AllSized n cs
    → chunks n (length cs) (concat cs rest) ≡ cs
unfolding chunks
chunks-concat n [] rest h = refl
chunks-concat n (c ∷ cs) rest h =
    rw
      (
        take-append_at c (concat cs rest) n (omega (arith, h.0)),
        drop-append_at c (concat cs rest) n (omega (arith, h.0)),
      )
      (ap (λ t. c ∷ t) (chunks-concat n cs rest h.1))

pub length-concat_sized :
    (n : ℕ) (cs : List Bytes) → AllSized n cs → length (concat cs []) ≡ length cs * n
length-concat_sized n [] h = omega arith
length-concat_sized n (c ∷ cs) h =
    omega (arith, h.0, length-append c (concat cs []), length-concat_sized n cs h.1)

-- The first pieces are the front.
pub concat-take-chunks :
    (n k count : ℕ) (xs : Bytes)
    → k ≤ count
    → count * n ≤ length xs
    → concat (take k (chunks n count xs)) [] ≡ take (k * n) xs
unfolding chunks
concat-take-chunks n zero count xs h le =
    let e : zero ≡ zero * n = omega arith in ap (λ j. take j xs) e
concat-take-chunks n (suc k) zero xs h le = absurd (omega arith)
concat-take-chunks n (suc k) (suc count) xs h le =
    let e : n + k * n ≡ suc k * n = omega arith in
    ap (λ t. take n xs ++ t)
      (concat-take-chunks n k count (drop n xs) (omega arith) (omega (arith, length-drop n xs)))
    ∙ take-split n (k * n) xs
    ∙ ap (λ j. take j xs) e
