-- ===== src/Base/Layout.antt =====
-- Records of fields laid end to end: what a read at a field's offset returns, and what writing the
-- fields one after the other leaves.
use Prim.Native.Nat.{ℕ, zero, suc, ◌+◌, ◌≤◌, ◌<◌}
use mathlib.Core.Path.{◌≡◌, refl, sym, ap, ◌∙◌}
use mathlib.Core.List.{List, [], ◌∷◌, ◌++◌, append_assoc, append-nil}
use mathlib.Core.Option.{some}
use native.Mathlib.Omega.{arith}
use package.zkasper_solana.Base.Lists.{
  length, get_elem?, take, drop, All, All-append, length-append,
}
use package.zkasper_solana.Base.Slices.{Bytes, written, slice, slice-append}
use package.zkasper_solana.Base.Result.{ok}
use package.zkasper_solana.Base.Memory.{
  read, read_byte, write, write_byte, write-written, write_byte-written, length-zeros,
}
use package.zkasper_solana.Base.Words.{IsByte, length-to_le_bytes}

-- The fields in order, and then `rest`.
abbrev pub concat : List Bytes → Bytes → Bytes
concat [] rest = rest
concat (f ∷ fs) rest = f ++ concat fs rest

abbrev pub total : List Bytes → ℕ
total [] = 0
total (f ∷ fs) = length f + total fs

pub length-concat :
    (fs : List Bytes) (rest : Bytes) → length (concat fs rest) ≡ total fs + length rest
length-concat [] rest = omega arith
length-concat (f ∷ fs) rest = omega (arith, length-append f (concat fs rest), length-concat fs rest)

pub concat-append : (fs : List Bytes) (rest : Bytes) → concat fs [] ++ rest ≡ concat fs rest
concat-append [] rest = refl
concat-append (f ∷ fs) rest =
    append_assoc f (concat fs []) rest ∙ ap (λ t. f ++ t) (concat-append fs rest)

-- The fields before the k-th, the k-th, and the others.
concat-split :
    (fs : List Bytes) (rest : Bytes) (k : ℕ) (mid : Bytes)
    → get_elem? fs k ≡ some mid
    → concat fs rest ≡ concat (take k fs) [] ++ (mid ++ concat (drop (suc k) fs) rest)
concat-split [] rest k mid h = cc
concat-split (f ∷ fs) rest zero mid h = cc
concat-split (f ∷ fs) rest (suc k) mid h =
    ap (λ t. f ++ t) (concat-split fs rest k mid h)
    ∙ sym (append_assoc f (concat (take k fs) []) (mid ++ concat (drop (suc k) fs) rest))

concat-take-suc :
    (fs : List Bytes) (k : ℕ) (mid : Bytes)
    → get_elem? fs k ≡ some mid
    → concat (take k fs) [] ++ mid ≡ concat (take (suc k) fs) []
concat-take-suc [] k mid h = cc
concat-take-suc (f ∷ fs) zero mid h = cc (append-nil f)
concat-take-suc (f ∷ fs) (suc k) mid h =
    append_assoc f (concat (take k fs) []) mid ∙ ap (λ t. f ++ t) (concat-take-suc fs k mid h)

get_elem?-split :
    (pre post : Bytes) (i v : ℕ) → i ≡ length pre → get_elem? (pre ++ (v ∷ post)) i ≡ some v
get_elem?-split [] post zero v h = refl
get_elem?-split [] post (suc i) v h = absurd (omega arith)
get_elem?-split (x ∷ pre) post zero v h = absurd (omega arith)
get_elem?-split (x ∷ pre) post (suc i) v h = get_elem?-split pre post i v (omega arith)

pub slice_field :
    (fs : List Bytes) (rest : Bytes) (k : ℕ) (mid : Bytes) (lo hi : ℕ)
    → get_elem? fs k ≡ some mid
    → lo ≡ total (take k fs)
    → hi ≡ lo + length mid
    → slice lo hi (concat fs rest) ≡ some mid
slice_field fs rest k mid lo hi h p q = rw (concat-split fs rest k mid h) (
    slice-append (concat (take k fs) []) mid (concat (drop (suc k) fs) rest) lo hi
      (omega (arith, length-concat (take k fs) [])) q)

module _ {E : Type 0} where
  pub read_byte_field :
      (fs : List Bytes) (rest : Bytes) (k v i : ℕ)
      → get_elem? fs k ≡ some (v ∷ [])
      → i ≡ total (take k fs)
      → read_byte {E = E} i (concat fs rest) ≡ ok v
  unfolding read_byte
  read_byte_field fs rest k v i h p = rw (
    concat-split fs rest k (v ∷ []) h,
    get_elem?-split (concat (take k fs) []) (concat (drop (suc k) fs) rest) i v
        (omega (arith, length-concat (take k fs) [])),
  )

  pub read_field :
      (fs : List Bytes) (rest : Bytes) (k : ℕ) (mid : Bytes) (lo hi : ℕ)
      → get_elem? fs k ≡ some mid
      → lo ≡ total (take k fs)
      → hi ≡ lo + length mid
      → read {E = E} lo hi (concat fs rest) ≡ ok mid
  unfolding read
  read_field fs rest k mid lo hi h p q = rw (slice_field fs rest k mid lo hi h p q)

  pub write_field :
      (fs : List Bytes) (k : ℕ) (mid xs : Bytes) (lo hi : ℕ)
      → get_elem? fs k ≡ some mid
      → lo ≡ total (take k fs)
      → hi ≡ lo + length mid
      → hi ≤ length xs
      → write {E = E} lo hi mid (written (concat (take k fs) []) xs)
        ≡ ok (written (concat (take (suc k) fs) []) xs)
  write_field fs k mid xs lo hi h p q r =
      write-written (concat (take k fs) []) mid xs lo hi
        (omega (arith, length-concat (take k fs) [])) q r
      ∙ ap (λ t. ok (written t xs)) (concat-take-suc fs k mid h)

  pub write_byte_field :
      (fs : List Bytes) (k v : ℕ) (xs : Bytes) (i : ℕ)
      → get_elem? fs k ≡ some (v ∷ [])
      → i ≡ total (take k fs)
      → i < length xs
      → write_byte {E = E} i v (written (concat (take k fs) []) xs)
        ≡ ok (written (concat (take (suc k) fs) []) xs)
  write_byte_field fs k v xs i h p q =
      write_byte-written (concat (take k fs) []) xs i v
        (omega (arith, length-concat (take k fs) [])) q
      ∙ ap (λ t. ok (written t xs)) (concat-take-suc fs k (v ∷ []) h)

-- The sizes of words and of blank arrays, for `omega`.
pub ruleset sizes = (arith, length-to_le_bytes, length-zeros)

pub concat-bytes :
    (fs : List Bytes) (rest : Bytes)
    → All (All IsByte) fs
    → All IsByte rest
    → All IsByte (concat fs rest)
concat-bytes [] rest hf hr = hr
concat-bytes (f ∷ fs) rest hf hr =
    All-append IsByte f (concat fs rest) hf.0 (concat-bytes fs rest hf.1 hr)
