-- ===== src/Base/Slices.antt =====
-- Byte slices: reads and writes by range and by index, and what a read sees after a write.
use Prim.Native.Nat.{ℕ, zero, suc, ◌+◌, ◌-◌, ◌≤◌, ◌<◌}
use mathlib.Core.Path.{◌≡◌, refl, sym, ap, ◌∙◌}
use mathlib.Core.Bool.{true, ◌&&◌}
use mathlib.Core.Logic.{◌⊎◌, inl, inr}
use mathlib.Core.Option.{Option, none, some}
use mathlib.Core.List.{List, [], ◌∷◌, ◌++◌, append_assoc}
use native.Mathlib.Omega.{arith}
use package.zkasper_solana.Base.Tests.{leb, ltb, ◌==◌, if◌then◌else◌}
use package.zkasper_solana.Base.Lists.{
  length, get_elem?, take, drop, length-append, length-take, length-drop, drop-drop, take-append,
  take-all, drop-append_ge, drop-take, take-take, take-append-drop,
}

abbrev pub Bytes : Type 0
Bytes = List ℕ

-- `xs.get(lo..hi)`; `xs[lo..hi]` is its `unwrap`.
unfoldable pub slice : ℕ → ℕ → Bytes → Option Bytes
slice lo hi xs =
    if leb lo hi && leb hi (length xs) then some (take (hi - lo) (drop lo xs)) else none

-- `xs[lo..hi].copy_from_slice(src)`: nothing if the range is outside or the lengths differ.
unfoldable pub copy_slice : ℕ → ℕ → Bytes → Bytes → Option Bytes
copy_slice lo hi src xs =
    if leb lo hi && (leb hi (length xs) && hi - lo == length src)
    then some (take lo xs ++ (src ++ drop hi xs))
    else none

-- `xs[i] = v`
unfoldable pub set_byte : ℕ → ℕ → Bytes → Option Bytes
set_byte i v xs = if ltb i (length xs) then some (take i xs ++ (v ∷ drop (i + 1) xs)) else none

pub slice_in_range :
    (lo hi : ℕ) (xs : Bytes)
    → lo ≤ hi
    → hi ≤ length xs
    → slice lo hi xs ≡ some (take (hi - lo) (drop lo xs))
unfolding slice
slice_in_range lo hi xs h k = ground arith

pub drop-append_at : (pre post : Bytes) (n : ℕ) → n ≡ length pre → drop n (pre ++ post) ≡ post
drop-append_at pre post n h =
    let e : n - length pre ≡ 0 = omega arith in
    drop-append_ge n pre post (omega arith) ∙ ap (λ k. drop k post) e

pub take-append_at : (pre post : Bytes) (n : ℕ) → n ≡ length pre → take n (pre ++ post) ≡ pre
take-append_at pre post n h = take-append n pre post (omega arith) ∙ take-all n pre (omega arith)

get_elem?-take : (n i : ℕ) (xs : Bytes) → i < n → get_elem? xs i ≡ get_elem? (take n xs) i
get_elem?-take zero i xs h = absurd (omega arith)
get_elem?-take (suc n) i [] h = refl
get_elem?-take (suc n) zero (x ∷ xs) h = refl
get_elem?-take (suc n) (suc i) (x ∷ xs) h = get_elem?-take n i xs (omega arith)

-- A middle part is read back by its range.
pub slice-append :
    (pre mid post : Bytes) (lo hi : ℕ)
    → lo ≡ length pre
    → hi ≡ lo + length mid
    → slice lo hi (pre ++ (mid ++ post)) ≡ some mid
slice-append pre mid post lo hi p q = rw (
  slice_in_range lo hi (pre ++ (mid ++ post)) (omega arith)
      (omega (arith, length-append pre (mid ++ post), length-append mid post)),
  drop-append_at pre (mid ++ post) lo p,
  take-append_at mid post (hi - lo) (omega arith),
)

-- `data` with its front overwritten by `pre`.
abbrev pub written : Bytes → Bytes → Bytes
written pre xs = pre ++ drop (length pre) xs

pub length-written : (pre xs : Bytes) → length pre ≤ length xs → length (written pre xs) ≡ length xs
length-written pre xs h =
    omega (arith, length-append pre (drop (length pre) xs), length-drop (length pre) xs)

pub take-written : (pre xs : Bytes) (n : ℕ) → n ≡ length pre → take n (written pre xs) ≡ pre
take-written pre xs n h = take-append_at pre (drop (length pre) xs) n h

pub drop-written : (pre xs : Bytes) (n : ℕ) → length pre ≤ n → drop n (written pre xs) ≡ drop n xs
drop-written pre xs n h =
    let e : length pre + (n - length pre) ≡ n = omega arith in
    drop-append_ge n pre (drop (length pre) xs) h
    ∙ drop-drop (n - length pre) (length pre) xs
    ∙ ap (λ k. drop k xs) e

-- A front that is already there changes nothing.
pub written-take : (n : ℕ) (xs : Bytes) → n ≤ length xs → written (take n xs) xs ≡ xs
written-take n xs h =
    let e : length (take n xs) ≡ n = omega (arith, length-take n xs) in rw e (take-append-drop n xs)

-- A write right behind the front extends it.
pub copy_slice-written :
    (pre src xs : Bytes) (lo hi : ℕ)
    → lo ≡ length pre
    → hi ≡ lo + length src
    → hi ≤ length xs
    → copy_slice lo hi src (written pre xs) ≡ some (written (pre ++ src) xs)
unfolding copy_slice
copy_slice-written pre src xs lo hi p q r =
    let inside : (leb lo hi && (leb hi (length (written pre xs)) && hi - lo == length src)) ≡ true =
      ground (arith, length-written pre xs) in
    let reached : length (pre ++ src) ≡ hi = omega (arith, length-append pre src) in
    rw (inside, take-written pre xs lo p, drop-written pre xs hi (omega arith), reached)
      (ap some (sym (append_assoc pre src (drop hi xs))))

pub set_byte-written :
    (pre xs : Bytes) (i v : ℕ)
    → i ≡ length pre
    → i < length xs
    → set_byte i v (written pre xs) ≡ some (written (pre ++ v ∷ []) xs)
unfolding set_byte
set_byte-written pre xs i v p q =
    let inside : ltb i (length (written pre xs)) ≡ true = ground (arith, length-written pre xs) in
    let reached : length (pre ++ v ∷ []) ≡ i + 1 = omega (arith, length-append pre (v ∷ [])) in
    rw (inside, take-written pre xs i p, drop-written pre xs (i + 1) (omega arith), reached)
      (ap some (sym (append_assoc pre (v ∷ []) (drop (i + 1) xs))))

-- A window of `n` bytes at `at`. A read inside it is a read of the window alone.
abbrev pub window : ℕ → ℕ → Bytes → Bytes
window at n xs = take n (drop at xs)

pub length-window : (at n : ℕ) (xs : Bytes) → at + n ≤ length xs → length (window at n xs) ≡ n
length-window at n xs h = omega (arith, length-take n (drop at xs), length-drop at xs)

pub slice-window :
    (at n a b : ℕ) (xs : Bytes)
    → at + n ≤ length xs
    → a ≤ b
    → b ≤ n
    → slice (at + a) (at + b) xs ≡ slice a b (window at n xs)
slice-window at n a b xs h p q =
    rw
      (
        slice_in_range (at + a) (at + b) xs (omega arith) (omega arith),
        slice_in_range a b (window at n xs) p (omega (arith, length-window at n xs h)),
        drop-take a n (drop at xs),
        drop-drop a at xs,
        take-take (b - a) (n - a) (drop (at + a) xs) (omega arith),
      )
      (let e : at + b - (at + a) ≡ b - a = omega arith in
        ap (λ k. some (take k (drop (at + a) xs))) e)

pub get_elem?-window :
    (at n i : ℕ) (xs : Bytes) → i < n → get_elem? xs (at + i) ≡ get_elem? (window at n xs) i
get_elem?-window zero n i xs h =
    let e : zero + i ≡ i = omega arith in rw e (get_elem?-take n i xs h)
get_elem?-window (suc at) n i [] h = get_elem?-take n i [] h
get_elem?-window (suc at) n i (x ∷ xs) h =
    let e : suc at + i ≡ suc (at + i) = omega arith in rw e (get_elem?-window at n i xs h)

window-as_drop : (b n : ℕ) (xs : Bytes) → window b n xs ≡ drop b (take (b + n) xs)
window-as_drop b n xs =
    let e : n ≡ b + n - b = omega arith in
    ap (λ k. take k (drop b xs)) e ∙ sym (drop-take b (b + n) xs)

-- A window that a write at `at` replaced, and windows apart from it.
pub window-splice_self :
    (at : ℕ) (src xs : Bytes)
    → at + length src ≤ length xs
    → window at (length src) (written (take at xs ++ src) xs) ≡ src
window-splice_self at src xs h =
    let behind : Bytes = drop (length (take at xs ++ src)) xs in
    rw
      (
        append_assoc (take at xs) src behind,
        drop-append_at (take at xs) (src ++ behind) at (omega (arith, length-take at xs)),
      )
      (take-append_at src behind (length src) refl)

pub window-splice_apart :
    (at b n : ℕ) (src xs : Bytes)
    → at + length src ≤ length xs
    → (b + n ≤ at) ⊎ (at + length src ≤ b)
    → window b n (written (take at xs ++ src) xs) ≡ window b n xs
window-splice_apart at b n src xs h (inl before) =
    let behind : Bytes = drop (length (take at xs ++ src)) xs in
    rw (
      window-as_drop b n (written (take at xs ++ src) xs),
      window-as_drop b n xs,
      append_assoc (take at xs) src behind,
      take-append (b + n) (take at xs) (src ++ behind) (omega (arith, length-take at xs)),
      take-take (b + n) at xs before,
    )
window-splice_apart at b n src xs h (inr after) = ap (take n) (
    drop-written (take at xs ++ src) xs b
      (omega (arith, length-append (take at xs) src, length-take at xs)))
