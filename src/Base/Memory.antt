-- ===== src/Base/Memory.antt =====
-- Indexing that panics: Rust's `xs[lo..hi]`, `xs[lo..hi].copy_from_slice(src)`, `xs[i]` and
-- `xs[i] = v`; and the chunks of a slice.
use Prim.Native.Nat.{ℕ, zero, suc, ◌+◌, ◌-◌, ◌/◌, ◌≤◌, ◌<◌}
use mathlib.Core.Path.{◌≡◌}
use mathlib.Core.List.{List, [], ◌∷◌, ◌++◌}
use native.Mathlib.Omega.{arith}
use package.zkasper_solana.Base.Lists.{
  length, get_elem?, take, drop, replicate, All, length-replicate,
}
use package.zkasper_solana.Base.Slices.{
  Bytes, slice, slice_in_range, copy_slice, set_byte, slice-append, slice-window, get_elem?-window,
  window, written, copy_slice-written, set_byte-written,
}
use package.zkasper_solana.Base.Result.{Result, ok, unwrap}
use package.zkasper_solana.Base.Words.{IsByte}

module _ {E : Type 0} where
  -- `xs[lo..hi]`
  unfoldable pub read : ℕ → ℕ → Bytes → Result E Bytes
  read lo hi xs = unwrap (slice lo hi xs)

  -- `xs[i]`
  unfoldable pub read_byte : ℕ → Bytes → Result E ℕ
  read_byte i xs = unwrap (get_elem? xs i)

  -- `xs[lo..hi].copy_from_slice(src)`
  unfoldable pub write : ℕ → ℕ → Bytes → Bytes → Result E Bytes
  write lo hi src xs = unwrap (copy_slice lo hi src xs)

  -- `xs[i] = v`
  unfoldable pub write_byte : ℕ → ℕ → Bytes → Result E Bytes
  write_byte i v xs = unwrap (set_byte i v xs)

  pub read-append :
      (pre mid post : Bytes) (lo hi : ℕ)
      → lo ≡ length pre
      → hi ≡ lo + length mid
      → read lo hi (pre ++ (mid ++ post)) ≡ ok mid
  unfolding read
  read-append pre mid post lo hi p q = rw (slice-append pre mid post lo hi p q)

  pub read_in_range :
      (lo hi : ℕ) (xs : Bytes)
      → lo ≤ hi
      → hi ≤ length xs
      → read lo hi xs ≡ ok (take (hi - lo) (drop lo xs))
  unfolding read
  read_in_range lo hi xs h k = rw (slice_in_range lo hi xs h k)

  pub read-window :
      (at n a b : ℕ) (xs : Bytes)
      → at + n ≤ length xs
      → a ≤ b
      → b ≤ n
      → read (at + a) (at + b) xs ≡ read a b (window at n xs)
  unfolding read
  read-window at n a b xs h p q = rw (slice-window at n a b xs h p q)

  pub read_byte-window :
      (at n i : ℕ) (xs : Bytes) → i < n → read_byte (at + i) xs ≡ read_byte i (window at n xs)
  unfolding read_byte
  read_byte-window at n i xs h = rw (get_elem?-window at n i xs h)

  pub write-written :
      (pre src xs : Bytes) (lo hi : ℕ)
      → lo ≡ length pre
      → hi ≡ lo + length src
      → hi ≤ length xs
      → write lo hi src (written pre xs) ≡ ok (written (pre ++ src) xs)
  unfolding write
  write-written pre src xs lo hi p q r = rw (copy_slice-written pre src xs lo hi p q r)

  pub write_byte-written :
      (pre xs : Bytes) (i v : ℕ)
      → i ≡ length pre
      → i < length xs
      → write_byte i v (written pre xs) ≡ ok (written (pre ++ v ∷ []) xs)
  unfolding write_byte
  write_byte-written pre xs i v p q = rw (set_byte-written pre xs i v p q)

-- `[0u8; n]`
unfoldable pub zeros : ℕ → Bytes
zeros n = replicate n 0

pub length-zeros : (n : ℕ) → length (zeros n) ≡ n
unfolding zeros
length-zeros n = length-replicate n 0

-- `count` pieces of `n` bytes from the front.
unfoldable pub chunks : ℕ → ℕ → Bytes → List Bytes
chunks n zero xs = []
chunks n (suc count) xs = take n xs ∷ chunks n count (drop n xs)

-- `xs.chunks_exact(n)`
unfoldable pub chunks_exact : ℕ → Bytes → List Bytes
chunks_exact n xs = chunks n (length xs / n) xs

pub zeros-bytes : (n : ℕ) → All IsByte (zeros n)
unfolding zeros
zeros-bytes n = replicate-bytes n
  where
    replicate-bytes : (n : ℕ) → All IsByte (replicate n 0)
    replicate-bytes zero = tt
    replicate-bytes (suc n) = (omega arith, replicate-bytes n)
