-- ===== src/Base/Yields.antt =====
-- Code that does not panic, with what holds of the value that it returns.
use zkasper_solana.Base.{
  ℕ, ◌≡◌, ◌≢◌, refl, ◌⊎◌, inl, inr, ◌+◌, ◌-◌, ◌≤◌, ◌<◌, zero, suc, if◌then◌else◌, leb, ltb, ◌==◌,
  ◌&&◌, Bool, true, false, Option, none, some, length, take, drop, ◌++◌, [], ◌∷◌, get_elem?,
  length-take, length-drop, length-append, arith,
}
use zkasper_solana.Base.Slices.{Bytes, copy_slice, set_byte, slice_in_range}
use zkasper_solana.Base.Result.{Result, ok, err, panic, ◌>>=◌, refuse_if, ok_or, map_err}
use zkasper_solana.Base.Memory.{read, read_byte, write, write_byte}

pub data Yields {E : Type 0} {A : Type 0} (P : A → Type 0) : Result E A → Type 0 where
  yields : {a : A} → P a → Yields P (ok a)
  refuses : {e : E} → Yields P (err e)

-- No panic, and nothing on the value.
abbrev pub Returns : {E : Type 0} {A : Type 0} → Result E A → Type 0
Returns m = Yields (λ a. Unit {0}) m

-- A value of `n` bytes.
abbrev pub Sized : ℕ → Bytes → Type 0
Sized n xs = length xs ≡ n

module _ {E : Type 0} {A : Type 0} {P : A → Type 0} where
  pub Yields-bind :
      {B : Type 0} {Q : B → Type 0} {m : Result E A} {k : A → Result E B}
      → Yields P m
      → ((a : A) → P a → Yields Q (k a))
      → Yields Q (m >>= k)
  Yields-bind (yields p) next = next _ p
  Yields-bind refuses next = refuses

  pub Yields-if :
      {x y : Result E A} (b : Bool) → Yields P x → Yields P y → Yields P (if b then x else y)
  Yields-if true p q = p
  Yields-if false p q = q

  -- What is known of a result that does not panic.
  pub Yields-known : (m : Result E A) → m ≢ panic → ((a : A) → m ≡ ok a → P a) → Yields P m
  Yields-known (ok a) total known = yields (known a refl)
  Yields-known (err e) total known = refuses
  Yields-known panic total known = absurd (total refl)

  pub Yields-map_err :
      {F : Type 0} (f : E → F) {m : Result E A} → Yields P m → Yields P (map_err f m)
  Yields-map_err f (yields p) = yields p
  Yields-map_err f refuses = refuses

  pub Yields-ok_or : (e : E) (o : Option A) → ((a : A) → o ≡ some a → P a) → Yields P (ok_or e o)
  Yields-ok_or e none given = refuses
  Yields-ok_or e (some a) given = yields (given a refl)

  pub Yields-cases :
      (m : Result E A) → Yields P m → ((e : E) × (m ≡ err e)) ⊎ ((a : A) × (m ≡ ok a) × P a)
  Yields-cases (ok a) (yields p) = inr (a, refl, p)
  Yields-cases (err e) refuses = inl (e, refl)
  Yields-cases panic y = elim y [ ]

  pub Yields-Returns : {m : Result E A} → Yields P m → Returns m
  Yields-Returns (yields p) = yields tt
  Yields-Returns refuses = refuses

  pub Yields-ne-panic : {m : Result E A} → Yields P m → m ≢ panic
  Yields-ne-panic (yields p) e = cc
  Yields-ne-panic refuses e = cc

pub get_elem?-in_range : (i : ℕ) (xs : Bytes) → i < length xs → (v : ℕ) × (get_elem? xs i ≡ some v)
get_elem?-in_range i [] h = absurd (omega arith)
get_elem?-in_range zero (x ∷ xs) h = (x, refl)
get_elem?-in_range (suc i) (x ∷ xs) h = get_elem?-in_range i xs (omega arith)

module _ {E : Type 0} where
  pub refuse_if-Yields : (b : Bool) (e : E) → Yields (λ done. b ≡ false) (refuse_if b e)
  refuse_if-Yields true e = refuses
  refuse_if-Yields false e = yields refl

  pub read-Yields :
      (lo hi : ℕ) (xs : Bytes)
      → lo ≤ hi
      → hi ≤ length xs
      → Yields {E = E} (Sized (hi - lo)) (read lo hi xs)
  unfolding read
  read-Yields lo hi xs h k =
      rw (slice_in_range lo hi xs h k)
        (yields (omega (arith, length-take (hi - lo) (drop lo xs), length-drop lo xs)))

  -- `n` bytes at `lo`
  pub read_at-Yields :
      (n lo : ℕ) (xs : Bytes) → lo + n ≤ length xs → Yields {E = E} (Sized n) (read lo (lo + n) xs)
  unfolding read
  read_at-Yields n lo xs h =
      rw (slice_in_range lo (lo + n) xs (omega arith) h)
        (yields (omega (arith, length-take (lo + n - lo) (drop lo xs), length-drop lo xs)))

  pub write-Yields :
      (n lo hi : ℕ) (src xs : Bytes)
      → length xs ≡ n
      → lo ≤ hi
      → hi ≤ n
      → length src ≡ hi - lo
      → Yields {E = E} (Sized n) (write lo hi src xs)
  unfolding write copy_slice
  write-Yields n lo hi src xs s h k m =
      let inside : (leb lo hi && (leb hi (length xs) && hi - lo == length src)) ≡ true =
        ground arith in
      rw inside (
        yields (
          omega (
            arith,
            length-append (take lo xs) (src ++ drop hi xs),
            length-append src (drop hi xs),
            length-take lo xs,
            length-drop hi xs,
          )))

  pub read_byte-Returns : (i : ℕ) (xs : Bytes) → i < length xs → Returns {E = E} (read_byte i xs)
  unfolding read_byte
  read_byte-Returns i xs h = let (v, e) = get_elem?-in_range i xs h in rw e (yields tt)

  pub write_byte-Yields :
      (n i v : ℕ) (xs : Bytes)
      → length xs ≡ n
      → i < n
      → Yields {E = E} (Sized n) (write_byte i v xs)
  unfolding write_byte set_byte
  write_byte-Yields n i v xs s h =
      let inside : ltb i (length xs) ≡ true = ground arith in
      rw inside (
        yields (
          omega (
            arith,
            length-append (take i xs) (v ∷ drop (i + 1) xs),
            length-take i xs,
            length-drop (i + 1) xs,
          )))

-- The first steps do not panic, so a panic is a later one's.
pub >>=-eq-panic :
    {E : Type 0} {A B : Type 0} (m : Result E A) (k : A → Result E B)
    → m ≢ panic
    → (m >>= k) ≡ panic
    → (a : A) × (m ≡ ok a) × (k a ≡ panic)
>>=-eq-panic (ok a) k total h = (a, refl, h)
>>=-eq-panic (err e) k total h = cc
>>=-eq-panic panic k total h = absurd (total refl)
