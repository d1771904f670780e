-- ===== src/Base/Gives.antt =====
-- What holds of the value of a computation that returns one.
use zkasper_solana.Base.{
  ℕ, ◌≡◌, refl, ◌-◌, ◌++◌, leb, ◌==◌, ◌&&◌, Bool-cases, inl, inr, Bool, true, false, Option, none,
  some, length, take, drop, All, All-append, All-take, All-drop, if◌then◌else◌, subst, arith,
  length-append, length-take, length-drop,
}
use zkasper_solana.Base.Slices.{Bytes, slice, copy_slice}
use zkasper_solana.Base.Result.{Result, ok, err, panic, ◌>>=◌, refuse_if, ok_or, map_err}
use zkasper_solana.Base.Memory.{read, write}
use zkasper_solana.Base.Words.{IsByte}
use zkasper_solana.Base.Yields.{Yields, yields, refuses, Sized}

-- If a value comes, it has the property.
pub data Gives {E : Type 0} {A : Type 0} (P : A → Type 0) : Result E A → Type 0 where
  gives : {a : A} → P a → Gives P (ok a)
  gives_err : {e : E} → Gives P (err e)
  gives_panic : Gives P panic

-- A string of bytes.
abbrev pub HasBytes : Bytes → Type 0
HasBytes xs = All IsByte xs

pub Gives-any : {E : Type 0} {A : Type 0} (m : Result E A) → Gives (λ a. Unit {0}) m
Gives-any (ok a) = gives tt
Gives-any (err e) = gives_err
Gives-any panic = gives_panic

module _ {E : Type 0} {A : Type 0} {P : A → Type 0} where
  pub Gives-bind :
      {B : Type 0} {Q : B → Type 0} {m : Result E A} {k : A → Result E B}
      → Gives P m
      → ((a : A) → P a → Gives Q (k a))
      → Gives Q (m >>= k)
  Gives-bind (gives p) next = next _ p
  Gives-bind gives_err next = gives_err
  Gives-bind gives_panic next = gives_panic

  pub Gives-known : (m : Result E A) → ((a : A) → m ≡ ok a → P a) → Gives P m
  Gives-known (ok a) known = gives (known a refl)
  Gives-known (err e) known = gives_err
  Gives-known panic known = gives_panic

  Gives-value : {a : A} → Gives {E = E} P (ok a) → P a
  Gives-value (gives p) = p

  pub Gives-eq-ok : {m : Result E A} {a : A} → Gives P m → m ≡ ok a → P a
  Gives-eq-ok g e = Gives-value (subst (Gives P) e g)

  pub Gives-ok_or : (e : E) (o : Option A) → ((a : A) → o ≡ some a → P a) → Gives P (ok_or e o)
  Gives-ok_or e none given = gives_err
  Gives-ok_or e (some a) given = gives (given a refl)

  pub Gives-if :
      (b : Bool) (m n : Result E A)
      → (b ≡ true → Gives P m)
      → (b ≡ false → Gives P n)
      → Gives P (if b then m else n)
  Gives-if true m n p q = p refl
  Gives-if false m n p q = q refl

  pub Gives-map_err : {F : Type 0} (f : E → F) {m : Result E A} → Gives P m → Gives P (map_err f m)
  Gives-map_err f (gives p) = gives p
  Gives-map_err f gives_err = gives_err
  Gives-map_err f gives_panic = gives_panic

  pub Yields-Gives : {m : Result E A} → Yields P m → Gives P m
  Yields-Gives (yields p) = gives p
  Yields-Gives refuses = gives_err

  -- Two properties of one value.
  pub Gives-both :
      {Q : A → Type 0} {m : Result E A} → Gives P m → Gives Q m → Gives (λ a. P a × Q a) m
  Gives-both (gives p) (gives q) = gives (p, q)
  Gives-both gives_err q = gives_err
  Gives-both gives_panic q = gives_panic

module _ {E : Type 0} where
  pub Gives-refuse_if : (b : Bool) (e : E) → Gives (λ done. b ≡ false) (refuse_if b e)
  Gives-refuse_if true e = gives_err
  Gives-refuse_if false e = gives refl

  pub Gives-read : (lo hi : ℕ) (xs : Bytes) → HasBytes xs → Gives {E = E} HasBytes (read lo hi xs)
  unfolding read slice
  Gives-read lo hi xs h = elim (Bool-cases (leb lo hi && leb hi (length xs))) [
    | inl inside ↦
        rw inside (gives (All-take IsByte (hi - lo) (drop lo xs) (All-drop IsByte lo xs h)))
    | inr outside ↦ rw outside gives_panic
  ]

  pub Gives-write :
      (lo hi : ℕ) (src xs : Bytes)
      → HasBytes src
      → HasBytes xs
      → Gives {E = E} HasBytes (write lo hi src xs)
  unfolding write copy_slice
  Gives-write lo hi src xs s h =
      elim (Bool-cases (leb lo hi && (leb hi (length xs) && hi - lo == length src))) [
        | inl inside ↦ rw inside (
            gives (
              All-append IsByte (take lo xs) (src ++ drop hi xs) (All-take IsByte lo xs h)
                (All-append IsByte src (drop hi xs) s (All-drop IsByte hi xs h))))
        | inr outside ↦ rw outside gives_panic
      ]

  pub Gives-write-length :
      (lo hi : ℕ) (src xs : Bytes) → Gives {E = E} (Sized (length xs)) (write lo hi src xs)
  unfolding write copy_slice
  Gives-write-length lo hi src xs =
      elim (Bool-cases (leb lo hi && (leb hi (length xs) && hi - lo == length src))) [
        | inl inside ↦ rw inside (
            gives (
              ground (
                arith,
                length-append (take lo xs) (src ++ drop hi xs),
                length-append src (drop hi xs),
                length-take lo xs,
                length-drop hi xs,
              )))
        | inr outside ↦ rw outside gives_panic
      ]
