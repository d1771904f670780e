-- ===== src/Base/Only.antt =====
-- Code that refuses with one error only.
use zkasper_solana.Base.{ℕ, ◌≡◌, refl, Bool, true, false, Option, none, some, if◌then◌else◌}
use zkasper_solana.Base.Slices.{Bytes, slice, copy_slice}
use zkasper_solana.Base.Result.{Result, ok, err, panic, ◌>>=◌, refuse_if, ok_or, unwrap, map_err}
use zkasper_solana.Base.Memory.{read, write}

-- A result that, if it is an error, is `e`.
pub data Only {E : Type 0} {A : Type 0} (e : E) : Result E A → Type 0 where
  only_ok : (a : A) → Only e (ok a)
  only_panic : Only e panic
  only_err : Only e (err e)

module _ {E : Type 0} {A : Type 0} {e : E} where
  pub Only-bind :
      {B : Type 0} (m : Result E A) (k : A → Result E B)
      → Only e m
      → ((a : A) → Only e (k a))
      → Only e (m >>= k)
  Only-bind (ok a) k first next = next a
  Only-bind (err f) k only_err next = only_err
  Only-bind panic k first next = only_panic

  pub Only-if : (b : Bool) (m n : Result E A) → Only e m → Only e n → Only e (if b then m else n)
  Only-if true m n p q = p
  Only-if false m n p q = q

  pub Only-ok_or : (o : Option A) → Only e (ok_or e o)
  Only-ok_or none = only_err
  Only-ok_or (some a) = only_ok a

  pub Only-unwrap : (o : Option A) → Only e (unwrap {E = E} o)
  Only-unwrap none = only_panic
  Only-unwrap (some a) = only_ok a

  pub Only-map_err : {F : Type 0} (m : Result F A) → Only e (map_err (λ f. e) m)
  Only-map_err (ok a) = only_ok a
  Only-map_err (err f) = only_err
  Only-map_err panic = only_panic

  pub Only-eq-err : {f : E} → Only {A = A} e (err f) → f ≡ e
  Only-eq-err only_err = refl

module _ {E : Type 0} {e : E} where
  pub Only-refuse_if : (b : Bool) → Only e (refuse_if b e)
  Only-refuse_if true = only_err
  Only-refuse_if false = only_ok tt

  pub Only-read : (lo hi : ℕ) (xs : Bytes) → Only e (read {E = E} lo hi xs)
  unfolding read
  Only-read lo hi xs = Only-unwrap (slice lo hi xs)

  pub Only-write : (lo hi : ℕ) (src xs : Bytes) → Only e (write {E = E} lo hi src xs)
  unfolding write
  Only-write lo hi src xs = Only-unwrap (copy_slice lo hi src xs)

pub ruleset only_rules = (
  only_ok, only_err, Only-bind, Only-if, Only-ok_or, Only-unwrap, Only-map_err, Only-refuse_if,
  Only-read, Only-write,
)
