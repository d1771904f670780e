-- ===== src/Base/Agree.antt =====
-- Code that returns no error of its own has the same result whatever the error type is.
use zkasper_solana.Base.{ℕ, ◌≡◌, Bool, true, false, Option, none, some, if◌then◌else◌}
use zkasper_solana.Base.Slices.{Bytes, slice}
use zkasper_solana.Base.Result.{Result, ok, panic, ◌>>=◌, unwrap}
use zkasper_solana.Base.Memory.{read}

pub data Agree {E F : Type 0} {A : Type 0} : Result E A → Result F A → Type 0 where
  returned : {a : A} → Agree (ok a) (ok a)
  panicked : Agree panic panic

module _ {E F : Type 0} {A : Type 0} where
  pub Agree-bind :
      {B : Type 0} {m : Result E A} {n : Result F A} {k : A → Result E B} {l : A → Result F B}
      → Agree m n
      → ((a : A) → Agree (k a) (l a))
      → Agree (m >>= k) (n >>= l)
  Agree-bind returned next = next _
  Agree-bind panicked next = panicked

  pub Agree-if :
      {x y : Result E A} {x' y' : Result F A} (b : Bool)
      → Agree x x'
      → Agree y y'
      → Agree (if b then x else y) (if b then x' else y')
  Agree-if true p q = p
  Agree-if false p q = q

  pub Agree-eq-ok : {m : Result E A} {n : Result F A} {a : A} → Agree m n → m ≡ ok a → n ≡ ok a
  Agree-eq-ok returned e = cc
  Agree-eq-ok panicked e = cc

  pub unwrap-Agree : (o : Option A) → Agree (unwrap {E = E} o) (unwrap {E = F} o)
  unwrap-Agree none = panicked
  unwrap-Agree (some a) = returned

module _ {E F : Type 0} where
  pub read-Agree : (lo hi : ℕ) (xs : Bytes) → Agree (read {E = E} lo hi xs) (read {E = F} lo hi xs)
  unfolding read
  read-Agree lo hi xs = unwrap-Agree (slice lo hi xs)
