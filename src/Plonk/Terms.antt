-- ===== src/Plonk/Terms.antt =====
-- Combinations of group elements, and what the code's calls of the syscalls make of them.
use zkasper_solana.Base.{
  ℕ, ◌≡◌, refl, sym, ap, ◌∙◌, ◌-◌, ◌≤◌, leb, ◌==◌, ◌&&◌, Bool-cases, inl, inr, [], ◌++◌, some,
  length, take, drop, drop-all, append-nil, length-append, length-take, length-drop, take-all,
  arith, if◌then◌else◌,
}
use zkasper_solana.Base.Slices.{Bytes, copy_slice, written, written-take}
use zkasper_solana.Base.Result.{ok, ok-injective}
use zkasper_solana.Base.Gives.{Gives, Gives-bind, Gives-known, Gives-ok_or}
use zkasper_solana.Base.Memory.{read, write, write-written, zeros, length-zeros, read_in_range}
use zkasper_solana.Errors.{ZkasperError}
use zkasper_solana.Plonk.Backend.{Backend}
use zkasper_solana.Plonk.Encoding.{failed}
use zkasper_solana.Plonk.Group.{fr_bytes, g1_neg, g1_mul, g1_add, g1_mul_acc}

-- A write that returns was of as many bytes as the range has, inside the array.
write-fits :
    {E : Type 0} (lo hi : ℕ) (src xs out : Bytes)
    → write {E = E} lo hi src xs ≡ ok out
    → (length src ≡ hi - lo) × (lo ≤ hi) × (hi ≤ length xs)
unfolding write copy_slice
write-fits lo hi src xs out e =
    elim (Bool-cases (leb lo hi && (leb hi (length xs) && hi - lo == length src))) [
      | inl inside ↦ (ground (arith, inside), ground (arith, inside), ground (arith, inside))
      | inr outside ↦ cc (rw outside at e)
    ]

-- A write right behind the front that is already there.
pub write-extends :
    {E : Type 0} (pre src xs out : Bytes) (lo hi : ℕ)
    → lo ≡ length pre
    → lo ≤ hi
    → hi ≤ length xs
    → write {E = E} lo hi src (written pre xs) ≡ ok out
    → (out ≡ written (pre ++ src) xs) × (length src ≡ hi - lo)
write-extends {E} pre src xs out lo hi p h k e =
    let (sized, ordered, inside) = write-fits lo hi src (written pre xs) out e in
    (
      ok-injective {E = E}
          (sym e ∙ write-written {E = E} pre src xs lo hi p (omega (arith, sized)) k),
      sized,
    )

-- A front that fills the array is all of it.
pub written-full : (front xs : Bytes) → length front ≡ length xs → written front xs ≡ front
written-full front xs h =
    ap (λ t. front ++ t) (drop-all (length front) xs (omega (arith, h))) ∙ append-nil front

-- One piece that fills an array.
pub filled :
    {E : Type 0} (n : ℕ) (src out : Bytes)
    → write {E = E} 0 n src (zeros n) ≡ ok out
    → (out ≡ src) × (length src ≡ n)
filled {E} n src out e =
    let (out_is, sized) =
      write-extends {E = E} [] src (zeros n) out 0 n refl (omega arith)
        (omega (arith, length-zeros n)) e in
    (
      out_is ∙ written-full src (zeros n) (omega (arith, sized, length-zeros n)),
      omega (arith, sized),
    )

-- Two pieces that fill an array.
pair_filled :
    {E : Type 0} (k n : ℕ) (p q mid out : Bytes)
    → k ≤ n
    → write {E = E} 0 k p (zeros n) ≡ ok mid
    → write {E = E} k n q mid ≡ ok out
    → out ≡ p ++ q
pair_filled {E} k n p q mid out h first second =
    let (mid_is, p_sized) =
      write-extends {E = E} [] p (zeros n) mid 0 k refl (omega arith)
        (omega (arith, length-zeros n)) first in
    let second_at = ap (write {E = E} k n q) (sym mid_is) ∙ second in
    let (out_is, q_sized) =
      write-extends {E = E} p q (zeros n) out k n (omega (arith, p_sized)) h
        (omega (arith, length-zeros n)) second_at in
    out_is
    ∙ written-full (p ++ q) (zeros n)
        (omega (arith, p_sized, q_sized, h, length-append p q, length-zeros n))

module _ (b : Backend) where
  open b.scalar use {Fr}
  open b.base use {neg, is_zero, from_be_bytes_mod_order, to_bytes_be}

  -- A combination of group elements.
  pub data Term : Type 0 where
    point : Bytes → Term
    plus : Term → Term → Term
    times : Fr → Term → Term
    minus : Term → Term

  -- The point with y negated, or with y = 0 as it is.
  abbrev pub opposite : Bytes → Bytes
  opposite p =
      if is_zero (from_be_bytes_mod_order (drop 32 p))
      then p
      else take 32 p ++ to_bytes_be (neg (from_be_bytes_mod_order (drop 32 p)))

  -- `r` is what the syscalls make of the combination: the addition of the two points side by side, the
  -- multiplication of the point with the 32 bytes of the scalar behind it.
  pub data Evaluates : Term → Bytes → Type 0 where
    at : {p : Bytes} → Evaluates (point p) p
    sum :
        {t u : Term} {p q r : Bytes}
        → Evaluates t p
        → Evaluates u q
        → b.syscalls.g1_addition (p ++ q) ≡ some r
        → Evaluates (plus t u) r
    product :
        {s : Fr} {t : Term} {p word r : Bytes}
        → Evaluates t p
        → fr_bytes {E = ZkasperError} b.scalar s ≡ ok word
        → b.syscalls.g1_multiplication (p ++ word) ≡ some r
        → Evaluates (times s t) r
    negated : {t : Term} {p r : Bytes} → Evaluates t p → opposite p ≡ r → Evaluates (minus t) r

  -- The value of a combination, in the 64 bytes of a point.
  abbrev pub ValueOf : Term → Bytes → Type 0
  ValueOf t r = Evaluates t r × (length r ≡ 64)

  pub g1_add-Evaluates :
      {t u : Term} {p q : Bytes}
      → Evaluates t p
      → Evaluates u q
      → Gives (ValueOf (plus t u)) (g1_add b p q)
  unfolding g1_add
  g1_add-Evaluates {p = p} {q = q} tp uq =
      Gives-bind (Gives-known (write 0 64 p (zeros 128)) λ mid e. e) λ mid s0.
        Gives-bind (Gives-known (write 64 128 q mid) λ input e. e) λ input s1.
          Gives-bind (Gives-ok_or failed (b.syscalls.g1_addition input) λ r e. e) λ r s2.
            Gives-known (write 0 64 r (zeros 64)) λ out s3.
              let (out_is, sized) = filled 64 r out s3 in
              let input_is = pair_filled 64 128 p q mid input (omega arith) s0 s1 in
              (
                sum tp uq (ap b.syscalls.g1_addition (sym input_is) ∙ s2 ∙ ap some (sym out_is)),
                ap length out_is ∙ sized,
              )

  pub g1_mul-Evaluates :
      {t : Term} {p : Bytes} (s : Fr) → Evaluates t p → Gives (ValueOf (times s t)) (g1_mul b p s)
  unfolding g1_mul
  g1_mul-Evaluates {p = p} s tp =
      Gives-bind (Gives-known (write 0 64 p (zeros 96)) λ mid e. e) λ mid s0.
        Gives-bind (Gives-known (fr_bytes b.scalar s) λ word e. e) λ word s1.
          Gives-bind (Gives-known (write 64 96 word mid) λ input e. e) λ input s2.
            Gives-bind (Gives-ok_or failed (b.syscalls.g1_multiplication input) λ r e. e) λ r s3.
              Gives-known (write 0 64 r (zeros 64)) λ out s4.
                let (out_is, sized) = filled 64 r out s4 in
                let input_is = pair_filled 64 96 p word mid input (omega arith) s0 s2 in
                (
                  product tp s1
                      (ap b.syscalls.g1_multiplication (sym input_is) ∙ s3 ∙ ap some (sym out_is)),
                  ap length out_is ∙ sized,
                )

  pub g1_mul_acc-Evaluates :
      {t u : Term} {p q : Bytes} (s : Fr)
      → Evaluates t p
      → Evaluates u q
      → Gives (ValueOf (plus t (times s u))) (g1_mul_acc b p q s)
  unfolding g1_mul_acc
  g1_mul_acc-Evaluates s tp uq = Gives-bind (g1_mul-Evaluates s uq) λ r v. g1_add-Evaluates tp v.0

  pub g1_neg-Evaluates :
      {t : Term} {p : Bytes}
      → ValueOf t p
      → Gives (ValueOf (minus t)) (g1_neg {E = ZkasperError} b.base p)
  unfolding g1_neg
  g1_neg-Evaluates {p = p} v = Gives-known (g1_neg {E = ZkasperError} b.base p) λ r e.
      let e1 = rw (upper p v.1) at e in
      elim (Bool-cases (is_zero (from_be_bytes_mod_order (drop 32 p)))) [
        | inl vanishes ↦
            let same : p ≡ r = ok-injective {E = ZkasperError} (rw vanishes at e1) in
            (negated v.0 (rw vanishes same), ap length (sym same) ∙ v.1)
        | inr nonzero ↦
            let y = to_bytes_be (neg (from_be_bytes_mod_order (drop 32 p))) in
            let (r_is, sized) = replaced p y r v.1 (rw nonzero at e1) in
            (negated v.0 (rw nonzero r_is), sized)
      ]
    where
      upper : (p : Bytes) → length p ≡ 64 → read {E = ZkasperError} 32 64 p ≡ ok (drop 32 p)
      upper p sized =
          read_in_range {E = ZkasperError} 32 64 p (omega arith) (omega (arith, sized))
          ∙ ap ok (take-all 32 (drop 32 p) (omega (arith, sized, length-drop 32 p)))

      replaced :
          (p y r : Bytes)
          → length p ≡ 64
          → write {E = ZkasperError} 32 64 y p ≡ ok r
          → (take 32 p ++ y ≡ r) × (length r ≡ 64)
      replaced p y r sized e =
          let (r_is, y_sized) =
            write-extends {E = ZkasperError} (take 32 p) y p r 32 64
              (omega (arith, sized, length-take 32 p)) (omega arith) (omega (arith, sized))
              (ap (write {E = ZkasperError} 32 64 y) (written-take 32 p (omega (arith, sized)))
                ∙ e) in
          let whole =
            r_is
            ∙ written-full (take 32 p ++ y) p
                (omega (arith, y_sized, sized, length-append (take 32 p) y, length-take 32 p)) in
          (
            sym whole,
            ap length whole
                ∙ omega (arith, y_sized, sized, length-append (take 32 p) y, length-take 32 p),
          )
