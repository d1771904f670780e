-- ===== src/Plonk/Lagrange.antt =====
-- `lagrange_1` under the laws of a field.
use zkasper_solana.Base.{ℕ, zero, suc, ◌≡◌, refl, sym, ap, ◌∙◌, ◌+◌, ◌^◌, some, arith, subst}
use zkasper_solana.Base.Result.{Result, ok, >>=-eq-ok, ok-injective, ok_or, ok_or-eq-ok}
use zkasper_solana.Errors.{ZkasperError}
use zkasper_solana.Plonk.Backend.{Backend, ScalarField}
use zkasper_solana.Plonk.Encoding.{failed}
use zkasper_solana.Plonk.Group.{fr_bytes}
use zkasper_solana.Plonk.Proof.{Proof}
use zkasper_solana.Plonk.Transcript.{
  Challenges, challenges, square_times, squeeze, challenge_beta, challenge_alpha, challenge_xi,
  challenge_v, challenge_u,
}
use zkasper_solana.Plonk.Verify.{lagrange_1}
use zkasper_solana.Plonk.Vk
use native.Mathlib.Nat.{pow-suc}

-- The laws that are used of the field: multiplication, its unit, and the inverse.
pub record IsField (f : ScalarField) : Type 0 where
  pub mul_comm : (x y : f.Fr) → f.mul x y ≡ f.mul y x
  pub mul_assoc : (x y z : f.Fr) → f.mul (f.mul x y) z ≡ f.mul x (f.mul y z)
  pub mul_one : (x : f.Fr) → f.mul x (f.from_int 1) ≡ x
  pub inverted : (x y : f.Fr) → f.inverse x ≡ some y → f.mul y x ≡ f.from_int 1

module _ (f : ScalarField) where
  pub power : f.Fr → ℕ → f.Fr
  power x zero = f.from_int 1
  power x (suc n) = f.mul x (power x n)

module _ (f : ScalarField) (laws : IsField f) where
  power_square : (x : f.Fr) (n : ℕ) → power f (f.mul x x) n ≡ power f x (n + n)
  unfolding power
  power_square x zero = refl
  power_square x (suc n) =
      let e : suc (suc (n + n)) ≡ suc n + suc n = omega arith in
      laws.mul_assoc x x (power f (f.mul x x) n)
      ∙ ap (λ t. f.mul x (f.mul x t)) (power_square x n)
      ∙ ap (power f x) e

  -- The squarings raise to a power of two.
  square_times-power : (k : ℕ) (x : f.Fr) → square_times f k x ≡ power f x (2 ^ k)
  unfolding square_times power
  square_times-power zero x = sym (laws.mul_one x)
  square_times-power (suc k) x =
      let e : 2 ^ k + 2 ^ k ≡ 2 ^ suc k = omega (arith, pow-suc 2 k) in
      square_times-power k (f.mul x x) ∙ power_square x (2 ^ k) ∙ ap (power f x) e

  cancels :
      (den zh acc : f.Fr)
      → f.mul acc (f.mul zh den) ≡ f.from_int 1
      → f.mul den (f.mul (f.mul acc zh) zh) ≡ zh
  cancels den zh acc h =
      laws.mul_comm den (f.mul (f.mul acc zh) zh)
      ∙ laws.mul_assoc (f.mul acc zh) zh den
      ∙ ap (λ t. f.mul t (f.mul zh den)) (laws.mul_comm acc zh)
      ∙ laws.mul_assoc zh acc (f.mul zh den)
      ∙ ap (f.mul zh) h
      ∙ laws.mul_one zh

  lagrange_1-cancels :
      (c : Challenges f) (l : f.Fr)
      → lagrange_1 f c ≡ ok l
      → f.mul (f.mul (f.from_int Vk.n) (f.sub c.xi (f.from_int 1))) l ≡ c.zh
  unfolding lagrange_1
  lagrange_1-cancels c l e =
      let den = f.mul (f.from_int Vk.n) (f.sub c.xi (f.from_int 1)) in
      let (acc, inverse, e1) = >>=-eq-ok (ok_or failed (f.inverse (f.mul c.zh den))) _ e in
      ap (f.mul den) (sym (ok-injective e1))
      ∙ cancels den c.zh acc (
          laws.inverted (f.mul c.zh den) acc
            (ok_or-eq-ok failed (f.inverse (f.mul c.zh den)) inverse))

module _ (b : Backend) (laws : IsField b.scalar) where
  open b.scalar use {Fr, sub, mul, from_int}

  built-zh :
      (alpha beta gamma xi v1 u : Fr) (c : Challenges b.scalar)
      → ◌≡◌ {A = Result ZkasperError (Challenges b.scalar)}
          (ok (record {
            alpha = alpha;
            alpha2 = mul alpha alpha;
            beta = beta;
            gamma = gamma;
            xi = xi;
            xin = square_times b.scalar Vk.power xi;
            beta_xi = mul beta xi;
            zh = sub (square_times b.scalar Vk.power xi) (from_int 1);
            v1 = v1;
            v2 = mul v1 v1;
            v3 = mul (mul v1 v1) v1;
            v4 = mul (mul (mul v1 v1) v1) v1;
            v5 = mul (mul (mul (mul v1 v1) v1) v1) v1;
            u = u;
          }))
          (ok c)
      → c.zh ≡ sub (square_times b.scalar Vk.power c.xi) (from_int 1)
  built-zh alpha beta gamma xi v1 u c e =
      subst (λ k. k.zh ≡ sub (square_times b.scalar Vk.power k.xi) (from_int 1)) (ok-injective e)
        refl

  challenges-zh :
      (proof : Proof b.scalar) (pi : Fr) (c : Challenges b.scalar)
      → challenges {E = ZkasperError} b proof pi ≡ ok c
      → c.zh ≡ sub (square_times b.scalar Vk.power c.xi) (from_int 1)
  unfolding challenges
  challenges-zh proof pi c e =
      let (beta, s0, e0) = >>=-eq-ok (challenge_beta b proof pi) _ e in
      let (beta_bytes, s1, e1) = >>=-eq-ok (fr_bytes b.scalar beta) _ e0 in
      let (gamma, s2, e2) = >>=-eq-ok (squeeze b beta_bytes) _ e1 in
      let (alpha, s3, e3) = >>=-eq-ok (challenge_alpha b proof beta gamma) _ e2 in
      let (xi, s4, e4) = >>=-eq-ok (challenge_xi b proof alpha) _ e3 in
      let (v1, s5, e5) = >>=-eq-ok (challenge_v b proof xi) _ e4 in
      let (u, s6, e6) = >>=-eq-ok (challenge_u b proof) _ e5 in
      built-zh alpha beta gamma xi v1 u c e6

  -- In a field, the value that the verifier computes for its challenges is the L of
  -- n (xi - 1) L = xi^n - 1, with n = 2^24 the size of the circuit's domain: the first Lagrange
  -- polynomial of the domain at xi.
  pub lagrange_1-solves :
      (proof : Proof b.scalar) (pi : Fr) (c : Challenges b.scalar) (l : Fr)
      → challenges {E = ZkasperError} b proof pi ≡ ok c
      → lagrange_1 b.scalar c ≡ ok l
      → mul (mul (from_int Vk.n) (sub c.xi (from_int 1))) l
        ≡ sub (power b.scalar c.xi Vk.n) (from_int 1)
  lagrange_1-solves proof pi c l squeezed e =
      lagrange_1-cancels b.scalar laws c l e
      ∙ challenges-zh proof pi c squeezed
      ∙ ap (λ t. sub t (from_int 1)) (square_times-power b.scalar laws Vk.power c.xi)
