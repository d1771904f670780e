-- ===== src/Tests/Field3.antt =====
-- The theorems on the scalar field, over the field of three elements.
use zkasper_solana.Base.{
  ℕ, zero, suc, ◌≡◌, refl, ◌%◌, ◌==◌, List, [], ◌∷◌, ◌++◌, Option, some, none, Bool, true, false,
  if◌then◌else◌, All, replicate, map, arith,
}
use zkasper_solana.Base.Slices.{Bytes, slice, copy_slice}
use zkasper_solana.Base.Result.{ok}
use zkasper_solana.Base.Layout.{concat}
use zkasper_solana.Base.Memory.{read, write, zeros}
use zkasper_solana.Base.Words.{IsU64, from_be_bytes, from_le_bytes, to_be_bytes, to_le_bytes}
use zkasper_solana.Errors.{ZkasperError}
use zkasper_solana.Plonk.Backend.{Backend, ScalarField}
use zkasper_solana.Plonk.Fields.{IsCanonical, word_of}
use zkasper_solana.Plonk.Group.{be_words, be_limbs, put_words, fr_canonical, fr_bytes, fr_reduce}
use zkasper_solana.Plonk.Lagrange.{IsField, power, lagrange_1-solves}
use zkasper_solana.Plonk.Parse.{evaluations, parse-canonical}
use zkasper_solana.Plonk.Proof.{Proof, parse, commitments}
use zkasper_solana.Plonk.Transcript.{
  Challenges, challenges, put_points, square_times, challenge_beta, challenge_alpha, challenge_xi,
  challenge_v, challenge_u,
}
use zkasper_solana.Plonk.Verify.{lagrange_1}
use zkasper_solana.Plonk.Vk
use zkasper_solana.Tests.LongRun.{array}
use zkasper_solana.Tests.Toy.{toy}

data F3 : Type 0 where
  nought : F3
  one : F3
  two : F3

abbrev times : F3 → F3 → F3
times nought y = nought
times one y = y
times two nought = nought
times two one = two
times two two = one

abbrev plus : F3 → F3 → F3
plus nought y = y
plus one nought = one
plus one one = two
plus one two = nought
plus two nought = two
plus two one = nought
plus two two = one

abbrev minus : F3 → F3
minus nought = nought
minus one = two
minus two = one

abbrev residue : ℕ → F3
residue n = if n % 3 == 0 then nought else if n % 3 == 1 then one else two

abbrev same : F3 → F3 → Bool
same nought nought = true
same one one = true
same two two = true
same _ _ = false

abbrev inverse : F3 → Option F3
inverse nought = none
inverse one = some one
inverse two = some two

abbrev limbs : F3 → List ℕ
limbs nought = 0 ∷ 0 ∷ 0 ∷ 0 ∷ []
limbs one = 1 ∷ 0 ∷ 0 ∷ 0 ∷ []
limbs two = 2 ∷ 0 ∷ 0 ∷ 0 ∷ []

abbrev from_limbs : List ℕ → Option F3
from_limbs (zero ∷ zero ∷ zero ∷ zero ∷ []) = some nought
from_limbs (suc zero ∷ zero ∷ zero ∷ zero ∷ []) = some one
from_limbs (suc (suc zero) ∷ zero ∷ zero ∷ zero ∷ []) = some two
from_limbs _ = none

abbrev field3 : ScalarField
field3 = record {
  Fr = F3;
  add = plus;
  sub = λ x y. plus x (minus y);
  mul = times;
  neg = minus;
  from_int = residue;
  inverse = inverse;
  from_bigint = from_limbs;
  into_bigint = limbs;
  eq = same;
  to_bytes_be = λ x. zeros 32;
}

times_comm : (x y : F3) → times x y ≡ times y x
times_comm x y = ground arith

times_assoc : (x y z : F3) → times (times x y) z ≡ times x (times y z)
times_assoc x y z = ground arith

times_one : (x : F3) → times x one ≡ x
times_one x = ground arith

inverse-one : (x y : F3) → inverse x ≡ some y → times y x ≡ one
inverse-one x y e = ground arith

field3-IsField : IsField field3
field3-IsField = record {
  mul_comm = times_comm;
  mul_assoc = times_assoc;
  mul_one = times_one;
  inverted = inverse-one;
}

limbs-U64 : (x : F3) → All IsU64 (limbs x)
limbs-U64 x = ground arith

from_limbs-limbs : (x : F3) → from_limbs (limbs x) ≡ some x
from_limbs-limbs x = ground arith

from_limbs_unique : (l : List ℕ) (x : F3) → from_limbs l ≡ some x → limbs x ≡ l
from_limbs_unique l x e = ground arith

field3-IsCanonical : IsCanonical field3
field3-IsCanonical = record {
  limbs = λ x. ground arith;
  words = limbs-U64;
  accepts = from_limbs-limbs;
  unique = from_limbs_unique;
}

abbrev raw : Bytes
raw = replicate 576 4 ++ (replicate 31 0 ++ (2 ∷ replicate 160 0))

abbrev backend3 : Backend
backend3 = record {
  scalar = field3;
  base = toy.backend.base;
  syscalls = record {
    g1_addition = toy.backend.syscalls.g1_addition;
    g1_multiplication = toy.backend.syscalls.g1_multiplication;
    pairing = toy.backend.syscalls.pairing;
    g1_compress = toy.backend.syscalls.g1_compress;
    g1_decompress = toy.backend.syscalls.g1_decompress;
    sha256 = toy.backend.syscalls.sha256;
    keccak = λ input. zeros 32;
  };
}

abbrev parsed : Proof field3
parsed = record {
  a = replicate 64 4;
  b = replicate 64 4;
  c = replicate 64 4;
  z = replicate 64 4;
  t1 = replicate 64 4;
  t2 = replicate 64 4;
  t3 = replicate 64 4;
  wxi = replicate 64 4;
  wxiw = replicate 64 4;
  eval_a = two;
  eval_b = nought;
  eval_c = nought;
  eval_s1 = nought;
  eval_s2 = nought;
  eval_zw = nought;
  raw = raw;
}

parses : parse field3 raw ≡ ok parsed
unfolding parse fr_canonical be_limbs be_words read slice from_be_bytes from_le_bytes
parses = refl

parse-canonical_example :
    concat
      (commitments field3 parsed)
      (concat (map (word_of field3 field3-IsCanonical) (evaluations field3 parsed)) [])
    ≡ raw
parse-canonical_example =
    parse-canonical field3 field3-IsCanonical raw (array 768 raw refl refl) parsed parses

-- With every digest zero the challenges are nought.
abbrev drawn : Challenges field3
drawn = record {
  alpha = nought;
  alpha2 = nought;
  beta = nought;
  gamma = nought;
  xi = nought;
  xin = nought;
  beta_xi = nought;
  zh = two;
  v1 = nought;
  v2 = nought;
  v3 = nought;
  v4 = nought;
  v5 = nought;
  u = nought;
}

draws : challenges {E = ZkasperError} backend3 parsed nought ≡ ok drawn
unfolding challenges challenge_beta challenge_alpha challenge_xi challenge_v challenge_u put_points
    square_times fr_reduce fr_bytes put_words read write zeros slice copy_slice from_be_bytes
    from_le_bytes to_be_bytes to_le_bytes
draws = refl

solved : lagrange_1 field3 drawn ≡ ok one
unfolding lagrange_1
solved = refl

lagrange_1-solves_example :
    times (times (residue Vk.n) (plus nought (minus one))) one
    ≡ plus (power field3 nought Vk.n) (minus one)
lagrange_1-solves_example =
    lagrange_1-solves backend3 field3-IsField parsed nought drawn one draws solved
