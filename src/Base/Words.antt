-- ===== src/Base/Words.antt =====
-- Fixed-width words as byte strings: little-endian and big-endian, both ways.
use Prim.Native.Nat.{ℕ, zero, suc, ◌+◌, ◌*◌, ◌/◌, ◌%◌, ◌^◌, ◌<◌}
use mathlib.Core.Path.{◌≡◌, refl, ap, ◌∙◌}
use mathlib.Core.List.{[], ◌∷◌, reverse, reverse-reverse}
use native.Mathlib.Omega.{arith}
use native.Mathlib.Nat.{pow-suc}
use package.zkasper_solana.Base.Lists.{length, All, All-reverse, length-reverse}
use package.zkasper_solana.Base.Slices.{Bytes}

abbrev pub IsByte : ℕ → Type 0
IsByte b = b < 256

-- A value of the type `[u8; n]`.
pub record IsArray (n : ℕ) (xs : Bytes) : Type 0 where
  pub sized : length xs ≡ n
  pub bytes : All IsByte xs

abbrev pub IsU64 : ℕ → Type 0
IsU64 x = x < 2 ^ 64

-- `to_le_bytes` of a word of `n` bytes.
unfoldable pub to_le_bytes : ℕ → ℕ → Bytes
to_le_bytes zero x = []
to_le_bytes (suc n) x = (x % 256) ∷ to_le_bytes n (x / 256)

-- `from_le_bytes`
unfoldable pub from_le_bytes : Bytes → ℕ
from_le_bytes [] = 0
from_le_bytes (b ∷ bs) = b + 256 * from_le_bytes bs

-- `from_be_bytes` and `to_be_bytes`
unfoldable pub from_be_bytes : Bytes → ℕ
from_be_bytes bs = from_le_bytes (reverse bs)

unfoldable pub to_be_bytes : ℕ → ℕ → Bytes
to_be_bytes n x = reverse (to_le_bytes n x)

pub length-to_le_bytes : (n x : ℕ) → length (to_le_bytes n x) ≡ n
unfolding to_le_bytes
length-to_le_bytes zero x = refl
length-to_le_bytes (suc n) x = ap suc (length-to_le_bytes n (x / 256))

pub length-to_be_bytes : (n x : ℕ) → length (to_be_bytes n x) ≡ n
unfolding to_be_bytes
length-to_be_bytes n x = omega (arith, length-reverse (to_le_bytes n x), length-to_le_bytes n x)

pub to_le_bytes-IsArray : (n x : ℕ) → IsArray n (to_le_bytes n x)
unfolding to_le_bytes
to_le_bytes-IsArray zero x = record { sized = refl; bytes = tt }
to_le_bytes-IsArray (suc n) x =
    let rest = to_le_bytes-IsArray n (x / 256) in
    record { sized = ap suc rest.sized; bytes = (omega arith, rest.bytes) }

pub from_le_bytes-to_le_bytes : (n x : ℕ) → x < 256 ^ n → from_le_bytes (to_le_bytes n x) ≡ x
unfolding to_le_bytes from_le_bytes
from_le_bytes-to_le_bytes zero x h = omega arith
from_le_bytes-to_le_bytes (suc n) x h =
    omega (arith, from_le_bytes-to_le_bytes n (x / 256) (omega (arith, pow-suc 256 n)))

pub from_le_bytes-lt : (bs : Bytes) → All IsByte bs → from_le_bytes bs < 256 ^ length bs
unfolding from_le_bytes
from_le_bytes-lt [] h = omega arith
from_le_bytes-lt (b ∷ bs) h = omega (arith, from_le_bytes-lt bs h.1, pow-suc 256 (length bs))

pub to_le_bytes-from_le_bytes :
    (n : ℕ) (bs : Bytes) → IsArray n bs → to_le_bytes n (from_le_bytes bs) ≡ bs
unfolding to_le_bytes from_le_bytes
to_le_bytes-from_le_bytes zero [] h = refl
to_le_bytes-from_le_bytes zero (b ∷ bs) h = absurd (omega (arith, h.sized))
to_le_bytes-from_le_bytes (suc n) [] h = absurd (omega (arith, h.sized))
to_le_bytes-from_le_bytes (suc n) (b ∷ bs) h =
    let byte : IsByte b = h.bytes.0 in
    let low : (b + 256 * from_le_bytes bs) % 256 ≡ b = omega arith in
    let high : (b + 256 * from_le_bytes bs) / 256 ≡ from_le_bytes bs = omega arith in
    let rest : IsArray n bs = record { sized = omega (arith, h.sized); bytes = h.bytes.1 } in
    rw (low, high) (ap (λ t. b ∷ t) (to_le_bytes-from_le_bytes n bs rest))

pub from_be_bytes-to_be_bytes : (n x : ℕ) → x < 256 ^ n → from_be_bytes (to_be_bytes n x) ≡ x
unfolding from_be_bytes to_be_bytes
from_be_bytes-to_be_bytes n x h =
    ap from_le_bytes (reverse-reverse (to_le_bytes n x)) ∙ from_le_bytes-to_le_bytes n x h

reverse-IsArray : (n : ℕ) (bs : Bytes) → IsArray n bs → IsArray n (reverse bs)
reverse-IsArray n bs h = record {
  sized = length-reverse bs ∙ h.sized;
  bytes = All-reverse IsByte bs h.bytes;
}

pub to_be_bytes-from_be_bytes :
    (n : ℕ) (bs : Bytes) → IsArray n bs → to_be_bytes n (from_be_bytes bs) ≡ bs
unfolding from_be_bytes to_be_bytes
to_be_bytes-from_be_bytes n bs h =
    ap reverse (to_le_bytes-from_le_bytes n (reverse bs) (reverse-IsArray n bs h))
    ∙ reverse-reverse bs

-- The eight bytes of a `u64`.
abbrev pub u64_bytes : ℕ → Bytes
u64_bytes x = to_le_bytes 8 x

pub u64_round_trip : (x : ℕ) → IsU64 x → from_le_bytes (u64_bytes x) ≡ x
u64_round_trip x h = from_le_bytes-to_le_bytes 8 x (omega arith)

pub from_le_bytes-IsU64 : (bs : Bytes) → IsArray 8 bs → IsU64 (from_le_bytes bs)
from_le_bytes-IsU64 bs h = omega (arith, from_le_bytes-lt bs h.bytes, ap (λ k. 256 ^ k) h.sized)
