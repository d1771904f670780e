-- ===== src/Base/Text.antt =====
-- Text as its bytes in UTF-8: `b"…"`, and the searches of `str`.
use Prim.Native.Char.{code}
use Prim.Native.String.{String}
use zkasper_solana.Base.{
  ℕ, zero, suc, ◌≡◌, ◌+◌, ◌-◌, ◌*◌, map, ◌≤◌, ◌<◌, ◌==◌, ◌&&◌, ltb, leb, Bool, true, false, Option,
  none, some, List, [], ◌∷◌, length, drop, if◌then◌else◌, arith, Bool-cases, Option-cases, inl, inr,
  subst,
}
use zkasper_solana.Base.Slices.{Bytes}
use mathlib.Core.List.{reverse}

-- The bytes of an ASCII literal.
abbrev pub codes : String → Bytes
codes String.[] = []
codes (String.◌∷◌ c s) = code c ∷ codes s

-- `text.starts_with(needle)`
unfoldable pub starts_with : Bytes → Bytes → Bool
starts_with [] text = true
starts_with (c ∷ needle) [] = false
starts_with (c ∷ needle) (d ∷ text) = (c == d) && starts_with needle text

-- `text.find(needle)`: the offset of the first occurrence.
unfoldable pub find : Bytes → Bytes → Option ℕ
find needle [] = if starts_with needle [] then some 0 else none
find needle (c ∷ text) =
    let rest = find needle text in if starts_with needle (c ∷ text) then some 0 else next rest
  where
    next : Option ℕ → Option ℕ
    next none = none
    next (some i) = some (suc i)

-- The text behind the first of the needles that it starts with.
unfoldable pub strip_any : List Bytes → Bytes → Option Bytes
strip_any [] text = none
strip_any (needle ∷ needles) text =
    if starts_with needle text then some (drop (length needle) text) else strip_any needles text

-- Needles go from the front while there is one; none is empty, so there are at most as many as the
-- text has bytes.
unfoldable pub trim_copies : ℕ → List Bytes → Bytes → Bytes
trim_copies zero needles text = text
trim_copies (suc most) needles text = again (trim_copies most needles) (strip_any needles text)
  where
    again : (Bytes → Bytes) → Option Bytes → Bytes
    again trim_rest none = text
    again trim_rest (some rest) = trim_rest rest

unfoldable pub trim_front : List Bytes → Bytes → Bytes
trim_front needles text = trim_copies (length text) needles text

unfoldable pub trim_back : List Bytes → Bytes → Bytes
trim_back needles text = reverse (trim_front (map reverse needles) (reverse text))

-- `text.trim_start_matches(needle)` and `text.trim_end_matches(needle)`
unfoldable pub trim_start_matches : Bytes → Bytes → Bytes
trim_start_matches needle text = trim_front (needle ∷ []) text

unfoldable pub trim_end_matches : Bytes → Bytes → Bytes
trim_end_matches needle text = trim_back (needle ∷ []) text

-- The characters that Unicode calls white space.
abbrev white_space : List Bytes
white_space =
    (0x09 ∷ [])
    ∷ (0x0a ∷ [])
    ∷ (0x0b ∷ [])
    ∷ (0x0c ∷ [])
    ∷ (0x0d ∷ [])
    ∷ (0x20 ∷ [])
    ∷ (0xc2 ∷ 0x85 ∷ [])
    ∷ (0xc2 ∷ 0xa0 ∷ [])
    ∷ (0xe1 ∷ 0x9a ∷ 0x80 ∷ [])
    ∷ (0xe2 ∷ 0x80 ∷ 0x80 ∷ [])
    ∷ (0xe2 ∷ 0x80 ∷ 0x81 ∷ [])
    ∷ (0xe2 ∷ 0x80 ∷ 0x82 ∷ [])
    ∷ (0xe2 ∷ 0x80 ∷ 0x83 ∷ [])
    ∷ (0xe2 ∷ 0x80 ∷ 0x84 ∷ [])
    ∷ (0xe2 ∷ 0x80 ∷ 0x85 ∷ [])
    ∷ (0xe2 ∷ 0x80 ∷ 0x86 ∷ [])
    ∷ (0xe2 ∷ 0x80 ∷ 0x87 ∷ [])
    ∷ (0xe2 ∷ 0x80 ∷ 0x88 ∷ [])
    ∷ (0xe2 ∷ 0x80 ∷ 0x89 ∷ [])
    ∷ (0xe2 ∷ 0x80 ∷ 0x8a ∷ [])
    ∷ (0xe2 ∷ 0x80 ∷ 0xa8 ∷ [])
    ∷ (0xe2 ∷ 0x80 ∷ 0xa9 ∷ [])
    ∷ (0xe2 ∷ 0x80 ∷ 0xaf ∷ [])
    ∷ (0xe2 ∷ 0x81 ∷ 0x9f ∷ [])
    ∷ (0xe3 ∷ 0x80 ∷ 0x80 ∷ [])
    ∷ []

-- `text.trim()`
unfoldable pub trim : Bytes → Bytes
trim text = trim_back white_space (trim_front white_space text)

-- `text.split(c)` for an ASCII character
unfoldable pub split_on : ℕ → Bytes → List Bytes
split_on c [] = [] ∷ []
split_on c (d ∷ text) = let rest = split_on c text in if d == c then [] ∷ rest else onto rest
  where
    onto : List Bytes → List Bytes
    onto [] = (d ∷ []) ∷ []
    onto (piece ∷ pieces) = (d ∷ piece) ∷ pieces

-- Decimal digits behind `acc`, with every sum below `limit`.
unfoldable pub parse_digits : ℕ → Bytes → ℕ → Option ℕ
parse_digits limit [] acc = some acc
parse_digits limit (c ∷ text) acc =
    let sum = acc * 10 + (c - 48) in
    let rest = parse_digits limit text sum in
    if leb 48 c && leb c 57 && ltb sum limit then rest else none

-- `text.parse()` for an unsigned integer below `limit`
unfoldable pub parse : ℕ → Bytes → Option ℕ
parse limit [] = none
parse limit (c ∷ text) = if c == 43 then signed text else parse_digits limit (c ∷ text) 0
  where
    signed : Bytes → Option ℕ
    signed [] = none
    signed (d ∷ digits) = parse_digits limit (d ∷ digits) 0

-- A text of the form in which the needle occurs at `i` and not before.
pub record First (needle text : Bytes) (i : ℕ) : Type 0 where
  pub here : starts_with needle (drop i text) ≡ true
  pub before : (j : ℕ) → j < i → starts_with needle (drop j text) ≡ false
  pub inside : i ≤ length text

pub find-First : (needle text : Bytes) (i : ℕ) → First needle text i → find needle text ≡ some i
unfolding find
find-First needle [] zero f = rw (f.here)
find-First needle [] (suc i) f = absurd (omega (arith, f.inside))
find-First needle (c ∷ text) zero f = rw (f.here)
find-First needle (c ∷ text) (suc i) f =
    let rest : First needle text i = record {
      here = f.here;
      before = λ j lt. f.before (suc j) (omega arith);
      inside = omega (arith, f.inside);
    } in
    rw (f.before 0 (omega arith), find-First needle text i rest)

pub starts_with-fits :
    (needle text : Bytes) → starts_with needle text ≡ true → length needle ≤ length text
unfolding starts_with
starts_with-fits [] text h = omega arith
starts_with-fits (c ∷ needle) [] h = cc
starts_with-fits (c ∷ needle) (d ∷ text) h = ground (arith, starts_with-fits needle text)

at_front :
    (needle text : Bytes) (i : ℕ)
    → starts_with needle text ≡ true
    → some zero ≡ some i
    → First needle text i
at_front needle text zero here e = record {
  here = here;
  before = λ j lt. absurd (omega arith);
  inside = omega arith;
}
at_front needle text (suc i) here e = cc

further :
    (needle : Bytes) (c : ℕ) (text : Bytes) (i : ℕ)
    → starts_with needle (c ∷ text) ≡ false
    → First needle text i
    → First needle (c ∷ text) (suc i)
further needle c text i other f = record {
  here = f.here;
  before = before;
  inside = omega (arith, f.inside);
}
  where
    before : (j : ℕ) → j < suc i → starts_with needle (drop j (c ∷ text)) ≡ false
    before zero lt = other
    before (suc j) lt = f.before j (omega arith)

-- What the search answers is the first occurrence.
pub find-eq-some : (needle text : Bytes) (i : ℕ) → find needle text ≡ some i → First needle text i
unfolding find
find-eq-some needle [] i e = elim (Bool-cases (starts_with needle [])) [
  | inl here ↦ at_front needle [] i here (rw here at e)
  | inr other ↦ cc (rw other at e)
]
find-eq-some needle (c ∷ text) i e = elim (Bool-cases (starts_with needle (c ∷ text))) [
  | inl here ↦ at_front needle (c ∷ text) i here (rw here at e)
  | inr other ↦ elim (Option-cases (find needle text)) [
    | inl nothing ↦ cc (rw (other, nothing) at e)
    | inr (k, found) ↦
        let place : some (suc k) ≡ some i = rw (other, found) at e in
        subst (First needle (c ∷ text)) (some-injective place)
          (further needle c text k other (find-eq-some needle text k found))
  ]
]
  where
    some-injective : {a b : ℕ} → some a ≡ some b → a ≡ b
    some-injective e = cc

parse_digits-lt :
    (limit : ℕ) (text : Bytes) (acc n : ℕ)
    → acc < limit
    → parse_digits limit text acc ≡ some n
    → n < limit
unfolding parse_digits
parse_digits-lt limit [] acc n h e = subst (λ k. k < limit) (some-injective e) h
  where
    some-injective : {a b : ℕ} → some a ≡ some b → a ≡ b
    some-injective e = cc
parse_digits-lt limit (c ∷ text) acc n h e =
    let sum = acc * 10 + (c - 48) in
    elim (Bool-cases (leb 48 c && leb c 57 && ltb sum limit)) [
      | inl digit ↦ parse_digits-lt limit text sum n (ground arith) (rw digit at e)
      | inr other ↦ cc (rw other at e)
    ]

-- A number that is read is within the type's bound.
pub parse-lt :
    (limit : ℕ) (text : Bytes) (n : ℕ) → 0 < limit → parse limit text ≡ some n → n < limit
unfolding parse
parse-lt limit [] n h e = cc
parse-lt limit (c ∷ text) n h e = elim (Bool-cases (c == 43)) [
  | inl plus ↦ signed text (rw plus at e)
  | inr first ↦ parse_digits-lt limit (c ∷ text) 0 n h (rw first at e)
]
  where
    signed : (text : Bytes) → parse limit (43 ∷ text) ≡ some n → n < limit
    signed [] e = cc
    signed (d ∷ digits) e = parse_digits-lt limit (d ∷ digits) 0 n h e
