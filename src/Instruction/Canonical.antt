-- ===== src/Instruction/Canonical.antt =====
-- `unpack` on any data: what it refuses, and the encodings of what it accepts.
use zkasper_solana.Base.{
  ℕ, zero, suc, ◌≤◌, ◌≡◌, refl, sym, ap, ◌∙◌, ◌⊎◌, inl, inr, false, [], ◌∷◌, ◌++◌, length, take,
  drop, All, ◌==◌, ==_ne, arith, subst,
}
use zkasper_solana.Base.Slices.{Bytes}
use zkasper_solana.Base.Result.{ok, err, ok-injective}
use zkasper_solana.Base.Words.{
  from_le_bytes, to_le_bytes-from_le_bytes, from_le_bytes-IsU64, IsArray, IsByte,
}
use zkasper_solana.Base.Pieces.{concat-pieces, take-IsArray, drop-IsArray}
use zkasper_solana.Errors.{invalid_instruction_data}
use zkasper_solana.Wire.PublicBytes.{
  encode_output, output_of, output_of-IsOutput, encode_output-output_of,
}
use zkasper_solana.Instruction.{
  ZkasperInstruction, initialize, submit_finalization, assert_finalized, assert_anchored,
  verify_only, unpack, unpack_initialize, unpack_proof, unpack_assert_finalized,
  unpack_assert_anchored,
}
use zkasper_solana.Instruction.Payload.{encode_instruction, IsInstruction}
use zkasper_solana.Instruction.RoundTrip.{unpack-encode_instruction}
use native.Mathlib.Decide.{ℕ_discrete}

-- Data that decodes, and to what.
pub record Decoded (bytes : Bytes) (i : ZkasperInstruction) : Type 0 where
  pub decodes : unpack bytes ≡ ok i
  pub valid : IsInstruction i
  pub canonical : encode_instruction i ≡ bytes

decoded :
    (bytes : Bytes) (i : ZkasperInstruction)
    → IsInstruction i
    → encode_instruction i ≡ bytes
    → Decoded bytes i
decoded bytes i v e = record {
  decodes = ap unpack (sym e) ∙ unpack-encode_instruction i v;
  valid = v;
  canonical = e;
}

-- The instruction that the bytes behind each tag spell.
abbrev initialize_of : Bytes → ZkasperInstruction
initialize_of xs =
    let from_root = drop 32 xs in
    let from_epoch = drop 32 from_root in
    let from_block = drop 8 from_epoch in
    let from_vk = drop 32 from_block in
    initialize (take 32 xs) (take 32 from_root) (from_le_bytes (take 8 from_epoch))
      (take 32 from_block) (take 32 from_vk)

Decoded-initialize : (xs : Bytes) → IsArray 136 xs → Decoded (0 ∷ xs) (initialize_of xs)
Decoded-initialize xs h =
    decoded (0 ∷ xs) (initialize_of xs)
      (
        take-IsArray 136 32 _ (omega arith) h,
        take-IsArray 104 32 _ (omega arith) h1,
        from_le_bytes-IsU64 _ epoch,
        take-IsArray 64 32 _ (omega arith) h3,
        take-IsArray 32 32 _ (omega arith) h4,
      )
      (rw (to_le_bytes-from_le_bytes 8 _ epoch)
        (ap (λ t. 0 ∷ t) (concat-pieces (32 ∷ 32 ∷ 8 ∷ 32 ∷ 32 ∷ []) xs h.sized)))
  where
    h1 : IsArray 104 (drop 32 xs)
    h1 = drop-IsArray 136 32 xs h

    h2 : IsArray 72 (drop 32 (drop 32 xs))
    h2 = drop-IsArray 104 32 _ h1

    h3 : IsArray 64 (drop 8 (drop 32 (drop 32 xs)))
    h3 = drop-IsArray 72 8 _ h2

    h4 : IsArray 32 (drop 32 (drop 8 (drop 32 (drop 32 xs))))
    h4 = drop-IsArray 64 32 _ h3

    epoch : IsArray 8 (take 8 (drop 32 (drop 32 xs)))
    epoch = take-IsArray 72 8 _ (omega arith) h2

module _ (xs : Bytes) (h : IsArray 656 xs) where
  publics : IsArray 176 (take 176 (drop 480 xs))
  publics = take-IsArray 176 176 _ (omega arith) (drop-IsArray 656 480 xs h)

  proof_and_output :
      (tag : ℕ)
      → tag ∷ (take 480 xs ++ (encode_output (output_of (take 176 (drop 480 xs))) ++ [])) ≡ tag ∷ xs
  proof_and_output tag =
      rw (encode_output-output_of _ publics)
        (ap (λ t. tag ∷ t) (concat-pieces (480 ∷ 176 ∷ []) xs h.sized))

  Decoded-submit :
      Decoded (1 ∷ xs) (submit_finalization (take 480 xs) (output_of (take 176 (drop 480 xs))))
  Decoded-submit =
      decoded (1 ∷ xs) (submit_finalization (take 480 xs) (output_of (take 176 (drop 480 xs))))
        (take-IsArray 656 480 xs (omega arith) h, output_of-IsOutput _ publics) (proof_and_output 1)

  Decoded-verify : Decoded (4 ∷ xs) (verify_only (take 480 xs) (output_of (take 176 (drop 480 xs))))
  Decoded-verify =
      decoded (4 ∷ xs) (verify_only (take 480 xs) (output_of (take 176 (drop 480 xs))))
        (take-IsArray 656 480 xs (omega arith) h, output_of-IsOutput _ publics) (proof_and_output 4)

abbrev assert_finalized_of : Bytes → ZkasperInstruction
assert_finalized_of xs =
    assert_finalized (take 32 xs) (from_le_bytes (take 8 (drop 32 xs)))
      (take 32 (drop 8 (drop 32 xs)))

Decoded-assert_finalized : (xs : Bytes) → IsArray 72 xs → Decoded (2 ∷ xs) (assert_finalized_of xs)
Decoded-assert_finalized xs h =
    decoded (2 ∷ xs) (assert_finalized_of xs)
      (
        take-IsArray 72 32 _ (omega arith) h,
        from_le_bytes-IsU64 _ epoch,
        take-IsArray 32 32 _ (omega arith) (drop-IsArray 40 8 _ (drop-IsArray 72 32 xs h)),
      )
      (rw (to_le_bytes-from_le_bytes 8 _ epoch)
        (ap (λ t. 2 ∷ t) (concat-pieces (32 ∷ 8 ∷ 32 ∷ []) xs h.sized)))
  where
    epoch : IsArray 8 (take 8 (drop 32 xs))
    epoch = take-IsArray 40 8 _ (omega arith) (drop-IsArray 72 32 xs h)

Decoded-assert_anchored :
    (xs : Bytes)
    → IsArray 64 xs
    → Decoded (3 ∷ xs) (assert_anchored (take 32 xs) (take 32 (drop 32 xs)))
Decoded-assert_anchored xs h =
    decoded (3 ∷ xs) (assert_anchored (take 32 xs) (take 32 (drop 32 xs)))
      (
        take-IsArray 64 32 _ (omega arith) h,
        take-IsArray 32 32 _ (omega arith) (drop-IsArray 64 32 xs h),
      )
      (ap (λ t. 3 ∷ t) (concat-pieces (32 ∷ 32 ∷ []) xs h.sized))

-- Data is refused, or is the one encoding of the instruction that it decodes to.
abbrev pub Outcome : Bytes → Type 0
Outcome bytes =
    (unpack bytes ≡ err invalid_instruction_data) ⊎ ((i : ZkasperInstruction) × Decoded bytes i)

module _ (tag : ℕ) (xs : Bytes) (hxs : All IsByte xs) where
  -- An arm of the match refuses every other length.
  by_length :
      (n : ℕ)
      → ((length (tag ∷ xs) == suc n) ≡ false → unpack (tag ∷ xs) ≡ err invalid_instruction_data)
      → (IsArray n xs → (i : ZkasperInstruction) × Decoded (tag ∷ xs) i)
      → Outcome (tag ∷ xs)
  by_length n refused accepted = elim (ℕ_discrete (length xs) n) [
    | yes e ↦ inr (accepted (record { sized = e; bytes = hxs }))
    | no ne ↦ inl (refused (==_ne (suc (length xs)) (suc n) (omega arith)))
  ]

unpack_unknown : (tag : ℕ) (xs : Bytes) → 5 ≤ tag → unpack (tag ∷ xs) ≡ err invalid_instruction_data
unfolding unpack
unpack_unknown tag xs h = rw (
  ==_ne tag 0 (omega arith),
  ==_ne tag 1 (omega arith),
  ==_ne tag 4 (omega arith),
  ==_ne tag 2 (omega arith),
  ==_ne tag 3 (omega arith),
)

-- Every data is refused with `InvalidInstructionData` or decodes to a well-typed instruction, and
-- then it is byte for byte the encoding of that instruction: no instruction has two encodings, and
-- `unpack` never panics.
pub unpack-Outcome : (bytes : Bytes) → All IsByte bytes → Outcome bytes
unfolding unpack unpack_initialize unpack_proof unpack_assert_finalized unpack_assert_anchored
unpack-Outcome [] h = inl refl
unpack-Outcome (zero ∷ xs) h =
    by_length zero xs h.1 136 (λ e. rw e) (λ a. (initialize_of xs, Decoded-initialize xs a))
unpack-Outcome (suc zero ∷ xs) h =
    by_length 1 xs h.1 656 (λ e. rw e) (λ a. (_, Decoded-submit xs a))
unpack-Outcome (suc (suc zero) ∷ xs) h =
    by_length 2 xs h.1 72 (λ e. rw e) (λ a. (assert_finalized_of xs, Decoded-assert_finalized xs a))
unpack-Outcome (suc (suc (suc zero)) ∷ xs) h =
    by_length 3 xs h.1 64 (λ e. rw e) (λ a. (_, Decoded-assert_anchored xs a))
unpack-Outcome (suc (suc (suc (suc zero))) ∷ xs) h =
    by_length 4 xs h.1 656 (λ e. rw e) (λ a. (_, Decoded-verify xs a))
unpack-Outcome (suc (suc (suc (suc (suc n)))) ∷ xs) h =
    inl (unpack_unknown (suc (suc (suc (suc (suc n))))) xs (omega arith))

pub unpack-eq-ok :
    (bytes : Bytes) (i : ZkasperInstruction)
    → All IsByte bytes
    → unpack bytes ≡ ok i
    → Decoded bytes i
unpack-eq-ok bytes i h e = elim (unpack-Outcome bytes h) [
  | inl refused ↦ cc refused
  | inr (j, d) ↦ subst (Decoded bytes) (ok-injective (sym d.decodes ∙ e)) d
]
