-- ===== src/Instruction/RoundTrip.antt =====
-- `unpack` on the data of an instruction.
use zkasper_solana.Base.{
  ℕ, ◌+◌, ◌≡◌, refl, true, List, [], length, get_elem?, take, ◌==◌, ==_self, arith, some,
}
use zkasper_solana.Base.Slices.{Bytes}
use zkasper_solana.Base.Result.{ok}
use zkasper_solana.Base.Words.{u64_bytes, u64_round_trip}
use zkasper_solana.Base.Layout.{concat, total, length-concat, slice_field, sizes}
use zkasper_solana.Wire.{FinalizationOutput}
use zkasper_solana.Wire.PublicBytes.{
  encode_output, length-encode_output, from_public_bytes-encode_output,
}
use zkasper_solana.Errors.{ZkasperError}
use zkasper_solana.Instruction.{
  ZkasperInstruction, initialize, submit_finalization, assert_finalized, assert_anchored,
  verify_only, split, unpack, unpack_initialize, unpack_proof, unpack_assert_finalized,
  unpack_assert_anchored,
}
use zkasper_solana.Instruction.Payload.{payload_fields, encode_instruction, IsInstruction}

split_field :
    (fs : List Bytes) (k n : ℕ) (mid : Bytes) (off : ℕ)
    → get_elem? fs k ≡ some mid
    → off ≡ total (take k fs)
    → n ≡ length mid
    → split n (concat fs []) off ≡ ok mid
unfolding split
split_field fs k n mid off h p q = rw (slice_field fs [] k mid off (off + n) h p (omega arith))

has_length : (bytes : Bytes) (n : ℕ) → length bytes ≡ n → (length bytes == n) ≡ true
has_length bytes n h = rw h (==_self n)

unpack_initialize_lem :
    (commitment state_root : Bytes) (epoch : ℕ) (root vk : Bytes)
    → IsInstruction (initialize commitment state_root epoch root vk)
    → unpack_initialize (encode_instruction (initialize commitment state_root epoch root vk))
      ≡ ok (initialize commitment state_root epoch root vk)
unfolding unpack_initialize
unpack_initialize_lem commitment state_root epoch root vk (hc, hs, he, hr, hv) = rw (
  has_length (encode_instruction (initialize commitment state_root epoch root vk)) 137 (
      omega (
        sizes,
        length-concat (payload_fields (initialize commitment state_root epoch root vk)) [],
      )),
  split_field (payload_fields (initialize commitment state_root epoch root vk)) 1 32 commitment 1
      refl (omega sizes) (omega sizes),
  split_field (payload_fields (initialize commitment state_root epoch root vk)) 2 32 state_root 33
      refl (omega sizes) (omega sizes),
  split_field (payload_fields (initialize commitment state_root epoch root vk)) 3 8
      (u64_bytes epoch) 65 refl (omega sizes) (omega sizes),
  split_field (payload_fields (initialize commitment state_root epoch root vk)) 4 32 root 73 refl
      (omega sizes) (omega sizes),
  split_field (payload_fields (initialize commitment state_root epoch root vk)) 5 32 vk 105 refl
      (omega sizes) (omega sizes),
  u64_round_trip epoch he,
)

unpack_assert_finalized_lem :
    (authority : Bytes) (epoch : ℕ) (root : Bytes)
    → IsInstruction (assert_finalized authority epoch root)
    → unpack_assert_finalized (encode_instruction (assert_finalized authority epoch root))
      ≡ ok (assert_finalized authority epoch root)
unfolding unpack_assert_finalized
unpack_assert_finalized_lem authority epoch root (ha, he, hr) = rw (
  has_length (encode_instruction (assert_finalized authority epoch root)) 73
      (omega (sizes, length-concat (payload_fields (assert_finalized authority epoch root)) [])),
  split_field (payload_fields (assert_finalized authority epoch root)) 1 32 authority 1 refl
      (omega sizes) (omega sizes),
  split_field (payload_fields (assert_finalized authority epoch root)) 2 8 (u64_bytes epoch) 33 refl
      (omega sizes) (omega sizes),
  split_field (payload_fields (assert_finalized authority epoch root)) 3 32 root 41 refl
      (omega sizes) (omega sizes),
  u64_round_trip epoch he,
)

unpack_assert_anchored_lem :
    (authority state_root : Bytes)
    → IsInstruction (assert_anchored authority state_root)
    → unpack_assert_anchored (encode_instruction (assert_anchored authority state_root))
      ≡ ok (assert_anchored authority state_root)
unfolding unpack_assert_anchored
unpack_assert_anchored_lem authority state_root (ha, hs) = rw (
  has_length (encode_instruction (assert_anchored authority state_root)) 65
      (omega (sizes, length-concat (payload_fields (assert_anchored authority state_root)) [])),
  split_field (payload_fields (assert_anchored authority state_root)) 1 32 authority 1 refl
      (omega sizes) (omega sizes),
  split_field (payload_fields (assert_anchored authority state_root)) 2 32 state_root 33 refl
      (omega sizes) (omega sizes),
)

unpack_submit_finalization :
    (proof : Bytes) (output : FinalizationOutput)
    → IsInstruction (submit_finalization proof output)
    → unpack_proof 1 (encode_instruction (submit_finalization proof output))
      ≡ ok (submit_finalization proof output)
unfolding unpack_proof
unpack_submit_finalization proof output (hp, ho) =
    let publics : length (encode_output output) ≡ 176 = length-encode_output output ho in
    rw (
      has_length (encode_instruction (submit_finalization proof output)) 657
          (omega (arith, length-concat (payload_fields (submit_finalization proof output)) [])),
      split_field (payload_fields (submit_finalization proof output)) 1 480 proof 1 refl refl
          (omega arith),
      split_field (payload_fields (submit_finalization proof output)) 2 176 (encode_output output)
          481 refl (omega arith) (omega arith),
      from_public_bytes-encode_output {E = ZkasperError} output ho,
    )

unpack_verify_only :
    (proof : Bytes) (output : FinalizationOutput)
    → IsInstruction (verify_only proof output)
    → unpack_proof 4 (encode_instruction (verify_only proof output)) ≡ ok (verify_only proof output)
unfolding unpack_proof
unpack_verify_only proof output (hp, ho) =
    let publics : length (encode_output output) ≡ 176 = length-encode_output output ho in
    rw (
      has_length (encode_instruction (verify_only proof output)) 657
          (omega (arith, length-concat (payload_fields (verify_only proof output)) [])),
      split_field (payload_fields (verify_only proof output)) 1 480 proof 1 refl refl (omega arith),
      split_field (payload_fields (verify_only proof output)) 2 176 (encode_output output) 481 refl
          (omega arith) (omega arith),
      from_public_bytes-encode_output {E = ZkasperError} output ho,
    )

-- Every well-typed instruction is decoded from its data to itself.
pub unpack-encode_instruction :
    (i : ZkasperInstruction) → IsInstruction i → unpack (encode_instruction i) ≡ ok i
unfolding unpack
unpack-encode_instruction (initialize commitment state_root epoch root vk) v =
    unpack_initialize_lem commitment state_root epoch root vk v
unpack-encode_instruction (submit_finalization proof output) v =
    unpack_submit_finalization proof output v
unpack-encode_instruction (assert_finalized authority epoch root) v =
    unpack_assert_finalized_lem authority epoch root v
unpack-encode_instruction (assert_anchored authority state_root) v =
    unpack_assert_anchored_lem authority state_root v
unpack-encode_instruction (verify_only proof output) v = unpack_verify_only proof output v
