-- ===== src/Instruction/Payload.antt =====
-- The layout of an instruction's data: the tag, then the fields.
use zkasper_solana.Base.{List, [], ◌∷◌}
use zkasper_solana.Base.Slices.{Bytes}
use zkasper_solana.Base.Words.{u64_bytes, IsArray, IsU64}
use zkasper_solana.Base.Layout.{concat}
use zkasper_solana.Wire.{IsOutput}
use zkasper_solana.Wire.PublicBytes.{encode_output}
use zkasper_solana.Plonk.Encoding.{compressed_proof_len}
use zkasper_solana.Instruction.{
  ZkasperInstruction, initialize, submit_finalization, assert_finalized, assert_anchored,
  verify_only, ix_initialize, ix_submit_finalization, ix_assert_finalized, ix_assert_anchored,
  ix_verify_only,
}

abbrev pub payload_fields : ZkasperInstruction → List Bytes
payload_fields (initialize commitment state_root epoch root vk) =
    (ix_initialize ∷ []) ∷ commitment ∷ state_root ∷ u64_bytes epoch ∷ root ∷ vk ∷ []
payload_fields (submit_finalization proof output) =
    (ix_submit_finalization ∷ []) ∷ proof ∷ encode_output output ∷ []
payload_fields (assert_finalized authority epoch root) =
    (ix_assert_finalized ∷ []) ∷ authority ∷ u64_bytes epoch ∷ root ∷ []
payload_fields (assert_anchored authority state_root) =
    (ix_assert_anchored ∷ []) ∷ authority ∷ state_root ∷ []
payload_fields (verify_only proof output) =
    (ix_verify_only ∷ []) ∷ proof ∷ encode_output output ∷ []

abbrev pub encode_instruction : ZkasperInstruction → Bytes
encode_instruction i = concat (payload_fields i) []

-- The values of the Rust type.
abbrev pub IsInstruction : ZkasperInstruction → Type 0
IsInstruction (initialize commitment state_root epoch root vk) =
    IsArray 32 commitment × IsArray 32 state_root × IsU64 epoch × IsArray 32 root × IsArray 32 vk
IsInstruction (submit_finalization proof output) =
    IsArray compressed_proof_len proof × IsOutput output
IsInstruction (assert_finalized authority epoch root) =
    IsArray 32 authority × IsU64 epoch × IsArray 32 root
IsInstruction (assert_anchored authority state_root) = IsArray 32 authority × IsArray 32 state_root
IsInstruction (verify_only proof output) = IsArray compressed_proof_len proof × IsOutput output
