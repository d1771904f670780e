-- ===== src/Cost.antt =====
-- plonk-cost/src/entrypoint.rs: one instruction with twelve modes, which take a verification apart.
pub mod Modes
use zkasper_solana.Base.{
  ℕ, zero, suc, ◌+◌, ◌*◌, ◌==◌, not, Bool, true, false, bytes_eq, List, [], ◌∷◌, length, replicate,
  Option, some, none, if◌then◌else◌,
}
use zkasper_solana.Base.Slices.{Bytes}
use zkasper_solana.Base.Result.{Result, ok, err, panic, ◌>>=◌, ◌>>◌, refuse_if, unwrap, map_err}
use zkasper_solana.Base.Memory.{read, read_byte, write, zeros}
use zkasper_solana.Base.Words.{from_le_bytes}
use zkasper_solana.Errors.{ZkasperError}
use zkasper_solana.Plonk.Backend.{Backend}
use zkasper_solana.Plonk.Proof.{Proof, parse, well_formed}
use zkasper_solana.Plonk.Transcript.{public_input}
use zkasper_solana.Plonk.Verify.{verify_with}
use zkasper_solana.Plonk.Vk
use zkasper_solana.Wire.{
  FinalizationOutput, from_public_bytes, public_values, finalization_public_bytes,
}
use Prim.Native.Nat.{bit_xor}

-- Solana's `ProgramError`, as far as this entry point returns it.
pub data CostError : Type 0 where
  invalid_instruction_data : CostError
  invalid_argument : CostError

abbrev pub payload_off_program_vk : ℕ
payload_off_program_vk = 3

abbrev pub payload_off_publics : ℕ
payload_off_publics = payload_off_program_vk + 32

abbrev pub payload_off_proof : ℕ
payload_off_proof = payload_off_publics + finalization_public_bytes

-- `.is_ok()` of a call that may panic, and of one that may not.
abbrev pub is_ok : {E F A : Type 0} → Result F A → Result E Bool
is_ok (ok a) = ok true
is_ok (err e) = ok false
is_ok panic = panic

abbrev is_some : {A : Type 0} → Option A → Bool
is_some none = false
is_some (some a) = true

module _ (b : Backend) where
  open b.scalar use {Fr}

  unfoldable pub field_multiplications : ℕ → Fr → Fr → Fr
  field_multiplications zero factor acc = acc
  field_multiplications (suc count) factor acc =
      field_multiplications count factor (b.scalar.mul acc factor)

  abbrev nonzero : Fr → Bool
  nonzero x = not (b.scalar.eq x (b.scalar.from_int 0))

module _ {E : Type 0} (b : Backend) where
  open b.scalar use {Fr}

  unfoldable pub mul : Bytes → Fr → Result E Bytes
  mul point scalar = do
    input ← write 0 64 point (zeros 96)
    input ← write 64 96 (b.scalar.to_bytes_be scalar) input
    out ← unwrap (b.syscalls.g1_multiplication input)
    write 0 64 out (zeros 64)

  unfoldable pub add : Bytes → Bytes → Result E Bytes
  add p q = do
    input ← write 0 64 p (zeros 128)
    input ← write 64 128 q input
    out ← unwrap (b.syscalls.g1_addition input)
    write 0 64 out (zeros 64)

  -- The loops of the modes, over the turns that are left.
  unfoldable pub multiplications : ℕ → ℕ → Bytes → Result E Bytes
  multiplications zero i point = ok point
  multiplications (suc count) i point = do
    point ← mul point (b.scalar.from_int (i + 7))
    multiplications count (i + 1) point

  unfoldable pub additions : ℕ → Bytes → Result E Bytes
  additions zero point = ok point
  additions (suc count) point = do point ← add point Vk.g1_gen; additions count point

  unfoldable pub inversions : ℕ → Fr → Fr → Result E Fr
  inversions zero summand acc = ok acc
  inversions (suc count) summand acc = do
    inverse ← unwrap (b.scalar.inverse acc)
    inversions count summand (b.scalar.add inverse summand)

  unfoldable pub hashes : List ℕ → ℕ → Result E ℕ
  hashes [] acc = ok acc
  hashes (len ∷ lens) acc = do
    first ← read_byte 0 (b.syscalls.keccak (replicate len acc))
    hashes lens (bit_xor acc first)

  unfoldable pub decompressions : ℕ → Bytes → ℕ → Result E ℕ
  decompressions zero word acc = ok acc
  decompressions (suc count) word acc = do
    point ← unwrap (b.syscalls.g1_decompress word)
    first ← read_byte 0 point
    decompressions count word (bit_xor acc first)

  unfoldable pub pairing_input : Result E Bytes
  pairing_input = do
    input ← write 0 64 Vk.g1_gen (zeros 384)
    input ← write 64 192 Vk.x_2 input
    input ← write 192 256 Vk.g1_gen input
    write 256 384 Vk.g2_gen input

-- The arms of the match, each with the verdict of its work.
module _ (b : Backend) (count : ℕ) (program_vk window proof_bytes : Bytes)
    (proof : Proof b.scalar) where
  abbrev multiply : Result CostError Bool
  multiply = do point ← multiplications b count 0 Vk.g1_gen; ok (not (bytes_eq point (zeros 64)))

  abbrev sum : Result CostError Bool
  sum = do point ← additions b count proof.a; ok (not (bytes_eq point (zeros 64)))

  abbrev pair : Result CostError Bool
  pair = do input ← pairing_input b; ok (is_some (b.syscalls.pairing input))

  abbrev invert : Result CostError Bool
  invert = do acc ← inversions b count proof.eval_b proof.eval_a; ok (nonzero b acc)

  abbrev hash : Result CostError Bool
  hash = do acc ← hashes b (736 ∷ 32 ∷ 128 ∷ 224 ∷ 224 ∷ 128 ∷ []) 0; ok (not (acc == 0xff))

  abbrev reduce : Result CostError Bool
  reduce = do pi ← public_input b program_vk window; ok (nonzero b pi)

  abbrev decompress : Result CostError Bool
  decompress = do
    word ← unwrap (b.syscalls.g1_compress proof.a)
    acc ← decompressions b count word 0
    ok (not (acc == 0xff))

  -- The match on the mode.
  unfoldable pub work : ℕ → Result CostError Bool
  work mode =
      if mode == 0
      then ok true
      else if mode == 1
      then is_ok (verify_with b proof_bytes program_vk window false)
      else if mode == 10
      then is_ok (verify_with b proof_bytes program_vk window true)
      else if mode == 2
      then multiply
      else if mode == 3
      then sum
      else if mode == 4
      then pair
      else if mode == 5
      then ok (nonzero b (field_multiplications b count proof.eval_b proof.eval_a))
      else if mode == 6
      then invert
      else if mode == 7
      then hash
      else if mode == 8
      then well_formed b.base proof
      else if mode == 9
      then reduce
      else if mode == 11
      then decompress
      else err invalid_instruction_data

unfoldable pub process_instruction : Backend → Bytes → Result CostError (Unit {0})
process_instruction b payload = do
  mode ← read_byte 0 payload
  low ← read_byte 1 payload
  high ← read_byte 2 payload
  let count = from_le_bytes (low ∷ high ∷ [])
  program_vk ← read payload_off_program_vk payload_off_publics payload
  publics ← read payload_off_publics payload_off_proof payload
  output ← from_public_bytes publics
  window ← public_values output program_vk
  proof_bytes ← read payload_off_proof (length payload) payload
  proof ← map_err (λ nothing. invalid_instruction_data) (parse b.scalar proof_bytes)
  passed ← work b count program_vk window proof_bytes proof mode
  refuse_if (not passed) invalid_argument
