-- ===== src/Tests/Client.antt =====
-- A light client on the toy host: initialized at epoch 0, and its outputs one epoch at a time.
use zkasper_solana.Base.{
  ℕ, suc, ◌≡◌, refl, List, [], ◌∷◌, true, false, replicate, take, ◌++◌, if◌then◌else◌,
}
use zkasper_solana.Base.Slices.{Bytes, slice, copy_slice, set_byte}
use zkasper_solana.Base.Result.{Result, ok, err, panic}
use zkasper_solana.Base.Memory.{read, read_byte, write, write_byte, zeros, chunks, chunks_exact}
use zkasper_solana.Base.Words.{to_le_bytes, from_le_bytes, from_be_bytes, to_be_bytes}
use zkasper_solana.Base.{bytes_eq}
use zkasper_solana.Chain.{IsLedger}
use zkasper_solana.Errors.{ProgramError}
use zkasper_solana.Plonk.Encoding.{decompress_proof, convert_points}
use zkasper_solana.Plonk.Group.{
  be_words, be_limbs, put_words, fr_reduce, fr_canonical, fr_bytes, g1_neg, g1_mul, g1_add,
  g1_mul_acc, fq_canonical,
}
use zkasper_solana.Plonk.Proof.{parse}
use zkasper_solana.Plonk.Transcript.{
  put_points, square_times, public_preimage, public_input, challenge_beta, challenge_alpha,
  challenge_xi, challenge_v, challenge_u, challenges,
}
use zkasper_solana.Plonk.Verify
use zkasper_solana.Plonk.Verify.{
  lagrange_1, eval_r0, z_scalar, s3_scalar, e_scalar, calculate_d, calculate_f, calculate_e,
  check_pairing, verify_with,
}
use zkasper_solana.Processor.{verify, initialize, expect_pda, create_pda, allocate_funded}
use zkasper_solana.Runtime.Address.{seed_state, seed_ring}
use zkasper_solana.Runtime.Accounts.{Ledger, AccountInfo, store, add_u64}
use zkasper_solana.State.LightClient.{Pubkey, pack_into}
use zkasper_solana.State.Ring.{init}
use zkasper_solana.Tests.Toy.{toy, give}
use zkasper_solana.Wire.{FinalizationOutput, public_bytes, public_values, guest_program_vk, spread}

abbrev pub program : Pubkey
program = replicate 32 9

abbrev pub owner : AccountInfo
owner = record { key = replicate 32 1; is_signer = true }

abbrev pub state_info : AccountInfo
state_info = record { key = take 32 (seed_state ++ replicate 32 1); is_signer = false }

abbrev pub ring_info : AccountInfo
ring_info = record { key = take 32 (seed_ring ++ replicate 32 1); is_signer = false }

abbrev pub system : AccountInfo
system = record { key = replicate 32 0; is_signer = false }

abbrev pub root : Bytes
root = replicate 32 2

abbrev pub vk : Bytes
vk = replicate 32 3

abbrev pub proof : Bytes
proof = replicate 480 4

-- A ledger of empty accounts, but for one lamport that someone sent to the ring's address.
abbrev pub before_ledger : Ledger
before_ledger key = record {
  lamports = if bytes_eq key ring_info.key then 1 else 0;
  bytes = [];
  owner = zeros 32;
}

abbrev the : Ledger → Result ProgramError Ledger → Ledger
the other (ok ledger) = ledger
the other (err e) = other
the other panic = other

abbrev pub accounts : List AccountInfo
accounts = owner ∷ state_info ∷ ring_info ∷ system ∷ []

abbrev pub run_initialize : Result ProgramError Ledger
run_initialize = initialize toy program accounts root root 0 root vk before_ledger

unfoldable pub start_ledger : Ledger
start_ledger = the before_ledger run_initialize

pub initialized : run_initialize ≡ ok start_ledger
unfolding start_ledger initialize expect_pda create_pda allocate_funded give add_u64 pack_into init
    store bytes_eq write write_byte zeros copy_slice set_byte to_le_bytes
initialized = refl

pub before-IsLedger : IsLedger before_ledger
before-IsLedger key = tt

unfoldable pub output_at : ℕ → FinalizationOutput
output_at n = record {
  accumulator_commitment = root;
  next_accumulator_commitment = root;
  finalized_epoch = suc n;
  finalized_root = root;
  finalized_state_root = root;
  justified_epoch = suc (suc n);
  justified_root = root;
}

pub verified : (n : ℕ) → verify toy proof vk (output_at n) ≡ ok tt
unfolding output_at verify decompress_proof convert_points be_words be_limbs put_words fr_reduce
    fr_canonical fr_bytes fq_canonical g1_neg g1_mul g1_add g1_mul_acc parse put_points square_times
    public_preimage public_input challenge_beta challenge_alpha challenge_xi challenge_v challenge_u
    challenges Verify.verify lagrange_1 eval_r0 z_scalar s3_scalar e_scalar calculate_d calculate_f
    calculate_e check_pairing verify_with public_bytes public_values guest_program_vk spread read
    read_byte write write_byte zeros chunks chunks_exact slice copy_slice set_byte to_le_bytes
    from_le_bytes from_be_bytes to_be_bytes
verified n = refl
