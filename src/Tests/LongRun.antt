-- ===== src/Tests/LongRun.antt =====
-- Any number of outputs accepted by the toy light client, one epoch after the other.
use zkasper_solana.Base.{
  ℕ, zero, suc, ◌≡◌, refl, ap, ◌∙◌, ◌+◌, ◌<◌, ◌^◌, List, [], ◌∷◌, Option, none, true, All, arith,
  subst, replicate, bytes_eq, length, Bool, false, Bool-cases, inl, inr, ltb, if◌then◌else◌,
}
use zkasper_solana.Base.Slices.{Bytes, slice, copy_slice, set_byte}
use zkasper_solana.Base.Result.{ok}
use zkasper_solana.Base.Memory.{read, read_byte, write, write_byte, zeros}
use zkasper_solana.Base.Words.{IsByte, IsArray, IsU64, to_le_bytes, from_le_bytes}
use zkasper_solana.Chain.{Run, Adjacent, state_after, slot_after}
use zkasper_solana.Chain.Invariant.{Stands, Run-Stands}
use zkasper_solana.Chain.Initialize.{Initialized, initialize-eq-ok}
use zkasper_solana.Processor.{
  initialize, expect_pda, create_pda, allocate_funded, submit_finalization,
}
use zkasper_solana.Processor.Submit.{landed, advanced, Admits, submit_finalization-accepts}
use zkasper_solana.Runtime.Accounts.{Ledger, store, add_u64}
use zkasper_solana.State.LightClient.{LightClientState, pack_into, unpack}
use zkasper_solana.State.LightClient.Unpack.{unpack-eq-ok}
use zkasper_solana.State.Ring.{FinalizationEntry, init, bump, header, ring_entries}
use zkasper_solana.State.Ring.Slots.{held}
use zkasper_solana.Tests.Toy.{toy, give}
use zkasper_solana.Tests.Client.{
  program, owner, state_info, ring_info, accounts, root, vk, proof, before_ledger, before-IsLedger,
  start_ledger, initialized, output_at, verified,
}
use zkasper_solana.Wire.{FinalizationOutput, IsOutput}

abbrev all_bytes : Bytes → Bool
all_bytes [] = true
all_bytes (x ∷ xs) = if ltb x 256 then all_bytes xs else false

all_bytes-IsByte : (xs : Bytes) → all_bytes xs ≡ true → All IsByte xs
all_bytes-IsByte [] h = tt
all_bytes-IsByte (x ∷ xs) h = elim (Bool-cases (ltb x 256)) [
  | inl small ↦ (ground (arith, small), all_bytes-IsByte xs (rw small at h))
  | inr large ↦ cc (rw large at h)
]

-- A literal of bytes.
pub array : (n : ℕ) (xs : Bytes) → length xs ≡ n → all_bytes xs ≡ true → IsArray n xs
array n xs sized small = record { sized = sized; bytes = all_bytes-IsByte xs small }

pub keys : All (λ a. IsArray 32 a.key) accounts
keys = (
  array 32 owner.key refl refl,
  (
    array 32 state_info.key refl refl,
    (array 32 ring_info.key refl refl, (array 32 (replicate 32 0) refl refl, tt)),
  ),
)

pub arguments : IsArray 32 root × IsArray 32 root × IsU64 0 × IsArray 32 root × IsArray 32 vk
arguments = (
  array 32 root refl refl,
  array 32 root refl refl,
  omega arith,
  array 32 root refl refl,
  array 32 vk refl refl,
)

installed : Initialized toy program accounts root root 0 root vk before_ledger start_ledger
installed =
    initialize-eq-ok toy program accounts root root 0 root vk before_ledger start_ledger keys
      arguments before-IsLedger initialized

-- The client after `n` outputs.
abbrev pub client : ℕ → LightClientState
client n = record {
  bump = 255;
  authority = owner.key;
  accumulator_commitment = root;
  latest_state_root = root;
  finalized_epoch = n;
  finalized_root = root;
  program_vk = vk;
  submission_count = n;
  accumulator_epoch = suc n;
}

start_decodes : unpack (start_ledger state_info.key).bytes ≡ ok (client 0)
unfolding start_ledger initialize expect_pda create_pda allocate_funded give add_u64 pack_into init
    store bytes_eq write write_byte zeros copy_slice set_byte to_le_bytes unpack read read_byte
    slice from_le_bytes
start_decodes = refl

start_owner :
    ((start_ledger state_info.key).owner ≡ program) × ((start_ledger ring_info.key).owner ≡ program)
unfolding start_ledger initialize expect_pda create_pda allocate_funded give add_u64 pack_into init
    store bytes_eq write write_byte zeros copy_slice set_byte to_le_bytes
start_owner = (refl, refl)

start_bump : bump (start_ledger ring_info.key).bytes ≡ ok 255
unfolding start_ledger initialize expect_pda create_pda allocate_funded give add_u64 pack_into init
    store bytes_eq write write_byte zeros copy_slice set_byte to_le_bytes bump header read_byte
start_bump = refl

the_ring : installed.ring_info ≡ ring_info
the_ring = cc installed.accounts_are

pub start_Stands : Stands toy program state_info ring_info (client 0) (λ _. none) start_ledger
start_Stands = record {
  typed = installed.stands.typed;
  valid =
      (unpack-eq-ok (start_ledger state_info.key).bytes (client 0)
        (installed.stands.typed state_info.key) start_decodes).valid;
  state_at = record { owned = start_owner.0; decodes = start_decodes; derived = refl };
  ring_at = record { owned = start_owner.1; bump = 255; names_bump = start_bump; derived = refl };
  holds =
      subst (λ k. (i : ℕ) → i < ring_entries → held (start_ledger k.key).bytes i ≡ none) the_ring
        installed.stands.holds;
}

pub output_at-IsOutput : (n : ℕ) → n < 2 ^ 63 → IsOutput (output_at n)
unfolding output_at
output_at-IsOutput n h = record {
  accumulator_commitment = array 32 root refl refl;
  next_accumulator_commitment = array 32 root refl refl;
  finalized_epoch = omega arith;
  finalized_root = array 32 root refl refl;
  finalized_state_root = array 32 root refl refl;
  justified_epoch = omega arith;
  justified_root = array 32 root refl refl;
}

-- The first `n` outputs, the latest first.
abbrev pub outputs : ℕ → List FinalizationOutput
outputs zero = []
outputs (suc n) = output_at n ∷ outputs n

advanced-client : (n : ℕ) → advanced (client n) (output_at n) ≡ client (suc n)
unfolding output_at
advanced-client n = let e : n + 1 ≡ suc n = omega arith in rw e

client_after : (n : ℕ) → state_after (client 0) (outputs n) ≡ client n
client_after zero = refl
client_after (suc n) = ap (λ s. advanced s (output_at n)) (client_after n) ∙ advanced-client n

pub admits :
    (n : ℕ) (slots : ℕ → Option FinalizationEntry) (ledger : Ledger)
    → n < 2 ^ 63
    → Stands toy program state_info ring_info (client n) slots ledger
    → Admits toy program state_info.key ring_info.key (client n) proof (output_at n) ledger
unfolding output_at
admits n slots ledger h st = record {
  state_at = st.state_at;
  ring_at = st.ring_at;
  next = record { advances = omega arith; resumes = refl; extends = refl };
  proved = verified n;
  countable = omega arith;
}

pub accepted :
    (n : ℕ) (slots : ℕ → Option FinalizationEntry) (ledger : Ledger)
    → n < 2 ^ 63
    → Stands toy program state_info ring_info (client n) slots ledger
    → submit_finalization toy program (state_info ∷ ring_info ∷ []) proof (output_at n) ledger
      ≡ ok (landed state_info.key ring_info.key (client n) (output_at n) ledger)
accepted n slots ledger h st =
    submit_finalization-accepts toy program state_info ring_info [] (client n) proof (output_at n)
      ledger st.valid (output_at-IsOutput n h) (admits n slots ledger h st)

adjacent : (n : ℕ) → Adjacent (output_at n)
unfolding output_at
adjacent n = omega arith

pub long_history :
    (n : ℕ)
    → n < 2 ^ 63
    → (ledger : Ledger) × Run toy program state_info ring_info start_ledger (outputs n) ledger
long_history zero h = (start_ledger, Run.begin)
long_history (suc n) h =
    let (ledger, run) = long_history n (omega arith) in
    let slots = slot_after (λ _. none) (outputs n) in
    let st =
      subst (λ s. Stands toy program state_info ring_info s slots ledger) (client_after n)
        (Run-Stands toy program state_info ring_info (client 0) (λ _. none) start_ledger (outputs n)
          ledger start_Stands run) in
    let after = landed state_info.key ring_info.key (client n) (output_at n) ledger in
    (
      after,
      Run.submit (outputs n) ledger after [] proof (output_at n) run
          (output_at-IsOutput n (omega arith)) (adjacent n)
          (accepted n slots ledger (omega arith) st),
    )
