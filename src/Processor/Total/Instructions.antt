-- ===== src/Processor/Total/Instructions.antt =====
-- Panics of `process_instruction`.
use zkasper_solana.Base.{
  ℕ, ◌≡◌, refl, ◌+◌, ◌^◌, not, ◌==◌, bytes_eq, length, List, [], ◌∷◌, All, arith, Bool-cases, inl,
  inr,
}
use zkasper_solana.Base.Slices.{Bytes}
use zkasper_solana.Base.Result.{Result, ok, panic, ◌>>◌, map_err-eq-ok}
use zkasper_solana.Base.Words.{IsByte, IsArray, IsU64}
use zkasper_solana.Base.Yields.{
  Yields, yields, refuses, Returns, Yields-bind, Yields-map_err, Yields-Returns, Yields-ne-panic,
  refuse_if-Yields, >>=-eq-panic,
}
use zkasper_solana.Errors.{
  ProgramError, ZkasperError, into, missing_signer, incorrect_program_id,
  account_already_initialized, invalid_state_account, invalid_ring_account,
}
use zkasper_solana.Instruction
use zkasper_solana.Instruction.{ZkasperInstruction}
use zkasper_solana.Instruction.Canonical.{unpack-Outcome, unpack-eq-ok}
use zkasper_solana.Instruction.Payload.{IsInstruction}
use zkasper_solana.Plonk.Total.{IsSized}
use zkasper_solana.Processor.{
  Host, expect_pda, initialize, submit_finalization, dispatch, process_instruction,
}
use zkasper_solana.Processor.Submit.{add_u64-fits}
use zkasper_solana.Processor.Total.{
  Holds, SystemReturns, create_pda-Yields, verify_only-Returns, assert_finalized-Returns,
  assert_anchored-Returns,
}
use zkasper_solana.Processor.Total.Outcome.{Overflows, submit_finalization_panics_iff}
use zkasper_solana.Runtime.Address.{seed_state, seed_ring}
use zkasper_solana.Runtime.Accounts.{Ledger, AccountInfo}
use zkasper_solana.State.LightClient.{Pubkey, LightClientState, IsState}
use zkasper_solana.State.LightClient.Total.{pack_into-Yields}
use zkasper_solana.State.Ring.Total.{init-Yields}
use native.Mathlib.Decide.{dec_lt}

-- The keys are arrays of 32 bytes.
abbrev pub HaveKeys : List AccountInfo → Type 0
HaveKeys accounts = All (λ info. IsArray 32 info.key) accounts

-- The state that `initialize` stores.
abbrev first_state : ℕ → Pubkey → Bytes → Bytes → ℕ → Bytes → Bytes → LightClientState
first_state bump authority commitment state_root epoch root vk = record {
  bump = bump;
  authority = authority;
  accumulator_commitment = commitment;
  latest_state_root = state_root;
  finalized_epoch = epoch;
  finalized_root = root;
  program_vk = vk;
  submission_count = 0;
  accumulator_epoch = epoch + 1;
}

first_state-IsState :
    (bump : ℕ) (authority : Pubkey) (commitment state_root : Bytes) (epoch : ℕ) (root vk : Bytes)
    → IsByte bump
    → IsArray 32 authority
    → IsInstruction (Instruction.initialize commitment state_root epoch root vk)
    → IsU64 (epoch + 1)
    → IsState (first_state bump authority commitment state_root epoch root vk)
first_state-IsState bump authority commitment state_root epoch root vk byte key v fits = record {
  bump = byte;
  authority = key;
  accumulator_commitment = v.0;
  latest_state_root = v.1;
  finalized_epoch = v.2;
  finalized_root = v.3;
  program_vk = v.4;
  submission_count = omega arith;
  accumulator_epoch = fits;
}

unpack-Yields : (bytes : Bytes) → All IsByte bytes → Yields IsInstruction (Instruction.unpack bytes)
unpack-Yields bytes h = elim (unpack-Outcome bytes h) [
  | inl refused ↦ rw refused refuses
  | inr (i, d) ↦ rw d.decodes (yields d.valid)
]

module _ (h : Host) (program_id : Pubkey) where
  expect_pda-Yields :
      (info : AccountInfo) (seeds : List Bytes) (refusal : ZkasperError)
      → Yields IsByte (expect_pda h program_id info seeds refusal)
  unfolding expect_pda
  expect_pda-Yields info seeds refusal =
      elim (Bool-cases (bytes_eq info.key (h.derivation.find_program_address seeds program_id).0)) [
        | inl same ↦ rw same (yields (h.derivation.found_bump_fits seeds program_id))
        | inr other ↦ rw other refuses
      ]

  module _ (r : SystemReturns h.system) where
    initialize-Returns :
        (accounts : List AccountInfo) (commitment state_root : Bytes) (epoch : ℕ) (root vk : Bytes)
        (ledger : Ledger)
        → HaveKeys accounts
        → IsInstruction (Instruction.initialize commitment state_root epoch root vk)
        → IsU64 (epoch + 1)
        → Returns (initialize h program_id accounts commitment state_root epoch root vk ledger)
    unfolding initialize
    initialize-Returns [] commitment state_root epoch root vk ledger k v fits = refuses
    initialize-Returns (a ∷ []) commitment state_root epoch root vk ledger k v fits = refuses
    initialize-Returns (a ∷ s ∷ []) commitment state_root epoch root vk ledger k v fits = refuses
    initialize-Returns (a ∷ s ∷ g ∷ []) commitment state_root epoch root vk ledger k v fits =
        refuses
    initialize-Returns (a ∷ s ∷ g ∷ system ∷ rest) commitment state_root epoch root vk ledger k v
          fits =
        Yields-bind (refuse_if-Yields (not a.is_signer) (into missing_signer)) λ done d.
          Yields-bind
            (refuse_if-Yields (not (bytes_eq system.key h.system.system_id)) incorrect_program_id)
            λ done d.
              Yields-bind
                (Yields-map_err into
                  (expect_pda-Yields s (seed_state ∷ a.key ∷ []) invalid_state_account))
                λ bump byte.
                  Yields-bind
                    (Yields-map_err into
                      (expect_pda-Yields g (seed_ring ∷ a.key ∷ []) invalid_ring_account))
                    λ ring_bump d.
                      Yields-bind
                        (refuse_if-Yields (not (length (ledger s.key).bytes == 0))
                          (into account_already_initialized))
                        λ done d.
                          Yields-bind
                            (create_pda-Yields h program_id a s 186
                              (seed_state ∷ a.key ∷ (bump ∷ []) ∷ []) ledger r)
                            λ created d. rw (add_u64-fits {E = ProgramError} epoch 1 fits) (
                              Yields-bind {P = λ packed. Unit {0}}
                                (Yields-map_err into (
                                  Yields-Returns (
                                    pack_into-Yields
                                      (first_state bump a.key commitment state_root epoch root vk) _
                                      (created s.key).bytes
                                      (first_state-IsState bump a.key commitment state_root epoch
                                        root vk byte k.0 v fits)
                                      refl)))
                                λ packed d.
                                  Yields-bind
                                    (create_pda-Yields h program_id a g _
                                      (seed_ring ∷ a.key ∷ (ring_bump ∷ []) ∷ []) _ r)
                                    λ created d.
                                      Yields-bind
                                        (Yields-map_err into
                                          (init-Yields _ (created g.key).bytes ring_bump refl))
                                        λ ring d. yields tt)

  -- The overflow of an instruction: of the epoch after the first, or of the count of submissions.
  pub Wraps : List AccountInfo → ZkasperInstruction → Ledger → Type 0
  Wraps accounts (Instruction.initialize commitment state_root epoch root vk) ledger =
      epoch + 1 ≡ 2 ^ 64
  Wraps (state_info ∷ ring_info ∷ rest) (Instruction.submit_finalization proof output) ledger =
      Overflows h program_id state_info ring_info proof output ledger
  Wraps accounts i ledger = ⊥

  module _ (r : SystemReturns h.system) (sized : IsSized h.backend) (accounts : List AccountInfo)
      (ledger : Ledger) (k : HaveKeys accounts) (b : Holds ledger) where
    then_ledger :
        {m : Result ProgramError (Unit {0})}
        → Returns m
        → Returns {E = ProgramError} (m >> ok ledger)
    then_ledger checked = Yields-bind checked λ done d. yields tt

    dispatch-Wraps :
        (i : ZkasperInstruction)
        → IsInstruction i
        → dispatch h program_id accounts i ledger ≡ panic
        → Wraps accounts i ledger
    unfolding dispatch submit_finalization Wraps
    dispatch-Wraps (Instruction.initialize commitment state_root epoch root vk) v e =
        elim (dec_lt (epoch + 1) (2 ^ 64)) [
          | yes fits ↦ absurd (
              Yields-ne-panic
                (initialize-Returns r accounts commitment state_root epoch root vk ledger k v fits)
                e)
          | no over ↦ omega (arith, v.2)
        ]
    dispatch-Wraps (Instruction.submit_finalization proof output) v e = submitted accounts e
      where
        submitted :
            (accounts : List AccountInfo)
            → submit_finalization h program_id accounts proof output ledger ≡ panic
            → Wraps accounts (Instruction.submit_finalization proof output) ledger
        submitted [] e = cc
        submitted (s ∷ []) e = cc
        submitted (s ∷ g ∷ rest) e =
            (submit_finalization_panics_iff h program_id s g rest proof output ledger sized b v.1).0
              e
    dispatch-Wraps (Instruction.assert_finalized authority epoch root) v e = absurd (
        Yields-ne-panic
          (then_ledger (assert_finalized-Returns h program_id accounts authority epoch root ledger))
          e)
    dispatch-Wraps (Instruction.assert_anchored authority state_root) v e = absurd (
        Yields-ne-panic
          (then_ledger (assert_anchored-Returns h program_id accounts authority state_root ledger))
          e)
    dispatch-Wraps (Instruction.verify_only proof output) v e = absurd (
        Yields-ne-panic
          (then_ledger (verify_only-Returns h program_id accounts proof output ledger sized b v.1))
          e)

    -- On a ledger of byte strings and instruction data of bytes, with keys of 32 bytes, values of
    -- their sizes from the fields and the syscalls, and a system program that returns,
    -- `process_instruction` panics in two cases only: an `initialize` at the last epoch of a `u64`,
    -- and an otherwise acceptable submission on a count that is the last of a `u64`.
    pub process_instruction-Wraps :
        (bytes : Bytes)
        → All IsByte bytes
        → process_instruction h program_id accounts bytes ledger ≡ panic
        → (i : ZkasperInstruction) × (Instruction.unpack bytes ≡ ok i) × Wraps accounts i ledger
    unfolding process_instruction
    process_instruction-Wraps bytes hb e =
        let (i, decoded, rest) =
          >>=-eq-panic _ _ (Yields-ne-panic (Yields-map_err into (unpack-Yields bytes hb))) e in
        let spelled = map_err-eq-ok into _ decoded in
        (i, spelled, dispatch-Wraps i (unpack-eq-ok bytes i hb spelled).valid rest)
