-- ===== src/Chain/Endings.antt =====
-- Every way in which `initialize` can end.
pub mod Installed
use zkasper_solana.Base.{
  ℕ, ◌≡◌, ◌≢◌, refl, sym, ap, ◌∙◌, ◌+◌, ◌^◌, ltb, true, false, length, ◌==◌, ==_iff, ==_self,
  bytes_eq, bytes_eq→eq, bytes_eq-false→ne, bytes_eq_ne, bytes_eq_self, Bool-cases, inl, inr, ◌⊎◌,
  List, [], ◌∷◌, All, arith,
}
use zkasper_solana.Base.Slices.{Bytes}
use zkasper_solana.Base.Result.{Result, ok, err, panic, ◌>>=◌, map_err}
use zkasper_solana.Base.Words.{IsArray, IsU64}
use zkasper_solana.Base.Yields.{Yields-cases}
use zkasper_solana.Chain.{IsLedger}
use zkasper_solana.Chain.Bootstrap.{bootstrap}
use zkasper_solana.Chain.Initialize.{Initialized, initialize-eq-ok, packed_new}
use zkasper_solana.Errors.{
  ProgramError, into, missing_signer, incorrect_program_id, invalid_state_account,
  invalid_ring_account, account_already_initialized,
}
use zkasper_solana.Instruction
use zkasper_solana.Instruction.Payload.{IsInstruction}
use zkasper_solana.Processor.{Host, create_pda, expect_pda, initialize}
use zkasper_solana.Processor.CreatePda.{Created}
use zkasper_solana.Processor.Submit.{add_u64-fits}
use zkasper_solana.Processor.Total.{SystemReturns, create_pda-Yields}
use zkasper_solana.Runtime.Address.{seed_state, seed_ring}
use zkasper_solana.Runtime.Accounts.{Ledger, AccountInfo, add_u64, set_bytes}
use zkasper_solana.State.LightClient.{
  Pubkey, LightClientState, IsState, light_client_len, pack_into,
}
use zkasper_solana.State.LightClient.Layout.{encode_state}
use zkasper_solana.State.Ring
use zkasper_solana.State.Ring.{ring_len}
use zkasper_solana.State.Ring.Fresh.{fresh, init-fresh}
use zkasper_solana.State.LightClient.Layout.{encode_state}
use native.Mathlib.Decide.{dec_lt}

same_key : (xs ys : Bytes) → xs ≡ ys → bytes_eq xs ys ≡ true
same_key xs ys e = rw e (bytes_eq_self ys)

occupied : (xs : Bytes) → xs ≢ [] → (length xs == 0) ≡ false
occupied [] ne = absurd (ne refl)
occupied (x ∷ xs) ne = ground arith

empty_cases : (xs : Bytes) → (xs ≡ []) ⊎ (xs ≢ [])
empty_cases [] = inl refl
empty_cases (x ∷ xs) = inr (λ e. cc)

same_cases : (xs ys : Bytes) → (xs ≡ ys) ⊎ (xs ≢ ys)
same_cases xs ys = elim (Bool-cases (bytes_eq xs ys)) [
  | inl same ↦ inl (bytes_eq→eq xs ys same)
  | inr other ↦ inr (bytes_eq-false→ne xs ys other)
]

module _ (h : Host) (program_id : Pubkey) (authority state_info ring_info system : AccountInfo)
    (before : Ledger) where
  abbrev pub state_pda : Pubkey × ℕ
  state_pda = h.derivation.find_program_address (seed_state ∷ authority.key ∷ []) program_id

  abbrev pub ring_pda : Pubkey × ℕ
  ring_pda = h.derivation.find_program_address (seed_ring ∷ authority.key ∷ []) program_id

  -- The demand that is not met first, with the error that names it.
  pub data Refusal : ProgramError → Type 0 where
    unsigned : authority.is_signer ≡ false → Refusal (into missing_signer)
    wrong_system :
        authority.is_signer ≡ true → system.key ≢ h.system.system_id → Refusal incorrect_program_id
    wrong_state :
        authority.is_signer ≡ true
        → system.key ≡ h.system.system_id
        → state_info.key ≢ state_pda.0
        → Refusal (into invalid_state_account)
    wrong_ring :
        authority.is_signer ≡ true
        → system.key ≡ h.system.system_id
        → state_info.key ≡ state_pda.0
        → ring_info.key ≢ ring_pda.0
        → Refusal (into invalid_ring_account)
    taken :
        authority.is_signer ≡ true
        → system.key ≡ h.system.system_id
        → state_info.key ≡ state_pda.0
        → ring_info.key ≡ ring_pda.0
        → (before state_info.key).bytes ≢ []
        → Refusal (into account_already_initialized)

  -- Every demand is met.
  pub record Demands : Type 0 where
    pub signed : authority.is_signer ≡ true
    pub system_is : system.key ≡ h.system.system_id
    pub state_at : state_info.key ≡ state_pda.0
    pub ring_at : ring_info.key ≡ ring_pda.0
    pub empty : (before state_info.key).bytes ≡ []

  pub demand_cases : ((e : ProgramError) × Refusal e) ⊎ Demands
  demand_cases = elim (Bool-cases authority.is_signer) [
    | inr s ↦ inl (_, unsigned s)
    | inl s ↦ elim (same_cases system.key h.system.system_id) [
      | inr other ↦ inl (_, wrong_system s other)
      | inl i ↦ elim (same_cases state_info.key state_pda.0) [
        | inr other ↦ inl (_, wrong_state s i other)
        | inl at ↦ elim (same_cases ring_info.key ring_pda.0) [
          | inr other ↦ inl (_, wrong_ring s i at other)
          | inl ring ↦ elim (empty_cases (before state_info.key).bytes) [
            | inr full ↦ inl (_, taken s i at ring full)
            | inl empty ↦
                inr (record {
                  signed = s;
                  system_is = i;
                  state_at = at;
                  ring_at = ring;
                  empty = empty;
                })
          ]
        ]
      ]
    ]
  ]

  module _ (rest : List AccountInfo) (commitment state_root : Bytes) (epoch : ℕ)
      (root vk : Bytes) where
    abbrev pub result : Result ProgramError Ledger
    result =
        initialize h program_id (authority ∷ state_info ∷ ring_info ∷ system ∷ rest) commitment
          state_root epoch root vk before

    -- What is left once every demand is met.
    abbrev pub install : Result ProgramError Ledger
    install = do
      made ←
          create_pda h program_id authority state_info light_client_len
            (seed_state ∷ authority.key ∷ (state_pda.1 ∷ []) ∷ []) before
      above ← add_u64 epoch 1
      packed ← map_err into (
          pack_into
            (record {
              bump = state_pda.1;
              authority = authority.key;
              accumulator_commitment = commitment;
              latest_state_root = state_root;
              finalized_epoch = epoch;
              finalized_root = root;
              program_vk = vk;
              submission_count = 0;
              accumulator_epoch = above;
            })
            (made state_info.key).bytes)
      let filled = set_bytes state_info.key packed made
      grown ←
          create_pda h program_id authority ring_info ring_len
            (seed_ring ∷ authority.key ∷ (ring_pda.1 ∷ []) ∷ []) filled
      ring ← map_err into (Ring.init (grown ring_info.key).bytes ring_pda.1)
      ok (set_bytes ring_info.key ring grown)

    pub initialize-install : Demands → result ≡ install
    unfolding initialize expect_pda
    initialize-install d = rw (
      d.signed,
      d.system_is,
      bytes_eq_self h.system.system_id,
      d.state_at,
      bytes_eq_self state_pda.0,
      d.ring_at,
      bytes_eq_self ring_pda.0,
      sym d.state_at,
      d.empty,
    )

    -- The result of `initialize` with its reason: a demand that is not met, the system program's
    -- error for the state or for the ring, the overflow, or success.
    pub data Ending : Result ProgramError Ledger → Type 0 where
      refused : (e : ProgramError) → Refusal e → Ending (err e)
      state_denied :
          (e : ProgramError)
          → Demands
          → create_pda h program_id authority state_info light_client_len
              (seed_state ∷ authority.key ∷ (state_pda.1 ∷ []) ∷ [])
              before
            ≡ err e
          → Ending (err e)
      ring_denied :
          (made : Ledger) (e : ProgramError)
          → Demands
          → create_pda h program_id authority state_info light_client_len
              (seed_state ∷ authority.key ∷ (state_pda.1 ∷ []) ∷ [])
              before
            ≡ ok made
          → create_pda h program_id authority ring_info ring_len
              (seed_ring ∷ authority.key ∷ (ring_pda.1 ∷ []) ∷ [])
              (set_bytes state_info.key
                (encode_state
                  (bootstrap state_pda.1 authority.key commitment state_root epoch root vk)
                  [])
                made)
            ≡ err e
          → Ending (err e)
      overflow : Demands → epoch + 1 ≡ 2 ^ 64 → Ending panic
      accepted :
          (after : Ledger)
          → Demands
          → Initialized h program_id
              (authority ∷ state_info ∷ ring_info ∷ system ∷ rest)
              commitment
              state_root
              epoch
              root
              vk
              before
              after
          → Ending (ok after)

    -- A demand that is not met is refused with its error, whatever the arguments are.
    pub initialize-Refusal : (e : ProgramError) → Refusal e → result ≡ err e
    unfolding initialize expect_pda
    initialize-Refusal _ (unsigned s) = rw s refl
    initialize-Refusal _ (wrong_system s other) = rw (s, bytes_eq_ne _ _ other) refl
    initialize-Refusal _ (wrong_state s i other) =
        rw (s, i, bytes_eq_self h.system.system_id, bytes_eq_ne _ _ other) refl
    initialize-Refusal _ (wrong_ring s i at other) =
        rw
          (
            s,
            i,
            bytes_eq_self h.system.system_id,
            at,
            bytes_eq_self state_pda.0,
            bytes_eq_ne _ _ other,
          )
          refl
    initialize-Refusal _ (taken s i at ring full) =
        rw
          (
            s,
            i,
            bytes_eq_self h.system.system_id,
            same_key _ _ at,
            same_key _ _ ring,
            occupied (before state_info.key).bytes full,
          )
          refl
