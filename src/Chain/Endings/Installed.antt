-- ===== src/Chain/Endings/Installed.antt =====
-- Every way in which `initialize` can end: the creation of the two accounts.
use zkasper_solana.Base.{
  ℕ, ◌≡◌, refl, ◌∙◌, ◌+◌, ◌^◌, ltb, false, inl, inr, List, [], ◌∷◌, All, arith,
}
use zkasper_solana.Base.Slices.{Bytes}
use zkasper_solana.Base.Result.{Result, ok, err, panic, ◌>>=◌, map_err}
use zkasper_solana.Base.Words.{IsArray, IsU64}
use zkasper_solana.Base.Yields.{Yields-cases}
use zkasper_solana.Chain.{IsLedger}
use zkasper_solana.Chain.Bootstrap.{bootstrap}
use zkasper_solana.Chain.Initialize.{initialize-eq-ok, packed_new}
use zkasper_solana.Errors.{ProgramError, into}
use zkasper_solana.Instruction
use zkasper_solana.Instruction.Payload.{IsInstruction}
use zkasper_solana.Processor.{Host, create_pda, initialize}
use zkasper_solana.Processor.CreatePda.{Created}
use zkasper_solana.Processor.Submit.{add_u64-fits}
use zkasper_solana.Processor.Total.{SystemReturns, create_pda-Yields}
use zkasper_solana.Runtime.Address.{seed_state, seed_ring}
use zkasper_solana.Runtime.Accounts.{Ledger, AccountInfo, add_u64, set_bytes}
use zkasper_solana.State.LightClient.{Pubkey, LightClientState, IsState, light_client_len}
use zkasper_solana.State.Ring
use zkasper_solana.State.Ring.{ring_len}
use zkasper_solana.State.Ring.Fresh.{fresh, init-fresh}
use zkasper_solana.State.LightClient.Layout.{encode_state}
use native.Mathlib.Decide.{dec_lt}
use zkasper_solana.Chain.Endings
use zkasper_solana.Chain.Endings.{
  Refusal, Demands, Ending, refused, state_denied, ring_denied, overflow, accepted, state_pda,
  ring_pda, demand_cases, initialize-install, initialize-Refusal,
}

module _ (h : Host) (program_id : Pubkey) (authority state_info ring_info system : AccountInfo)
    (before : Ledger) (rest : List AccountInfo) (commitment state_root : Bytes) (epoch : ℕ)
    (root vk : Bytes) where
  abbrev Met : Type 0
  Met = Demands h program_id authority state_info ring_info system before

  abbrev Ends : Result ProgramError Ledger → Type 0
  Ends =
      Ending h program_id authority state_info ring_info system before rest commitment state_root
        epoch root vk

  abbrev result : Result ProgramError Ledger
  result =
      Endings.result h program_id authority state_info ring_info system before rest commitment
        state_root epoch root vk

  abbrev install : Result ProgramError Ledger
  install =
      Endings.install h program_id authority state_info ring_info system before rest commitment
        state_root epoch root vk

  abbrev entered : Met → result ≡ install
  entered =
      initialize-install h program_id authority state_info ring_info system before rest commitment
        state_root epoch root vk

  abbrev state_of : Pubkey × ℕ
  state_of = state_pda h program_id authority state_info ring_info system before

  abbrev ring_of : Pubkey × ℕ
  ring_of = ring_pda h program_id authority state_info ring_info system before

  abbrev first : LightClientState
  first = bootstrap state_of.1 authority.key commitment state_root epoch root vk

  abbrev create_state : Result ProgramError Ledger
  create_state =
      create_pda h program_id authority state_info light_client_len
        (seed_state ∷ authority.key ∷ (state_of.1 ∷ []) ∷ []) before

  -- The ledger once the state is stored.
  abbrev filled_from : Ledger → Ledger
  filled_from made = set_bytes state_info.key (encode_state first []) made

  abbrev create_ring : Ledger → Result ProgramError Ledger
  create_ring made =
      create_pda h program_id authority ring_info ring_len
        (seed_ring ∷ authority.key ∷ (ring_of.1 ∷ []) ∷ []) (filled_from made)

  install-denied : (e : ProgramError) → create_state ≡ err e → install ≡ err e
  install-denied e denied = rw denied

  install-overflow : (made : Ledger) → create_state ≡ ok made → epoch + 1 ≡ 2 ^ 64 → install ≡ panic
  unfolding add_u64
  install-overflow made created full =
      let over : ltb (epoch + 1) (2 ^ 64) ≡ false = ground (arith, full) in rw (created, over)

  module _ (r : SystemReturns h.system) (typed : IsLedger before)
      (keys : All (λ a. IsArray 32 a.key) (authority ∷ state_info ∷ ring_info ∷ system ∷ rest))
      (args : IsInstruction (Instruction.initialize commitment state_root epoch root vk)) where
    first-IsState : IsU64 (epoch + 1) → IsState first
    first-IsState fits = record {
      bump = h.derivation.found_bump_fits (seed_state ∷ authority.key ∷ []) program_id;
      authority = keys.0;
      accumulator_commitment = args.0;
      latest_state_root = args.1;
      finalized_epoch = args.2;
      finalized_root = args.3;
      program_vk = args.4;
      submission_count = omega arith;
      accumulator_epoch = fits;
    }

    -- The handler behind the creation and the count, with the state stored.
    install-filled :
        (made : Ledger)
        → create_state ≡ ok made
        → Created h program_id state_info light_client_len before made
        → IsU64 (epoch + 1)
        → install ≡ (do
          grown ← create_ring made
          ring ← map_err into (Ring.init (grown ring_info.key).bytes ring_of.1)
          ok (set_bytes ring_info.key ring grown))
    install-filled made state_made created fits = rw (
      state_made,
      add_u64-fits {E = ProgramError} epoch 1 fits,
      packed_new h program_id first (made state_info.key).bytes (first-IsState fits) created.blank,
    )

    ring_created :
        (d : Met) (made : Ledger)
        → create_state ≡ ok made
        → Created h program_id state_info light_client_len before made
        → IsU64 (epoch + 1)
        → Ends result
    ring_created d made state_made created fits =
        let whole = entered d ∙ install-filled made state_made created fits in
        elim (Yields-cases (create_ring made) (create_pda-Yields h program_id _ _ _ _ _ r)) [
          | inl (e, denied) ↦
              let failed : result ≡ err e = whole ∙ rw denied refl in
              rw failed (ring_denied made e d state_made denied)
          | inr (grown, ring_made, ring_new) ↦
              let done : result ≡ ok (set_bytes ring_info.key (fresh ring_len ring_of.1) grown) =
                whole
                ∙ rw (ring_made, ring_new.blank, init-fresh ring_len ring_of.1 (omega arith))
                    refl in
              rw done (
                accepted _ d (
                  initialize-eq-ok h program_id _ commitment state_root epoch root vk before _ keys
                    args typed done))
        ]

    -- The handler once every demand is met.
    installed : Met → Ends result
    installed d = elim (Yields-cases create_state (create_pda-Yields h program_id _ _ _ _ _ r)) [
      | inl (e, denied) ↦ rw (entered d ∙ install-denied e denied) (state_denied e d denied)
      | inr (made, state_made, created) ↦ elim (dec_lt (epoch + 1) (2 ^ 64)) [
        | yes fits ↦ ring_created d made state_made created fits
        | no over ↦
            let full : epoch + 1 ≡ 2 ^ 64 = omega (arith, args.2) in
            rw (entered d ∙ install-overflow made state_made full) (overflow d full)
      ]
    ]

    -- On a ledger of byte strings, with keys of 32 bytes, arguments of their Rust types and a system
    -- program that returns, an `initialize` on four accounts or more has one ending, with its
    -- reason: the first demand that is not met, refused with its own error; the system program's
    -- error for the state's account or for the ring's; the panic at the last epoch of a u64; or,
    -- with every demand met, the ledger of a new light client.
    pub initialize-Ending : Ends (
        initialize h program_id
          (authority ∷ state_info ∷ ring_info ∷ system ∷ rest)
          commitment
          state_root
          epoch
          root
          vk
          before)
    initialize-Ending =
        elim (demand_cases h program_id authority state_info ring_info system before) [
          | inl (e, refusal) ↦
              rw
                (initialize-Refusal h program_id authority state_info ring_info system before rest
                  commitment state_root epoch root vk e refusal)
                (refused e refusal)
          | inr d ↦ installed d
        ]
