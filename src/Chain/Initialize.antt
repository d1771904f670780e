-- ===== src/Chain/Initialize.antt =====
-- `initialize`: what it asks for, and the light client it leaves.
use zkasper_solana.Base.{
  ℕ, ◌≡◌, refl, sym, not, ◌==◌, bytes_eq, List, [], ◌∷◌, length, All, none, some, true, subst,
  arith,
}
use zkasper_solana.Base.Slices.{Bytes}
use zkasper_solana.Base.Result.{
  ok, ◌>>=◌, refuse_if, map_err, >>=-eq-ok, map_err-eq-ok, refuse_unless-eq-ok, ok-injective,
}
use zkasper_solana.Base.Memory.{zeros, length-zeros}
use zkasper_solana.Base.Words.{IsByte, IsU64, IsArray}
use zkasper_solana.Chain.{IsLedger}
use zkasper_solana.Chain.Invariant.{Stands}
use zkasper_solana.Errors.{
  into, missing_signer, incorrect_program_id, invalid_state_account, invalid_ring_account,
  account_already_initialized,
}
use zkasper_solana.Instruction
use zkasper_solana.Instruction.Payload.{IsInstruction}
use zkasper_solana.Processor.{Host, expect_pda, create_pda, initialize}
use zkasper_solana.Processor.CreatePda.{Created, create_pda-Created}
use zkasper_solana.Processor.Submit.{add_u64-eq-ok}
use zkasper_solana.Runtime.Address.{seed_state, seed_ring}
use zkasper_solana.Runtime.Accounts.{Ledger, AccountInfo, set_bytes, add_u64}
use zkasper_solana.State.LightClient.{
  Pubkey, LightClientState, IsState, light_client_len, pack_into,
}
use zkasper_solana.State.LightClient.Layout.{encode_state, pack_into-encode_state}
use zkasper_solana.State.Ring
use zkasper_solana.State.Ring.{FinalizationEntry, ring_len, ring_entries}
use zkasper_solana.State.Ring.Fresh.{init-fresh}
use zkasper_solana.Chain.Bootstrap.{bootstrap, expect_pda-eq-ok, final-Stands}

module _ (h : Host) (program_id : Pubkey) where
  -- What a successful `initialize` was given, and what it left.
  pub record Initialized (accounts : List AccountInfo) (commitment state_root : Bytes) (epoch : ℕ)
      (root vk : Bytes) (before after : Ledger) : Type 0 where
    pub authority : AccountInfo
    pub state_info : AccountInfo
    pub ring_info : AccountInfo
    pub system : AccountInfo
    pub rest : List AccountInfo
    pub bump : ℕ
    pub accounts_are : accounts ≡ authority ∷ state_info ∷ ring_info ∷ system ∷ rest
    pub signs : authority.is_signer ≡ true
    pub was_empty : (before state_info.key).bytes ≡ []
    pub stands :
        Stands h program_id state_info ring_info
          (bootstrap bump authority.key commitment state_root epoch root vk)
          (λ _. none)
          after

  pub packed_new :
      (s : LightClientState) (bytes : Bytes)
      → IsState s
      → bytes ≡ zeros light_client_len
      → pack_into s bytes ≡ ok (encode_state s [])
  unfolding zeros
  packed_new s bytes v blank = rw blank (
      pack_into-encode_state s v (zeros light_client_len)
        (omega (arith, length-zeros light_client_len)))

  -- The handler from the first `create_pda` on.
  installs :
      (authority state_info ring_info : AccountInfo) (s : LightClientState) (ring_bump : ℕ)
      (before made after : Ledger)
      → IsLedger before
      → IsState s
      → IsByte ring_bump
      → (h.derivation.create_program_address
            (seed_state ∷ s.authority ∷ (s.bump ∷ []) ∷ [])
            program_id
          ≡ some state_info.key)
      → (h.derivation.create_program_address
            (seed_ring ∷ s.authority ∷ (ring_bump ∷ []) ∷ [])
            program_id
          ≡ some ring_info.key)
      → Created h program_id state_info light_client_len before made
      → (do
        packed ← map_err into (pack_into s (made state_info.key).bytes)
        grown ←
            create_pda h program_id authority ring_info ring_len
              (seed_ring ∷ s.authority ∷ (ring_bump ∷ []) ∷ [])
              (set_bytes state_info.key packed made)
        ring ← map_err into (Ring.init (grown ring_info.key).bytes ring_bump)
        ok (set_bytes ring_info.key ring grown))
        ≡ ok after
      → Stands h program_id state_info ring_info s (λ _. none) after
  installs authority state_info ring_info s ring_bump before made after typed v hb state_at ring_at
        created e =
      let e1 = rw (packed_new s (made state_info.key).bytes v created.blank) at e in
      let filled = set_bytes state_info.key (encode_state s []) made in
      let (grown, ring_made, e2) =
        >>=-eq-ok
          (create_pda h program_id authority ring_info ring_len
            (seed_ring ∷ s.authority ∷ (ring_bump ∷ []) ∷ []) filled)
          _ e1 in
      let ring_created =
        create_pda-Created h program_id authority ring_info ring_len
          (seed_ring ∷ s.authority ∷ (ring_bump ∷ []) ∷ []) filled grown ring_made in
      let e3 = rw (ring_created.blank, init-fresh ring_len ring_bump (omega arith)) at e2 in
      subst (Stands h program_id state_info ring_info s (λ _. none)) (ok-injective e3) (
        final-Stands h program_id state_info ring_info s ring_bump before made grown typed v hb
          created ring_created state_at ring_at)

  -- An `initialize` that succeeds was signed by its authority and found no data in the state's
  -- account, and it leaves a ledger that stands for the state of its arguments, one epoch below its
  -- accumulator's, and for a ring that holds nothing, both at the addresses derived for the authority.
  pub initialize-eq-ok :
      (accounts : List AccountInfo) (commitment state_root : Bytes) (epoch : ℕ) (root vk : Bytes)
      (before after : Ledger)
      → All (λ a. IsArray 32 a.key) accounts
      → IsInstruction (Instruction.initialize commitment state_root epoch root vk)
      → IsLedger before
      → initialize h program_id accounts commitment state_root epoch root vk before ≡ ok after
      → Initialized accounts commitment state_root epoch root vk before after
  unfolding initialize
  initialize-eq-ok [] commitment state_root epoch root vk before after keys args typed e = cc
  initialize-eq-ok (a ∷ []) commitment state_root epoch root vk before after keys args typed e = cc
  initialize-eq-ok (a ∷ b ∷ []) commitment state_root epoch root vk before after keys args typed e =
      cc
  initialize-eq-ok (a ∷ b ∷ c ∷ []) commitment state_root epoch root vk before after keys args typed
        e =
      cc
  initialize-eq-ok (authority ∷ state_info ∷ ring_info ∷ system ∷ rest) commitment state_root epoch
        root vk before after keys args typed e =
      let state_seeds = seed_state ∷ authority.key ∷ [] in
      let ring_seeds = seed_ring ∷ authority.key ∷ [] in
      let (u0, signs, e0) =
        >>=-eq-ok (refuse_if (not authority.is_signer) (into missing_signer)) _ e in
      let (u1, system_is, e1) =
        >>=-eq-ok (refuse_if (not (bytes_eq system.key h.system.system_id)) incorrect_program_id) _
          e0 in
      let (bump, state_pda, e2) =
        >>=-eq-ok
          (map_err into (expect_pda h program_id state_info state_seeds invalid_state_account)) _
          e1 in
      let (ring_bump, ring_pda, e3) =
        >>=-eq-ok (map_err into (expect_pda h program_id ring_info ring_seeds invalid_ring_account))
          _ e2 in
      let (u4, empty, e4) =
        >>=-eq-ok
          (refuse_if (not (length (before state_info.key).bytes == 0))
            (into account_already_initialized))
          _ e3 in
      let (made, state_made, e5) =
        >>=-eq-ok
          (create_pda h program_id authority state_info light_client_len
            (seed_state ∷ authority.key ∷ (bump ∷ []) ∷ []) before)
          _ e4 in
      let (acc_epoch, counted, e6) = >>=-eq-ok (add_u64 epoch 1) _ e5 in
      let (sum, fits) = add_u64-eq-ok epoch 1 acc_epoch counted in
      let e7 = rw (sym sum) at e6 in
      let (state_at, bump_fits) =
        expect_pda-eq-ok h program_id state_info state_seeds invalid_state_account bump
          (map_err-eq-ok into _ state_pda) in
      let (ring_at, ring_bump_fits) =
        expect_pda-eq-ok h program_id ring_info ring_seeds invalid_ring_account ring_bump
          (map_err-eq-ok into _ ring_pda) in
      let s = bootstrap bump authority.key commitment state_root epoch root vk in
      let created =
        create_pda-Created h program_id authority state_info light_client_len
          (seed_state ∷ authority.key ∷ (bump ∷ []) ∷ []) before made state_made in
      let v : IsState s = record {
        bump = bump_fits;
        authority = keys.0;
        accumulator_commitment = args.0;
        latest_state_root = args.1;
        finalized_epoch = args.2;
        finalized_root = args.3;
        program_vk = args.4;
        submission_count = omega arith;
        accumulator_epoch = subst IsU64 (sym sum) fits;
      } in
      record {
        authority = authority;
        state_info = state_info;
        ring_info = ring_info;
        system = system;
        rest = rest;
        bump = bump;
        accounts_are = refl;
        signs = refuse_unless-eq-ok authority.is_signer (into missing_signer) signs;
        was_empty = created.was_empty;
        stands =
            installs authority state_info ring_info s ring_bump before made after typed v
              ring_bump_fits state_at ring_at created e7;
      }
