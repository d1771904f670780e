-- ===== src/Chain/Bootstrap.antt =====
-- `initialize`: the ledger it leaves is one that a run can start from.
use zkasper_solana.Base.{
  ℕ, ◌≡◌, ◌≢◌, sym, ap, ◌∙◌, ◌+◌, bytes_eq, bytes_eq→eq, bytes_eq-false→ne, List, [], ◌∷◌, ◌++◌,
  none, some, Bool-cases, inl, inr, subst, arith,
}
use zkasper_solana.Base.Slices.{Bytes}
use zkasper_solana.Base.Result.{ok, ok-injective}
use zkasper_solana.Base.Words.{IsByte}
use zkasper_solana.Chain.{IsLedger}
use zkasper_solana.Chain.Invariant.{Stands}
use zkasper_solana.Errors.{ZkasperError}
use zkasper_solana.Processor.{Host, expect_pda}
use zkasper_solana.Processor.CreatePda.{Created}
use zkasper_solana.Processor.Typed.{encode_state-bytes}
use zkasper_solana.Runtime.Address.{seed_state, seed_ring}
use zkasper_solana.Runtime.Accounts.{
  Ledger, AccountInfo, Same, store_same, store_apart, with_bytes, set_bytes,
}
use zkasper_solana.State.LightClient
use zkasper_solana.State.LightClient.{
  Pubkey, LightClientState, IsState, light_client_len, pack_into,
}
use zkasper_solana.State.LightClient.Layout.{encode_state, unpack-encode_state}
use zkasper_solana.State.Ring
use zkasper_solana.State.Ring.{FinalizationEntry, ring_len, ring_entries}
use zkasper_solana.State.Ring.Slots.{held}
use zkasper_solana.State.Ring.Fresh.{fresh, bump-fresh, held-fresh, fresh-bytes}

-- The state that `initialize` writes.
abbrev pub bootstrap : ℕ → Pubkey → Bytes → Bytes → ℕ → Bytes → Bytes → LightClientState
bootstrap bump authority commitment state_root epoch root vk = record {
  bump = bump;
  authority = authority;
  accumulator_commitment = commitment;
  latest_state_root = state_root;
  finalized_epoch = epoch;
  finalized_root = root;
  program_vk = vk;
  submission_count = 0;
  accumulator_epoch = epoch + 1;
}

module _ (h : Host) (program_id : Pubkey) where
  pub expect_pda-eq-ok :
      (info : AccountInfo) (seeds : List Bytes) (refusal : ZkasperError) (bump : ℕ)
      → expect_pda h program_id info seeds refusal ≡ ok bump
      → (h.derivation.create_program_address (seeds ++ (bump ∷ []) ∷ []) program_id ≡ some info.key)
        × IsByte bump
  unfolding expect_pda
  expect_pda-eq-ok info seeds refusal bump e =
      elim (Bool-cases (bytes_eq info.key (h.derivation.find_program_address seeds program_id).0)) [
        | inl same ↦
            let key =
              bytes_eq→eq info.key (h.derivation.find_program_address seeds program_id).0 same in
            let found : (h.derivation.find_program_address seeds program_id).1 ≡ bump =
              ok-injective (rw same at e) in
            (
              subst
                  (λ b.
                    h.derivation.create_program_address (seeds ++ (b ∷ []) ∷ []) program_id
                    ≡ some info.key)
                  found (h.derivation.found_is_created seeds program_id ∙ ap some (sym key)),
              subst IsByte found (h.derivation.found_bump_fits seeds program_id),
            )
        | inr other ↦ cc (rw other at e)
      ]

  -- The ledger from the two new accounts: `made` after the state's account is created and `filled`
  -- with `s`, `grown` after the ring's account is created.
  module _ (state_info ring_info : AccountInfo) (s : LightClientState) (ring_bump : ℕ)
      (before made grown : Ledger) (typed : IsLedger before) (v : IsState s) (hb : IsByte ring_bump)
      (state_made : Created h program_id state_info light_client_len before made)
      (ring_made : Created h program_id ring_info ring_len
        (set_bytes state_info.key (encode_state s []) made)
        grown)
      (state_derived : h.derivation.create_program_address
          (seed_state ∷ s.authority ∷ (s.bump ∷ []) ∷ [])
          program_id
        ≡ some state_info.key)
      (ring_derived : h.derivation.create_program_address
          (seed_ring ∷ s.authority ∷ (ring_bump ∷ []) ∷ [])
          program_id
        ≡ some ring_info.key) where
    abbrev filled : Ledger
    filled = set_bytes state_info.key (encode_state s []) made

    abbrev final : Ledger
    final = set_bytes ring_info.key (fresh ring_len ring_bump) grown

    filled_state : filled state_info.key ≡ with_bytes (made state_info.key) (encode_state s [])
    filled_state =
        store_same state_info.key (with_bytes (made state_info.key) (encode_state s [])) made

    -- The ring's account had no data when it was created, and the state's account has.
    distinct : state_info.key ≢ ring_info.key
    distinct same =
        let empty : (filled state_info.key).bytes ≡ [] =
          ap (λ k. (filled k).bytes) same ∙ ring_made.was_empty in
        let none_there : encode_state s [] ≡ [] = sym (ap (λ a. a.bytes) filled_state) ∙ empty in
        cc none_there

    final_state : Same (with_bytes (made state_info.key) (encode_state s [])) (final state_info.key)
    final_state =
        rw
          (store_apart ring_info.key (with_bytes (grown ring_info.key) (fresh ring_len ring_bump))
            grown state_info.key distinct)
          (let kept = ring_made.others state_info.key distinct in
            record {
              bytes = kept.bytes ∙ ap (λ a. a.bytes) filled_state;
              owner = kept.owner ∙ ap (λ a. a.owner) filled_state;
            })

    final_ring : final ring_info.key ≡ with_bytes (grown ring_info.key) (fresh ring_len ring_bump)
    final_ring =
        store_same ring_info.key (with_bytes (grown ring_info.key) (fresh ring_len ring_bump)) grown

    final_typed : IsLedger final
    final_typed key = elim (Bool-cases (bytes_eq key ring_info.key)) [
      | inl at_ring ↦
          rw (bytes_eq→eq key ring_info.key at_ring, final_ring)
            (fresh-bytes ring_len ring_bump (omega arith) hb)
      | inr not_ring ↦
          let apart = bytes_eq-false→ne key ring_info.key not_ring in
          elim (Bool-cases (bytes_eq key state_info.key)) [
            | inl at_state ↦
                rw (bytes_eq→eq key state_info.key at_state, final_state.bytes)
                  (encode_state-bytes s v [] tt)
            | inr not_state ↦
                let other = bytes_eq-false→ne key state_info.key not_state in
                let same : (final key).bytes ≡ (before key).bytes =
                  ap (λ a. a.bytes)
                    (store_apart ring_info.key
                      (with_bytes (grown ring_info.key) (fresh ring_len ring_bump)) grown key apart)
                  ∙ (ring_made.others key apart).bytes
                  ∙ ap (λ a. a.bytes)
                      (store_apart state_info.key
                        (with_bytes (made state_info.key) (encode_state s [])) made key other)
                  ∙ (state_made.others key other).bytes in
                rw same (typed key)
          ]
    ]

    pub final-Stands : Stands h program_id state_info ring_info s (λ _. none) final
    final-Stands = record {
      typed = final_typed;
      valid = v;
      state_at = record {
        owned = final_state.owner ∙ state_made.owned;
        decodes = ap LightClient.unpack final_state.bytes ∙ unpack-encode_state s v [];
        derived = state_derived;
      };
      ring_at = record {
        owned = ap (λ a. a.owner) final_ring ∙ ring_made.owned;
        bump = ring_bump;
        names_bump =
            ap (λ a. Ring.bump a.bytes) final_ring ∙ bump-fresh ring_len ring_bump (omega arith);
        derived = ring_derived;
      };
      holds = λ i lt.
          ap (λ a. held a.bytes i) final_ring ∙ held-fresh ring_len ring_bump (omega arith) i lt;
    }
