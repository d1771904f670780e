-- ===== src/Processor/Landed.antt =====
-- The ledger after an accepted finalization, read back account by account.
use zkasper_solana.Base.{
  ◌≡◌, refl, sym, ap, ◌∙◌, ◌≢◌, ◌<◌, ◌+◌, ◌^◌, List, [], ◌∷◌, All, subst, drop, Bool-cases, inl,
  inr, bytes_eq, bytes_eq→eq, bytes_eq-false→ne,
}
use zkasper_solana.Base.Slices.{Bytes}
use zkasper_solana.Base.Result.{ok, map_err, >>=-eq-ok, map_err-eq-ok, ok-injective}
use zkasper_solana.Base.Words.{IsByte}
use zkasper_solana.Errors.{into}
use zkasper_solana.Processor.{
  Host, expect_state, expect_ring, expect_next, verify, entry_of, submit_finalization,
}
use zkasper_solana.Processor.Checks.{
  StateAt, RingAt, RingAt-IsRing, expect_state-eq-ok, expect_ring-eq-ok, expect_next-eq-ok,
}
use zkasper_solana.Processor.Submit.{
  landed, advanced, Admits, Admits-apart, add_u64-eq-ok, advance-IsState, entry_of-IsEntry,
  submit_finalization-accepts,
}
use zkasper_solana.Runtime.Accounts.{
  Account, Ledger, AccountInfo, store, store_same, store_apart, with_bytes, add_u64,
}
use zkasper_solana.State.LightClient
use zkasper_solana.State.LightClient.{Pubkey, LightClientState, IsState, light_client_len}
use zkasper_solana.State.LightClient.Layout.{encode_state, unpack-encode_state}
use zkasper_solana.State.LightClient.Unpack.{unpack-eq-ok}
use zkasper_solana.State.Ring
use zkasper_solana.State.Ring.Slots.{IsRing}
use zkasper_solana.State.Ring.Write.{after, bump-after}
use zkasper_solana.Wire.{FinalizationOutput, IsOutput}

module _ (h : Host) (program_id : Pubkey) where
  -- What an accepted submission has been given, and the ledger it left.
  pub record Submitted (accounts : List AccountInfo) (proof : Bytes) (output : FinalizationOutput)
      (before after : Ledger) : Type 0 where
    pub state_info : AccountInfo
    pub ring_info : AccountInfo
    pub rest : List AccountInfo
    pub state : LightClientState
    pub accounts_are : accounts ≡ state_info ∷ ring_info ∷ rest
    pub valid : IsState state
    pub admits : Admits h program_id state_info.key ring_info.key state proof output before
    pub lands : after ≡ landed state_info.key ring_info.key state output before

  pub submit_finalization-Admits :
      (state_info ring_info : AccountInfo) (rest : List AccountInfo) (proof : Bytes)
      (output : FinalizationOutput) (before after : Ledger)
      → submit_finalization h program_id (state_info ∷ ring_info ∷ rest) proof output before
        ≡ ok after
      → (s : LightClientState) × Admits h program_id state_info.key ring_info.key s proof output
          before
  unfolding submit_finalization
  submit_finalization-Admits state_info ring_info rest proof output before after e =
      let (s, located, e1) = >>=-eq-ok (expect_state h program_id state_info before) _ e in
      let (u, next, e2) = >>=-eq-ok (expect_next s output) _ e1 in
      let (v, ring, e3) =
        >>=-eq-ok (map_err into (expect_ring h program_id ring_info s.authority before)) _ e2 in
      let (w, proved, e4) = >>=-eq-ok (map_err into (verify h proof s.program_vk output)) _ e3 in
      let (count, counted, e5) = >>=-eq-ok (add_u64 s.submission_count 1) _ e4 in
      let (sum, small) = add_u64-eq-ok s.submission_count 1 count counted in
      (
        s,
        record {
          state_at = expect_state-eq-ok h program_id state_info before s located;
          ring_at =
              expect_ring-eq-ok h program_id ring_info s.authority before
                (map_err-eq-ok into _ ring);
          next = expect_next-eq-ok s output next;
          proved = map_err-eq-ok into _ proved;
          countable = subst (λ n. n < 2 ^ 64) (sym sum) small;
        },
      )

  -- A submission that is accepted has met every demand, and it leaves the ledger `landed`.
  pub submit_finalization-eq-ok :
      (accounts : List AccountInfo) (proof : Bytes) (output : FinalizationOutput)
      (before after : Ledger)
      → ((key : Pubkey) → All IsByte (before key).bytes)
      → IsOutput output
      → submit_finalization h program_id accounts proof output before ≡ ok after
      → Submitted accounts proof output before after
  unfolding submit_finalization
  submit_finalization-eq-ok [] proof output before after b o e = cc
  submit_finalization-eq-ok (state_info ∷ []) proof output before after b o e = cc
  submit_finalization-eq-ok (state_info ∷ ring_info ∷ rest) proof output before after b o e =
      let (s, admits) =
        submit_finalization-Admits state_info ring_info rest proof output before after e in
      let valid =
        (unpack-eq-ok (before state_info.key).bytes s (b state_info.key)
          admits.state_at.decodes).valid in
      record {
        state_info = state_info;
        ring_info = ring_info;
        rest = rest;
        state = s;
        accounts_are = refl;
        valid = valid;
        admits = admits;
        lands = ok-injective (
            sym e
            ∙ submit_finalization-accepts h program_id state_info ring_info rest s proof output
                before valid o admits);
      }

  module _ {state_key ring_key : Pubkey} {s : LightClientState} {proof : Bytes}
      {output : FinalizationOutput} {ledger : Ledger} (v : IsState s) (o : IsOutput output)
      (a : Admits h program_id state_key ring_key s proof output ledger) where
    abbrev packed : Bytes
    packed = encode_state (advanced s output) (drop light_client_len (ledger state_key).bytes)

    abbrev written_ring : Account
    written_ring = with_bytes (ledger ring_key) (after (ledger ring_key).bytes (entry_of output))

    apart : ring_key ≢ state_key
    apart = Admits-apart h program_id a

    landed-stores :
        landed state_key ring_key s output ledger
        ≡ store ring_key written_ring
            (store state_key (with_bytes (ledger state_key) packed) ledger)
    unfolding landed
    landed-stores =
        rw (store_apart state_key (with_bytes (ledger state_key) packed) ledger ring_key apart)

    -- The state's account decodes to the advanced state; its lamports and owner stay.
    pub landed-state :
        landed state_key ring_key s output ledger state_key ≡ with_bytes (ledger state_key) packed
    landed-state =
        ap (λ l. l state_key) landed-stores
        ∙ store_apart ring_key written_ring
            (store state_key (with_bytes (ledger state_key) packed) ledger) state_key
            (λ same. apart (sym same))
        ∙ store_same state_key (with_bytes (ledger state_key) packed) ledger

    landed-ring : landed state_key ring_key s output ledger ring_key ≡ written_ring
    landed-ring =
        ap (λ l. l ring_key) landed-stores
        ∙ store_same ring_key written_ring
            (store state_key (with_bytes (ledger state_key) packed) ledger)

    pub landed-other :
        (key : Pubkey)
        → key ≢ state_key
        → key ≢ ring_key
        → landed state_key ring_key s output ledger key ≡ ledger key
    landed-other key not_state not_ring =
        ap (λ l. l key) landed-stores
        ∙ store_apart ring_key written_ring
            (store state_key (with_bytes (ledger state_key) packed) ledger) key not_ring
        ∙ store_apart state_key (with_bytes (ledger state_key) packed) ledger key not_state

    -- The account's owner and lamports stay, whichever account it is.
    pub landed-keeps :
        (key : Pubkey)
        → ((landed state_key ring_key s output ledger key).owner ≡ (ledger key).owner)
          × ((landed state_key ring_key s output ledger key).lamports ≡ (ledger key).lamports)
    landed-keeps key = elim (Bool-cases (bytes_eq key state_key)) [
      | inl at_state ↦ rw (bytes_eq→eq key state_key at_state, landed-state) (refl, refl)
      | inr not_state ↦ elim (Bool-cases (bytes_eq key ring_key)) [
        | inl at_ring ↦ rw (bytes_eq→eq key ring_key at_ring, landed-ring) (refl, refl)
        | inr not_ring ↦
            rw
              (landed-other key (bytes_eq-false→ne key state_key not_state)
                (bytes_eq-false→ne key ring_key not_ring))
              (refl, refl)
      ]
    ]

    pub landed-decodes :
        LightClient.unpack (landed state_key ring_key s output ledger state_key).bytes
        ≡ ok (advanced s output)
    landed-decodes = rw landed-state (
        unpack-encode_state (advanced s output) (advance-IsState s output _ v o a.countable)
          (drop light_client_len (ledger state_key).bytes))

    pub landed-ring_bytes :
        (landed state_key ring_key s output ledger ring_key).bytes
        ≡ after (ledger ring_key).bytes (entry_of output)
    landed-ring_bytes = ap (λ x. x.bytes) landed-ring

    is_ring : IsRing (ledger ring_key).bytes
    is_ring = RingAt-IsRing h program_id ring_key s.authority ledger a.ring_at

    -- The two accounts are still the light client's, so the next submission finds them.
    pub landed-StateAt :
        StateAt h program_id state_key
          (landed state_key ring_key s output ledger)
          (advanced s output)
    landed-StateAt = record {
      owned = (landed-keeps state_key).0 ∙ a.state_at.owned;
      decodes = landed-decodes;
      derived = a.state_at.derived;
    }

    pub landed-RingAt :
        RingAt h program_id ring_key s.authority (landed state_key ring_key s output ledger)
    landed-RingAt = record {
      owned = (landed-keeps ring_key).0 ∙ a.ring_at.owned;
      bump = a.ring_at.bump;
      names_bump =
          ap Ring.bump landed-ring_bytes
          ∙ bump-after (ledger ring_key).bytes (entry_of output) is_ring (entry_of-IsEntry output o)
          ∙ a.ring_at.names_bump;
      derived = a.ring_at.derived;
    }

    pub advanced-IsState : IsState (advanced s output)
    advanced-IsState = advance-IsState s output (s.submission_count + 1) v o a.countable
