-- ===== src/Processor/Submit.antt =====
-- `submit_finalization`: when it accepts, and the ledger it leaves.
use zkasper_solana.Base.{
  ℕ, ◌≡◌, ◌≢◌, ◌+◌, ◌^◌, true, ltb, List, ◌∷◌, drop, arith, subst, Bool-cases, inl, inr,
}
use zkasper_solana.Base.Slices.{Bytes}
use zkasper_solana.Base.Result.{Result, ok, ok-injective}
use zkasper_solana.Base.Words.{IsU64}
use zkasper_solana.Errors.{ProgramError}
use zkasper_solana.Processor.{Host, verify, advance, entry_of, submit_finalization}
use zkasper_solana.Processor.Checks.{
  StateAt, RingAt, Next, RingAt-IsRing, expect_state-StateAt, expect_ring-RingAt, expect_next-Next,
  unpack-ne-IsRing, unpack-long,
}
use zkasper_solana.Runtime.Accounts.{
  Ledger, AccountInfo, store_apart, with_bytes, set_bytes, add_u64,
}
use zkasper_solana.State.LightClient.{Pubkey, LightClientState, IsState, light_client_len}
use zkasper_solana.State.LightClient.Layout.{encode_state, pack_into-encode_state}
use zkasper_solana.State.Ring.{IsEntry}
use zkasper_solana.State.Ring.Slots.{IsRing}
use zkasper_solana.State.Ring.Write.{after, write_entry-after}
use zkasper_solana.Wire.{FinalizationOutput, IsOutput}

pub add_u64-eq-ok :
    {E : Type 0} (a b c : ℕ) → ◌≡◌ {A = Result E ℕ} (add_u64 a b) (ok c) → (a + b ≡ c) × IsU64 c
unfolding add_u64
add_u64-eq-ok a b c e = elim (Bool-cases (ltb (a + b) (2 ^ 64))) [
  | inl fits ↦
      let same : a + b ≡ c = ok-injective (rw fits at e) in (same, ground (arith, fits, same))
  | inr over ↦ cc (rw over at e)
]

pub add_u64-fits :
    {E : Type 0} (a b : ℕ) → IsU64 (a + b) → ◌≡◌ {A = Result E ℕ} (add_u64 a b) (ok (a + b))
unfolding add_u64
add_u64-fits a b h = let fits : ltb (a + b) (2 ^ 64) ≡ true = ground arith in rw fits

pub advance-IsState :
    (s : LightClientState) (output : FinalizationOutput) (count : ℕ)
    → IsState s
    → IsOutput output
    → IsU64 count
    → IsState (advance s output count)
advance-IsState s output count v o c = record {
  bump = v.bump;
  authority = v.authority;
  accumulator_commitment = o.next_accumulator_commitment;
  latest_state_root = o.finalized_state_root;
  finalized_epoch = o.finalized_epoch;
  finalized_root = o.finalized_root;
  program_vk = v.program_vk;
  submission_count = c;
  accumulator_epoch = o.justified_epoch;
}

pub entry_of-IsEntry : (output : FinalizationOutput) → IsOutput output → IsEntry (entry_of output)
entry_of-IsEntry output o = record {
  finalized_epoch = o.finalized_epoch;
  finalized_root = o.finalized_root;
  finalized_state_root = o.finalized_state_root;
}

-- The state after `output` is accepted.
abbrev pub advanced : LightClientState → FinalizationOutput → LightClientState
advanced s output = advance s output (s.submission_count + 1)

-- The ledger after `output` is accepted for the state `s` at `state_key` and the ring at `ring_key`.
unfoldable pub landed : Pubkey → Pubkey → LightClientState → FinalizationOutput → Ledger → Ledger
landed state_key ring_key s output ledger =
    set_bytes ring_key (after (ledger ring_key).bytes (entry_of output)) (
      set_bytes state_key
        (encode_state (advanced s output) (drop light_client_len (ledger state_key).bytes)) ledger)

module _ (h : Host) (program_id : Pubkey) where
  -- Everything that `submit_finalization` asks for.
  pub record Admits (state_key ring_key : Pubkey) (s : LightClientState) (proof : Bytes)
      (output : FinalizationOutput) (ledger : Ledger) : Type 0 where
    pub state_at : StateAt h program_id state_key ledger s
    pub ring_at : RingAt h program_id ring_key s.authority ledger
    pub next : Next s output
    pub proved : verify h proof s.program_vk output ≡ ok tt
    pub countable : IsU64 (s.submission_count + 1)

  -- The state and the ring are different accounts.
  pub Admits-apart :
      {state_key ring_key : Pubkey} {s : LightClientState} {proof : Bytes}
      {output : FinalizationOutput} {ledger : Ledger}
      → Admits state_key ring_key s proof output ledger
      → ring_key ≢ state_key
  Admits-apart {state_key} {ring_key} {s} {ledger = ledger} a same =
      unpack-ne-IsRing (ledger state_key).bytes s a.state_at.decodes (
        subst (λ k. IsRing (ledger k).bytes) same
          (RingAt-IsRing h program_id ring_key s.authority ledger a.ring_at))

  -- When a well-typed state and output meet everything that is asked for, the submission succeeds and
  -- leaves the ledger `landed`.
  pub submit_finalization-accepts :
      (state_info ring_info : AccountInfo) (rest : List AccountInfo) (s : LightClientState)
      (proof : Bytes) (output : FinalizationOutput) (ledger : Ledger)
      → IsState s
      → IsOutput output
      → Admits state_info.key ring_info.key s proof output ledger
      → submit_finalization h program_id (state_info ∷ ring_info ∷ rest) proof output ledger
        ≡ ok (landed state_info.key ring_info.key s output ledger)
  unfolding submit_finalization landed
  submit_finalization-accepts state_info ring_info rest s proof output ledger v o a =
      let next = advanced s output in
      let packed = encode_state next (drop light_client_len (ledger state_info.key).bytes) in
      let is_ring = RingAt-IsRing h program_id ring_info.key s.authority ledger a.ring_at in
      rw (
        expect_state-StateAt h program_id state_info ledger s a.state_at,
        expect_next-Next s output a.next,
        expect_ring-RingAt h program_id ring_info s.authority ledger a.ring_at,
        a.proved,
        add_u64-fits {E = ProgramError} s.submission_count 1 a.countable,
        pack_into-encode_state next (advance-IsState s output _ v o a.countable)
            (ledger state_info.key).bytes (unpack-long _ s a.state_at.decodes),
        store_apart state_info.key (with_bytes (ledger state_info.key) packed) ledger ring_info.key
            (Admits-apart a),
        write_entry-after (ledger ring_info.key).bytes (entry_of output) is_ring
            (entry_of-IsEntry output o),
      )
