-- ===== src/Processor/Checked.antt =====
-- The two account checks of program/src/processor.rs, with the reason of each refusal.
pub mod Reasons
use zkasper_solana.Base.{
  ℕ, ◌≡◌, ◌≢◌, ap, refl, ◌⊎◌, true, false, ◌<◌, ◌≤◌, [], ◌∷◌, All, Option, none, some, get_elem?,
  length, arith, bytes_eq, bytes_eq→eq, bytes_eq-false→ne, bytes_eq_self, Bool-cases, inl, inr, ltb,
  ==_ne,
}
use zkasper_solana.Base.Slices.{Bytes}
use zkasper_solana.Base.Result.{Result, ok, err}
use zkasper_solana.Base.Memory.{read_byte}
use zkasper_solana.Base.Words.{IsByte}
use zkasper_solana.Base.Yields.{get_elem?-in_range}
use zkasper_solana.Errors.{
  ProgramError, ZkasperError, into, invalid_state_account, invalid_ring_account,
  account_data_too_small, wrong_account_tag,
}
use zkasper_solana.Processor.{Host, expect_state, expect_ring}
use zkasper_solana.Processor.Checks.{StateAt, RingAt, expect_state-StateAt, expect_ring-RingAt}
use zkasper_solana.Runtime.Address.{seed_state, seed_ring}
use zkasper_solana.Runtime.Accounts.{Ledger, AccountInfo}
use zkasper_solana.State.LightClient
use zkasper_solana.State.LightClient.{Pubkey, LightClientState, light_client_len, tag_light_client}
use zkasper_solana.State.LightClient.Unpack.{unpack-classes}
use zkasper_solana.State.Ring
use zkasper_solana.State.Ring.{ring_len, tag_finalization_ring}
use native.Mathlib.Decide.{dec_lt, ℕ_discrete}

module _ (h : Host) (program_id : Pubkey) (key : Pubkey) (ledger : Ledger) where
  -- The result of `expect_state` with its reason: the account is another program's, too short, tagged
  -- otherwise, away from the address that it names, or the light client's.
  pub data StateChecked : Result ProgramError LightClientState → Type 0 where
    foreign : (ledger key).owner ≢ program_id → StateChecked (err (into invalid_state_account))
    short :
        (ledger key).owner ≡ program_id
        → length (ledger key).bytes < light_client_len
        → StateChecked (err (into account_data_too_small))
    mistagged :
        (ledger key).owner ≡ program_id
        → light_client_len ≤ length (ledger key).bytes
        → get_elem? (ledger key).bytes 0 ≢ some tag_light_client
        → StateChecked (err (into wrong_account_tag))
    misplaced :
        (ledger key).owner ≡ program_id
        → (s : LightClientState) → LightClient.unpack (ledger key).bytes ≡ ok s
        → h.derivation.create_program_address
            (seed_state ∷ s.authority ∷ (s.bump ∷ []) ∷ [])
            program_id
          ≢ some key
        → StateChecked (err (into invalid_state_account))
    located : (s : LightClientState) → StateAt h program_id key ledger s → StateChecked (ok s)

  -- The result of `expect_ring` for the ring of `authority`, in the same way.
  pub data RingChecked (authority : Pubkey) : Result ZkasperError (Unit {0}) → Type 0 where
    foreign_ring :
        (ledger key).owner ≢ program_id → RingChecked authority (err invalid_ring_account)
    short_ring :
        (ledger key).owner ≡ program_id
        → length (ledger key).bytes < ring_len
        → RingChecked authority (err account_data_too_small)
    mistagged_ring :
        (ledger key).owner ≡ program_id
        → ring_len ≤ length (ledger key).bytes
        → get_elem? (ledger key).bytes 0 ≢ some tag_finalization_ring
        → RingChecked authority (err wrong_account_tag)
    misplaced_ring :
        (ledger key).owner ≡ program_id
        → (bump : ℕ) → Ring.bump (ledger key).bytes ≡ ok bump
        → h.derivation.create_program_address (seed_ring ∷ authority ∷ (bump ∷ []) ∷ []) program_id
          ≢ some key
        → RingChecked authority (err invalid_ring_account)
    located_ring : RingAt h program_id key authority ledger → RingChecked authority (ok tt)
