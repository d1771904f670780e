-- ===== src/Processor/VerifyOnly.antt =====
-- `verify_only` with its reasons.
use zkasper_solana.Base.{
  ◌≡◌, ◌≢◌, refl, ◌≤◌, ◌<◌, inl, inr, Bool-cases, bytes_eq, bytes_eq_self, bytes_eq→eq,
  bytes_eq-false→ne, false, length, get_elem?, List, ◌∷◌, some,
}
use zkasper_solana.Base.Slices.{Bytes}
use zkasper_solana.Base.Result.{Result, ok, err}
use zkasper_solana.Base.Yields.{Yields-cases}
use zkasper_solana.Errors.{
  ProgramError, ZkasperError, into, invalid_state_account, account_data_too_small,
  wrong_account_tag,
}
use zkasper_solana.Plonk.Encoding.{failed}
use zkasper_solana.Plonk.Total.{IsSized}
use zkasper_solana.Processor.{Host, verify, verify_only}
use zkasper_solana.Processor.Proved.{Proves, verify-Proves}
use zkasper_solana.Processor.Total.{Holds, verify-Returns, verify-failed}
use zkasper_solana.Runtime.Accounts.{Ledger, AccountInfo}
use zkasper_solana.State.LightClient
use zkasper_solana.State.LightClient.{Pubkey, LightClientState, light_client_len, tag_light_client}
use zkasper_solana.State.LightClient.Unpack.{Unpacked, unpack-classes}
use zkasper_solana.Wire.{FinalizationOutput, IsOutput}

module _ (h : Host) (program_id : Pubkey) (key : Pubkey) (ledger : Ledger) where
  -- The result of `verify_only` with its reason: the account is another program's, too short, tagged
  -- otherwise, or a light client, at whatever address it is, under whose key the proof is refused or
  -- proves the output.
  pub data Verified (proof : Bytes) (output : FinalizationOutput)
      : Result ProgramError (Unit {0}) → Type 0 where
    foreign :
        (ledger key).owner ≢ program_id → Verified proof output (err (into invalid_state_account))
    short :
        (ledger key).owner ≡ program_id
        → length (ledger key).bytes < light_client_len
        → Verified proof output (err (into account_data_too_small))
    mistagged :
        (ledger key).owner ≡ program_id
        → light_client_len ≤ length (ledger key).bytes
        → get_elem? (ledger key).bytes 0 ≢ some tag_light_client
        → Verified proof output (err (into wrong_account_tag))
    refused :
        (ledger key).owner ≡ program_id
        → (s : LightClientState) → LightClient.unpack (ledger key).bytes ≡ ok s
        → verify h proof s.program_vk output ≡ err failed
        → Verified proof output (err (into failed))
    proved :
        (ledger key).owner ≡ program_id
        → (s : LightClientState) → LightClient.unpack (ledger key).bytes ≡ ok s
        → Proves h proof s.program_vk output
        → Verified proof output (ok tt)

module _ (h : Host) (program_id : Pubkey) (info : AccountInfo) (rest : List AccountInfo)
    (ledger : Ledger) where
  module _ (proof : Bytes) (output : FinalizationOutput) where
    unread :
        {e : ZkasperError}
        → (ledger info.key).owner ≡ program_id
        → LightClient.unpack (ledger info.key).bytes ≡ err e
        → verify_only h program_id (info ∷ rest) proof output ledger ≡ err (into e)
    unfolding verify_only
    unread owned not_read = rw (owned, bytes_eq_self program_id, not_read) refl

    judged :
        (s : LightClientState)
        → IsSized h.backend
        → (ledger info.key).owner ≡ program_id
        → Unpacked (ledger info.key).bytes s
        → IsOutput output
        → Verified h program_id info.key ledger proof output
            (verify_only h program_id (info ∷ rest) proof output ledger)
    unfolding verify_only
    judged s sized owned u o =
        elim (Yields-cases (verify h proof s.program_vk output)
          (verify-Returns h proof s.program_vk output sized u.valid.program_vk o)) [
            | inl (e, fails) ↦
                let why = verify-failed h proof s.program_vk output u.valid.program_vk o fails in
                let fails_so : verify h proof s.program_vk output ≡ err failed = rw why at fails in
                rw (owned, bytes_eq_self program_id, u.decodes, fails_so)
                  (refused owned s u.decodes fails_so)
            | inr (done, passes, _) ↦
                rw (owned, bytes_eq_self program_id, u.decodes, passes)
                  (proved owned s u.decodes
                    (verify-Proves h proof s.program_vk output u.valid.program_vk o passes))
          ]

    foreign_refused :
        bytes_eq (ledger info.key).owner program_id ≡ false
        → verify_only h program_id (info ∷ rest) proof output ledger
          ≡ err (into invalid_state_account)
    unfolding verify_only
    foreign_refused other = rw other refl

    -- `verify_only` on a ledger of byte strings and for a well-typed output, with its reason: an
    -- account of another program is InvalidStateAccount, a short one AccountDataTooSmall, one tagged
    -- otherwise WrongAccountTag; on a light client, a proof that is not verified under the key that the
    -- account holds is ProofVerificationFailed, and one that passes expands and had the pairing hold
    -- for the window of the output and that key. It does not panic.
    pub verify_only-Verified :
        IsSized h.backend
        → Holds ledger
        → IsOutput output
        → Verified h program_id info.key ledger proof output
            (verify_only h program_id (info ∷ rest) proof output ledger)
    verify_only-Verified sized b o =
        elim (Bool-cases (bytes_eq (ledger info.key).owner program_id)) [
          | inl owned_test ↦
              let owned = bytes_eq→eq _ _ owned_test in
              elim (unpack-classes (ledger info.key).bytes (b info.key)) [
                | inl (few, not_read) ↦ rw (unread owned not_read) (short owned few)
                | inr (inl (long, other, not_read)) ↦
                    rw (unread owned not_read) (mistagged owned long other)
                | inr (inr (s, u)) ↦ judged s sized owned u o
              ]
          | inr other ↦ rw (foreign_refused other) (foreign (bytes_eq-false→ne _ _ other))
        ]
