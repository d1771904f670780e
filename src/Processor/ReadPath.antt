-- ===== src/Processor/ReadPath.antt =====
-- `assert_finalized` and `assert_anchored`: what each answers.
use zkasper_solana.Base.{
  ℕ, ◌≡◌, refl, ◌<◌, ◌⊎◌, inl, inr, not, ◌==◌, bytes_eq, List, ◌∷◌, Option, none, some,
  if◌then◌else◌, Bool-cases,
}
use zkasper_solana.Base.Slices.{Bytes}
use zkasper_solana.Base.Result.{Result, ok, err, ◌>>=◌, refuse_if, map_err}
use zkasper_solana.Errors.{
  ProgramError, into, epoch_not_in_ring, checkpoint_not_finalized, state_root_not_anchored,
}
use zkasper_solana.Processor.{Host, assert_finalized, assert_anchored}
use zkasper_solana.Processor.Checks.{RingAt, RingAt-IsRing, expect_ring-RingAt}
use zkasper_solana.Runtime.Accounts.{Ledger, AccountInfo}
use zkasper_solana.State.LightClient.{Pubkey}
use zkasper_solana.State.Ring.{FinalizationEntry, ring_entries, index_of}
use zkasper_solana.State.Ring.Slots.{held}
use zkasper_solana.State.Ring.Lookup.{entry-held, answer}
use zkasper_solana.State.Ring.Scan.{NoneFrom, entry_by_state_root_cases}

-- The answer to `assert_finalized`, from what the slot of the epoch holds.
abbrev pub verdict : ℕ → Bytes → Option FinalizationEntry → Result ProgramError (Unit {0})
verdict epoch root none = err (into epoch_not_in_ring)
verdict epoch root (some e) =
    if e.finalized_epoch == epoch
    then if bytes_eq e.finalized_root root then ok tt else err (into checkpoint_not_finalized)
    else err (into epoch_not_in_ring)

judge :
    (epoch : ℕ) (root : Bytes) (o : Option FinalizationEntry)
    → (map_err into (answer epoch o) >>= λ e.
        refuse_if (not (bytes_eq e.finalized_root root)) (into checkpoint_not_finalized))
      ≡ verdict epoch root o
judge epoch root none = refl
judge epoch root (some e) = elim (Bool-cases (e.finalized_epoch == epoch)) [
  | inl same ↦ elim (Bool-cases (bytes_eq e.finalized_root root)) [
    | inl named ↦ rw (same, named)
    | inr other ↦ rw (same, other)
  ]
  | inr other ↦ rw other
]

module _ (h : Host) (program_id : Pubkey) where
  -- On the authority's ring, an epoch whose slot holds another epoch or nothing is `EpochNotInRing`,
  -- an epoch that the ring holds under another root is `CheckpointNotFinalized`, and only an epoch
  -- held under the root asked for passes.
  pub assert_finalized-verdict :
      (ring_info : AccountInfo) (rest : List AccountInfo) (authority : Pubkey) (epoch : ℕ)
      (root : Bytes) (ledger : Ledger)
      → RingAt h program_id ring_info.key authority ledger
      → assert_finalized h program_id (ring_info ∷ rest) authority epoch root ledger
        ≡ verdict epoch root (held (ledger ring_info.key).bytes (index_of epoch))
  unfolding assert_finalized
  assert_finalized-verdict ring_info rest authority epoch root ledger r =
      rw
        (
          expect_ring-RingAt h program_id ring_info authority ledger r,
          entry-held (ledger ring_info.key).bytes epoch
              (RingAt-IsRing h program_id ring_info.key authority ledger r),
        )
        (judge epoch root (held (ledger ring_info.key).bytes (index_of epoch)))

  -- On the authority's ring, `assert_anchored` passes exactly if some slot holds the state root.
  pub assert_anchored_cases :
      (ring_info : AccountInfo) (rest : List AccountInfo) (authority : Pubkey) (root : Bytes)
      (ledger : Ledger) (r : RingAt h program_id ring_info.key authority ledger)
      → ((assert_anchored h program_id (ring_info ∷ rest) authority root ledger
            ≡ err (into state_root_not_anchored))
          × NoneFrom
              (ledger ring_info.key).bytes
              root
              (RingAt-IsRing h program_id ring_info.key authority ledger r)
              0
              ring_entries)
        ⊎ ((k : ℕ) × (e : FinalizationEntry) × (assert_anchored h program_id
                (ring_info ∷ rest)
                authority
                root
                ledger
              ≡ ok tt)
            × (k < ring_entries)
            × (held (ledger ring_info.key).bytes k ≡ some e)
            × (e.finalized_state_root ≡ root))
  unfolding assert_anchored
  assert_anchored_cases ring_info rest authority root ledger r =
      let found = expect_ring-RingAt h program_id ring_info authority ledger r in
      let is_ring = RingAt-IsRing h program_id ring_info.key authority ledger r in
      elim (entry_by_state_root_cases (ledger ring_info.key).bytes root is_ring) [
        | inl (refused, absent) ↦ inl (rw (found, refused), absent)
        | inr (k, e, found_entry, lt, holds, named, first) ↦
            inr (k, e, rw (found, found_entry), lt, holds, named)
      ]
