-- ===== src/Processor/Verdict/Reasons.antt =====
-- Every way in which `submit_finalization` can end, on any ledger.
use zkasper_solana.Base.{
  ◌≡◌, ◌≢◌, refl, ap, ◌∙◌, ◌+◌, ◌≤◌, ◌<◌, ◌^◌, List, ◌∷◌, arith, inl, inr, ◌⊎◌, bytes_eq,
  Bool-cases, bytes_eq→eq, bytes_eq-false→ne,
}
use zkasper_solana.Base.Slices.{Bytes}
use zkasper_solana.Base.Result.{Result, ok, err, panic}
use zkasper_solana.Base.Yields.{Yields-cases}
use zkasper_solana.Errors.{ProgramError, ZkasperError, into, proof_verification_failed}
use zkasper_solana.Plonk.Total.{IsSized}
use zkasper_solana.Processor.{Host, expect_state, expect_ring, verify, submit_finalization}
use zkasper_solana.Processor.Checks.{
  StateAt, RingAt, Next, expect_state-StateAt, expect_ring-RingAt, expect_next-Next,
}
use zkasper_solana.Processor.Checked.Reasons.{expect_state-StateChecked, expect_ring-RingChecked}
use zkasper_solana.Processor.Checked.{StateChecked, RingChecked, located, located_ring}
use zkasper_solana.Processor.Refused.{
  submit_finalization-stale, submit_finalization-gap, submit_finalization-branch,
}
use zkasper_solana.Processor.Submit.{Admits, submit_finalization-accepts}
use zkasper_solana.Processor.Total.{Holds, verify-Returns, verify-failed}
use zkasper_solana.Processor.Total.Outcome.{Overflows, submit_finalization_panics_iff}
use zkasper_solana.Runtime.Accounts.{Ledger, AccountInfo}
use zkasper_solana.State.LightClient.{Pubkey, LightClientState}
use zkasper_solana.State.LightClient.Unpack.{unpack-eq-ok}
use zkasper_solana.Wire.{FinalizationOutput, IsOutput}
use native.Mathlib.Decide.{dec_lt, ℕ_discrete}
use zkasper_solana.Processor.Verdict.{
  Verdict, not_the_state, stale, gap, branch, not_the_ring, not_proved, overflow, accepted,
}

Next-cases :
    (s : LightClientState) (output : FinalizationOutput)
    → (output.finalized_epoch ≤ s.finalized_epoch)
      ⊎ (((s.finalized_epoch < output.finalized_epoch)
            × (s.accumulator_epoch ≢ output.finalized_epoch))
          ⊎ (((s.finalized_epoch < output.finalized_epoch)
                × (s.accumulator_epoch ≡ output.finalized_epoch)
                × (s.accumulator_commitment ≢ output.accumulator_commitment))
              ⊎ Next s output))
Next-cases s output = elim (dec_lt s.finalized_epoch output.finalized_epoch) [
  | no early ↦ inl (omega arith)
  | yes later ↦ elim (ℕ_discrete s.accumulator_epoch output.finalized_epoch) [
    | no apart ↦ inr (inl (later, apart))
    | yes same ↦
        elim (Bool-cases (bytes_eq s.accumulator_commitment output.accumulator_commitment)) [
          | inr other ↦ inr (inr (inl (later, same, bytes_eq-false→ne _ _ other)))
          | inl extends ↦ inr (
              inr (
                inr
                  (record { advances = later; resumes = same; extends = bytes_eq→eq _ _ extends })))
        ]
  ]
]

module _ (h : Host) (program_id : Pubkey) (state_info ring_info : AccountInfo)
    (rest : List AccountInfo) (proof : Bytes) (output : FinalizationOutput) (ledger : Ledger)
    (sized : IsSized h.backend) (b : Holds ledger) (o : IsOutput output) where
  verify_refused :
      (s : LightClientState)
      → StateAt h program_id state_info.key ledger s
      → Next s output
      → RingAt h program_id ring_info.key s.authority ledger
      → (e : ZkasperError) → verify h proof s.program_vk output ≡ err e
      → submit_finalization h program_id (state_info ∷ ring_info ∷ rest) proof output ledger
        ≡ err (into e)
  unfolding submit_finalization
  verify_refused s at next ring e refused = rw (
    expect_state-StateAt h program_id state_info ledger s at,
    expect_next-Next s output next,
    expect_ring-RingAt h program_id ring_info s.authority ledger ring,
    refused,
  )

  ring_refused :
      (s : LightClientState)
      → StateAt h program_id state_info.key ledger s
      → Next s output
      → (e : ZkasperError) → expect_ring h program_id ring_info s.authority ledger ≡ err e
      → submit_finalization h program_id (state_info ∷ ring_info ∷ rest) proof output ledger
        ≡ err (into e)
  unfolding submit_finalization
  ring_refused s at next e refused = rw (
    expect_state-StateAt h program_id state_info ledger s at,
    expect_next-Next s output next,
    refused,
  )

  state_refused :
      (e : ProgramError)
      → expect_state h program_id state_info ledger ≡ err e
      → submit_finalization h program_id (state_info ∷ ring_info ∷ rest) proof output ledger ≡ err e
  unfolding submit_finalization
  state_refused e refused = rw refused

  abbrev result : Result ProgramError Ledger
  result = submit_finalization h program_id (state_info ∷ ring_info ∷ rest) proof output ledger

  -- What is left once the ring is the light client's too.
  ring_checked :
      (s : LightClientState)
      → StateAt h program_id state_info.key ledger s
      → Next s output
      → RingAt h program_id ring_info.key s.authority ledger
      → Verdict h program_id state_info ring_info proof output ledger result
  ring_checked s at next ring =
      let v = (unpack-eq-ok (ledger state_info.key).bytes s (b state_info.key) at.decodes).valid in
      elim (Yields-cases (verify h proof s.program_vk output)
        (verify-Returns h proof s.program_vk output sized v.program_vk o)) [
          | inl (e, refused) ↦
              let only : e ≡ proof_verification_failed =
                verify-failed h proof s.program_vk output v.program_vk o refused in
              let refused = refused ∙ ap err only in
              rw (verify_refused s at next ring proof_verification_failed refused)
                (not_proved s at next ring refused)
          | inr (u, proved, d) ↦ elim (dec_lt (s.submission_count + 1) (2 ^ 64)) [
            | yes fits ↦
                let a : Admits h program_id state_info.key ring_info.key s proof output ledger =
                  record {
                    state_at = at;
                    ring_at = ring;
                    next = next;
                    proved = proved;
                    countable = fits;
                  } in
                rw
                  (submit_finalization-accepts h program_id state_info ring_info rest s proof output
                    ledger v o a)
                  (accepted s a)
            | no over ↦
                let x : Overflows h program_id state_info ring_info proof output ledger = record {
                  state = s;
                  state_at = at;
                  ring_at = ring;
                  next = next;
                  proved = proved;
                  full = omega (arith, v.submission_count);
                } in
                rw
                  ((submit_finalization_panics_iff h program_id state_info ring_info rest proof
                      output ledger sized b o).1
                    x)
                  (overflow x)
          ]
        ]

  Next-checked :
      (s : LightClientState)
      → StateAt h program_id state_info.key ledger s
      → Next s output
      → (r : Result ZkasperError (Unit {0}))
      → expect_ring h program_id ring_info s.authority ledger ≡ r
      → RingChecked h program_id ring_info.key ledger s.authority r
      → Verdict h program_id state_info ring_info proof output ledger result
  Next-checked s at next (err e) refused c =
      rw (ring_refused s at next e refused) (not_the_ring s e at next c)
  Next-checked s at next (ok u) passed (located_ring ring) = ring_checked s at next ring
  Next-checked s at next panic never c = elim c [ ]

  -- The last part, once the state is the light client's.
  checked :
      (s : LightClientState)
      → StateAt h program_id state_info.key ledger s
      → Verdict h program_id state_info ring_info proof output ledger result
  checked s at = elim (Next-cases s output) [
    | inl early ↦
        rw
          (submit_finalization-stale h program_id state_info ring_info rest s proof output ledger at
            early)
          (stale s at early)
    | inr (inl (later, apart)) ↦
        rw
          (submit_finalization-gap h program_id state_info ring_info rest s proof output ledger at
            later apart)
          (gap s at later apart)
    | inr (inr (inl (later, same, other))) ↦
        rw
          (submit_finalization-branch h program_id state_info ring_info rest s proof output ledger
            at later same other)
          (branch s at later same other)
    | inr (inr (inr next)) ↦
        Next-checked s at next _ refl
          (expect_ring-RingChecked h program_id ring_info ledger s.authority)
  ]

  state_checked :
      (r : Result ProgramError LightClientState)
      → expect_state h program_id state_info ledger ≡ r
      → StateChecked h program_id state_info.key ledger r
      → Verdict h program_id state_info ring_info proof output ledger result
  state_checked (err e) refused c = rw (state_refused e refused) (not_the_state e c)
  state_checked (ok t) passed (located s at) = checked s at
  state_checked panic never c = elim c [ ]

  -- On a ledger of byte strings, for a well-typed output, and when the fields and the syscalls return
  -- values of their sizes, a submission on two accounts or more has one of eight outcomes, with its
  -- reason: a state account that is not the light client's, a stale output, a gap, a branch, a ring
  -- that is not the authority's, a proof that is refused, with ProofVerificationFailed, a count that
  -- overflows, or acceptance with every demand met and the ledger `landed`. For the two accounts the
  -- reason says what is wrong with the account, and decides the error.
  pub submit_finalization-Verdict :
      Verdict h program_id state_info ring_info proof output ledger
        (submit_finalization h program_id (state_info ∷ ring_info ∷ rest) proof output ledger)
  submit_finalization-Verdict =
      state_checked _ refl
        (expect_state-StateChecked h program_id state_info ledger (b state_info.key))
