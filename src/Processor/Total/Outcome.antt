-- ===== src/Processor/Total/Outcome.antt =====
-- Panics of a submission.
use zkasper_solana.Base.{ℕ, ◌≡◌, ◌≢◌, refl, ◌+◌, ◌^◌, ltb, List, ◌∷◌, arith, false, ◌↔◌, subst}
use zkasper_solana.Base.Slices.{Bytes}
use zkasper_solana.Base.Result.{Result, ok, panic, ◌>>=◌, map_err, map_err-eq-ok}
use zkasper_solana.Base.Words.{IsU64}
use zkasper_solana.Base.Yields.{
  yields, Returns, Yields-bind, Yields-map_err, Yields-Returns, Yields-ne-panic, >>=-eq-panic,
}
use zkasper_solana.Errors.{ProgramError, into}
use zkasper_solana.Plonk.Total.{IsSized}
use zkasper_solana.Processor.{Host, verify, advance, entry_of, submit_finalization}
use zkasper_solana.Processor.Checks.{
  StateAt, RingAt, Next, RingAt-IsRing, expect_state-StateAt, expect_ring-RingAt, expect_next-Next,
  expect_state-eq-ok, expect_ring-eq-ok, expect_next-eq-ok, unpack-ne-IsRing,
}
use zkasper_solana.Processor.Submit.{add_u64-fits, advance-IsState, entry_of-IsEntry}
use zkasper_solana.Processor.Total.{
  Holds, expect_next-Returns, expect_ring-Yields, expect_state-Yields, verify-Returns,
}
use zkasper_solana.Runtime.Accounts.{
  Ledger, AccountInfo, add_u64, set_bytes, with_bytes, store_apart,
}
use zkasper_solana.State.LightClient.{Pubkey, LightClientState, IsState, pack_into}
use zkasper_solana.State.LightClient.Total.{pack_into-Yields}
use zkasper_solana.State.LightClient.Unpack.{unpack-eq-ok}
use zkasper_solana.State.Ring
use zkasper_solana.State.Ring.Total.{write_entry-Yields}
use zkasper_solana.State.Ring.Slots.{IsRing}
use zkasper_solana.Wire.{FinalizationOutput, IsOutput}
use native.Mathlib.Decide.{dec_lt}

map_err-total :
    {E F : Type 0} {A : Type 0} (f : E → F) {m : Result E A} → Returns m → map_err f m ≢ panic
map_err-total f r = Yields-ne-panic (Yields-map_err f r)

module _ (h : Host) (program_id : Pubkey) where
  -- Everything that `submit_finalization` asks for, and a count that is the last of a `u64`.
  pub record Overflows (state_info ring_info : AccountInfo) (proof : Bytes)
      (output : FinalizationOutput) (ledger : Ledger) : Type 0 where
    pub state : LightClientState
    pub state_at : StateAt h program_id state_info.key ledger state
    pub ring_at : RingAt h program_id ring_info.key state.authority ledger
    pub next : Next state output
    pub proved : verify h proof state.program_vk output ≡ ok tt
    pub full : state.submission_count + 1 ≡ 2 ^ 64

  module _ (state_info ring_info : AccountInfo) (rest : List AccountInfo) (proof : Bytes)
      (output : FinalizationOutput) (ledger : Ledger) (sized : IsSized h.backend) (b : Holds ledger)
      (o : IsOutput output) where
    entry-stored :
        (s : LightClientState)
        → StateAt h program_id state_info.key ledger s
        → IsRing (ledger ring_info.key).bytes
        → (packed : Bytes)
        → Returns (
            Ring.write_entry
              (set_bytes state_info.key packed ledger ring_info.key).bytes
              (entry_of output))
    entry-stored s at is_ring packed =
        let apart : ring_info.key ≢ state_info.key = λ same.
          unpack-ne-IsRing (ledger state_info.key).bytes s at.decodes
            (subst (λ k. IsRing (ledger k).bytes) same is_ring) in
        rw
          (store_apart state_info.key (with_bytes (ledger state_info.key) packed) ledger
            ring_info.key apart)
          (Yields-Returns (
            write_entry-Yields _ (ledger ring_info.key).bytes (entry_of output) refl is_ring
              (entry_of-IsEntry output o)))

    -- The stores behind the count do not panic.
    stores-Returns :
        (s : LightClientState) (count : ℕ)
        → StateAt h program_id state_info.key ledger s
        → RingAt h program_id ring_info.key s.authority ledger
        → IsState s
        → IsU64 count
        → Returns {E = ProgramError} (do
          packed ← map_err into (pack_into (advance s output count) (ledger state_info.key).bytes)
          let ledger = set_bytes state_info.key packed ledger
          ring ← map_err into (Ring.write_entry (ledger ring_info.key).bytes (entry_of output))
          ok (set_bytes ring_info.key ring ledger))
    stores-Returns s count at ring v c =
        let is_ring = RingAt-IsRing h program_id ring_info.key s.authority ledger ring in
        Yields-bind
          (Yields-map_err into (
            pack_into-Yields (advance s output count) _ (ledger state_info.key).bytes
              (advance-IsState s output count v o c) refl))
          λ packed p.
            Yields-bind (Yields-map_err into (entry-stored s at is_ring packed)) λ ring r. yields tt

    counted-panic :
        (s : LightClientState)
        → StateAt h program_id state_info.key ledger s
        → RingAt h program_id ring_info.key s.authority ledger
        → IsState s
        → (add_u64 s.submission_count 1 >>= λ count. do
          packed ← map_err into (pack_into (advance s output count) (ledger state_info.key).bytes)
          let ledger = set_bytes state_info.key packed ledger
          ring ← map_err into (Ring.write_entry (ledger ring_info.key).bytes (entry_of output))
          ok (set_bytes ring_info.key ring ledger))
          ≡ panic
        → s.submission_count + 1 ≡ 2 ^ 64
    counted-panic s at ring v e = elim (dec_lt (s.submission_count + 1) (2 ^ 64)) [
      | yes fits ↦ absurd (
          Yields-ne-panic (stores-Returns s (s.submission_count + 1) at ring v fits)
            (rw (add_u64-fits {E = ProgramError} s.submission_count 1 fits) at e))
      | no over ↦ omega (arith, v.submission_count)
    ]

    submit_finalization-Overflows :
        submit_finalization h program_id (state_info ∷ ring_info ∷ rest) proof output ledger ≡ panic
        → Overflows state_info ring_info proof output ledger
    unfolding submit_finalization
    submit_finalization-Overflows e =
        let (s, located, e1) =
          >>=-eq-panic _ _ (Yields-ne-panic (expect_state-Yields h program_id state_info ledger b))
            e in
        let at = expect_state-eq-ok h program_id state_info ledger s located in
        let v =
          (unpack-eq-ok (ledger state_info.key).bytes s (b state_info.key) at.decodes).valid in
        let (d, next, e2) = >>=-eq-panic _ _ (Yields-ne-panic (expect_next-Returns s output)) e1 in
        let (d, ring, e3) =
          >>=-eq-panic _ _
            (Yields-ne-panic
              (Yields-map_err into (expect_ring-Yields h program_id ring_info s.authority ledger)))
            e2 in
        let at_ring =
          expect_ring-eq-ok h program_id ring_info s.authority ledger (map_err-eq-ok into _ ring) in
        let (d, proved, e4) =
          >>=-eq-panic _ _
            (map_err-total into (verify-Returns h proof s.program_vk output sized v.program_vk o))
            e3 in
        record {
          state = s;
          state_at = at;
          ring_at = at_ring;
          next = expect_next-eq-ok s output next;
          proved = map_err-eq-ok into _ proved;
          full = counted-panic s at at_ring v e4;
        }

    Overflows-panics :
        Overflows state_info ring_info proof output ledger
        → submit_finalization h program_id (state_info ∷ ring_info ∷ rest) proof output ledger
          ≡ panic
    unfolding submit_finalization add_u64
    Overflows-panics x =
        let s = x.state in
        let over : ltb (s.submission_count + 1) (2 ^ 64) ≡ false = ground (arith, x.full) in
        rw (
          expect_state-StateAt h program_id state_info ledger s x.state_at,
          expect_next-Next s output x.next,
          expect_ring-RingAt h program_id ring_info s.authority ledger x.ring_at,
          x.proved,
          over,
        )

    -- On a ledger of byte strings, for a well-typed output, and when the fields and the syscalls
    -- return values of their sizes, a submission panics if and only if it meets every demand and the
    -- state counts 2^64 - 1 submissions.
    pub submit_finalization_panics_iff :
        (submit_finalization h program_id (state_info ∷ ring_info ∷ rest) proof output ledger
          ≡ panic)
        ↔ Overflows state_info ring_info proof output ledger
    submit_finalization_panics_iff = (submit_finalization-Overflows, Overflows-panics)
