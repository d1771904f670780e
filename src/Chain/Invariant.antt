-- ===== src/Chain/Invariant.antt =====
-- What the state and the ring of a run's ledgers stand for.
use zkasper_solana.Base.{
  ℕ, ◌≡◌, sym, ap, ◌∙◌, ◌<◌, ◌==◌, List, ◌∷◌, subst, if◌then◌else◌, Option, some,
}
use zkasper_solana.Base.Slices.{Bytes}
use zkasper_solana.Base.Result.{ok, ok-injective}
use zkasper_solana.Chain.{IsLedger, Run, state_after, slot_after}
use zkasper_solana.Processor.{Host, entry_of, submit_finalization}
use zkasper_solana.Processor.Checks.{StateAt, RingAt, RingAt-IsRing}
use zkasper_solana.Processor.Submit.{
  landed, advanced, Admits, entry_of-IsEntry, submit_finalization-accepts,
}
use zkasper_solana.Processor.Landed.{
  submit_finalization-Admits, landed-StateAt, landed-RingAt, landed-ring_bytes, advanced-IsState,
}
use zkasper_solana.Processor.Typed.{landed-bytes}
use zkasper_solana.Runtime.Accounts.{Ledger, AccountInfo, Same}
use zkasper_solana.State.LightClient
use zkasper_solana.State.LightClient.{Pubkey, LightClientState, IsState}
use zkasper_solana.State.Ring
use zkasper_solana.State.Ring.{ring_entries, index_of}
use zkasper_solana.State.Ring.Slots.{held}
use zkasper_solana.State.Ring.Write.{held-after}
use zkasper_solana.Wire.{FinalizationOutput, IsOutput}

module _ (h : Host) (program_id : Pubkey) (state_info ring_info : AccountInfo) where
  -- The ledger `ledger` stands for the state `s` and for a ring with the slots `slots`.
  pub record Stands (s : LightClientState) (slots : ℕ → Option Ring.FinalizationEntry)
      (ledger : Ledger) : Type 0 where
    pub typed : IsLedger ledger
    pub valid : IsState s
    pub state_at : StateAt h program_id state_info.key ledger s
    pub ring_at : RingAt h program_id ring_info.key s.authority ledger
    pub holds : (i : ℕ) → i < ring_entries → held (ledger ring_info.key).bytes i ≡ slots i

  -- An accepted output extends the state that the ledger stands for, and is proved under its key.
  pub Stands-Admits :
      (s : LightClientState) (slots : ℕ → Option Ring.FinalizationEntry) (before after : Ledger)
      (rest : List AccountInfo) (proof : Bytes) (output : FinalizationOutput)
      → Stands s slots before
      → submit_finalization h program_id (state_info ∷ ring_info ∷ rest) proof output before
        ≡ ok after
      → Admits h program_id state_info.key ring_info.key s proof output before
  Stands-Admits s slots before after rest proof output st e =
      let (s', a) =
        submit_finalization-Admits h program_id state_info ring_info rest proof output before after
          e in
      subst (λ x. Admits h program_id state_info.key ring_info.key x proof output before)
        (ok-injective (sym a.state_at.decodes ∙ st.state_at.decodes)) a

  pub Stands-submit :
      (s : LightClientState) (slots : ℕ → Option Ring.FinalizationEntry) (before after : Ledger)
      (rest : List AccountInfo) (proof : Bytes) (output : FinalizationOutput)
      → Stands s slots before
      → IsOutput output
      → submit_finalization h program_id (state_info ∷ ring_info ∷ rest) proof output before
        ≡ ok after
      → Stands
          (advanced s output)
          (λ i. if i == index_of output.finalized_epoch then some (entry_of output) else slots i)
          after
  Stands-submit s slots before after rest proof output st o e =
      let a = Stands-Admits s slots before after rest proof output st e in
      let lands : landed state_info.key ring_info.key s output before ≡ after = ok-injective (
        sym (
          submit_finalization-accepts h program_id state_info ring_info rest s proof output before
            st.valid o a)
        ∙ e) in
      let is_ring = RingAt-IsRing h program_id ring_info.key s.authority before a.ring_at in
      subst
        (Stands (advanced s output)
          (λ i. if i == index_of output.finalized_epoch then some (entry_of output) else slots i))
        lands
        (record {
          typed = landed-bytes h program_id st.valid o a st.typed;
          valid = advanced-IsState h program_id st.valid o a;
          state_at = landed-StateAt h program_id st.valid o a;
          ring_at = landed-RingAt h program_id st.valid o a;
          holds = λ i lt.
              ap (λ b. held b i) (landed-ring_bytes h program_id st.valid o a)
              ∙ held-after (before ring_info.key).bytes (entry_of output) is_ring
                  (entry_of-IsEntry output o) i lt
              ∙ ap (λ x. if i == index_of output.finalized_epoch then some (entry_of output) else x)
                  (st.holds i lt);
        })

  Stands-elsewhere :
      (s : LightClientState) (slots : ℕ → Option Ring.FinalizationEntry) (before after : Ledger)
      → Stands s slots before
      → IsLedger after
      → Same (before state_info.key) (after state_info.key)
      → Same (before ring_info.key) (after ring_info.key)
      → Stands s slots after
  Stands-elsewhere s slots before after st typed same_state same_ring = record {
    typed = typed;
    valid = st.valid;
    state_at = record {
      owned = same_state.owner ∙ st.state_at.owned;
      decodes = ap LightClient.unpack same_state.bytes ∙ st.state_at.decodes;
      derived = st.state_at.derived;
    };
    ring_at = record {
      owned = same_ring.owner ∙ st.ring_at.owned;
      bump = st.ring_at.bump;
      names_bump = ap Ring.bump same_ring.bytes ∙ st.ring_at.names_bump;
      derived = st.ring_at.derived;
    };
    holds = λ i lt. ap (λ b. held b i) same_ring.bytes ∙ st.holds i lt;
  }

  -- Whatever other transactions come in between, a run from a ledger that stands for a state and a
  -- ring ends in one that stands for the state its outputs lead to and for the ring in which each
  -- slot holds the latest output that owns it.
  pub Run-Stands :
      (s : LightClientState) (slots : ℕ → Option Ring.FinalizationEntry) (start : Ledger)
      (outputs : List FinalizationOutput) (ledger : Ledger)
      → Stands s slots start
      → Run h program_id state_info ring_info start outputs ledger
      → Stands (state_after s outputs) (slot_after slots outputs) ledger
  Run-Stands s slots start _ _ st Run.begin = st
  Run-Stands s slots start _ _ st (Run.submit outputs before after rest proof output run o adj e) =
      Stands-submit (state_after s outputs) (slot_after slots outputs) before after rest proof
        output (Run-Stands s slots start outputs before st run) o e
  Run-Stands s slots start _ _ st
        (Run.elsewhere outputs before after run typed same_state same_ring) =
      Stands-elsewhere (state_after s outputs) (slot_after slots outputs) before after
        (Run-Stands s slots start outputs before st run) typed same_state same_ring
