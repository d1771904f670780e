-- ===== src/Cli/Demo.antt =====
-- The two commands of scripts/demo.sh in turn: `init` and `submit` of one wrap.
use zkasper_solana.Base.{
  ℕ, ◌≡◌, refl, sym, ap, ◌∙◌, ◌-◌, ◌≤◌, ◌==◌, ==_self, leb, Bool-cases, inl, inr, List, ◌∷◌, All,
  Option, none, some, if◌then◌else◌, arith,
}
use zkasper_solana.Base.Slices.{Bytes}
use zkasper_solana.Base.Result.{Result, ok, ◌>>=◌, >>=-eq-ok, ok-injective}
use zkasper_solana.Base.Memory.{zeros}
use zkasper_solana.Base.Words.{IsArray}
use zkasper_solana.Chain.{IsLedger}
use zkasper_solana.Chain.Bootstrap.{bootstrap}
use zkasper_solana.Chain.Initialize.{Initialized, initialize-eq-ok}
use zkasper_solana.Chain.Invariant.{Stands, Stands-submit}
use zkasper_solana.Chain.Window.{verdict_same}
use zkasper_solana.Cli.Artifact.{Dies, Wrap}
use zkasper_solana.Cli.Typed.{zeros-IsArray, IsWrap}
use zkasper_solana.Cli.Commands.{Shell, Action, send, post, wrap_at, init, submit, sub_u64}
use zkasper_solana.Errors.{ProgramError}
use zkasper_solana.Instruction
use zkasper_solana.Instruction.{ZkasperInstruction}
use zkasper_solana.Instruction.Build
use zkasper_solana.Instruction.Payload.{IsInstruction}
use zkasper_solana.Processor.{
  Host, verify, entry_of, dispatch, initialize, submit_finalization, assert_finalized,
  process_instruction,
}
use zkasper_solana.Processor.Dispatch.{process_instruction-build}
use zkasper_solana.Processor.ReadPath.{verdict, assert_finalized-verdict}
use zkasper_solana.Processor.Submit.{advanced, Admits, submit_finalization-accepts}
use zkasper_solana.Runtime.Accounts.{Ledger, AccountInfo}
use zkasper_solana.State.LightClient.{Pubkey, LightClientState}
use zkasper_solana.State.Ring.{FinalizationEntry, index_of}
use zkasper_solana.State.Ring.Slots.{held}
use zkasper_solana.State.Ring.Write.{index_of-lt}
use zkasper_solana.Wire.{FinalizationOutput}
use zkasper_solana.Wire.PublicBytes.{public_bytes-encode_output}

pub sub_u64-eq-ok :
    (a b c : ℕ) → ◌≡◌ {A = Result Dies ℕ} (sub_u64 a b) (ok c) → (b ≤ a) × (a - b ≡ c)
unfolding sub_u64
sub_u64-eq-ok a b c e = elim (Bool-cases (leb b a)) [
  | inl enough ↦ (ground arith, ok-injective (rw enough at e))
  | inr short ↦ cc (rw short at e)
]

-- The output that a submission has just stored is attested.
attested :
    (h : Host) (program_id : Pubkey) (state_info ring_info : AccountInfo) (s : LightClientState)
    (slots : ℕ → Option FinalizationEntry) (o : FinalizationOutput) (after : Ledger)
    (more : List AccountInfo)
    → Stands h program_id state_info ring_info
        (advanced s o)
        (λ i. if i == index_of o.finalized_epoch then some (entry_of o) else slots i)
        after
    → assert_finalized h program_id
        (ring_info ∷ more)
        s.authority
        o.finalized_epoch
        o.finalized_root
        after
      ≡ ok tt
attested h program_id state_info ring_info s slots o after more st =
    let slot = index_of o.finalized_epoch in
    let holds : held (after ring_info.key).bytes slot ≡ some (entry_of o) =
      st.holds slot (index_of-lt o.finalized_epoch) ∙ rw (==_self slot) in
    assert_finalized-verdict h program_id ring_info more s.authority o.finalized_epoch
      o.finalized_root after st.ring_at
    ∙ ap (verdict o.finalized_epoch o.finalized_root) holds
    ∙ verdict_same o

module _ (h : Host) (sh : Shell) (authority : Pubkey) (path : Option Bytes) (w : Wrap)
    (wrapped : wrap_at sh path ≡ ok w) (v : IsWrap w) where
  -- The arguments of the two instructions.
  abbrev first : ZkasperInstruction
  first =
      Instruction.initialize w.output.accumulator_commitment (zeros 32)
        (w.output.finalized_epoch - 1) (zeros 32) w.program_vk

  abbrev second : ZkasperInstruction
  second = Instruction.submit_finalization w.proof w.output

  first-IsInstruction : IsInstruction first
  first-IsInstruction = (
    v.output.accumulator_commitment,
    zeros-IsArray,
    omega (arith, v.output.finalized_epoch),
    zeros-IsArray,
    v.program_vk,
  )

  init-sends :
      (ix : Build.Instruction)
      → init sh authority path ≡ ok (send ix)
      → (1 ≤ w.output.finalized_epoch)
        × (ix
            ≡ Build.initialize sh.derivation sh.program_id authority w.output.accumulator_commitment
                (zeros 32)
                (w.output.finalized_epoch - 1)
                (zeros 32)
                w.program_vk)
  unfolding init
  init-sends ix e =
      let e1 = rw wrapped at e in
      let (epoch, taken, e2) = >>=-eq-ok (sub_u64 w.output.finalized_epoch 1) _ e1 in
      let (later, difference) = sub_u64-eq-ok w.output.finalized_epoch 1 epoch taken in
      (later, rw difference (sent (ok-injective e2)))
    where
      sent : {i : Build.Instruction} → send i ≡ send ix → ix ≡ i
      sent e = cc

  submit-posts :
      (ix : Build.Instruction)
      → submit sh authority path ≡ ok (post ix w.output)
      → Build.submit_finalization sh.derivation {E = ProgramError} sh.program_id authority w.proof
          w.output
        ≡ ok ix
  unfolding submit Build.submit_finalization
  submit-posts ix e =
      let e1 = rw (wrapped, public_bytes-encode_output {E = Dies} w.output v.output) at e in
      rw (public_bytes-encode_output {E = ProgramError} w.output v.output)
        (ap ok (posted _ ix w.output (ok-injective e1)))
    where
      posted :
          (built ix : Build.Instruction) (o : FinalizationOutput)
          → ◌≡◌ {A = Action} (post built o) (post ix o)
          → built ≡ ix
      posted built ix o e = cc

  module _ (accounts : List AccountInfo) (ix : Build.Instruction) (ledger : Ledger) where
    init-runs :
        init sh authority path ≡ ok (send ix)
        → process_instruction h sh.program_id accounts ix.payload ledger
          ≡ initialize h sh.program_id accounts w.output.accumulator_commitment
              (zeros 32)
              (w.output.finalized_epoch - 1)
              (zeros 32)
              w.program_vk
              ledger
    unfolding dispatch
    init-runs e =
        let (later, built) = init-sends ix e in
        ap (λ i. process_instruction h sh.program_id accounts i.payload ledger) built
        ∙ process_instruction-build h sh.program_id sh.derivation authority accounts first ledger
            first-IsInstruction

    submit-runs :
        submit sh authority path ≡ ok (post ix w.output)
        → process_instruction h sh.program_id accounts ix.payload ledger
          ≡ submit_finalization h sh.program_id accounts w.proof w.output ledger
    unfolding dispatch
    submit-runs e =
        ap (λ m. m >>= λ i. process_instruction h sh.program_id accounts i.payload ledger)
          (sym (submit-posts ix e))
        ∙ process_instruction-build h sh.program_id sh.derivation authority accounts second ledger
            (v.proof, v.output)

  -- The state that `init` leaves.
  abbrev booted : ℕ → Pubkey → LightClientState
  booted bump owner =
      bootstrap bump owner w.output.accumulator_commitment (zeros 32) (w.output.finalized_epoch - 1)
        (zeros 32) w.program_vk

  -- From where a successful `init` leaves the ledger, the wrap's output is admitted.
  admitted :
      (state_info ring_info : AccountInfo) (bump : ℕ) (owner : Pubkey) (mid : Ledger)
      → 1 ≤ w.output.finalized_epoch
      → Stands h sh.program_id state_info ring_info (booted bump owner) (λ i. none) mid
      → verify h w.proof w.program_vk w.output ≡ ok tt
      → Admits h sh.program_id state_info.key ring_info.key (booted bump owner) w.proof w.output mid
  admitted state_info ring_info bump owner mid later st proved = record {
    state_at = st.state_at;
    ring_at = st.ring_at;
    next = record { advances = omega arith; resumes = omega arith; extends = refl };
    proved = proved;
    countable = omega arith;
  }

  -- When `init` of a well-typed wrap has succeeded on chain and the verifier accepts the wrap's proof
  -- under its key, the client's `submit` of the same wrap succeeds on the accounts that `init` made,
  -- and its checkpoint is then attested.
  pub init_then_submit :
      (first_ix second_ix : Build.Instruction) (accounts more : List AccountInfo)
      (before mid : Ledger)
      → init sh authority path ≡ ok (send first_ix)
      → submit sh authority path ≡ ok (post second_ix w.output)
      → All (λ a. IsArray 32 a.key) accounts
      → IsLedger before
      → process_instruction h sh.program_id accounts first_ix.payload before ≡ ok mid
      → verify h w.proof w.program_vk w.output ≡ ok tt
      → (made : Initialized h sh.program_id accounts w.output.accumulator_commitment
          (zeros 32)
          (w.output.finalized_epoch - 1)
          (zeros 32)
          w.program_vk
          before
          mid)
        × (after : Ledger) × (process_instruction h sh.program_id
              (made.state_info ∷ made.ring_info ∷ more)
              second_ix.payload
              mid
            ≡ ok after)
        × (assert_finalized h sh.program_id
              (made.ring_info ∷ more)
              made.authority.key
              w.output.finalized_epoch
              w.output.finalized_root
              after
            ≡ ok tt)
  init_then_submit first_ix second_ix accounts more before mid i s keys typed done proved =
      let (later, built) = init-sends first_ix i in
      let made =
        initialize-eq-ok h sh.program_id accounts w.output.accumulator_commitment (zeros 32)
          (w.output.finalized_epoch - 1) (zeros 32) w.program_vk before mid keys first-IsInstruction
          typed (sym (init-runs accounts first_ix before i) ∙ done) in
      let admits =
        admitted made.state_info made.ring_info made.bump made.authority.key mid later made.stands
          proved in
      let lands =
        submit_finalization-accepts h sh.program_id made.state_info made.ring_info more _ w.proof
          w.output mid made.stands.valid v.output admits in
      let stands =
        Stands-submit h sh.program_id made.state_info made.ring_info _ (λ i. none) mid _ more
          w.proof w.output made.stands v.output lands in
      (
        made,
        _,
        submit-runs (made.state_info ∷ made.ring_info ∷ more) second_ix mid s ∙ lands,
        attested h sh.program_id made.state_info made.ring_info
            (booted made.bump made.authority.key) (λ i. none) w.output _ more stands,
      )
