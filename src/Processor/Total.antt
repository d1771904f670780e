-- ===== src/Processor/Total.antt =====
-- Panics of the handlers.
pub mod Outcome
pub mod Instructions
use zkasper_solana.Base.{
  ℕ, ◌≡◌, ◌≢◌, refl, ◌+◌, ◌-◌, ◌^◌, ◌≤◌, not, leb, ltb, ◌==◌, bytes_eq, false, length, List, [],
  ◌∷◌, All, arith, Bool-cases, inl, inr, if◌then◌else◌, drop, subst,
}
use zkasper_solana.Base.Slices.{Bytes}
use zkasper_solana.Base.Result.{Result, ok, err, panic, ◌>>=◌, ◌>>◌, refuse_if, ok_or, map_err}
use zkasper_solana.Base.Words.{IsByte, IsArray, IsU64}
use zkasper_solana.Base.Yields.{
  Yields, yields, refuses, Returns, Sized, Yields-bind, Yields-if, Yields-known, Yields-map_err,
  Yields-ok_or, Yields-Returns, Yields-ne-panic, refuse_if-Yields,
}
use zkasper_solana.Errors.{
  ProgramError, ZkasperError, into, epoch_not_advancing, accumulator_epoch_mismatch,
  accumulator_mismatch, invalid_ring_account, invalid_state_account, checkpoint_not_finalized,
}
use zkasper_solana.Base.Only.{Only, Only-bind, Only-eq-err}
use zkasper_solana.Plonk.Encoding.{failed, decompress_proof}
use zkasper_solana.Plonk.Refusal.{Only-verify_with, Only-decompress_proof}
use zkasper_solana.Plonk.Total.{IsSized, decompress_proof-Yields}
use zkasper_solana.Plonk.Total.Equation.{verify_with-Returns}
use zkasper_solana.Plonk.Verify
use zkasper_solana.Processor.{
  Host, expect_next, expect_pda, expect_ring, expect_state, verify, create_pda, allocate_funded,
  verify_only, assert_finalized, assert_anchored,
}
use zkasper_solana.Processor.Checks.{
  StateAt, RingAt, expect_state-eq-ok, expect_ring-eq-ok, RingAt-IsRing,
}
use zkasper_solana.Processor.Checked.Reasons.{expect_state-StateChecked, expect_ring-RingChecked}
use zkasper_solana.Processor.Checked.{
  StateChecked, foreign, short, mistagged, misplaced, located, RingChecked, foreign_ring,
  short_ring, mistagged_ring, misplaced_ring, located_ring,
}
use zkasper_solana.Processor.CreatePda.{Created, create_pda-Created}
use zkasper_solana.Runtime.Address.{seed_state, seed_ring}
use zkasper_solana.Runtime.Accounts.{Ledger, AccountInfo, System, next_account_info}
use zkasper_solana.State.LightClient
use zkasper_solana.State.LightClient.{Pubkey, LightClientState, IsState}
use zkasper_solana.State.LightClient.Total.{unpack-Yields}
use zkasper_solana.State.Ring
use zkasper_solana.State.Ring.Total.{bump-Returns, entry-Returns, entry_by_state_root-Returns}
use zkasper_solana.Wire.{FinalizationOutput, IsOutput, public_values}
use zkasper_solana.Wire.Window.{window_of, length-window_of, public_values-window_of}

-- The system program's instructions return.
pub record SystemReturns (s : System) : Type 0 where
  pub minimum_balance : s.minimum_balance ≢ panic
  pub create_account :
      (payer target : AccountInfo) (lamports space : ℕ) (owner : Pubkey) (seeds : List Bytes)
      (ledger : Ledger)
      → s.create_account payer target lamports space owner seeds ledger ≢ panic
  pub transfer :
      (payer target : AccountInfo) (amount : ℕ) (ledger : Ledger)
      → s.transfer payer target amount ledger ≢ panic
  pub allocate :
      (target : AccountInfo) (space : ℕ) (seeds : List Bytes) (ledger : Ledger)
      → s.allocate target space seeds ledger ≢ panic
  pub assign :
      (target : AccountInfo) (owner : Pubkey) (seeds : List Bytes) (ledger : Ledger)
      → s.assign target owner seeds ledger ≢ panic

-- Every account holds bytes.
abbrev pub Holds : Ledger → Type 0
Holds ledger = (key : Pubkey) → All IsByte (ledger key).bytes

total : {E : Type 0} {A : Type 0} (m : Result E A) → m ≢ panic → Returns m
total m h = Yields-known m h λ a e. tt

pub expect_next-Returns :
    (s : LightClientState) (output : FinalizationOutput) → Returns (expect_next s output)
unfolding expect_next
expect_next-Returns s output =
    Yields-bind
      (refuse_if-Yields (leb output.finalized_epoch s.finalized_epoch) (into epoch_not_advancing))
      λ done d.
        Yields-bind
          (refuse_if-Yields (not (s.accumulator_epoch == output.finalized_epoch))
            (into accumulator_epoch_mismatch))
          λ done d. Yields-Returns (
            refuse_if-Yields (not (bytes_eq s.accumulator_commitment output.accumulator_commitment))
              (into accumulator_mismatch))

module _ (h : Host) where
  pub verify-Returns :
      (proof vk : Bytes) (output : FinalizationOutput)
      → IsSized h.backend
      → IsArray 32 vk
      → IsOutput output
      → Returns (verify h proof vk output)
  unfolding verify Verify.verify
  verify-Returns proof vk output sized k o =
      Yields-bind (decompress_proof-Yields h.backend.syscalls proof sized.g1_decompress)
        λ expanded s. rw (public_values-window_of {E = ZkasperError} output vk o k) (
          verify_with-Returns h.backend sized expanded vk (window_of output vk) false k.sized
            (length-window_of output vk o k))

  -- `verify` refuses with ProofVerificationFailed only.
  pub verify-failed :
      (proof vk : Bytes) (output : FinalizationOutput) {e : ZkasperError}
      → IsArray 32 vk
      → IsOutput output
      → verify h proof vk output ≡ err e
      → e ≡ failed
  unfolding verify Verify.verify
  verify-failed proof vk output k o refused = Only-eq-err (
      subst (Only failed) refused (
        Only-bind (decompress_proof h.backend.syscalls proof) _
          (Only-decompress_proof h.backend.syscalls proof)
          λ expanded.
            rw (public_values-window_of {E = ZkasperError} output vk o k)
              (Only-verify_with h.backend expanded vk (window_of output vk) false)))

module _ (h : Host) (program_id : Pubkey) where
  RingChecked-Yields :
      {key authority : Pubkey} {ledger : Ledger} {r : Result ZkasperError (Unit {0})}
      → RingChecked h program_id key ledger authority r
      → Yields (λ done. RingAt h program_id key authority ledger) r
  RingChecked-Yields (foreign_ring _) = refuses
  RingChecked-Yields (short_ring _ _) = refuses
  RingChecked-Yields (mistagged_ring _ _ _) = refuses
  RingChecked-Yields (misplaced_ring _ _ _ _) = refuses
  RingChecked-Yields (located_ring ring) = yields ring

  pub expect_ring-Yields :
      (info : AccountInfo) (authority : Pubkey) (ledger : Ledger)
      → Yields
          (λ done. RingAt h program_id info.key authority ledger)
          (expect_ring h program_id info authority ledger)
  expect_ring-Yields info authority ledger =
      RingChecked-Yields (expect_ring-RingChecked h program_id info ledger authority)

  StateChecked-Yields :
      {key : Pubkey} {ledger : Ledger} {r : Result ProgramError LightClientState}
      → StateChecked h program_id key ledger r
      → Yields (λ s. StateAt h program_id key ledger s) r
  StateChecked-Yields (foreign _) = refuses
  StateChecked-Yields (short _ _) = refuses
  StateChecked-Yields (mistagged _ _ _) = refuses
  StateChecked-Yields (misplaced _ _ _ _) = refuses
  StateChecked-Yields (located s at) = yields at

  pub expect_state-Yields :
      (info : AccountInfo) (ledger : Ledger)
      → Holds ledger
      → Yields (λ s. StateAt h program_id info.key ledger s) (expect_state h program_id info ledger)
  expect_state-Yields info ledger b =
      StateChecked-Yields (expect_state-StateChecked h program_id info ledger (b info.key))

  pub verify_only-Returns :
      (accounts : List AccountInfo) (proof : Bytes) (output : FinalizationOutput) (ledger : Ledger)
      → IsSized h.backend
      → Holds ledger
      → IsOutput output
      → Returns (verify_only h program_id accounts proof output ledger)
  unfolding verify_only
  verify_only-Returns [] proof output ledger sized b o = refuses
  verify_only-Returns (info ∷ rest) proof output ledger sized b o =
      Yields-bind
        (refuse_if-Yields (not (bytes_eq (ledger info.key).owner program_id))
          (into invalid_state_account))
        λ done d.
          Yields-bind (Yields-map_err into (unpack-Yields (ledger info.key).bytes (b info.key)))
            λ s v.
              Yields-map_err into (verify-Returns h proof s.program_vk output sized v.program_vk o)

  pub assert_finalized-Returns :
      (accounts : List AccountInfo) (authority : Pubkey) (epoch : ℕ) (root : Bytes)
      (ledger : Ledger)
      → Returns (assert_finalized h program_id accounts authority epoch root ledger)
  unfolding assert_finalized
  assert_finalized-Returns [] authority epoch root ledger = refuses
  assert_finalized-Returns (info ∷ rest) authority epoch root ledger =
      Yields-bind (Yields-map_err into (expect_ring-Yields info authority ledger)) λ done r.
        Yields-bind
          (Yields-map_err into (
            entry-Returns (ledger info.key).bytes epoch
              (RingAt-IsRing h program_id info.key authority ledger r)))
          λ entry d. Yields-Returns (
            refuse_if-Yields (not (bytes_eq entry.finalized_root root))
              (into checkpoint_not_finalized))

  pub assert_anchored-Returns :
      (accounts : List AccountInfo) (authority : Pubkey) (root : Bytes) (ledger : Ledger)
      → Returns (assert_anchored h program_id accounts authority root ledger)
  unfolding assert_anchored
  assert_anchored-Returns [] authority root ledger = refuses
  assert_anchored-Returns (info ∷ rest) authority root ledger =
      Yields-bind (Yields-map_err into (expect_ring-Yields info authority ledger)) λ done r.
        Yields-bind
          (Yields-map_err into (
            entry_by_state_root-Returns (ledger info.key).bytes root
              (RingAt-IsRing h program_id info.key authority ledger r)))
          λ found d. yields tt

  allocate_funded-Returns :
      (payer target : AccountInfo) (space : ℕ) (seeds : List Bytes) (rent : ℕ) (ledger : Ledger)
      → SystemReturns h.system
      → Returns (allocate_funded h program_id payer target space seeds rent ledger)
  unfolding allocate_funded
  allocate_funded-Returns payer target space seeds rent ledger r =
      Yields-bind
        (Yields-if (ltb 0 (rent - (ledger target.key).lamports))
          (total _ (r.transfer payer target (rent - (ledger target.key).lamports) ledger))
          (yields tt))
        λ ledger d.
          Yields-bind (total _ (r.allocate target space seeds ledger))
            λ ledger d. total _ (r.assign target program_id seeds ledger)

  create_pda-Returns :
      (payer target : AccountInfo) (space : ℕ) (seeds : List Bytes) (ledger : Ledger)
      → SystemReturns h.system
      → Returns (create_pda h program_id payer target space seeds ledger)
  unfolding create_pda
  create_pda-Returns payer target space seeds ledger r =
      Yields-bind (total h.system.minimum_balance r.minimum_balance) λ minimum d.
        Yields-if ((ledger target.key).lamports == 0)
          (total _ (r.create_account payer target (minimum space) space program_id seeds ledger))
          (allocate_funded-Returns payer target space seeds (minimum space) ledger r)

  pub create_pda-Yields :
      (payer target : AccountInfo) (space : ℕ) (seeds : List Bytes) (ledger : Ledger)
      → SystemReturns h.system
      → Yields
          (Created h program_id target space ledger)
          (create_pda h program_id payer target space seeds ledger)
  create_pda-Yields payer target space seeds ledger r =
      Yields-known (create_pda h program_id payer target space seeds ledger)
        (Yields-ne-panic (create_pda-Returns payer target space seeds ledger r))
        λ after e. create_pda-Created h program_id payer target space seeds ledger after e
