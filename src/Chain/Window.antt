-- ===== src/Chain/Window.antt =====
-- What the ring answers after a run.
use zkasper_solana.Base.{
  ℕ, zero, suc, ◌≡◌, ◌≢◌, refl, sym, ap, ◌∙◌, ◌+◌, ◌%◌, ◌<◌, ◌≤◌, ◌==◌, ==_self, ==_ne, List, [],
  ◌∷◌, length, get_elem?, Option, some, none, arith, subst, bytes_eq, bytes_eq_self, bytes_eq→eq,
  false, Bool-cases, inl, inr, ==_iff,
}
use zkasper_solana.Base.Slices.{Bytes}
use zkasper_solana.Base.Result.{ok, err}
use zkasper_solana.Chain.{Run, state_after, slot_after}
use zkasper_solana.Chain.Invariant.{Stands, Run-Stands}
use zkasper_solana.Chain.Epochs.{History, Run-History, state_after-keeps}
use zkasper_solana.Errors.{into, epoch_not_in_ring}
use zkasper_solana.Processor.{Host, entry_of, assert_finalized}
use zkasper_solana.Processor.Checks.{RingAt}
use zkasper_solana.Processor.ReadPath.{verdict, assert_finalized-verdict}
use zkasper_solana.Runtime.Accounts.{Ledger, AccountInfo}
use zkasper_solana.State.LightClient.{Pubkey, LightClientState}
use zkasper_solana.State.Ring.{FinalizationEntry, ring_entries, index_of}
use zkasper_solana.State.Ring.Write.{index_of-lt}
use zkasper_solana.Wire.{FinalizationOutput}
use native.Mathlib.Decide.{dec_lt}

index_of_apart :
    (a b k : ℕ) → a ≡ b + suc k → suc k < ring_entries → (index_of b == index_of a) ≡ false
unfolding index_of
index_of_apart a b k e lt = ==_ne (b % 128) (a % 128) (omega arith)

-- The epoch of the output at a position.
numbered :
    (h : Host) (s : LightClientState) (outputs : List FinalizationOutput) (p : ℕ)
    (o : FinalizationOutput)
    → History h s outputs
    → get_elem? outputs p ≡ some o
    → o.finalized_epoch + suc p ≡ s.accumulator_epoch + length outputs
numbered h s [] p o history e = cc
numbered h s (x ∷ xs) zero o history e =
    let same : x ≡ o = cc in
    let epoch : x.finalized_epoch ≡ s.accumulator_epoch + length xs = history.0 in
    subst (λ y. y.finalized_epoch + 1 ≡ s.accumulator_epoch + length (x ∷ xs)) same
      (omega (arith, epoch))
numbered h s (x ∷ xs) (suc p) o history e = omega (arith, numbered h s xs p o history.3 e)

-- A slot holds the latest output that owns it, and within 128 outputs no later one does.
recent :
    (h : Host) (s : LightClientState) (slots : ℕ → Option FinalizationEntry)
    (outputs : List FinalizationOutput) (p : ℕ) (o : FinalizationOutput)
    → History h s outputs
    → get_elem? outputs p ≡ some o
    → p < ring_entries
    → slot_after slots outputs (index_of o.finalized_epoch) ≡ some (entry_of o)
recent h s slots [] p o history e lt = cc
recent h s slots (x ∷ xs) zero o history e lt =
    let same : x ≡ o = cc in rw (same, ==_self (index_of o.finalized_epoch))
recent h s slots (x ∷ xs) (suc p) o history e lt =
    let before = numbered h s xs p o history.3 e in
    rw (index_of_apart x.finalized_epoch o.finalized_epoch p (omega (arith, before, history.0)) lt)
      (recent h s slots xs p o history.3 e (omega arith))

earlier :
    {A : Type 0} (xs : List A) (p q : ℕ) (a : A)
    → get_elem? xs p ≡ some a
    → q ≤ p
    → (b : A) × (get_elem? xs q ≡ some b)
earlier [] p q a e le = cc
earlier (x ∷ xs) p zero a e le = (x, refl)
earlier (x ∷ xs) zero (suc q) a e le = absurd (omega arith)
earlier (x ∷ xs) (suc p) (suc q) a e le = earlier xs p q a e (omega arith)

shared_slot : (a b p : ℕ) → a + suc (p % 128) ≡ b + suc p → index_of b ≡ index_of a
unfolding index_of
shared_slot a b p e = omega arith

pub verdict_same :
    (o : FinalizationOutput)
    → verdict o.finalized_epoch o.finalized_root (some (entry_of o)) ≡ ok tt
verdict_same o = rw (==_self o.finalized_epoch, bytes_eq_self o.finalized_root)

verdict_other :
    (o : FinalizationOutput) (epoch : ℕ) (root : Bytes)
    → o.finalized_epoch ≢ epoch
    → verdict epoch root (some (entry_of o)) ≡ err (into epoch_not_in_ring)
verdict_other o epoch root ne = rw (==_ne o.finalized_epoch epoch ne)

verdict-eq-ok :
    (epoch : ℕ) (root : Bytes) (x : Option FinalizationEntry)
    → verdict epoch root x ≡ ok tt
    → (e : FinalizationEntry) × (x ≡ some e)
      × (e.finalized_epoch ≡ epoch)
      × (e.finalized_root ≡ root)
verdict-eq-ok epoch root none h = cc
verdict-eq-ok epoch root (some e) h = elim (Bool-cases (e.finalized_epoch == epoch)) [
  | inl same ↦ elim (Bool-cases (bytes_eq e.finalized_root root)) [
    | inl named ↦
        (e, refl, (==_iff e.finalized_epoch epoch).0 same, bytes_eq→eq e.finalized_root root named)
    | inr other ↦ cc (rw (same, other) at h)
  ]
  | inr other ↦ cc (rw other at h)
]

owner_of :
    (outputs : List FinalizationOutput) (i : ℕ) (e : FinalizationEntry)
    → slot_after (λ _. none) outputs i ≡ some e
    → (p : ℕ) × (o : FinalizationOutput) × (get_elem? outputs p ≡ some o) × (entry_of o ≡ e)
owner_of [] i e h = cc
owner_of (x ∷ xs) i e h = elim (Bool-cases (i == index_of x.finalized_epoch)) [
  | inl owns ↦ let first : some (entry_of x) ≡ some e = rw owns at h in (0, x, refl, cc)
  | inr other ↦ let (p, o, at, same) = owner_of xs i e (rw other at h) in (suc p, o, at, same)
]

module _ (h : Host) (program_id : Pubkey) (state_info ring_info : AccountInfo)
    (s : LightClientState) (slots : ℕ → Option FinalizationEntry) (start : Ledger)
    (outputs : List FinalizationOutput) (ledger : Ledger)
    (st : Stands h program_id state_info ring_info s slots start)
    (run : Run h program_id state_info ring_info start outputs ledger) where
  history : History h s outputs
  history = Run-History h program_id state_info ring_info s slots start outputs ledger st run

  stands :
      Stands h program_id state_info ring_info
        (state_after s outputs)
        (slot_after slots outputs)
        ledger
  stands = Run-Stands h program_id state_info ring_info s slots start outputs ledger st run

  ring_at : RingAt h program_id ring_info.key s.authority ledger
  ring_at =
      subst (λ k. RingAt h program_id ring_info.key k ledger) (state_after-keeps s outputs).0
        stands.ring_at

  answers :
      (rest : List AccountInfo) (epoch : ℕ) (root : Bytes)
      → assert_finalized h program_id (ring_info ∷ rest) s.authority epoch root ledger
        ≡ verdict epoch root (slot_after slots outputs (index_of epoch))
  answers rest epoch root =
      assert_finalized-verdict h program_id ring_info rest s.authority epoch root ledger ring_at
      ∙ ap (verdict epoch root) (stands.holds (index_of epoch) (index_of-lt epoch))

  -- Each of the last 128 outputs accepted is attested, by its epoch and its root.
  pub Run-attests :
      (rest : List AccountInfo) (p : ℕ) (o : FinalizationOutput)
      → get_elem? outputs p ≡ some o
      → p < ring_entries
      → assert_finalized h program_id
          (ring_info ∷ rest)
          s.authority
          o.finalized_epoch
          o.finalized_root
          ledger
        ≡ ok tt
  Run-attests rest p o at lt =
      answers rest o.finalized_epoch o.finalized_root
      ∙ ap (verdict o.finalized_epoch o.finalized_root) (recent h s slots outputs p o history at lt)
      ∙ verdict_same o

  -- Every output before the last 128 is refused with `EpochNotInRing`, whatever root is asked for:
  -- an evicted epoch is never reported as a checkpoint that was not finalized.
  pub Run-evicts :
      (rest : List AccountInfo) (p : ℕ) (o : FinalizationOutput) (root : Bytes)
      → get_elem? outputs p ≡ some o
      → ring_entries ≤ p
      → assert_finalized h program_id (ring_info ∷ rest) s.authority o.finalized_epoch root ledger
        ≡ err (into epoch_not_in_ring)
  Run-evicts rest p o root at old =
      let (x, x_at) = earlier outputs p (p % 128) o at (omega arith) in
      let o_number = numbered h s outputs p o history at in
      let x_number = numbered h s outputs (p % 128) x history x_at in
      let shared : index_of o.finalized_epoch ≡ index_of x.finalized_epoch =
        shared_slot x.finalized_epoch o.finalized_epoch p (x_number ∙ sym o_number) in
      answers rest o.finalized_epoch root
      ∙ ap (λ i. verdict o.finalized_epoch root (slot_after slots outputs i)) shared
      ∙ ap (verdict o.finalized_epoch root)
          (recent h s slots outputs (p % 128) x history x_at (omega arith))
      ∙ verdict_other x o.finalized_epoch root (λ e. absurd (omega (arith, e, o_number, x_number)))

-- On a run from an empty ring, whatever is attested is one of the last 128 outputs accepted.
pub Run-sound :
    (h : Host) (program_id : Pubkey) (state_info ring_info : AccountInfo) (s : LightClientState)
    (start : Ledger) (outputs : List FinalizationOutput) (ledger : Ledger)
    → Stands h program_id state_info ring_info s (λ _. none) start
    → Run h program_id state_info ring_info start outputs ledger
    → (rest : List AccountInfo) (epoch : ℕ) (root : Bytes)
    → assert_finalized h program_id (ring_info ∷ rest) s.authority epoch root ledger ≡ ok tt
    → (p : ℕ) × (o : FinalizationOutput) × (get_elem? outputs p ≡ some o)
      × (p < ring_entries)
      × (o.finalized_epoch ≡ epoch)
      × (o.finalized_root ≡ root)
Run-sound h program_id state_info ring_info s start outputs ledger st run rest epoch root passes =
    let answered =
      answers h program_id state_info ring_info s (λ _. none) start outputs ledger st run rest epoch
        root in
    let (e, holds, epoch_is, root_is) =
      verdict-eq-ok epoch root (slot_after (λ _. none) outputs (index_of epoch))
        (sym answered ∙ passes) in
    let (p, o, at, same) = owner_of outputs (index_of epoch) e holds in
    let o_epoch : o.finalized_epoch ≡ epoch = ap (λ x. x.finalized_epoch) same ∙ epoch_is in
    let o_root : o.finalized_root ≡ root = ap (λ x. x.finalized_root) same ∙ root_is in
    (
      p,
      o,
      at,
      elim (dec_lt p 128) [
        | yes lt ↦ lt
        | no old ↦
            let evicted =
              Run-evicts h program_id state_info ring_info s (λ _. none) start outputs ledger st run
                rest p o root at (omega arith) in
            let attested : assert_finalized h program_id (ring_info ∷ rest) s.authority
                  o.finalized_epoch root ledger
                ≡ ok tt =
              rw o_epoch passes in
            absurd (cc (evicted, attested))
      ],
      o_epoch,
      o_root,
    )
