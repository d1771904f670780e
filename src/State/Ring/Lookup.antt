-- ===== src/State/Ring/Lookup.antt =====
-- `entry`: the lookup by epoch, before and after a write.
use zkasper_solana.Base.{
  ℕ, ◌≡◌, sym, ◌∙◌, ◌==◌, ==_ne, ==_self, Bool-cases, inl, inr, if◌then◌else◌, arith, Option, none,
  some,
}
use zkasper_solana.Base.Slices.{Bytes}
use zkasper_solana.Base.Result.{Result, ok, err, ok_or}
use zkasper_solana.Errors.{ZkasperError, epoch_not_in_ring}
use zkasper_solana.State.Ring.{FinalizationEntry, IsEntry, index_of, filter, entry, write_entry}
use zkasper_solana.State.Ring.Slots.{IsRing, header-IsRing, held, slot-held}
use zkasper_solana.State.Ring.Write.{
  after, index_of-lt, after-IsRing, held-after, write_entry-after,
}
use native.Mathlib.Decide.{ℕ_discrete}

-- The answer for an epoch, from what the slot it owns holds.
abbrev pub answer : ℕ → Option FinalizationEntry → Result ZkasperError FinalizationEntry
answer epoch found = ok_or epoch_not_in_ring (filter (λ e. e.finalized_epoch == epoch) found)

pub entry-held :
    (bytes : Bytes) (epoch : ℕ)
    → IsRing bytes
    → entry bytes epoch ≡ answer epoch (held bytes (index_of epoch))
unfolding entry
entry-held bytes epoch r =
    rw (header-IsRing bytes r, slot-held bytes (index_of epoch) r (index_of-lt epoch))

-- What comes back is an entry of the epoch asked for, never one of a congruent epoch.
pub entry-eq-ok :
    (bytes : Bytes) (epoch : ℕ) (e : FinalizationEntry)
    → IsRing bytes
    → entry bytes epoch ≡ ok e
    → (e.finalized_epoch ≡ epoch) × (held bytes (index_of epoch) ≡ some e)
entry-eq-ok bytes epoch e r h =
    found (held bytes (index_of epoch)) (sym (entry-held bytes epoch r) ∙ h)
  where
    found :
        (o : Option FinalizationEntry)
        → answer epoch o ≡ ok e
        → (e.finalized_epoch ≡ epoch) × (o ≡ some e)
    found none p = cc
    found (some x) p = ground arith

pub entry-after :
    (bytes : Bytes) (e : FinalizationEntry) (epoch : ℕ)
    → IsRing bytes
    → IsEntry e
    → entry (after bytes e) epoch ≡ (
        if epoch == e.finalized_epoch
        then ok e
        else if index_of epoch == index_of e.finalized_epoch
        then err epoch_not_in_ring
        else entry bytes epoch)
entry-after bytes e epoch r v =
    rw
      (
        entry-held (after bytes e) epoch (after-IsRing bytes e r v),
        held-after bytes e r v (index_of epoch) (index_of-lt epoch),
        entry-held bytes epoch r,
      )
      (elim (ℕ_discrete epoch e.finalized_epoch) [
        | yes same ↦ rw (
          same,
          ==_self e.finalized_epoch,
          ==_self (index_of e.finalized_epoch),
          ==_self e.finalized_epoch,
        )
        | no ne ↦
            rw (==_ne epoch e.finalized_epoch ne)
              (elim (Bool-cases (index_of epoch == index_of e.finalized_epoch)) [
                | inl shared ↦ rw (shared, ==_ne e.finalized_epoch epoch (λ p. ne (sym p)))
                | inr apart ↦ rw apart
              ])
      ])

-- A write to a ring succeeds, and afterwards the ring answers for the epoch written, no longer for
-- another epoch of the same slot, and for every other epoch as before.
pub entry-write_entry :
    (bytes : Bytes) (e : FinalizationEntry) (epoch : ℕ)
    → IsRing bytes
    → IsEntry e
    → (out : Bytes) × (write_entry bytes e ≡ ok out)
      × (entry out epoch ≡ (
          if epoch == e.finalized_epoch
          then ok e
          else if index_of epoch == index_of e.finalized_epoch
          then err epoch_not_in_ring
          else entry bytes epoch))
entry-write_entry bytes e epoch r v =
    (after bytes e, write_entry-after bytes e r v, entry-after bytes e epoch r v)
