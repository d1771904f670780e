-- ===== src/State/Ring/Fresh.antt =====
-- `init` on a freshly created account.
use zkasper_solana.Base.{
  ℕ, zero, suc, ◌+◌, ◌-◌, ◌≤◌, ◌<◌, ◌≡◌, refl, ap, ◌∙◌, inl, inr, false, [], ◌∷◌, ltb, length, take,
  drop, replicate, All, All-append, All-drop, arith, none,
}
use zkasper_solana.Base.Slices.{Bytes, window, written, length-written, window-splice_apart}
use zkasper_solana.Base.Result.{ok, err}
use zkasper_solana.Errors.{epoch_not_in_ring, state_root_not_anchored}
use zkasper_solana.State.Ring.Lookup.{entry-held, answer}
use zkasper_solana.State.Ring.Scan.{entry_by_state_root_cases}
use zkasper_solana.State.Ring.Write.{index_of-lt}
use zkasper_solana.Base.Memory.{read_byte, write_byte-written, zeros, length-zeros, zeros-bytes}
use zkasper_solana.Base.Layout.{sizes}
use zkasper_solana.Base.Words.{IsByte}
use zkasper_solana.State.Ring.{
  ring_len, ring_entries, tag_finalization_ring, init, bump, offset, slot_at, slot, entry, index_of,
  entry_by_state_root,
}
use zkasper_solana.State.Ring.Slots.{
  IsRing, header-IsRing, offset_in_ring, held, slot-held, slot-window,
}
use zkasper_solana.State.Ring.Block.{slot_at-block}

-- The header over the zeros of a new account.
pub fresh : ℕ → ℕ → Bytes
fresh space b = written (tag_finalization_ring ∷ b ∷ []) (zeros space)

header_before : (i : ℕ) → 2 ≤ offset i
unfolding offset
header_before i = omega arith

take-replicate : (n k : ℕ) → n ≤ k → take {A = ℕ} n (replicate k 0) ≡ replicate n 0
take-replicate zero k h = refl
take-replicate (suc n) zero h = absurd (omega arith)
take-replicate (suc n) (suc k) h = ap (λ t. 0 ∷ t) (take-replicate n k (omega arith))

drop-replicate : (n k : ℕ) → n ≤ k → drop {A = ℕ} n (replicate k 0) ≡ replicate (k - n) 0
drop-replicate zero k h = let e : k ≡ k - 0 = omega arith in ap (λ j. replicate {A = ℕ} j 0) e
drop-replicate (suc n) zero h = absurd (omega arith)
drop-replicate (suc n) (suc k) h =
    let e : k - n ≡ suc k - suc n = omega arith in
    drop-replicate n k (omega arith) ∙ ap (λ j. replicate {A = ℕ} j 0) e

window-zeros : (at n k : ℕ) → at + n ≤ k → window at n (zeros k) ≡ zeros n
unfolding zeros
window-zeros at n k h =
    ap (take n) (drop-replicate at k (omega arith)) ∙ take-replicate n (k - at) (omega arith)

blank_slot : slot_at 0 (zeros 73) ≡ ok none
unfolding zeros
blank_slot = slot_at-block 0 (replicate 72 0) refl

module _ (space b : ℕ) (h : ring_len ≤ space) where
  pub init-fresh : init (zeros space) b ≡ ok (fresh space b)
  unfolding init fresh
  init-fresh =
      let enough : ltb (length (zeros space)) ring_len ≡ false =
        ground (arith, length-zeros space) in
      rw (
        enough,
        write_byte-written [] (zeros space) 0 2 refl (omega sizes),
        write_byte-written (2 ∷ []) (zeros space) 1 b refl (omega sizes),
      )

  pub length-fresh : length (fresh space b) ≡ space
  unfolding fresh
  length-fresh = length-written (2 ∷ b ∷ []) (zeros space) (omega sizes) ∙ length-zeros space

  pub fresh-IsRing : IsRing (fresh space b)
  unfolding fresh
  fresh-IsRing = record { long = omega (arith, length-fresh); tagged = refl }

  pub bump-fresh : bump (fresh space b) ≡ ok b
  unfolding bump
  bump-fresh = rw (header-IsRing (fresh space b) fresh-IsRing) (unfold read_byte fresh in refl)

  pub held-fresh : (i : ℕ) → i < ring_entries → held (fresh space b) i ≡ none
  unfolding held
  held-fresh i lt = rw (
    slot-window (fresh space b) i lt (omega (arith, length-fresh)),
    untouched,
    window-zeros (offset i) 73 space inside,
    blank_slot,
  )
    where
      inside : offset i + 73 ≤ space
      inside = omega (arith, offset_in_ring i lt)

      untouched : window (offset i) 73 (fresh space b) ≡ window (offset i) 73 (zeros space)
      untouched =
          unfold fresh in
          window-splice_apart 0 (offset i) 73 (2 ∷ b ∷ []) (zeros space) (omega sizes)
            (inr (header_before i))

  entry-fresh : (epoch : ℕ) → entry (fresh space b) epoch ≡ err epoch_not_in_ring
  entry-fresh epoch =
      entry-held (fresh space b) epoch fresh-IsRing
      ∙ ap (answer epoch) (held-fresh (index_of epoch) (index_of-lt epoch))

  entry_by_state_root-fresh :
      (root : Bytes) → entry_by_state_root (fresh space b) root ≡ err state_root_not_anchored
  entry_by_state_root-fresh root =
      elim (entry_by_state_root_cases (fresh space b) root fresh-IsRing) [
        | inl (refused, absent) ↦ refused
        | inr (k, e, found, lt, holds, named, first) ↦ cc (holds, held-fresh k lt)
      ]

  slot-fresh : (i : ℕ) → i < ring_entries → slot (fresh space b) i ≡ ok none
  slot-fresh i lt = slot-held (fresh space b) i fresh-IsRing lt ∙ ap ok (held-fresh i lt)

  -- A new account of at least the ring's size becomes a ring that names its bump and reads as nothing
  -- in any slot; a lookup in it answers EpochNotInRing for every epoch, and StateRootNotAnchored for
  -- every state root.
  pub init-empty :
      (i epoch : ℕ) (root : Bytes)
      → i < ring_entries
      → (out : Bytes) × (init (zeros space) b ≡ ok out)
        × IsRing out
        × (bump out ≡ ok b)
        × (slot out i ≡ ok none)
        × (entry out epoch ≡ err epoch_not_in_ring)
        × (entry_by_state_root out root ≡ err state_root_not_anchored)
  init-empty i epoch root lt = (
    fresh space b,
    init-fresh,
    fresh-IsRing,
    bump-fresh,
    slot-fresh i lt,
    entry-fresh epoch,
    entry_by_state_root-fresh root,
  )

  pub fresh-bytes : IsByte b → All IsByte (fresh space b)
  unfolding fresh
  fresh-bytes hb =
      All-append IsByte (tag_finalization_ring ∷ b ∷ []) (drop 2 (zeros space))
        (omega arith, (hb, tt)) (All-drop IsByte 2 (zeros space) (zeros-bytes space))
