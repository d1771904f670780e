-- ===== src/State/Ring/Write.antt =====
-- Writing an entry: the slot that its epoch owns, and the others.
use zkasper_solana.Base.{
  ℕ, zero, ◌+◌, ◌≤◌, ◌<◌, ◌≡◌, sym, ap, ◌∙◌, ◌≢◌, ◌⊎◌, inl, [], ◌++◌, ◌==◌, ==_ne, ==_self,
  if◌then◌else◌, length, take, drop, All, All-append, All-take, All-drop, get_elem?, length-append,
  length-take, arith, some,
}
use zkasper_solana.Base.Slices.{
  Bytes, window, get_elem?-window, window-splice_self, window-splice_apart, length-written,
}
use zkasper_solana.Base.Result.{ok}
use zkasper_solana.Base.Memory.{read_byte}
use zkasper_solana.State.Ring.{
  FinalizationEntry, IsEntry, ring_entries, ring_entry_len, bump, index_of, offset, slot, slot_at,
  write_entry,
}
use zkasper_solana.Base.Words.{IsByte, to_le_bytes-IsArray}
use zkasper_solana.Base.Layout.{concat-bytes}
use zkasper_solana.State.Ring.Block.{
  entry_fields, encode_entry, length-encode_entry, splice, slot_at-encode_entry, write_at-splice,
}
use zkasper_solana.State.Ring.Slots.{IsRing, header-IsRing, offset_in_ring, held, slot-window}
use native.Mathlib.Decide.{ℕ_discrete}

pub index_of-lt : (epoch : ℕ) → index_of epoch < ring_entries
unfolding index_of
index_of-lt epoch = omega arith

slots_apart :
    (i j : ℕ)
    → i ≢ j
    → (offset i + ring_entry_len ≤ offset j) ⊎ (offset j + ring_entry_len ≤ offset i)
unfolding offset
slots_apart i j ne = omega arith

abbrev place : FinalizationEntry → ℕ
place e = offset (index_of e.finalized_epoch)

-- The account after the write.
pub after : Bytes → FinalizationEntry → Bytes
after bytes e = splice (place e) (encode_entry e) bytes

module _ (bytes : Bytes) (e : FinalizationEntry) (r : IsRing bytes) (v : IsEntry e) where
  room : (place e + 73 ≤ length bytes) × (2 ≤ place e)
  room =
      unfold offset in
      omega
        (arith, offset_in_ring (index_of e.finalized_epoch) (index_of-lt e.finalized_epoch), r.long)

  -- On a ring the write succeeds, and this is its result.
  pub write_entry-after : write_entry bytes e ≡ ok (after bytes e)
  unfolding write_entry after
  write_entry-after = rw (header-IsRing bytes r) (write_at-splice (place e) e bytes v room.0)

  room_for_entry : place e + length (encode_entry e) ≤ length bytes
  room_for_entry = omega (arith, length-encode_entry e v, room)

  front : length (take (place e) bytes ++ encode_entry e) ≤ length bytes
  front = omega (
    arith,
    length-append (take (place e) bytes) (encode_entry e),
    length-take (place e) bytes,
    room_for_entry,
  )

  pub length-after : length (after bytes e) ≡ length bytes
  unfolding after
  length-after = length-written (take (place e) bytes ++ encode_entry e) bytes front

  -- The tag and the bump at the front stay.
  pub header-after : window 0 2 (after bytes e) ≡ window 0 2 bytes
  unfolding after
  header-after =
      window-splice_apart (place e) 0 2 (encode_entry e) bytes room_for_entry
        (inl (omega (arith, room)))

  pub get_elem?-after : (i : ℕ) → i < 2 → get_elem? (after bytes e) i ≡ get_elem? bytes i
  get_elem?-after i h =
      let start : zero + i ≡ i = omega arith in
      rw start at (
        get_elem?-window 0 2 i (after bytes e) h
        ∙ ap (λ w. get_elem? w i) header-after
        ∙ sym (get_elem?-window 0 2 i bytes h))

  pub after-IsRing : IsRing (after bytes e)
  after-IsRing = record {
    long = omega (arith, length-after, r.long);
    tagged = get_elem?-after 0 (omega arith) ∙ r.tagged;
  }

  written_slot : slot (after bytes e) (index_of e.finalized_epoch) ≡ ok (some e)
  written_slot =
      slot-window (after bytes e) (index_of e.finalized_epoch) (index_of-lt e.finalized_epoch)
        after-IsRing.long
      ∙ ap (slot_at 0) entry_bytes
      ∙ slot_at-encode_entry e v
    where
      entry_bytes : window (place e) 73 (after bytes e) ≡ encode_entry e
      entry_bytes =
          unfold after in
          ap (λ n. window (place e) n (splice (place e) (encode_entry e) bytes))
            (sym (length-encode_entry e v))
          ∙ window-splice_self (place e) (encode_entry e) bytes room_for_entry

  other_slot :
      (i : ℕ)
      → i < ring_entries
      → i ≢ index_of e.finalized_epoch
      → slot (after bytes e) i ≡ slot bytes i
  other_slot i h ne =
      slot-window (after bytes e) i h after-IsRing.long
      ∙ ap (slot_at 0) same_bytes
      ∙ sym (slot-window bytes i h r.long)
    where
      same_bytes : window (offset i) 73 (after bytes e) ≡ window (offset i) 73 bytes
      same_bytes =
          unfold after in
          window-splice_apart (place e) (offset i) 73 (encode_entry e) bytes room_for_entry
            (omega (arith, length-encode_entry e v, slots_apart i (index_of e.finalized_epoch) ne))

  -- After a write each slot of the ring holds what it held before, but for the one that the entry's
  -- epoch owns, which holds the entry.
  pub held-after :
      (i : ℕ)
      → i < ring_entries
      → held (after bytes e) i ≡ (if i == index_of e.finalized_epoch then some e else held bytes i)
  unfolding held
  held-after i h = elim (ℕ_discrete i (index_of e.finalized_epoch)) [
    | yes same ↦ rw (same, ==_self (index_of e.finalized_epoch), written_slot)
    | no ne ↦ rw (==_ne i (index_of e.finalized_epoch) ne, other_slot i h ne)
  ]

  -- A write to a ring succeeds, and afterwards each slot holds what it held before, but for the one
  -- that the entry's epoch owns, which holds the entry.
  pub write_entry-held :
      (i : ℕ)
      → i < ring_entries
      → (out : Bytes) × (write_entry bytes e ≡ ok out)
        × IsRing out
        × (held out i ≡ (if i == index_of e.finalized_epoch then some e else held bytes i))
  write_entry-held i h = (after bytes e, write_entry-after, after-IsRing, held-after i h)

  pub bump-after : bump (after bytes e) ≡ bump bytes
  unfolding bump read_byte
  bump-after = rw (
    header-IsRing (after bytes e) after-IsRing,
    header-IsRing bytes r,
    get_elem?-after 1 (omega arith),
  )

pub after-bytes :
    (bytes : Bytes) (e : FinalizationEntry)
    → IsEntry e
    → All IsByte bytes
    → All IsByte (after bytes e)
unfolding after
after-bytes bytes e v h =
    let entry_bytes =
      concat-bytes (entry_fields e) []
        (
          (omega arith, tt),
          (
            (to_le_bytes-IsArray 8 e.finalized_epoch).bytes,
            (v.finalized_root.bytes, (v.finalized_state_root.bytes, tt)),
          ),
        )
        tt in
    let front = take (place e) bytes ++ encode_entry e in
    All-append IsByte front (drop (length front) bytes)
      (All-append IsByte (take (place e) bytes) (encode_entry e) (All-take IsByte (place e) bytes h)
        entry_bytes)
      (All-drop IsByte (length front) bytes h)
