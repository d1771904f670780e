-- ===== src/State/Ring/Slots.antt =====
-- The ring as 128 slots: every slot can be read, and a write changes the one its epoch owns.
use zkasper_solana.Base.{
  ℕ, ◌+◌, ◌≤◌, ◌<◌, ◌≡◌, refl, sym, ap, ◌∙◌, inl, inr, Bool, false, [], ◌∷◌, ◌==◌, ==_iff, ltb,
  bytes_eq, length, get_elem?, arith, Option, none, some, Bool-cases,
}
use zkasper_solana.Base.Slices.{Bytes, window, length-window}
use zkasper_solana.Base.Result.{
  >>=-eq-ok, refuse_if, refuse_if-eq-ok, refuse_unless-eq-ok, Result, ok,
}
use zkasper_solana.Base.Memory.{read_byte}
use zkasper_solana.Errors.{ZkasperError, account_data_too_small, wrong_account_tag}
use zkasper_solana.State.Ring.{
  FinalizationEntry, ring_len, ring_entries, ring_entry_len, tag_finalization_ring, tag_ring_entry,
  header, bump, offset, slot, slot_at, names_root,
}
use zkasper_solana.State.Ring.Block.{slot_at-window, slot_at-block, block_entry, names_root_at}

-- An account that passes the header check.
pub record IsRing (bytes : Bytes) : Type 0 where
  pub long : ring_len ≤ length bytes
  pub tagged : get_elem? bytes 0 ≡ some tag_finalization_ring

pub header-IsRing : (bytes : Bytes) → IsRing bytes → header bytes ≡ ok tt
unfolding header read_byte
header-IsRing bytes r =
    let short : ltb (length bytes) ring_len ≡ false = ground (arith, r.long) in rw (short, r.tagged)

pub offset_in_ring : (i : ℕ) → i < ring_entries → offset i + ring_entry_len ≤ ring_len
unfolding offset
offset_in_ring i h = omega arith

-- What the slot `i` holds, as a pure function; `slot-held` says that the code reads just that.
abbrev pub reading : Result ZkasperError (Option FinalizationEntry) → Option FinalizationEntry
reading (ok r) = r
reading _ = none

unfoldable pub held : Bytes → ℕ → Option FinalizationEntry
held bytes i = reading (slot bytes i)

pub slot-window :
    (bytes : Bytes) (i : ℕ)
    → i < ring_entries
    → ring_len ≤ length bytes
    → slot bytes i ≡ slot_at 0 (window (offset i) ring_entry_len bytes)
slot-window bytes i h long =
    unfold slot in slot_at-window (offset i) bytes (omega (arith, offset_in_ring i h))

block_reads : (w : Bytes) → length w ≡ 73 → (r : Option FinalizationEntry) × (slot_at 0 w ≡ ok r)
block_reads [] h = absurd (omega arith)
block_reads (t ∷ ws) h = elim (Bool-cases (t == tag_ring_entry)) [
  | inl e ↦ (some (block_entry (t ∷ ws)), rw (slot_at-block t ws h, e))
  | inr e ↦ (none, rw (slot_at-block t ws h, e))
]

-- Every slot of a ring can be read.
pub slot-held :
    (bytes : Bytes) (i : ℕ) → IsRing bytes → i < ring_entries → slot bytes i ≡ ok (held bytes i)
unfolding held
slot-held bytes i r h =
    let (x, e) =
      block_reads (window (offset i) 73 bytes)
        (length-window (offset i) 73 bytes (omega (arith, offset_in_ring i h, r.long))) in
    let same : slot bytes i ≡ ok x = slot-window bytes i h r.long ∙ e in rw same

-- Whether a slot that holds `o` names the state root.
abbrev pub names : Option FinalizationEntry → Bytes → Bool
names none root = false
names (some e) root = bytes_eq e.finalized_state_root root

block_names :
    (bytes root : Bytes) (i : ℕ) (w : Bytes)
    → offset i + 73 ≤ length bytes
    → window (offset i) 73 bytes ≡ w
    → names_root bytes root i ≡ ok (names (reading (slot_at 0 w)) root)
block_names bytes root i [] h e =
    absurd (omega (arith, length-window (offset i) 73 bytes h, ap length e))
block_names bytes root i (t ∷ ws) h e =
    let sized : length (t ∷ ws) ≡ 73 = ap length (sym e) ∙ length-window (offset i) 73 bytes h in
    rw (names_root_at i bytes root t ws h e, slot_at-block t ws sized)
      (elim (Bool-cases (t == tag_ring_entry)) [ inl tag ↦ rw tag | inr other ↦ rw other ])

-- The comparison in place agrees with reading the whole slot.
pub names_root-names :
    (bytes root : Bytes) (i : ℕ)
    → IsRing bytes
    → i < ring_entries
    → names_root bytes root i ≡ ok (names (held bytes i) root)
names_root-names bytes root i r h =
    let inside : offset i + 73 ≤ length bytes = omega (arith, offset_in_ring i h, r.long) in
    block_names bytes root i (window (offset i) 73 bytes) inside refl
    ∙ unfold held in ap (λ x. ok (names (reading x) root)) (sym (slot-window bytes i h r.long))

-- Whatever passes the header check is a ring.
pub header-eq-ok : (bytes : Bytes) {u : Unit {0}} → header bytes ≡ ok u → IsRing bytes
unfolding header read_byte
header-eq-ok [] h = cc
header-eq-ok (t ∷ xs) h =
    let (u, long, rest) =
      >>=-eq-ok (refuse_if (ltb (length (t ∷ xs)) ring_len) account_data_too_small) _ h in
    let tagged = refuse_unless-eq-ok (t == tag_finalization_ring) wrong_account_tag rest in
    record {
      long = ground (arith, refuse_if-eq-ok _ _ long);
      tagged = ap some ((==_iff t tag_finalization_ring).0 tagged);
    }

pub bump-eq-ok : (bytes : Bytes) {b : ℕ} → bump bytes ≡ ok b → IsRing bytes
unfolding bump
bump-eq-ok bytes h =
    let (u, checked, rest) = >>=-eq-ok (header bytes) _ h in header-eq-ok bytes checked
