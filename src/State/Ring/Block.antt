-- ===== src/State/Ring/Block.antt =====
-- One slot of 73 bytes: what is written to it, and what is read from it.
use zkasper_solana.Base.{
  ℕ, ◌+◌, ◌≤◌, ◌≡◌, refl, sym, ap, ◌∙◌, false, List, [], ◌∷◌, ◌++◌, ◌==◌, if◌then◌else◌, bytes_eq,
  Bool-cases, inl, inr, length, take, drop, length-append, length-take, arith, append_assoc,
  append-nil, none, some,
}
use zkasper_solana.Base.Slices.{Bytes, written, window, written-take, length-window}
use zkasper_solana.Base.Result.{ok}
use zkasper_solana.Base.Memory.{
  read_byte, write-written, write_byte-written, read-window, read_byte-window, read_in_range,
}
use zkasper_solana.Base.Words.{u64_bytes, u64_round_trip, from_le_bytes}
use zkasper_solana.Base.Layout.{concat, length-concat, read_field, read_byte_field, sizes}
use zkasper_solana.Errors.{ZkasperError}
use zkasper_solana.State.Ring.{
  FinalizationEntry, IsEntry, slot_at, write_at, tag_ring_entry, ring_entry_len, offset, names_root,
}

abbrev pub entry_fields : FinalizationEntry → List Bytes
entry_fields e =
    (tag_ring_entry ∷ [])
    ∷ u64_bytes e.finalized_epoch
    ∷ e.finalized_root
    ∷ e.finalized_state_root
    ∷ []

-- The 73 bytes of a written slot.
abbrev pub encode_entry : FinalizationEntry → Bytes
encode_entry e = concat (entry_fields e) []

pub length-encode_entry : (e : FinalizationEntry) → IsEntry e → length (encode_entry e) ≡ 73
length-encode_entry e v = omega (sizes, length-concat (entry_fields e) [])

-- The account with the 73 bytes at `at` replaced.
abbrev pub splice : ℕ → Bytes → Bytes → Bytes
splice at src bytes = written (take at bytes ++ src) bytes

-- A slot is read from its own 73 bytes alone.
pub slot_at-window :
    (at : ℕ) (bytes : Bytes)
    → at + ring_entry_len ≤ length bytes
    → slot_at at bytes ≡ slot_at 0 (window at ring_entry_len bytes)
unfolding slot_at
slot_at-window at bytes h =
    let e9 : at + 1 + 8 ≡ at + 9 = omega arith in
    let e41 : at + 9 + 32 ≡ at + 41 = omega arith in
    let e73 : at + 41 + 32 ≡ at + 73 = omega arith in
    rw (
      read_byte-window at 73 0 bytes (omega arith),
      e9,
      e41,
      e73,
      read-window at 73 1 9 bytes h (omega arith) (omega arith),
      read-window at 73 9 41 bytes h (omega arith) (omega arith),
      read-window at 73 41 73 bytes h (omega arith) (omega arith),
    )

pub slot_at-encode_entry :
    (e : FinalizationEntry) → IsEntry e → slot_at 0 (encode_entry e) ≡ ok (some e)
unfolding slot_at
slot_at-encode_entry e v = rw (
  read_byte_field (entry_fields e) [] 0 3 0 refl refl,
  read_field (entry_fields e) [] 1 (u64_bytes e.finalized_epoch) 1 9 refl refl (omega sizes),
  read_field (entry_fields e) [] 2 e.finalized_root 9 41 refl (omega sizes) (omega sizes),
  read_field (entry_fields e) [] 3 e.finalized_state_root 41 73 refl (omega sizes) (omega sizes),
  u64_round_trip e.finalized_epoch v.finalized_epoch,
)

write_at-written :
    (at : ℕ) (e : FinalizationEntry) (pre bytes : Bytes)
    → IsEntry e
    → length pre ≡ at
    → at + 73 ≤ length bytes
    → write_at at e (written pre bytes) ≡ ok (written (pre ++ encode_entry e) bytes)
unfolding write_at
write_at-written at e pre bytes v p h =
    let epoch = u64_bytes e.finalized_epoch in
    let root = e.finalized_root in
    let state_root = e.finalized_state_root in
    let tagged : Bytes = pre ++ 3 ∷ [] in
    let l1 : length tagged ≡ at + 1 = omega (arith, length-append pre (3 ∷ [])) in
    let l2 : length (tagged ++ epoch) ≡ at + 9 = omega (sizes, length-append tagged epoch) in
    let l3 : length (tagged ++ epoch ++ root) ≡ at + 41 =
      omega (arith, length-append (tagged ++ epoch) root) in
    rw
      (
        write_byte-written pre bytes (at + 0) 3 (omega arith) (omega arith),
        write-written tagged epoch bytes (at + 1) (at + 1 + 8) (omega arith) (omega sizes)
            (omega arith),
        write-written (tagged ++ epoch) root bytes (at + 9) (at + 9 + 32) (omega arith)
            (omega arith) (omega arith),
        write-written (tagged ++ epoch ++ root) state_root bytes (at + 41) (at + 41 + 32)
            (omega arith) (omega arith) (omega arith),
      )
      (ap (λ t. ok (written t bytes)) (simp (append_assoc, append-nil)))

-- Writing an entry replaces the 73 bytes of its slot and nothing else.
pub write_at-splice :
    (at : ℕ) (e : FinalizationEntry) (bytes : Bytes)
    → IsEntry e
    → at + ring_entry_len ≤ length bytes
    → write_at at e bytes ≡ ok (splice at (encode_entry e) bytes)
write_at-splice at e bytes v h =
    ap (write_at at e) (sym (written-take at bytes (omega arith)))
    ∙ write_at-written at e (take at bytes) bytes v (omega (arith, length-take at bytes)) h

-- The entry that a slot's bytes spell, whatever its tag.
abbrev pub block_entry : Bytes → FinalizationEntry
block_entry w = record {
  finalized_epoch = from_le_bytes (take 8 (drop 1 w));
  finalized_root = take 32 (drop 9 w);
  finalized_state_root = take 32 (drop 41 w);
}

-- A slot of 73 bytes is read without a panic.
pub slot_at-block :
    (t : ℕ) (ws : Bytes)
    → length (t ∷ ws) ≡ 73
    → slot_at 0 (t ∷ ws)
      ≡ (if t == tag_ring_entry then ok (some (block_entry (t ∷ ws))) else ok none)
unfolding slot_at read_byte
slot_at-block t ws h =
    let w : Bytes = t ∷ ws in
    rw
      (
        read_in_range 1 9 w (omega arith) (omega arith),
        read_in_range 9 41 w (omega arith) (omega arith),
        read_in_range 41 73 w (omega arith) (omega arith),
      )
      (ground arith)

read_byte_first : (t : ℕ) (ws : Bytes) → read_byte {E = ZkasperError} 0 (t ∷ ws) ≡ ok t
unfolding read_byte
read_byte_first t ws = refl

pub names_root_at :
    (index : ℕ) (bytes root : Bytes) (t : ℕ) (ws : Bytes)
    → offset index + ring_entry_len ≤ length bytes
    → window (offset index) ring_entry_len bytes ≡ t ∷ ws
    → names_root bytes root index
      ≡ (if t == tag_ring_entry then ok (bytes_eq (take 32 (drop 41 (t ∷ ws))) root) else ok false)
unfolding names_root
names_root_at index bytes root t ws h e =
    let at = offset index in
    let e73 : at + 41 + 32 ≡ at + 73 = omega arith in
    let long : length (t ∷ ws) ≡ 73 = ap length (sym e) ∙ length-window at 73 bytes h in
    rw
      (
        read_byte-window at 73 0 bytes (omega arith),
        e73,
        read-window at 73 41 73 bytes h (omega arith) (omega arith),
        e,
        read_in_range 41 73 (t ∷ ws) (omega arith) (omega arith),
        read_byte_first t ws,
      )
      (elim (Bool-cases (t == tag_ring_entry)) [
        | inl yes_tag ↦ rw yes_tag
        | inr no_tag ↦ rw no_tag
      ])
