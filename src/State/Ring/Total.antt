-- ===== src/State/Ring/Total.antt =====
-- Panics of the ring's operations.
use zkasper_solana.Base.{ℕ, ◌≤◌, ◌<◌, ltb, ◌==◌, not, length, arith, inl, inr}
use zkasper_solana.Base.Slices.{Bytes}
use zkasper_solana.Base.Yields.{
  Yields, yields, refuses, Returns, Sized, Yields-bind, Yields-known, Yields-ok_or, Yields-Returns,
  Yields-ne-panic, refuse_if-Yields, read_byte-Returns, write_byte-Yields,
}
use zkasper_solana.Errors.{account_data_too_small, wrong_account_tag, epoch_not_in_ring}
use zkasper_solana.State.Ring.{
  FinalizationEntry, IsEntry, ring_len, tag_finalization_ring, init, header, bump, entry,
  write_entry, filter, entry_by_state_root, index_of,
}
use zkasper_solana.State.Ring.Lookup.{entry-held}
use zkasper_solana.State.Ring.Scan.{entry_by_state_root_cases}
use zkasper_solana.State.Ring.Slots.{IsRing, header-eq-ok, held}
use zkasper_solana.State.Ring.Write.{write_entry-after, length-after}

header-Returns : (bytes : Bytes) → Returns (header bytes)
unfolding header
header-Returns bytes =
    Yields-bind (refuse_if-Yields (ltb (length bytes) ring_len) account_data_too_small) λ done long.
      let some_byte : 0 < length bytes = ground (arith, long) in
      Yields-bind (read_byte-Returns 0 bytes some_byte) λ tag d.
        Yields-Returns (refuse_if-Yields (not (tag == tag_finalization_ring)) wrong_account_tag)

header-Yields : (bytes : Bytes) → Yields (λ done. IsRing bytes) (header bytes)
header-Yields bytes =
    Yields-known (header bytes) (Yields-ne-panic (header-Returns bytes))
      λ done e. header-eq-ok bytes e

pub bump-Returns : (bytes : Bytes) → Returns (bump bytes)
unfolding bump
bump-Returns bytes =
    Yields-bind (header-Yields bytes) λ done r. read_byte-Returns 1 bytes (omega (arith, r.long))

pub init-Yields : (n : ℕ) (bytes : Bytes) (b : ℕ) → Sized n bytes → Yields (Sized n) (init bytes b)
unfolding init
init-Yields n bytes b h =
    Yields-bind (refuse_if-Yields (ltb (length bytes) ring_len) account_data_too_small) λ done long.
      let room : 2 ≤ n = ground (arith, long, h) in
      Yields-bind (write_byte-Yields n 0 tag_finalization_ring bytes h (omega arith))
        λ t h. write_byte-Yields n 1 b t h (omega arith)

pub entry-Returns : (bytes : Bytes) (epoch : ℕ) → IsRing bytes → Returns (entry bytes epoch)
entry-Returns bytes epoch r = rw (entry-held bytes epoch r) (
    Yields-ok_or epoch_not_in_ring
      (filter (λ e. e.finalized_epoch == epoch) (held bytes (index_of epoch))) λ e found. tt)

pub write_entry-Yields :
    (n : ℕ) (bytes : Bytes) (e : FinalizationEntry)
    → Sized n bytes
    → IsRing bytes
    → IsEntry e
    → Yields (Sized n) (write_entry bytes e)
write_entry-Yields n bytes e h r v =
    rw (write_entry-after bytes e r v) (yields (omega (arith, length-after bytes e r v, h)))

pub entry_by_state_root-Returns :
    (bytes root : Bytes) → IsRing bytes → Returns (entry_by_state_root bytes root)
entry_by_state_root-Returns bytes root r = elim (entry_by_state_root_cases bytes root r) [
  | inl missing ↦ rw (missing.0) refuses
  | inr (k, e, answered, below, holds, named, first) ↦ rw answered (yields tt)
]
