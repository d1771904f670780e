-- ===== src/State/Ring/Scan.antt =====
-- `entry_by_state_root`: the pass over the ring.
use zkasper_solana.Base.{
  ℕ, zero, suc, ◌+◌, ◌≤◌, ◌<◌, ◌≡◌, refl, ◌⊎◌, inl, inr, true, false, Bool-cases, bytes_eq→eq,
  arith, Option, none, some,
}
use zkasper_solana.Base.Slices.{Bytes}
use zkasper_solana.Base.Result.{ok, err}
use zkasper_solana.Errors.{state_root_not_anchored}
use zkasper_solana.State.Ring.{FinalizationEntry, ring_entries, find_index, entry_by_state_root}
use zkasper_solana.State.Ring.Slots.{
  IsRing, header-IsRing, held, slot-held, names, names_root-names,
}
use native.Mathlib.Decide.{ℕ_discrete}

module _ (bytes root : Bytes) (r : IsRing bytes) where
  -- No slot from `i` up to `n` names the root.
  abbrev pub NoneFrom : ℕ → ℕ → Type 0
  NoneFrom i n = (j : ℕ) → i ≤ j → j < n → names (held bytes j) root ≡ false

  -- What the search over the slots from `i` up to `n` came to.
  abbrev pub Found : ℕ → ℕ → Option ℕ → Type 0
  Found i n none = NoneFrom i n
  Found i n (some k) = (i ≤ k) × (k < n) × (names (held bytes k) root ≡ true) × NoneFrom i k

  skip :
      (i n : ℕ) (o : Option ℕ) → names (held bytes i) root ≡ false → Found (i + 1) n o → Found i n o
  skip i n none here f =
      λ j le lt. elim (ℕ_discrete i j) [ yes e ↦ rw e at here | no ne ↦ f j (omega arith) lt ]
  skip i n (some k) here f = (
    omega (arith, f.0),
    f.1,
    f.2,
    λ j le lt. elim (ℕ_discrete i j) [ yes e ↦ rw e at here | no ne ↦ f.3 j (omega arith) lt ],
  )

  find_index-Found :
      (count i : ℕ)
      → i + count ≤ ring_entries
      → (o : Option ℕ) × (find_index bytes root count i ≡ ok o) × Found i (i + count) o
  unfolding find_index
  find_index-Found zero i h = (none, refl, λ j le lt. absurd (omega arith))
  find_index-Found (suc count) i h =
      let (o, found, spec) = find_index-Found count (i + 1) (omega arith) in
      let reached : i + 1 + count ≡ i + suc count = omega arith in
      elim (Bool-cases (names (held bytes i) root)) [
        | inl here ↦ (
          some i,
          rw (names_root-names bytes root i r (omega arith), here),
          (omega arith, omega arith, here, λ j le lt. absurd (omega arith)),
        )
        | inr other ↦ (
          o,
          rw (names_root-names bytes root i r (omega arith), other) found,
          skip i (i + suc count) o other (rw reached at spec),
        )
      ]

names-true :
    (o : Option FinalizationEntry) (root : Bytes)
    → names o root ≡ true
    → (e : FinalizationEntry) × (o ≡ some e) × (e.finalized_state_root ≡ root)
names-true none root h = cc
names-true (some e) root h = (e, refl, bytes_eq→eq e.finalized_state_root root h)

-- The pass over the ring ends in one of two ways: no slot names the state root and the answer is
-- `StateRootNotAnchored`, or the answer is the entry of the first slot that names it.
pub entry_by_state_root_cases :
    (bytes root : Bytes) (r : IsRing bytes)
    → ((entry_by_state_root bytes root ≡ err state_root_not_anchored)
        × NoneFrom bytes root r 0 ring_entries)
      ⊎ ((k : ℕ) × (e : FinalizationEntry) × (entry_by_state_root bytes root ≡ ok e)
          × (k < ring_entries)
          × (held bytes k ≡ some e)
          × (e.finalized_state_root ≡ root)
          × NoneFrom bytes root r 0 k)
unfolding entry_by_state_root
entry_by_state_root_cases bytes root r = cases (find_index-Found bytes root r 128 0 (omega arith))
  where
    cases :
        (o : Option ℕ) × (find_index bytes root 128 0 ≡ ok o) × Found bytes root r 0 (0 + 128) o
        → ((entry_by_state_root bytes root ≡ err state_root_not_anchored)
            × NoneFrom bytes root r 0 ring_entries)
          ⊎ ((k : ℕ) × (e : FinalizationEntry) × (entry_by_state_root bytes root ≡ ok e)
              × (k < ring_entries)
              × (held bytes k ≡ some e)
              × (e.finalized_state_root ≡ root)
              × NoneFrom bytes root r 0 k)
    cases (none, found, spec) = inl (rw (header-IsRing bytes r, found), spec)
    cases (some k, found, spec) =
        let (e, holds, named) = names-true (held bytes k) root spec.2 in
        inr (
          k,
          e,
          rw (header-IsRing bytes r, found, slot-held bytes k r spec.1, holds),
          spec.1,
          holds,
          named,
          spec.3,
        )
