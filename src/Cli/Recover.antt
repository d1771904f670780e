-- ===== src/Cli/Recover.antt =====
-- The output in the window that was built of it.
use zkasper_solana.Base.{
  ℕ, zero, suc, ◌≡◌, refl, sym, ap, ◌∙◌, ◌/◌, ◌≤◌, List, [], ◌∷◌, map, length, take, drop, drop-all,
  append-nil, arith, length-take,
}
use zkasper_solana.Base.Slices.{Bytes, take-append_at}
use zkasper_solana.Base.Result.{ok, ◌>>=◌}
use zkasper_solana.Base.Memory.{
  read_in_range, write-written, zeros, length-zeros, chunks, chunks_exact,
}
use zkasper_solana.Base.Words.{IsArray}
use zkasper_solana.Base.Layout.{concat}
use zkasper_solana.Base.Chunks.{AllSized, chunks-AllSized, length-chunks, concat-take-chunks}
use zkasper_solana.Cli.{gather, wrap_output}
use zkasper_solana.Wire.{FinalizationOutput, IsOutput, public_values, guest_program_vk}
use zkasper_solana.Wire.PublicBytes.{
  encode_output, length-encode_output, from_public_bytes-encode_output,
}
use zkasper_solana.Wire.Window.{
  committed, length-committed, window_of, length-window_of, public_values-window_of,
  fours-window_of,
}

-- As many halves as there are fours.
gathered :
    (fours slots : List Bytes)
    → AllSized 4 fours
    → AllSized 8 slots
    → length fours ≤ length slots
    → gather fours slots ≡ ok (map (take 4) (take (length fours) slots))
unfolding gather
gathered [] slots hf hs le = refl
gathered (four ∷ fours) [] hf hs le = absurd (omega arith)
gathered (four ∷ fours) (slot ∷ slots) hf hs le = rw (
  read_in_range {E = Unit {0}} 0 4 slot (omega arith) (omega (arith, hs.0)),
  write-written {E = Unit {0}} [] (take 4 slot) four 0 4 refl
      (omega (arith, hs.0, length-take 4 slot)) (omega (arith, hf.0)),
  drop-all (length (take 4 slot)) four (omega (arith, hf.0, hs.0, length-take 4 slot)),
  append-nil (take 4 slot),
  gathered fours slots hf.1 hs.1 (omega arith),
)

take-chunks : (n k m : ℕ) (xs : Bytes) → k ≤ m → take k (chunks n m xs) ≡ chunks n k xs
unfolding chunks
take-chunks n zero m xs h = refl
take-chunks n (suc k) zero xs h = absurd (omega arith)
take-chunks n (suc k) (suc m) xs h =
    ap (λ t. take n xs ∷ t) (take-chunks n k m (drop n xs) (omega arith))

take-map : (k : ℕ) (f : Bytes → Bytes) (xs : List Bytes) → take k (map f xs) ≡ map f (take k xs)
take-map zero f xs = refl
take-map (suc k) f [] = refl
take-map (suc k) f (x ∷ xs) = ap (λ t. f x ∷ t) (take-map k f xs)

module _ (o : FinalizationOutput) (vk : Bytes) (v : IsOutput o) (k : IsArray 32 vk) where
  abbrev window : Bytes
  window = window_of o vk

  -- The halves of the first 44 slots are the output's bytes.
  halves : concat (map (take 4) (take 44 (chunks 8 64 window))) [] ≡ encode_output o
  halves =
      ap (λ cs. concat (map (take 4) cs) [])
        (take-chunks 8 44 64 window (omega arith) ∙ sym (take-chunks 8 44 52 window (omega arith)))
      ∙ ap (λ cs. concat cs [])
          (sym (take-map 44 (take 4) (chunks 8 52 window))
            ∙ ap (take 44) (fours-window_of o vk v k))
      ∙ concat-take-chunks 4 44 52 (committed o vk) (omega arith)
          (omega (arith, length-committed o vk v k))
      ∙ take-append_at (encode_output o) (guest_program_vk vk) 176
          (omega (arith, length-encode_output o v))

  gathers :
      gather (chunks_exact 4 (zeros 176)) (chunks_exact 8 window)
      ≡ ok (map (take 4) (take 44 (chunks 8 64 window)))
  unfolding chunks_exact
  gathers =
      let fours : length (zeros 176) / 4 ≡ 44 = omega (arith, length-zeros 176) in
      let slots : length window / 8 ≡ 64 = omega (arith, length-window_of o vk v k) in
      rw (fours, slots)
        (gathered (chunks 4 44 (zeros 176)) (chunks 8 64 window)
            (chunks-AllSized 4 44 (zeros 176) (omega (arith, length-zeros 176)))
            (chunks-AllSized 8 64 window (omega (arith, length-window_of o vk v k)))
            (omega (arith, length-chunks 4 44 (zeros 176), length-chunks 8 64 window))
          ∙ ap (λ n. ok (map (take 4) (take n (chunks 8 64 window))))
              (length-chunks 4 44 (zeros 176)))

  recovers : wrap_output window ≡ ok o
  unfolding wrap_output
  recovers = rw (
    length-window_of o vk v k,
    gathers,
    halves,
    from_public_bytes-encode_output {E = Unit {0}} o v,
  )

-- The client recovers the output from the public window that the program rebuilds for it, so what it
-- submits with a proof is the output that the proof was made for.
pub wrap_output-public_values :
    (o : FinalizationOutput) (vk : Bytes)
    → IsOutput o
    → IsArray 32 vk
    → (public_values o vk >>= wrap_output) ≡ ok o
wrap_output-public_values o vk v k =
    rw (public_values-window_of {E = Unit {0}} o vk v k) (recovers o vk v k)
