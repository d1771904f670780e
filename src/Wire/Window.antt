-- ===== src/Wire/Window.antt =====
-- `public_values`: what the public window holds, and what it determines.
use zkasper_solana.Base.{
  ℕ, zero, suc, ◌-◌, ◌≤◌, ◌≡◌, refl, sym, ap, ap₂, ◌∙◌, List, [], ◌∷◌, ◌++◌, map, length, take,
  drop, replicate, length-append, length-map, drop-all, arith, append-nil,
}
use zkasper_solana.Base.Slices.{Bytes, written, take-append_at}
use zkasper_solana.Base.Result.{ok}
use zkasper_solana.Base.Memory.{length-zeros, write, zeros, write-written, chunks, chunks_exact}
use zkasper_solana.Base.Layout.{concat-append, concat, sizes}
use zkasper_solana.Base.Words.{IsArray}
use zkasper_solana.Base.Chunks.{
  AllSized, chunks-AllSized, length-concat_sized, length-chunks, concat-chunks, chunks-concat,
}
use zkasper_solana.Plonk.Vk.{public_values_len}
use zkasper_solana.Wire.{FinalizationOutput, IsOutput, spread, guest_program_vk, public_values}
use zkasper_solana.Wire.PublicBytes.{
  encode_output, public_bytes-encode_output, length-encode_output,
}
use zkasper_solana.Wire.GuestKey.{length-guest_program_vk}

-- The guest's committed output, the pinned key in its encoding at the end.
abbrev pub committed : FinalizationOutput → Bytes → Bytes
committed o vk = encode_output o ++ guest_program_vk vk

-- A slot: four bytes of output at the width of a u64.
abbrev pub pad : Bytes → Bytes
pad four = four ++ zeros 4

drop-zeros : (four : Bytes) → length four ≡ 4 → drop (length four) (zeros 8) ≡ zeros 4
unfolding zeros
drop-zeros four h = rw h

module _ {E : Type 0} where
  fill_slot : (four : Bytes) → length four ≡ 4 → write {E = E} 0 4 four (zeros 8) ≡ ok (pad four)
  fill_slot four h =
      write-written [] four (zeros 8) 0 4 refl (omega arith) (omega sizes)
      ∙ ap (λ t. ok (four ++ t)) (drop-zeros four h)

  spread-pad :
      (n : ℕ) (fours : List Bytes)
      → AllSized 4 fours
      → length fours ≤ n
      → spread {E = E} (replicate n (zeros 8)) fours
        ≡ ok (map pad fours ++ replicate (n - length fours) (zeros 8))
  unfolding spread
  spread-pad zero [] h le =
      let e : zero ≡ zero - 0 = omega arith in ap (λ k. ok (replicate k (zeros 8))) e
  spread-pad zero (f ∷ fs) h le = absurd (omega arith)
  spread-pad (suc n) [] h le =
      let e : suc n ≡ suc n - 0 = omega arith in ap (λ k. ok (replicate k (zeros 8))) e
  spread-pad (suc n) (f ∷ fs) h le =
      rw (fill_slot f h.0, spread-pad n fs h.1 (omega arith))
        (let e : n - length fs ≡ suc n - suc (length fs) = omega arith in
          ap (λ k. ok (pad f ∷ (map pad fs ++ replicate k (zeros 8)))) e)

concat-append_list : (xs ys : List Bytes) → concat (xs ++ ys) [] ≡ concat xs (concat ys [])
concat-append_list [] ys = refl
concat-append_list (x ∷ xs) ys = ap (λ t. x ++ t) (concat-append_list xs ys)

blank_slots : chunks_exact 8 (zeros public_values_len) ≡ replicate 64 (zeros 8)
unfolding zeros chunks chunks_exact
blank_slots = refl

blank_tail : concat (replicate 12 (zeros 8)) [] ≡ zeros 96
unfolding zeros
blank_tail = refl

-- The committed output spread over the slots, and zeros to the end of the window.
abbrev pub window_of : FinalizationOutput → Bytes → Bytes
window_of o vk = concat (map pad (chunks 4 52 (committed o vk))) (zeros 96)

module _ (o : FinalizationOutput) (vk : Bytes) (v : IsOutput o) (k : IsArray 32 vk) where
  pub length-committed : length (committed o vk) ≡ 208
  length-committed = omega (
    arith,
    length-append (encode_output o) (guest_program_vk vk),
    length-encode_output o v,
    length-guest_program_vk vk k.sized,
  )

  fours_exact : chunks_exact 4 (committed o vk) ≡ chunks 4 52 (committed o vk)
  unfolding chunks_exact
  fours_exact = rw length-committed

  fours_AllSized : AllSized 4 (chunks 4 52 (committed o vk))
  fours_AllSized = chunks-AllSized 4 52 (committed o vk) (omega (arith, length-committed))

module _ {E : Type 0} (o : FinalizationOutput) (vk : Bytes) (v : IsOutput o)
    (k : IsArray 32 vk) where
  output_written :
      write {E = E} 0 176 (encode_output o) (zeros 208) ≡ ok (written (encode_output o) (zeros 208))
  output_written =
      write-written [] (encode_output o) (zeros 208) 0 176 refl
        (omega (arith, length-encode_output o v)) (omega sizes)

  key_written :
      write {E = E} 176 208 (guest_program_vk vk) (written (encode_output o) (zeros 208))
      ≡ ok (committed o vk)
  key_written =
      write-written (encode_output o) (guest_program_vk vk) (zeros 208) 176 208
        (omega (arith, length-encode_output o v))
        (omega (arith, length-guest_program_vk vk k.sized)) (omega sizes)
      ∙ rw
          (drop-all (length (committed o vk)) (zeros 208)
            (omega (sizes, length-committed o vk v k)))
          (ap ok (append-nil (committed o vk)))

  -- The window holds the committed output, four bytes to a slot of eight with the upper half zero,
  -- and zeros to its end; and building it never panics.
  pub public_values-window_of : public_values {E = E} o vk ≡ ok (window_of o vk)
  unfolding public_values
  public_values-window_of =
      let fours : List Bytes = chunks 4 52 (committed o vk) in
      let count : length fours ≡ 52 = length-chunks 4 52 (committed o vk) in
      rw (
        public_bytes-encode_output {E = E} o v,
        output_written,
        key_written,
        blank_slots,
        fours_exact o vk v k,
        spread-pad 64 fours (fours_AllSized o vk v k) (omega arith),
        count,
        concat-append_list (map pad fours) (replicate 12 (zeros 8)),
        blank_tail,
      )

pad-AllSized : (fours : List Bytes) → AllSized 4 fours → AllSized 8 (map pad fours)
pad-AllSized [] h = tt
pad-AllSized (f ∷ fs) h = (omega (sizes, length-append f (zeros 4), h.0), pad-AllSized fs h.1)

unpad : (fours : List Bytes) → AllSized 4 fours → map (take 4) (map pad fours) ≡ fours
unpad [] h = refl
unpad (f ∷ fs) h = ap₂ ◌∷◌ (take-append_at f (zeros 4) 4 (omega (arith, h.0))) (unpad fs h.1)

module _ (o : FinalizationOutput) (vk : Bytes) (v : IsOutput o) (k : IsArray 32 vk) where
  -- The slots of the window, cut to their lower halves.
  pub fours-window_of : map (take 4) (chunks 8 52 (window_of o vk)) ≡ chunks 4 52 (committed o vk)
  fours-window_of =
      let fours : List Bytes = chunks 4 52 (committed o vk) in
      let count : length (map pad fours) ≡ 52 =
        length-map pad fours ∙ length-chunks 4 52 (committed o vk) in
      let sized : AllSized 4 fours = fours_AllSized o vk v k in
      ap (λ n. map (take 4) (chunks 8 n (window_of o vk))) (sym count)
      ∙ ap (map (take 4)) (chunks-concat 8 (map pad fours) (zeros 96) (pad-AllSized fours sized))
      ∙ unpad fours sized

  pub committed-window_of : concat (map (take 4) (chunks 8 52 (window_of o vk))) [] ≡ committed o vk
  committed-window_of =
      ap (λ cs. concat cs []) fours-window_of
      ∙ concat-chunks 4 52 (committed o vk) (length-committed o vk v k)

  pub length-window_of : length (window_of o vk) ≡ 512
  length-window_of =
      let slots = map pad (chunks 4 52 (committed o vk)) in
      let count : length slots ≡ 52 =
        length-map pad (chunks 4 52 (committed o vk)) ∙ length-chunks 4 52 (committed o vk) in
      let sized =
        length-concat_sized 8 slots
          (pad-AllSized (chunks 4 52 (committed o vk)) (fours_AllSized o vk v k)) in
      sym (ap length (concat-append slots (zeros 96)))
      ∙ omega (arith, length-append (concat slots []) (zeros 96), sized, count, length-zeros 96)
