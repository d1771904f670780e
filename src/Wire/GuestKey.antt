-- ===== src/Wire/GuestKey.antt =====
-- `guest_program_vk`: the pinned key with each word of eight bytes reversed.
use zkasper_solana.Base.{
  ℕ, ◌*◌, ◌≡◌, refl, sym, ap, ◌∙◌, List, [], ◌∷◌, map, length, drop-all, length-map, length-reverse,
  arith,
}
use zkasper_solana.Base.Slices.{Bytes}
use zkasper_solana.Base.Memory.{chunks, chunks_exact}
use zkasper_solana.Base.Layout.{concat}
use zkasper_solana.Base.Chunks.{
  AllSized, chunks-AllSized, length-chunks, concat-chunks, chunks-concat, length-concat_sized,
}
use zkasper_solana.Wire.{guest_program_vk}
use mathlib.Core.List.{reverse, reverse-reverse}

guest_words :
    (vk : Bytes) → length vk ≡ 32 → guest_program_vk vk ≡ concat (map reverse (chunks 8 4 vk)) []
unfolding guest_program_vk chunks_exact
guest_words vk h = rw (h, drop-all 32 vk (omega arith))

reversed_AllSized : (n : ℕ) (cs : List Bytes) → AllSized n cs → AllSized n (map reverse cs)
reversed_AllSized n [] h = tt
reversed_AllSized n (c ∷ cs) h = (length-reverse c ∙ h.0, reversed_AllSized n cs h.1)

reversed_twice : (cs : List Bytes) → map reverse (map reverse cs) ≡ cs
reversed_twice [] = refl
reversed_twice (c ∷ cs) = rw (reverse-reverse c) (ap (λ t. c ∷ t) (reversed_twice cs))

module _ (vk : Bytes) (h : length vk ≡ 32) where
  words : AllSized 8 (map reverse (chunks 8 4 vk))
  words = reversed_AllSized 8 (chunks 8 4 vk) (chunks-AllSized 8 4 vk (omega arith))

  word_count : length (map reverse (chunks 8 4 vk)) ≡ 4
  word_count = length-map reverse (chunks 8 4 vk) ∙ length-chunks 8 4 vk

  pub length-guest_program_vk : length (guest_program_vk vk) ≡ 32
  length-guest_program_vk =
      rw (guest_words vk h) (length-concat_sized 8 _ words ∙ ap (λ n. n * 8) word_count)

  recut : chunks 8 4 (guest_program_vk vk) ≡ map reverse (chunks 8 4 vk)
  recut = rw (guest_words vk h) (
      ap (λ n. chunks 8 n (concat (map reverse (chunks 8 4 vk)) [])) (sym word_count)
      ∙ chunks-concat 8 (map reverse (chunks 8 4 vk)) [] words)

-- The two encodings of a key are word-wise reversals of one another: translating twice gives the
-- key back, so the guest's encoding determines the pinned key.
pub guest_program_vk-involutive :
    (vk : Bytes) → length vk ≡ 32 → guest_program_vk (guest_program_vk vk) ≡ vk
guest_program_vk-involutive vk h =
    guest_words (guest_program_vk vk) (length-guest_program_vk vk h)
    ∙ ap (λ cs. concat (map reverse cs) []) (recut vk h)
    ∙ ap (λ cs. concat cs []) (reversed_twice (chunks 8 4 vk))
    ∙ concat-chunks 8 4 vk (omega arith)
