-- ===== src/Plonk/Fields.antt =====
-- `fr_bytes` and `fr_canonical`: the words of 32 bytes in which field elements are hashed and sent.
use zkasper_solana.Base.{
  ℕ, zero, suc, ◌≡◌, refl, sym, ap, ◌∙◌, ◌+◌, ◌*◌, ◌-◌, ◌≤◌, List, [], ◌∷◌, ◌++◌, some, map, length,
  drop, drop-drop, drop-all, length-append, length-map, length-reverse, append_assoc, append-nil,
  All, arith, subst, length-drop, All-take, All-drop, All-reverse, length-take,
}
use zkasper_solana.Base.Slices.{Bytes, written}
use zkasper_solana.Base.Result.{ok, ◌>>=◌, ok-injective}
use zkasper_solana.Base.Memory.{read_in_range, write-written, zeros, length-zeros, chunks}
use zkasper_solana.Base.Chunks.{AllSized, concat-chunks, chunks-concat, length-concat_sized}
use zkasper_solana.Base.Layout.{concat}
use zkasper_solana.Base.Words.{
  IsByte, IsArray, IsU64, to_be_bytes, from_be_bytes, length-to_be_bytes, from_be_bytes-to_be_bytes,
  to_be_bytes-from_be_bytes,
}
use zkasper_solana.Plonk.Backend.{ScalarField}
use zkasper_solana.Plonk.Group.{be_words, be_limbs, put_words, fr_canonical, fr_bytes}
use mathlib.Core.List.{reverse, reverse-reverse}

-- `into_bigint` gives four words of 64 bits, and `from_bigint` takes them back, and nothing else.
pub record IsCanonical (f : ScalarField) : Type 0 where
  pub limbs : (x : f.Fr) → length (f.into_bigint x) ≡ 4
  pub words : (x : f.Fr) → All IsU64 (f.into_bigint x)
  pub accepts : (x : f.Fr) → f.from_bigint (f.into_bigint x) ≡ some x
  pub unique : (limbs : List ℕ) (x : f.Fr) → f.from_bigint limbs ≡ some x → f.into_bigint x ≡ limbs

module _ {E : Type 0} where
  be_words-chunks :
      (count i : ℕ) (bytes : Bytes)
      → (i + count) * 8 ≤ length bytes
      → be_words {E = E} count i bytes
        ≡ ok (map from_be_bytes (chunks 8 count (drop (i * 8) bytes)))
  unfolding be_words chunks
  be_words-chunks zero i bytes h = refl
  be_words-chunks (suc count) i bytes h =
      let eight : i * 8 + 8 - i * 8 ≡ 8 = omega arith in
      let next : (i + 1) * 8 ≡ i * 8 + 8 = omega arith in
      rw (
        read_in_range {E = E} (i * 8) (i * 8 + 8) bytes (omega arith) (omega arith),
        eight,
        be_words-chunks count (i + 1) bytes (omega arith),
        next,
        drop-drop 8 (i * 8) bytes,
      )

  pub be_limbs-chunks :
      (bytes : Bytes)
      → length bytes ≡ 32
      → be_limbs {E = E} bytes ≡ ok (reverse (map from_be_bytes (chunks 8 4 bytes)))
  unfolding be_limbs
  be_limbs-chunks bytes s = rw (be_words-chunks 4 0 bytes (omega (arith, s)))

  put_words-written :
      (limbs : List ℕ) (i : ℕ) (pre xs : Bytes)
      → i * 8 ≡ length pre
      → length pre + length limbs * 8 ≤ length xs
      → put_words {E = E} limbs i (written pre xs)
        ≡ ok (written (pre ++ concat (map (to_be_bytes 8) limbs) []) xs)
  unfolding put_words
  put_words-written [] i pre xs p h = ap (λ t. ok (written t xs)) (sym (append-nil pre))
  put_words-written (limb ∷ limbs) i pre xs p h =
      let word = to_be_bytes 8 limb in
      let wide = length-to_be_bytes 8 limb in
      let longer = length-append pre word in
      rw
        (
          write-written {E = E} pre word xs (i * 8) (i * 8 + 8) p (omega (arith, wide))
              (omega (arith, p)),
          put_words-written limbs (i + 1) (pre ++ word) xs (omega (arith, p, wide, longer))
              (omega (arith, wide, longer)),
        )
        (ap (λ t. ok (written t xs))
          (append_assoc pre word (concat (map (to_be_bytes 8) limbs) [])))

words_AllSized : (limbs : List ℕ) → AllSized 8 (map (to_be_bytes 8) limbs)
words_AllSized [] = tt
words_AllSized (limb ∷ limbs) = (length-to_be_bytes 8 limb, words_AllSized limbs)

read_back :
    (limbs : List ℕ) → All IsU64 limbs → map from_be_bytes (map (to_be_bytes 8) limbs) ≡ limbs
read_back [] h = refl
read_back (limb ∷ limbs) h =
    rw (from_be_bytes-to_be_bytes 8 limb (omega (arith, h.0)))
      (ap (λ t. limb ∷ t) (read_back limbs h.1))

write_back :
    (words : List Bytes)
    → All (λ w. IsArray 8 w) words
    → map (to_be_bytes 8) (map from_be_bytes words) ≡ words
write_back [] h = refl
write_back (word ∷ words) h =
    rw (to_be_bytes-from_be_bytes 8 word h.0) (ap (λ t. word ∷ t) (write_back words h.1))

chunks-IsArray :
    (count : ℕ) (bytes : Bytes)
    → count * 8 ≤ length bytes
    → All IsByte bytes
    → All (λ w. IsArray 8 w) (chunks 8 count bytes)
unfolding chunks
chunks-IsArray zero bytes h b = tt
chunks-IsArray (suc count) bytes h b = (
  record { sized = omega (arith, length-take 8 bytes); bytes = All-take IsByte 8 bytes b },
  chunks-IsArray count (drop 8 bytes) (omega (arith, length-drop 8 bytes))
      (All-drop IsByte 8 bytes b),
)

module _ (f : ScalarField) (canonical : IsCanonical f) where
  -- The word of an element: its limbs from the highest, each in eight bytes.
  abbrev pub word_of : f.Fr → Bytes
  word_of x = concat (map (to_be_bytes 8) (reverse (f.into_bigint x))) []

  length-word_of : (x : f.Fr) → length (word_of x) ≡ 32
  length-word_of x =
      let limbs = reverse (f.into_bigint x) in
      omega (
        arith,
        length-concat_sized 8 (map (to_be_bytes 8) limbs) (words_AllSized limbs),
        length-map (to_be_bytes 8) limbs,
        length-reverse (f.into_bigint x),
        canonical.limbs x,
      )

module _ {E : Type 0} (f : ScalarField) (canonical : IsCanonical f) where
  pub fr_bytes-word_of : (x : f.Fr) → fr_bytes {E = E} f x ≡ ok (word_of f canonical x)
  unfolding fr_bytes
  fr_bytes-word_of x =
      let limbs = reverse (f.into_bigint x) in
      let four : length limbs ≡ 4 = length-reverse (f.into_bigint x) ∙ canonical.limbs x in
      let all = length-word_of f canonical x in
      rw
        (
          put_words-written {E = E} limbs 0 [] (zeros 32) refl
              (omega (arith, four, length-zeros 32)),
          drop-all (length (word_of f canonical x)) (zeros 32)
              (omega (arith, all, length-zeros 32)),
        )
        (ap ok (append-nil (word_of f canonical x)))

  -- An element that is written as a word is read back, without error or panic, in a field whose
  -- elements are exactly their four words of 64 bits.
  pub fr_canonical-fr_bytes : (x : f.Fr) → (fr_bytes {E = E} f x >>= fr_canonical f) ≡ ok (some x)
  unfolding fr_canonical
  fr_canonical-fr_bytes x =
      let limbs = reverse (f.into_bigint x) in
      let count : length (map (to_be_bytes 8) limbs) ≡ 4 =
        length-map (to_be_bytes 8) limbs ∙ length-reverse (f.into_bigint x) ∙ canonical.limbs x in
      let cut : chunks 8 4 (word_of f canonical x) ≡ map (to_be_bytes 8) limbs =
        subst (λ n. chunks 8 n (word_of f canonical x) ≡ map (to_be_bytes 8) limbs) count
          (chunks-concat 8 (map (to_be_bytes 8) limbs) [] (words_AllSized limbs)) in
      rw
        (
          fr_bytes-word_of x,
          be_limbs-chunks {E = E} (word_of f canonical x) (length-word_of f canonical x),
          cut,
          read_back limbs (All-reverse IsU64 (f.into_bigint x) (canonical.words x)),
          reverse-reverse (f.into_bigint x),
        )
        (ap ok (canonical.accepts x))

  -- Only one word is read as a given element, the one that it is written as.
  pub fr_bytes-fr_canonical :
      (bytes : Bytes) (x : f.Fr)
      → IsArray 32 bytes
      → fr_canonical {E = E} f bytes ≡ ok (some x)
      → fr_bytes {E = E} f x ≡ ok bytes
  unfolding fr_canonical
  fr_bytes-fr_canonical bytes x h e =
      let pieces = chunks 8 4 bytes in
      let read_limbs = reverse (map from_be_bytes pieces) in
      let found : f.from_bigint read_limbs ≡ some x =
        ok-injective (rw (be_limbs-chunks {E = E} bytes h.sized) at e) in
      let limbs : reverse (f.into_bigint x) ≡ map from_be_bytes pieces =
        ap reverse (canonical.unique read_limbs x found)
        ∙ reverse-reverse (map from_be_bytes pieces) in
      fr_bytes-word_of x
      ∙ ap (λ l. ok (concat (map (to_be_bytes 8) l) [])) limbs
      ∙ ap (λ l. ok (concat l []))
          (write_back pieces (chunks-IsArray 4 bytes (omega (arith, h.sized)) h.bytes))
      ∙ ap ok (concat-chunks 8 4 bytes (omega (arith, h.sized)))
