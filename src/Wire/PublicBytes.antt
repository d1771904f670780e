-- ===== src/Wire/PublicBytes.antt =====
-- `public_bytes` and `from_public_bytes` against the fields laid end to end, as zkasper's
-- `PublicWriter` writes them.
use zkasper_solana.Base.{
  ◌≡◌, refl, sym, ap, ◌∙◌, List, [], ◌∷◌, length, take, drop, arith, append-nil,
}
use zkasper_solana.Base.Slices.{Bytes}
use zkasper_solana.Base.Result.{ok, ◌>>=◌}
use zkasper_solana.Base.Memory.{zeros}
use zkasper_solana.Base.Words.{
  from_le_bytes, to_le_bytes-from_le_bytes, from_le_bytes-IsU64, u64_bytes, IsArray, u64_round_trip,
}
use zkasper_solana.Base.Pieces.{concat-pieces, take-IsArray, drop-IsArray}
use zkasper_solana.Base.Layout.{concat, length-concat, read_field, write_field, sizes}
use zkasper_solana.Wire.{
  FinalizationOutput, IsOutput, public_bytes, from_public_bytes, finalization_public_bytes,
}

-- The fields in order, each at its fixed width.
abbrev pub output_fields : FinalizationOutput → List Bytes
output_fields o =
    o.accumulator_commitment
    ∷ o.next_accumulator_commitment
    ∷ u64_bytes o.finalized_epoch
    ∷ o.finalized_root
    ∷ o.finalized_state_root
    ∷ u64_bytes o.justified_epoch
    ∷ o.justified_root
    ∷ []

abbrev pub encode_output : FinalizationOutput → Bytes
encode_output o = concat (output_fields o) []

-- The array that `public_bytes` fills.
abbrev blank : Bytes
blank = zeros finalization_public_bytes

drop-blank : drop finalization_public_bytes blank ≡ []
unfolding zeros
drop-blank = refl

pub length-encode_output :
    (o : FinalizationOutput) → IsOutput o → length (encode_output o) ≡ finalization_public_bytes
length-encode_output o v = omega (sizes, length-concat (output_fields o) [])

module _ {E : Type 0} (o : FinalizationOutput) (v : IsOutput o) where
  pub public_bytes-encode_output : public_bytes {E = E} o ≡ ok (encode_output o)
  unfolding public_bytes
  public_bytes-encode_output =
      rw
        (
          write_field fs 0 o.accumulator_commitment blank 0 32 refl (omega sizes) (omega sizes)
              (omega sizes),
          write_field fs 1 o.next_accumulator_commitment blank 32 64 refl (omega sizes)
              (omega sizes) (omega sizes),
          write_field fs 2 (u64_bytes o.finalized_epoch) blank 64 72 refl (omega sizes)
              (omega sizes) (omega sizes),
          write_field fs 3 o.finalized_root blank 72 104 refl (omega sizes) (omega sizes)
              (omega sizes),
          write_field fs 4 o.finalized_state_root blank 104 136 refl (omega sizes) (omega sizes)
              (omega sizes),
          write_field fs 5 (u64_bytes o.justified_epoch) blank 136 144 refl (omega sizes)
              (omega sizes) (omega sizes),
          write_field fs 6 o.justified_root blank 144 176 refl (omega sizes) (omega sizes)
              (omega sizes),
          length-encode_output o v,
          drop-blank,
        )
        (ap ok (append-nil (encode_output o)))
    where
      fs : List Bytes
      fs = output_fields o

  -- What `public_bytes` wrote is read back, field by field.
  pub from_public_bytes-encode_output : from_public_bytes {E = E} (encode_output o) ≡ ok o
  unfolding from_public_bytes
  from_public_bytes-encode_output = rw (
    read_field fs [] 0 o.accumulator_commitment 0 32 refl (omega sizes) (omega sizes),
    read_field fs [] 1 o.next_accumulator_commitment 32 64 refl (omega sizes) (omega sizes),
    read_field fs [] 2 (u64_bytes o.finalized_epoch) 64 72 refl (omega sizes) (omega sizes),
    read_field fs [] 3 o.finalized_root 72 104 refl (omega sizes) (omega sizes),
    read_field fs [] 4 o.finalized_state_root 104 136 refl (omega sizes) (omega sizes),
    read_field fs [] 5 (u64_bytes o.justified_epoch) 136 144 refl (omega sizes) (omega sizes),
    read_field fs [] 6 o.justified_root 144 176 refl (omega sizes) (omega sizes),
    u64_round_trip o.finalized_epoch v.finalized_epoch,
    u64_round_trip o.justified_epoch v.justified_epoch,
  )
    where
      fs : List Bytes
      fs = output_fields o

-- The output that an array of 176 bytes spells.
abbrev pub output_of : Bytes → FinalizationOutput
output_of xs =
    let from_32 = drop 32 xs in
    let from_64 = drop 32 from_32 in
    let from_72 = drop 8 from_64 in
    let from_104 = drop 32 from_72 in
    let from_136 = drop 32 from_104 in
    let from_144 = drop 8 from_136 in
    record {
      accumulator_commitment = take 32 xs;
      next_accumulator_commitment = take 32 from_32;
      finalized_epoch = from_le_bytes (take 8 from_64);
      finalized_root = take 32 from_72;
      finalized_state_root = take 32 from_104;
      justified_epoch = from_le_bytes (take 8 from_136);
      justified_root = take 32 from_144;
    }

module _ (xs : Bytes) (h : IsArray 176 xs) where
  from_32 : IsArray 144 (drop 32 xs)
  from_32 = drop-IsArray 176 32 xs h

  from_64 : IsArray 112 (drop 32 (drop 32 xs))
  from_64 = drop-IsArray 144 32 _ from_32

  from_72 : IsArray 104 (drop 8 (drop 32 (drop 32 xs)))
  from_72 = drop-IsArray 112 8 _ from_64

  from_104 : IsArray 72 (drop 32 (drop 8 (drop 32 (drop 32 xs))))
  from_104 = drop-IsArray 104 32 _ from_72

  from_136 : IsArray 40 (drop 32 (drop 32 (drop 8 (drop 32 (drop 32 xs)))))
  from_136 = drop-IsArray 72 32 _ from_104

  from_144 : IsArray 32 (drop 8 (drop 32 (drop 32 (drop 8 (drop 32 (drop 32 xs))))))
  from_144 = drop-IsArray 40 8 _ from_136

  epoch_word : IsArray 8 (take 8 (drop 32 (drop 32 xs)))
  epoch_word = take-IsArray 112 8 _ (omega arith) from_64

  justified_word : IsArray 8 (take 8 (drop 32 (drop 32 (drop 8 (drop 32 (drop 32 xs))))))
  justified_word = take-IsArray 40 8 _ (omega arith) from_136

  pub output_of-IsOutput : IsOutput (output_of xs)
  output_of-IsOutput = record {
    accumulator_commitment = take-IsArray 176 32 xs (omega arith) h;
    next_accumulator_commitment = take-IsArray 144 32 _ (omega arith) from_32;
    finalized_epoch = from_le_bytes-IsU64 _ epoch_word;
    finalized_root = take-IsArray 104 32 _ (omega arith) from_72;
    finalized_state_root = take-IsArray 72 32 _ (omega arith) from_104;
    justified_epoch = from_le_bytes-IsU64 _ justified_word;
    justified_root = take-IsArray 32 32 _ (omega arith) from_144;
  }

  pub encode_output-output_of : encode_output (output_of xs) ≡ xs
  encode_output-output_of =
      rw (to_le_bytes-from_le_bytes 8 _ epoch_word, to_le_bytes-from_le_bytes 8 _ justified_word)
        (concat-pieces (32 ∷ 32 ∷ 8 ∷ 32 ∷ 32 ∷ 8 ∷ 32 ∷ []) xs h.sized)

module _ {E : Type 0} where
  -- Decoding what `public_bytes` wrote gives the output back, whatever the output, and nothing
  -- panics on the way.
  pub from_public_bytes-public_bytes :
      (o : FinalizationOutput) → IsOutput o → (public_bytes {E = E} o >>= from_public_bytes) ≡ ok o
  from_public_bytes-public_bytes o v =
      rw (public_bytes-encode_output o v) (from_public_bytes-encode_output o v)

  pub from_public_bytes-output_of :
      (xs : Bytes) → IsArray 176 xs → from_public_bytes {E = E} xs ≡ ok (output_of xs)
  from_public_bytes-output_of xs h =
      ap from_public_bytes (sym (encode_output-output_of xs h))
      ∙ from_public_bytes-encode_output (output_of xs) (output_of-IsOutput xs h)

  -- Every array of 176 bytes decodes, and encoding the result gives those bytes back: two
  -- submissions with different output bytes never mean the same output.
  pub public_bytes-from_public_bytes :
      (xs : Bytes) → IsArray 176 xs → (from_public_bytes {E = E} xs >>= public_bytes) ≡ ok xs
  public_bytes-from_public_bytes xs h =
      rw
        (
          from_public_bytes-output_of xs h,
          public_bytes-encode_output (output_of xs) (output_of-IsOutput xs h),
        )
        (ap ok (encode_output-output_of xs h))
