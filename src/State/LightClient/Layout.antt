-- ===== src/State/LightClient/Layout.antt =====
-- `unpack` and `pack_into` of the light client against the fields laid end to end.
use zkasper_solana.Base.{
  ◌+◌, ◌≤◌, ◌<◌, ◌≡◌, refl, sym, ap, ◌∙◌, true, false, List, [], ◌∷◌, ◌++◌, ltb, length, drop,
  arith,
}
use zkasper_solana.Base.Slices.{Bytes, drop-append_at}
use zkasper_solana.Base.Result.{ok}
use zkasper_solana.Base.Words.{u64_bytes, u64_round_trip}
use zkasper_solana.Base.Layout.{
  concat, length-concat, concat-append, read_field, read_byte_field, write_field, write_byte_field,
  sizes,
}
use zkasper_solana.State.LightClient.{
  LightClientState, IsState, unpack, pack_into, light_client_len, tag_light_client,
}

abbrev pub state_fields : LightClientState → List Bytes
state_fields s =
    (tag_light_client ∷ [])
    ∷ (s.bump ∷ [])
    ∷ s.authority
    ∷ s.accumulator_commitment
    ∷ s.latest_state_root
    ∷ u64_bytes s.finalized_epoch
    ∷ s.finalized_root
    ∷ s.program_vk
    ∷ u64_bytes s.submission_count
    ∷ u64_bytes s.accumulator_epoch
    ∷ []

-- An account's bytes: the fields, then whatever follows them.
abbrev pub encode_state : LightClientState → Bytes → Bytes
encode_state s rest = concat (state_fields s) rest

pub long_enough : (bytes : Bytes) → 186 ≤ length bytes → ltb (length bytes) light_client_len ≡ false
long_enough bytes h = ground arith

pub too_short : (bytes : Bytes) → length bytes < 186 → ltb (length bytes) light_client_len ≡ true
too_short bytes h = ground arith

module _ (s : LightClientState) (v : IsState s) where
  pub length-encode_state : (rest : Bytes) → length (encode_state s rest) ≡ 186 + length rest
  length-encode_state rest = omega (sizes, length-concat (state_fields s) rest)

  pub drop-encode_state : (rest : Bytes) → drop light_client_len (encode_state s rest) ≡ rest
  drop-encode_state rest =
      ap (drop 186) (sym (concat-append (state_fields s) rest))
      ∙ drop-append_at (encode_state s []) rest 186 (sym (length-encode_state []))

  -- The state overwrites the first 186 bytes and leaves the others as they were.
  pub pack_into-encode_state :
      (bytes : Bytes)
      → light_client_len ≤ length bytes
      → pack_into s bytes ≡ ok (encode_state s (drop light_client_len bytes))
  unfolding pack_into
  pack_into-encode_state bytes h =
      rw
        (
          long_enough bytes h,
          write_byte_field (state_fields s) 0 1 bytes 0 refl (omega sizes) (omega arith),
          write_byte_field (state_fields s) 1 s.bump bytes 1 refl (omega sizes) (omega arith),
          write_field (state_fields s) 2 s.authority bytes 2 34 refl (omega sizes) (omega sizes)
              (omega arith),
          write_field (state_fields s) 3 s.accumulator_commitment bytes 34 66 refl (omega sizes)
              (omega sizes) (omega arith),
          write_field (state_fields s) 4 s.latest_state_root bytes 66 98 refl (omega sizes)
              (omega sizes) (omega arith),
          write_field (state_fields s) 5 (u64_bytes s.finalized_epoch) bytes 98 106 refl
              (omega sizes) (omega sizes) (omega arith),
          write_field (state_fields s) 6 s.finalized_root bytes 106 138 refl (omega sizes)
              (omega sizes) (omega arith),
          write_field (state_fields s) 7 s.program_vk bytes 138 170 refl (omega sizes) (omega sizes)
              (omega arith),
          write_field (state_fields s) 8 (u64_bytes s.submission_count) bytes 170 178 refl
              (omega sizes) (omega sizes) (omega arith),
          write_field (state_fields s) 9 (u64_bytes s.accumulator_epoch) bytes 178 186 refl
              (omega sizes) (omega sizes) (omega arith),
        )
        (ap (λ n. ok (encode_state s [] ++ drop n bytes)) (length-encode_state [])
          ∙ ap ok (concat-append (state_fields s) (drop 186 bytes)))

  pub unpack-encode_state : (rest : Bytes) → unpack (encode_state s rest) ≡ ok s
  unfolding unpack
  unpack-encode_state rest = rw (
    long_enough (encode_state s rest) (omega (arith, length-encode_state rest)),
    read_byte_field (state_fields s) rest 0 1 0 refl (omega sizes),
    read_byte_field (state_fields s) rest 1 s.bump 1 refl (omega sizes),
    read_field (state_fields s) rest 2 s.authority 2 34 refl (omega sizes) (omega sizes),
    read_field (state_fields s) rest 3 s.accumulator_commitment 34 66 refl (omega sizes)
        (omega sizes),
    read_field (state_fields s) rest 4 s.latest_state_root 66 98 refl (omega sizes) (omega sizes),
    read_field (state_fields s) rest 5 (u64_bytes s.finalized_epoch) 98 106 refl (omega sizes)
        (omega sizes),
    read_field (state_fields s) rest 6 s.finalized_root 106 138 refl (omega sizes) (omega sizes),
    read_field (state_fields s) rest 7 s.program_vk 138 170 refl (omega sizes) (omega sizes),
    read_field (state_fields s) rest 8 (u64_bytes s.submission_count) 170 178 refl (omega sizes)
        (omega sizes),
    read_field (state_fields s) rest 9 (u64_bytes s.accumulator_epoch) 178 186 refl (omega sizes)
        (omega sizes),
    u64_round_trip s.finalized_epoch v.finalized_epoch,
    u64_round_trip s.submission_count v.submission_count,
    u64_round_trip s.accumulator_epoch v.accumulator_epoch,
  )
