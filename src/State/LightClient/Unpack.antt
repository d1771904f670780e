-- ===== src/State/LightClient/Unpack.antt =====
-- `unpack` on any account: which bytes it refuses and why.
use zkasper_solana.Base.{
  ℕ, ◌≤◌, ◌<◌, ◌≡◌, sym, ap, ◌∙◌, ◌≢◌, ◌⊎◌, inl, inr, [], ◌∷◌, ◌++◌, ==_ne, length, take, drop,
  get_elem?, subst, All, All-take, length-take, arith, take-append-drop, some,
}
use zkasper_solana.Base.Slices.{Bytes}
use zkasper_solana.Base.Result.{ok, err, panic, ok-injective}
use zkasper_solana.Base.Memory.{read_byte}
use zkasper_solana.Base.Words.{
  from_le_bytes, to_le_bytes-from_le_bytes, from_le_bytes-IsU64, IsArray, IsByte,
}
use zkasper_solana.Base.Layout.{concat-append}
use zkasper_solana.Base.Pieces.{concat-pieces, take-IsArray, drop-IsArray}
use zkasper_solana.Errors.{account_data_too_small, wrong_account_tag}
use native.Mathlib.Decide.{ℕ_discrete, dec_lt}
use zkasper_solana.State.LightClient.{
  LightClientState, IsState, unpack, pack_into, light_client_len, tag_light_client,
}
use zkasper_solana.State.LightClient.Layout.{
  state_fields, encode_state, unpack-encode_state, pack_into-encode_state, drop-encode_state,
  long_enough, too_short,
}

-- The state that 184 bytes behind the tag and the bump spell.
abbrev state_of : ℕ → Bytes → LightClientState
state_of b xs =
    let from_commitment = drop 32 xs in
    let from_state_root = drop 32 from_commitment in
    let from_epoch = drop 32 from_state_root in
    let from_root = drop 8 from_epoch in
    let from_vk = drop 32 from_root in
    let from_count = drop 32 from_vk in
    let from_acc_epoch = drop 8 from_count in
    record {
      bump = b;
      authority = take 32 xs;
      accumulator_commitment = take 32 from_commitment;
      latest_state_root = take 32 from_state_root;
      finalized_epoch = from_le_bytes (take 8 from_epoch);
      finalized_root = take 32 from_root;
      program_vk = take 32 from_vk;
      submission_count = from_le_bytes (take 8 from_count);
      accumulator_epoch = from_le_bytes (take 8 from_acc_epoch);
    }

module _ (b : ℕ) (xs : Bytes) (hb : IsByte b) (h : IsArray 184 xs) where
  d1 : IsArray 152 (drop 32 xs)
  d1 = drop-IsArray 184 32 xs h

  d2 : IsArray 120 (drop 32 (drop 32 xs))
  d2 = drop-IsArray 152 32 _ d1

  d3 : IsArray 88 (drop 32 (drop 32 (drop 32 xs)))
  d3 = drop-IsArray 120 32 _ d2

  d4 : IsArray 80 (drop 8 (drop 32 (drop 32 (drop 32 xs))))
  d4 = drop-IsArray 88 8 _ d3

  d5 : IsArray 48 (drop 32 (drop 8 (drop 32 (drop 32 (drop 32 xs)))))
  d5 = drop-IsArray 80 32 _ d4

  d6 : IsArray 16 (drop 32 (drop 32 (drop 8 (drop 32 (drop 32 (drop 32 xs))))))
  d6 = drop-IsArray 48 32 _ d5

  d7 : IsArray 8 (drop 8 (drop 32 (drop 32 (drop 8 (drop 32 (drop 32 (drop 32 xs)))))))
  d7 = drop-IsArray 16 8 _ d6

  epoch_word : IsArray 8 (take 8 (drop 32 (drop 32 (drop 32 xs))))
  epoch_word = take-IsArray 88 8 _ (omega arith) d3

  count_word : IsArray 8 (take 8 (drop 32 (drop 32 (drop 8 (drop 32 (drop 32 (drop 32 xs)))))))
  count_word = take-IsArray 16 8 _ (omega arith) d6

  acc_word :
      IsArray 8 (take 8 (drop 8 (drop 32 (drop 32 (drop 8 (drop 32 (drop 32 (drop 32 xs))))))))
  acc_word = take-IsArray 8 8 _ (omega arith) d7

  state_of-IsState : IsState (state_of b xs)
  state_of-IsState = record {
    bump = hb;
    authority = take-IsArray 184 32 xs (omega arith) h;
    accumulator_commitment = take-IsArray 152 32 _ (omega arith) d1;
    latest_state_root = take-IsArray 120 32 _ (omega arith) d2;
    finalized_epoch = from_le_bytes-IsU64 _ epoch_word;
    finalized_root = take-IsArray 80 32 _ (omega arith) d4;
    program_vk = take-IsArray 48 32 _ (omega arith) d5;
    submission_count = from_le_bytes-IsU64 _ count_word;
    accumulator_epoch = from_le_bytes-IsU64 _ acc_word;
  }

  encode_state-state_of : encode_state (state_of b xs) [] ≡ 1 ∷ b ∷ xs
  encode_state-state_of =
      rw
        (
          to_le_bytes-from_le_bytes 8 _ epoch_word,
          to_le_bytes-from_le_bytes 8 _ count_word,
          to_le_bytes-from_le_bytes 8 _ acc_word,
        )
        (ap (λ t. 1 ∷ b ∷ t) (concat-pieces (32 ∷ 32 ∷ 32 ∷ 8 ∷ 32 ∷ 32 ∷ 8 ∷ 8 ∷ []) xs h.sized))

-- What an account of the light client decodes to.
pub record Unpacked (bytes : Bytes) (s : LightClientState) : Type 0 where
  pub decodes : unpack bytes ≡ ok s
  pub valid : IsState s
  pub canonical : bytes ≡ encode_state s (drop light_client_len bytes)

tagged_unpacks :
    (b : ℕ) (xs : Bytes)
    → IsByte b
    → All IsByte xs
    → 184 ≤ length xs
    → (s : LightClientState) × Unpacked (1 ∷ b ∷ xs) s
tagged_unpacks b xs hb hxs h =
    let front : IsArray 184 (take 184 xs) = record {
      sized = omega (arith, length-take 184 xs);
      bytes = All-take IsByte 184 xs hxs;
    } in
    let s = state_of b (take 184 xs) in
    let whole : encode_state s (drop 184 xs) ≡ 1 ∷ b ∷ xs =
      sym (concat-append (state_fields s) (drop 184 xs))
      ∙ ap (λ t. t ++ drop 184 xs) (encode_state-state_of b (take 184 xs) hb front)
      ∙ ap (λ t. 1 ∷ b ∷ t) (take-append-drop 184 xs) in
    (
      s,
      record {
        decodes =
            ap unpack (sym whole)
            ∙ unpack-encode_state s (state_of-IsState b (take 184 xs) hb front) (drop 184 xs);
        valid = state_of-IsState b (take 184 xs) hb front;
        canonical = sym whole;
      },
    )

unpack_short : (bytes : Bytes) → length bytes < 186 → unpack bytes ≡ err account_data_too_small
unfolding unpack
unpack_short bytes h = rw (too_short bytes h)

unpack_mistagged :
    (bytes : Bytes)
    → 186 ≤ length bytes
    → get_elem? bytes 0 ≢ some tag_light_client
    → unpack bytes ≡ err wrong_account_tag
unfolding unpack read_byte
unpack_mistagged [] h ne = absurd (omega arith)
unpack_mistagged (t ∷ xs) h ne = rw (long_enough (t ∷ xs) h, ==_ne t 1 (λ e. ne (ap some e)))

abbrev pub Short : Bytes → Type 0
Short bytes = (length bytes < light_client_len) × (unpack bytes ≡ err account_data_too_small)

abbrev pub Mistagged : Bytes → Type 0
Mistagged bytes =
    (light_client_len ≤ length bytes)
    × (get_elem? bytes 0 ≢ some tag_light_client)
    × (unpack bytes ≡ err wrong_account_tag)

long_cases :
    (bytes : Bytes)
    → All IsByte bytes
    → 186 ≤ length bytes
    → Mistagged bytes ⊎ ((s : LightClientState) × Unpacked bytes s)
long_cases [] h le = absurd (omega arith)
long_cases (t ∷ []) h le = absurd (omega arith)
long_cases (t ∷ b ∷ xs) h le = elim (ℕ_discrete t 1) [
  | yes e ↦ inr (
      subst (λ n. (s : LightClientState) × Unpacked (n ∷ b ∷ xs) s) (sym e)
        (tagged_unpacks b xs h.1.0 h.1.1 (omega arith)))
  | no ne ↦
      let other : get_elem? (t ∷ b ∷ xs) 0 ≢ some tag_light_client = λ same. ne (cc) in
      inl (le, other, unpack_mistagged (t ∷ b ∷ xs) le other)
]

-- Every account falls into one of three classes: too short, long enough but tagged otherwise, or
-- decoded to a well-typed state whose encoding is exactly the account's first 186 bytes. In
-- particular `unpack` never panics.
pub unpack-classes :
    (bytes : Bytes)
    → All IsByte bytes
    → Short bytes ⊎ (Mistagged bytes ⊎ ((s : LightClientState) × Unpacked bytes s))
unpack-classes bytes h = elim (dec_lt (length bytes) 186) [
  | yes short ↦ inl (short, unpack_short bytes short)
  | no long ↦ inr (long_cases bytes h (omega arith))
]

pub unpack-ne-panic : (bytes : Bytes) → All IsByte bytes → unpack bytes ≢ panic
unpack-ne-panic bytes h e = elim (unpack-classes bytes h) [
  | inl short ↦ cc (short.1)
  | inr (inl other) ↦ cc (other.2)
  | inr (inr (s, u)) ↦ cc (u.decodes)
]

pub unpack-eq-ok :
    (bytes : Bytes) (s : LightClientState)
    → All IsByte bytes
    → unpack bytes ≡ ok s
    → Unpacked bytes s
unpack-eq-ok bytes s h e = elim (unpack-classes bytes h) [
  | inl short ↦ cc (short.1)
  | inr (inl other) ↦ cc (other.2)
  | inr (inr (s', u)) ↦ subst (Unpacked bytes) (ok-injective (sym u.decodes ∙ e)) u
]

-- A state that is stored over any account of at least 186 bytes is read back, and the bytes behind
-- the 186 stay as they were.
pub unpack-pack_into :
    (s : LightClientState) (bytes : Bytes)
    → IsState s
    → light_client_len ≤ length bytes
    → (out : Bytes) × (pack_into s bytes ≡ ok out)
      × (unpack out ≡ ok s)
      × (drop light_client_len out ≡ drop light_client_len bytes)
unpack-pack_into s bytes v h = (
  encode_state s (drop 186 bytes),
  pack_into-encode_state s v bytes h,
  unpack-encode_state s v (drop 186 bytes),
  drop-encode_state s v (drop 186 bytes),
)
