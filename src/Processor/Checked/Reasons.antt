-- ===== src/Processor/Checked/Reasons.antt =====
-- The two account checks on any account, with their reasons.
use zkasper_solana.Base.{
  ℕ, ◌≡◌, ◌≢◌, ap, refl, ◌⊎◌, true, false, ◌<◌, ◌≤◌, [], ◌∷◌, All, Option, none, some, get_elem?,
  length, arith, bytes_eq, bytes_eq→eq, bytes_eq-false→ne, bytes_eq_self, Bool-cases, inl, inr, ltb,
  ==_ne,
}
use zkasper_solana.Base.Slices.{Bytes}
use zkasper_solana.Base.Result.{ok, err}
use zkasper_solana.Base.Memory.{read_byte}
use zkasper_solana.Base.Words.{IsByte}
use zkasper_solana.Base.Yields.{get_elem?-in_range}
use zkasper_solana.Errors.{
  ZkasperError, into, invalid_state_account, invalid_ring_account, account_data_too_small,
  wrong_account_tag,
}
use zkasper_solana.Processor.{Host, expect_state, expect_ring}
use zkasper_solana.Processor.Checks.{StateAt, RingAt, expect_state-StateAt, expect_ring-RingAt}
use zkasper_solana.Runtime.Address.{seed_state, seed_ring}
use zkasper_solana.Runtime.Accounts.{Ledger, AccountInfo}
use zkasper_solana.State.LightClient
use zkasper_solana.State.LightClient.{Pubkey, LightClientState, light_client_len, tag_light_client}
use zkasper_solana.State.LightClient.Unpack.{unpack-classes}
use zkasper_solana.State.Ring
use zkasper_solana.State.Ring.{ring_len, tag_finalization_ring}
use native.Mathlib.Decide.{dec_lt, ℕ_discrete}
use zkasper_solana.Processor.Checked.{
  StateChecked, foreign, short, mistagged, misplaced, located, RingChecked, foreign_ring,
  short_ring, mistagged_ring, misplaced_ring, located_ring,
}

-- An address that is not `key`, or no address.
elsewhere :
    (o : Option Bytes) (key : Bytes)
    → (o ≡ some key)
      ⊎ ((o ≢ some key)
          × ((o ≡ none)
              ⊎ ((created : Bytes) × (o ≡ some created) × (bytes_eq created key ≡ false))))
elsewhere none key = inr (λ e. cc, inl refl)
elsewhere (some created) key = elim (Bool-cases (bytes_eq created key)) [
  | inl same ↦ inl (ap some (bytes_eq→eq _ _ same))
  | inr other ↦ inr (λ e. bytes_eq-false→ne _ _ other cc, inr (created, refl, other))
]

-- The ring's bump is there, or the header is refused.
abbrev HeaderCases : Bytes → Type 0
HeaderCases bytes =
    ((length bytes < ring_len) × (Ring.bump bytes ≡ err account_data_too_small))
    ⊎ (((ring_len ≤ length bytes)
          × (get_elem? bytes 0 ≢ some tag_finalization_ring)
          × (Ring.bump bytes ≡ err wrong_account_tag))
        ⊎ ((bump : ℕ) × (Ring.bump bytes ≡ ok bump)))

header_cases : (bytes : Bytes) → HeaderCases bytes
unfolding Ring.bump Ring.header read_byte
header_cases [] = inl (omega arith, refl)
header_cases (t ∷ xs) = elim (dec_lt (length (t ∷ xs)) ring_len) [
  | yes few ↦
      let short : ltb (length (t ∷ xs)) ring_len ≡ true = ground arith in inl (few, rw short refl)
  | no many ↦
      let long : ltb (length (t ∷ xs)) ring_len ≡ false = ground arith in
      elim (ℕ_discrete t tag_finalization_ring) [
        | yes tagged ↦
            let (bump, held) = get_elem?-in_range 0 xs (omega arith) in
            inr (inr (bump, rw (long, tagged, held)))
        | no ne ↦ inr (inl (omega arith, λ e. ne cc, rw (long, ==_ne t tag_finalization_ring ne)))
      ]
]

module _ (h : Host) (program_id : Pubkey) (info : AccountInfo) (ledger : Ledger) where
  expect_state-misplaced :
      (s : LightClientState)
      → (ledger info.key).owner ≡ program_id
      → LightClient.unpack (ledger info.key).bytes ≡ ok s
      → (found : Option Bytes)
      → h.derivation.create_program_address
          (seed_state ∷ s.authority ∷ (s.bump ∷ []) ∷ [])
          program_id
        ≡ found
      → (found ≡ none)
        ⊎ ((created : Bytes) × (found ≡ some created) × (bytes_eq created info.key ≡ false))
      → expect_state h program_id info ledger ≡ err (into invalid_state_account)
  unfolding expect_state
  expect_state-misplaced s owned decodes found e (inl nothing) =
      rw (owned, bytes_eq_self program_id, decodes, e, nothing) refl
  expect_state-misplaced s owned decodes found e (inr (created, some_created, other)) =
      rw (owned, bytes_eq_self program_id, decodes, e, some_created, other) refl

  expect_state-foreign :
      bytes_eq (ledger info.key).owner program_id ≡ false
      → expect_state h program_id info ledger ≡ err (into invalid_state_account)
  unfolding expect_state
  expect_state-foreign other = rw other refl

  expect_state-unread :
      (e : ZkasperError)
      → (ledger info.key).owner ≡ program_id
      → LightClient.unpack (ledger info.key).bytes ≡ err e
      → expect_state h program_id info ledger ≡ err (into e)
  unfolding expect_state
  expect_state-unread e owned refused = rw (owned, bytes_eq_self program_id, refused) refl

  owned_state :
      All IsByte (ledger info.key).bytes
      → (ledger info.key).owner ≡ program_id
      → StateChecked h program_id info.key ledger (expect_state h program_id info ledger)
  owned_state b owned = elim (unpack-classes (ledger info.key).bytes b) [
    | inl (few, refused) ↦
        rw (expect_state-unread account_data_too_small owned refused) (short owned few)
    | inr (inl (long, other, refused)) ↦
        rw (expect_state-unread wrong_account_tag owned refused) (mistagged owned long other)
    | inr (inr (s, u)) ↦
        elim (elsewhere
          (h.derivation.create_program_address (seed_state ∷ s.authority ∷ (s.bump ∷ []) ∷ [])
            program_id)
          info.key) [
            | inl here ↦
                let at : StateAt h program_id info.key ledger s = record {
                  owned = owned;
                  decodes = u.decodes;
                  derived = here;
                } in
                rw (expect_state-StateAt h program_id info ledger s at) (located s at)
            | inr (away, how) ↦
                rw (expect_state-misplaced s owned u.decodes _ refl how)
                  (misplaced owned s u.decodes away)
          ]
  ]

  -- `expect_state` on an account of bytes, with its reason; it does not panic.
  pub expect_state-StateChecked :
      All IsByte (ledger info.key).bytes
      → StateChecked h program_id info.key ledger (expect_state h program_id info ledger)
  expect_state-StateChecked b = elim (Bool-cases (bytes_eq (ledger info.key).owner program_id)) [
    | inl owned ↦ owned_state b (bytes_eq→eq _ _ owned)
    | inr other ↦ rw (expect_state-foreign other) (foreign (bytes_eq-false→ne _ _ other))
  ]

  module _ (authority : Pubkey) where
    expect_ring-misplaced :
        (bump : ℕ)
        → (ledger info.key).owner ≡ program_id
        → Ring.bump (ledger info.key).bytes ≡ ok bump
        → (found : Option Bytes)
        → h.derivation.create_program_address (seed_ring ∷ authority ∷ (bump ∷ []) ∷ []) program_id
          ≡ found
        → (found ≡ none)
          ⊎ ((created : Bytes) × (found ≡ some created) × (bytes_eq created info.key ≡ false))
        → expect_ring h program_id info authority ledger ≡ err invalid_ring_account
    unfolding expect_ring
    expect_ring-misplaced bump owned held found e (inl nothing) =
        rw (owned, bytes_eq_self program_id, held, e, nothing) refl
    expect_ring-misplaced bump owned held found e (inr (created, some_created, other)) =
        rw (owned, bytes_eq_self program_id, held, e, some_created, other) refl

    expect_ring-foreign :
        bytes_eq (ledger info.key).owner program_id ≡ false
        → expect_ring h program_id info authority ledger ≡ err invalid_ring_account
    unfolding expect_ring
    expect_ring-foreign other = rw other refl

    expect_ring-unread :
        (e : ZkasperError)
        → (ledger info.key).owner ≡ program_id
        → Ring.bump (ledger info.key).bytes ≡ err e
        → expect_ring h program_id info authority ledger ≡ err e
    unfolding expect_ring
    expect_ring-unread e owned refused = rw (owned, bytes_eq_self program_id, refused) refl

    owned_ring :
        (ledger info.key).owner ≡ program_id
        → RingChecked h program_id info.key ledger authority
            (expect_ring h program_id info authority ledger)
    owned_ring owned = elim (header_cases (ledger info.key).bytes) [
      | inl (few, refused) ↦
          rw (expect_ring-unread account_data_too_small owned refused) (short_ring owned few)
      | inr (inl (long, other, refused)) ↦
          rw (expect_ring-unread wrong_account_tag owned refused) (mistagged_ring owned long other)
      | inr (inr (bump, held)) ↦
          elim (elsewhere
            (h.derivation.create_program_address (seed_ring ∷ authority ∷ (bump ∷ []) ∷ [])
              program_id)
            info.key) [
              | inl here ↦
                  let at : RingAt h program_id info.key authority ledger = record {
                    owned = owned;
                    bump = bump;
                    names_bump = held;
                    derived = here;
                  } in
                  rw (expect_ring-RingAt h program_id info authority ledger at) (located_ring at)
              | inr (away, how) ↦
                  rw (expect_ring-misplaced bump owned held _ refl how)
                    (misplaced_ring owned bump held away)
            ]
    ]

    -- `expect_ring` on any account, with its reason; it does not panic.
    pub expect_ring-RingChecked :
        RingChecked h program_id info.key ledger authority
          (expect_ring h program_id info authority ledger)
    expect_ring-RingChecked = elim (Bool-cases (bytes_eq (ledger info.key).owner program_id)) [
      | inl owned ↦ owned_ring (bytes_eq→eq _ _ owned)
      | inr other ↦ rw (expect_ring-foreign other) (foreign_ring (bytes_eq-false→ne _ _ other))
    ]
