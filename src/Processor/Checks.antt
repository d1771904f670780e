-- ===== src/Processor/Checks.antt =====
-- What the account checks of the handlers establish, and that they pass on such accounts.
use zkasper_solana.Base.{
  ℕ, ◌≡◌, ap, ◌∙◌, ◌<◌, ◌≤◌, false, not, ltb, leb-false→lt, lt→leb-false, ◌==◌, ==_iff, ==_self,
  bytes_eq_self, bytes_eq→eq, [], ◌∷◌, some, get_elem?, length, arith, subst,
}
use zkasper_solana.Base.Slices.{Bytes}
use zkasper_solana.Base.Result.{
  ok, refuse_if, ok_or, map_err, >>=-eq-ok, map_err-eq-ok, refuse_if-eq-ok, refuse_unless-eq-ok,
  ok_or-eq-ok, ok-injective,
}
use zkasper_solana.Base.Memory.{read_byte}
use zkasper_solana.Errors.{into, account_data_too_small, wrong_account_tag}
use zkasper_solana.Processor.{Host, expect_state, expect_ring, expect_next}
use zkasper_solana.Runtime.Address.{seed_state, seed_ring}
use zkasper_solana.Runtime.Accounts.{Ledger, AccountInfo}
use zkasper_solana.State.LightClient
use zkasper_solana.State.LightClient.{Pubkey, LightClientState, light_client_len, tag_light_client}
use zkasper_solana.State.Ring
use zkasper_solana.State.Ring.{tag_finalization_ring}
use zkasper_solana.State.Ring.Slots.{IsRing, bump-eq-ok}
use zkasper_solana.Wire.{FinalizationOutput}

module _ (h : Host) (program_id : Pubkey) where
  -- The account at `key` is the light client `s`: the program's, decoding to `s`, and at the address
  -- derived for the authority and the bump that `s` names.
  pub record StateAt (key : Pubkey) (ledger : Ledger) (s : LightClientState) : Type 0 where
    pub owned : (ledger key).owner ≡ program_id
    pub decodes : LightClient.unpack (ledger key).bytes ≡ ok s
    pub derived :
        h.derivation.create_program_address
          (seed_state ∷ s.authority ∷ (s.bump ∷ []) ∷ [])
          program_id
        ≡ some key

  -- The account at `key` is the ring of `authority`.
  pub record RingAt (key authority : Pubkey) (ledger : Ledger) : Type 0 where
    pub owned : (ledger key).owner ≡ program_id
    pub bump : ℕ
    pub names_bump : Ring.bump (ledger key).bytes ≡ ok bump
    pub derived :
        h.derivation.create_program_address (seed_ring ∷ authority ∷ (bump ∷ []) ∷ []) program_id
        ≡ some key

  pub RingAt-IsRing :
      (key authority : Pubkey) (ledger : Ledger)
      → RingAt key authority ledger
      → IsRing (ledger key).bytes
  RingAt-IsRing key authority ledger r = bump-eq-ok (ledger key).bytes r.names_bump

  pub expect_state-StateAt :
      (info : AccountInfo) (ledger : Ledger) (s : LightClientState)
      → StateAt info.key ledger s
      → expect_state h program_id info ledger ≡ ok s
  unfolding expect_state
  expect_state-StateAt info ledger s at =
      rw (at.owned, bytes_eq_self program_id, at.decodes, at.derived, bytes_eq_self info.key)

  pub expect_state-eq-ok :
      (info : AccountInfo) (ledger : Ledger) (s : LightClientState)
      → expect_state h program_id info ledger ≡ ok s
      → StateAt info.key ledger s
  unfolding expect_state
  expect_state-eq-ok info ledger s e =
      let (u, owned, e1) = >>=-eq-ok (refuse_if _ _) _ e in
      let (s', decodes, e2) = >>=-eq-ok (map_err into _) _ e1 in
      let (created, derived, e3) = >>=-eq-ok (ok_or _ _) _ e2 in
      let (v, same, e4) = >>=-eq-ok (refuse_if _ _) _ e3 in
      let at : StateAt info.key ledger s' = record {
        owned = bytes_eq→eq _ _ (refuse_unless-eq-ok _ _ owned);
        decodes = map_err-eq-ok into _ decodes;
        derived =
            ok_or-eq-ok _ _ derived ∙ ap some (bytes_eq→eq _ _ (refuse_unless-eq-ok _ _ same));
      } in
      subst (StateAt info.key ledger) (ok-injective e4) at

  pub expect_ring-RingAt :
      (info : AccountInfo) (authority : Pubkey) (ledger : Ledger)
      → RingAt info.key authority ledger
      → expect_ring h program_id info authority ledger ≡ ok tt
  unfolding expect_ring
  expect_ring-RingAt info authority ledger r =
      rw (r.owned, bytes_eq_self program_id, r.names_bump, r.derived, bytes_eq_self info.key)

  pub expect_ring-eq-ok :
      (info : AccountInfo) (authority : Pubkey) (ledger : Ledger) {u : Unit {0}}
      → expect_ring h program_id info authority ledger ≡ ok u
      → RingAt info.key authority ledger
  unfolding expect_ring
  expect_ring-eq-ok info authority ledger e =
      let (v, owned, e1) = >>=-eq-ok (refuse_if _ _) _ e in
      let (b, names_bump, e2) = >>=-eq-ok (Ring.bump _) _ e1 in
      let (created, derived, e3) = >>=-eq-ok (ok_or _ _) _ e2 in
      record {
        owned = bytes_eq→eq _ _ (refuse_unless-eq-ok _ _ owned);
        bump = b;
        names_bump = names_bump;
        derived = ok_or-eq-ok _ _ derived ∙ ap some (bytes_eq→eq _ _ (refuse_unless-eq-ok _ _ e3));
      }

-- The output extends the sequence that the state stands at.
pub record Next (s : LightClientState) (output : FinalizationOutput) : Type 0 where
  pub advances : s.finalized_epoch < output.finalized_epoch
  pub resumes : s.accumulator_epoch ≡ output.finalized_epoch
  pub extends : s.accumulator_commitment ≡ output.accumulator_commitment

pub expect_next-Next :
    (s : LightClientState) (output : FinalizationOutput)
    → Next s output
    → expect_next s output ≡ ok tt
unfolding expect_next
expect_next-Next s output n =
    let later = lt→leb-false output.finalized_epoch s.finalized_epoch n.advances in
    rw (
      later,
      n.resumes,
      ==_self output.finalized_epoch,
      n.extends,
      bytes_eq_self output.accumulator_commitment,
    )

pub expect_next-eq-ok :
    (s : LightClientState) (output : FinalizationOutput) {u : Unit {0}}
    → expect_next s output ≡ ok u
    → Next s output
unfolding expect_next
expect_next-eq-ok s output e =
    let (v, advances, e1) = >>=-eq-ok (refuse_if _ _) _ e in
    let (w, resumes, e2) = >>=-eq-ok (refuse_if _ _) _ e1 in
    record {
      advances =
          leb-false→lt output.finalized_epoch s.finalized_epoch (refuse_if-eq-ok _ _ advances);
      resumes = (==_iff _ _).0 (refuse_unless-eq-ok _ _ resumes);
      extends = bytes_eq→eq _ _ (refuse_unless-eq-ok _ _ e2);
    }

-- A state and a ring are never the same account: their tags differ.
pub unpack-tag :
    (bytes : Bytes) (s : LightClientState)
    → LightClient.unpack bytes ≡ ok s
    → get_elem? bytes 0 ≡ some tag_light_client
unfolding LightClient.unpack read_byte
unpack-tag [] s e = cc
unpack-tag (t ∷ xs) s e =
    let (u, long, e1) =
      >>=-eq-ok (refuse_if (ltb (length (t ∷ xs)) light_client_len) account_data_too_small) _ e in
    let (v, tagged, e2) =
      >>=-eq-ok (refuse_if (not (t == tag_light_client)) wrong_account_tag) _ e1 in
    ap some ((==_iff t tag_light_client).0 (refuse_unless-eq-ok _ _ tagged))

pub unpack-ne-IsRing :
    (bytes : Bytes) (s : LightClientState) → LightClient.unpack bytes ≡ ok s → IsRing bytes → ⊥
unpack-ne-IsRing bytes s e r = cc (unpack-tag bytes s e, r.tagged)

pub unpack-long :
    (bytes : Bytes) (s : LightClientState)
    → LightClient.unpack bytes ≡ ok s
    → light_client_len ≤ length bytes
unfolding LightClient.unpack
unpack-long bytes s e =
    let (u, long, e1) =
      >>=-eq-ok (refuse_if (ltb (length bytes) light_client_len) account_data_too_small) _ e in
    let not_short : ltb (length bytes) light_client_len ≡ false = refuse_if-eq-ok _ _ long in
    ground (arith, not_short)
