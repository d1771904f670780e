-- ===== src/Processor/CreatePda.antt =====
-- `create_pda`: both of its ways, and the accounts that they change.
use zkasper_solana.Base.{
  ℕ, ◌≡◌, ◌≢◌, refl, sym, ◌∙◌, ◌-◌, ◌==◌, ltb, List, [], Bool-cases, inl, inr, if◌then◌else◌, subst,
}
use zkasper_solana.Base.Slices.{Bytes}
use zkasper_solana.Base.Result.{ok, >>=-eq-ok, ok-injective}
use zkasper_solana.Base.Memory.{zeros}
use zkasper_solana.Processor.{Host, create_pda, allocate_funded}
use zkasper_solana.Runtime.Accounts.{Account, Ledger, AccountInfo, Same}
use zkasper_solana.State.LightClient.{Pubkey}

Same-refl : (a : Account) → Same a a
Same-refl a = record { bytes = refl; owner = refl }

Same-trans : (a b c : Account) → Same a b → Same b c → Same a c
Same-trans a b c p q = record { bytes = q.bytes ∙ p.bytes; owner = q.owner ∙ p.owner }

module _ (h : Host) (program_id : Pubkey) where
  -- `after` has `target` as a new account of the program with `space` bytes of zeros.
  pub record Created (target : AccountInfo) (space : ℕ) (before after : Ledger) : Type 0 where
    pub was_empty : (before target.key).bytes ≡ []
    pub blank : (after target.key).bytes ≡ zeros space
    pub owned : (after target.key).owner ≡ program_id
    pub others : (key : Pubkey) → key ≢ target.key → Same (before key) (after key)

  topped_up :
      (payer target : AccountInfo) (amount : ℕ) (before after : Ledger)
      → (if ltb 0 amount then h.system.transfer payer target amount before else ok before)
        ≡ ok after
      → (key : Pubkey) → Same (before key) (after key)
  topped_up payer target amount before after e key = elim (Bool-cases (ltb 0 amount)) [
    | inl some_due ↦ h.system.transferred payer target amount before after (rw some_due at e) key
    | inr none_due ↦
        let same : before ≡ after = ok-injective (rw none_due at e) in
        subst (λ l. Same (before key) (l key)) same (Same-refl (before key))
  ]

  allocate_funded-Created :
      (payer target : AccountInfo) (space : ℕ) (seeds : List Bytes) (rent : ℕ)
      (before after : Ledger)
      → allocate_funded h program_id payer target space seeds rent before ≡ ok after
      → Created target space before after
  unfolding allocate_funded
  allocate_funded-Created payer target space seeds rent before after e =
      let (paid, e0, e1) =
        >>=-eq-ok
          (if ltb 0 (rent - (before target.key).lamports)
            then h.system.transfer payer target (rent - (before target.key).lamports) before
            else ok before)
          _ e in
      let (allocated, e2, e3) = >>=-eq-ok (h.system.allocate target space seeds paid) _ e1 in
      let same = topped_up payer target (rent - (before target.key).lamports) before paid e0 in
      let alloc = h.system.allocated target space seeds paid allocated e2 in
      let asg = h.system.assigned target program_id seeds allocated after e3 in
      record {
        was_empty = sym (same target.key).bytes ∙ alloc.0;
        blank = asg.1 ∙ alloc.1;
        owned = asg.0;
        others = λ key ne.
            Same-trans (before key) (allocated key) (after key)
              (Same-trans (before key) (paid key) (allocated key) (same key) (alloc.2 key ne))
              (asg.2 key ne);
      }

  -- Whether or not the target holds lamports already, `create_pda` that succeeds has made a new
  -- account of the program with the space asked for, out of one that had no data, and left the data
  -- and the owner of every other account as they were.
  pub create_pda-Created :
      (payer target : AccountInfo) (space : ℕ) (seeds : List Bytes) (before after : Ledger)
      → create_pda h program_id payer target space seeds before ≡ ok after
      → Created target space before after
  unfolding create_pda
  create_pda-Created payer target space seeds before after e =
      let (minimum, e0, e1) = >>=-eq-ok h.system.minimum_balance _ e in
      elim (Bool-cases ((before target.key).lamports == 0)) [
        | inl unfunded ↦
            let made =
              h.system.created payer target (minimum space) space program_id seeds before after
                (rw unfunded at e1) in
            record { was_empty = made.0; blank = made.1; owned = made.2; others = made.3 }
        | inr funded ↦
            allocate_funded-Created payer target space seeds (minimum space) before after
              (rw funded at e1)
      ]
