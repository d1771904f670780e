-- ===== src/Runtime/Accounts.antt =====
-- The account table, the accounts that an instruction names, and the system program's calls on them.
use zkasper_solana.Base.{
  ℕ, ◌≡◌, ◌≢◌, ◌+◌, ◌^◌, Bool, ltb, bytes_eq, bytes_eq_self, bytes_eq_ne, List, [], ◌∷◌,
  if◌then◌else◌,
}
use zkasper_solana.Base.Slices.{Bytes}
use zkasper_solana.Base.Result.{Result, ok, err, panic}
use zkasper_solana.Base.Memory.{zeros}
use zkasper_solana.Errors.{ProgramError, not_enough_account_keys}
use zkasper_solana.State.LightClient.{Pubkey}

pub record Account : Type 0 where
  pub lamports : ℕ
  -- the account's data
  pub bytes : Bytes
  pub owner : Pubkey

-- Every address has an account. Two `AccountInfo`s with one key are the same account, as they are
-- when a transaction names an address twice.
abbrev pub Ledger : Type 0
Ledger = Pubkey → Account

pub record AccountInfo : Type 0 where
  pub key : Pubkey
  pub is_signer : Bool

unfoldable pub store : Pubkey → Account → Ledger → Ledger
store key account ledger at = if bytes_eq at key then account else ledger at

pub store_same :
    (key : Pubkey) (account : Account) (ledger : Ledger) → store key account ledger key ≡ account
unfolding store
store_same key account ledger = rw (bytes_eq_self key)

pub store_apart :
    (key : Pubkey) (account : Account) (ledger : Ledger) (at : Pubkey)
    → at ≢ key
    → store key account ledger at ≡ ledger at
unfolding store
store_apart key account ledger at ne = rw (bytes_eq_ne at key ne)

-- What a borrow of the account's data leaves behind.
abbrev pub with_bytes : Account → Bytes → Account
with_bytes account bytes = record {
  lamports = account.lamports;
  bytes = bytes;
  owner = account.owner;
}

abbrev pub set_bytes : Pubkey → Bytes → Ledger → Ledger
set_bytes key bytes ledger = store key (with_bytes (ledger key) bytes) ledger

abbrev pub next_account_info :
    List AccountInfo → Result ProgramError (AccountInfo × List AccountInfo)
next_account_info [] = err not_enough_account_keys
next_account_info (info ∷ rest) = ok (info, rest)

-- An addition of `u64`s under `overflow-checks`.
unfoldable pub add_u64 : {E : Type 0} → ℕ → ℕ → Result E ℕ
add_u64 a b = if ltb (a + b) (2 ^ 64) then ok (a + b) else panic

-- The account at an address keeps its data and its owner.
pub record Same (before after : Account) : Type 0 where
  pub bytes : after.bytes ≡ before.bytes
  pub owner : after.owner ≡ before.owner

-- `Rent::get` and the instructions of the system program, with what the program relies on: a call
-- that succeeds has its effect on the target and leaves the data and the owner of every other
-- account alone, and space is only ever given to an account that has no data.
pub record System : Type 0 where
  pub system_id : Pubkey
  pub minimum_balance : Result ProgramError (ℕ → ℕ)
  -- payer, target, lamports, space, owner, and the seeds that sign for the target
  pub create_account :
      AccountInfo → AccountInfo → ℕ → ℕ → Pubkey → List Bytes → Ledger → Result ProgramError Ledger
  pub transfer : AccountInfo → AccountInfo → ℕ → Ledger → Result ProgramError Ledger
  pub allocate : AccountInfo → ℕ → List Bytes → Ledger → Result ProgramError Ledger
  pub assign : AccountInfo → Pubkey → List Bytes → Ledger → Result ProgramError Ledger
  pub created :
      (payer target : AccountInfo) (lamports space : ℕ) (owner : Pubkey) (seeds : List Bytes)
      (before after : Ledger)
      → create_account payer target lamports space owner seeds before ≡ ok after
      → ((before target.key).bytes ≡ [])
        × ((after target.key).bytes ≡ zeros space)
        × ((after target.key).owner ≡ owner)
        × ((key : Pubkey) → key ≢ target.key → Same (before key) (after key))
  pub transferred :
      (payer target : AccountInfo) (amount : ℕ) (before after : Ledger)
      → transfer payer target amount before ≡ ok after
      → (key : Pubkey) → Same (before key) (after key)
  pub allocated :
      (target : AccountInfo) (space : ℕ) (seeds : List Bytes) (before after : Ledger)
      → allocate target space seeds before ≡ ok after
      → ((before target.key).bytes ≡ [])
        × ((after target.key).bytes ≡ zeros space)
        × ((key : Pubkey) → key ≢ target.key → Same (before key) (after key))
  pub assigned :
      (target : AccountInfo) (owner : Pubkey) (seeds : List Bytes) (before after : Ledger)
      → assign target owner seeds before ≡ ok after
      → ((after target.key).owner ≡ owner)
        × ((after target.key).bytes ≡ (before target.key).bytes)
        × ((key : Pubkey) → key ≢ target.key → Same (before key) (after key))
