-- ===== src/Cli/Posting.antt =====
-- cli/src/main.rs: the posting record of a submission, from what the RPC answers.
use zkasper_solana.Base.{
  ℕ, zero, suc, ◌-◌, Bool, bytes_eq, List, [], ◌∷◌, ◌++◌, Option, none, some, if◌then◌else◌,
}
use zkasper_solana.Base.Slices.{Bytes}
use zkasper_solana.Base.Result.{Result, ok, err, ◌>>=◌}
use zkasper_solana.Base.Text.{codes}
use zkasper_solana.Cli.Artifact.{Dies}
use zkasper_solana.Wire.{FinalizationOutput}

-- `serde_json::Value`, and its lookups by key and by place, which answer null where nothing is.
pub record Json : Type 1 where
  pub Value : Type 0
  pub at_key : Value → Bytes → Value
  pub at_place : Value → ℕ → Value
  pub as_u64 : Value → Option ℕ
  pub is_null : Value → Bool

-- The fields of the record but the time.
pub record Record : Type 0 where
  pub chain : Bytes
  pub cluster : Bytes
  pub program : Bytes
  pub epoch : ℕ
  pub finalized_root : Bytes
  pub finalized_state_root : Bytes
  pub signature : Bytes
  pub slot : ℕ
  pub compute_units : ℕ
  pub fee_lamports : ℕ
  pub rent_lamports : ℕ
  pub lamports_spent : ℕ
  pub status : Bytes
  pub explorer : Bytes

-- `.unwrap_or_default()`
abbrev or_zero : Option ℕ → ℕ
or_zero none = 0
or_zero (some n) = n

-- The name of the chain with the genesis hash that the RPC reports, if it reports one.
unfoldable pub cluster : Option Bytes → Bytes
cluster none = codes "localnet"
cluster (some genesis) =
    if bytes_eq genesis (codes "5eykt4UsFv8P8NJdTREpY1vzqKqZKvdpKuc147dw2N9d")
    then codes "mainnet-beta"
    else if bytes_eq genesis (codes "EtWTRABZaYq6iMfeYKouRu166VU2xqa1wcaWoxPkrZBG")
    then codes "devnet"
    else if bytes_eq genesis (codes "4uhcVJyU9pJkvQyS88uRDiswHXSCkY3zQawwpjk2NsNY")
    then codes "testnet"
    else codes "localnet"

module _ (j : Json) where
  open j use {Value}

  -- The RPC's answers to the queries, in turn; `none` is an error or a null.
  unfoldable pub poll : ℕ → (ℕ → Option Value) → ℕ → Result Dies Value
  poll zero answers i = err tt
  poll (suc turns) answers i = let rest = poll turns answers (suc i) in found rest (answers i)
    where
      found : Result Dies Value → Option Value → Result Dies Value
      found rest none = rest
      found rest (some value) = ok value

  unfoldable pub receipt : (ℕ → Option Value) → Result Dies Value
  receipt answers = poll 30 answers 0

  unfoldable pub u64_at : Value → List Bytes → ℕ
  u64_at value [] = or_zero (j.as_u64 value)
  u64_at value (key ∷ path) = u64_at (j.at_key value key) path

  -- What the payer's account lost, or the fee if the balances are not there.
  abbrev lost : Option ℕ → Option ℕ → ℕ → ℕ
  lost (some pre) (some post) fee = pre - post
  lost none post fee = fee
  lost (some pre) none fee = fee

  abbrev balance : Value → Bytes → Option ℕ
  balance meta key = j.as_u64 (j.at_place (j.at_key meta key) 0)

  -- `program` is the program's address in base 58, and `hex` is `hex::encode`.
  unfoldable pub posting :
      (Bytes → Bytes)
      → Bytes
      → (ℕ → Option Value)
      → Option Bytes
      → Bytes
      → FinalizationOutput
      → Result Dies Record
  posting hex program answers genesis signature output = do
    tx ← receipt answers
    let meta = j.at_key tx (codes "meta")
    let fee = u64_at meta (codes "fee" ∷ [])
    let spent = lost (balance meta (codes "preBalances")) (balance meta (codes "postBalances")) fee
    let name = cluster genesis
    let query = if bytes_eq name (codes "mainnet-beta") then [] else codes "?cluster=" ++ name
    ok (record {
      chain = codes "solana-" ++ name;
      cluster = name;
      program = program;
      epoch = output.finalized_epoch;
      finalized_root = codes "0x" ++ hex output.finalized_root;
      finalized_state_root = codes "0x" ++ hex output.finalized_state_root;
      signature = signature;
      slot = u64_at tx (codes "slot" ∷ []);
      compute_units = u64_at meta (codes "computeUnitsConsumed" ∷ []);
      fee_lamports = fee;
      rent_lamports = spent - fee;
      lamports_spent = spent;
      status =
          if j.is_null (j.at_key meta (codes "err")) then codes "confirmed" else codes "failed";
      explorer = codes "https://explorer.solana.com/tx/" ++ (signature ++ query);
    })
