-- ===== src/Tests/Sizes.antt =====
-- What the totality theorems ask of the toy host.
use zkasper_solana.Base.{◌≡◌, ◌≢◌, refl, [], ◌∷◌, length, some, replicate, ℕ}
use zkasper_solana.Base.Slices.{Bytes}
use zkasper_solana.Base.Result.{panic}
use zkasper_solana.Plonk.Total.{IsSized}
use zkasper_solana.Processor.Total.{SystemReturns}
use zkasper_solana.Runtime.Accounts.{Account, Ledger}
use zkasper_solana.State.LightClient.{Pubkey}
use zkasper_solana.Tests.Toy.{toy, toy_system, give}

sized_of : (n : ℕ) (xs out : Bytes) → length xs ≡ n → some xs ≡ some out → length out ≡ n
sized_of n xs out h e = cc

pub toy-IsSized : IsSized toy.backend
toy-IsSized = record {
  g1_addition = λ input out e. sized_of 64 (replicate 64 2) out refl e;
  g1_multiplication = λ input out e. sized_of 64 (replicate 64 3) out refl e;
  g1_compress = λ input out e. sized_of 32 (replicate 32 4) out refl e;
  g1_decompress = λ input out e. sized_of 64 (replicate 64 4) out refl e;
  sha256 = λ input. refl;
  keccak = λ input. refl;
  into_bigint = λ x. refl;
  to_bytes_be = λ y. refl;
}

give-ne-panic :
    (key : Pubkey) (account : Account) (ledger : Ledger) (bytes : Bytes)
    → give key account ledger bytes ≢ panic
unfolding give
give-ne-panic key account ledger [] e = cc
give-ne-panic key account ledger (x ∷ xs) e = cc

pub toy-SystemReturns : SystemReturns toy_system
toy-SystemReturns = record {
  minimum_balance = λ e. cc;
  create_account = λ payer target lamports space owner seeds ledger e.
      give-ne-panic target.key _ ledger (ledger target.key).bytes e;
  transfer = λ payer target amount ledger e. cc;
  allocate =
      λ target space seeds ledger e. give-ne-panic target.key _ ledger (ledger target.key).bytes e;
  assign = λ target owner seeds ledger e. cc;
}
