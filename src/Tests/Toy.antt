-- ===== src/Tests/Toy.antt =====
-- A host with addresses by concatenation, cut to 32 bytes, a system program on the ledger, and a
-- proof system whose pairing always holds.
use zkasper_solana.Base.{
  ℕ, ◌≡◌, ◌≢◌, refl, sym, ap, ◌∙◌, ◌+◌, ◌-◌, ◌*◌, ◌%◌, ◌==◌, List, [], ◌∷◌, ◌++◌, take, some,
  Bool-cases, inl, inr, bytes_eq, bytes_eq→eq, bytes_eq-false→ne, replicate, arith, subst,
}
use zkasper_solana.Base.Slices.{Bytes}
use zkasper_solana.Base.Result.{Result, ok, err, ok-injective}
use zkasper_solana.Base.Memory.{zeros}
use zkasper_solana.Errors.{ProgramError, from_runtime}
use zkasper_solana.Plonk.Backend.{ScalarField, BaseField, Syscalls}
use zkasper_solana.Processor.{Host}
use zkasper_solana.Runtime.Address.{Derivation}
use zkasper_solana.Runtime.Accounts.{
  Account, Ledger, System, Same, store, store_same, store_apart, with_bytes,
}
use zkasper_solana.State.LightClient.{Pubkey}

abbrev joined : List Bytes → Bytes
joined [] = []
joined (x ∷ xs) = x ++ joined xs

abbrev address : List Bytes → Pubkey
address seeds = take 32 (joined seeds ++ replicate 32 0)

abbrev pub toy_derivation : Derivation
toy_derivation = record {
  find_program_address = λ seeds program_id. (address (seeds ++ (255 ∷ []) ∷ []), 255);
  create_program_address = λ seeds program_id. some (address seeds);
  found_is_created = λ seeds program_id. refl;
  found_bump_fits = λ seeds program_id. omega arith;
}

abbrev put : ℕ → Account → Account
put lamports account = record { lamports = lamports; bytes = account.bytes; owner = account.owner }

pub Same-put :
    (key : Pubkey) (lamports : ℕ) (ledger : Ledger) (at : Pubkey)
    → Same (ledger at) (store key (put lamports (ledger key)) ledger at)
Same-put key lamports ledger at = elim (Bool-cases (bytes_eq at key)) [
  | inl same ↦
      rw (bytes_eq→eq at key same, store_same key (put lamports (ledger key)) ledger)
        (record { bytes = refl; owner = refl })
  | inr other ↦
      rw (store_apart key (put lamports (ledger key)) ledger at (bytes_eq-false→ne at key other))
        (record { bytes = refl; owner = refl })
]

pub Same-store :
    (key : Pubkey) (account : Account) (ledger : Ledger) (at : Pubkey)
    → at ≢ key
    → Same (ledger at) (store key account ledger at)
Same-store key account ledger at ne =
    rw (store_apart key account ledger at ne) (record { bytes = refl; owner = refl })

abbrev refused : ProgramError
refused = from_runtime 0

-- Space for an account without data.
unfoldable pub give : Pubkey → Account → Ledger → Bytes → Result ProgramError Ledger
give key account ledger [] = ok (store key account ledger)
give key account ledger (x ∷ xs) = err refused

pub give-eq-ok :
    (key : Pubkey) (account : Account) (before : Ledger) (bytes : Bytes) (after : Ledger)
    → give key account before bytes ≡ ok after
    → (bytes ≡ []) × (store key account before ≡ after)
unfolding give
give-eq-ok key account before [] after e = (refl, cc)
give-eq-ok key account before (x ∷ xs) after e = cc

abbrev pub toy_system : System
toy_system = record {
  system_id = zeros 32;
  minimum_balance = ok (λ space. 890880 + 6960 * space);
  create_account = λ payer target lamports space owner seeds ledger.
      give target.key (record { lamports = lamports; bytes = zeros space; owner = owner }) ledger
        (ledger target.key).bytes;
  transfer = λ payer target amount ledger.
      ok
        (store target.key (put ((ledger target.key).lamports + amount) (ledger target.key)) ledger);
  allocate = λ target space seeds ledger.
      give target.key (with_bytes (ledger target.key) (zeros space)) ledger
        (ledger target.key).bytes;
  assign = λ target owner seeds ledger. ok (
      store target.key
        (record {
          lamports = (ledger target.key).lamports;
          bytes = (ledger target.key).bytes;
          owner = owner;
        })
        ledger);
  created = λ payer target lamports space owner seeds before after e.
      let account : Account = record { lamports = lamports; bytes = zeros space; owner = owner } in
      let (empty, stored) =
        give-eq-ok target.key account before (before target.key).bytes after e in
      (
        empty,
        ap (λ l. (l target.key).bytes) (sym stored)
            ∙ ap (λ a. a.bytes) (store_same target.key account before),
        ap (λ l. (l target.key).owner) (sym stored)
            ∙ ap (λ a. a.owner) (store_same target.key account before),
        λ key ne.
            subst (λ l. Same (before key) (l key)) stored
              (Same-store target.key account before key ne),
      );
  transferred = λ payer target amount before after e key.
      subst (λ l. Same (before key) (l key)) (ok-injective e)
        (Same-put target.key ((before target.key).lamports + amount) before key);
  allocated = λ target space seeds before after e.
      let account = with_bytes (before target.key) (zeros space) in
      let (empty, stored) =
        give-eq-ok target.key account before (before target.key).bytes after e in
      (
        empty,
        ap (λ l. (l target.key).bytes) (sym stored)
            ∙ ap (λ a. a.bytes) (store_same target.key account before),
        λ key ne.
            subst (λ l. Same (before key) (l key)) stored
              (Same-store target.key account before key ne),
      );
  assigned = λ target owner seeds before after e.
      let account : Account = record {
        lamports = (before target.key).lamports;
        bytes = (before target.key).bytes;
        owner = owner;
      } in
      let stored : store target.key account before ≡ after = ok-injective e in
      (
        ap (λ l. (l target.key).owner) (sym stored)
            ∙ ap (λ a. a.owner) (store_same target.key account before),
        ap (λ l. (l target.key).bytes) (sym stored)
            ∙ ap (λ a. a.bytes) (store_same target.key account before),
        λ key ne.
            subst (λ l. Same (before key) (l key)) stored
              (Same-store target.key account before key ne),
      );
}

abbrev toy_scalar : ScalarField
toy_scalar = record {
  Fr = ℕ;
  add = λ a b. (a + b) % 101;
  sub = λ a b. (a + 101 - b) % 101;
  mul = λ a b. (a * b) % 101;
  neg = λ a. (101 - a) % 101;
  from_int = λ a. a % 101;
  inverse = λ a. some 1;
  from_bigint = λ limbs. some 7;
  into_bigint = λ a. a ∷ 0 ∷ 0 ∷ 0 ∷ [];
  eq = λ a b. a == b;
  to_bytes_be = λ a. replicate 32 a;
}

abbrev toy_base : BaseField
toy_base = record {
  Fq = ℕ;
  add = λ a b. (a + b) % 103;
  mul = λ a b. (a * b) % 103;
  neg = λ a. (103 - a) % 103;
  from_int = λ a. a % 103;
  eq = λ a b. a == b;
  is_zero = λ a. a == 0;
  from_bigint = λ limbs. some 5;
  from_be_bytes_mod_order = λ bytes. 5;
  to_bytes_be = λ a. replicate 32 1;
}

abbrev toy_syscalls : Syscalls
toy_syscalls = record {
  g1_addition = λ bytes. some (replicate 64 2);
  g1_multiplication = λ bytes. some (replicate 64 3);
  pairing = λ bytes. some (1 ∷ []);
  g1_compress = λ bytes. some (replicate 32 4);
  g1_decompress = λ bytes. some (replicate 64 4);
  sha256 = λ bytes. replicate 32 5;
  keccak = λ bytes. replicate 32 6;
}

abbrev pub toy : Host
toy = record {
  derivation = toy_derivation;
  system = toy_system;
  backend = record { scalar = toy_scalar; base = toy_base; syscalls = toy_syscalls };
}
