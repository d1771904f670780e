-- ===== src/Fixture.antt =====
-- program-tests/src/lib.rs: the fixture of the test suite, read from the text of a wrap artifact.
pub mod Agrees
use zkasper_solana.Base.{
  ℕ, ◌+◌, ◌==◌, bytes_eq, length, Bool, true, false, Option, some, none, List, [], ◌∷◌,
  if◌then◌else◌,
}
use zkasper_solana.Base.Slices.{Bytes}
use zkasper_solana.Base.Result.{Result, ok, err, panic, ◌>>=◌, ◌>>◌, unwrap}
use zkasper_solana.Base.Layout.{concat}
use zkasper_solana.Base.Memory.{read, zeros, chunks_exact}
use zkasper_solana.Base.Text.{codes, find}
use zkasper_solana.Cli.{gather}
use zkasper_solana.Plonk.Backend.{Syscalls}
use zkasper_solana.Plonk.Encoding.{compress_proof}
use zkasper_solana.Plonk.Vk.{root_c_vadcop_final, public_values_len}
use zkasper_solana.Wire.{
  FinalizationOutput, finalization_public_bytes, from_public_bytes, public_values,
}

pub record Fixture : Type 0 where
  pub program_vk : Bytes
  pub public_values : Bytes
  pub proof : Bytes
  pub compressed : Bytes
  pub output : FinalizationOutput

-- Every refusal is a panic: `.expect(…)` on a result, and `assert!`.
abbrev pub expect : {E F A : Type 0} → Result F A → Result E A
expect (ok a) = ok a
expect (err e) = panic
expect panic = panic

abbrev pub assert : {E : Type 0} → Bool → Result E (Unit {0})
assert true = ok tt
assert false = panic

-- `.try_into()` of a vector to an array of `n` bytes, and `.expect(…)`
abbrev pub array : {E : Type 0} → ℕ → Bytes → Result E Bytes
array n bytes = if length bytes == n then ok bytes else panic

-- `hex` is `hex::decode`.
module _ (hex : Bytes → Option Bytes) where
  unfoldable pub field : {E : Type 0} → Bytes → Bytes → Result E Bytes
  field raw name = do
    found ← unwrap (find name raw)
    rest ← read (found + length name) (length raw) raw
    prefix ← unwrap (find (codes "0x") rest)
    let start = prefix + 2
    digits ← read start (length rest) rest
    close ← unwrap (find (codes "\"") digits)
    word ← read start (close + start) rest
    unwrap (hex word)

  -- The halves of the window's slots, as the client gathers them.
  unfoldable pub fixture : Syscalls → Bytes → Result (Unit {0}) Fixture
  fixture calls raw = do
    root ← field raw (codes "rootCVadcopFinal")
    assert (bytes_eq root root_c_vadcop_final)
    publics ← field raw (codes "publicValues")
    window ← array public_values_len publics
    key ← field raw (codes "programVK")
    program_vk ← array 32 key
    committed ← gather (chunks_exact 4 (zeros finalization_public_bytes)) (chunks_exact 8 window)
    output ← from_public_bytes (concat committed [])
    rebuilt ← public_values output program_vk
    assert (bytes_eq rebuilt window)
    proof ← field raw (codes "proofBytes")
    compressed ← expect (compress_proof calls proof)
    ok (record {
      program_vk = program_vk;
      public_values = window;
      proof = proof;
      compressed = compressed;
      output = output;
    })
