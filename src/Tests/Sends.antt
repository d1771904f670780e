-- ===== src/Tests/Sends.antt =====
-- The theorem on what the client sends, at one command line.
use zkasper_solana.Base.{
  ℕ, ◌≡◌, refl, subst, Bool-cases, inl, inr, replicate, List, [], ◌∷◌, Option, some, none, bytes_eq,
  if◌then◌else◌,
}
use zkasper_solana.Base.Slices.{Bytes}
use zkasper_solana.Base.Result.{ok}
use zkasper_solana.Base.Gives.{HasBytes}
use zkasper_solana.Base.Text.{
  codes, parse, parse_digits, split_on, starts_with, strip_any, trim, trim_back, trim_copies,
  trim_front, trim_start_matches, trim_end_matches,
}
use zkasper_solana.Base.Words.{IsArray}
use zkasper_solana.Cli.Artifact.{read_keypair, parse_bytes, parse_root}
use zkasper_solana.Cli.Commands.{Shell, send, assert_finalized, run, main}
use zkasper_solana.Cli.Sends.{Understood, main-Understood}
use zkasper_solana.Cli.Typed.{Decoders}
use zkasper_solana.Instruction.Build
use zkasper_solana.Tests.Client.{program, owner, vk}
use zkasper_solana.Tests.LongRun.{array}
use zkasper_solana.Tests.Toy.{toy}

abbrev one_word : Bytes → Option Bytes
one_word text = if bytes_eq text (codes "K") then some vk else none

abbrev files : Bytes → Option Bytes
files path = if bytes_eq path (codes "id.json") then some (codes " [7, 255]") else none

abbrev shell : Shell
shell = record {
  file = files;
  account = λ key. none;
  hex = one_word;
  keypair = λ bytes. some owner.key;
  derivation = toy.derivation;
  calls = toy.backend.syscalls;
  program_id = program;
}

abbrev command_line : List Bytes
command_line =
    codes "url" ∷ codes "id.json" ∷ codes "assert-finalized" ∷ codes "+470" ∷ codes "0xK" ∷ []

sent :
    main shell command_line
    ≡ ok (send (Build.assert_finalized toy.derivation program owner.key 470 vk))
unfolding main read_keypair parse_bytes parse_root run assert_finalized parse parse_digits split_on
    starts_with strip_any trim trim_back trim_copies trim_front trim_start_matches trim_end_matches
    bytes_eq
sent = refl

same_array : (n : ℕ) (xs out : Bytes) → IsArray n xs → some xs ≡ some out → IsArray n out
same_array n xs out h e = subst (IsArray n) (some-injective e) h
  where
    some-injective : {x y : Bytes} → some x ≡ some y → x ≡ y
    some-injective e = cc

decodes : (text bytes : Bytes) → one_word text ≡ some bytes → HasBytes bytes
decodes text bytes e = elim (Bool-cases (bytes_eq text (codes "K"))) [
  | inl known ↦ (same_array 32 vk bytes (array 32 vk refl refl) (rw known at e)).bytes
  | inr other ↦ cc (rw other at e)
]

compresses :
    (point word : Bytes) → toy.backend.syscalls.g1_compress point ≡ some word → IsArray 32 word
compresses point word e =
    same_array 32 (replicate 32 4) word (array 32 (replicate 32 4) refl refl) e

keys : (bytes key : Bytes) → shell.keypair bytes ≡ some key → IsArray 32 key
keys bytes key e = same_array 32 owner.key key (array 32 owner.key refl refl) e

decoders : Decoders one_word toy.backend.syscalls
decoders = record { decodes = decodes; compresses = compresses }

main-Understood_example :
    Understood shell (send (Build.assert_finalized toy.derivation program owner.key 470 vk))
main-Understood_example =
    main-Understood shell decoders keys command_line
      (send (Build.assert_finalized toy.derivation program owner.key 470 vk)) sent
