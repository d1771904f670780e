-- ===== src/Cli/Artifact.antt =====
-- cli/src/main.rs: the wrap artifact, the key pair and the arguments, read from text. Every error is
-- `die`, which ends the process with a message.
use zkasper_solana.Base.{◌+◌, ◌^◌, ◌==◌, not, length, List, [], ◌∷◌, Option}
use zkasper_solana.Base.Slices.{Bytes}
use zkasper_solana.Base.Result.{Result, ok, ◌>>=◌, ◌>>◌, refuse_if, ok_or, map_err}
use zkasper_solana.Base.Memory.{read}
use zkasper_solana.Base.Text.{
  codes, find, trim, trim_start_matches, trim_end_matches, split_on, parse,
}
use zkasper_solana.Cli.{wrap_output}
use zkasper_solana.Plonk.Backend.{Syscalls}
use zkasper_solana.Plonk.Encoding.{compress_proof}
use zkasper_solana.State.LightClient.{Pubkey}
use zkasper_solana.Wire.{FinalizationOutput}

-- What `die` never returns.
abbrev pub Dies : Type 0
Dies = Unit {0}

-- `.try_into()` of a vector to `[u8; 32]`
abbrev pub array32 : Bytes → Result Dies Bytes
array32 bytes = do refuse_if (not (length bytes == 32)) tt; ok bytes

pub record Wrap : Type 0 where
  pub program_vk : Bytes
  pub proof : Bytes
  pub output : FinalizationOutput

-- `hex` is `hex::decode`.
module _ (hex : Bytes → Option Bytes) where
  unfoldable pub wrap_field : Bytes → Bytes → Result Dies Bytes
  wrap_field raw name = do
    found ← ok_or tt (find name raw)
    rest ← read (found + length name) (length raw) raw
    prefix ← ok_or tt (find (codes "0x") rest)
    let start = prefix + 2
    digits ← read start (length rest) rest
    close ← ok_or tt (find (codes "\"") digits)
    word ← read start (close + start) rest
    ok_or tt (hex word)

  -- `read_wrap`, once the file is read.
  unfoldable pub read_wrap : Syscalls → Bytes → Result Dies Wrap
  read_wrap calls raw = do
    publics ← wrap_field raw (codes "publicValues")
    output ← wrap_output publics
    key ← wrap_field raw (codes "programVK")
    program_vk ← array32 key
    expanded ← wrap_field raw (codes "proofBytes")
    proof ← map_err (λ refused. tt) (compress_proof calls expanded)
    ok (record { program_vk = program_vk; proof = proof; output = output })

  unfoldable pub parse_root : Bytes → Result Dies Bytes
  parse_root text = do bytes ← ok_or tt (hex (trim_start_matches (codes "0x") text)); array32 bytes

-- The bytes of a list of numbers, `.map(|s| s.trim().parse())`.
unfoldable pub parse_bytes : List Bytes → Result Dies Bytes
parse_bytes [] = ok []
parse_bytes (piece ∷ pieces) = do
  byte ← ok_or tt (parse (2 ^ 8) (trim piece))
  rest ← parse_bytes pieces
  ok (byte ∷ rest)

-- `read_keypair`, once the file is read. `keypair` is `Keypair::try_from` with the public key of what
-- it returns, which is all that the client reads of it.
unfoldable pub read_keypair : (Bytes → Option Pubkey) → Bytes → Result Dies Pubkey
read_keypair keypair text = do
  let inner = trim_end_matches (codes "]") (trim_start_matches (codes "[") (trim text))
  bytes ← parse_bytes (split_on 44 inner)
  ok_or tt (keypair bytes)
