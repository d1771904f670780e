-- ===== src/Cli/Commands.antt =====
-- cli/src/main.rs, `main`: what each command does with its arguments.
use zkasper_solana.Base.{
  ℕ, ◌-◌, ◌^◌, leb, ltb, bytes_eq, length, get_elem?, List, Option, none, some, if◌then◌else◌,
}
use zkasper_solana.Base.Slices.{Bytes}
use zkasper_solana.Base.Result.{Result, ok, err, panic, ◌>>=◌, ◌>>◌, refuse_if, ok_or, map_err}
use zkasper_solana.Base.Memory.{zeros}
use zkasper_solana.Base.Text.{codes, parse}
use zkasper_solana.Cli.Artifact.{Dies, Wrap, read_wrap, parse_root, read_keypair}
use zkasper_solana.Instruction.Build
use zkasper_solana.Plonk.Backend.{Syscalls}
use zkasper_solana.Runtime.Address.{Derivation, light_client_address, finalization_ring_address}
use zkasper_solana.State.LightClient
use zkasper_solana.State.LightClient.{Pubkey, LightClientState}
use zkasper_solana.Wire.{FinalizationOutput}

-- What the client runs on: files, the RPC's `get_account_data`, and the libraries it calls.
pub record Shell : Type 0 where
  pub file : Bytes → Option Bytes
  pub account : Pubkey → Option Bytes
  pub hex : Bytes → Option Bytes
  pub keypair : Bytes → Option Pubkey
  pub derivation : Derivation
  pub calls : Syscalls
  -- `zkasper_solana_program::id()`
  pub program_id : Pubkey

-- What the process does with the cluster, or prints.
pub data Action : Type 0 where
  -- `send`: one transaction with the instruction
  send : Build.Instruction → Action
  -- `send`, and the posting record of the output
  post : Build.Instruction → FinalizationOutput → Action
  -- the client's address, its state and its ring's address
  shown : Pubkey → LightClientState → Pubkey → Action
  -- the two addresses with their bumps
  addresses : Pubkey × ℕ → Pubkey × ℕ → Action

-- A subtraction of `u64`s under `overflow-checks`.
unfoldable pub sub_u64 : {E : Type 0} → ℕ → ℕ → Result E ℕ
sub_u64 a b = if leb b a then ok (a - b) else panic

-- `args.get(3)`, or the artifact of the repository
abbrev pub path_or_default : Option Bytes → Bytes
path_or_default none = codes "fixtures/wrap-469993.json"
path_or_default (some path) = path

module _ (sh : Shell) where
  unfoldable pub wrap_at : Option Bytes → Result Dies Wrap
  wrap_at path = do raw ← ok_or tt (sh.file (path_or_default path)); read_wrap sh.hex sh.calls raw

  -- The arms of the match on the command.
  module _ (authority : Pubkey) where
    unfoldable pub init : Option Bytes → Result Dies Action
    init path = do
      wrap ← wrap_at path
      epoch ← sub_u64 wrap.output.finalized_epoch 1
      ok (
          send (
            Build.initialize sh.derivation sh.program_id authority
              wrap.output.accumulator_commitment (zeros 32) epoch (zeros 32) wrap.program_vk))

    unfoldable pub submit : Option Bytes → Result Dies Action
    submit path = do
      wrap ← wrap_at path
      instruction ←
          Build.submit_finalization sh.derivation sh.program_id authority wrap.proof wrap.output
      ok (post instruction wrap.output)

    unfoldable pub show : Result Dies Action
    show = do
      let client = light_client_address sh.derivation sh.program_id authority
      bytes ← ok_or tt (sh.account client.0)
      state ← map_err (λ refused. tt) (LightClient.unpack bytes)
      let ring = finalization_ring_address sh.derivation sh.program_id authority
      ok (shown client.0 state ring.0)

    unfoldable pub assert_finalized : List Bytes → Result Dies Action
    assert_finalized args = do
      text ← ok_or tt (get_elem? args 3)
      epoch ← ok_or tt (parse (2 ^ 64) text)
      root_text ← ok_or tt (get_elem? args 4)
      root ← parse_root sh.hex root_text
      ok (send (Build.assert_finalized sh.derivation sh.program_id authority epoch root))

    unfoldable pub assert_anchored : List Bytes → Result Dies Action
    assert_anchored args = do
      text ← ok_or tt (get_elem? args 3)
      root ← parse_root sh.hex text
      ok (send (Build.assert_anchored sh.derivation sh.program_id authority root))

    unfoldable pub address : Action
    address =
        addresses (light_client_address sh.derivation sh.program_id authority)
          (finalization_ring_address sh.derivation sh.program_id authority)

    unfoldable pub run : Bytes → List Bytes → Result Dies Action
    run command args =
        if bytes_eq command (codes "init")
        then init (get_elem? args 3)
        else if bytes_eq command (codes "submit")
        then submit (get_elem? args 3)
        else if bytes_eq command (codes "show")
        then show
        else if bytes_eq command (codes "assert-finalized")
        then assert_finalized args
        else if bytes_eq command (codes "assert-anchored")
        then assert_anchored args
        else if bytes_eq command (codes "address")
        then ok address
        else err tt

  unfoldable pub main : List Bytes → Result Dies Action
  main args = do
    refuse_if (ltb (length args) 3) tt
    path ← ok_or tt (get_elem? args 1)
    text ← ok_or tt (sh.file path)
    authority ← read_keypair sh.keypair text
    command ← ok_or tt (get_elem? args 2)
    run authority command args
