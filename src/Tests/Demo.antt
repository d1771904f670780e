-- ===== src/Tests/Demo.antt =====
-- `init` and then `submit` of the artifact, on the toy host.
use zkasper_solana.Base.{◌≡◌, refl, ◌-◌, [], ◌∷◌, some, none, false, arith, bytes_eq}
use zkasper_solana.Base.Slices.{slice, copy_slice, set_byte}
use zkasper_solana.Base.Result.{Result, ok, err, panic}
use zkasper_solana.Base.Layout.{concat}
use zkasper_solana.Base.Memory.{write, write_byte, zeros}
use zkasper_solana.Base.Words.{to_le_bytes, from_le_bytes}
use zkasper_solana.Chain.Initialize.{Initialized}
use zkasper_solana.Cli.Artifact.{Dies}
use zkasper_solana.Cli.Commands.{Shell, send, post, wrap_at, init, submit, sub_u64}
use zkasper_solana.Cli.Demo.{init_then_submit}
use zkasper_solana.Cli.Typed.{IsWrap}
use zkasper_solana.Errors.{ProgramError}
use zkasper_solana.Fixture.Agrees.{fixture-read_wrap}
use zkasper_solana.Instruction.{unpack, unpack_initialize, split, ix_submit_finalization}
use zkasper_solana.Instruction.Build
use zkasper_solana.Processor.{
  assert_finalized, process_instruction, dispatch, initialize, expect_pda, create_pda,
  allocate_funded,
}
use zkasper_solana.Runtime.Address.{light_client_address, finalization_ring_address}
use zkasper_solana.Runtime.Accounts.{Ledger, store, add_u64}
use zkasper_solana.State.LightClient.{pack_into}
use zkasper_solana.State.Ring
use zkasper_solana.Tests.Artifacts.{artifact, hex, wrap, loaded, loads}
use zkasper_solana.Tests.Client.{
  program, owner, accounts, vk, proof, root, before_ledger, before-IsLedger, output_at, verified,
}
use zkasper_solana.Tests.LongRun.{array, keys, output_at-IsOutput}
use zkasper_solana.Tests.Toy.{toy, give}
use zkasper_solana.Wire.PublicBytes.{encode_output, public_bytes-encode_output}

abbrev shell : Shell
shell = record {
  file = λ path. some artifact;
  account = λ key. none;
  hex = hex;
  keypair = λ bytes. some owner.key;
  derivation = toy.derivation;
  calls = toy.backend.syscalls;
  program_id = program;
}

wrapped : wrap_at shell none ≡ ok wrap
unfolding wrap_at
wrapped = (fixture-read_wrap hex toy.backend.syscalls artifact loaded loads).0

wrap-IsWrap : IsWrap wrap
wrap-IsWrap = record {
  program_vk = array 32 vk refl refl;
  proof = array 480 proof refl refl;
  output = output_at-IsOutput 0 (omega arith);
}

abbrev first_ix : Build.Instruction
first_ix = Build.initialize toy.derivation program owner.key root (zeros 32) 0 (zeros 32) vk

abbrev second_ix : Build.Instruction
second_ix = record {
  program_id = program;
  accounts =
      Build.writable (light_client_address toy.derivation program owner.key).0 false
      ∷ Build.writable (finalization_ring_address toy.derivation program owner.key).0 false
      ∷ [];
  payload = concat ((ix_submit_finalization ∷ []) ∷ proof ∷ encode_output (output_at 0) ∷ []) [];
}

inits : init shell owner.key none ≡ ok (send first_ix)
unfolding init sub_u64 output_at
inits = rw wrapped

submits : submit shell owner.key none ≡ ok (post second_ix (output_at 0))
unfolding submit Build.submit_finalization
submits = rw (
  wrapped,
  public_bytes-encode_output {E = Dies} (output_at 0) (output_at-IsOutput 0 (omega arith)),
)

abbrev the : Ledger → Result ProgramError Ledger → Ledger
the other (ok ledger) = ledger
the other (err e) = other
the other panic = other

abbrev run_first : Result ProgramError Ledger
run_first = process_instruction toy program accounts first_ix.payload before_ledger

unfoldable mid : Ledger
mid = the before_ledger run_first

ran : run_first ≡ ok mid
unfolding mid process_instruction dispatch unpack unpack_initialize split slice initialize
    expect_pda create_pda allocate_funded give add_u64 pack_into Ring.init store bytes_eq write
    write_byte zeros copy_slice set_byte to_le_bytes from_le_bytes Build.initialize
ran = refl

init_then_submit_example :
    (made : Initialized toy program accounts wrap.output.accumulator_commitment
      (zeros 32)
      (wrap.output.finalized_epoch - 1)
      (zeros 32)
      wrap.program_vk
      before_ledger
      mid)
    × (after : Ledger) × (process_instruction toy program
          (made.state_info ∷ made.ring_info ∷ [])
          second_ix.payload
          mid
        ≡ ok after)
    × (assert_finalized toy program
          (made.ring_info ∷ [])
          made.authority.key
          wrap.output.finalized_epoch
          wrap.output.finalized_root
          after
        ≡ ok tt)
init_then_submit_example =
    init_then_submit toy shell owner.key none wrap wrapped wrap-IsWrap first_ix second_ix accounts
      [] before_ledger mid inits submits keys before-IsLedger ran (verified 0)
