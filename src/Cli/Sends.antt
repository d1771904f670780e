-- ===== src/Cli/Sends.antt =====
-- What the client sends, and what the program decodes of it.
use zkasper_solana.Base.{
  ℕ, ◌≡◌, refl, ◌-◌, ◌^◌, leb, bytes_eq, get_elem?, length, List, Option, some, arith, ltb,
}
use zkasper_solana.Base.Slices.{Bytes}
use zkasper_solana.Base.Result.{ok, panic, ok_or, map_err, refuse_if}
use zkasper_solana.Base.Memory.{zeros}
use zkasper_solana.Base.Gives.{
  Gives, gives, gives_err, gives_panic, Gives-bind, Gives-any, Gives-ok_or, Gives-if, Gives-eq-ok,
}
use zkasper_solana.Base.Text.{codes, parse, parse-lt}
use zkasper_solana.Base.Words.{IsArray, IsU64}
use zkasper_solana.Cli.Artifact.{Dies, read_keypair, parse_bytes}
use zkasper_solana.Cli.Commands.{
  Shell, Action, send, post, shown, addresses, sub_u64, path_or_default, wrap_at, init, submit,
  show, assert_finalized, assert_anchored, address, run, main,
}
use zkasper_solana.Cli.Typed.{zeros-IsArray, IsWrap, Decoders, parse_root-Gives, read_wrap-Gives}
use zkasper_solana.Instruction
use zkasper_solana.Instruction.{ZkasperInstruction}
use zkasper_solana.Instruction.Build
use zkasper_solana.Instruction.Payload.{IsInstruction}
use zkasper_solana.Instruction.RoundTrip.{unpack-encode_instruction}
use zkasper_solana.Runtime.Address.{light_client_address}
use zkasper_solana.State.LightClient
use zkasper_solana.State.LightClient.{Pubkey}
use zkasper_solana.Wire.PublicBytes.{public_bytes-encode_output}

sub_u64-Gives : (a b : ℕ) → IsU64 a → Gives {E = Dies} IsU64 (sub_u64 a b)
unfolding sub_u64
sub_u64-Gives a b h =
    Gives-if (leb b a) (ok (a - b)) panic (λ enough. gives (omega arith)) λ short. gives_panic

module _ (sh : Shell) where
  -- An instruction to the program, of which the data decodes to `i`, a well-typed one.
  abbrev pub DecodesTo : Build.Instruction → ZkasperInstruction → Type 0
  DecodesTo ix i =
      (ix.program_id ≡ sh.program_id) × IsInstruction i × (Instruction.unpack ix.payload ≡ ok i)

  -- What is sent is understood: `send` some instruction of the program, `post` a submission of the
  -- output that the posting record is about.
  abbrev pub Understood : Action → Type 0
  Understood (send ix) = (i : ZkasperInstruction) × DecodesTo ix i
  Understood (post ix output) =
      (proof : Bytes) × DecodesTo ix (Instruction.submit_finalization proof output)
  Understood (shown client state ring) = Unit {0}
  Understood (addresses client ring) = Unit {0}

  module _ (d : Decoders sh.hex sh.calls) where
    wrap_at-Gives : (path : Option Bytes) → Gives IsWrap (wrap_at sh path)
    unfolding wrap_at
    wrap_at-Gives path =
        Gives-bind (Gives-any (ok_or tt (sh.file (path_or_default path))))
          λ raw u. read_wrap-Gives sh.hex sh.calls d raw

    module _ (authority : Pubkey) (k : IsArray 32 authority) where
      init-Gives : (path : Option Bytes) → Gives Understood (init sh authority path)
      unfolding init Build.initialize
      init-Gives path = Gives-bind (wrap_at-Gives path) λ w v.
          Gives-bind (sub_u64-Gives w.output.finalized_epoch 1 v.output.finalized_epoch) λ epoch h.
            let i =
              Instruction.initialize w.output.accumulator_commitment (zeros 32) epoch (zeros 32)
                w.program_vk in
            let typed : IsInstruction i =
              (v.output.accumulator_commitment, zeros-IsArray, h, zeros-IsArray, v.program_vk) in
            gives (i, (refl, typed, unpack-encode_instruction i typed))

      submit-Gives : (path : Option Bytes) → Gives Understood (submit sh authority path)
      unfolding submit Build.submit_finalization
      submit-Gives path = Gives-bind (wrap_at-Gives path) λ w v.
          let i = Instruction.submit_finalization w.proof w.output in
          let typed : IsInstruction i = (v.proof, v.output) in
          rw (public_bytes-encode_output {E = Dies} w.output v.output)
            (gives (w.proof, (refl, typed, unpack-encode_instruction i typed)))

      show-Gives : Gives Understood (show sh authority)
      unfolding show
      show-Gives =
          let client = light_client_address sh.derivation sh.program_id authority in
          Gives-bind (Gives-any (ok_or tt (sh.account client.0))) λ bytes u.
            Gives-bind (Gives-any (map_err (λ refused. tt) (LightClient.unpack bytes)))
              λ state u. gives tt

      assert_finalized-Gives :
          (args : List Bytes) → Gives Understood (assert_finalized sh authority args)
      unfolding assert_finalized Build.assert_finalized
      assert_finalized-Gives args = Gives-bind (Gives-any (ok_or tt (get_elem? args 3))) λ text u.
          Gives-bind
            (Gives-ok_or tt (parse (2 ^ 64) text) λ n e. parse-lt (2 ^ 64) text n (omega arith) e)
            λ epoch h. Gives-bind (Gives-any (ok_or tt (get_elem? args 4))) λ root_text u.
              Gives-bind (parse_root-Gives sh.hex sh.calls d root_text) λ root r.
                let i = Instruction.assert_finalized authority epoch root in
                let typed : IsInstruction i = (k, h, r) in
                gives (i, (refl, typed, unpack-encode_instruction i typed))

      assert_anchored-Gives :
          (args : List Bytes) → Gives Understood (assert_anchored sh authority args)
      unfolding assert_anchored Build.assert_anchored
      assert_anchored-Gives args = Gives-bind (Gives-any (ok_or tt (get_elem? args 3))) λ text u.
          Gives-bind (parse_root-Gives sh.hex sh.calls d text) λ root r.
            let i = Instruction.assert_anchored authority root in
            let typed : IsInstruction i = (k, r) in
            gives (i, (refl, typed, unpack-encode_instruction i typed))

      run-Gives :
          (command : Bytes) (args : List Bytes) → Gives Understood (run sh authority command args)
      unfolding run address
      run-Gives command args =
          Gives-if (bytes_eq command (codes "init")) _ _ (λ c. init-Gives (get_elem? args 3))
            λ c.
              Gives-if (bytes_eq command (codes "submit")) _ _
                (λ c. submit-Gives (get_elem? args 3))
                λ c.
                  Gives-if (bytes_eq command (codes "show")) _ _ (λ c. show-Gives)
                    λ c.
                      Gives-if (bytes_eq command (codes "assert-finalized")) _ _
                        (λ c. assert_finalized-Gives args)
                        λ c.
                          Gives-if (bytes_eq command (codes "assert-anchored")) _ _
                            (λ c. assert_anchored-Gives args)
                            λ c.
                              Gives-if (bytes_eq command (codes "address")) _ _ (λ c. gives tt)
                                λ c. gives_err

    read_keypair-Gives :
        (text : Bytes)
        → ((bytes key : Bytes) → sh.keypair bytes ≡ some key → IsArray 32 key)
        → Gives (IsArray 32) (read_keypair sh.keypair text)
    unfolding read_keypair
    read_keypair-Gives text keys =
        Gives-bind (Gives-any (parse_bytes _))
          λ bytes u. Gives-ok_or tt (sh.keypair bytes) (keys bytes)

    -- When the decoders return bytes, and points compress to 32 of them as public keys have: whatever
    -- the client's arguments and files, an instruction that it sends is one for the program, and the
    -- program decodes its data to a well-typed instruction, for `submit` to the submission of the
    -- output that the posting record is about.
    pub main-Understood :
        ((bytes key : Bytes) → sh.keypair bytes ≡ some key → IsArray 32 key)
        → (args : List Bytes) (action : Action) → main sh args ≡ ok action
        → Understood action
    unfolding main
    main-Understood keys args action e =
        Gives-eq-ok
          (Gives-bind (Gives-any (refuse_if (ltb (length args) 3) tt)) λ done u.
            Gives-bind (Gives-any (ok_or tt (get_elem? args 1))) λ path u.
              Gives-bind (Gives-any (ok_or tt (sh.file path))) λ text u.
                Gives-bind (read_keypair-Gives text keys) λ authority k.
                  Gives-bind (Gives-any (ok_or tt (get_elem? args 2)))
                    λ command u. run-Gives authority k command args)
          e
