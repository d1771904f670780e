-- ===== src/Lib.antt =====
-- The on-chain light client zkasper-solana: a Solana program that holds an Ethereum-style
-- finalized checkpoint and advances it by zero-knowledge proofs of finalization, one epoch at a
-- time, and answers other programs' questions about the last 128 of them.
--
-- The program's parts and the files that model them (paths from the repository's root):
--   * program/src/error.rs: Errors. The errors, and `ProgramError` with the two further values the
--     handlers return and a value for whatever a system call fails with.
--   * program/src/wire.rs: Wire. `FinalizationOutput`, `public_bytes`, `from_public_bytes`,
--     `guest_program_vk` and `public_values`, with the fields end to end in Wire/PublicBytes, the
--     public window in Wire/Window and Wire/Binding, the key's two encodings in Wire/GuestKey.
--   * program/src/state.rs: State. `LightClientState` (State/LightClient) and `FinalizationRing`
--     (State/Ring), both as byte accounts that are read and written by offset. `write` is
--     `write_entry` here; the loop of `entry_by_state_root` is `find_index`.
--   * program/src/instruction.rs: Instruction, the decoding, and Instruction/Build, the builders.
--   * program/src/processor.rs: Processor, every handler; `submit_finalization` names three
--     stretches of its body, `expect_state`, `expect_next` and `advance`. Processor/Checks has
--     what the account checks establish, Processor/Checked why they refuse, Processor/Submit,
--     Landed and Refused the submission, Processor/Verdict each of its outcomes with the reason,
--     Processor/Proved the proof behind it, Processor/ReadPath and VerifyOnly the instructions
--     that change nothing, Processor/CreatePda the creation of accounts, Processor/Dispatch the
--     way from a builder to a handler, Processor/Total where the handlers panic.
--   * program/src/plonk.rs, program/src/plonk/vk.rs: Plonk, the verifier function by function and
--     its key: Encoding (the two encodings of a proof), Group (field and curve helpers), Proof,
--     Transcript (public input and challenges), Verify (the equation), Vk. Plonk/Points and
--     RoundTrip are about the encodings, Plonk/Curve and Accept about the membership check,
--     Plonk/Sides, Terms and Pairing about the two sides of the equation and the pairing,
--     Plonk/Statement about the public input, Plonk/Total about panics, Plonk/Refusal about its
--     error, Plonk/Fields and Parse about the canonical encoding of a scalar and of a proof,
--     Plonk/Lagrange about the Lagrange polynomial at the challenge.
--   * cli/src/main.rs: Cli, the output in a wrapped proof's window; Cli/Artifact, the key pair,
--     the artifact and the arguments from their text, with `wrap_field` and `read_wrap` in
--     Cli/Read; Cli/Commands, `main` and the arms of its match, which name the instruction to
--     send; Cli/Posting, the posting record. Cli/Typed and Cli/Sends are about the instructions
--     that are sent, and Cli/Demo follows `init` and `submit` to the program.
--   * plonk-cost/src/entrypoint.rs and lib.rs: Cost, the measurement program, whose modes run
--     parts of the verifier; Cost/Modes compares them with the whole and with the program.
--   * program-tests/src/lib.rs: Fixture, the loader of the test suite's artifact, against the
--     client's `read_wrap` in Fixture/Agrees.
--   * Runtime: what the program takes from Solana. Derived addresses (Runtime/Address) and the
--     system program (Runtime/Accounts) are records of functions with laws; the ledger is a
--     function from addresses to accounts, so that two account infos with one key are one account.
--   * Chain: the program over time. `Run` is the relation of ledgers reached by accepted
--     submissions and by other transactions, which leave the two accounts alone, as the runtime
--     enforces for accounts that the program owns. Chain/Endings has each outcome of `initialize`
--     with its reason.
--   * Base: byte strings, slices, words, fields laid end to end, text and the searches in it, and
--     results, with three families over them: `Yields`, no panic and a property of the value;
--     `Only`, no error but one; `Gives`, a property of the value if there is one.
--   * Tests: a host on which the whole program runs, a light client on it with a run of any
--     length, and each theorem at a concrete input.
--
-- How the code is represented. A `u8`, `u64` or array is a natural number or a list with a bound
-- or a length as a hypothesis (`IsByte`, `IsU64`, `IsArray`). A handler takes the ledger and
-- returns it, an error or a panic; an index out of range, an `unwrap` on nothing and an addition
-- that overflows under `overflow-checks` are panics; in the client, an error is `die`, the end of
-- the process. An error or a panic rolls the transaction back, so no ledger comes with it. The
-- instructions that change nothing return no ledger of their own. The one loop without a visible
-- bound, the squarings of the challenges, runs `power` times, the scan of the ring runs over its
-- 128 slots, the modes of the measurement run their count, and the client polls for a receipt 30
-- times, all by structural recursion, so no fuel is needed.
--
-- What is a parameter: `find_program_address` and `create_program_address` (with the law that the
-- found address is the created one for its bump), the system program's instructions (with their
-- effect on the target, on an account without data, and on no other account's data or owner), the
-- two prime fields of ark_bn254, the alt_bn128 syscalls, SHA-256 and Keccak-256, the hexadecimal
-- decoding, the key pair's public key, and the RPC's answers with serde_json's lookups in them.
-- These have no laws of their own: a theorem that needs the sizes of what they return (`IsSized`),
-- the canonical words of a scalar (`IsCanonical`), the laws of a field (`IsField`) or that a point
-- of the curve comes back from its compression (`Invertible`) has that as a hypothesis.
--
-- What is not modelled: log messages; failures of a borrow, since the handlers hold one borrow at
-- a time; the runtime's own checks after an instruction, on lamports and on accounts passed as
-- read-only; compute units. The soundness of PLONK and of the guest are not claims about this
-- code: a run assumes of the guest that its two epochs are adjacent. Of cli/, `send` (a
-- transaction is signed and handed to the RPC), `record_posting` (a line is printed and appended
-- to a file), the printing and the time in the posting record are left out; so are the entry point
-- macro of program/src/lib.rs, the tests, which run against the runtime's simulator, and the
-- scripts.
pub mod Base
pub mod Errors
pub mod Plonk
pub mod Wire
pub mod State
pub mod Runtime
pub mod Instruction
pub mod Processor
pub mod Chain
pub mod Tests
pub mod Cli
pub mod Cost
pub mod Fixture
