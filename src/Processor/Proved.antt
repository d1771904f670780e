-- ===== src/Processor/Proved.antt =====
-- The proof behind an accepted submission.
use zkasper_solana.Base.{◌≡◌, List, ◌∷◌, All}
use zkasper_solana.Base.Slices.{Bytes}
use zkasper_solana.Base.Result.{ok}
use zkasper_solana.Base.Words.{IsByte, IsArray}
use zkasper_solana.Base.Gives.{Gives-bind, Gives-known, Gives-eq-ok}
use zkasper_solana.Errors.{ZkasperError}
use zkasper_solana.Plonk.Encoding.{decompress_proof}
use zkasper_solana.Plonk.Pairing.{verify-Paired}
use zkasper_solana.Plonk.Sides.{Paired}
use zkasper_solana.Processor.{Host, verify, submit_finalization}
use zkasper_solana.Processor.Landed.{submit_finalization-eq-ok}
use zkasper_solana.Runtime.Accounts.{Ledger, AccountInfo}
use zkasper_solana.State.LightClient
use zkasper_solana.State.LightClient.{Pubkey, LightClientState}
use zkasper_solana.Wire.{FinalizationOutput, IsOutput}
use zkasper_solana.Wire.Window.{window_of, public_values-window_of}

module _ (h : Host) where
  -- The proof expands, and the equation held for it with the window of the output and the key.
  pub record Proves (proof vk : Bytes) (output : FinalizationOutput) : Type 0 where
    pub expanded : Bytes
    pub expands : decompress_proof h.backend.syscalls proof ≡ ok expanded
    pub paired : Paired h.backend expanded vk (window_of output vk)

  pub verify-Proves :
      (proof vk : Bytes) (output : FinalizationOutput)
      → IsArray 32 vk
      → IsOutput output
      → verify h proof vk output ≡ ok tt
      → Proves proof vk output
  unfolding verify
  verify-Proves proof vk output k o = Gives-eq-ok {P = λ done. Proves proof vk output} (
      rw (public_values-window_of {E = ZkasperError} output vk o k) (
        Gives-bind (Gives-known (decompress_proof h.backend.syscalls proof) λ x e. e)
          λ expanded expands. Gives-known _ λ done e. record {
            expanded = expanded;
            expands = expands;
            paired = verify-Paired h.backend expanded vk (window_of output vk) e;
          }))

  -- An accepted submission, on a ledger of byte strings and for a well-typed output, came with a proof
  -- that expands and for which the pairing held: with the state that the first account decoded to
  -- before, the pairing syscall was given the two sides of the verification equation for the expanded
  -- proof, that state's program key and the window of the output and the key, and answered one.
  pub submit_finalization-Proves :
      (program_id : Pubkey) (accounts : List AccountInfo) (proof : Bytes)
      (output : FinalizationOutput) (before after : Ledger)
      → ((key : Pubkey) → All IsByte (before key).bytes)
      → IsOutput output
      → submit_finalization h program_id accounts proof output before ≡ ok after
      → (state_info : AccountInfo) × (rest : List AccountInfo) × (s : LightClientState) × (accounts
          ≡ state_info ∷ rest)
        × (LightClient.unpack (before state_info.key).bytes ≡ ok s)
        × Proves proof s.program_vk output
  submit_finalization-Proves program_id accounts proof output before after b o e =
      let r = submit_finalization-eq-ok h program_id accounts proof output before after b o e in
      (
        r.state_info,
        r.ring_info ∷ r.rest,
        r.state,
        r.accounts_are,
        r.admits.state_at.decodes,
        verify-Proves proof r.state.program_vk output r.valid.program_vk o r.admits.proved,
      )
