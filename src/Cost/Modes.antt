-- ===== src/Cost/Modes.antt =====
-- The modes of the measurement against the verifier that the program runs.
use zkasper_solana.Base.{
  ℕ, ◌≡◌, refl, sym, ap, ◌∙◌, ◌↔◌, true, false, not, List, [], ◌∷◌, length, arith,
}
use zkasper_solana.Base.Slices.{Bytes}
use zkasper_solana.Base.Result.{
  Result, ok, err, panic, ◌>>=◌, refuse_if, map_err, >>=-eq-ok, map_err-eq-ok, refuse_unless-eq-ok,
}
use zkasper_solana.Base.Words.{IsArray, from_le_bytes}
use zkasper_solana.Base.Layout.{concat, length-concat, read_field, read_byte_field}
use zkasper_solana.Cost.{
  CostError, invalid_instruction_data, invalid_argument, is_ok, work, process_instruction,
}
use zkasper_solana.Errors.{ZkasperError}
use zkasper_solana.Plonk.Accept.{verify_with-verify}
use zkasper_solana.Plonk.Backend.{Backend}
use zkasper_solana.Plonk.Encoding.{decompress_proof, failed}
use zkasper_solana.Plonk.Proof.{Proof, parse, well_formed}
use zkasper_solana.Plonk.Total.Membership.{well_formed-eq-ok}
use zkasper_solana.Plonk.Verify.{verify_with, verify}
use zkasper_solana.Processor
use zkasper_solana.Processor.{Host}
use zkasper_solana.Wire.{FinalizationOutput, IsOutput}
use zkasper_solana.Wire.PublicBytes.{
  encode_output, length-encode_output, from_public_bytes-encode_output,
}
use zkasper_solana.Wire.Window.{window_of, public_values-window_of}

-- The payload of a measurement: a mode, a count, a key, an output and a proof, end to end.
abbrev payload_fields : ℕ → ℕ → ℕ → Bytes → FinalizationOutput → Bytes → List Bytes
payload_fields mode low high vk output proof =
    (mode ∷ []) ∷ (low ∷ []) ∷ (high ∷ []) ∷ vk ∷ encode_output output ∷ proof ∷ []

abbrev pub payload : ℕ → ℕ → ℕ → Bytes → FinalizationOutput → Bytes → Bytes
payload mode low high vk output proof = concat (payload_fields mode low high vk output proof) []

module _ (b : Backend) (low high : ℕ) (vk : Bytes) (output : FinalizationOutput) (proof : Bytes)
    (k : IsArray 32 vk) (o : IsOutput output) where
  -- What is run once the payload is taken apart.
  abbrev run : ℕ → Result CostError (Unit {0})
  run mode = do
    parsed ← map_err (λ nothing. invalid_instruction_data) (parse b.scalar proof)
    passed ← work b (from_le_bytes (low ∷ high ∷ [])) vk (window_of output vk) proof parsed mode
    refuse_if (not passed) invalid_argument

  process_instruction-run :
      (mode : ℕ) → process_instruction b (payload mode low high vk output proof) ≡ run mode
  unfolding process_instruction
  process_instruction-run mode =
      let fs = payload_fields mode low high vk output proof in
      let wide = length-encode_output output o in
      rw (
        read_byte_field {E = CostError} fs [] 0 mode 0 refl refl,
        read_byte_field {E = CostError} fs [] 1 low 1 refl refl,
        read_byte_field {E = CostError} fs [] 2 high 2 refl refl,
        read_field {E = CostError} fs [] 3 vk 3 35 refl refl (omega (arith, k.sized)),
        read_field {E = CostError} fs [] 4 (encode_output output) 35 211 refl
            (omega (arith, k.sized)) (omega (arith, wide)),
        from_public_bytes-encode_output {E = CostError} output o,
        public_values-window_of {E = CostError} output vk o k,
        read_field {E = CostError} fs [] 5 proof 211 (length (concat fs [])) refl
            (omega (arith, k.sized, wide)) (omega (arith, length-concat fs [], k.sized, wide)),
      )

  abbrev Passes : ℕ → Type 0
  Passes mode = process_instruction b (payload mode low high vk output proof) ≡ ok tt

  abbrev OnCurve : Type 0
  OnCurve =
      (parsed : Proof b.scalar) × (parse b.scalar proof ≡ ok parsed)
      × (well_formed {E = ZkasperError} b.base parsed ≡ ok true)

  is_ok-true : (m : Result ZkasperError (Unit {0})) → is_ok {E = CostError} m ≡ ok true → m ≡ ok tt
  is_ok-true (ok u) e = refl
  is_ok-true (err x) e = cc
  is_ok-true panic e = cc

  -- What a mode that passes has found.
  run-eq-ok :
      (mode : ℕ)
      → run mode ≡ ok tt
      → (parsed : Proof b.scalar) × (parse b.scalar proof ≡ ok parsed)
        × (work b (from_le_bytes (low ∷ high ∷ [])) vk (window_of output vk) proof parsed mode
            ≡ ok true)
  run-eq-ok mode e =
      let (parsed, parsed_ok, e1) = >>=-eq-ok (map_err _ (parse b.scalar proof)) _ e in
      let (passed, worked, e2) = >>=-eq-ok (work b _ vk _ proof parsed mode) _ e1 in
      let good = refuse_unless-eq-ok passed invalid_argument e2 in
      (parsed, map_err-eq-ok _ _ parsed_ok, worked ∙ ap ok good)

  parses :
      verify b proof vk (window_of output vk) ≡ ok tt
      → (parsed : Proof b.scalar) × (parse b.scalar proof ≡ ok parsed)
  unfolding verify verify_with
  parses e =
      let (parsed, parsed_ok, e1) = >>=-eq-ok (map_err (λ _. failed) (parse b.scalar proof)) _ e in
      (parsed, map_err-eq-ok _ _ parsed_ok)

  -- With its points on the curve, the membership check changes nothing.
  member_verify :
      OnCurve
      → verify_with b proof vk (window_of output vk) true ≡ verify b proof vk (window_of output vk)
  unfolding verify verify_with
  member_verify (parsed, parsed_ok, good) = rw (parsed_ok, good)

  unmembered :
      verify_with b proof vk (window_of output vk) false ≡ verify b proof vk (window_of output vk)
  unfolding verify
  unmembered = refl

  verify-Passes : verify b proof vk (window_of output vk) ≡ ok tt → Passes 1
  unfolding work
  verify-Passes e =
      let (parsed, parsed_ok) = parses e in
      let whole : verify_with b proof vk (window_of output vk) false ≡ ok tt = unmembered ∙ e in
      process_instruction-run 1 ∙ rw (parsed_ok, whole)

  passed_verify : Passes 1 → verify b proof vk (window_of output vk) ≡ ok tt
  unfolding verify work
  passed_verify e =
      let (parsed, parsed_ok, worked) = run-eq-ok 1 (sym (process_instruction-run 1) ∙ e) in
      is_ok-true (verify_with b proof vk (window_of output vk) false) worked

  passed_membership : Passes 8 → OnCurve
  unfolding work
  passed_membership e =
      let (parsed, parsed_ok, worked) = run-eq-ok 8 (sym (process_instruction-run 8) ∙ e) in
      (parsed, parsed_ok, well_formed-eq-ok b.base parsed worked)

  membership-Passes : OnCurve → Passes 8
  unfolding work
  membership-Passes (parsed, parsed_ok, good) =
      process_instruction-run 8
      ∙ rw (parsed_ok, well_formed-eq-ok {F = CostError} b.base parsed good)

  split_modes : Passes 10 → Passes 8 × Passes 1
  unfolding work
  split_modes e =
      let (parsed, parsed_ok, worked) = run-eq-ok 10 (sym (process_instruction-run 10) ∙ e) in
      let whole = is_ok-true (verify_with b proof vk (window_of output vk) true) worked in
      let (verified, on_curve) = verify_with-verify b proof vk (window_of output vk) whole in
      (membership-Passes on_curve, verify-Passes verified)

  join_modes : Passes 8 × Passes 1 → Passes 10
  unfolding work
  join_modes (p, q) =
      let good = passed_membership p in
      let whole : verify_with b proof vk (window_of output vk) true ≡ ok tt =
        member_verify good ∙ passed_verify q in
      process_instruction-run 10 ∙ rw (good.1, whole)

  -- On the payload of a well-typed output, a key of 32 bytes and any bytes for a proof, the mode that
  -- verifies with the membership check passes if and only if the mode of the membership check alone
  -- and the mode that verifies without it both pass.
  pub modes_decompose : Passes 10 ↔ (Passes 8 × Passes 1)
  modes_decompose = (split_modes, join_modes)

  pub measured_verify_iff : Passes 1 ↔ (verify b proof vk (window_of output vk) ≡ ok tt)
  measured_verify_iff = (passed_verify, verify-Passes)

module _ (h : Host) (low high : ℕ) (vk : Bytes) (output : FinalizationOutput)
    (compressed proof : Bytes) (k : IsArray 32 vk) (o : IsOutput output) where
  program_verify :
      decompress_proof h.backend.syscalls compressed ≡ ok proof
      → Processor.verify h compressed vk output ≡ verify h.backend proof vk (window_of output vk)
  unfolding Processor.verify
  program_verify d = rw (d, public_values-window_of {E = ZkasperError} output vk o k)

  -- The measurement of a whole verification passes on a proof if and only if the on-chain program
  -- accepts the same statement on a compressed proof that expands to it.
  pub measured_program_iff :
      decompress_proof h.backend.syscalls compressed ≡ ok proof
      → (process_instruction h.backend (payload 1 low high vk output proof) ≡ ok tt)
        ↔ (Processor.verify h compressed vk output ≡ ok tt)
  measured_program_iff d =
      let (passed, verified) = measured_verify_iff h.backend low high vk output proof k o in
      (λ e. program_verify d ∙ passed e, λ e. verified (sym (program_verify d) ∙ e))
