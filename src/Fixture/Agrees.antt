-- ===== src/Fixture/Agrees.antt =====
-- The fixture against the client's `read_wrap`, and against the program.
use zkasper_solana.Base.{
  ℕ, ◌≡◌, refl, sym, ap, ◌∙◌, ◌+◌, ◌==◌, bytes_eq, bytes_eq→eq, length, Bool, true, false,
  Bool-cases, inl, inr, Option, some, none, List, [], subst,
}
use zkasper_solana.Base.Slices.{Bytes}
use zkasper_solana.Base.Result.{Result, ok, err, panic, unwrap, >>=-eq-ok, ok-injective}
use zkasper_solana.Base.Layout.{concat}
use zkasper_solana.Base.Memory.{read, zeros, chunks_exact}
use zkasper_solana.Base.Text.{codes, find}
use zkasper_solana.Cli.{gather, wrap_output}
use zkasper_solana.Cli.Artifact.{Dies, wrap_field, read_wrap}
use zkasper_solana.Errors.{ZkasperError}
use zkasper_solana.Fixture.{Fixture, expect, assert, array, field, fixture}
use zkasper_solana.Plonk.Backend.{Syscalls}
use zkasper_solana.Plonk.Encoding.{compress_proof}
use zkasper_solana.Plonk.Vk.{root_c_vadcop_final}
use zkasper_solana.Wire.{FinalizationOutput, from_public_bytes, public_values}

unwrap-eq-ok : {A : Type 0} (o : Option A) {a : A} → unwrap {E = Dies} o ≡ ok a → o ≡ some a
unwrap-eq-ok none e = cc
unwrap-eq-ok (some x) e = cc

assert-eq-ok : (b : Bool) {u : Unit {0}} → assert {E = Dies} b ≡ ok u → b ≡ true
assert-eq-ok true e = refl
assert-eq-ok false e = cc

expect-eq-ok :
    {A : Type 0} (m : Result ZkasperError A) {a : A} → expect {E = Dies} m ≡ ok a → m ≡ ok a
expect-eq-ok (ok x) e = cc
expect-eq-ok (err x) e = cc
expect-eq-ok panic e = cc

array-eq-ok :
    (n : ℕ) (xs ys : Bytes) → array {E = Dies} n xs ≡ ok ys → (xs ≡ ys) × ((length ys == n) ≡ true)
array-eq-ok n xs ys e = elim (Bool-cases (length xs == n)) [
  | inl sized ↦
      let same : xs ≡ ys = unok (rw sized at e) in
      (same, ap (λ t. length t == n) (sym same) ∙ sized)
  | inr other ↦ cc (rw other at e)
]
  where
    unok : ◌≡◌ {A = Result Dies Bytes} (ok xs) (ok ys) → xs ≡ ys
    unok e = cc

module _ (hex : Bytes → Option Bytes) where
  -- A field that the fixture finds, the client finds.
  field-wrap_field :
      (raw name : Bytes) {bytes : Bytes}
      → field hex {E = Dies} raw name ≡ ok bytes
      → wrap_field hex raw name ≡ ok bytes
  unfolding field wrap_field
  field-wrap_field raw name e =
      let (found, s0, e0) = >>=-eq-ok (unwrap (find name raw)) _ e in
      let (rest, s1, e1) = >>=-eq-ok (read (found + length name) (length raw) raw) _ e0 in
      let (prefix, s2, e2) = >>=-eq-ok (unwrap (find (codes "0x") rest)) _ e1 in
      let (digits, s3, e3) = >>=-eq-ok (read (prefix + 2) (length rest) rest) _ e2 in
      let (close, s4, e4) = >>=-eq-ok (unwrap (find (codes "\"") digits)) _ e3 in
      let (word, s5, e5) = >>=-eq-ok (read (prefix + 2) (close + (prefix + 2)) rest) _ e4 in
      rw (
        unwrap-eq-ok (find name raw) s0,
        s1,
        unwrap-eq-ok (find (codes "0x") rest) s2,
        s3,
        unwrap-eq-ok (find (codes "\"") digits) s4,
        s5,
        unwrap-eq-ok (hex word) e5,
      )

  recovers :
      (window : Bytes) (committed : List Bytes) (output : FinalizationOutput)
      → (length window == 512) ≡ true
      → gather (chunks_exact 4 (zeros 176)) (chunks_exact 8 window) ≡ ok committed
      → from_public_bytes {E = Dies} (concat committed []) ≡ ok output
      → wrap_output window ≡ ok output
  unfolding wrap_output
  recovers window committed output wide gathered decoded = rw (wide, gathered, decoded)

  reads :
      (calls : Syscalls) (raw window vk proof compressed : Bytes) (output : FinalizationOutput)
      → wrap_field hex raw (codes "publicValues") ≡ ok window
      → wrap_output window ≡ ok output
      → wrap_field hex raw (codes "programVK") ≡ ok vk
      → (length vk == 32) ≡ true
      → wrap_field hex raw (codes "proofBytes") ≡ ok proof
      → compress_proof calls proof ≡ ok compressed
      → read_wrap hex calls raw
        ≡ ok (record { program_vk = vk; proof = compressed; output = output })
  unfolding read_wrap
  reads calls raw window vk proof compressed output publics decoded key sized proof_bytes packed =
      rw (publics, decoded, key, sized, proof_bytes, packed)

  abbrev Loads : Syscalls → Bytes → Fixture → Type 0
  Loads calls raw fx =
      (read_wrap hex calls raw
        ≡ ok (record { program_vk = fx.program_vk; proof = fx.compressed; output = fx.output }))
      × (public_values {E = Dies} fx.output fx.program_vk ≡ ok fx.public_values)

  -- When the fixture of an artifact loads, the client reads the same key, output and compressed proof
  -- from that artifact, and the program rebuilds the artifact's public window from the key and the
  -- output.
  pub fixture-read_wrap :
      (calls : Syscalls) (raw : Bytes) (fx : Fixture)
      → fixture hex calls raw ≡ ok fx
      → (read_wrap hex calls raw
          ≡ ok (record { program_vk = fx.program_vk; proof = fx.compressed; output = fx.output }))
        × (public_values {E = Dies} fx.output fx.program_vk ≡ ok fx.public_values)
  unfolding fixture
  fixture-read_wrap calls raw fx e =
      let (root, s0, e0) = >>=-eq-ok (field hex raw (codes "rootCVadcopFinal")) _ e in
      let (u, s1, e1) = >>=-eq-ok (assert (bytes_eq root root_c_vadcop_final)) _ e0 in
      let (publics, s2, e2) = >>=-eq-ok (field hex raw (codes "publicValues")) _ e1 in
      let (window, s3, e3) = >>=-eq-ok (array 512 publics) _ e2 in
      let (key, s4, e4) = >>=-eq-ok (field hex raw (codes "programVK")) _ e3 in
      let (vk, s5, e5) = >>=-eq-ok (array 32 key) _ e4 in
      let (committed, s6, e6) =
        >>=-eq-ok (gather (chunks_exact 4 (zeros 176)) (chunks_exact 8 window)) _ e5 in
      let (output, s7, e7) = >>=-eq-ok (from_public_bytes (concat committed [])) _ e6 in
      let (rebuilt, s8, e8) = >>=-eq-ok (public_values output vk) _ e7 in
      let (u, s9, e9) = >>=-eq-ok (assert (bytes_eq rebuilt window)) _ e8 in
      let (proof, s10, e10) = >>=-eq-ok (field hex raw (codes "proofBytes")) _ e9 in
      let (compressed, s11, e11) = >>=-eq-ok (expect (compress_proof calls proof)) _ e10 in
      let (window_is, wide) = array-eq-ok 512 publics window s3 in
      let (vk_is, sized) = array-eq-ok 32 key vk s5 in
      let public_field = field-wrap_field raw (codes "publicValues") s2 ∙ ap ok window_is in
      let key_field = field-wrap_field raw (codes "programVK") s4 ∙ ap ok vk_is in
      let same = bytes_eq→eq rebuilt window (assert-eq-ok (bytes_eq rebuilt window) s9) in
      subst (Loads calls raw) (ok-injective e11) (
        reads calls raw window vk proof compressed output public_field
            (recovers window committed output wide s6 s7) key_field sized
            (field-wrap_field raw (codes "proofBytes") s10)
            (expect-eq-ok (compress_proof calls proof) s11),
        s8 ∙ ap ok same,
      )
