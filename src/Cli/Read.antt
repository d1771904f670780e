-- ===== src/Cli/Read.antt =====
-- `read_wrap` on the text of an artifact: what it finds of each field, and what it makes of them.
use zkasper_solana.Base.{
  ℕ, ◌≡◌, sym, ap, ◌∙◌, ◌+◌, ◌-◌, ◌≤◌, ◌==◌, length, take, drop, take-all, length-drop, Option,
  some, true, arith,
}
use zkasper_solana.Base.Slices.{Bytes}
use zkasper_solana.Base.Result.{ok, ◌>>=◌, ok_or}
use zkasper_solana.Base.Memory.{read, read_in_range}
use zkasper_solana.Base.Text.{codes, First, find-First, starts_with-fits}
use zkasper_solana.Base.Words.{IsArray}
use zkasper_solana.Cli.{wrap_output}
use zkasper_solana.Cli.Artifact.{Dies, wrap_field, read_wrap}
use zkasper_solana.Cli.Recover.{wrap_output-public_values}
use zkasper_solana.Plonk.Backend.{Syscalls}
use zkasper_solana.Plonk.Encoding.{compress_proof}
use zkasper_solana.Wire.{FinalizationOutput, IsOutput, public_values}

-- The text shows the field `name` as `word`: behind the first occurrence of the name, between the
-- first `0x` and the first quote behind it.
pub record Shows (raw name word : Bytes) : Type 0 where
  pub at : ℕ
  pub named : First name raw at
  pub gap : ℕ
  pub opened : First (codes "0x") (drop (at + length name) raw) gap
  pub end : ℕ
  pub closed : First (codes "\"") (drop (gap + 2) (drop (at + length name) raw)) end
  pub word_is : take end (drop (gap + 2) (drop (at + length name) raw)) ≡ word

occurrence_fits :
    (needle text : Bytes) (i : ℕ) → First needle text i → i + length needle ≤ length text
occurrence_fits needle text i f =
    omega (arith, starts_with-fits needle (drop i text) f.here, f.inside, length-drop i text)

read_rest :
    (lo : ℕ) (xs : Bytes) → lo ≤ length xs → read {E = Dies} lo (length xs) xs ≡ ok (drop lo xs)
read_rest lo xs h =
    read_in_range {E = Dies} lo (length xs) xs h (omega arith)
    ∙ ap ok (take-all (length xs - lo) (drop lo xs) (omega (arith, length-drop lo xs)))

read_word :
    (start end : ℕ) (xs : Bytes)
    → start + end ≤ length xs
    → read {E = Dies} start (end + start) xs ≡ ok (take end (drop start xs))
read_word start end xs h =
    let e : end + start - start ≡ end = omega arith in
    read_in_range {E = Dies} start (end + start) xs (omega arith) (omega arith)
    ∙ ap (λ n. ok (take n (drop start xs))) e

module _ (hex : Bytes → Option Bytes) (raw : Bytes) where
  wrap_field-Shows :
      (name word : Bytes) → Shows raw name word → wrap_field hex raw name ≡ ok_or tt (hex word)
  unfolding wrap_field
  wrap_field-Shows name word s =
      let rest = drop (s.at + length name) raw in
      let digits = drop (s.gap + 2) rest in
      let opens : s.gap + 2 ≤ length rest = occurrence_fits (codes "0x") rest s.gap s.opened in
      let closes : s.end + 1 ≤ length digits = occurrence_fits (codes "\"") digits s.end s.closed in
      rw (
        find-First name raw s.at s.named,
        read_rest (s.at + length name) raw (occurrence_fits name raw s.at s.named),
        find-First (codes "0x") rest s.gap s.opened,
        read_rest (s.gap + 2) rest opens,
        find-First (codes "\"") digits s.end s.closed,
        read_word (s.gap + 2) s.end rest
            (omega (arith, opens, closes, length-drop (s.gap + 2) rest)),
        s.word_is,
      )

  -- From the text of an artifact that shows, in hexadecimal, the public window of a well-typed output
  -- under a key of 32 bytes, the key, and a proof that compresses, the client reads the key, the
  -- compressed proof, and the output that the window was built of.
  pub read_wrap-Shows :
      (calls : Syscalls) (o : FinalizationOutput) (vk window_word key_word proof_word : Bytes)
      (window proof compressed : Bytes)
      → IsOutput o
      → IsArray 32 vk
      → Shows raw (codes "publicValues") window_word
      → Shows raw (codes "programVK") key_word
      → Shows raw (codes "proofBytes") proof_word
      → public_values {E = Dies} o vk ≡ ok window
      → hex window_word ≡ some window
      → hex key_word ≡ some vk
      → hex proof_word ≡ some proof
      → compress_proof calls proof ≡ ok compressed
      → read_wrap hex calls raw ≡ ok (record { program_vk = vk; proof = compressed; output = o })
  unfolding read_wrap
  read_wrap-Shows calls o vk window_word key_word proof_word window proof compressed v k s1 s2 s3
        built window_hex key_hex proof_hex packed =
      let recovered : wrap_output window ≡ ok o =
        ap (λ m. m >>= wrap_output) (sym built) ∙ wrap_output-public_values o vk v k in
      let wide : (length vk == 32) ≡ true = ap (λ n. n == 32) k.sized in
      let first : wrap_field hex raw (codes "publicValues") ≡ ok window =
        wrap_field-Shows (codes "publicValues") window_word s1 ∙ ap (ok_or tt) window_hex in
      let second : wrap_field hex raw (codes "programVK") ≡ ok vk =
        wrap_field-Shows (codes "programVK") key_word s2 ∙ ap (ok_or tt) key_hex in
      let third : wrap_field hex raw (codes "proofBytes") ≡ ok proof =
        wrap_field-Shows (codes "proofBytes") proof_word s3 ∙ ap (ok_or tt) proof_hex in
      rw (first, recovered, second, wide, third, packed)
