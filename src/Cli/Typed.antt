-- ===== src/Cli/Typed.antt =====
-- The sizes of what `read_wrap` and `parse_root` return.
use zkasper_solana.Base.{
  ℕ, zero, suc, ◌≡◌, refl, ◌==◌, ◌+◌, ◌*◌, not, length, List, [], ◌∷◌, All, All-append, All-take,
  All-drop, Option, some, arith, drop, length-append,
}
use zkasper_solana.Base.Slices.{Bytes}
use zkasper_solana.Base.Result.{Result, refuse_if, ok_or}
use zkasper_solana.Base.Memory.{read, zeros, zeros-bytes, length-zeros, chunks, chunks_exact}
use zkasper_solana.Base.Gives.{
  Gives, gives, gives_err, gives_panic, HasBytes, Gives-bind, Gives-any, Gives-ok_or, Gives-both,
  Gives-map_err, Gives-refuse_if, Gives-read, Gives-write, Gives-write-length, Yields-Gives,
}
use zkasper_solana.Base.Yields.{Sized}
use zkasper_solana.Errors.{ZkasperError}
use zkasper_solana.Base.Layout.{concat}
use zkasper_solana.Base.Text.{codes, find, trim_start_matches}
use zkasper_solana.Base.Words.{IsByte, IsArray}
use zkasper_solana.Cli.{gather, wrap_output}
use zkasper_solana.Cli.Artifact.{Dies, Wrap, array32, wrap_field, read_wrap, parse_root}
use zkasper_solana.Plonk.Backend.{Syscalls}
use zkasper_solana.Plonk.Encoding.{
  failed, convert_points, compress_proof, compressed_proof_len, proof_len,
}
use zkasper_solana.Plonk.Total.{compress_proof-Yields}
use zkasper_solana.Plonk.Vk.{public_values_len}
use zkasper_solana.Wire.{IsOutput}
use zkasper_solana.Wire.PublicBytes.{from_public_bytes-output_of, output_of-IsOutput}

-- The values of the Rust type.
pub record IsWrap (w : Wrap) : Type 0 where
  pub program_vk : IsArray 32 w.program_vk
  pub proof : IsArray compressed_proof_len w.proof
  pub output : IsOutput w.output

pub zeros-IsArray : IsArray 32 (zeros 32)
zeros-IsArray = record { sized = length-zeros 32; bytes = zeros-bytes 32 }

concat-bytes : (cs : List Bytes) → All HasBytes cs → HasBytes (concat cs [])
concat-bytes [] h = tt
concat-bytes (c ∷ cs) h = All-append IsByte c (concat cs []) h.0 (concat-bytes cs h.1)

chunks-bytes : (n count : ℕ) (xs : Bytes) → HasBytes xs → All HasBytes (chunks n count xs)
unfolding chunks
chunks-bytes n zero xs h = tt
chunks-bytes n (suc count) xs h =
    (All-take IsByte n xs h, chunks-bytes n count (drop n xs) (All-drop IsByte n xs h))

-- As many bytes as there is room for.
abbrev Fills : ℕ → List Bytes → Type 0
Fills n cs = All HasBytes cs × (length (concat cs []) ≡ n)

gather-Gives :
    (fours slots : List Bytes)
    → All HasBytes fours
    → All HasBytes slots
    → Gives (Fills (length (concat fours []))) (gather fours slots)
unfolding gather
gather-Gives [] slots f s = gives (f, refl)
gather-Gives (four ∷ fours) [] f s = gives (f, refl)
gather-Gives (four ∷ fours) (slot ∷ slots) f s = Gives-bind (Gives-read 0 4 slot s.0) λ half h.
    Gives-bind (Gives-both (Gives-write 0 4 half four h f.0) (Gives-write-length 0 4 half four))
      λ filled p. Gives-bind (gather-Gives fours slots f.1 s.1) λ rest r. gives (
        (p.0, r.0),
        omega (
          arith,
          length-append filled (concat rest []),
          length-append four (concat fours []),
          p.1,
          r.1,
        ),
      )

pub wrap_output-Gives : (publics : Bytes) → HasBytes publics → Gives IsOutput (wrap_output publics)
unfolding wrap_output zeros chunks chunks_exact
wrap_output-Gives publics h =
    Gives-bind (Gives-refuse_if (not (length publics == public_values_len)) tt) λ done sized.
      Gives-bind
        (gather-Gives (chunks_exact 4 (zeros 176)) (chunks_exact 8 publics)
          (chunks-bytes 4 44 (zeros 176) (zeros-bytes 176)) (chunks-bytes 8 _ publics h))
        λ head f.
          let a : IsArray 176 (concat head []) = record {
            sized = f.1;
            bytes = concat-bytes head f.0;
          } in
          rw (from_public_bytes-output_of {E = Dies} (concat head []) a)
            (gives (output_of-IsOutput (concat head []) a))

array32-Gives : (bytes : Bytes) → HasBytes bytes → Gives (IsArray 32) (array32 bytes)
array32-Gives bytes h =
    Gives-bind (Gives-refuse_if (not (length bytes == 32)) tt)
      λ done sized. gives (record { sized = ground (arith, sized); bytes = h })

-- What is taken of the libraries: `hex::decode` returns bytes, and the compression of a point 32 of
-- them.
pub record Decoders (hex : Bytes → Option Bytes) (calls : Syscalls) : Type 0 where
  pub decodes : (text bytes : Bytes) → hex text ≡ some bytes → HasBytes bytes
  pub compresses : (point word : Bytes) → calls.g1_compress point ≡ some word → IsArray 32 word

module _ (hex : Bytes → Option Bytes) (calls : Syscalls) (d : Decoders hex calls) where
  wrap_field-Gives : (raw name : Bytes) → Gives HasBytes (wrap_field hex raw name)
  unfolding wrap_field
  wrap_field-Gives raw name = Gives-bind (Gives-any (ok_or tt (find name raw))) λ found u.
      Gives-bind (Gives-any (read (found + length name) (length raw) raw)) λ rest u.
        Gives-bind (Gives-any (ok_or tt (find (codes "0x") rest))) λ prefix u.
          Gives-bind (Gives-any (read (prefix + 2) (length rest) rest)) λ digits u.
            Gives-bind (Gives-any (ok_or tt (find (codes "\"") digits))) λ close u.
              Gives-bind (Gives-any (read (prefix + 2) (close + (prefix + 2)) rest))
                λ word u. Gives-ok_or tt (hex word) (d.decodes word)

  pub parse_root-Gives : (text : Bytes) → Gives (IsArray 32) (parse_root hex text)
  unfolding parse_root
  parse_root-Gives text =
      let digits = trim_start_matches (codes "0x") text in
      Gives-bind (Gives-ok_or tt (hex digits) (d.decodes digits)) array32-Gives

  convert_points-Gives :
      (pieces : List Bytes) (i : ℕ) (out : Bytes)
      → HasBytes out
      → Gives HasBytes (convert_points calls.g1_compress 32 pieces i out)
  unfolding convert_points
  convert_points-Gives [] i out h = gives h
  convert_points-Gives (piece ∷ pieces) i out h =
      Gives-bind (Gives-ok_or failed (calls.g1_compress piece) (d.compresses piece)) λ word w.
        Gives-bind (Gives-write (i * 32) (i * 32 + 32) word out w.bytes h)
          λ out h. convert_points-Gives pieces (i + 1) out h

  compress_proof-bytes :
      (proof : Bytes) → HasBytes proof → Gives HasBytes (compress_proof calls proof)
  unfolding compress_proof
  compress_proof-bytes proof h =
      Gives-bind (Gives-any (refuse_if (not (length proof == proof_len)) failed)) λ done u.
        Gives-bind (Gives-any (read 0 576 proof)) λ points u.
          Gives-bind (convert_points-Gives (chunks_exact 64 points) 0 (zeros 480) (zeros-bytes 480))
            λ packed p.
              Gives-bind (Gives-read 576 768 proof h) λ tail t. Gives-write 288 480 tail packed t p

  compress_proof-Gives :
      (proof : Bytes) → HasBytes proof → Gives (IsArray 480) (compress_proof calls proof)
  compress_proof-Gives proof h = array (
      Gives-both
        (Yields-Gives
          (compress_proof-Yields calls proof λ point word e. (d.compresses point word e).sized))
        (compress_proof-bytes proof h))
    where
      array :
          {m : Result ZkasperError Bytes}
          → Gives (λ xs. Sized 480 xs × HasBytes xs) m
          → Gives (IsArray 480) m
      array (gives p) = gives (record { sized = p.0; bytes = p.1 })
      array gives_err = gives_err
      array gives_panic = gives_panic

  -- A wrap that is read has the sizes of its Rust type.
  pub read_wrap-Gives : (raw : Bytes) → Gives IsWrap (read_wrap hex calls raw)
  unfolding read_wrap
  read_wrap-Gives raw = Gives-bind (wrap_field-Gives raw (codes "publicValues")) λ publics h.
      Gives-bind (wrap_output-Gives publics h) λ output o.
        Gives-bind (wrap_field-Gives raw (codes "programVK")) λ key h.
          Gives-bind (array32-Gives key h) λ vk k.
            Gives-bind (wrap_field-Gives raw (codes "proofBytes")) λ expanded h.
              Gives-bind (Gives-map_err (λ refused. tt) (compress_proof-Gives expanded h))
                λ proof p. gives (record { program_vk = k; proof = p; output = o })
