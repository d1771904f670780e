-- ===== src/Plonk/RoundTrip.antt =====
-- Compression and expansion of a proof, one after the other.
use zkasper_solana.Base.{
  ℕ, suc, take-all, ◌≡◌, refl, sym, ap, ◌∙◌, ◌+◌, ◌*◌, ◌/◌, not, ◌==◌, ==_iff, List, [], ◌∷◌, ◌++◌,
  Option, some, All, length, take, drop, length-append, length-take, length-drop, append-nil,
  take-append-drop, drop-all, arith,
}
use zkasper_solana.Base.Slices.{Bytes, written, take-append_at, drop-append_at}
use zkasper_solana.Base.Result.{ok, refuse_if, >>=-eq-ok, refuse_unless-eq-ok, ok-injective}
use zkasper_solana.Base.Memory.{
  read, read_in_range, write, write-written, zeros, length-zeros, chunks, chunks_exact,
}
use zkasper_solana.Base.Layout.{concat, length-concat}
use zkasper_solana.Base.Chunks.{
  AllSized, length-chunks, chunks-AllSized, concat-chunks, chunks-concat, length-concat_sized,
}
use zkasper_solana.Errors.{ZkasperError}
use zkasper_solana.Plonk.Backend.{Syscalls, BaseField}
use zkasper_solana.Plonk.Curve.{OnCurve, points_of, points_AllSized}
use zkasper_solana.Plonk.Encoding.{
  convert_points, compress_proof, decompress_proof, proof_len, compressed_proof_len, failed,
}
use zkasper_solana.Plonk.Points.{Converted, convert_points-Converted, convert_points-eq-ok}

-- The compression of a point of the curve takes 32 bytes and decompresses to the point.
abbrev pub Invertible : BaseField → Syscalls → Type 0
Invertible q calls =
    (point packed : Bytes)
    → length point ≡ 64
    → OnCurve q point
    → calls.g1_compress point ≡ some packed
    → (length packed ≡ 32) × (calls.g1_decompress packed ≡ some point)

module _ (q : BaseField) (calls : Syscalls) (law : Invertible q calls) where
  expands :
      (points packed : List Bytes)
      → AllSized 64 points
      → All (OnCurve q) points
      → Converted calls.g1_compress points packed
      → AllSized 32 packed × Converted calls.g1_decompress packed points
  expands [] [] s o c = (tt, tt)
  expands [] (r ∷ rs) s o c = absurd c
  expands (p ∷ ps) [] s o c = absurd c
  expands (p ∷ ps) (r ∷ rs) s o c =
      let here = law p r s.0 o.0 c.0 in
      let rest = expands ps rs s.1 o.1 c.1 in ((here.0, rest.0), (here.1, rest.1))

same_count :
    (convert : Bytes → Option Bytes) (ps qs : List Bytes)
    → Converted convert ps qs
    → length ps ≡ length qs
same_count convert [] [] c = refl
same_count convert [] (q ∷ qs) c = absurd c
same_count convert (p ∷ ps) [] c = absurd c
same_count convert (p ∷ ps) (q ∷ qs) c = ap suc (same_count convert ps qs c.1)

-- Both directions end in the converted pieces followed by the evaluations.
assembled :
    (front : Bytes) (evaluations : Bytes) (lo size : ℕ)
    → length front ≡ lo
    → lo + length evaluations ≡ size
    → write {E = ZkasperError} lo size evaluations (written front (zeros size))
      ≡ ok (front ++ evaluations)
assembled front evaluations lo size a b =
    write-written {E = ZkasperError} front evaluations (zeros size) lo size (sym a) (sym b)
      (omega (arith, length-zeros size))
    ∙ rw
        (drop-all (length (front ++ evaluations)) (zeros size)
          (omega (arith, a, b, length-append front evaluations, length-zeros size)))
        (ap ok (append-nil (front ++ evaluations)))

module _ (q : BaseField) (calls : Syscalls) (law : Invertible q calls) (proof : Bytes)
    (sized : length proof ≡ 768) (on_curve : All (OnCurve q) (points_of proof)) where
  abbrev points : List Bytes
  points = points_of proof

  abbrev evaluations : Bytes
  evaluations = drop 576 proof

  proof_parts :
      (read {E = ZkasperError} 0 (9 * 64) proof ≡ ok (take 576 proof))
      × (read {E = ZkasperError} (9 * 64) proof_len proof ≡ ok evaluations)
  proof_parts = (
    read_in_range 0 576 proof (omega arith) (omega arith),
    read_in_range 576 768 proof (omega arith) (omega arith)
        ∙ ap ok (take-all 192 (drop 576 proof) (omega (arith, length-drop 576 proof))),
  )

  nine_points : chunks_exact 64 (take 576 proof) ≡ points
  unfolding chunks_exact
  nine_points =
      let count : length (take 576 proof) / 64 ≡ 9 = omega (arith, length-take 576 proof) in
      ap (λ n. chunks 64 n (take 576 proof)) count

  abbrev joined : List Bytes → Bytes
  joined packed = concat packed [] ++ evaluations

  compress_cases :
      (result : Bytes)
      → compress_proof calls proof ≡ ok result
      → (packed : List Bytes) × Converted calls.g1_compress points packed × (result ≡ joined packed)
  unfolding compress_proof
  compress_cases result e =
      let e1 = rw (sized, proof_parts.0, nine_points, proof_parts.1) at e in
      let (middle, converted, e2) =
        >>=-eq-ok (convert_points calls.g1_compress 32 points 0 (zeros compressed_proof_len)) _
          e1 in
      let (packed, c) =
        convert_points-eq-ok calls.g1_compress 32 points 0 (zeros compressed_proof_len) middle
          converted in
      let widths = (expands q calls law points packed (points_AllSized proof sized) on_curve c).0 in
      let count = same_count calls.g1_compress points packed c in
      let long : length (concat packed []) ≡ 288 =
        omega (
          arith,
          length-concat_sized 32 packed widths,
          count,
          length-chunks 64 9 (take 576 proof),
        ) in
      let stored : middle ≡ written (concat packed []) (zeros 480) = ok-injective (
        sym converted
        ∙ convert_points-Converted calls.g1_compress 32 points [] packed 0 (zeros 480) c widths
            (omega arith) (omega (arith, length-zeros 480, long, length-concat packed []))) in
      let e3 =
        rw
          (
            stored,
            assembled (concat packed []) evaluations 288 480 long
                (omega (arith, length-drop 576 proof)),
          )
          at e2 in
      (packed, c, sym (ok-injective e3))

  decompress_joined :
      (packed : List Bytes)
      → Converted calls.g1_compress points packed
      → decompress_proof calls (joined packed) ≡ ok proof
  unfolding decompress_proof chunks_exact
  decompress_joined packed c =
      let (widths, back) =
        expands q calls law points packed (points_AllSized proof sized) on_curve c in
      let count : length packed ≡ 9 =
        sym (same_count calls.g1_compress points packed c) ∙ length-chunks 64 9 (take 576 proof) in
      let long : length (concat packed []) ≡ 288 =
        omega (arith, length-concat_sized 32 packed widths, count) in
      let whole : length (joined packed) ≡ 480 =
        omega (arith, long, length-append (concat packed []) evaluations, length-drop 576 proof) in
      let nine : length (concat packed []) / 32 ≡ length packed = omega (arith, long, count) in
      let wide = chunks-AllSized 64 9 (take 576 proof) (omega (arith, length-take 576 proof)) in
      let points_back : concat points [] ≡ take 576 proof =
        concat-chunks 64 9 (take 576 proof) (omega (arith, length-take 576 proof)) in
      rw (
        whole,
        read_in_range {E = ZkasperError} 0 288 (joined packed) (omega arith) (omega (arith, whole)),
        take-append_at (concat packed []) evaluations 288 (sym long),
        nine,
        chunks-concat 32 packed [] widths,
        convert_points-Converted calls.g1_decompress 64 packed [] points 0 (zeros 768) back wide
            (omega arith)
            (omega (
              arith,
              length-zeros 768,
              length-concat points [],
              ap length points_back,
              length-take 576 proof,
            )),
        read_in_range {E = ZkasperError} 288 480 (joined packed) (omega arith)
            (omega (arith, whole)),
        drop-append_at (concat packed []) evaluations 288 (sym long),
        take-all 192 evaluations (omega (arith, length-drop 576 proof)),
        points_back,
        assembled (take 576 proof) evaluations 576 768 (omega (arith, length-take 576 proof))
            (omega (arith, length-drop 576 proof)),
        take-append-drop 576 proof,
      )

compressed_size :
    (calls : Syscalls) (proof result : Bytes)
    → compress_proof calls proof ≡ ok result
    → length proof ≡ 768
unfolding compress_proof
compressed_size calls proof result e =
    let (u, sized, e1) = >>=-eq-ok (refuse_if (not (length proof == proof_len)) failed) _ e in
    (==_iff (length proof) proof_len).0
      (refuse_unless-eq-ok (length proof == proof_len) failed sized)

-- The compression of a proof, if it succeeds, expands to the proof, when the nine points of the proof
-- are on the curve, and the syscall's compression of a curve point takes 32 bytes and decompresses to
-- the point.
pub decompress_proof-compress_proof :
    (q : BaseField) (calls : Syscalls) (proof packed : Bytes)
    → Invertible q calls
    → All (OnCurve q) (points_of proof)
    → compress_proof calls proof ≡ ok packed
    → decompress_proof calls packed ≡ ok proof
decompress_proof-compress_proof q calls proof packed law on_curve e =
    let sized = compressed_size calls proof packed e in
    let (pieces, converted, same) = compress_cases q calls law proof sized on_curve packed e in
    ap (decompress_proof calls) same
    ∙ decompress_joined q calls law proof sized on_curve pieces converted
