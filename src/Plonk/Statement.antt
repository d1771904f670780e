-- ===== src/Plonk/Statement.antt =====
-- The public input, and the preimage that is hashed for it.
use zkasper_solana.Base.{
  ◌≡◌, refl, sym, ap, ◌∙◌, [], ◌∷◌, ◌++◌, length, take, drop, append-nil, drop-all, arith,
}
use zkasper_solana.Base.Slices.{Bytes, take-append_at, drop-append_at}
use zkasper_solana.Base.Result.{ok, ◌>>=◌, ok-injective}
use zkasper_solana.Base.Memory.{zeros, length-zeros}
use zkasper_solana.Base.Words.{IsArray}
use zkasper_solana.Base.Layout.{concat, length-concat, write_field, sizes}
use zkasper_solana.Plonk.Backend.{Backend}
use zkasper_solana.Plonk.Transcript.{public_preimage}
use zkasper_solana.Plonk.Vk
use zkasper_solana.Wire.{FinalizationOutput, IsOutput, public_values}
use zkasper_solana.Wire.Window.{window_of, length-window_of, public_values-window_of}
use zkasper_solana.Wire.Binding.{public_values-binds}

-- The key, the window and the recursion's root, end to end.
abbrev preimage_of : Bytes → Bytes → Bytes
preimage_of vk window = vk ++ (window ++ Vk.root_c_vadcop_final)

module _ {E : Type 0} (b : Backend) (vk window : Bytes) (k : length vk ≡ 32)
    (w : length window ≡ 512) where
  pub public_preimage-preimage_of : public_preimage {E = E} b vk window ≡ ok (preimage_of vk window)
  unfolding public_preimage
  public_preimage-preimage_of =
      let fs = vk ∷ window ∷ Vk.root_c_vadcop_final ∷ [] in
      let blank = zeros 576 in
      rw
        (
          write_field {E = E} fs 0 vk blank 0 32 refl refl (omega (arith, k)) (omega sizes),
          write_field {E = E} fs 1 window blank 32 544 refl (omega (arith, k)) (omega (arith, w))
              (omega sizes),
          write_field {E = E} fs 2 Vk.root_c_vadcop_final blank 544 576 refl (omega (arith, k, w))
              refl (omega sizes),
          drop-all (length (concat fs [])) blank
              (omega (arith, length-concat fs [], k, w, length-zeros 576)),
        )
        (ap ok (append-nil (preimage_of vk window)))

pub public_preimage-binds :
    (b : Backend) (vk vk' window window' : Bytes)
    → length vk ≡ 32
    → length vk' ≡ 32
    → length window ≡ 512
    → length window' ≡ 512
    → public_preimage {E = ⊥} b vk window ≡ public_preimage b vk' window'
    → (vk ≡ vk') × (window ≡ window')
public_preimage-binds b vk vk' window window' k k' w w' h =
    let same : preimage_of vk window ≡ preimage_of vk' window' = ok-injective {E = ⊥} (
      sym (public_preimage-preimage_of b vk window k w)
      ∙ h
      ∙ public_preimage-preimage_of b vk' window' k' w') in
    let tail : window ++ Vk.root_c_vadcop_final ≡ window' ++ Vk.root_c_vadcop_final =
      sym (drop-append_at vk (window ++ Vk.root_c_vadcop_final) 32 (sym k))
      ∙ ap (drop 32) same
      ∙ drop-append_at vk' (window' ++ Vk.root_c_vadcop_final) 32 (sym k') in
    (
      sym (take-append_at vk (window ++ Vk.root_c_vadcop_final) 32 (sym k))
          ∙ ap (take 32) same
          ∙ take-append_at vk' (window' ++ Vk.root_c_vadcop_final) 32 (sym k'),
      sym (take-append_at window Vk.root_c_vadcop_final 512 (sym w))
          ∙ ap (take 512) tail
          ∙ take-append_at window' Vk.root_c_vadcop_final 512 (sym w'),
    )

-- What is hashed for the public input determines the statement: two well-typed outputs and keys with
-- the same preimage are the same output and the same key.
pub statement-binds :
    (b : Backend) (o o' : FinalizationOutput) (vk vk' : Bytes)
    → IsOutput o
    → IsOutput o'
    → IsArray 32 vk
    → IsArray 32 vk'
    → (public_values {E = ⊥} o vk >>= public_preimage b vk)
      ≡ (public_values o' vk' >>= public_preimage b vk')
    → (o ≡ o') × (vk ≡ vk')
statement-binds b o o' vk vk' v v' k k' h =
    let built = public_values-window_of {E = ⊥} o vk v k in
    let built' = public_values-window_of {E = ⊥} o' vk' v' k' in
    let hashed = rw (built, built') at h in
    let (keys, windows) =
      public_preimage-binds b vk vk' (window_of o vk) (window_of o' vk') k.sized k'.sized
        (length-window_of o vk v k) (length-window_of o' vk' v' k') hashed in
    ((public_values-binds o o' vk vk' v v' k k' (built ∙ ap ok windows ∙ sym built')).0, keys)
