-- ===== src/Wire/Binding.antt =====
-- What the public window binds: the whole output and the whole key.
use zkasper_solana.Base.{◌≡◌, sym, ap, ◌∙◌, [], map, take, drop}
use zkasper_solana.Base.Slices.{Bytes, take-append_at, drop-append_at}
use zkasper_solana.Base.Result.{ok-injective}
use zkasper_solana.Base.Memory.{chunks}
use zkasper_solana.Base.Layout.{concat}
use zkasper_solana.Base.Words.{IsArray}
use zkasper_solana.Wire.{
  FinalizationOutput, IsOutput, guest_program_vk, public_values, from_public_bytes,
}
use zkasper_solana.Wire.PublicBytes.{
  encode_output, length-encode_output, from_public_bytes-encode_output,
}
use zkasper_solana.Wire.GuestKey.{guest_program_vk-involutive}
use zkasper_solana.Wire.Window.{committed, window_of, public_values-window_of, committed-window_of}

pub encode_output-injective :
    (o o' : FinalizationOutput)
    → IsOutput o
    → IsOutput o'
    → encode_output o ≡ encode_output o'
    → o ≡ o'
encode_output-injective o o' v v' h = ok-injective {E = ⊥} (
    sym (from_public_bytes-encode_output o v)
    ∙ ap from_public_bytes h
    ∙ from_public_bytes-encode_output o' v')

guest_program_vk-injective :
    (vk vk' : Bytes)
    → IsArray 32 vk
    → IsArray 32 vk'
    → guest_program_vk vk ≡ guest_program_vk vk'
    → vk ≡ vk'
guest_program_vk-injective vk vk' k k' h =
    sym (guest_program_vk-involutive vk k.sized)
    ∙ ap guest_program_vk h
    ∙ guest_program_vk-involutive vk' k'.sized

module _ (o o' : FinalizationOutput) (vk vk' : Bytes) (v : IsOutput o) (v' : IsOutput o')
    (k : IsArray 32 vk) (k' : IsArray 32 vk') where
  same_committed : window_of o vk ≡ window_of o' vk' → committed o vk ≡ committed o' vk'
  same_committed h =
      sym (committed-window_of o vk v k)
      ∙ ap (λ w. concat (map (take 4) (chunks 8 52 w)) []) h
      ∙ committed-window_of o' vk' v' k'

  same_output : committed o vk ≡ committed o' vk' → encode_output o ≡ encode_output o'
  same_output h =
      sym (take-append_at (encode_output o) _ 176 (sym (length-encode_output o v)))
      ∙ ap (take 176) h
      ∙ take-append_at (encode_output o') _ 176 (sym (length-encode_output o' v'))

  same_key : committed o vk ≡ committed o' vk' → guest_program_vk vk ≡ guest_program_vk vk'
  same_key h =
      sym (drop-append_at (encode_output o) _ 176 (sym (length-encode_output o v)))
      ∙ ap (drop 176) h
      ∙ drop-append_at (encode_output o') _ 176 (sym (length-encode_output o' v'))

-- Two well-typed outputs and keys of 32 bytes with the same public window are the same output and the
-- same key.
pub public_values-binds :
    (o o' : FinalizationOutput) (vk vk' : Bytes)
    → IsOutput o
    → IsOutput o'
    → IsArray 32 vk
    → IsArray 32 vk'
    → public_values {E = ⊥} o vk ≡ public_values o' vk'
    → (o ≡ o') × (vk ≡ vk')
public_values-binds o o' vk vk' v v' k k' h =
    let windows : window_of o vk ≡ window_of o' vk' =
      ok-injective {E = ⊥}
        (sym (public_values-window_of o vk v k) ∙ h ∙ public_values-window_of o' vk' v' k') in
    let same = same_committed o o' vk vk' v v' k k' windows in
    (
      encode_output-injective o o' v v' (same_output o o' vk vk' v v' k k' same),
      guest_program_vk-injective vk vk' k k' (same_key o o' vk vk' v v' k k' same),
    )
