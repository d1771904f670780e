-- ===== src/State/LightClient/Total.antt =====
-- Panics of `unpack` and `pack_into`.
use zkasper_solana.Base.{ℕ, ◌≤◌, ◌+◌, ltb, length, All, arith}
use zkasper_solana.Base.Slices.{Bytes}
use zkasper_solana.Base.Memory.{write}
use zkasper_solana.Base.Words.{IsByte, length-to_le_bytes}
use zkasper_solana.Base.Yields.{
  Yields, Sized, Yields-bind, Yields-known, refuse_if-Yields, write-Yields, write_byte-Yields,
}
use zkasper_solana.Errors.{account_data_too_small}
use zkasper_solana.State.LightClient.{
  LightClientState, IsState, unpack, pack_into, light_client_len,
}
use zkasper_solana.State.LightClient.Unpack.{unpack-ne-panic, unpack-eq-ok}

pub unpack-Yields : (bytes : Bytes) → All IsByte bytes → Yields IsState (unpack bytes)
unpack-Yields bytes h =
    Yields-known (unpack bytes) (unpack-ne-panic bytes h) λ s e. (unpack-eq-ok bytes s h e).valid

module _ {E : Type 0} (n at : ℕ) (value bytes : Bytes) (h : Sized n bytes) (room : 186 ≤ n) where
  field : Sized 32 value → at + 32 ≤ 186 → Yields {E = E} (Sized n) (write at (at + 32) value bytes)
  field s k =
      write-Yields n at (at + 32) value bytes h (omega arith) (omega arith) (omega (arith, s))

  word : Sized 8 value → at + 8 ≤ 186 → Yields {E = E} (Sized n) (write at (at + 8) value bytes)
  word s k = write-Yields n at (at + 8) value bytes h (omega arith) (omega arith) (omega (arith, s))

pub pack_into-Yields :
    (s : LightClientState) (n : ℕ) (bytes : Bytes)
    → IsState s
    → Sized n bytes
    → Yields (Sized n) (pack_into s bytes)
unfolding pack_into
pack_into-Yields s n bytes v h =
    Yields-bind (refuse_if-Yields (ltb (length bytes) light_client_len) account_data_too_small)
      λ done long.
        let room : 186 ≤ n = ground (arith, long, h) in
        Yields-bind (write_byte-Yields n 0 _ bytes h (omega arith)) λ t h.
          Yields-bind (write_byte-Yields n 1 _ t h (omega arith)) λ t h.
            Yields-bind (field n 2 _ t h room v.authority.sized (omega arith)) λ t h.
              Yields-bind (field n 34 _ t h room v.accumulator_commitment.sized (omega arith))
                λ t h.
                  Yields-bind (field n 66 _ t h room v.latest_state_root.sized (omega arith)) λ t h.
                    Yields-bind (word n 98 _ t h room (length-to_le_bytes 8 _) (omega arith)) λ t h.
                      Yields-bind (field n 106 _ t h room v.finalized_root.sized (omega arith))
                        λ t h.
                          Yields-bind (field n 138 _ t h room v.program_vk.sized (omega arith))
                            λ t h.
                              Yields-bind
                                (word n 170 _ t h room (length-to_le_bytes 8 _) (omega arith))
                                λ t h. word n 178 _ t h room (length-to_le_bytes 8 _) (omega arith)
