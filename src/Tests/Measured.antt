-- ===== src/Tests/Measured.antt =====
-- The theorems on the measurement program at concrete inputs.
use zkasper_solana.Base.{◌≡◌, refl, ◌↔◌, replicate, arith}
use zkasper_solana.Base.Slices.{Bytes, slice, copy_slice}
use zkasper_solana.Base.Result.{ok}
use zkasper_solana.Base.Memory.{read, write, zeros, chunks, chunks_exact}
use zkasper_solana.Cost.{process_instruction}
use zkasper_solana.Cost.Modes.{payload, modes_decompose, measured_program_iff}
use zkasper_solana.Plonk.Encoding.{decompress_proof, convert_points}
use zkasper_solana.Processor
use zkasper_solana.Tests.Client.{vk, proof, output_at}
use zkasper_solana.Tests.LongRun.{array, output_at-IsOutput}
use zkasper_solana.Tests.Toy.{toy}

abbrev expanded : Bytes
expanded = replicate 768 4

expands : decompress_proof toy.backend.syscalls proof ≡ ok expanded
unfolding decompress_proof convert_points read write zeros chunks chunks_exact slice copy_slice
expands = refl

modes_decompose_example :
    (process_instruction toy.backend (payload 10 0 0 vk (output_at 0) expanded) ≡ ok tt) ↔ (
      (process_instruction toy.backend (payload 8 0 0 vk (output_at 0) expanded) ≡ ok tt)
      × (process_instruction toy.backend (payload 1 0 0 vk (output_at 0) expanded) ≡ ok tt))
modes_decompose_example =
    modes_decompose toy.backend 0 0 vk (output_at 0) expanded (array 32 vk refl refl)
      (output_at-IsOutput 0 (omega arith))

measured_program_iff_example :
    (process_instruction toy.backend (payload 1 0 0 vk (output_at 0) expanded) ≡ ok tt)
    ↔ (Processor.verify toy proof vk (output_at 0) ≡ ok tt)
measured_program_iff_example =
    measured_program_iff toy 0 0 vk (output_at 0) proof expanded (array 32 vk refl refl)
      (output_at-IsOutput 0 (omega arith)) expands
