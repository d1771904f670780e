-- ===== src/Tests/Artifacts.antt =====
-- The theorems on the client and the fixture, on the text of one small artifact.
use zkasper_solana.Base.{◌≡◌, refl, Option, some, none, replicate, arith, bytes_eq, if◌then◌else◌}
use zkasper_solana.Base.Slices.{Bytes, slice, copy_slice}
use zkasper_solana.Base.Result.{ok}
use zkasper_solana.Base.Memory.{read, write, zeros, chunks, chunks_exact}
use zkasper_solana.Base.Text.{codes, find, find-eq-some, starts_with}
use zkasper_solana.Base.Words.{to_le_bytes, from_le_bytes}
use zkasper_solana.Cli.{gather}
use zkasper_solana.Cli.Artifact.{Dies, Wrap, read_wrap}
use zkasper_solana.Cli.Read.{Shows, read_wrap-Shows}
use zkasper_solana.Fixture.{Fixture, field, fixture}
use zkasper_solana.Fixture.Agrees.{fixture-read_wrap}
use zkasper_solana.Plonk.Encoding.{compress_proof, convert_points}
use zkasper_solana.Plonk.Vk.{root_c_vadcop_final}
use zkasper_solana.Tests.Client.{vk, proof, output_at}
use zkasper_solana.Tests.LongRun.{array, output_at-IsOutput}
use zkasper_solana.Tests.Toy.{toy}
use zkasper_solana.Wire.{public_values, public_bytes, from_public_bytes, guest_program_vk, spread}
use zkasper_solana.Wire.Window.{window_of, public_values-window_of}

abbrev pub artifact : Bytes
artifact = codes "rootCVadcopFinal\"0xR\" publicValues\"0xW\" programVK\"0xK\" proofBytes\"0xP\""

abbrev expanded : Bytes
expanded = replicate 768 4

-- A decoder that knows the four words of the artifact.
abbrev pub hex : Bytes → Option Bytes
hex word =
    if bytes_eq word (codes "R")
    then some root_c_vadcop_final
    else if bytes_eq word (codes "W")
    then some (window_of (output_at 0) vk)
    else if bytes_eq word (codes "K")
    then some vk
    else if bytes_eq word (codes "P")
    then some expanded
    else none

Shows-window : Shows artifact (codes "publicValues") (codes "W")
unfolding find starts_with
Shows-window = record {
  at = 22;
  named = find-eq-some (codes "publicValues") artifact 22 refl;
  gap = 1;
  opened = find-eq-some (codes "0x") _ 1 refl;
  end = 1;
  closed = find-eq-some (codes "\"") _ 1 refl;
  word_is = refl;
}

Shows-key : Shows artifact (codes "programVK") (codes "K")
unfolding find starts_with
Shows-key = record {
  at = 40;
  named = find-eq-some (codes "programVK") artifact 40 refl;
  gap = 1;
  opened = find-eq-some (codes "0x") _ 1 refl;
  end = 1;
  closed = find-eq-some (codes "\"") _ 1 refl;
  word_is = refl;
}

Shows-proof : Shows artifact (codes "proofBytes") (codes "P")
unfolding find starts_with
Shows-proof = record {
  at = 55;
  named = find-eq-some (codes "proofBytes") artifact 55 refl;
  gap = 1;
  opened = find-eq-some (codes "0x") _ 1 refl;
  end = 1;
  closed = find-eq-some (codes "\"") _ 1 refl;
  word_is = refl;
}

compresses : compress_proof toy.backend.syscalls expanded ≡ ok proof
unfolding compress_proof convert_points read write zeros chunks chunks_exact slice copy_slice
compresses = refl

abbrev pub wrap : Wrap
wrap = record { program_vk = vk; proof = proof; output = output_at 0 }

read_wrap-Shows_example : read_wrap hex toy.backend.syscalls artifact ≡ ok wrap
unfolding bytes_eq
read_wrap-Shows_example =
    read_wrap-Shows hex artifact toy.backend.syscalls (output_at 0) vk (codes "W") (codes "K")
      (codes "P") (window_of (output_at 0) vk) expanded proof (output_at-IsOutput 0 (omega arith))
      (array 32 vk refl refl) Shows-window Shows-key Shows-proof
      (public_values-window_of {E = Dies} (output_at 0) vk (output_at-IsOutput 0 (omega arith))
        (array 32 vk refl refl))
      refl refl refl compresses

abbrev pub loaded : Fixture
loaded = record {
  program_vk = vk;
  public_values = window_of (output_at 0) vk;
  proof = expanded;
  compressed = proof;
  output = output_at 0;
}

pub loads : fixture hex toy.backend.syscalls artifact ≡ ok loaded
unfolding fixture field find starts_with gather from_public_bytes public_values public_bytes spread
    guest_program_vk output_at compress_proof convert_points read write zeros chunks chunks_exact
    slice copy_slice bytes_eq to_le_bytes from_le_bytes
loads = refl

fixture-read_wrap_example :
    (read_wrap hex toy.backend.syscalls artifact ≡ ok wrap)
    × (public_values {E = Dies} (output_at 0) vk ≡ ok (window_of (output_at 0) vk))
fixture-read_wrap_example = fixture-read_wrap hex toy.backend.syscalls artifact loaded loads
