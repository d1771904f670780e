-- ===== src/Tests/Submission.antt =====
-- The theorems on submissions at concrete inputs.
use zkasper_solana.Base.{◌≡◌, List, [], ◌∷◌, none, arith}
use zkasper_solana.Base.Result.{ok, err}
use zkasper_solana.Errors.{into, epoch_not_advancing}
use zkasper_solana.Processor.{submit_finalization}
use zkasper_solana.Processor.Submit.{landed, submit_finalization-accepts}
use zkasper_solana.Processor.Landed.{Submitted, submit_finalization-eq-ok}
use zkasper_solana.Processor.Refused.{submit_finalization-replayed}
use zkasper_solana.Processor.Proved.{Proves, submit_finalization-Proves}
use zkasper_solana.State.LightClient
use zkasper_solana.State.LightClient.{LightClientState}
use zkasper_solana.Runtime.Accounts.{Ledger, AccountInfo}
use zkasper_solana.Tests.Toy.{toy}
use zkasper_solana.Tests.Client.{program, state_info, ring_info, proof, start_ledger, output_at}
use zkasper_solana.Tests.LongRun.{start_Stands, output_at-IsOutput, client, admits, accepted}

abbrev one_ledger : Ledger
one_ledger = landed state_info.key ring_info.key (client 0) (output_at 0) start_ledger

submit_finalization-accepts_example :
    submit_finalization toy program (state_info ∷ ring_info ∷ []) proof (output_at 0) start_ledger
    ≡ ok one_ledger
submit_finalization-accepts_example =
    submit_finalization-accepts toy program state_info ring_info [] (client 0) proof (output_at 0)
      start_ledger start_Stands.valid (output_at-IsOutput 0 (omega arith))
      (admits 0 (λ _. none) start_ledger (omega arith) start_Stands)

submit_finalization-eq-ok_example :
    Submitted toy program (state_info ∷ ring_info ∷ []) proof (output_at 0) start_ledger one_ledger
submit_finalization-eq-ok_example =
    submit_finalization-eq-ok toy program (state_info ∷ ring_info ∷ []) proof (output_at 0)
      start_ledger one_ledger start_Stands.typed (output_at-IsOutput 0 (omega arith))
      (accepted 0 (λ _. none) start_ledger (omega arith) start_Stands)

submit_finalization-replayed_example :
    submit_finalization toy program (state_info ∷ ring_info ∷ []) [] (output_at 0) one_ledger
    ≡ err (into epoch_not_advancing)
submit_finalization-replayed_example =
    submit_finalization-replayed toy program (state_info ∷ ring_info ∷ []) proof [] (output_at 0)
      (output_at 0) start_ledger one_ledger start_Stands.typed (output_at-IsOutput 0 (omega arith))
      (accepted 0 (λ _. none) start_ledger (omega arith) start_Stands) (omega arith)

submit_finalization-Proves_example :
    (info : AccountInfo) × (rest : List AccountInfo) × (s : LightClientState) × (◌≡◌
      {A = List AccountInfo}
      (state_info ∷ ring_info ∷ [])
      (info ∷ rest))
    × (LightClient.unpack (start_ledger info.key).bytes ≡ ok s)
    × Proves toy proof s.program_vk (output_at 0)
submit_finalization-Proves_example =
    submit_finalization-Proves toy program (state_info ∷ ring_info ∷ []) proof (output_at 0)
      start_ledger one_ledger start_Stands.typed (output_at-IsOutput 0 (omega arith))
      (accepted 0 (λ _. none) start_ledger (omega arith) start_Stands)
