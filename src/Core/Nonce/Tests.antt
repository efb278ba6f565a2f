-- ===== src/Core/Nonce/Tests.antt =====
-- Runs of the nonce manager, and its theorems at concrete inputs.
use soulon_wallet.Prelude.{[], ◌∷◌, ◌++◌, replicate, none, some, ◌≡◌, refl}
use soulon_wallet.Core.Nonce.{
  Manager, create_nonce_manager, reserve_called, reserve_answered, reserve_resumed, reset_called,
  run,
}
use soulon_wallet.Core.Nonce.Serial.{nonces_from, run-reserves, run-cold_start}
use soulon_wallet.Core.Nonce.Overlap.{answers, handed, run-overlapping}

reset_test :
    (run
      (reserve_called
        ∷ reserve_answered 7
        ∷ reserve_resumed
        ∷ reserve_called
        ∷ reset_called
        ∷ reserve_called
        ∷ [])
      create_nonce_manager)
    ≡ record { next_nonce = none; asking = 1; resuming = 0; syncing = 0; reserved = 8 ∷ 7 ∷ [] }
unfolding run
reset_test = refl

abbrev synced : Manager
synced = record { next_nonce = some 5; asking = 0; resuming = 0; syncing = 0; reserved = [] }

run-reserves_example :
    run (reserve_called ∷ reserve_called ∷ []) synced
    ≡ record synced { next_nonce = some 7; reserved = nonces_from 5 2 ++ [] }
run-reserves_example = run-reserves 2 5 synced refl

run-cold_start_example :
    (run
      (reserve_called ∷ reserve_answered 7 ∷ reserve_resumed ∷ replicate 3 reserve_called)
      create_nonce_manager).reserved
    ≡ nonces_from 7 4 ++ []
run-cold_start_example = run-cold_start 3 7 create_nonce_manager refl

-- Five calls: two are answered in one turn, then two in the next, and the last on its own.
handed_test : handed 7 (2 ∷ 2 ∷ 1 ∷ []) ≡ 7 ∷ 8 ∷ 7 ∷ 8 ∷ 7 ∷ []
unfolding nonces_from
handed_test = refl

run-overlapping_example :
    (run (replicate 5 reserve_called ++ answers 7 (2 ∷ 2 ∷ 1 ∷ [])) create_nonce_manager).reserved
    ≡ handed 7 (2 ∷ 2 ∷ 1 ∷ []) ++ []
run-overlapping_example = run-overlapping (2 ∷ 2 ∷ 1 ∷ []) 7 create_nonce_manager refl
