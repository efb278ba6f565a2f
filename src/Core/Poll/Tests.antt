-- ===== src/Core/Poll/Tests.antt =====
-- Runs of the wait, and its theorem at a concrete input.
use soulon_wallet.Prelude.{
  ℕ, zero, suc, ◌+◌, List, [], ◌∷◌, length, codes, Option, none, some, ◌≡◌, refl, arith,
}
use soulon_wallet.Prelude.Results.{ok}
use soulon_wallet.Core.Types.{confirmed, timeout}
use soulon_wallet.Core.Effects.{Node, World}
use soulon_wallet.Core.Poll.{WaitForTxInput, timeout_ms, poll_interval_ms, wait_for_tx}
use soulon_wallet.Core.Poll.Wait.{ClockAdvances, IsWait, read, wait_for_tx-IsWait}

abbrev total : List ℕ → ℕ
total [] = 0
total (x ∷ xs) = x + total xs

-- The transaction is known from block 9 on, once it has been polled twice.
abbrev seen : ℕ → Option ℕ
seen zero = none
seen (suc zero) = none
seen (suc (suc n)) = some 9

abbrev node : Node
node = record {
  submit = λ w request. ok (record { code = 0; raw_log = none; transaction_hash = [] });
  get_tx = λ w hash. ok (seen (length w.polled));
  now = λ w. total w.slept;
}

abbrev input : WaitForTxInput
input = record { hash = codes "AB"; timeout_ms = some 50; poll_interval_ms = some 20 }

abbrev start : World
start = record { sent = []; slept = []; polled = []; readings = 0 }

found_test :
    (wait_for_tx node input 51 start).0
    ≡ ok (some (record { hash = codes "AB"; status = confirmed; height = some 9 }))
unfolding wait_for_tx timeout_ms poll_interval_ms
found_test = refl

late_test :
    (wait_for_tx node (record input { timeout_ms = some 40 }) 51 start).0
    ≡ ok (some (record { hash = codes "AB"; status = timeout; height = none }))
unfolding wait_for_tx timeout_ms poll_interval_ms
late_test = refl

node-ClockAdvances : ClockAdvances node
node-ClockAdvances = record { steady = λ w. omega arith; waits = λ w hash ms. omega arith }

wait_for_tx-IsWait_example :
    (n : ℕ) × IsWait node input 50 (read start) (wait_for_tx node input 51 start).0 n
unfolding timeout_ms poll_interval_ms
wait_for_tx-IsWait_example =
    wait_for_tx-IsWait node input 51 start node-ClockAdvances (omega arith) (omega arith)
