-- ===== src/Core/Poll.antt =====
-- soulon-wallet/src/core/tx.ts: waiting for a transaction. The loop takes fuel, one for each round,
-- and answers `none` if that runs out; times are milliseconds.
pub mod Wait
mod Tests
use soulon_wallet.Prelude.{
  ℕ, zero, suc, ◌+◌, ltb, Bool, if◌then◌else◌, or_default, Text, Option, none, some,
}
use soulon_wallet.Core.Types.{TxPollResult, confirmed, timeout}
use soulon_wallet.Core.Effects.{Node, M, return, sleep, get_tx, date_now, ◌>>=◌, ◌>>◌}

pub record WaitForTxInput : Type 0 where
  pub hash : Text
  pub timeout_ms : Option ℕ
  pub poll_interval_ms : Option ℕ

unfoldable pub timeout_ms : WaitForTxInput → ℕ
timeout_ms i = or_default i.timeout_ms 60_000

unfoldable pub poll_interval_ms : WaitForTxInput → ℕ
poll_interval_ms i = or_default i.poll_interval_ms 2_000

module _ (node : Node) (input : WaitForTxInput) where
  -- `Date.now() - started < timeoutMs`, over the integers.
  unfoldable pub poll_from : ℕ → ℕ → M (Option TxPollResult)
  poll_from zero started = return none
  poll_from (suc fuel) started = do
    now ← date_now node
    let again = sleep (poll_interval_ms input) >> poll_from fuel started
    let check = do
      tx ← get_tx node input.hash
      elim tx [
        | some height ↦
            return (some (record { hash = input.hash; status = confirmed; height = some height }))
        | none ↦ again
      ]
    if ltb now (started + timeout_ms input)
        then check
        else return (some (record { hash = input.hash; status = timeout; height = none }))

  unfoldable pub wait_for_tx : ℕ → M (Option TxPollResult)
  unfolding poll_from
  wait_for_tx fuel = do started ← date_now node; poll_from fuel started
