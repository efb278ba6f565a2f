-- ===== src/Core/Broadcast/Tests.antt =====
-- Runs of the broadcast, and its theorems at concrete inputs.
use soulon_wallet.Prelude.{
  ℕ, zero, suc, ◌-◌, ◌<◌, Text, codes, [], ◌∷◌, ◌++◌, replicate, none, ◌≡◌, refl, arith, map,
  ascii_lower, length, true,
}
use soulon_wallet.Prelude.Results.{Result, ok, err}
use soulon_wallet.Core.Errors.{Thrown, plain, map_message, map_broadcast_error, includes_one_of}
use soulon_wallet.Core.Effects.{DeliverTxResponse, TxRequest, Node, World, sign_and_broadcast}
use soulon_wallet.Prelude.{includes}
use soulon_wallet.Core.Broadcast.{
  no_options, max_attempts, base_delay_ms, is_retriable_error, broadcast_with_retry,
}
use soulon_wallet.Core.Broadcast.Retry.{
  is_retriable, answer, delays, after, IsRun, broadcast_with_retry-IsRun,
}
use soulon_wallet.Core.Broadcast.Safety.{
  IsSound, broadcast_with_retry-IsSound, broadcast_with_retry-succeeds,
}

abbrev low : Text → Text
low = map ascii_lower

abbrev accepted : DeliverTxResponse
accepted = record { code = 0; raw_log = none; transaction_hash = codes "AB" }

abbrev answer_of : ℕ → Result Thrown DeliverTxResponse
answer_of zero = err (plain (codes "fetch failed"))
answer_of (suc n) = ok accepted

-- A node that is down for the first request.
abbrev flaky : Node
flaky = record {
  submit = λ w request. answer_of (length w.sent);
  get_tx = λ w hash. ok none;
  now = λ w. 0;
}

abbrev request : TxRequest
request = record { signer = codes "soulon1a"; messages = []; memo = [] }

abbrev start : World
start = record { sent = []; slept = []; polled = []; readings = 0 }

retry_test : broadcast_with_retry low (sign_and_broadcast flaky request) no_options start ≡ (
  ok accepted,
  record { sent = request ∷ request ∷ []; slept = 1200 ∷ []; polled = []; readings = 0 },
)
unfolding broadcast_with_retry map_broadcast_error map_message includes_one_of includes codes
    max_attempts base_delay_ms is_retriable_error
retry_test = refl

broadcast_with_retry-IsRun_example :
    (n : ℕ) × IsRun low flaky request no_options 1
      (max_attempts no_options - 1)
      start
      (broadcast_with_retry low (sign_and_broadcast flaky request) no_options start)
      n
    × ((broadcast_with_retry low (sign_and_broadcast flaky request) no_options start).1.sent
        ≡ request ∷ replicate n request ++ [])
    × ((broadcast_with_retry low (sign_and_broadcast flaky request) no_options start).1.slept
        ≡ delays (base_delay_ms no_options) 1 n ++ [])
unfolding max_attempts
broadcast_with_retry-IsRun_example =
    broadcast_with_retry-IsRun low flaky request no_options start (omega arith)

broadcast_with_retry-IsSound_example :
    IsSound (broadcast_with_retry low (sign_and_broadcast flaky request) no_options start).0
broadcast_with_retry-IsSound_example =
    broadcast_with_retry-IsSound low (sign_and_broadcast flaky request) no_options start

first_fails :
    (i : ℕ)
    → i < 1
    → is_retriable low no_options (answer low flaky request no_options 1 i start) ≡ true
unfolding is_retriable answer after map_broadcast_error map_message includes_one_of includes codes
    is_retriable_error
first_fails zero h = refl
first_fails (suc i) h = absurd (omega arith)

broadcast_with_retry-succeeds_example :
    (broadcast_with_retry low (sign_and_broadcast flaky request) no_options start).0 ≡ ok accepted
unfolding max_attempts answer after
broadcast_with_retry-succeeds_example =
    broadcast_with_retry-succeeds low flaky request no_options start 1 accepted (omega arith)
      first_fails refl refl
