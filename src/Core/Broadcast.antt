-- ===== src/Core/Broadcast.antt =====
-- soulon-wallet/src/core/broadcast.ts: broadcasting with retries. The option numbers are natural
-- numbers. The loop recurs on the rounds that are left, `maxAttempts + 1 - attempt`.
pub mod Retry
pub mod Safety
mod Tests
use soulon_wallet.Prelude.{
  ℕ, zero, suc, ◌+◌, ◌*◌, ltb, ◌==◌, ◌===◌, Bool, ◌&&◌, any, if◌then◌else◌, or_default, String,
  Text, codes, List, [], ◌∷◌, Option, none, some,
}
use soulon_wallet.Prelude.Results.{Result, ok, err}
use soulon_wallet.Core.Errors.{
  WalletError, Thrown, soulon, value, error_of, map_tx_error, map_broadcast_error,
}
use soulon_wallet.Core.Effects.{
  DeliverTxResponse, World, M, return, throw, settle, sleep, ◌>>=◌, ◌>>◌,
}

pub record BroadcastRetryOptions : Type 0 where
  pub max_attempts : Option ℕ
  pub base_delay_ms : Option ℕ
  pub retriable_codes : Option (List ℕ)
  pub retriable_error_codes : Option (List String)

abbrev pub no_options : BroadcastRetryOptions
no_options = record {
  max_attempts = none;
  base_delay_ms = none;
  retriable_codes = none;
  retriable_error_codes = none;
}

abbrev pub default_retriable_codes : List ℕ
default_retriable_codes = 11 ∷ 32 ∷ []

abbrev pub default_retriable_error_codes : List String
default_retriable_error_codes = "NODE_UNAVAILABLE" ∷ "INVALID_SEQUENCE" ∷ []

unfoldable pub max_attempts : BroadcastRetryOptions → ℕ
max_attempts o = or_default o.max_attempts 3

unfoldable pub base_delay_ms : BroadcastRetryOptions → ℕ
base_delay_ms o = or_default o.base_delay_ms 1200

unfoldable pub is_retriable_code : BroadcastRetryOptions → ℕ → Bool
is_retriable_code o code =
    any (λ c. c == code) (or_default o.retriable_codes default_retriable_codes)

unfoldable pub is_retriable_error : BroadcastRetryOptions → String → Bool
is_retriable_error o code =
    any (λ c. c === code) (or_default o.retriable_error_codes default_retriable_error_codes)

-- `throw mapped`, where `mapped` may be null.
abbrev pub thrown_of : Option WalletError → Thrown
thrown_of none = value (codes "null")
thrown_of (some e) = soulon e

module _ (lower : Text → Text) (execute : M DeliverTxResponse)
    (options : BroadcastRetryOptions) where
  unfoldable pub broadcast_from : ℕ → ℕ → Option WalletError → M DeliverTxResponse
  broadcast_from zero attempt last_error =
      throw (soulon (or_default last_error (error_of "TX_REJECTED" (codes "transaction rejected"))))
  broadcast_from (suc rounds) attempt last_error = do
    outcome ← settle execute
    elim outcome [
      | err error ↦
          let mapped = map_broadcast_error lower error in
          let again =
            sleep (base_delay_ms options * attempt)
            >> broadcast_from rounds (attempt + 1) (some mapped) in
          if is_retriable_error options mapped.code && ltb attempt (max_attempts options)
          then again
          else throw (soulon mapped)
      | ok result ↦
          let mapped = map_tx_error lower result.code result.raw_log in
          let again =
            sleep (base_delay_ms options * attempt) >> broadcast_from rounds (attempt + 1) mapped in
          if result.code == 0
          then return result
          else if is_retriable_code options result.code && ltb attempt (max_attempts options)
          then again
          else throw (thrown_of mapped)
    ]

  unfoldable pub broadcast_with_retry : M DeliverTxResponse
  unfolding broadcast_from
  broadcast_with_retry = broadcast_from (max_attempts options) 1 none
