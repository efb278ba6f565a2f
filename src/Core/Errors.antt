-- ===== src/Core/Errors.antt =====
-- soulon-wallet/src/core/errors.ts: the library's error class and the two functions that turn a
-- node's answer or a thrown value into it. `toLowerCase` of text beyond ASCII depends on the
-- Unicode tables, so the function is the parameter `lower`.
pub mod Classes
pub mod Shadowing
mod Tests
use soulon_wallet.Prelude.{
  ℕ, String, Text, codes, includes, or_text, or_default, any, Bool, ◌||◌, ◌==◌, if◌then◌else◌, List,
  [], ◌∷◌, Option, none, some,
}

pub record WalletError : Type 0 where
  pub code : String
  pub message : Text

-- What may be thrown: the library's error, another `Error` with its message, or any other value
-- with its text under `String`.
pub data Thrown : Type 0 where
  soulon : WalletError → Thrown
  plain : Text → Thrown
  value : Text → Thrown

unfoldable pub includes_one_of : Text → List String → Bool
includes_one_of text keywords = any (λ k. includes text (codes k)) keywords

abbrev pub error_of : String → Text → WalletError
error_of code message = record { code = code; message = message }

abbrev pub funds_keywords : List String
funds_keywords = "insufficient funds" ∷ "spendable balance" ∷ "不足" ∷ "余额不足" ∷ []

abbrev pub gas_keywords : List String
gas_keywords = "out of gas" ∷ "gas wanted" ∷ "gas不足" ∷ "燃料不足" ∷ []

abbrev pub sequence_keywords : List String
sequence_keywords =
    "invalid account sequence" ∷ "account sequence mismatch" ∷ "incorrect account sequence"
    ∷ "nonce" ∷ "sequence" ∷ []

abbrev pub argument_keywords : List String
argument_keywords =
    "invalid" ∷ "malformed" ∷ "illegal" ∷ "参数非法" ∷ "invalid argument" ∷ "invalid request" ∷ []

abbrev pub unauthorized_keywords : List String
unauthorized_keywords = "unauthorized" ∷ "权限" ∷ "未授权" ∷ []

abbrev pub node_keywords : List String
node_keywords =
    "econnrefused" ∷ "fetch failed" ∷ "network error" ∷ "deadline exceeded" ∷ "timeout"
    ∷ "timed out" ∷ "unavailable" ∷ "connection refused" ∷ "socket hang up" ∷ "econnreset" ∷ []

abbrev pub message_or : Option Text → String → Text
message_or raw fallback = or_text (or_default raw []) (codes fallback)

module _ (lower : Text → Text) where
  abbrev pub normalize_message : Option Text → Text
  normalize_message message = lower (or_default message [])

  -- The tests of `mapTxError` on the numeric code, once the log has said nothing.
  unfoldable pub map_tx_code : ℕ → Option Text → WalletError
  map_tx_code code raw_log =
      if code == 4
      then error_of "INSUFFICIENT_FUNDS" (message_or raw_log "insufficient funds")
      else if code == 11
      then error_of "OUT_OF_GAS" (message_or raw_log "out of gas")
      else if code == 32
      then error_of "INVALID_SEQUENCE" (message_or raw_log "invalid account sequence")
      else if code == 2 || code == 3
      then error_of "INVALID_ARGUMENT" (message_or raw_log "invalid request")
      else if code == 13
      then error_of "UNAUTHORIZED" (message_or raw_log "unauthorized")
      else error_of "TX_REJECTED" (message_or raw_log "transaction rejected")

  unfoldable pub map_tx_error : ℕ → Option Text → Option WalletError
  map_tx_error code raw_log =
      let normalized = normalize_message raw_log in
      if code == 0
      then none
      else if includes_one_of normalized funds_keywords
      then some (error_of "INSUFFICIENT_FUNDS" (message_or raw_log "insufficient funds"))
      else if includes_one_of normalized gas_keywords
      then some (error_of "OUT_OF_GAS" (message_or raw_log "out of gas"))
      else if includes_one_of normalized sequence_keywords
      then some (error_of "INVALID_SEQUENCE" (message_or raw_log "invalid account sequence"))
      else if includes_one_of normalized argument_keywords
      then some (error_of "INVALID_ARGUMENT" (message_or raw_log "invalid request"))
      else if includes_one_of normalized unauthorized_keywords
      then some (error_of "UNAUTHORIZED" (message_or raw_log "unauthorized"))
      else some (map_tx_code code raw_log)

  -- The tests of `mapBroadcastError` on the message of a value that is no wallet error.
  unfoldable pub map_message : Text → WalletError
  map_message message =
      let normalized = normalize_message (some message) in
      if includes_one_of normalized node_keywords
      then error_of "NODE_UNAVAILABLE" (or_text message (codes "node unavailable"))
      else if includes_one_of normalized sequence_keywords
      then error_of "INVALID_SEQUENCE" (or_text message (codes "invalid account sequence"))
      else if includes_one_of normalized gas_keywords
      then error_of "OUT_OF_GAS" (or_text message (codes "out of gas"))
      else if includes_one_of normalized funds_keywords
      then error_of "INSUFFICIENT_FUNDS" (or_text message (codes "insufficient funds"))
      else if includes_one_of normalized argument_keywords
      then error_of "INVALID_ARGUMENT" (or_text message (codes "invalid request"))
      else error_of "TX_REJECTED" (or_text message (codes "transaction rejected"))

  unfoldable pub map_broadcast_error : Thrown → WalletError
  map_broadcast_error (soulon e) = e
  map_broadcast_error (plain message) = map_message message
  map_broadcast_error (value text) = map_message text
