-- ===== src/App/Errors.antt =====
-- wallet-app/src/api/errors.ts: the errors of the backend's client.
use soulon_wallet.Prelude.{
  ℕ, ◌==◌, Bool, false, ◌&&◌, ◌||◌, any, eq_text, or_text, trim, if◌then◌else◌, String, Text, codes,
  List, [], ◌∷◌, Option, none, some,
}

-- `ApiClientError`; its code is a string.
pub record ApiError : Type 0 where
  pub code : Text
  pub message : Text
  pub status : Option ℕ
  pub retryable : Bool

abbrev pub wallet_semantic_error_codes : List String
wallet_semantic_error_codes =
    "INVALID_ARGUMENT" ∷ "INSUFFICIENT_FUNDS" ∷ "OUT_OF_GAS" ∷ "INVALID_SEQUENCE" ∷ "UNAUTHORIZED"
    ∷ "CHAIN_UNAVAILABLE" ∷ "NOT_FOUND" ∷ "METHOD_NOT_ALLOWED" ∷ "TX_REJECTED" ∷ "INTERNAL_ERROR"
    ∷ []

unfoldable pub is_wallet_semantic_error_code : Text → Bool
unfolding eq_text codes
is_wallet_semantic_error_code code = any (λ c. eq_text (codes c) code) wallet_semantic_error_codes

-- The last case stands for the code that is left, `INTERNAL_ERROR`.
unfoldable pub wallet_semantic_error_messages : Text → Text
unfolding eq_text codes
wallet_semantic_error_messages code =
    if eq_text code (codes "INVALID_ARGUMENT")
    then codes "请求参数不合法，请检查后重试。"
    else if eq_text code (codes "INSUFFICIENT_FUNDS")
    then codes "余额不足，请补充资产后重试。"
    else if eq_text code (codes "OUT_OF_GAS")
    then codes "Gas 不足，请提高手续费后重试。"
    else if eq_text code (codes "INVALID_SEQUENCE")
    then codes "账户序列号不一致，请刷新状态后重试。"
    else if eq_text code (codes "UNAUTHORIZED")
    then codes "当前请求未授权，请重新登录。"
    else if eq_text code (codes "CHAIN_UNAVAILABLE")
    then codes "链端暂不可用，请稍后重试。"
    else if eq_text code (codes "NOT_FOUND")
    then codes "请求资源不存在或已删除。"
    else if eq_text code (codes "METHOD_NOT_ALLOWED")
    then codes "当前接口不支持该请求方法。"
    else if eq_text code (codes "TX_REJECTED")
    then codes "交易被链端拒绝，请检查交易参数。"
    else codes "服务内部异常，请稍后重试。"

unfoldable pub resolve_wallet_semantic_error_message : Text → Text → Text
unfolding wallet_semantic_error_messages
resolve_wallet_semantic_error_message code message =
    or_text (trim message) (wallet_semantic_error_messages code)

abbrev pub is_status : Option ℕ → ℕ → Bool
is_status none n = false
is_status (some s) n = s == n

-- Of an `ApiClientError`; any other error is no invalid session.
unfoldable pub is_session_invalid_error : ApiError → Bool
is_session_invalid_error error =
    eq_text error.code (codes "UNAUTHORIZED")
    || (eq_text error.code (codes "HTTP_ERROR")
        && (is_status error.status 401 || is_status error.status 403))

-- What a request of a page throws: an `ApiClientError`, another error with its message, or no error.
pub data RequestError : Type 0 where
  api : ApiError → RequestError
  other_error : Text → RequestError
  no_error : RequestError
