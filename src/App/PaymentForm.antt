-- ===== src/App/PaymentForm.antt =====
-- wallet-app/src/lib/bip21.ts: payment URIs from the fields of a form, and back.
pub mod ReadBack
use soulon_wallet.Prelude.{
  ◌===◌, Bool, true, false, if◌then◌else◌, is_empty, or_default, trim, String, Text, codes, [],
  ◌++◌, Option, none, some,
}
use soulon_wallet.Prelude.Results.{Result, ok, ◌>>=◌}
use soulon_wallet.Core.Errors.{Thrown, soulon, plain, value}
use soulon_wallet.Core.Bip21.{
  SearchParams, GenerateBip21UriInput, generate_bip21_uri, parse_bip21_uri,
}

pub record Bip21FormInput : Type 0 where
  pub address : Text
  pub amount : Text
  pub memo : Text

-- `BIP21_ERROR_LABELS`.
unfoldable pub error_label : String → Option Text
error_label code =
    if code === "BIP21_INVALID_URI"
    then some (codes "URI 格式无效")
    else if code === "BIP21_INVALID_SCHEME"
    then some (codes "协议头无效")
    else if code === "BIP21_INVALID_ADDRESS"
    then some (codes "地址无效")
    else if code === "BIP21_INVALID_AMOUNT"
    then some (codes "金额无效")
    else none

unfoldable pub build_ui_error_message : String → Text → Text
unfolding error_label
build_ui_error_message code fallback =
    codes "BIP-21 输入有误：" ++ or_default (error_label code) fallback

unfoldable pub to_unified_bip21_error : Thrown → Text
unfolding build_ui_error_message
to_unified_bip21_error (soulon e) = build_ui_error_message e.code e.message
to_unified_bip21_error (plain message) = build_ui_error_message "UNKNOWN" message
to_unified_bip21_error (value text) = build_ui_error_message "UNKNOWN" (codes "未知错误")

-- `text.trim() ? text : undefined`.
abbrev pub unless_blank : Text → Option Text
unless_blank text = if is_empty (trim text) then none else some text

unfoldable pub create_bip21_payment_uri :
    SearchParams → (Text → Text) → Bip21FormInput → Result Thrown Text
create_bip21_payment_uri params lower input = generate_bip21_uri params lower (record {
  address = input.address;
  amount = unless_blank input.amount;
  memo = unless_blank input.memo;
  scheme = none;
})

unfoldable pub parse_bip21_input :
    SearchParams → (Text → Text) → Text → Result Thrown Bip21FormInput
parse_bip21_input params lower uri = do
  parsed ← parse_bip21_uri params lower uri
  ok (record {
    address = parsed.address;
    amount = or_default parsed.amount [];
    memo = or_default parsed.memo [];
  })
