-- ===== src/App/HomePage/Form.antt =====
-- wallet-app/src/pages/HomePage.tsx: the form of a payment, written as a URI and read back.
use soulon_wallet.Prelude.{trim, Text, [], ◌≡◌, refl}
use soulon_wallet.Prelude.Results.{ok}
use soulon_wallet.Core.Bip21.{SearchParams}
use soulon_wallet.Core.Bip21.Payments.{KeepsSchemes}
use soulon_wallet.Core.Bip21.Queries.{IsSearchParams}
use soulon_wallet.App.PaymentForm.{Bip21FormInput, create_bip21_payment_uri}
use soulon_wallet.App.PaymentForm.ReadBack.{IsFilled, parse_bip21_input-create_bip21_payment_uri}
use soulon_wallet.App.HomePage.{
  HomePage, show_uri, fill_form, handle_generate_bip21, handle_parse_bip21,
}

abbrev pub trimmed_form : Bip21FormInput → Bip21FormInput
trimmed_form input = record {
  address = trim input.address;
  amount = trim input.amount;
  memo = trim input.memo;
}

-- For a `URLSearchParams` as documented, the two buttons of the payment form, one after the other, on
-- a filled form: the first shows the form's URI, also in the field that is read, and the second leaves the
-- form as it was with its fields trimmed; and no error is on show.
pub handle_parse_bip21-handle_generate_bip21 :
    (params : SearchParams) (lower : Text → Text) (s : HomePage)
    → IsSearchParams params
    → KeepsSchemes lower
    → IsFilled s.form
    → (uri : Text) × (create_bip21_payment_uri params lower s.form ≡ ok uri)
      × (handle_parse_bip21 params lower (handle_generate_bip21 params lower s) ≡ record s {
        form = trimmed_form s.form;
        bip21_input = uri;
        generated_uri = uri;
        bip21_error = [];
        copy_status = [];
      })
unfolding handle_parse_bip21 handle_generate_bip21 show_uri fill_form
handle_parse_bip21-handle_generate_bip21 params lower s laws keeps filled =
    let (uri, made, read) =
      parse_bip21_input-create_bip21_payment_uri params lower s.form laws keeps filled in
    (uri, made, rw (made, read) refl)
