-- ===== src/Core/Errors/Classes.antt =====
-- soulon-wallet/src/core/errors.ts: the classes that the two mapping functions assign.
use soulon_wallet.Prelude.{
  ℕ, All, ◌===◌, String, Text, codes, or_text, or_default, any, Bool, true, false, ◌||◌, ◌==◌,
  if◌then◌else◌, List, [], ◌∷◌, Option, none, some, ◌≡◌, ◌≢◌, ◌↔◌, inl, inr, refl, arith,
  Bool-cases, Option-cases, is_empty,
}
use mathlib.Core.Path.{subst}
use soulon_wallet.Core.Errors.{
  WalletError, error_of, includes_one_of, funds_keywords, gas_keywords, sequence_keywords,
  argument_keywords, unauthorized_keywords, node_keywords, map_tx_code, map_tx_error, map_message,
}

abbrev pub semantic_codes : List String
semantic_codes =
    "INVALID_ARGUMENT" ∷ "INSUFFICIENT_FUNDS" ∷ "OUT_OF_GAS" ∷ "INVALID_SEQUENCE" ∷ "UNAUTHORIZED"
    ∷ "NODE_UNAVAILABLE" ∷ "TX_REJECTED" ∷ []

unfoldable pub is_semantic : String → Bool
is_semantic code = any (λ c. code === c) semantic_codes

-- The class is one of the codes that a node's answer can have, and the message is the raw text,
-- or a text of the library's own if that is empty: never empty.
pub record IsFaithful (raw : Text) (e : WalletError) : Type 0 where
  pub semantic : is_semantic e.code ≡ true
  pub kept : raw ≢ [] → e.message ≡ raw
  pub said : e.message ≢ []

-- A row of a priority table: keywords, the class, and the message for an empty text.
pub record Row : Type 0 where
  pub keywords : List String
  pub code : String
  pub fallback : String

abbrev row : List String → String → String → Row
row keywords code fallback = record { keywords = keywords; code = code; fallback = fallback }

pub first_row : List Row → Text → Option Row
first_row [] text = none
first_row (r ∷ rs) text = if includes_one_of text r.keywords then some r else first_row rs text

abbrev pub message_rows : List Row
message_rows =
    row node_keywords "NODE_UNAVAILABLE" "node unavailable"
    ∷ row sequence_keywords "INVALID_SEQUENCE" "invalid account sequence"
    ∷ row gas_keywords "OUT_OF_GAS" "out of gas"
    ∷ row funds_keywords "INSUFFICIENT_FUNDS" "insufficient funds"
    ∷ row argument_keywords "INVALID_ARGUMENT" "invalid request"
    ∷ []

abbrev pub tx_rows : List Row
tx_rows =
    row funds_keywords "INSUFFICIENT_FUNDS" "insufficient funds"
    ∷ row gas_keywords "OUT_OF_GAS" "out of gas"
    ∷ row sequence_keywords "INVALID_SEQUENCE" "invalid account sequence"
    ∷ row argument_keywords "INVALID_ARGUMENT" "invalid request"
    ∷ row unauthorized_keywords "UNAUTHORIZED" "unauthorized"
    ∷ []

-- The error for the row found, with the raw text as its message unless that is empty.
abbrev pub row_error : Text → Row → WalletError
row_error raw r = error_of r.code (or_text raw (codes r.fallback))

-- An error with a class and a fallback that are fit is faithful to every raw text.
error_of-IsFaithful :
    (raw : Text) (code fallback : String)
    → is_semantic code ≡ true
    → is_empty (codes fallback) ≡ false
    → IsFaithful raw (error_of code (or_text raw (codes fallback)))
error_of-IsFaithful [] code fallback h k = record {
  semantic = h;
  kept = λ n. absurd (n refl);
  said = λ e. ground arith;
}
error_of-IsFaithful (c ∷ s) code fallback h k = record {
  semantic = h;
  kept = λ _. refl;
  said = λ e. cc;
}

if-IsFaithful :
    (raw : Text) (b : Bool) (e e' : WalletError)
    → IsFaithful raw e
    → IsFaithful raw e'
    → IsFaithful raw (if b then e else e')
if-IsFaithful raw true e e' h h' = h
if-IsFaithful raw false e e' h h' = h'

abbrev IsFit : Row → Type 0
IsFit r = (is_semantic r.code ≡ true) × (is_empty (codes r.fallback) ≡ false)

row_error-IsFaithful : (raw : Text) (r : Row) → IsFit r → IsFaithful raw (row_error raw r)
row_error-IsFaithful raw r h = error_of-IsFaithful raw r.code r.fallback h.0 h.1

first_row-IsFit :
    (rs : List Row) (text : Text) (r : Row) → All IsFit rs → first_row rs text ≡ some r → IsFit r
unfolding first_row
first_row-IsFit [] text r h e = cc
first_row-IsFit (x ∷ rs) text r h e = elim (Bool-cases (includes_one_of text x.keywords)) [
  | inl y ↦ let same : x ≡ r = ground arith in subst IsFit same h.0
  | inr n ↦ first_row-IsFit rs text r h.1 (rw n at e)
]

tx_rows-IsFit : All IsFit tx_rows
unfolding is_semantic codes
tx_rows-IsFit = ((refl, refl), ((refl, refl), ((refl, refl), ((refl, refl), ((refl, refl), tt)))))

message_rows-IsFit : All IsFit message_rows
unfolding is_semantic codes
message_rows-IsFit =
    ((refl, refl), ((refl, refl), ((refl, refl), ((refl, refl), ((refl, refl), tt)))))

module _ (lower : Text → Text) where
  -- A zero code is no error; otherwise the first row of the table whose keywords occur in the
  -- lower-cased log decides, and only a log without any keyword leaves the numeric code to decide.
  pub map_tx_error-first_row :
      (code : ℕ) (raw_log : Option Text)
      → map_tx_error lower code raw_log ≡ (
          if code == 0 then none else elim (first_row tx_rows (lower (or_default raw_log []))) [
            | none ↦ some (map_tx_code lower code raw_log)
            | some r ↦ some (row_error (or_default raw_log []) r)
          ])
  unfolding map_tx_error first_row
  map_tx_error-first_row code raw_log = ground arith

  pub map_message-first_row :
      (message : Text)
      → map_message lower message ≡ elim (first_row message_rows (lower message)) [
        | none ↦ row_error message (row [] "TX_REJECTED" "transaction rejected")
        | some r ↦ row_error message r
      ]
  unfolding map_message first_row
  map_message-first_row message = ground arith

  -- `mapTxError` returns null exactly for code 0.
  pub map_tx_error-eq-none_iff :
      (code : ℕ) (raw_log : Option Text) → (map_tx_error lower code raw_log ≡ none) ↔ (code ≡ 0)
  unfolding map_tx_error
  map_tx_error-eq-none_iff code raw_log = ground arith

  map_tx_code-IsFaithful :
      (code : ℕ) (raw_log : Option Text)
      → IsFaithful (or_default raw_log []) (map_tx_code lower code raw_log)
  unfolding map_tx_code is_semantic codes
  map_tx_code-IsFaithful code raw_log =
      let raw = or_default raw_log [] in
      if-IsFaithful raw (code == 4) _ _
        (error_of-IsFaithful raw "INSUFFICIENT_FUNDS" "insufficient funds" refl refl)
        (if-IsFaithful raw (code == 11) _ _
          (error_of-IsFaithful raw "OUT_OF_GAS" "out of gas" refl refl)
          (if-IsFaithful raw (code == 32) _ _
            (error_of-IsFaithful raw "INVALID_SEQUENCE" "invalid account sequence" refl refl)
            (if-IsFaithful raw (code == 2 || code == 3) _ _
              (error_of-IsFaithful raw "INVALID_ARGUMENT" "invalid request" refl refl)
              (if-IsFaithful raw (code == 13) _ _
                (error_of-IsFaithful raw "UNAUTHORIZED" "unauthorized" refl refl)
                (error_of-IsFaithful raw "TX_REJECTED" "transaction rejected" refl refl)))))

  -- Every error that `mapTxError` makes has a semantic class and keeps a log that is not empty.
  pub map_tx_error-IsFaithful :
      (code : ℕ) (raw_log : Option Text) (e : WalletError)
      → map_tx_error lower code raw_log ≡ some e
      → IsFaithful (or_default raw_log []) e
  map_tx_error-IsFaithful code raw_log e h =
      elim (Option-cases (first_row tx_rows (lower (or_default raw_log [])))) [
        | inl miss ↦
            subst (IsFaithful _) (ground (arith, map_tx_error-first_row code raw_log))
              (map_tx_code-IsFaithful code raw_log)
        | inr (r, hit) ↦
            subst (IsFaithful _) (ground (arith, map_tx_error-first_row code raw_log)) (
              row_error-IsFaithful (or_default raw_log []) r
                (first_row-IsFit tx_rows _ r tx_rows-IsFit hit))
      ]

  -- Every error that `mapBroadcastError` makes of a message has a semantic class, and keeps a
  -- message that is not empty.
  pub map_message-IsFaithful : (message : Text) → IsFaithful message (map_message lower message)
  unfolding is_semantic codes
  map_message-IsFaithful message = elim (Option-cases (first_row message_rows (lower message))) [
    | inl miss ↦
        subst (IsFaithful message) (ground (arith, map_message-first_row message))
          (error_of-IsFaithful message "TX_REJECTED" "transaction rejected" refl refl)
    | inr (r, hit) ↦
        subst (IsFaithful message) (ground (arith, map_message-first_row message))
          (row_error-IsFaithful message r (first_row-IsFit message_rows _ r message_rows-IsFit hit))
  ]
