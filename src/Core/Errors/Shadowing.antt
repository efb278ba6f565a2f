-- ===== src/Core/Errors/Shadowing.antt =====
-- soulon-wallet/src/core/errors.ts: keywords that an earlier keyword of the table hides.
use soulon_wallet.Prelude.{
  ℕ, Text, codes, includes, starts_with, or_default, true, false, [], ◌∷◌, ◌++◌, Option, some, ◌≡◌,
  ◌≢◌, ◌⊎◌, inl, inr, refl, arith,
}
use soulon_wallet.Core.Errors.{
  error_of, includes_one_of, message_or, map_tx_error, map_message, node_keywords,
  sequence_keywords,
}

starts_with-append : (a b s : Text) → starts_with (a ++ b) s ≡ true → includes s b ≡ true
unfolding starts_with includes
starts_with-append [] [] [] h = refl
starts_with-append [] (d ∷ b) [] h = cc
starts_with-append [] b (c ∷ s) h = ground arith
starts_with-append (c ∷ a) b [] h = cc
starts_with-append (c ∷ a) b (d ∷ s) h = ground (arith, starts_with-append a b s)

-- A text that includes `a ++ b` includes `b`.
pub includes-append : (s a b : Text) → includes s (a ++ b) ≡ true → includes s b ≡ true
unfolding includes
includes-append [] [] b h = h
includes-append [] (c ∷ a) b h = cc
includes-append (c ∷ s) a b h =
    ground (arith, starts_with-append a b (c ∷ s), includes-append s a b)

-- The log, lower-cased, names a shortage of gas in one of the two Chinese forms of the gas table.
abbrev pub NamesGasShortage : Text → Type 0
NamesGasShortage text =
    (includes text (codes "gas不足") ≡ true) ⊎ (includes text (codes "燃料不足") ≡ true)

NamesGasShortage-shortage :
    (text : Text) → NamesGasShortage text → includes text (codes "不足") ≡ true
unfolding codes
NamesGasShortage-shortage text (inl h) = includes-append text (codes "gas") (codes "不足") h
NamesGasShortage-shortage text (inr h) = includes-append text (codes "燃料") (codes "不足") h

-- A failed transaction whose log names a shortage of gas in Chinese is reported as a shortage of
-- funds, whatever its code, the code 11 for "out of gas" included.
pub map_tx_error-gas_shortage :
    (lower : Text → Text) (code : ℕ) (raw_log : Option Text)
    → code ≢ 0
    → NamesGasShortage (lower (or_default raw_log []))
    → map_tx_error lower code raw_log
      ≡ some (error_of "INSUFFICIENT_FUNDS" (message_or raw_log "insufficient funds"))
unfolding map_tx_error includes_one_of
map_tx_error-gas_shortage lower code raw_log h g =
    ground (arith, NamesGasShortage-shortage (lower (or_default raw_log [])) g)

-- The same text thrown by the client is reported as "out of gas", unless it also names the node
-- or the account sequence.
pub map_message-gas_shortage :
    (lower : Text → Text) (message : Text)
    → NamesGasShortage (lower message)
    → includes_one_of (lower message) node_keywords ≡ false
    → includes_one_of (lower message) sequence_keywords ≡ false
    → (map_message lower message).code ≡ "OUT_OF_GAS"
unfolding map_message includes_one_of
map_message-gas_shortage lower message (inl g) n q = ground arith
map_message-gas_shortage lower message (inr g) n q = ground arith
