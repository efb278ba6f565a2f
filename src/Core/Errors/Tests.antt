-- ===== src/Core/Errors/Tests.antt =====
-- Runs of the error mapping, and its theorems at concrete inputs.
use soulon_wallet.Prelude.{
  Text, codes, includes, starts_with, false, or_default, [], Option, some, ◌≡◌, inl, refl, arith,
  map, ascii_lower,
}
use soulon_wallet.Core.Errors.{
  error_of, message_or, includes_one_of, map_tx_error, map_message, node_keywords,
  sequence_keywords,
}
use soulon_wallet.Core.Errors.Classes.{IsFaithful, map_tx_error-IsFaithful}
use soulon_wallet.Core.Errors.Shadowing.{NamesGasShortage, map_tx_error-gas_shortage}

abbrev low : Text → Text
low = map ascii_lower

sequence_test :
    map_tx_error low 5 (some (codes "Nonce too low"))
    ≡ some (error_of "INVALID_SEQUENCE" (codes "Nonce too low"))
unfolding map_tx_error includes_one_of includes codes
sequence_test = refl

abbrev gas_log : Option Text
gas_log = some (codes "gas不足")

names_gas : NamesGasShortage (low (or_default gas_log []))
unfolding includes codes starts_with
names_gas = inl refl

map_tx_error-gas_shortage_example :
    map_tx_error low 11 gas_log
    ≡ some (error_of "INSUFFICIENT_FUNDS" (message_or gas_log "insufficient funds"))
map_tx_error-gas_shortage_example =
    map_tx_error-gas_shortage low 11 gas_log (λ e. omega (arith, e)) names_gas

not_node : includes_one_of (low (codes "gas不足")) node_keywords ≡ false
unfolding includes_one_of includes codes starts_with
not_node = refl

not_sequence : includes_one_of (low (codes "gas不足")) sequence_keywords ≡ false
unfolding includes_one_of includes codes starts_with
not_sequence = refl

gas_message_test : (map_message low (codes "gas不足")).code ≡ "OUT_OF_GAS"
unfolding map_message includes_one_of includes codes
gas_message_test = refl

map_tx_error-IsFaithful_example :
    IsFaithful
      (or_default gas_log [])
      (error_of "INSUFFICIENT_FUNDS" (message_or gas_log "insufficient funds"))
map_tx_error-IsFaithful_example =
    map_tx_error-IsFaithful low 11 gas_log
      (error_of "INSUFFICIENT_FUNDS" (message_or gas_log "insufficient funds"))
      (map_tx_error-gas_shortage low 11 gas_log (λ e. omega (arith, e)) names_gas)
