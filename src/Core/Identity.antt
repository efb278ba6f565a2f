-- ===== src/Core/Identity.antt =====
-- soulon-wallet/src/core/identity.ts: the identity manager, and the platform's signer that
-- is not there yet.
use soulon_wallet.Prelude.{ℕ, ◌||◌, is_some, Text, codes, List, Option, none, some, if◌then◌else◌}
use soulon_wallet.Prelude.Results.{Result, err}
use soulon_wallet.Core.Errors.{Thrown, plain}
use soulon_wallet.Core.Types.{Number}
use soulon_wallet.Core.Account.{
  CreateWalletInput, Keyring, fail, create_wallet_from_mnemonic,
  create_wallet_from_mnemonic_with_path, create_random_wallet,
}

pub record SignerInput : Type 0 where
  pub wallet : CreateWalletInput
  pub coin_type : Option Number
  pub account : Option Number
  pub change : Option Number
  pub address_index : Option Number

module _ (large : ℕ → Text) (keys : Keyring) where
  open keys use {Signer}

  unfoldable pub create_signer_from_mnemonic : SignerInput → Result Thrown Signer
  create_signer_from_mnemonic input =
      let has_path_indexes =
        is_some input.account || is_some input.change || is_some input.address_index in
      elim input.coin_type [
        | none ↦
            if has_path_indexes
            then err (
                fail "INVALID_COIN_TYPE"
                  (codes "coinType is required when account/change/addressIndex is provided"))
            else create_wallet_from_mnemonic large keys input.wallet
        | some coin_type ↦ create_wallet_from_mnemonic_with_path large keys (record {
          wallet = input.wallet;
          indexes = record {
            coin_type = coin_type;
            account = input.account;
            change = input.change;
            address_index = input.address_index;
          };
        })
      ]

  unfoldable pub create_random_signer : Text → Result Thrown (Text × Signer)
  create_random_signer prefix = create_random_wallet large keys prefix

-- The bytes of a message as numbers.
pub record PlatformKeySignInput : Type 0 where
  pub message : List ℕ
  pub key_alias : Text

pub record PlatformKeySigner : Type 0 where
  pub sign_secp256k1 : PlatformKeySignInput → Result Thrown (List ℕ)
  pub sign_ed25519 : PlatformKeySignInput → Result Thrown (List ℕ)

abbrev pub create_unimplemented_platform_key_signer : PlatformKeySigner
create_unimplemented_platform_key_signer = record {
  sign_secp256k1 = λ input. err (plain (codes "Platform secp256k1 signer is not implemented"));
  sign_ed25519 = λ input. err (plain (codes "Platform ed25519 signer is not implemented"));
}
