-- ===== src/Common/Assets.antt =====
-- libs/common/src/mcw_common/assets.py: the registry of assets.
use mini_crypto_wallet.Base.{ℕ, Bool, Option, none, some, String, if◌then◌else◌}
use mini_crypto_wallet.Base.Table.{is_some}
use mini_crypto_wallet.Base.Text.{upper, codes_eq}

pub record Asset : Type 0 where
  pub symbol : String
  pub decimals : ℕ
  pub network : String
  pub standard : String
  pub contract_address : String
  pub confirmations_required : ℕ
  pub finality_depth : ℕ

-- The one entry of `ASSETS`.
unfoldable pub usdt : Asset
usdt = record {
  symbol = "USDT";
  decimals = 6;
  network = "BSC";
  standard = "BEP-20";
  contract_address = "0x55d398326f99059fF775485246999027B3197955";
  confirmations_required = 3;
  finality_depth = 15;
}

-- `none` is UnsupportedAssetError. Only ASCII letters have another case here.
unfoldable pub get_asset : String → Option Asset
get_asset symbol = if codes_eq (upper symbol) (upper "USDT") then some usdt else none

unfoldable pub is_supported : String → Bool
unfolding get_asset
is_supported symbol = is_some (get_asset symbol)
