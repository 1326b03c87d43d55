-- ===== src/Wallet/Routes.antt =====
-- services/wallet/wallet_service/api/routes.py: `_resolve_asset`, `create_wallet`, `get_wallet` and
-- `get_balance`. The answer of the blockchain service to a request for an address is a parameter,
-- and so is what other transactions commit while it is awaited.
pub mod Wallets
use mini_crypto_wallet.Base.{ℕ, Bool, Option, none, some, String, str_eq, if◌then◌else◌}
use mini_crypto_wallet.Base.Int.{ℤ, pos, ◌-ℤ◌}
use mini_crypto_wallet.Base.Text.{◌<>◌, show_ℕ}
use mini_crypto_wallet.Base.Result.{
  Tx, Result, ok, err, if_none, ◌>>=◌, ◌>>◌, pure, gets, or_raise, atomically, after,
  validation_error, not_found,
}
use mini_crypto_wallet.Common.Assets.{Asset, get_asset}
use mini_crypto_wallet.Common.Money.{format_amount}
use mini_crypto_wallet.Wallet.Models.{WalletDb, Wallet, Balance}
use mini_crypto_wallet.Wallet.Ledger.{read_balance}
use mini_crypto_wallet.Wallet.Users.{get_user, get_wallet, attach_wallet}

-- `value or default`, where the empty text is no value.
abbrev pub or_default : Option String → String → String
or_default none default = default
or_default (some value) default = if str_eq value "" then default else value

-- `default_network` and `default_asset` of the settings.
pub record Defaults : Type 0 where
  pub network : String
  pub asset : String

unfoldable pub resolve_asset : String → Tx WalletDb Asset
resolve_asset symbol = or_raise (get_asset symbol) validation_error

-- The network and the asset of a request, `none` where it leaves them out.
pub record WalletRequest : Type 0 where
  pub user_id : ℕ
  pub network : Option String
  pub asset : Option String

pub record WalletResponse : Type 0 where
  pub status : ℕ
  pub wallet : Wallet

abbrev pub network_of : Defaults → WalletRequest → String
network_of d r = or_default r.network d.network

-- The asset, and the wallet that the first session of `create_wallet` finds.
unfoldable pub find_wallet : Defaults → WalletRequest → Tx WalletDb (Asset × Option Wallet)
find_wallet d r = do
  asset ← resolve_asset (or_default r.asset d.asset)
  get_user r.user_id
  existing ← gets (get_wallet r.user_id (network_of d r) asset.symbol)
  pure (asset, existing)

-- The second session of `create_wallet`.
unfoldable pub record_wallet : ℕ → String → String → String → Tx WalletDb WalletResponse
record_wallet u network symbol address = do
  (wallet, created) ← attach_wallet u network symbol address
  pure (record { status = if created then 201 else 200; wallet = wallet })

-- The answer to a wallet that is there, with status 200 and nothing changed.
abbrev pub found : Wallet → WalletDb → Result WalletResponse × WalletDb
found w db = (ok (record { status = 200; wallet = w }), db)

module _ (create_address : String → String → Result String) (meanwhile : WalletDb → WalletDb)
    (d : Defaults) where
  unfoldable pub issue_wallet :
      WalletRequest → String → Result String → WalletDb → Result WalletResponse × WalletDb
  issue_wallet r symbol (err e) db = (err e, db)
  issue_wallet r symbol (ok address) db =
      atomically (record_wallet r.user_id (network_of d r) symbol address) db

  unfoldable pub create_wallet : WalletRequest → WalletDb → Result WalletResponse × WalletDb
  create_wallet r db = after (atomically (find_wallet d r) db) λ (asset, existing) db1.
      if_none existing
        (issue_wallet r asset.symbol (create_address ("user:" <> show_ℕ r.user_id) (network_of d r))
          (meanwhile db1))
        λ w. found w db1

-- The route GET /users/{user_id}/wallet.
unfoldable pub read_wallet : Defaults → WalletRequest → Tx WalletDb Wallet
read_wallet d r = do (asset, wallet) ← find_wallet d r; or_raise wallet not_found

pub record BalanceResponse : Type 0 where
  pub user_id : ℕ
  pub asset : String
  pub posted : String
  pub reserved : String
  pub available : String
  pub decimals : ℕ

-- The amounts of a balance, 0 where there is no row.
abbrev pub posted_or_0 : Option Balance → ℤ
posted_or_0 none = pos 0
posted_or_0 (some b) = b.posted

abbrev pub reserved_or_0 : Option Balance → ℤ
reserved_or_0 none = pos 0
reserved_or_0 (some b) = b.reserved

unfoldable pub get_balance : Defaults → ℕ → Option String → Tx WalletDb BalanceResponse
get_balance d u asset = do
  resolved ← resolve_asset (or_default asset d.asset)
  get_user u
  balance ← gets (read_balance u resolved.symbol)
  let posted = posted_or_0 balance
  let reserved = reserved_or_0 balance
  pure (record {
    user_id = u;
    asset = resolved.symbol;
    posted = format_amount posted resolved.decimals;
    reserved = format_amount reserved resolved.decimals;
    available = format_amount (posted -ℤ reserved) resolved.decimals;
    decimals = resolved.decimals;
  })
