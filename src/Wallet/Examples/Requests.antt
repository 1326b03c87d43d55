-- ===== src/Wallet/Examples/Requests.antt =====
-- A user without a wallet, who asks for one.
use mini_crypto_wallet.Base.{◌≡◌, refl, String, [], ◌∷◌, ◌++◌, none}
use mini_crypto_wallet.Base.Result.{Result, ok, err, rpc_unavailable}
use mini_crypto_wallet.Common.Assets.{get_asset, usdt}
use mini_crypto_wallet.Wallet.Models.{WalletDb}
use mini_crypto_wallet.Wallet.Ledger.{new_balance, ensure_balance}
use mini_crypto_wallet.Wallet.Users.{get_user, get_wallet, attach_wallet}
use mini_crypto_wallet.Wallet.Routes.{
  Defaults, WalletRequest, WalletResponse, resolve_asset, find_wallet, record_wallet, issue_wallet,
  create_wallet, found,
}
use mini_crypto_wallet.Wallet.Routes.Wallets.{create_wallet_once}
use mini_crypto_wallet.Wallet.Examples.{two_users, user_of, wallet_of}

abbrev defaults : Defaults
defaults = record { network = "BSC"; asset = "USDT" }

abbrev request_of_3 : WalletRequest
request_of_3 = record { user_id = 3; network = none; asset = none }

abbrev three_users : WalletDb
three_users = record two_users { users = two_users.users ++ user_of 3 "cy" ∷ [] }

abbrev third_wallet : WalletDb
third_wallet = record three_users {
  wallets = three_users.wallets ++ wallet_of 3 "0xc" ∷ [];
  balances = three_users.balances ++ new_balance 3 "USDT" ∷ [];
}

abbrev issues : String → String → Result String
issues owner network = ok "0xc"

abbrev refuses : String → String → Result String
refuses owner network = err rpc_unavailable

abbrev created_wallet : WalletResponse
created_wallet = record { status = 201; wallet = wallet_of 3 "0xc" }

creates_third :
    create_wallet issues (λ db. db) defaults request_of_3 three_users
    ≡ (ok created_wallet, third_wallet)
unfolding create_wallet find_wallet resolve_asset get_asset usdt get_user get_wallet issue_wallet
    record_wallet attach_wallet ensure_balance
creates_third = refl

create_wallet_once_example :
    create_wallet refuses (λ db. db) defaults request_of_3 third_wallet
    ≡ found (wallet_of 3 "0xc") third_wallet
create_wallet_once_example =
    create_wallet_once issues refuses (λ db. db) (λ db. db) defaults request_of_3 created_wallet
      three_users third_wallet (λ x e. e) creates_third
