-- ===== src/Wallet/Users.antt =====
-- services/wallet/wallet_service/services/users.py: users and their wallets.
use mini_crypto_wallet.Base.{
  ℕ, suc, ◌==◌, Bool, not, ◌&&◌, Option, [], ◌∷◌, ◌++◌, String, str_eq, if◌then◌else◌,
}
use mini_crypto_wallet.Base.Table.{find?, any, is_some, length}
use mini_crypto_wallet.Base.Result.{
  Tx, ◌>>=◌, ◌>>◌, pure, gets, modify, or_raise, raise_if, integrity_error, conflict, not_found,
  assertion_error,
}
use mini_crypto_wallet.Wallet.Models.{WalletDb, User, Wallet}
use mini_crypto_wallet.Wallet.Ledger.{ensure_balance}

-- The unique constraint is on the stored e-mail, which is in small letters. The text that
-- `email.lower()` stores is the argument `lowered`. Users are never deleted, and the ids count them.
unfoldable pub create_user : String → String → Tx WalletDb User
create_user name lowered = do
  taken ← gets (λ db. any (λ u. str_eq u.email lowered) db.users)
  raise_if taken conflict
  users ← gets (λ db. db.users)
  let user : User = record {
    id = suc (length users);
    name = name;
    email = lowered;
    status = "ACTIVE";
  }
  modify (λ db. record db { users = db.users ++ user ∷ [] })
  pure user

abbrev pub find_user : ℕ → WalletDb → Option User
find_user id db = find? (λ u. u.id == id) db.users

unfoldable pub get_user : ℕ → Tx WalletDb User
get_user id = do or_raise (← gets (find_user id)) not_found

abbrev pub is_wallet : ℕ → String → String → Wallet → Bool
is_wallet u network asset w = w.user_id == u && str_eq w.network network && str_eq w.asset asset

unfoldable pub get_wallet : ℕ → String → String → WalletDb → Option Wallet
get_wallet u network asset db = find? (is_wallet u network asset) db.wallets

-- ON CONFLICT ON CONSTRAINT uq_wallet_user_network_asset DO NOTHING; the unique address is no
-- part of that constraint, so a repeated address raises.
unfoldable pub attach_wallet : ℕ → String → String → String → Tx WalletDb (Wallet × Bool)
attach_wallet u network asset address = do
  known ← gets (λ db. is_some (get_wallet u network asset db))
  used ← gets (λ db. any (λ w. str_eq w.address address) db.wallets)
  raise_if (not known && used) integrity_error
  let row : Wallet = record {
    user_id = u;
    network = network;
    asset = asset;
    address = address;
    status = "ACTIVE";
  }
  modify (λ db. if known then db else record db { wallets = db.wallets ++ row ∷ [] })
  modify (ensure_balance u asset)
  wallet ← or_raise (← gets (get_wallet u network asset)) assertion_error
  pure (wallet, not known)

unfoldable pub wallet_by_address : String → WalletDb → Option Wallet
wallet_by_address address db = find? (λ w. str_eq w.address address) db.wallets
