-- ===== src/Wallet/Examples.antt =====
-- The theorems on the wallet at concrete databases, with the tests that they need.
mod Runs
mod Consumers
mod Requests
use mini_crypto_wallet.Base.{
  ℕ, ◌+◌, ◌==◌, ◌≡◌, ◌≤◌, refl, inl, inr, ◌⊎◌, Bool, true, false, not, ◌&&◌, ◌||◌, Option, none,
  some, List, [], ◌∷◌, String, str_eq, arith, eq_iff, Bool-cases, if◌then◌else◌,
}
use mini_crypto_wallet.Base.Int.{ℤ, pos, neg, ◌+ℤ◌, ◌-ℤ◌, ◌≤ℤ◌}
use mini_crypto_wallet.Base.Result.{Result, Error, ok, err, integrity_error, idempotency_conflict}
use mini_crypto_wallet.Base.Text.{parse_uuid}
use mini_crypto_wallet.Common.Events.{Payload, EventEnvelope, str, int, tx_confirmed, show}
use mini_crypto_wallet.Wallet.Models.{
  WalletDb, User, Wallet, Balance, LedgerEntry, Transfer, TransferStatus, created, broadcasted,
  confirmed, failed, deposit, empty_db, find_balance, find_transfer,
}
use mini_crypto_wallet.Wallet.Ledger.Rows.{posted_of, reserved_of, Checked}
use mini_crypto_wallet.Wallet.Ledger.Round.{at}
use mini_crypto_wallet.Wallet.Ledger.Laws.{Reconciled, ledger_sum}
use mini_crypto_wallet.Wallet.Transfers.{
  Outcome, processed, duplicate, ignored, load_for_update, settle_transfer, fail_transfer,
  settled_transfer,
}
use mini_crypto_wallet.Wallet.Transfers.Handlers.{
  settle_transfer_lem, Settled, fail_transfer_lem, Released, Reversed, Available,
}
use mini_crypto_wallet.Wallet.Invariant.{Inv, is_open, held, Postings, has_transfer_entry}
use mini_crypto_wallet.Wallet.Dispatcher.{dispatch}
use mini_crypto_wallet.Wallet.Delivery.{deliver, deliver-Inv, dispatch_once}

abbrev pub user_of : ℕ → String → User
user_of id name = record { id = id; name = name; email = name; status = "ACTIVE" }

abbrev pub wallet_of : ℕ → String → Wallet
wallet_of id address = record {
  user_id = id;
  network = "BSC";
  asset = "USDT";
  address = address;
  status = "ACTIVE";
}

abbrev pub transfer_id : String
transfer_id = "00000000-0000-0000-0000-00000000000a"

-- A transfer of 40 from user 1 to user 2 that was broadcast.
abbrev pub transfer_of_40 : Transfer
transfer_of_40 = record {
  id = transfer_id;
  idempotency_key = "k1";
  from_user_id = 1;
  to_user_id = 2;
  asset = "USDT";
  network = "BSC";
  amount = pos 40;
  from_address = "0xa";
  to_address = "0xb";
  status = broadcasted;
  tx_hash = none;
  failure_code = none;
  failure_reason = none;
  correlation_id = "c";
  settled_at = none;
}

abbrev deposit_of_100 : LedgerEntry
deposit_of_100 = record {
  user_id = 1;
  asset = "USDT";
  amount = pos 100;
  entry_type = deposit;
  reference_type = "DEPOSIT";
  reference_id = "d1";
  correlation_id = "c";
}

abbrev pub balance_of_100 : Balance
balance_of_100 = record {
  user_id = 1;
  asset = "USDT";
  posted = pos 100;
  reserved = pos 40;
  version = 2;
}

-- User 1 has a deposit of 100, of which 40 are held for the transfer.
abbrev pub two_users : WalletDb
two_users = record empty_db {
  users = user_of 1 "ada" ∷ user_of 2 "bob" ∷ [];
  wallets = wallet_of 1 "0xa" ∷ wallet_of 2 "0xb" ∷ [];
  balances = balance_of_100 ∷ [];
  ledger_entries = deposit_of_100 ∷ [];
  transfers = transfer_of_40 ∷ [];
}

pub two_users-Reconciled : Reconciled two_users
unfolding ◌+ℤ◌
two_users-Reconciled u a = elim (Bool-cases (1 == u && str_eq "USDT" a)) [
  | inl k ↦ rw k refl
  | inr k ↦ rw k refl
]

pub two_users-Checked : Checked two_users
two_users-Checked u a b e = elim (Bool-cases (1 == u && str_eq "USDT" a)) [
  | inl k ↦ ground (arith, rw k at e)
  | inr k ↦ cc (rw k at e)
]

two_users_holds : (u : ℕ) (a : String) → reserved_of u a two_users ≡ held u a two_users
unfolding ◌+ℤ◌
two_users_holds u a = elim (Bool-cases (1 == u && str_eq "USDT" a)) [
  | inl k ↦ rw k refl
  | inr k ↦ rw k refl
]

two_users-Postings : (id : String) → Postings id (find_transfer id two_users) two_users
two_users-Postings id = elim (Bool-cases (str_eq transfer_id id)) [
  | inl k ↦ rw k ((λ u e h. ground arith), (λ u h. ground arith))
  | inr k ↦ rw k (λ u e. ground arith)
]

pub two_users-Inv : Inv two_users
two_users-Inv = record {
  reconciled = two_users-Reconciled;
  checked = two_users-Checked;
  holds = two_users_holds;
  sound = (refl, tt);
  postings = two_users-Postings;
}

abbrev payload_of_40 : Payload
payload_of_40 =
    ("transfer_id", str transfer_id) ∷ ("tx_hash", str "0xf") ∷ ("reason", str "dropped") ∷ []

loads_40 : load_for_update payload_of_40 two_users ≡ ok (some transfer_of_40, two_users)
unfolding load_for_update parse_uuid show
loads_40 = refl

settle_transfer_example :
    ((is_open transfer_of_40 ≡ true)
      × ((db' : WalletDb) × (settle_transfer "c" 7 payload_of_40 two_users ≡ ok (processed, db'))
          × Settled 7 payload_of_40 transfer_of_40 two_users db'))
    ⊎ ((transfer_of_40.status ≡ confirmed)
        × (settle_transfer "c" 7 payload_of_40 two_users ≡ ok (duplicate, two_users)))
    ⊎ ((transfer_of_40.status ≡ failed)
        × (settle_transfer "c" 7 payload_of_40 two_users ≡ ok (ignored, two_users)))
settle_transfer_example =
    settle_transfer_lem "c" 7 payload_of_40 transfer_of_40 two_users two_users-Inv loads_40

fail_transfer_example :
    ((is_open transfer_of_40 ≡ true)
      × ((db' : WalletDb) × (fail_transfer "c" payload_of_40 two_users ≡ ok (processed, db'))
          × Released payload_of_40 transfer_of_40 two_users db'))
    ⊎ ((transfer_of_40.status ≡ confirmed)
        × ((Available transfer_of_40 two_users
              × ((db' : WalletDb) × (fail_transfer "c" payload_of_40 two_users
                    ≡ ok (processed, db'))
                  × Reversed payload_of_40 transfer_of_40 two_users db'))
            ⊎ ((¬ (Available transfer_of_40 two_users))
                × (fail_transfer "c" payload_of_40 two_users ≡ err integrity_error))))
    ⊎ ((transfer_of_40.status ≡ failed)
        × (fail_transfer "c" payload_of_40 two_users ≡ ok (duplicate, two_users)))
fail_transfer_example =
    fail_transfer_lem "c" payload_of_40 transfer_of_40 two_users two_users-Inv loads_40

abbrev pub confirmed_event : EventEnvelope
confirmed_event = record {
  event_id = "00000000-0000-0000-0000-00000000000b";
  event_type = tx_confirmed;
  producer = "blockchain-service";
  correlation_id = "c";
  payload = payload_of_40;
}

deliver_example : Inv (deliver ((7, confirmed_event) ∷ (8, confirmed_event) ∷ []) two_users)
deliver_example =
    deliver-Inv ((7, confirmed_event) ∷ (8, confirmed_event) ∷ []) two_users two_users-Inv

dispatch_once_example :
    let db' = (dispatch 7 confirmed_event two_users).1 in
    ((x : Error) × (dispatch 7 confirmed_event two_users ≡ (err x, two_users)))
    ⊎ ((out : Outcome) × ((dispatch 7 confirmed_event two_users).0 ≡ ok out)
        × (dispatch 9 confirmed_event (deliver [] db') ≡ (ok duplicate, deliver [] db')))
dispatch_once_example = dispatch_once 7 9 confirmed_event [] two_users
