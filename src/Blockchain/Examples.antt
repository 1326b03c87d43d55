-- ===== src/Blockchain/Examples.antt =====
-- The theorems on the blockchain service at concrete databases.
mod Chains
mod Consumers
use mini_crypto_wallet.Blockchain.Models.{Address}
use mini_crypto_wallet.Blockchain.Addresses.{
  Account, new_address, issue, get_or_create_address, get_or_create_address_once,
}
use mini_crypto_wallet.Base.{
  false, ◌<◌, ◌⊎◌, ◌+◌, ◌≡◌, ◌≤◌, refl, Bool, true, false, List, [], ◌∷◌, String,
}
use mini_crypto_wallet.Base.Int.{pos}
use mini_crypto_wallet.Base.Table.{length}
use mini_crypto_wallet.Base.Text.{upper}
use mini_crypto_wallet.Base.Result.{Result, ok, err}
use mini_crypto_wallet.Common.Assets.{get_asset, usdt}
use mini_crypto_wallet.Blockchain.Models.{ChainDb, OutgoingTransaction, enqueue}
use mini_crypto_wallet.Blockchain.Transactions.{new_outgoing, claim_rows}
use mini_crypto_wallet.Blockchain.Transactions.Claims.{claim_rows-AllDue, Claims, AllDue}
use mini_crypto_wallet.Blockchain.Deposits.{
  TransferLog, insert_or_revive, deposit_payload, upsert_deposit,
}
use mini_crypto_wallet.Blockchain.Deposits.Once.{upsert_deposit_once}
use mini_crypto_wallet.Base.{str_eq, ℕ}
use mini_crypto_wallet.Blockchain.Models.{Deposit}
use mini_crypto_wallet.Common.Events.{EventEnvelope, transfer_requested}
use mini_crypto_wallet.Common.Outbox.{OutboxRow}
use mini_crypto_wallet.Common.Outbox.Relay.{relay_rows}
use mini_crypto_wallet.Blockchain.Watcher.{TxReceipt}
use mini_crypto_wallet.Blockchain.Deposits.{new_deposit, Verified, reverify}
use mini_crypto_wallet.Base.{Option, none, some}
use mini_crypto_wallet.Base.Result.{err}

abbrev pub empty_chain : ChainDb
empty_chain = record {
  addresses = [];
  key_material = [];
  outgoing_transactions = [];
  deposits = [];
  scan_state = [];
  outbox = [];
  processed_events = [];
  dead_letters = [];
}

abbrev rows_of_two : List OutgoingTransaction
rows_of_two =
    new_outgoing "o1" "t1" "BSC" "USDT" "0xa" "0xb" (pos 40) "c"
    ∷ new_outgoing "o2" "t2" "BSC" "USDT" "0xa" "0xb" (pos 30) "c"
    ∷ []

claims_one : length (claim_rows 1 100 2 rows_of_two).0 ≡ 1
unfolding claim_rows
claims_one = refl

claim_rows_example :
    (length (claim_rows 1 100 2 rows_of_two).0 ≤ 1)
    × Claims 100 2 1 rows_of_two
        (claim_rows 1 100 2 rows_of_two).0
        (claim_rows 1 100 2 rows_of_two).1
    × (((101 < 100 + 2) × AllDue false 101 (claim_rows 1 100 2 rows_of_two).0)
        ⊎ ((100 + 2 ≤ 101) × AllDue true 101 (claim_rows 1 100 2 rows_of_two).0))
claim_rows_example = claim_rows-AllDue 1 100 2 101 rows_of_two

abbrev log_of_5 : TransferLog
log_of_5 = record {
  network = "BSC";
  asset = "USDT";
  tx_hash = "0xd";
  log_index = 0;
  block_number = 7;
  block_hash = "0xe";
  from_address = "0xf";
  to_address = "0xb";
  amount = pos 5;
}

abbrev name_hash : String → String
name_hash s = s

abbrev log_key : TransferLog → String
log_key e = e.tx_hash

abbrev state_of : Result (Bool × ChainDb) → ChainDb
state_of (ok (new, db)) = db
state_of (err e) = empty_chain

after_log : ChainDb
after_log = state_of (upsert_deposit name_hash log_key log_of_5 empty_chain)

records_log : upsert_deposit name_hash log_key log_of_5 empty_chain ≡ ok (true, after_log)
unfolding after_log upsert_deposit insert_or_revive deposit_payload get_asset upper usdt enqueue
records_log = refl

upsert_deposit_example : upsert_deposit name_hash log_key log_of_5 after_log ≡ ok (false, after_log)
upsert_deposit_example =
    upsert_deposit_once name_hash name_hash log_key log_key log_of_5 true empty_chain after_log
      records_log

abbrev pub row_of_5 : Deposit
row_of_5 = new_deposit "d1" log_of_5

abbrev chain_of_5 : ChainDb
chain_of_5 = record empty_chain { deposits = row_of_5 ∷ [] }

abbrev receipt_of_5 : Option TxReceipt
receipt_of_5 = some (record { tx_hash = "0xd"; block_number = 7; block_hash = "0xe"; status = 1 })

abbrev no_logs : ℕ → String → List TransferLog
no_logs number address = []

abbrev end_of : Result (Verified × ChainDb) → ChainDb
end_of (ok (v, db)) = db
end_of (err e) = empty_chain

after_check : ChainDb
after_check = end_of (reverify name_hash log_key 3 9 row_of_5 receipt_of_5 no_logs chain_of_5)

abbrev event_of : String → EventEnvelope
event_of id = record {
  event_id = id;
  event_type = transfer_requested;
  producer = "wallet-service";
  correlation_id = "c";
  payload = [];
}

abbrev outbox_row : ℕ → String → OutboxRow
outbox_row id event = record {
  id = id;
  event_id = event;
  event_type = transfer_requested;
  envelope = event_of event;
  correlation_id = "c";
  published_at = none;
  attempts = 0;
  next_attempt_at = none;
}

abbrev two_events : List OutboxRow
two_events = outbox_row 1 "e1" ∷ outbox_row 2 "e2" ∷ []

abbrev takes_first : EventEnvelope → Bool
takes_first e = str_eq e.event_id "e1"

relays_first : (relay_rows takes_first 60 100 10 two_events).0 ≡ event_of "e1" ∷ []
unfolding relay_rows
relays_first = refl

abbrev account : Account
account = record { address = "0xa"; encrypted_private_key = "sealed"; key_version = 1 }

abbrev other_account : Account
other_account = record { address = "0xb"; encrypted_private_key = "sealed"; key_version = 1 }

abbrev issued_of : Result ((Address × Bool) × ChainDb) → ChainDb
issued_of (ok (a, db)) = db
issued_of (err e) = empty_chain

after_issue : ChainDb
after_issue = issued_of (get_or_create_address "user:1" "BSC" account empty_chain)

issues :
    get_or_create_address "user:1" "BSC" account empty_chain
    ≡ ok ((new_address "user:1" "BSC" account, true), after_issue)
unfolding after_issue get_or_create_address issue
issues = refl

address_example :
    get_or_create_address "user:1" "ETH" other_account after_issue
    ≡ ok ((new_address "user:1" "BSC" account, false), after_issue)
address_example =
    get_or_create_address_once "user:1" "BSC" "ETH" account other_account
      (new_address "user:1" "BSC" account) true empty_chain after_issue issues
