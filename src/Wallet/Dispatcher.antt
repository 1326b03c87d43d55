-- ===== src/Wallet/Dispatcher.antt =====
-- services/wallet/wallet_service/consumers/dispatcher.py: each event is handled once, in one
-- transaction with the row that records it.
use mini_crypto_wallet.Base.{ℕ, Bool, ◌&&◌, [], ◌∷◌, ◌++◌, String, str_eq, if◌then◌else◌}
use mini_crypto_wallet.Base.Table.{any}
use mini_crypto_wallet.Base.Result.{
  Tx, Result, ◌>>=◌, ◌>>◌, pure, gets, modify, or_raise, value_error, atomically,
}
use mini_crypto_wallet.Base.Text.{parse_uuid}
use mini_crypto_wallet.Common.Events.{
  EventEnvelope, deposit_detected, deposit_confirmed, deposit_reorged, tx_broadcasted, tx_confirmed,
  tx_failed,
}
use mini_crypto_wallet.Wallet.Models.{WalletDb}
use mini_crypto_wallet.Wallet.Transfers.{
  Outcome, processed, duplicate, ignored, mark_broadcasted, settle_transfer, fail_transfer,
}
use mini_crypto_wallet.Wallet.Deposits.{credit_deposit, reverse_deposit}

abbrev pub consumer_name : String
consumer_name = "wallet-service"

abbrev pub was_processed : String → WalletDb → Bool
was_processed event_id db =
    any (λ r. str_eq r.consumer consumer_name && str_eq r.event_id event_id) db.processed_events

-- `_handle`; `now` is the time of the call.
unfoldable pub handle : ℕ → EventEnvelope → Tx WalletDb Outcome
handle now e =
    if str_eq e.event_type deposit_detected
    then pure processed
    else if str_eq e.event_type deposit_confirmed
    then credit_deposit e.correlation_id e.payload
    else if str_eq e.event_type deposit_reorged
    then reverse_deposit e.correlation_id e.payload
    else if str_eq e.event_type tx_broadcasted
    then mark_broadcasted e.payload
    else if str_eq e.event_type tx_confirmed
    then settle_transfer e.correlation_id now e.payload
    else if str_eq e.event_type tx_failed
    then fail_transfer e.correlation_id e.payload
    else pure ignored

-- INSERT INTO processed_events of an event that is not there yet.
abbrev pub claimed : String → EventEnvelope → WalletDb → WalletDb
claimed event_id e db = record db {
  processed_events =
      db.processed_events
      ++ record { consumer = consumer_name; event_id = event_id; event_type = e.event_type } ∷ [];
}

-- The body of the transaction of `dispatch`.
unfoldable pub claim_and_handle : ℕ → EventEnvelope → Tx WalletDb Outcome
claim_and_handle now e = do
  event_id ← or_raise (parse_uuid e.event_id) value_error
  known ← gets (was_processed event_id)
  if known then pure duplicate else do modify (claimed event_id e); handle now e

unfoldable pub dispatch : ℕ → EventEnvelope → WalletDb → Result Outcome × WalletDb
dispatch now e = atomically (claim_and_handle now e)

-- `record_dead_letter`, which inserts one row.
unfoldable pub record_dead_letter : EventEnvelope → ℕ → String → Tx WalletDb (Unit {0})
record_dead_letter e delivery_count error = do
  event_id ← or_raise (parse_uuid e.event_id) value_error
  modify (λ db. record db {
    dead_letters =
        db.dead_letters
        ++ record {
          consumer = consumer_name;
          event_id = event_id;
          event_type = e.event_type;
          envelope = e;
          delivery_count = delivery_count;
          error = error;
        }
          ∷ [];
  })
