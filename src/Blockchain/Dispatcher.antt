-- ===== src/Blockchain/Dispatcher.antt =====
-- services/blockchain/blockchain_service/consumers/dispatcher.py: each event is handled once, in one
-- transaction with the row that records it.
pub mod Seen
use mini_crypto_wallet.Base.{ℕ, Bool, ◌&&◌, [], ◌∷◌, ◌++◌, String, str_eq, if◌then◌else◌}
use mini_crypto_wallet.Base.Table.{any}
use mini_crypto_wallet.Base.Result.{
  Tx, Result, ◌>>=◌, ◌>>◌, pure, gets, modify, or_raise, value_error, atomically,
}
use mini_crypto_wallet.Base.Text.{parse_uuid}
use mini_crypto_wallet.Common.Events.{EventEnvelope, transfer_requested}
use mini_crypto_wallet.Blockchain.Models.{ChainDb}
use mini_crypto_wallet.Blockchain.Transactions.{Accepted, accept_transfer_request}

abbrev pub consumer_name : String
consumer_name = "blockchain-service"

abbrev pub was_processed : String → ChainDb → Bool
was_processed event_id db =
    any (λ r. str_eq r.consumer consumer_name && str_eq r.event_id event_id) db.processed_events

-- The labels that `dispatch` returns.
pub data Outcome : Type 0 where
  requested : Accepted → Outcome
  seen_before ignored : Outcome

-- `id` is the fresh primary key of the row that a transfer request inserts.
unfoldable pub handle : (String → String) → String → EventEnvelope → Tx ChainDb Outcome
handle uuid5 id e =
    if str_eq e.event_type transfer_requested
    then (do
      label ← accept_transfer_request uuid5 id e.payload e.correlation_id
      pure (requested label))
    else pure ignored

abbrev pub claimed : String → EventEnvelope → ChainDb → ChainDb
claimed event_id e db = record db {
  processed_events =
      db.processed_events
      ++ record { consumer = consumer_name; event_id = event_id; event_type = e.event_type } ∷ [];
}

unfoldable pub claim_and_handle : (String → String) → String → EventEnvelope → Tx ChainDb Outcome
claim_and_handle uuid5 id e = do
  event_id ← or_raise (parse_uuid e.event_id) value_error
  known ← gets (was_processed event_id)
  if known then pure seen_before else (modify (claimed event_id e) >> handle uuid5 id e)

unfoldable pub dispatch :
    (String → String) → String → EventEnvelope → ChainDb → Result Outcome × ChainDb
dispatch uuid5 id e = atomically (claim_and_handle uuid5 id e)

unfoldable pub record_dead_letter : EventEnvelope → ℕ → String → Tx ChainDb (Unit {0})
record_dead_letter e delivery_count error = do
  event_id ← or_raise (parse_uuid e.event_id) value_error
  modify (λ db. record db {
    dead_letters =
        db.dead_letters
        ++ record {
          consumer = consumer_name;
          event_id = event_id;
          event_type = e.event_type;
          envelope = e;
          delivery_count = delivery_count;
          error = error;
        }
          ∷ [];
  })
