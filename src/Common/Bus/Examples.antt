-- ===== src/Common/Bus/Examples.antt =====
-- The theorems on the bus at two events of different types.
use mini_crypto_wallet.Base.{
  arith, ℕ, ◌+◌, ◌<◌, ◌≤◌, ◌≡◌, refl, ◌⊎◌, true, none, List, [], ◌∷◌, ◌++◌, String,
}
use mini_crypto_wallet.Base.Table.{length}
use mini_crypto_wallet.Base.Result.{ok, err, rpc_unavailable}
use mini_crypto_wallet.Common.Events.{EventEnvelope, tx_confirmed, tx_failed, stream_for}
use mini_crypto_wallet.Common.Bus.{
  InMemoryBus, DeliveredEvent, empty_bus, publish, read_new, claim_entries, claim_types,
  claim_stale,
}
use mini_crypto_wallet.Common.Bus.Consumer.{ConsumerRuntime, Consuming, handle}
use mini_crypto_wallet.Common.Bus.Order.{
  rounds, uses-rounds, Use, publishes, reads, uses, unread, sent, uses-InOrder,
}
use mini_crypto_wallet.Common.Bus.Retries.{length-claim_stale, handle_failed, Rejected}

abbrev event_of_type : String → String → EventEnvelope
event_of_type id event_type = record {
  event_id = id;
  event_type = event_type;
  producer = "p";
  correlation_id = "c";
  payload = [];
}

abbrev both_types : List String
both_types = tx_confirmed ∷ tx_failed ∷ []

abbrev three_uses : List Use
three_uses =
    publishes (event_of_type "1" tx_confirmed)
    ∷ publishes (event_of_type "2" tx_failed)
    ∷ reads 10 5
    ∷ publishes (event_of_type "3" tx_confirmed)
    ∷ []

uses_example :
    let r = uses tx_confirmed "g" three_uses empty_bus in
    r.0 ++ unread tx_confirmed "g" r.1 ≡ sent tx_confirmed "g" three_uses
uses_example = uses-InOrder tx_confirmed "g" three_uses

-- Two messages of different types that were read and not acknowledged.
abbrev two_pending : InMemoryBus
two_pending =
    (read_new "g" 0 5 both_types (
      publish (event_of_type "2" tx_failed) (publish (event_of_type "1" tx_confirmed) empty_bus))).1

-- A limit of one message, and two are claimed.
two_claimed : length (claim_stale "g" 100 1 50 both_types two_pending).0.0 ≡ 2
unfolding publish read_new claim_entries claim_types claim_stale stream_for
two_claimed = refl

claim_stale_example :
    length (claim_stale "g" 100 1 50 both_types two_pending).0.0 ≤ 1 + length both_types
claim_stale_example = length-claim_stale "g" 100 1 50 both_types two_pending

-- A consumer whose handler always raises.
abbrev failing_consumer : ConsumerRuntime ℕ ℕ
failing_consumer = record {
  group = "g";
  event_types = both_types;
  dispatch = λ e s. (err rpc_unavailable, s);
  on_dead_letter = none;
  describe = λ x. "down";
  max_delivery = 5;
  claim_idle_ms = 50;
  batch = 32;
}

abbrev fifth_delivery : DeliveredEvent
fifth_delivery = record {
  stream = stream_for tx_confirmed;
  message_id = 1;
  envelope = event_of_type "1" tx_confirmed;
  delivery_count = 5;
}

abbrev over_two_pending : Consuming ℕ
over_two_pending = record { started = true; bus = two_pending; db = 0 }

handle_failed_example :
    ((5 < 5)
      × (handle failing_consumer fifth_delivery over_two_pending ≡ (ok tt, over_two_pending)))
    ⊎ ((5 ≤ 5)
        × (error : String) × Rejected failing_consumer fifth_delivery error over_two_pending
            (handle failing_consumer fifth_delivery over_two_pending))
handle_failed_example =
    handle_failed failing_consumer fifth_delivery over_two_pending rpc_unavailable 0 refl

-- Two events of one type that nobody read.
abbrev two_waiting : InMemoryBus
two_waiting =
    publish (event_of_type "2" tx_confirmed) (publish (event_of_type "1" tx_confirmed) empty_bus)

rounds_example :
    (uses tx_confirmed "g" (rounds tx_confirmed "g" 1 (10 ∷ 20 ∷ [])) two_waiting).0
    ≡ unread tx_confirmed "g" two_waiting
unfolding publish stream_for
rounds_example =
    uses-rounds tx_confirmed "g" 1 (10 ∷ 20 ∷ []) two_waiting (omega arith) (omega arith)
