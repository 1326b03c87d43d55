-- ===== src/Wallet/Examples/Consumers.antt =====
-- The theorems on the wallet's consumer at a bus with one event.
use mathlib.Core.List.{Memᴰ}
use mini_crypto_wallet.Base.{◌<◌, ◌≤◌, ◌≡◌, refl, ◌⊎◌, List, [], ◌∷◌, String}
use mini_crypto_wallet.Base.Result.{Error, ok, err, value_error}
use mini_crypto_wallet.Base.Text.{parse_uuid, uuid_text}
use mini_crypto_wallet.Common.Events.{EventEnvelope, deposit_detected, tx_confirmed, stream_for}
use mini_crypto_wallet.Common.Bus.{
  DeliveredEvent, publish, ensure_group, read_new, claim_entries, claim_types, claim_stale, ack,
}
use mini_crypto_wallet.Common.Bus.Consumer.{
  start, tell, reject, finish, handle, handle_all, run_once,
}
use mini_crypto_wallet.Common.Bus.Sound.{Safe}
use mini_crypto_wallet.Common.Bus.Steps.{Step, published, round, new_consumer}
use mini_crypto_wallet.Wallet.Dispatcher
use mini_crypto_wallet.Wallet.Dispatcher.{claim_and_handle, dispatch}
use mini_crypto_wallet.Wallet.Consumer.{
  wallet_steps, wallet_consumer, consumer_group, Processed, wallet_steps-loses_none,
  handle-malformed,
}
use mini_crypto_wallet.Wallet.Examples.{two_users, confirmed_event}

abbrev plain_text : Error → String
plain_text x = "error"

-- The event that confirms the transfer of 40 is published, read, and delivered again.
abbrev three_steps : List Step
three_steps = published confirmed_event ∷ round 100 ∷ round 20000 ∷ []

abbrev confirmed_stream : String
confirmed_stream = stream_for tx_confirmed

abbrev detected_event : EventEnvelope
detected_event = record confirmed_event { event_type = deposit_detected }

-- A detected deposit, which the handler has nothing to do for.
abbrev detected_steps : List Step
detected_steps = published detected_event ∷ round 100 ∷ round 20000 ∷ []

steps_example :
    let s = wallet_steps plain_text 5 15000 detected_steps (new_consumer two_users) in
    Safe Processed consumer_group (stream_for deposit_detected) 1 detected_event s.bus s.db
unfolding publish ensure_group read_new claim_entries claim_types claim_stale ack start tell reject
    finish handle handle_all run_once dispatch claim_and_handle Dispatcher.handle parse_uuid
    stream_for
steps_example =
    wallet_steps-loses_none plain_text 5 15000 detected_steps two_users
      (stream_for deposit_detected) 1 detected_event (Memᴰ.head refl)

abbrev bad_delivery : DeliveredEvent
bad_delivery = record {
  stream = confirmed_stream;
  message_id = 1;
  envelope = record confirmed_event { event_id = "no uuid" };
  delivery_count = 5;
}

handle-malformed_example :
    let c = wallet_consumer plain_text 5 15000 100 in
    let s = new_consumer two_users in
    let r = handle c bad_delivery s in
    (r.1.bus.pending ≡ s.bus.pending)
    × (r.1.db ≡ s.db)
    × (((5 < 5) × (r.0 ≡ ok tt))
        ⊎ ((5 ≤ 5) × (handle_all c (bad_delivery ∷ []) s ≡ (err value_error, r.1))))
unfolding uuid_text
handle-malformed_example =
    handle-malformed plain_text 5 15000 100 bad_delivery [] (new_consumer two_users) refl
