-- ===== src/Blockchain/Examples/Consumers.antt =====
-- The theorems on the blockchain service's consumer at a transfer request.
use mathlib.Core.List.{Memᴰ}
use mini_crypto_wallet.Base.{ℕ, ◌≡◌, refl, ◌⊎◌, List, [], ◌∷◌, String}
use mini_crypto_wallet.Base.Result.{Error, ok, err}
use mini_crypto_wallet.Base.Text.{parse_uuid}
use mini_crypto_wallet.Common.Events.{Payload, EventEnvelope, str, transfer_requested, stream_for}
use mini_crypto_wallet.Common.Bus.{
  publish, ensure_group, read_new, claim_entries, claim_types, claim_stale, ack,
}
use mini_crypto_wallet.Common.Bus.Consumer.{
  start, tell, reject, finish, handle, handle_all, run_once,
}
use mini_crypto_wallet.Common.Bus.Sound.{Safe}
use mini_crypto_wallet.Common.Bus.Steps.{Step, published, round, new_consumer}
use mini_crypto_wallet.Blockchain.Dispatcher
use mini_crypto_wallet.Blockchain.Dispatcher.{Outcome, seen_before, claim_and_handle, dispatch}
use mini_crypto_wallet.Blockchain.Transactions.{accept_transfer_request}
use mini_crypto_wallet.Blockchain.Consumer.{
  chain_steps, dispatch_at, consumer_group, chain_steps-loses_none, chain_dispatch_once,
}
use mini_crypto_wallet.Blockchain.Dispatcher.Seen.{Processed}
use mini_crypto_wallet.Blockchain.Examples.{empty_chain}

abbrev plain_text : Error → String
plain_text x = "error"

abbrev text_hash : String → String
text_hash s = s

abbrev id_of : ℕ → EventEnvelope → String
id_of now e = e.event_id

abbrev request_of_40 : Payload
request_of_40 =
    ("transfer_id", str "00000000-0000-0000-0000-00000000000a")
    ∷ ("from_address", str "0xa")
    ∷ ("to_address", str "0xb")
    ∷ ("amount_units", str "40")
    ∷ []

abbrev requested_event : EventEnvelope
requested_event = record {
  event_id = "00000000-0000-0000-0000-0000000000f1";
  event_type = transfer_requested;
  producer = "wallet-service";
  correlation_id = "c";
  payload = request_of_40;
}

-- A request whose payload is empty, which the handler raises for.
abbrev empty_request : EventEnvelope
empty_request = record requested_event { payload = [] }

abbrev two_rounds : List Step
two_rounds = published empty_request ∷ round 100 ∷ round 20000 ∷ []

chain_steps_example :
    let s = chain_steps text_hash id_of plain_text 5 15000 two_rounds (new_consumer empty_chain) in
    Safe Processed consumer_group (stream_for transfer_requested) 1 empty_request s.bus s.db
unfolding publish ensure_group read_new claim_entries claim_types claim_stale ack start tell reject
    finish handle handle_all run_once dispatch claim_and_handle Dispatcher.handle parse_uuid
    stream_for accept_transfer_request
chain_steps_example =
    chain_steps-loses_none text_hash id_of plain_text 5 15000 two_rounds empty_chain
      (stream_for transfer_requested) 1 empty_request (Memᴰ.head refl)

chain_dispatch_example :
    let s = new_consumer empty_chain in
    let r = dispatch_at text_hash id_of 7 requested_event s.db in
    let s' = chain_steps text_hash id_of plain_text 5 15000 two_rounds (record s { db = r.1 }) in
    ((x : Error) × (r ≡ (err x, s.db)))
    ⊎ ((out : Outcome) × (r.0 ≡ ok out)
        × (dispatch_at text_hash id_of 9 requested_event s'.db ≡ (ok seen_before, s'.db)))
chain_dispatch_example =
    chain_dispatch_once text_hash id_of plain_text 5 15000 7 9 requested_event two_rounds
      (new_consumer empty_chain)
