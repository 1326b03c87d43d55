-- ===== src/Wallet/Consumer.antt =====
-- services/wallet/wallet_service/worker.py: the consumer of the wallet service, which is
-- `ConsumerRuntime` with the methods of `WalletDispatcher`, here on the bus in memory (the services run
-- it on `RedisStreamsBus`, whose `claim_stale` also drops what Redis has trimmed). The relay that publishes events and the
-- consumer take turns in any order.
use mathlib.Core.List.{Memᴰ}
use mini_crypto_wallet.Base.{
  ℕ, suc, ◌==◌, false, ◌<◌, ◌≤◌, ◌⊎◌, none, ltb, leb, Bool-cases, ◌≡◌, refl, sym, subst, inl, inr,
  true, some, List, [], ◌∷◌, String, arith, Option-cases,
}
use mini_crypto_wallet.Base.Table.{take}
use mini_crypto_wallet.Base.Result.{Result, Error, ok, err, atomically, after, value_error}
use mini_crypto_wallet.Base.Text.{parse_uuid, parse_uuid-none, uuid_text, text_length}
use mini_crypto_wallet.Common.Events.{
  EventEnvelope, deposit_detected, deposit_confirmed, deposit_reorged, tx_broadcasted, tx_confirmed,
  tx_failed,
}
use mini_crypto_wallet.Common.Bus.{
  DeliveredEvent, DeadLetter, dead_letter, Message, messages, cursor,
}
use mini_crypto_wallet.Common.Bus.Consumer.{
  ConsumerRuntime, Consuming, handle, handle_all, finish, reject, tell,
}
use mini_crypto_wallet.Common.Bus.Sound.{Safe}
use mini_crypto_wallet.Common.Bus.Handling.{Handles}
use mini_crypto_wallet.Common.Bus.Steps.{
  Step, steps, new_consumer, steps-loses_none, on_dead_letter-is,
}
use mini_crypto_wallet.Wallet.Models.{WalletDb}
use mini_crypto_wallet.Wallet.Transfers.{Outcome}
use mini_crypto_wallet.Wallet.Dispatcher.{
  was_processed, claim_and_handle, dispatch, record_dead_letter,
}
use mini_crypto_wallet.Wallet.Delivery.{dispatch-cases, claims_keep, claims_record}

abbrev pub subscribed_events : List String
subscribed_events =
    deposit_detected ∷ deposit_confirmed ∷ deposit_reorged ∷ tx_broadcasted ∷ tx_confirmed
    ∷ tx_failed ∷ []

abbrev pub consumer_group : String
consumer_group = "wallet-service"

-- `record_dead_letter` in a transaction of its own.
unfoldable pub store_dead_letter : DeadLetter → WalletDb → Result (Unit {0}) × WalletDb
store_dead_letter item =
    atomically (record_dead_letter item.envelope item.delivery_count item.error)

module _ (describe : Error → String) (max_delivery claim_idle_ms : ℕ) where
  -- The runtime, on any bus, at a time `now`, which the handlers read as the clock; 32 is the default batch.
  abbrev pub wallet_consumer : ℕ → ConsumerRuntime WalletDb Outcome
  wallet_consumer now = record {
    group = consumer_group;
    event_types = subscribed_events;
    dispatch = dispatch now;
    on_dead_letter = some store_dead_letter;
    describe = describe;
    max_delivery = max_delivery;
    claim_idle_ms = claim_idle_ms;
    batch = 32;
  }

  -- Publications of events and rounds of the consumer, from a given state.
  abbrev pub wallet_steps : List Step → Consuming WalletDb → Consuming WalletDb
  wallet_steps xs s = steps (wallet_consumer 0) dispatch xs s

-- The event has its row in `processed_events`.
abbrev pub Processed : WalletDb → EventEnvelope → Type 0
Processed db e = (id : String) × (parse_uuid e.event_id ≡ some id) × (was_processed id db ≡ true)

store_dead_letter-Processed :
    (item : DeadLetter) (e : EventEnvelope) (db : WalletDb)
    → Processed db e
    → Processed (store_dead_letter item db).1 e
unfolding store_dead_letter record_dead_letter
store_dead_letter-Processed item e db (id, k, h) =
    elim (Option-cases (parse_uuid item.envelope.event_id)) [
      | inl none_is ↦ (id, k, rw none_is h)
      | inr (other, is) ↦ (id, k, rw is h)
    ]

module _ (describe : Error → String) (max_delivery claim_idle_ms : ℕ) where
  dispatch-Processed :
      (now : ℕ) (e e' : EventEnvelope) (db : WalletDb)
      → Processed db e'
      → Processed (dispatch now e db).1 e'
  dispatch-Processed now e e' db (id, k, h) = elim (dispatch-cases now e db) [
    | inl (out, db', is, c) ↦ (id, k, rw is (claims_keep now e out id db db' c h))
    | inr (x, is) ↦ (id, k, rw is h)
  ]

  dispatch_records :
      (now : ℕ) (e : EventEnvelope) (db db' : WalletDb) (out : Outcome)
      → dispatch now e db ≡ (ok out, db')
      → Processed db' e
  dispatch_records now e db db' out h = elim (dispatch-cases now e db) [
    | inl (out', db'', is, c) ↦
        let same : db'' ≡ db' = cc in rw (sym same) (claims_record now e out' db db'' c)
    | inr (x, is) ↦ cc
  ]

  wallet_handles :
      (now : ℕ) → Handles (wallet_consumer describe max_delivery claim_idle_ms now) Processed
  wallet_handles now = record {
    records = λ e db db' out h. dispatch_records now e db db' out h;
    keeps = λ e e' db h. dispatch-Processed now e e' db h;
    tells = λ f item e db is h.
        subst
          (λ (g : DeadLetter → WalletDb → Result (Unit {0}) × WalletDb). Processed (g item db).1 e)
          (on_dead_letter-is is) (store_dead_letter-Processed item e db h);
  }

  -- On the bus in memory, which never trims a stream, no event is lost: in whatever order events are
  -- published and the consumer runs, and whatever its handlers raise, an event that was given to the
  -- wallet service's dispatcher is still pending, or recorded as processed, or a dead letter.
  pub wallet_steps-loses_none :
      (xs : List Step) (db : WalletDb) (stream : String) (id : ℕ) (e : EventEnvelope)
      → let s = wallet_steps describe max_delivery claim_idle_ms xs (new_consumer db) in
        Memᴰ {A = Message}
          (id, e)
          (take (cursor (stream, consumer_group) s.bus) (messages stream s.bus))
        → Safe Processed consumer_group stream id e s.bus s.db
  wallet_steps-loses_none xs db stream id e m =
      steps-loses_none (wallet_consumer describe max_delivery claim_idle_ms 0) dispatch Processed
        wallet_handles xs db stream id e m

  reject-malformed :
      (now : ℕ) (d : DeliveredEvent) (error : String) (s : Consuming WalletDb)
      → parse_uuid d.envelope.event_id ≡ none
      → let r = reject (wallet_consumer describe max_delivery claim_idle_ms now) d error s in
        (r.1.bus.pending ≡ s.bus.pending) × (r.1.db ≡ s.db) × (r.0 ≡ err value_error)
  unfolding reject tell store_dead_letter record_dead_letter dead_letter
  reject-malformed now d error s h = rw h (refl, refl, refl)

  -- One message whose id is no UUID.
  handle_unreadable :
      (now : ℕ) (d : DeliveredEvent) (s : Consuming WalletDb)
      → parse_uuid d.envelope.event_id ≡ none
      → let r = handle (wallet_consumer describe max_delivery claim_idle_ms now) d s in
        (r.1.bus.pending ≡ s.bus.pending)
        × (r.1.db ≡ s.db)
        × (((d.delivery_count < max_delivery) × (r.0 ≡ ok tt))
            ⊎ ((max_delivery ≤ d.delivery_count) × (r.0 ≡ err value_error)))
  unfolding handle finish dispatch claim_and_handle
  handle_unreadable now d s h = elim (Bool-cases (ltb max_delivery d.delivery_count)) [
    | inl k ↦
        let late : max_delivery < d.delivery_count = ground arith in
        let (p, same, r) = reject-malformed now d "max delivery count exceeded" s h in
        rw k (p, same, inr (omega (arith, late), r))
    | inr k ↦ elim (Bool-cases (leb max_delivery d.delivery_count)) [
      | inl l ↦
          let last : max_delivery ≤ d.delivery_count = ground arith in
          let (p, same, r) = reject-malformed now d (describe value_error) s h in
          rw (k, h, l) (p, same, inr (last, r))
      | inr l ↦
          let early : d.delivery_count < max_delivery = ground arith in
          rw (k, h, l) (refl, refl, inl (early, refl))
    ]
  ]

  -- What a message raises, the round raises, and leaves the messages after it.
  handle_all-raises :
      (c : ConsumerRuntime WalletDb Outcome) (d : DeliveredEvent) (ds : List DeliveredEvent)
      (s : Consuming WalletDb) (x : Error)
      → (handle c d s).0 ≡ err x
      → handle_all c (d ∷ ds) s ≡ (err x, (handle c d s).1)
  unfolding handle_all
  handle_all-raises c d ds s x h = ended (handle c d s) h
    where
      ended :
          (r : Result (Unit {0}) × Consuming WalletDb)
          → r.0 ≡ err x
          → after r (λ u s'. after (handle_all c ds s') (λ n s''. (ok (suc n), s''))) ≡ (err x, r.1)
      ended (ok u, s') k = cc
      ended (err y, s') k = let same : y ≡ x = cc in rw same refl

  -- An event whose id has not the 32 characters of a UUID is never acknowledged: handling it leaves the
  -- pending entries and the database as they were. Before the last delivery nothing is raised; from
  -- the last delivery on, it ends the loop of the round with a ValueError, and no message after it is
  -- handled.
  pub handle-malformed :
      (now : ℕ) (d : DeliveredEvent) (ds : List DeliveredEvent) (s : Consuming WalletDb)
      → (text_length (uuid_text d.envelope.event_id) == 32) ≡ false
      → let c = wallet_consumer describe max_delivery claim_idle_ms now in
        let r = handle c d s in
        (r.1.bus.pending ≡ s.bus.pending)
        × (r.1.db ≡ s.db)
        × (((d.delivery_count < max_delivery) × (r.0 ≡ ok tt))
            ⊎ ((max_delivery ≤ d.delivery_count)
                × (handle_all c (d ∷ ds) s ≡ (err value_error, r.1))))
  handle-malformed now d ds s h =
      let c = wallet_consumer describe max_delivery claim_idle_ms now in
      let (p, same, ends) = handle_unreadable now d s (parse_uuid-none d.envelope.event_id h) in
      elim ends [
        | inl early ↦ (p, same, inl early)
        | inr (late, raised) ↦ (p, same, inr (late, handle_all-raises c d ds s value_error raised))
      ]
