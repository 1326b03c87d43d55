-- ===== src/Blockchain/Consumer.antt =====
-- services/blockchain/blockchain_service/worker.py: the consumer of the blockchain service, which is
-- `ConsumerRuntime` with the methods of `BlockchainDispatcher`, here on the bus in memory (the service
-- runs it on `RedisStreamsBus`).
use mathlib.Core.List.{Memᴰ}
use mini_crypto_wallet.Base.{
  ℕ, ◌≡◌, sym, subst, ap, ◌⊎◌, inl, inr, List, [], ◌∷◌, String, Option-cases, some,
}
use mini_crypto_wallet.Base.Table.{take}
use mini_crypto_wallet.Base.Result.{Result, Error, ok, err, atomically}
use mini_crypto_wallet.Base.Text.{parse_uuid}
use mini_crypto_wallet.Common.Events.{EventEnvelope, transfer_requested}
use mini_crypto_wallet.Blockchain.Models.{ChainDb}
use mini_crypto_wallet.Common.Bus.{DeadLetter, Message, messages, cursor}
use mini_crypto_wallet.Common.Bus.Consumer.{ConsumerRuntime, Consuming}
use mini_crypto_wallet.Common.Bus.Sound.{Safe}
use mini_crypto_wallet.Common.Bus.Handling.{Handles}
use mini_crypto_wallet.Common.Bus.Steps.{
  Step, steps, consumer_at, new_consumer, steps-loses_none, steps-keeps, on_dead_letter-is,
}
use mini_crypto_wallet.Blockchain.Dispatcher.{Outcome, seen_before, dispatch, record_dead_letter}
use mini_crypto_wallet.Blockchain.Dispatcher.Seen.{
  Processed, dispatch-cases, dispatch-seen, again_seen,
}

abbrev pub consumer_group : String
consumer_group = "blockchain-service"

-- `record_dead_letter` in a transaction of its own.
unfoldable pub store_dead_letter : DeadLetter → ChainDb → Result (Unit {0}) × ChainDb
store_dead_letter item =
    atomically (record_dead_letter item.envelope item.delivery_count item.error)

store_dead_letter-seen :
    (item : DeadLetter) (e : EventEnvelope) (db : ChainDb)
    → Processed db e
    → Processed (store_dead_letter item db).1 e
unfolding store_dead_letter record_dead_letter
store_dead_letter-seen item e db (id, k, h) =
    elim (Option-cases (parse_uuid item.envelope.event_id)) [
      | inl none_is ↦ (id, k, rw none_is h)
      | inr (other, is) ↦ (id, k, rw is h)
    ]

-- The dispatch at a time, with the fresh primary key for a row that it inserts.
abbrev pub dispatch_at :
    (String → String)
    → (ℕ → EventEnvelope → String)
    → ℕ
    → EventEnvelope
    → ChainDb
    → Result Outcome × ChainDb
dispatch_at uuid5 ids now e = dispatch uuid5 (ids now e) e

module _ (uuid5 : String → String) (ids : ℕ → EventEnvelope → String) (describe : Error → String)
    (max_delivery claim_idle_ms : ℕ) where
  abbrev pub chain_consumer : ConsumerRuntime ChainDb Outcome
  chain_consumer = record {
    group = consumer_group;
    event_types = transfer_requested ∷ [];
    dispatch = dispatch_at uuid5 ids 0;
    on_dead_letter = some store_dead_letter;
    describe = describe;
    max_delivery = max_delivery;
    claim_idle_ms = claim_idle_ms;
    batch = 32;
  }

  abbrev pub chain_steps : List Step → Consuming ChainDb → Consuming ChainDb
  chain_steps xs s = steps chain_consumer (dispatch_at uuid5 ids) xs s

  chain_handles :
      (now : ℕ) → Handles (consumer_at chain_consumer (dispatch_at uuid5 ids) now) Processed
  chain_handles now = record {
    records = λ e db db' out h. elim (dispatch-cases uuid5 (ids now e) e db) [
      | inl (out', db'', is, later, there) ↦ let same : db'' ≡ db' = cc in rw (sym same) there
      | inr (x, is) ↦ cc
    ];
    keeps = λ e e' db h. dispatch-seen uuid5 (ids now e) e e' db h;
    tells = λ f item e db is h.
        subst
          (λ (g : DeadLetter → ChainDb → Result (Unit {0}) × ChainDb). Processed (g item db).1 e)
          (on_dead_letter-is is) (store_dead_letter-seen item e db h);
  }

  -- On the bus in memory, which never trims a stream, no transfer request is lost: in whatever order
  -- events are published and the consumer runs, and whatever its handlers raise, a request that was given
  -- to the blockchain service's dispatcher is still pending, or recorded as processed, or a dead letter.
  pub chain_steps-loses_none :
      (xs : List Step) (db : ChainDb) (stream : String) (id : ℕ) (e : EventEnvelope)
      → let s = chain_steps xs (new_consumer db) in
        Memᴰ {A = Message}
          (id, e)
          (take (cursor (stream, consumer_group) s.bus) (messages stream s.bus))
        → Safe Processed consumer_group stream id e s.bus s.db
  chain_steps-loses_none xs db stream id e m =
      steps-loses_none chain_consumer (dispatch_at uuid5 ids) Processed chain_handles xs db stream
        id e m

  -- A request takes effect once: its dispatch either raises and changes nothing, or after whatever
  -- the consumer then does, a further dispatch of it, at any time, changes nothing.
  pub chain_dispatch_once :
      (now now' : ℕ) (e : EventEnvelope) (xs : List Step) (s : Consuming ChainDb)
      → let r = dispatch_at uuid5 ids now e s.db in
        let s' = chain_steps xs (record s { db = r.1 }) in
        ((x : Error) × (r ≡ (err x, s.db)))
        ⊎ ((out : Outcome) × (r.0 ≡ ok out)
            × (dispatch_at uuid5 ids now' e s'.db ≡ (ok seen_before, s'.db)))
  chain_dispatch_once now now' e xs s = elim (dispatch-cases uuid5 (ids now e) e s.db) [
    | inr raised ↦ inl raised
    | inl (out, db', is, later, there) ↦
        let at_first : Processed (dispatch_at uuid5 ids now e s.db).1 e = rw is there in
        let still =
          steps-keeps chain_consumer (dispatch_at uuid5 ids) (λ db. Processed db e)
            (λ t e' db h. dispatch-seen uuid5 (ids t e') e' e db h)
            (λ f item db of h.
              subst
                (λ (g : DeadLetter → ChainDb → Result (Unit {0}) × ChainDb).
                  Processed (g item db).1 e)
                (on_dead_letter-is of) (store_dead_letter-seen item e db h))
            xs (record s { db = (dispatch_at uuid5 ids now e s.db).1 }) at_first in
        inr (
          out,
          ap (λ (r : Result Outcome × ChainDb). r.0) is,
          again_seen uuid5 (ids now' e) e
              (chain_steps xs (record s { db = (dispatch_at uuid5 ids now e s.db).1 })).db still,
        )
  ]
