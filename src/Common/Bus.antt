-- ===== src/Common/Bus.antt =====
-- libs/common/src/mcw_common/bus.py: the classes `InMemoryBus`, which mirrors the Redis streams, and
-- its messages. A message id `f"{n}-0"` is its number `n`, a time is in milliseconds.
pub mod Sound
pub mod Publishing
pub mod Reading
pub mod Batch
pub mod Handling
pub mod Steps
pub mod Order
pub mod Retries
mod Examples
pub mod Consumer
use mini_crypto_wallet.Base.{
  ℕ, suc, ◌+◌, ◌≡◌, ◌↔◌, refl, min, Bool, true, false, ◌&&◌, none, Option, List, [], ◌∷◌, ◌++◌,
  String, arith, str_eq, eq_iff, map, leb, ◌==◌, if◌then◌else◌,
}
use mini_crypto_wallet.Base.Table.{length, take, drop}
use mini_crypto_wallet.Base.Dict.{get_or, put, setdefault, pop, adjust}
use mini_crypto_wallet.Common.Events.{EventEnvelope, stream_for}

pub record DeliveredEvent : Type 0 where
  pub stream : String
  pub message_id : ℕ
  pub envelope : EventEnvelope
  pub delivery_count : ℕ

pub record DeadLetter : Type 0 where
  pub envelope : EventEnvelope
  pub delivery_count : ℕ
  pub error : String

-- The tuples of `_pending`.
pub record Pending : Type 0 where
  pub envelope : EventEnvelope
  pub delivered : ℕ
  pub at : ℕ

-- A stream and a group.
abbrev pub Key : Type 0
Key = String × String

abbrev pub key_eq : Key → Key → Bool
key_eq (s, g) (s', g') = str_eq s s' && str_eq g g'

abbrev pub Message : Type 0
Message = ℕ × EventEnvelope

pub record InMemoryBus : Type 0 where
  pub streams : List (String × List Message)
  pub cursors : List (Key × ℕ)
  pub pending : List (Key × List (ℕ × Pending))
  pub dead_letters : List DeadLetter
  pub seq : ℕ

abbrev pub empty_bus : InMemoryBus
empty_bus = record { streams = []; cursors = []; pending = []; dead_letters = []; seq = 0 }

abbrev pub messages : String → InMemoryBus → List Message
messages stream b = get_or str_eq [] stream b.streams

abbrev pub cursor : Key → InMemoryBus → ℕ
cursor key b = get_or key_eq 0 key b.cursors

abbrev pub entries : Key → InMemoryBus → List (ℕ × Pending)
entries key b = get_or key_eq [] key b.pending

unfoldable pub publish : EventEnvelope → InMemoryBus → InMemoryBus
publish e b =
    let stream = stream_for e.event_type in
    record b {
      streams = put str_eq stream (messages stream b ++ (suc b.seq, e) ∷ []) b.streams;
      seq = suc b.seq;
    }

unfoldable pub ensure_group : List String → String → InMemoryBus → InMemoryBus
ensure_group [] group b = b
ensure_group (t ∷ ts) group b =
    let key : Key = (stream_for t, group) in
    ensure_group ts group (record b {
      cursors = setdefault key_eq key 0 b.cursors;
      pending = setdefault key_eq key [] b.pending;
    })

-- `self._pending[key][msg_id] = entry`
abbrev pub set_entry : Key → ℕ → Pending → InMemoryBus → InMemoryBus
set_entry key id entry b = record b {
  pending = put key_eq key (put ◌==◌ id entry (entries key b)) b.pending;
}

abbrev pub add_pending : Key → ℕ → List Message → InMemoryBus → InMemoryBus
add_pending key now [] b = b
add_pending key now ((id, e) ∷ ms) b =
    add_pending key now ms (set_entry key id (record { envelope = e; delivered = 1; at = now }) b)

abbrev pub set_cursor : Key → ℕ → InMemoryBus → InMemoryBus
set_cursor key c b = record b { cursors = put key_eq key c b.cursors }

abbrev pub first_delivery : String → Message → DeliveredEvent
first_delivery stream (id, e) = record {
  stream = stream;
  message_id = id;
  envelope = e;
  delivery_count = 1;
}

abbrev pub redelivered : ℕ → Pending → Pending
redelivered now p = record p { delivered = suc p.delivered; at = now }

abbrev pub redelivery : String → ℕ → Pending → DeliveredEvent
redelivery stream id p = record {
  stream = stream;
  message_id = id;
  envelope = p.envelope;
  delivery_count = suc p.delivered;
}

module _ (group : String) (now count : ℕ) where
  -- The loop of `read_new`: the next `count` messages of each stream become pending.
  unfoldable pub read_new : List String → InMemoryBus → List DeliveredEvent × InMemoryBus
  read_new [] b = ([], b)
  read_new (t ∷ ts) b =
      let stream = stream_for t in
      let key : Key = (stream, group) in
      let slice = take count (drop (cursor key b) (messages stream b)) in
      let end = min (cursor key b + count) (length (messages stream b)) in
      let rest = read_new ts (set_cursor key end (add_pending key now slice b)) in
      (map (first_delivery stream) slice ++ rest.0, rest.1)

  module _ (min_idle_ms : ℕ) where
    -- The inner loop of `claim_stale` over the entries of one stream, with the list so far.
    unfoldable pub claim_entries :
        String
        → List (ℕ × Pending)
        → List DeliveredEvent
        → InMemoryBus
        → List DeliveredEvent × InMemoryBus
    claim_entries stream [] retryable b = (retryable, b)
    claim_entries stream ((id, p) ∷ rest) retryable b =
        let stale = leb (p.at + min_idle_ms) now in
        let taken =
          if stale
          then (
            retryable ++ redelivery stream id p ∷ [],
            set_entry (stream, group) id (redelivered now p) b,
          )
          else (retryable, b) in
        let more = claim_entries stream rest taken.0 taken.1 in
        if stale && leb count (length taken.0) then taken else more

    unfoldable pub claim_types :
        List String → List DeliveredEvent → InMemoryBus → List DeliveredEvent × InMemoryBus
    claim_types [] retryable b = (retryable, b)
    claim_types (t ∷ ts) retryable b =
        let stream = stream_for t in
        let (retryable', b') = claim_entries stream (entries (stream, group) b) retryable b in
        claim_types ts retryable' b'

    -- `claim_stale`, whose second list is always empty.
    unfoldable pub claim_stale :
        List String → InMemoryBus → (List DeliveredEvent × List DeliveredEvent) × InMemoryBus
    claim_stale event_types b =
        let (retryable, b') = claim_types event_types [] b in ((retryable, []), b')

unfoldable pub ack : String → String → ℕ → InMemoryBus → InMemoryBus
ack stream group id b = record b { pending = adjust key_eq (stream, group) (pop ◌==◌ id) b.pending }

unfoldable pub dead_letter : DeadLetter → InMemoryBus → InMemoryBus
dead_letter item b = record b { dead_letters = b.dead_letters ++ item ∷ [] }
