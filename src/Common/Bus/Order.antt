-- ===== src/Common/Bus/Order.antt =====
-- A group of consumers reads a stream in the order in which its events were published.
use mathlib.Core.List.{map-append, append_assoc, append-nil}
use mini_crypto_wallet.Base.{
  ℕ, suc, ◌+◌, ◌-◌, ◌*◌, ◌≤◌, ◌≡◌, ◌∙◌, refl, sym, ap, inl, inr, min, List, [], ◌∷◌, ◌++◌, String,
  arith, str_eq, Bool-cases, map, if◌then◌else◌,
}
use mini_crypto_wallet.Base.Table.{length, take, drop}
use mini_crypto_wallet.Base.Slices.{
  length-drop, nil_of_length, append-take-drop, drop-add, drop-min, drop-append, length-append_le,
}
use mini_crypto_wallet.Base.Dict.{get_or, get_or-put_self, get_or-put_ne}
use mini_crypto_wallet.Common.Events.{EventEnvelope, stream_for}
use mini_crypto_wallet.Common.Bus.{
  InMemoryBus, DeliveredEvent, Message, Key, key_eq, empty_bus, messages, cursor, add_pending,
  set_cursor, publish, first_delivery, read_new,
}
use mini_crypto_wallet.Common.Bus.Sound.{str_eq-true, key_eq-true}
use mini_crypto_wallet.Common.Bus.Batch.{add_pending-streams}

-- An event is published, or the group reads at most so many new messages at a time.
pub data Use : Type 0 where
  publishes : EventEnvelope → Use
  reads : ℕ → ℕ → Use

abbrev event_of : Message → EventEnvelope
event_of (id, e) = e

abbrev pub envelope_of : DeliveredEvent → EventEnvelope
envelope_of d = d.envelope

length-map : {A B : Type 0} (f : A → B) (xs : List A) → length (map f xs) ≡ length xs
length-map f [] = refl
length-map f (x ∷ xs) = ap suc (length-map f xs)

envelopes-first :
    (stream : String) (ms : List Message)
    → map envelope_of (map (first_delivery stream) ms) ≡ map event_of ms
envelopes-first stream [] = refl
envelopes-first stream ((id, e) ∷ ms) =
    ap (λ (es : List EventEnvelope). e ∷ es) (envelopes-first stream ms)

module _ (event_type group : String) where
  abbrev stream : String
  stream = stream_for event_type

  -- The messages that the group has still to read.
  abbrev pub unread : InMemoryBus → List EventEnvelope
  unread b = map event_of (drop (cursor (stream, group) b) (messages stream b))

  -- The events that the group read, in order, and the bus afterwards.
  abbrev pub uses : List Use → InMemoryBus → List EventEnvelope × InMemoryBus
  uses [] b = ([], b)
  uses (publishes e ∷ us) b = uses us (publish e b)
  uses (reads now count ∷ us) b =
      let r = read_new group now count (event_type ∷ []) b in
      let rest = uses us r.1 in (map envelope_of r.0 ++ rest.0, rest.1)

  -- The events that were published to the stream.
  abbrev pub sent : List Use → List EventEnvelope
  sent [] = []
  sent (publishes e ∷ us) =
      let rest = sent us in if str_eq (stream_for e.event_type) stream then e ∷ rest else rest
  sent (reads now count ∷ us) = sent us

  abbrev Bounded : InMemoryBus → Type 0
  Bounded b = cursor (stream, group) b ≤ length (messages stream b)

  unread-publish :
      (e : EventEnvelope) (b : InMemoryBus)
      → Bounded b
      → Bounded (publish e b)
        × (unread (publish e b)
            ≡ unread b ++ (if str_eq (stream_for e.event_type) stream then e ∷ [] else []))
  unfolding publish
  unread-publish e b h = elim (Bool-cases (str_eq (stream_for e.event_type) stream)) [
    | inr k ↦
        let same =
          get_or-put_ne str_eq str_eq-true [] (stream_for e.event_type) stream
            (messages (stream_for e.event_type) b ++ (suc b.seq, e) ∷ []) b.streams k in
        (rw same h, rw (same, k) (sym (append-nil (unread b))))
    | inl k ↦
        let is : stream_for e.event_type ≡ stream = (str_eq-true _ _).0 k in
        let added =
          get_or-put_self str_eq str_eq-true [] stream (messages stream b ++ (suc b.seq, e) ∷ [])
            b.streams in
        let more = length-append_le (messages stream b) ((suc b.seq, e) ∷ []) in
        let is_unread =
          drop-append (cursor (stream, group) b) (messages stream b) ((suc b.seq, e) ∷ []) h in
        (
          rw (is, added) (omega (arith, h, more)),
          rw (k, is, added, is_unread)
              (map-append event_of (drop (cursor (stream, group) b) (messages stream b))
                ((suc b.seq, e) ∷ [])),
        )
  ]

  read_then_rest :
      (count : ℕ) (ms : List Message)
      → map envelope_of (map (first_delivery stream) (take count ms) ++ [])
          ++ map event_of (drop count ms)
        ≡ map event_of ms
  read_then_rest count ms =
      ap (λ (es : List EventEnvelope). es ++ map event_of (drop count ms))
        (ap (map envelope_of) (append-nil (map (first_delivery stream) (take count ms)))
          ∙ envelopes-first stream (take count ms))
      ∙ sym (map-append event_of (take count ms) (drop count ms))
      ∙ ap (map event_of) (append-take-drop count ms)

  unread-read :
      (now count : ℕ) (b : InMemoryBus)
      → let r = read_new group now count (event_type ∷ []) b in
        Bounded r.1 × (map envelope_of r.0 ++ unread r.1 ≡ unread b)
  unfolding read_new
  unread-read now count b =
      let key : Key = (stream, group) in
      let rest = drop (cursor key b) (messages stream b) in
      let end = min (cursor key b + count) (length (messages stream b)) in
      let b₁ = add_pending key now (take count rest) b in
      let (same_streams, same_cursors) = add_pending-streams key now (take count rest) b in
      let same : messages stream (set_cursor key end b₁) ≡ messages stream b =
        ap (get_or str_eq [] stream) same_streams in
      let at_end = get_or-put_self key_eq key_eq-true 0 key end b₁.cursors in
      (
        rw (same, at_end) (omega arith),
        rw
            (
              same,
              at_end,
              drop-min (cursor key b + count) (messages stream b),
              drop-add (cursor key b) count (messages stream b),
            )
            (read_then_rest count rest),
      )

  uses-lem :
      (us : List Use) (b : InMemoryBus)
      → Bounded b
      → unread b ++ sent us ≡ (uses us b).0 ++ unread (uses us b).1
  uses-lem [] b h = append-nil (unread b)
  uses-lem (publishes e ∷ us) b h =
      let (h', is) = unread-publish e b h in
      let later = uses-lem us (publish e b) h' in
      elim (Bool-cases (str_eq (stream_for e.event_type) stream)) [
        | inl k ↦ rw k (
            sym (append_assoc (unread b) (e ∷ []) (sent us))
            ∙ ap (λ (es : List EventEnvelope). es ++ sent us) (sym (rw k at is))
            ∙ later)
        | inr k ↦ rw k (
            ap (λ (es : List EventEnvelope). es ++ sent us)
              (sym (append-nil (unread b)) ∙ sym (rw k at is))
            ∙ later)
      ]
  uses-lem (reads now count ∷ us) b h =
      let r = read_new group now count (event_type ∷ []) b in
      let (h', is) = unread-read now count b in
      let rest = uses us r.1 in
      ap (λ (es : List EventEnvelope). es ++ sent us) (sym is)
      ∙ append_assoc (map envelope_of r.0) (unread r.1) (sent us)
      ∙ ap (λ (es : List EventEnvelope). map envelope_of r.0 ++ es) (uses-lem us r.1 h')
      ∙ sym (append_assoc (map envelope_of r.0) rest.0 (unread rest.1))

  -- Nothing is read twice, skipped or out of order: however publications and reads of new messages
  -- alternate, what the group read from a stream, followed by what it has still to read, is what was
  -- published to the stream, in order.
  pub uses-InOrder :
      (us : List Use) → (uses us empty_bus).0 ++ unread (uses us empty_bus).1 ≡ sent us
  uses-InOrder us = sym (uses-lem us empty_bus (omega arith))

  length-unread :
      (now count : ℕ) (b : InMemoryBus)
      → length (unread (read_new group now count (event_type ∷ []) b).1) ≡ length (unread b) - count
  unfolding read_new
  length-unread now count b =
      let key : Key = (stream, group) in
      let rest = drop (cursor key b) (messages stream b) in
      let end = min (cursor key b + count) (length (messages stream b)) in
      let b₁ = add_pending key now (take count rest) b in
      let (same_streams, same_cursors) = add_pending-streams key now (take count rest) b in
      let same : messages stream (set_cursor key end b₁) ≡ messages stream b =
        ap (get_or str_eq [] stream) same_streams in
      let at_end = get_or-put_self key_eq key_eq-true 0 key end b₁.cursors in
      rw
        (
          same,
          at_end,
          drop-min (cursor key b + count) (messages stream b),
          drop-add (cursor key b) count (messages stream b),
          length-map,
          length-map,
          length-drop count rest,
        )
        refl

  -- Reads of new messages at these times.
  abbrev pub rounds : ℕ → List ℕ → List Use
  rounds count [] = []
  rounds count (now ∷ times) = reads now count ∷ rounds count times

  -- Everything that waits in a stream is read, in order, after as many rounds as the batches need.
  pub uses-rounds :
      (count : ℕ) (times : List ℕ) (b : InMemoryBus)
      → cursor (stream, group) b ≤ length (messages stream b)
      → length (unread b) ≤ length times * count
      → (uses (rounds count times) b).0 ≡ unread b
  uses-rounds count [] b h enough = sym (nil_of_length (unread b) (omega (arith, enough)))
  uses-rounds count (now ∷ times) b h enough =
      let r = read_new group now count (event_type ∷ []) b in
      let (h', is) = unread-read now count b in
      let fewer = length-unread now count b in
      let more : suc (length times) * count ≡ length times * count + count = omega arith in
      ap (λ (es : List EventEnvelope). map envelope_of r.0 ++ es)
        (uses-rounds count times r.1 h' (omega (arith, enough, fewer, more)))
      ∙ is
