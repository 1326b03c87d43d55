-- ===== src/Common/Bus/Publishing.antt =====
-- What `publish` does to the messages that the bus owes.
use mathlib.Core.List.{Memᴰ, append-nil}
use mathlib.Core.List.Memᴰ
use mini_crypto_wallet.Base.{
  ℕ, suc, ◌≡◌, ◌∙◌, sym, ap, ◌⊎◌, inl, inr, List, [], ◌∷◌, ◌++◌, String, arith, str_eq, Bool-cases,
}
use mini_crypto_wallet.Base.Slices.{take-append, length-append_le}
use mini_crypto_wallet.Base.Dict.{get_or-put_self, get_or-put_ne}
use mini_crypto_wallet.Common.Events.{EventEnvelope, stream_for}
use mini_crypto_wallet.Common.Bus.{InMemoryBus, DeliveredEvent, Message, messages, cursor, publish}
use mini_crypto_wallet.Common.Bus.Sound.{str_eq-true, Safe, waiting, done, dead, Kept}

-- The event was published as the message that it is delivered as.
abbrev pub Valid : InMemoryBus → DeliveredEvent → Type 0
Valid b d = Memᴰ {A = Message} (d.message_id, d.envelope) (messages d.stream b)

module _ (stream : String) (e : EventEnvelope) (b : InMemoryBus) where
  -- The messages of a stream after a publication are the old ones or the new one.
  mem_of_publish :
      (m : Message)
      → Memᴰ m (messages stream (publish e b))
      → Memᴰ m (messages stream b) ⊎ (m ≡ (suc b.seq, e))
  unfolding publish
  mem_of_publish m h = elim (Bool-cases (str_eq (stream_for e.event_type) stream)) [
    | inr k ↦
        let same =
          get_or-put_ne str_eq str_eq-true [] (stream_for e.event_type) stream
            (messages (stream_for e.event_type) b ++ (suc b.seq, e) ∷ []) b.streams k in
        inl (rw same at h)
    | inl k ↦
        let is : stream_for e.event_type ≡ stream = (str_eq-true _ _).0 k in
        let at_key =
          get_or-put_self str_eq str_eq-true [] stream (messages stream b ++ (suc b.seq, e) ∷ [])
            b.streams in
        elim (Memᴰ.append_cases (messages stream b) (rw (is, at_key) at h)) [
          | inl old ↦ inl old
          | inr new ↦ inr (Memᴰ.eq_of_singleton new)
        ]
  ]

  -- A publication adds to the end of a stream.
  messages-publish :
      (rest : List Message) × (messages stream (publish e b) ≡ messages stream b ++ rest)
  unfolding publish
  messages-publish = elim (Bool-cases (str_eq (stream_for e.event_type) stream)) [
    | inr k ↦ (
      [],
      get_or-put_ne str_eq str_eq-true [] (stream_for e.event_type) stream
            (messages (stream_for e.event_type) b ++ (suc b.seq, e) ∷ []) b.streams k
          ∙ sym (append-nil (messages stream b)),
    )
    | inl k ↦
        let is : stream_for e.event_type ≡ stream = (str_eq-true _ _).0 k in
        (
          (suc b.seq, e) ∷ [],
          rw is (
              get_or-put_self str_eq str_eq-true [] stream
                (messages stream b ++ (suc b.seq, e) ∷ []) b.streams),
        )
  ]

module _ {S : Type 0} (Done : S → EventEnvelope → Type 0) (group : String) where
  -- The cursor is within the stream, so a publication gives nothing out.
  pub publish-Kept :
      (e : EventEnvelope) (b : InMemoryBus) (s : S)
      → Kept Done group b s
      → Kept Done group (publish e b) s
  unfolding publish
  publish-Kept e b s h = record {
    fresh = λ stream id e' m. elim (mem_of_publish stream e b (id, e') m) [
      | inl old ↦ let le = h.fresh stream id e' old in omega (arith, le)
      | inr new ↦ let is = ap (λ (x : Message). x.0) new in omega (arith, is)
    ];
    unique = λ stream id e₁ e₂ m₁ m₂. elim (mem_of_publish stream e b (id, e₁) m₁) [
      | inl o₁ ↦ elim (mem_of_publish stream e b (id, e₂) m₂) [
        | inl o₂ ↦ h.unique stream id e₁ e₂ o₁ o₂
        | inr n₂ ↦ absurd (too_new stream id e₁ e₂ o₁ n₂)
      ]
      | inr n₁ ↦ elim (mem_of_publish stream e b (id, e₂) m₂) [
        | inl o₂ ↦ absurd (too_new stream id e₂ e₁ o₂ n₁)
        | inr n₂ ↦ ap (λ (x : Message). x.1) n₁ ∙ sym (ap (λ (x : Message). x.1) n₂)
      ]
    ];
    sound = λ stream id p m.
        let (rest, adds) = messages-publish stream e b in
        rw adds (Memᴰ.append_left rest (h.sound stream id p m));
    bounded = λ stream.
        let (rest, adds) = messages-publish stream e b in
        let le = h.bounded stream in
        let more = length-append_le (messages stream b) rest in rw adds (omega (arith, le, more));
    safe = λ stream id e' m.
        let (rest, adds) = messages-publish stream e b in
        let given =
          take-append (cursor (stream, group) b) (messages stream b) rest (h.bounded stream) in
        as_before stream id e' (h.safe stream id e' (rw (adds, given) at m));
  }
    where
      too_new :
          (stream : String) (id : ℕ) (e₁ e₂ : EventEnvelope)
          → Memᴰ {A = Message} (id, e₁) (messages stream b)
          → ◌≡◌ {A = Message} (id, e₂) (suc b.seq, e)
          → ⊥
      too_new stream id e₁ e₂ old new =
          let le = h.fresh stream id e₁ old in
          let is = ap (λ (x : Message). x.0) new in omega (arith, le, is)

      as_before :
          (stream : String) (id : ℕ) (e' : EventEnvelope)
          → Safe Done group stream id e' b s
          → Safe Done group stream id e' (publish e b) s
      as_before stream id e' (waiting p k) = waiting p k
      as_before stream id e' (done d) = done d
      as_before stream id e' (dead item l k) = dead item l k
