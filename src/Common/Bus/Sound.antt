-- ===== src/Common/Bus/Sound.antt =====
-- What the bus owes a group of consumers: no message that it gave out is lost, and what each change
-- of the bus does to that.
use mathlib.Core.List.{Memᴰ}
use mini_crypto_wallet.Base.{
  ℕ, ◌≤◌, ◌≡◌, ◌↔◌, ◌∙◌, refl, sym, ap, ◌⊎◌, inl, inr, true, none, some, List, [], String, arith,
  eq_iff, str_eq, Bool-cases, ◌==◌,
}
use mini_crypto_wallet.Base.Table.{length, take}
use mini_crypto_wallet.Base.Slices.{mem_of_take}
use mini_crypto_wallet.Base.Dict.{
  lookup, pop, put, get_or, lookup-put_self, lookup-put_ne, get_or-put_self, get_or-put_ne,
  get_or-adjust_self, get_or-adjust_ne, lookup-pop_ne, lookup-pop_self, mem_of_pop, mem_of_put,
}
use mini_crypto_wallet.Common.Events.{EventEnvelope}
use mini_crypto_wallet.Common.Bus.{
  InMemoryBus, DeadLetter, Pending, Message, Key, key_eq, messages, cursor, entries, set_entry, ack,
}

pub str_eq-true : (a b : String) → (str_eq a b ≡ true) ↔ (a ≡ b)
str_eq-true a b = eq_iff a b

pub eq_true : (a b : ℕ) → ((a == b) ≡ true) ↔ (a ≡ b)
eq_true a b = (λ h. ground arith, λ h. ground arith)

pub key_eq-true : (a b : Key) → (key_eq a b ≡ true) ↔ (a ≡ b)
key_eq-true (s, g) (s', g') = (
  λ h. ground (arith, eq_iff s s', eq_iff g g'),
  λ h. ground (arith, eq_iff s s', eq_iff g g', ap (λ (k : Key). k.0) h, ap (λ (k : Key). k.1) h),
)

module _ {S : Type 0} (Done : S → EventEnvelope → Type 0) (group : String) where
  -- A message that was given out waits for an acknowledgement, or it was handled, or it is a dead
  -- letter.
  pub data Safe (stream : String) (id : ℕ) (e : EventEnvelope) (b : InMemoryBus) (s : S)
      : Type 0 where
    waiting :
        (p : Pending) → lookup ◌==◌ id (entries (stream, group) b) ≡ some p → Safe stream id e b s
    done : Done s e → Safe stream id e b s
    dead : (item : DeadLetter) → Memᴰ item b.dead_letters → item.envelope ≡ e → Safe stream id e b s

  pub record Kept (b : InMemoryBus) (s : S) : Type 0 where
    pub fresh :
        (stream : String) (id : ℕ) (e : EventEnvelope)
        → Memᴰ {A = Message} (id, e) (messages stream b)
        → id ≤ b.seq
    pub unique :
        (stream : String) (id : ℕ) (e e' : EventEnvelope)
        → Memᴰ {A = Message} (id, e) (messages stream b)
        → Memᴰ {A = Message} (id, e') (messages stream b)
        → e ≡ e'
    pub sound :
        (stream : String) (id : ℕ) (p : Pending)
        → Memᴰ {A = ℕ × Pending} (id, p) (entries (stream, group) b)
        → Memᴰ {A = Message} (id, p.envelope) (messages stream b)
    pub bounded : (stream : String) → cursor (stream, group) b ≤ length (messages stream b)
    pub safe :
        (stream : String) (id : ℕ) (e : EventEnvelope)
        → Memᴰ {A = Message} (id, e) (take (cursor (stream, group) b) (messages stream b))
        → Safe stream id e b s

module _ (key k : Key) (id i : ℕ) where
  -- What an entry reads as after another one, or it itself, was written.
  pub lookup-set_entry :
      (p : Pending) (b : InMemoryBus)
      → ((key ≡ k) × (id ≡ i) × (lookup ◌==◌ i (entries k (set_entry key id p b)) ≡ some p))
        ⊎ (lookup ◌==◌ i (entries k (set_entry key id p b)) ≡ lookup ◌==◌ i (entries k b))
  lookup-set_entry p b = elim (Bool-cases (key_eq key k)) [
    | inr e ↦ inr (
        ap (lookup ◌==◌ i)
          (get_or-put_ne key_eq key_eq-true [] key k (put ◌==◌ id p (entries key b)) b.pending e))
    | inl e ↦
        let same : key ≡ k = (key_eq-true key k).0 e in
        let at_key =
          get_or-put_self key_eq key_eq-true [] k (put ◌==◌ id p (entries k b)) b.pending in
        elim (Bool-cases (id == i)) [
          | inl f ↦
              let same_id : id ≡ i = (eq_true id i).0 f in
              inl (
                same,
                same_id,
                rw (same, at_key, same_id) (lookup-put_self ◌==◌ eq_true i p (entries k b)),
              )
          | inr f ↦ inr (rw (same, at_key) (lookup-put_ne ◌==◌ eq_true id i p (entries k b) f))
        ]
  ]

  lookup-ack :
      (b : InMemoryBus)
      → ((key ≡ k) × (id ≡ i) × (lookup ◌==◌ i (entries k (ack key.0 key.1 id b)) ≡ none))
        ⊎ (lookup ◌==◌ i (entries k (ack key.0 key.1 id b)) ≡ lookup ◌==◌ i (entries k b))
  unfolding ack
  lookup-ack b = elim (Bool-cases (key_eq key k)) [
    | inr e ↦ inr (
        ap (lookup ◌==◌ i) (get_or-adjust_ne key_eq key_eq-true [] key k (pop ◌==◌ id) b.pending e))
    | inl e ↦
        let same : key ≡ k = (key_eq-true key k).0 e in
        let at_key = get_or-adjust_self key_eq key_eq-true [] k (pop ◌==◌ id) b.pending refl in
        elim (Bool-cases (id == i)) [
          | inl f ↦
              let same_id : id ≡ i = (eq_true id i).0 f in
              inl (same, same_id, rw (same, at_key, same_id) (lookup-pop_self ◌==◌ i (entries k b)))
          | inr f ↦ inr (rw (same, at_key) (lookup-pop_ne ◌==◌ eq_true id i (entries k b) f))
        ]
  ]

pub lookup-set_entry_self :
    (key : Key) (id : ℕ) (p : Pending) (b : InMemoryBus)
    → lookup ◌==◌ id (entries key (set_entry key id p b)) ≡ some p
lookup-set_entry_self key id p b =
    rw (get_or-put_self key_eq key_eq-true [] key (put ◌==◌ id p (entries key b)) b.pending)
      (lookup-put_self ◌==◌ eq_true id p (entries key b))

pub lookup-ack_self :
    (stream group : String) (id : ℕ) (b : InMemoryBus)
    → lookup ◌==◌ id (entries (stream, group) (ack stream group id b)) ≡ none
unfolding ack
lookup-ack_self stream group id b =
    rw (get_or-adjust_self key_eq key_eq-true [] (stream, group) (pop ◌==◌ id) b.pending refl)
      (lookup-pop_self ◌==◌ id (entries (stream, group) b))

module _ (key k : Key) (id i : ℕ) where
  mem_of_set_entry :
      (p q : Pending) (b : InMemoryBus)
      → Memᴰ {A = ℕ × Pending} (i, q) (entries k (set_entry key id p b))
      → ((key ≡ k) × (i ≡ id) × (q ≡ p)) ⊎ Memᴰ {A = ℕ × Pending} (i, q) (entries k b)
  mem_of_set_entry p q b m = elim (Bool-cases (key_eq key k)) [
    | inr e ↦
        let apart =
          get_or-put_ne key_eq key_eq-true [] key k (put ◌==◌ id p (entries key b)) b.pending e in
        inr (rw apart at m)
    | inl e ↦
        let same : key ≡ k = (key_eq-true key k).0 e in
        let at_key =
          get_or-put_self key_eq key_eq-true [] k (put ◌==◌ id p (entries k b)) b.pending in
        elim (mem_of_put ◌==◌ eq_true id p (entries k b) (rw (same, at_key) at m)) [
          | inl h ↦ inl (same, ap (λ (x : ℕ × Pending). x.0) h, ap (λ (x : ℕ × Pending). x.1) h)
          | inr old ↦ inr old
        ]
  ]

  mem_of_ack :
      (q : Pending) (b : InMemoryBus)
      → Memᴰ {A = ℕ × Pending} (i, q) (entries k (ack key.0 key.1 id b))
      → Memᴰ {A = ℕ × Pending} (i, q) (entries k b)
  unfolding ack
  mem_of_ack q b m = elim (Bool-cases (key_eq key k)) [
    | inr e ↦ rw (get_or-adjust_ne key_eq key_eq-true [] key k (pop ◌==◌ id) b.pending e) at m
    | inl e ↦
        let same : key ≡ k = (key_eq-true key k).0 e in
        let at_key = get_or-adjust_self key_eq key_eq-true [] k (pop ◌==◌ id) b.pending refl in
        mem_of_pop ◌==◌ id (entries k b) (rw (same, at_key) at m)
  ]

module _ {S : Type 0} (Done : S → EventEnvelope → Type 0) (group : String) where
  -- A change of the pending entries alone.
  Kept-pending :
      (pending' : List (Key × List (ℕ × Pending))) (b : InMemoryBus) (s : S)
      → Kept Done group b s
      → ((stream : String) (id : ℕ) (p : Pending)
          → Memᴰ {A = ℕ × Pending} (id, p) (get_or key_eq [] (stream, group) pending')
          → Memᴰ {A = Message} (id, p.envelope) (messages stream b))
      → ((stream : String) (id : ℕ) (e : EventEnvelope)
          → Memᴰ {A = Message} (id, e) (messages stream b)
          → Safe Done group stream id e b s
          → Safe Done group stream id e (record b { pending = pending' }) s)
      → Kept Done group (record b { pending = pending' }) s
  Kept-pending pending' b s h sound' safe' = record {
    fresh = h.fresh;
    unique = h.unique;
    sound = sound';
    bounded = h.bounded;
    safe = λ stream id e m.
        safe' stream id e (mem_of_take (cursor (stream, group) b) (messages stream b) m)
          (h.safe stream id e m);
  }

  -- An entry of a message of the stream is written.
  pub set_entry-Kept :
      (stream : String) (id : ℕ) (p : Pending) (b : InMemoryBus) (s : S)
      → Memᴰ {A = Message} (id, p.envelope) (messages stream b)
      → Kept Done group b s
      → Kept Done group (set_entry (stream, group) id p b) s
  set_entry-Kept stream id p b s m h =
      Kept-pending (set_entry (stream, group) id p b).pending b s h
        (λ stream' i q k. elim (mem_of_set_entry (stream, group) (stream', group) id i p q b k) [
          | inl (same, same_id, is_p) ↦
              let same_stream : stream ≡ stream' = ap (λ (x : Key). x.0) same in
              rw (is_p, same_id, sym same_stream) m
          | inr old ↦ h.sound stream' i q old
        ])
        (λ stream' i e m' safe. kept_entry stream' i e safe)
    where
      kept_entry :
          (stream' : String) (i : ℕ) (e : EventEnvelope)
          → Safe Done group stream' i e b s
          → Safe Done group stream' i e (set_entry (stream, group) id p b) s
      kept_entry stream' i e (done d) = done d
      kept_entry stream' i e (dead item l k) = dead item l k
      kept_entry stream' i e (waiting q k) =
          elim (lookup-set_entry (stream, group) (stream', group) id i p b) [
            | inl (same, same_id, now_p) ↦ waiting p now_p
            | inr keeps ↦ waiting q (keeps ∙ k)
          ]

  -- A message that was handled, or is a dead letter, is acknowledged.
  pub ack-Kept :
      (stream : String) (id : ℕ) (e : EventEnvelope) (b : InMemoryBus) (s : S)
      → Memᴰ {A = Message} (id, e) (messages stream b)
      → (Done s e ⊎ ((item : DeadLetter) × Memᴰ item b.dead_letters × (item.envelope ≡ e)))
      → Kept Done group b s
      → Kept Done group (ack stream group id b) s
  unfolding ack
  ack-Kept stream id e b s m over h =
      Kept-pending (ack stream group id b).pending b s h
        (λ stream' i q k.
          h.sound stream' i q (mem_of_ack (stream, group) (stream', group) id i q b k))
        (λ stream' i e' m' safe. kept_ack stream' i e' m' safe)
    where
      kept_ack :
          (stream' : String) (i : ℕ) (e' : EventEnvelope)
          → Memᴰ {A = Message} (i, e') (messages stream' b)
          → Safe Done group stream' i e' b s
          → Safe Done group stream' i e' (ack stream group id b) s
      kept_ack stream' i e' m' (done d) = done d
      kept_ack stream' i e' m' (dead item l k) = dead item l k
      kept_ack stream' i e' m' (waiting q k) =
          elim (lookup-ack (stream, group) (stream', group) id i b) [
            | inr keeps ↦ waiting q (keeps ∙ k)
            | inl (same, same_id, gone) ↦
                let same_stream : stream ≡ stream' = ap (λ (x : Key). x.0) same in
                let is_e : e' ≡ e = h.unique stream id e' e (rw (same_stream, same_id) m') m in
                elim over [
                  | inl d ↦ done (rw is_e d)
                  | inr (item, l, k') ↦ dead item l (k' ∙ sym is_e)
                ]
          ]
