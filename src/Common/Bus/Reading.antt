-- ===== src/Common/Bus/Reading.antt =====
-- What `ensure_group` and `read_new` do to the messages that the bus owes.
use mathlib.Core.List.{Memᴰ}
use mathlib.Core.List.Memᴰ
use mini_crypto_wallet.Base.{
  ℕ, ◌+◌, ◌≡◌, ◌∙◌, refl, sym, subst, ap, ◌⊎◌, inl, inr, min, true, false, some, List, [], ◌∷◌,
  String, arith, Bool-cases, ◌==◌,
}
use mini_crypto_wallet.Base.Table.{length, take, drop}
use mini_crypto_wallet.Base.Slices.{take-min, take-add}
use mini_crypto_wallet.Base.Dict.{
  lookup, get_or, get_or-put_self, get_or-put_ne, get_or-setdefault, setdefault,
}
use mini_crypto_wallet.Common.Events.{EventEnvelope, stream_for}
use mini_crypto_wallet.Common.Bus.{
  InMemoryBus, Pending, Message, Key, key_eq, messages, cursor, entries, set_entry, add_pending,
  set_cursor, ensure_group,
}
use mini_crypto_wallet.Common.Bus.Sound.{
  key_eq-true, Safe, waiting, done, dead, Kept, set_entry-Kept, lookup-set_entry,
  lookup-set_entry_self,
}

module _ {S : Type 0} (Done : S → EventEnvelope → Type 0) (group : String) where
  -- What reads the same is owed the same.
  Kept-reads :
      (cursors' : List (Key × ℕ)) (pending' : List (Key × List (ℕ × Pending))) (b : InMemoryBus)
      (s : S)
      → ((k : Key) → get_or key_eq 0 k cursors' ≡ cursor k b)
      → ((k : Key) → get_or key_eq [] k pending' ≡ entries k b)
      → Kept Done group b s
      → Kept Done group (record b { cursors = cursors'; pending = pending' }) s
  Kept-reads cursors' pending' b s hc hp h = record {
    fresh = h.fresh;
    unique = h.unique;
    sound = λ stream id p m. h.sound stream id p (rw (hp (stream, group)) at m);
    bounded = λ stream. rw (hc (stream, group)) (h.bounded stream);
    safe =
        λ stream id e m. as_before stream id e (h.safe stream id e (rw (hc (stream, group)) at m));
  }
    where
      as_before :
          (stream : String) (id : ℕ) (e : EventEnvelope)
          → Safe Done group stream id e b s
          → Safe Done group stream id e (record b { cursors = cursors'; pending = pending' }) s
      as_before stream id e (waiting p k) = waiting p (ap (lookup ◌==◌ id) (hp (stream, group)) ∙ k)
      as_before stream id e (done d) = done d
      as_before stream id e (dead item l k) = dead item l k

  pub ensure_group-Kept :
      (ts : List String) (b : InMemoryBus) (s : S)
      → Kept Done group b s
      → Kept Done group (ensure_group ts group b) s
  unfolding ensure_group
  ensure_group-Kept [] b s h = h
  ensure_group-Kept (t ∷ ts) b s h =
      let key : Key = (stream_for t, group) in
      ensure_group-Kept ts
        (record b {
          cursors = setdefault key_eq key 0 b.cursors;
          pending = setdefault key_eq key [] b.pending;
        })
        s
        (Kept-reads (setdefault key_eq key 0 b.cursors) (setdefault key_eq key [] b.pending) b s
          (λ k. get_or-setdefault key_eq 0 key k b.cursors)
          (λ k. get_or-setdefault key_eq [] key k b.pending) h)

  -- The messages of a slice become pending, and stay so.
  abbrev pub Waits : String → InMemoryBus → ℕ → Type 0
  Waits stream b id = (p : Pending) × (lookup ◌==◌ id (entries (stream, group) b) ≡ some p)

  set_entry-Waits :
      (stream stream' : String) (id i : ℕ) (p : Pending) (b : InMemoryBus)
      → Waits stream' b i
      → Waits stream' (set_entry (stream, group) id p b) i
  set_entry-Waits stream stream' id i p b (q, k) =
      elim (lookup-set_entry (stream, group) (stream', group) id i p b) [
        | inl (same, same_id, now_p) ↦ (p, now_p)
        | inr keeps ↦ (q, keeps ∙ k)
      ]

  pub add_pending-Waits :
      (stream : String) (now i : ℕ) (ms : List Message) (b : InMemoryBus)
      → (Waits stream b i ⊎ ((e : EventEnvelope) × Memᴰ {A = Message} (i, e) ms))
      → Waits stream (add_pending (stream, group) now ms b) i
  add_pending-Waits stream now i [] b (inl w) = w
  add_pending-Waits stream now i [] b (inr (e, m)) = absurd (Memᴰ.not-nil m)
  add_pending-Waits stream now i ((id, e) ∷ ms) b h =
      add_pending-Waits stream now i ms
        (set_entry (stream, group) id (record { envelope = e; delivered = 1; at = now }) b)
        (elim h [
          | inl w ↦ inl (set_entry-Waits stream stream id i _ b w)
          | inr (e', m) ↦ elim (Memᴰ.cases_cons m) [
            | inl is ↦
                let same : i ≡ id = ap (λ (x : Message). x.0) is in
                let p : Pending = record { envelope = e; delivered = 1; at = now } in
                inl (p, rw same (lookup-set_entry_self (stream, group) id p b))
            | inr m' ↦ inr (e', m')
          ]
        ])

  pub add_pending-Kept :
      (stream : String) (now : ℕ) (ms : List Message) (b : InMemoryBus) (s : S)
      → ((m : Message) → Memᴰ m ms → Memᴰ m (messages stream b))
      → Kept Done group b s
      → Kept Done group (add_pending (stream, group) now ms b) s
  add_pending-Kept stream now [] b s from h = h
  add_pending-Kept stream now ((id, e) ∷ ms) b s from h =
      let p : Pending = record { envelope = e; delivered = 1; at = now } in
      add_pending-Kept stream now ms (set_entry (stream, group) id p b) s
        (λ m k. from m (Memᴰ.tail k))
        (set_entry-Kept Done group stream id p b s (from (id, e) (Memᴰ.head refl)) h)

  -- The cursor moves over messages that wait.
  pub set_cursor-Kept :
      (stream : String) (n : ℕ) (b : InMemoryBus) (s : S)
      → Kept Done group b s
      → ((id : ℕ) (e : EventEnvelope)
          → Memᴰ {A = Message}
              (id, e)
              (take n (drop (cursor (stream, group) b) (messages stream b)))
          → Waits stream b id)
      → Kept Done group
          (set_cursor
            (stream, group)
            (min (cursor (stream, group) b + n) (length (messages stream b)))
            b)
          s
  set_cursor-Kept stream n b s h waits = record {
    fresh = h.fresh;
    unique = h.unique;
    sound = h.sound;
    bounded = λ stream'. elim (Bool-cases (key_eq key (stream', group))) [
      | inr e ↦ rw (apart stream' e) (h.bounded stream')
      | inl e ↦ let is = same stream' e in rw (at_key stream' is, sym is) (omega arith)
    ];
    safe = λ stream' id e m. elim (Bool-cases (key_eq key (stream', group))) [
      | inr k ↦ as_before stream' id e (h.safe stream' id e (rw (apart stream' k) at m))
      | inl k ↦
          let is = same stream' k in
          let m' : Memᴰ {A = Message} (id, e) (take end (messages stream b)) =
            rw (at_key stream' is, sym is) at m in
          let split = take-add (cursor key b) n (messages stream b) in
          subst (λ st. Safe Done group st id e (set_cursor key end b) s) is
            (elim (Memᴰ.append_cases (take (cursor key b) (messages stream b))
              (rw (take-min (cursor key b + n) (messages stream b), split) at m')) [
                | inl old ↦ as_before stream id e (h.safe stream id e old)
                | inr new ↦ let (p, w) = waits id e new in waiting p w
              ])
    ];
  }
    where
      key : Key
      key = (stream, group)

      end : ℕ
      end = min (cursor key b + n) (length (messages stream b))

      same : (stream' : String) → key_eq key (stream', group) ≡ true → stream ≡ stream'
      same stream' e = ap (λ (x : Key). x.0) ((key_eq-true key (stream', group)).0 e)

      apart :
          (stream' : String)
          → key_eq key (stream', group) ≡ false
          → cursor (stream', group) (set_cursor key end b) ≡ cursor (stream', group) b
      apart stream' e = get_or-put_ne key_eq key_eq-true 0 key (stream', group) end b.cursors e

      at_key :
          (stream' : String)
          → stream ≡ stream'
          → cursor (stream', group) (set_cursor key end b) ≡ end
      at_key stream' is = rw (sym is) (get_or-put_self key_eq key_eq-true 0 key end b.cursors)

      as_before :
          (stream' : String) (id : ℕ) (e : EventEnvelope)
          → Safe Done group stream' id e b s
          → Safe Done group stream' id e (set_cursor key end b) s
      as_before stream' id e (waiting p k) = waiting p k
      as_before stream' id e (done d) = done d
      as_before stream' id e (dead item l k) = dead item l k

  -- The same with the cursor and the messages as they were read before.
  pub set_cursor_from-Kept :
      (stream : String) (n c : ℕ) (ms : List Message) (b : InMemoryBus) (s : S)
      → cursor (stream, group) b ≡ c
      → messages stream b ≡ ms
      → Kept Done group b s
      → ((id : ℕ) (e : EventEnvelope)
          → Memᴰ {A = Message} (id, e) (take n (drop c ms))
          → Waits stream b id)
      → Kept Done group (set_cursor (stream, group) (min (c + n) (length ms)) b) s
  set_cursor_from-Kept stream n c ms b s is_c is_ms h waits =
      subst
        (λ (x : ℕ × List Message).
          Kept Done group (set_cursor (stream, group) (min (x.0 + n) (length x.1)) b) s)
        (pair_eq is_c is_ms)
        (set_cursor-Kept stream n b s h (λ id e m. waits id e (rw (is_c, is_ms) at m)))
    where
      pair_eq :
          {c c' : ℕ} {ms ms' : List Message}
          → c ≡ c'
          → ms ≡ ms'
          → ◌≡◌ {A = ℕ × List Message} (c, ms) (c', ms')
      pair_eq p q = cc
