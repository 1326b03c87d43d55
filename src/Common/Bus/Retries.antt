-- ===== src/Common/Bus/Retries.antt =====
-- How many stale messages a round claims, and what becomes of a message whose handler fails.
use mini_crypto_wallet.Base.{
  ℕ, suc, ◌+◌, ◌≤◌, ◌<◌, ◌≡◌, refl, ap, ◌⊎◌, inl, inr, max, none, List, [], ◌∷◌, ◌++◌, String,
  arith, Bool-cases, Option-cases, ltb, leb, ◌==◌,
}
use mini_crypto_wallet.Base.Table.{length}
use mini_crypto_wallet.Base.Dict.{lookup}
use mini_crypto_wallet.Base.Result.{Result, Error, ok, err, after}
use mini_crypto_wallet.Common.Events.{stream_for}
use mini_crypto_wallet.Common.Bus.{
  InMemoryBus, DeliveredEvent, DeadLetter, Pending, entries, set_entry, ack, dead_letter,
  claim_entries, claim_types, claim_stale, redelivered, redelivery,
}
use mini_crypto_wallet.Common.Bus.Consumer.{
  ConsumerRuntime, Consuming, acked, tell, reject, finish, handle,
}
use mini_crypto_wallet.Common.Bus.Sound.{lookup-ack_self}

length-concat : {A : Type 0} (xs : List A) (x : A) → length (xs ++ x ∷ []) ≡ suc (length xs)
length-concat [] x = refl
length-concat (y ∷ xs) x = ap suc (length-concat xs x)

module _ (group : String) (now count min_idle_ms : ℕ) where
  length-claim_entries :
      (stream : String) (ps : List (ℕ × Pending)) (ds : List DeliveredEvent) (b : InMemoryBus)
      → length (claim_entries group now count min_idle_ms stream ps ds b).0
        ≤ max count (suc (length ds))
  unfolding claim_entries
  length-claim_entries stream [] ds b = omega arith
  length-claim_entries stream ((id, p) ∷ ps) ds b =
      elim (Bool-cases (leb (p.at + min_idle_ms) now)) [
        | inr e ↦ rw e (length-claim_entries stream ps ds b)
        | inl e ↦
            let d = redelivery stream id p in
            let b' = set_entry (stream, group) id (redelivered now p) b in
            let one = length-concat ds d in
            let more = length-claim_entries stream ps (ds ++ d ∷ []) b' in
            elim (Bool-cases (leb count (length (ds ++ d ∷ [])))) [
              | inl k ↦ rw (e, k) (omega (arith, one))
              | inr k ↦
                  let open_place : length (ds ++ d ∷ []) < count = ground arith in
                  rw (e, k) (omega (arith, more, one, open_place))
            ]
      ]

  length-claim_types :
      (ts : List String) (ds : List DeliveredEvent) (b : InMemoryBus)
      → length (claim_types group now count min_idle_ms ts ds b).0
        ≤ max count (length ds) + length ts
  unfolding claim_types
  length-claim_types [] ds b = omega arith
  length-claim_types (t ∷ ts) ds b =
      let stream = stream_for t in
      let r = claim_entries group now count min_idle_ms stream (entries (stream, group) b) ds b in
      let first = length-claim_entries stream (entries (stream, group) b) ds b in
      let rest = length-claim_types ts r.0 r.1 in omega (arith, first, rest)

  -- A round claims at most `count` stale messages, and one more for each type of event.
  pub length-claim_stale :
      (ts : List String) (b : InMemoryBus)
      → length (claim_stale group now count min_idle_ms ts b).0.0 ≤ count + length ts
  unfolding claim_stale
  length-claim_stale ts b = let h = length-claim_types ts [] b in omega (arith, h)

module _ {S O : Type 0} (c : ConsumerRuntime S O) where
  -- The message is a dead letter of the bus, and it is out of the pending entries unless the handler
  -- of dead letters raised.
  abbrev pub Rejected :
      DeliveredEvent → String → Consuming S → Result (Unit {0}) × Consuming S → Type 0
  Rejected d error s r =
      let item : DeadLetter = record {
        envelope = d.envelope;
        delivery_count = d.delivery_count;
        error = error;
      } in
      (r.1.bus.dead_letters ≡ s.bus.dead_letters ++ item ∷ [])
      × (((x : Error) × (r.0 ≡ err x) × (r.1.bus.pending ≡ s.bus.pending))
          ⊎ ((r.0 ≡ ok tt)
              × (lookup ◌==◌ d.message_id (entries (d.stream, c.group) r.1.bus) ≡ none)))

  tell-bus : (item : DeadLetter) (s : Consuming S) → (tell c item s).1.bus ≡ s.bus
  unfolding tell
  tell-bus item s = elim (Option-cases c.on_dead_letter) [
    | inl k ↦ rw k refl
    | inr (f, k) ↦ rw k refl
  ]

  reject-Rejected :
      (d : DeliveredEvent) (error : String) (s : Consuming S)
      → Rejected d error s (reject c d error s)
  unfolding reject dead_letter ack
  reject-Rejected d error s =
      let item : DeadLetter = record {
        envelope = d.envelope;
        delivery_count = d.delivery_count;
        error = error;
      } in
      let s₁ = record s { bus = dead_letter item s.bus } in
      ended (tell c item s₁) (tell-bus item s₁)
    where
      ended :
          (r : Result (Unit {0}) × Consuming S)
          → r.1.bus
            ≡ dead_letter
                (record { envelope = d.envelope; delivery_count = d.delivery_count; error = error })
                s.bus
          → Rejected d error s (after r (λ _ s'. (ok tt, acked c d s')))
      ended (err x, s') k = (
        ap (λ (b : InMemoryBus). b.dead_letters) k,
        inl (x, refl, ap (λ (b : InMemoryBus). b.pending) k),
      )
      ended (ok u, s') k = (
        ap (λ (b : InMemoryBus). b.dead_letters) k,
        inr (refl, lookup-ack_self d.stream c.group d.message_id s'.bus),
      )

  -- A message whose handler raises before the last delivery is left pending, as it is; from the last
  -- delivery on it becomes a dead letter and is out of the pending entries, unless the handler of
  -- dead letters raises, which leaves it pending.
  pub handle_failed :
      (d : DeliveredEvent) (s : Consuming S) (x : Error) (db' : S)
      → c.dispatch d.envelope s.db ≡ (err x, db')
      → ((d.delivery_count < c.max_delivery) × (handle c d s ≡ (ok tt, record s { db = db' })))
        ⊎ ((c.max_delivery ≤ d.delivery_count)
            × (error : String) × Rejected d error s (handle c d s))
  unfolding handle finish
  handle_failed d s x db' h = elim (Bool-cases (ltb c.max_delivery d.delivery_count)) [
    | inl k ↦
        let late : c.max_delivery < d.delivery_count = ground arith in
        inr (
          omega (arith, late),
          "max delivery count exceeded",
          rw k (reject-Rejected d "max delivery count exceeded" s),
        )
    | inr k ↦ elim (Bool-cases (leb c.max_delivery d.delivery_count)) [
      | inl l ↦
          let last : c.max_delivery ≤ d.delivery_count = ground arith in
          inr (
            last,
            c.describe x,
            rw (k, h, l) (reject-Rejected d (c.describe x) (record s { db = db' })),
          )
      | inr l ↦
          let early : d.delivery_count < c.max_delivery = ground arith in inl (early, rw (k, h, l))
    ]
  ]
