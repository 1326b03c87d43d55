-- ===== src/Common/Bus/Handling.antt =====
-- `ConsumerRuntime` loses no message, whatever its handlers do and raise.
use mathlib.Core.List.{Memᴰ}
use mathlib.Core.List.Memᴰ
use mini_crypto_wallet.Base.{
  ℕ, suc, str_eq, ◌≡◌, refl, sym, subst, ◌⊎◌, inl, inr, some, List, [], ◌∷◌, ◌++◌, String,
  Bool-cases, Option-cases, ltb, leb,
}
use mini_crypto_wallet.Base.Dict.{get_or}
use mini_crypto_wallet.Base.Result.{Result, ok, err, after}
use mini_crypto_wallet.Common.Events.{EventEnvelope}
use mini_crypto_wallet.Common.Bus.{
  InMemoryBus, DeliveredEvent, DeadLetter, Message, ack, dead_letter, claim_types, claim_stale,
  read_new,
}
use mini_crypto_wallet.Common.Bus.Consumer.{
  ConsumerRuntime, Consuming, start, acked, tell, reject, finish, handle, handle_all, run_once,
}
use mini_crypto_wallet.Common.Bus.Sound.{Safe, waiting, done, dead, Kept, ack-Kept}
use mini_crypto_wallet.Common.Bus.Publishing.{Valid}
use mini_crypto_wallet.Common.Bus.Reading.{ensure_group-Kept}
use mini_crypto_wallet.Common.Bus.Batch.{
  AllValid, moved, append-AllValid, claim_types-Batch, read_new-Batch,
}

-- `Done` holds of the events that `dispatch` returned for, and for good.
pub record Handles {S O : Type 0} (c : ConsumerRuntime S O) (Done : S → EventEnvelope → Type 0)
    : Type 0 where
  pub records : (e : EventEnvelope) (s s' : S) (o : O) → c.dispatch e s ≡ (ok o, s') → Done s' e
  pub keeps : (e e' : EventEnvelope) (s : S) → Done s e' → Done (c.dispatch e s).1 e'
  pub tells :
      (f : DeadLetter → S → Result (Unit {0}) × S) (item : DeadLetter) (e : EventEnvelope) (s : S)
      → c.on_dead_letter ≡ some f
      → Done s e
      → Done (f item s).1 e

module _ {S : Type 0} (Done : S → EventEnvelope → Type 0) (group : String) where
  Kept-db :
      (b : InMemoryBus) (s s' : S)
      → ((e : EventEnvelope) → Done s e → Done s' e)
      → Kept Done group b s
      → Kept Done group b s'
  Kept-db b s s' more h = record {
    fresh = h.fresh;
    unique = h.unique;
    sound = h.sound;
    bounded = h.bounded;
    safe = λ stream id e m. as_before stream id e (h.safe stream id e m);
  }
    where
      as_before :
          (stream : String) (id : ℕ) (e : EventEnvelope)
          → Safe Done group stream id e b s
          → Safe Done group stream id e b s'
      as_before stream id e (waiting p k) = waiting p k
      as_before stream id e (done d) = done (more e d)
      as_before stream id e (dead item l k) = dead item l k

  dead_letter-Kept :
      (item : DeadLetter) (b : InMemoryBus) (s : S)
      → Kept Done group b s
      → Kept Done group (dead_letter item b) s
  unfolding dead_letter
  dead_letter-Kept item b s h = record {
    fresh = h.fresh;
    unique = h.unique;
    sound = h.sound;
    bounded = h.bounded;
    safe = λ stream id e m. as_before stream id e (h.safe stream id e m);
  }
    where
      as_before :
          (stream : String) (id : ℕ) (e : EventEnvelope)
          → Safe Done group stream id e b s
          → Safe Done group stream id e (dead_letter item b) s
      as_before stream id e (waiting p k) = waiting p k
      as_before stream id e (done d) = done d
      as_before stream id e (dead item' l k) = dead item' (Memᴰ.append_left _ l) k

module _ {S O : Type 0} (c : ConsumerRuntime S O) (Done : S → EventEnvelope → Type 0)
    (l : Handles c Done) where
  -- A consumer with a bus of these streams, from which nothing was lost.
  record Holds (streams : List (String × List Message)) (s : Consuming S) : Type 0 where
    kept : Kept Done c.group s.bus s.db
    same : s.bus.streams ≡ streams

  module _ (streams : List (String × List Message)) where
    acked-Holds :
        (d : DeliveredEvent) (s : Consuming S)
        → Valid s.bus d
        → (Done s.db d.envelope
            ⊎ ((item : DeadLetter) × Memᴰ item s.bus.dead_letters × (item.envelope ≡ d.envelope)))
        → Holds streams s
        → Holds streams (acked c d s)
    unfolding ack
    acked-Holds d s v over h = record {
      kept = ack-Kept Done c.group d.stream d.message_id d.envelope s.bus s.db v over h.kept;
      same = h.same;
    }

    -- The dead letters stay while the handler of dead letters runs.
    tell-Holds :
        (item : DeadLetter) (s : Consuming S)
        → Holds streams s
        → Holds streams (tell c item s).1 × ((tell c item s).1.bus ≡ s.bus)
    unfolding tell
    tell-Holds item s h = elim (Option-cases c.on_dead_letter) [
      | inl k ↦ rw k (h, refl)
      | inr (f, k) ↦ rw k (
        record {
          kept =
              Kept-db Done c.group s.bus s.db (f item s.db).1 (λ e d. l.tells f item e s.db k d)
                h.kept;
          same = h.same;
        },
        refl,
      )
    ]

    reject-Holds :
        (d : DeliveredEvent) (error : String) (s : Consuming S)
        → Valid s.bus d
        → Holds streams s
        → Holds streams (reject c d error s).1
    unfolding reject dead_letter
    reject-Holds d error s v h = ended (tell c item s₁) refl
      where
        item : DeadLetter
        item = record { envelope = d.envelope; delivery_count = d.delivery_count; error = error }

        s₁ : Consuming S
        s₁ = record s { bus = dead_letter item s.bus }

        told : Holds streams (tell c item s₁).1 × ((tell c item s₁).1.bus ≡ s₁.bus)
        told =
            tell-Holds item s₁ (record {
              kept = dead_letter-Kept Done c.group item s.bus s.db h.kept;
              same = h.same;
            })

        ended :
            (r : Result (Unit {0}) × Consuming S)
            → tell c item s₁ ≡ r
            → Holds streams (after r (λ _ s'. (ok tt, acked c d s'))).1
        ended (err x, s') k = rw k at told.0
        ended (ok u, s') k =
            let bus_is : s'.bus ≡ s₁.bus = rw k at told.1 in
            let valid' : Valid s'.bus d = subst (λ b. Valid b d) (sym bus_is) v in
            let there : Memᴰ item s'.bus.dead_letters =
              subst (λ (b : InMemoryBus). Memᴰ item b.dead_letters) (sym bus_is)
                (Memᴰ.append_right s.bus.dead_letters (Memᴰ.head refl)) in
            acked-Holds d s' valid' (inr (item, there, refl)) (rw k at told.0)

    handle-Holds :
        (d : DeliveredEvent) (s : Consuming S)
        → Valid s.bus d
        → Holds streams s
        → Holds streams (handle c d s).1
    unfolding handle finish
    handle-Holds d s v h = elim (Bool-cases (ltb c.max_delivery d.delivery_count)) [
      | inl k ↦ rw k (reject-Holds d "max delivery count exceeded" s v h)
      | inr k ↦ rw k (ended (c.dispatch d.envelope s.db) refl)
    ]
      where
        moved :
            (r : Result O × S)
            → c.dispatch d.envelope s.db ≡ r
            → Holds streams (record s { db = r.1 })
        moved r k = record {
          kept =
              Kept-db Done c.group s.bus s.db r.1
                (λ e' m. subst (λ (x : Result O × S). Done x.1 e') k (l.keeps d.envelope e' s.db m))
                h.kept;
          same = h.same;
        }

        ended :
            (r : Result O × S) → c.dispatch d.envelope s.db ≡ r → Holds streams (finish c d r s).1
        ended (ok o, db') k =
            acked-Holds d (record s { db = db' }) v (inl (l.records d.envelope s.db db' o k))
              (moved (ok o, db') k)
        ended (err x, db') k = elim (Bool-cases (leb c.max_delivery d.delivery_count)) [
          | inl full ↦
              rw full
                (reject-Holds d (c.describe x) (record s { db = db' }) v (moved (err x, db') k))
          | inr again ↦ rw again (moved (err x, db') k)
        ]

    -- Every event of the batch was published.
    abbrev Published : List DeliveredEvent → Type 0
    Published ds =
        (d : DeliveredEvent)
        → Memᴰ d ds
        → Memᴰ {A = Message} (d.message_id, d.envelope) (get_or str_eq [] d.stream streams)

    handle_all-Holds :
        (ds : List DeliveredEvent) (s : Consuming S)
        → Published ds
        → Holds streams s
        → Holds streams (handle_all c ds s).1
    unfolding handle_all
    handle_all-Holds [] s v h = h
    handle_all-Holds (d ∷ ds) s v h =
        ended (handle c d s) (handle-Holds d s first h)
          (λ s' k. handle_all-Holds ds s' (λ d' m. v d' (Memᴰ.tail m)) k)
      where
        first : Valid s.bus d
        first = rw h.same (v d (Memᴰ.head refl))

        counted :
            (r : Result ℕ × Consuming S)
            → Holds streams r.1
            → Holds streams (after r (λ n s''. (ok (suc n), s''))).1
        counted (ok n, s'') k = k
        counted (err x, s'') k = k

        ended :
            (r : Result (Unit {0}) × Consuming S)
            → Holds streams r.1
            → ((s' : Consuming S) → Holds streams s' → Holds streams (handle_all c ds s').1)
            → Holds streams
                (after r (λ _ s'. after (handle_all c ds s') (λ n s''. (ok (suc n), s'')))).1
        ended (ok u, s') k more = counted (handle_all c ds s') (more s' k)
        ended (err x, s') k more = k

  start-Kept :
      (s : Consuming S)
      → Kept Done c.group s.bus s.db
      → Kept Done c.group (start c s).bus (start c s).db
  unfolding start
  start-Kept s h = elim (Bool-cases s.started) [
    | inl k ↦ rw k h
    | inr k ↦ rw k (ensure_group-Kept Done c.group c.event_types s.bus s.db h)
  ]

  -- A round of the consumer loses nothing, whether or not it is cut short by an exception.
  pub run_once-Kept :
      (now : ℕ) (s : Consuming S)
      → Kept Done c.group s.bus s.db
      → let s' = (run_once c now s).1 in Kept Done c.group s'.bus s'.db
  unfolding run_once claim_stale
  run_once-Kept now s h =
      let s₀ = start c s in
      let claims = claim_types c.group now c.batch c.claim_idle_ms c.event_types [] s₀.bus in
      let fresh = read_new c.group now c.batch c.event_types claims.1 in
      let claimed =
        claim_types-Batch Done c.group s₀.db now c.batch c.claim_idle_ms c.event_types [] s₀.bus
          s₀.bus.streams
          (record { kept = start-Kept s h; same = refl; valid = λ d m. absurd (Memᴰ.not-nil m) }) in
      let reads =
        read_new-Batch Done c.group s₀.db now c.batch c.event_types claims.1 claimed.kept in
      let all : AllValid fresh.1 (claims.0 ++ fresh.0) =
        append-AllValid Done c.group s₀.db fresh.1 claims.0 fresh.0
          (λ d m. moved claims.1 fresh.1 (sym reads.same) d (claimed.valid d m)) reads.valid in
      (handle_all-Holds fresh.1.streams (claims.0 ++ fresh.0) (record s₀ { bus = fresh.1 }) all
        (record { kept = reads.kept; same = refl })).kept
