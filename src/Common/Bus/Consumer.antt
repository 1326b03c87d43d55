-- ===== src/Common/Bus/Consumer.antt =====
-- libs/common/src/mcw_common/bus.py: `ConsumerRuntime`, the loop of one consumer over the bus. What
-- it calls to handle an event works on a database `S`; the text of an exception is a parameter.
use mini_crypto_wallet.Base.{
  ℕ, suc, Bool, true, Option, some, List, [], ◌∷◌, ◌++◌, String, if◌then◌else◌, ltb, leb, ◌≡◌, inl,
  inr, Bool-cases, Option-cases,
}
use mini_crypto_wallet.Base.Result.{Result, Error, ok, err, after, if_none}
use mini_crypto_wallet.Common.Events.{EventEnvelope}
use mini_crypto_wallet.Common.Bus.{
  InMemoryBus, DeliveredEvent, DeadLetter, ensure_group, read_new, claim_stale, ack, dead_letter,
}

-- The arguments of `__init__`; `block_ms` and `consumer_name` have no effect in memory.
pub record ConsumerRuntime (S O : Type 0) : Type 0 where
  pub group : String
  pub event_types : List String
  pub dispatch : EventEnvelope → S → Result O × S
  pub on_dead_letter : Option (DeadLetter → S → Result (Unit {0}) × S)
  pub describe : Error → String
  pub max_delivery : ℕ
  pub claim_idle_ms : ℕ
  pub batch : ℕ

-- What a consumer changes.
pub record Consuming (S : Type 0) : Type 0 where
  pub started : Bool
  pub bus : InMemoryBus
  pub db : S

module _ {S O : Type 0} (c : ConsumerRuntime S O) where
  unfoldable pub start : Consuming S → Consuming S
  start s =
      if s.started
      then s
      else record { started = true; bus = ensure_group c.event_types c.group s.bus; db = s.db }

  abbrev pub acked : DeliveredEvent → Consuming S → Consuming S
  acked d s = record s { bus = ack d.stream c.group d.message_id s.bus }

  -- `if self._on_dead_letter is not None: ...`, in a database of its own.
  unfoldable pub tell : DeadLetter → Consuming S → Result (Unit {0}) × Consuming S
  tell item s =
      if_none c.on_dead_letter (ok tt, s)
        (λ f. let (r, db') = f item s.db in (r, record s { db = db' }))

  -- `_reject`
  unfoldable pub reject : DeliveredEvent → String → Consuming S → Result (Unit {0}) × Consuming S
  reject d error s =
      let item : DeadLetter = record {
        envelope = d.envelope;
        delivery_count = d.delivery_count;
        error = error;
      } in
      after (tell item (record s { bus = dead_letter item s.bus })) (λ _ s'. (ok tt, acked d s'))

  -- The `try` of `_handle`, from the result of the dispatch on.
  unfoldable pub finish :
      DeliveredEvent → Result O × S → Consuming S → Result (Unit {0}) × Consuming S
  finish d (ok outcome, db') s = (ok tt, acked d (record s { db = db' }))
  finish d (err e, db') s =
      if leb c.max_delivery d.delivery_count
      then reject d (c.describe e) (record s { db = db' })
      else (ok tt, record s { db = db' })

  -- `_handle`
  unfoldable pub handle : DeliveredEvent → Consuming S → Result (Unit {0}) × Consuming S
  handle d s =
      if ltb c.max_delivery d.delivery_count
      then reject d "max delivery count exceeded" s
      else finish d (c.dispatch d.envelope s.db) s

  -- The loop of `run_once`; what `_handle` raises ends it.
  unfoldable pub handle_all : List DeliveredEvent → Consuming S → Result ℕ × Consuming S
  handle_all [] s = (ok 0, s)
  handle_all (d ∷ ds) s =
      after (handle d s) (λ _ s'. after (handle_all ds s') (λ n s''. (ok (suc n), s'')))

  -- `run_once` at a time `now`
  unfoldable pub run_once : ℕ → Consuming S → Result ℕ × Consuming S
  run_once now s =
      let s₀ = start s in
      let (claimed, b₁) = claim_stale c.group now c.batch c.claim_idle_ms c.event_types s₀.bus in
      let (fresh, b₂) = read_new c.group now c.batch c.event_types b₁ in
      handle_all (claimed.0 ++ fresh) (record s₀ { bus = b₂ })

  module _ (P : S → Type 0) (dispatches : (e : EventEnvelope) (s : S) → P s → P (c.dispatch e s).1)
      (tells : (f : DeadLetter → S → Result (Unit {0}) × S) (item : DeadLetter) (s : S)
        → c.on_dead_letter ≡ some f
        → P s
        → P (f item s).1) where
    tell-keeps : (item : DeadLetter) (s : Consuming S) → P s.db → P (tell item s).1.db
    unfolding tell
    tell-keeps item s h = elim (Option-cases c.on_dead_letter) [
      | inl k ↦ rw k h
      | inr (f, k) ↦ rw k (tells f item s.db k h)
    ]

    reject-keeps :
        (d : DeliveredEvent) (error : String) (s : Consuming S) → P s.db → P (reject d error s).1.db
    unfolding reject
    reject-keeps d error s h =
        let item : DeadLetter = record {
          envelope = d.envelope;
          delivery_count = d.delivery_count;
          error = error;
        } in
        let s₁ = record s { bus = dead_letter item s.bus } in
        ended (tell item s₁) (tell-keeps item s₁ h)
      where
        ended :
            (r : Result (Unit {0}) × Consuming S)
            → P r.1.db
            → P (after r (λ _ s'. (ok tt, acked d s'))).1.db
        ended (ok u, s') k = k
        ended (err x, s') k = k

    finish-keeps :
        (d : DeliveredEvent) (r : Result O × S) (s : Consuming S) → P r.1 → P (finish d r s).1.db
    unfolding finish
    finish-keeps d (ok o, db') s h = h
    finish-keeps d (err x, db') s h = elim (Bool-cases (leb c.max_delivery d.delivery_count)) [
      | inl k ↦ rw k (reject-keeps d (c.describe x) (record s { db = db' }) h)
      | inr k ↦ rw k h
    ]

    handle-keeps : (d : DeliveredEvent) (s : Consuming S) → P s.db → P (handle d s).1.db
    unfolding handle
    handle-keeps d s h = elim (Bool-cases (ltb c.max_delivery d.delivery_count)) [
      | inl k ↦ rw k (reject-keeps d "max delivery count exceeded" s h)
      | inr k ↦ rw k (finish-keeps d (c.dispatch d.envelope s.db) s (dispatches d.envelope s.db h))
    ]

    handle_all-keeps :
        (ds : List DeliveredEvent) (s : Consuming S) → P s.db → P (handle_all ds s).1.db
    unfolding handle_all
    handle_all-keeps [] s h = h
    handle_all-keeps (d ∷ ds) s h =
        ended (handle d s) (handle-keeps d s h) (λ s' k. handle_all-keeps ds s' k)
      where
        counted :
            (r : Result ℕ × Consuming S) → P r.1.db → P (after r (λ n s''. (ok (suc n), s''))).1.db
        counted (ok n, s'') k = k
        counted (err x, s'') k = k

        ended :
            (r : Result (Unit {0}) × Consuming S)
            → P r.1.db
            → ((s' : Consuming S) → P s'.db → P (handle_all ds s').1.db)
            → P (after r (λ _ s'. after (handle_all ds s') (λ n s''. (ok (suc n), s'')))).1.db
        ended (ok u, s') k more = counted (handle_all ds s') (more s' k)
        ended (err x, s') k more = k

    -- What every call of a handler keeps, a round of the consumer keeps.
    pub run_once-keeps : (now : ℕ) (s : Consuming S) → P s.db → P (run_once now s).1.db
    unfolding run_once start
    run_once-keeps now s h = elim (Bool-cases s.started) [
      | inl k ↦ rw k (handle_all-keeps _ _ h)
      | inr k ↦ rw k (handle_all-keeps _ _ h)
    ]
