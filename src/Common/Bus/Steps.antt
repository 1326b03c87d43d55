-- ===== src/Common/Bus/Steps.antt =====
-- Runs of a consumer: publications of events and rounds of the consumer, in any order. The clock of a
-- round is also what its handlers read.
use mathlib.Core.List.{Memᴰ}
use mathlib.Core.List.Memᴰ
use mini_crypto_wallet.Base.{ℕ, ◌≡◌, false, Option, some, List, [], ◌∷◌, String, arith, map}
use mini_crypto_wallet.Base.Table.{take}
use mini_crypto_wallet.Base.Result.{Result}
use mini_crypto_wallet.Common.Events.{EventEnvelope}
use mini_crypto_wallet.Common.Bus.{DeadLetter, Message, empty_bus, publish, messages, cursor}
use mini_crypto_wallet.Common.Bus.Consumer.{
  ConsumerRuntime, Consuming, start, run_once, run_once-keeps,
}
use mini_crypto_wallet.Common.Bus.Sound.{Safe, Kept}
use mini_crypto_wallet.Common.Bus.Publishing.{publish-Kept}
use mini_crypto_wallet.Common.Bus.Handling.{Handles, run_once-Kept}

-- What happens to the bus: somebody publishes an event, or the consumer runs a round.
pub data Step : Type 0 where
  published : EventEnvelope → Step
  round : ℕ → Step

-- The consumer and the bus when they are new.
abbrev pub new_consumer : {S : Type 0} → S → Consuming S
new_consumer db = record { started = false; bus = empty_bus; db = db }

pub on_dead_letter-is :
    {S : Type 0} {f g : DeadLetter → S → Result (Unit {0}) × S}
    → ◌≡◌ {A = Option (DeadLetter → S → Result (Unit {0}) × S)} (some f) (some g)
    → f ≡ g
on_dead_letter-is h = cc

module _ {S O : Type 0} (c : ConsumerRuntime S O)
    (dispatch : ℕ → EventEnvelope → S → Result O × S) where
  -- The consumer at a time.
  abbrev pub consumer_at : ℕ → ConsumerRuntime S O
  consumer_at now = record c { dispatch = dispatch now }

  abbrev pub step : Step → Consuming S → Consuming S
  step (published e) s = record s { bus = publish e s.bus }
  step (round now) s = (run_once (consumer_at now) now s).1

  abbrev pub steps : List Step → Consuming S → Consuming S
  steps [] s = s
  steps (x ∷ xs) s = steps xs (step x s)

  -- `run_forever` until it is stopped, with the times of its rounds; what a round raises is logged.
  unfoldable pub run_forever : List ℕ → Consuming S → Consuming S
  run_forever times s = steps (map round times) (start c s)

  module _ (Done : S → EventEnvelope → Type 0)
      (handles : (now : ℕ) → Handles (consumer_at now) Done) where
    steps-Kept :
        (xs : List Step) (s : Consuming S)
        → Kept Done c.group s.bus s.db
        → Kept Done c.group (steps xs s).bus (steps xs s).db
    steps-Kept [] s h = h
    steps-Kept (published e ∷ xs) s h =
        steps-Kept xs (record s { bus = publish e s.bus })
          (publish-Kept Done c.group e s.bus s.db h)
    steps-Kept (round now ∷ xs) s h =
        steps-Kept xs (run_once (consumer_at now) now s).1
          (run_once-Kept (consumer_at now) Done (handles now) now s h)

    new-Kept : (db : S) → Kept Done c.group empty_bus db
    new-Kept db = record {
      fresh = λ stream id e m. absurd (Memᴰ.not-nil m);
      unique = λ stream id e e' m m'. absurd (Memᴰ.not-nil m);
      sound = λ stream id p m. absurd (Memᴰ.not-nil m);
      bounded = λ stream. omega arith;
      safe = λ stream id e m. absurd (Memᴰ.not-nil m);
    }

    -- A message that the consumer was given is pending, done or a dead letter.
    pub steps-loses_none :
        (xs : List Step) (db : S) (stream : String) (id : ℕ) (e : EventEnvelope)
        → let s = steps xs (new_consumer db) in
          Memᴰ {A = Message} (id, e) (take (cursor (stream, c.group) s.bus) (messages stream s.bus))
          → Safe Done c.group stream id e s.bus s.db
    steps-loses_none xs db stream id e m =
        (steps-Kept xs (new_consumer db) (new-Kept db)).safe stream id e m

  -- What every call of a handler keeps, a run keeps.
  pub steps-keeps :
      (P : S → Type 0)
      → ((now : ℕ) (e : EventEnvelope) (s : S) → P s → P (dispatch now e s).1)
      → ((f : DeadLetter → S → Result (Unit {0}) × S) (item : DeadLetter) (s : S)
          → c.on_dead_letter ≡ some f
          → P s
          → P (f item s).1)
      → (xs : List Step) (s : Consuming S) → P s.db
      → P (steps xs s).db
  steps-keeps P d t [] s h = h
  steps-keeps P d t (published e ∷ xs) s h =
      steps-keeps P d t xs (record s { bus = publish e s.bus }) h
  steps-keeps P d t (round now ∷ xs) s h =
      steps-keeps P d t xs (run_once (consumer_at now) now s).1
        (run_once-keeps (consumer_at now) P (d now) t now s h)
