-- ===== src/Common/Outbox.antt =====
-- libs/common/src/mcw_common/outbox.py: the table of events to publish.
pub mod Relay
use mini_crypto_wallet.Base.{
  ℕ, suc, Bool, Option, none, List, [], ◌∷◌, ◌++◌, String, str_eq, if◌then◌else◌,
}
use mini_crypto_wallet.Base.Table.{any, length}
use mini_crypto_wallet.Common.Events.{EventEnvelope}

pub record OutboxRow : Type 0 where
  pub id : ℕ
  pub event_id : String
  pub event_type : String
  pub envelope : EventEnvelope
  pub correlation_id : String
  pub published_at : Option ℕ
  pub attempts : ℕ
  pub next_attempt_at : Option ℕ

abbrev pub has_event : String → List OutboxRow → Bool
has_event event_id rows = any (λ r. str_eq r.event_id event_id) rows

-- ON CONFLICT (event_id) DO NOTHING. Rows are never deleted, and the ids count them.
unfoldable pub enqueue_event : EventEnvelope → List OutboxRow → List OutboxRow
enqueue_event envelope rows =
    if has_event envelope.event_id rows
    then rows
    else rows
      ++ record {
        id = suc (length rows);
        event_id = envelope.event_id;
        event_type = envelope.event_type;
        envelope = envelope;
        correlation_id = envelope.correlation_id;
        published_at = none;
        attempts = 0;
        next_attempt_at = none;
      }
        ∷ []
