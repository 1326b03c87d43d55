-- ===== src/Common/Outbox/Relay.antt =====
-- libs/common/src/mcw_common/outbox.py: `run_once` of `OutboxRelay`, one transaction that offers a
-- batch of rows to the bus. Whether the bus takes an event is a parameter. The text of the last error
-- is left out.
use mini_crypto_wallet.Base.{
  ℕ, suc, ◌+◌, ◌-◌, ◌^◌, ◌≡◌, min, Bool, true, false, ◌&&◌, some, List, [], ◌∷◌, if◌then◌else◌, leb,
  ltb,
}
use mini_crypto_wallet.Base.Table.{length}
use mini_crypto_wallet.Base.Result.{if_none}
use mini_crypto_wallet.Common.Events.{EventEnvelope}
use mini_crypto_wallet.Common.Outbox.{OutboxRow}

abbrev pub is_unpublished : OutboxRow → Bool
is_unpublished r = if_none r.published_at true (λ t. false)

-- The condition of `_CLAIM_SQL`.
abbrev pub is_due : ℕ → OutboxRow → Bool
is_due now r = is_unpublished r && if_none r.next_attempt_at true (λ t. leb t now)

abbrev pub mark_published : ℕ → OutboxRow → OutboxRow
mark_published now r = record r { published_at = some now }

-- `min(self._max_backoff, 2 ** min(attempts, 6))`
unfoldable pub backoff : ℕ → ℕ → ℕ
backoff max_backoff attempts = min max_backoff (2 ^ min attempts 6)

abbrev pub mark_failed : ℕ → ℕ → OutboxRow → OutboxRow
mark_failed max_backoff now r = record r {
  attempts = suc r.attempts;
  next_attempt_at = some (now + backoff max_backoff r.attempts);
}

module _ (publish : EventEnvelope → Bool) (max_backoff now : ℕ) where
  -- The events that the bus took, in order, and the table afterwards; `limit` rows are claimed, in
  -- the order of their ids.
  unfoldable pub relay_rows : ℕ → List OutboxRow → List EventEnvelope × List OutboxRow
  relay_rows limit [] = ([], [])
  relay_rows limit (r ∷ rs) =
      let claimed = ltb 0 limit && is_due now r in
      let rest = relay_rows (if claimed then limit - 1 else limit) rs in
      if claimed
      then (if publish r.envelope
          then (r.envelope ∷ rest.0, mark_published now r ∷ rest.1)
          else (rest.0, mark_failed max_backoff now r ∷ rest.1))
      else (rest.0, r ∷ rest.1)

  -- `run_once`: the number of events published.
  unfoldable pub relay_once : ℕ → List OutboxRow → ℕ × List OutboxRow
  relay_once batch_size rows =
      let (taken, rows') = relay_rows batch_size rows in (length taken, rows')

  -- What a relay with a batch of `limit` does to the table while it hands events to the bus: when the
  -- batch is used up, or at the end, it stops; it passes over a row that is not due; and every due row
  -- counts for the batch, and is handed over and marked, or delayed where the bus refused it.
  pub data Relays : ℕ → List OutboxRow → List EventEnvelope → List OutboxRow → Type 0 where
    used_up : (rows : List OutboxRow) → Relays 0 rows [] rows
    end : (limit : ℕ) → Relays limit [] [] []
    pass :
        (limit : ℕ) (r : OutboxRow) (rs rs' : List OutboxRow) (es : List EventEnvelope)
        → is_due now r ≡ false
        → Relays limit rs es rs'
        → Relays limit (r ∷ rs) es (r ∷ rs')
    hand_over :
        (limit : ℕ) (r : OutboxRow) (rs rs' : List OutboxRow) (es : List EventEnvelope)
        → is_due now r ≡ true
        → publish r.envelope ≡ true
        → Relays limit rs es rs'
        → Relays (suc limit) (r ∷ rs) (r.envelope ∷ es) (mark_published now r ∷ rs')
    delay :
        (limit : ℕ) (r : OutboxRow) (rs rs' : List OutboxRow) (es : List EventEnvelope)
        → is_due now r ≡ true
        → publish r.envelope ≡ false
        → Relays limit rs es rs'
        → Relays (suc limit) (r ∷ rs) es (mark_failed max_backoff now r ∷ rs')
