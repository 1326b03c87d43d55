-- ===== src/Blockchain/Watcher.antt =====
-- services/blockchain/blockchain_service/services/transactions.py: the loops over the rows, which
-- broadcast the claimed ones and watch the broadcast ones. What the chain answers is a parameter.
use mini_crypto_wallet.Base.{
  ℕ, suc, ◌+◌, ◌-◌, Bool, true, ◌&&◌, ◌||◌, Option, none, some, List, [], ◌∷◌, String, str_eq, map,
  if◌then◌else◌, leb, ltb, ◌==◌,
}
use mini_crypto_wallet.Base.Int.{pos}
use mini_crypto_wallet.Base.Table.{length, filter}
use mini_crypto_wallet.Base.Result.{
  Tx, Result, ok, if_none, ◌>>=◌, ◌>>◌, pure, gets, or_raise, unsupported_asset, atomically, after,
}
use mini_crypto_wallet.Base.Text.{◌<>◌, show_ℤ}
use mini_crypto_wallet.Common.Events.{Payload, str, int, bool, new_event, tx_failed, tx_confirmed}
use mini_crypto_wallet.Common.Money.{format_amount}
use mini_crypto_wallet.Common.Assets.{Asset, get_asset}
use mini_crypto_wallet.Blockchain.Models.{
  ChainDb, OutgoingTransaction, pending, broadcasted, confirmed, failed, reorged, Settings,
  status_eq, find_outgoing, save_outgoing, enqueue,
}
use mini_crypto_wallet.Blockchain.Transactions.{
  producer, failure_payload, report_failure, claim_rows, lease_seconds, Sent, Broadcast, broadcast,
  failed_for_good, broadcast_one,
}

-- `run_once` of `BroadcastWorker`: how many rows were broadcast, failed and claimed.
pub record Counts : Type 0 where
  pub sent : ℕ
  pub failed : ℕ
  pub claimed : ℕ

abbrev count : Broadcast → Counts → Counts
count broadcast c = record c { sent = suc c.sent }
count failed_for_good c = record c { failed = suc c.failed }
count _ c = c

-- Each row has transactions of its own, and an exception ends the loop.
unfoldable pub broadcast_rows :
    (OutgoingTransaction → ChainDb → Result Broadcast × ChainDb)
    → List OutgoingTransaction
    → Counts
    → ChainDb
    → Result Counts × ChainDb
broadcast_rows step [] c db = (ok c, db)
broadcast_rows step (r ∷ rs) c db =
    after (step r db) λ out db'. broadcast_rows step rs (count out c) db'

unfoldable pub claim_batch : ℕ → ℕ → ChainDb → List OutgoingTransaction × ChainDb
claim_batch limit now db =
    let (batch, rows) = claim_rows limit now (lease_seconds 1) db.outgoing_transactions in
    (batch, record db { outgoing_transactions = rows })

-- `send` is what the chain answers for a row.
unfoldable pub run_broadcasts :
    (String → String)
    → Settings
    → (OutgoingTransaction → Sent)
    → ℕ
    → ℕ
    → ChainDb
    → Result Counts × ChainDb
run_broadcasts uuid5 settings send limit now db =
    let (batch, db') = claim_batch limit now db in
    broadcast_rows (λ r. atomically (broadcast_one uuid5 settings now r (send r))) batch
      (record { sent = 0; failed = 0; claimed = length batch }) db'

-- `TxReceipt` of chain/base.py
pub record TxReceipt : Type 0 where
  pub tx_hash : String
  pub block_number : ℕ
  pub block_hash : String
  pub status : ℕ

pub data Checked : Type 0 where
  checked confirmed_now failed_now reorged_now requeued skipped_row : Checked

abbrev confirmed_payload : String → TxReceipt → OutgoingTransaction → Asset → Payload
confirmed_payload hash receipt r asset =
    ("transfer_id", str r.transfer_id)
    ∷ ("tx_hash", str hash)
    ∷ ("network", str r.network)
    ∷ ("asset", str r.asset)
    ∷ ("amount", str (format_amount r.amount asset.decimals))
    ∷ ("amount_units", str (show_ℤ r.amount))
    ∷ ("from_address", str r.from_address)
    ∷ ("to_address", str r.to_address)
    ∷ ("block_number", int (pos receipt.block_number))
    ∷ ("block_hash", str receipt.block_hash)
    ∷ ("confirmations", int (pos r.confirmations))
    ∷ []

-- `str(x)` of a column that may be NULL
abbrev shown : Option String → String
shown none = "None"
shown (some s) = s

-- `payload["was_confirmed"] = True`
abbrev set_confirmed : Payload → Payload
set_confirmed = map λ kv. if str_eq kv.0 "was_confirmed" then (kv.0, bool true) else kv

abbrev vanished : String
vanished = "transaction disappeared from the chain (reorg)"

abbrev reorged_row : OutgoingTransaction → OutgoingTransaction
reorged_row r = record r { status = reorged; failure_reason = some vanished }

module _ (uuid5 : String → String) where
  -- `_mark_reorged`
  unfoldable pub mark_reorged : OutgoingTransaction → Tx ChainDb Checked
  mark_reorged r = do
    payload ← failure_payload r vanished "CHAIN_REORG"
    save_outgoing (reorged_row r)
    enqueue (
        new_event uuid5 tx_failed (set_confirmed payload) producer
          (r.transfer_id <> ":CHAIN_REORG:" <> shown r.block_hash) r.correlation_id)
    pure reorged_now

  -- `_handle_stuck`, with the time of broadcast and the attempts that were read before the call of
  -- the chain.
  unfoldable pub handle_stuck :
      Settings → ℕ → OutgoingTransaction → Option ℕ → ℕ → Tx ChainDb Checked
  handle_stuck settings now r broadcast_at attempts = if_none broadcast_at (pure checked) λ since.
      if ltb (now - since) settings.pending_timeout_seconds
      then pure checked
      else if ltb attempts settings.broadcast_max_attempts
      then save_outgoing (record r { status = pending; next_attempt_at = some now })
        >> pure requeued
      else do
        let reason : String =
            "still pending after "
            <> show_ℤ (pos (now - since))
            <> "s and "
            <> show_ℤ (pos attempts)
            <> " attempts"
        let r' : OutgoingTransaction = record r { status = failed; failure_reason = some reason }
        save_outgoing r'
        report_failure uuid5 r' reason "STUCK_PENDING" r.correlation_id
        pure failed_now

  abbrev mined_row : ℕ → TxReceipt → OutgoingTransaction → OutgoingTransaction
  mined_row head receipt r = record r {
    block_number = some receipt.block_number;
    block_hash = some receipt.block_hash;
    confirmations = head + 1 - receipt.block_number;
  }

  -- The receipt says that the transaction was reverted; a row that has failed is only refreshed.
  unfoldable pub mark_reverted : OutgoingTransaction → Tx ChainDb Checked
  mark_reverted r = if status_eq r.status failed then save_outgoing r >> pure skipped_row else do
    let reason : String = "transaction reverted on chain"
    let r' : OutgoingTransaction = record r { status = failed; failure_reason = some reason }
    save_outgoing r'
    report_failure uuid5 r' reason "REVERTED_ON_CHAIN" r.correlation_id
    pure failed_now

  unfoldable pub mark_confirmed : String → TxReceipt → OutgoingTransaction → Tx ChainDb Checked
  mark_confirmed hash receipt r = do
    let r' : OutgoingTransaction = record r { status = confirmed }
    save_outgoing r'
    asset ← or_raise (get_asset r.asset) unsupported_asset
    enqueue (
        new_event uuid5 tx_confirmed (confirmed_payload hash receipt r' asset) producer
          (r.transfer_id <> ":" <> hash <> ":confirmed") r.correlation_id)
    pure confirmed_now

  -- The branch of `_check_one` for a receipt.
  unfoldable pub check_mined :
      Settings → ℕ → String → TxReceipt → OutgoingTransaction → Tx ChainDb Checked
  check_mined settings head hash receipt row =
      let r : OutgoingTransaction = mined_row head receipt row in
      if receipt.status == 0
      then mark_reverted r
      else if status_eq r.status broadcasted && leb settings.confirmations_required r.confirmations
      then mark_confirmed hash receipt r
      else save_outgoing r >> pure checked

  -- The transaction of `_check_one`; `before` is the row as it was read before the call of the chain.
  unfoldable pub check_row :
      Settings → ℕ → ℕ → OutgoingTransaction → String → Option TxReceipt → Tx ChainDb Checked
  check_row settings now head before hash receipt = do
    found ← gets (find_outgoing before.id)
    if_none found (pure skipped_row) λ r.
        if_none receipt
          (if status_eq before.status confirmed
            then mark_reorged r
            else handle_stuck settings now r before.broadcast_at before.attempts)
          λ x. check_mined settings head hash x r

  -- `_check_one` on a row that was read; an empty or missing hash is skipped.
  unfoldable pub check_one :
      Settings → ℕ → ℕ → (String → Option TxReceipt) → OutgoingTransaction → Tx ChainDb Checked
  check_one settings now head receipts before = if_none before.tx_hash (pure skipped_row) λ hash.
      if str_eq hash ""
      then pure skipped_row
      else check_row settings now head before hash (receipts hash)

-- The rows that `run_once` of `OutgoingTransactionWatcher` looks at.
abbrev pub is_watched : Settings → ℕ → OutgoingTransaction → Bool
is_watched settings head r =
    (status_eq r.status broadcasted || status_eq r.status confirmed)
    && if_none r.block_number true (λ b. ltb head (b + settings.finality_depth))

abbrev pub candidates : Settings → ℕ → ChainDb → List OutgoingTransaction
candidates settings head db = filter (is_watched settings head) db.outgoing_transactions
