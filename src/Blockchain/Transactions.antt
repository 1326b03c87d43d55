-- ===== src/Blockchain/Transactions.antt =====
-- services/blockchain/blockchain_service/services/transactions.py: transfers are accepted and
-- broadcast. `uuid5` is the name hash of the common library; what the chain answers to
-- a broadcast is a parameter.
pub mod Claims
use mini_crypto_wallet.Base.{
  ℕ, suc, ◌+◌, ◌-◌, ◌^◌, min, Bool, true, false, not, ◌&&◌, ◌||◌, Option, none, some, List, [], ◌∷◌,
  ◌++◌, String, str_eq, if◌then◌else◌, leb, ltb,
}
use mini_crypto_wallet.Base.Int.{ℤ, pos, leb_ℤ}
use mini_crypto_wallet.Base.Table.{any, length}
use mini_crypto_wallet.Base.Result.{
  Tx, Result, Error, ok, err, if_none, ◌>>=◌, ◌>>◌, pure, gets, modify, or_raise, raise_if,
  value_error, unsupported_asset, integrity_error, commit, atomically,
}
use mini_crypto_wallet.Base.Text.{◌<>◌, show_ℤ, parse_uuid, take_chars}
use mini_crypto_wallet.Common.Events.{
  Value, Payload, str, int, bool, null, get, item, show, int_of, new_event, tx_failed,
  tx_broadcasted,
}
use mini_crypto_wallet.Common.Money.{format_amount}
use mini_crypto_wallet.Common.Assets.{Asset, get_asset}
use mini_crypto_wallet.Blockchain.Models.{
  ChainDb, OutgoingTransaction, TxStatus, created, pending, broadcasted, confirmed, failed,
  Settings, status_eq, find_outgoing, save_outgoing, enqueue,
}

abbrev pub producer : String
producer = "blockchain-service"

abbrev pub or_null : Option String → Value
or_null none = null
or_null (some s) = str s

unfoldable pub failure_payload : OutgoingTransaction → String → String → Tx ChainDb Payload
failure_payload r reason code = do
  asset ← or_raise (get_asset r.asset) unsupported_asset
  pure (
      ("transfer_id", str r.transfer_id)
      ∷ ("tx_hash", or_null r.tx_hash)
      ∷ ("network", str r.network)
      ∷ ("asset", str r.asset)
      ∷ ("amount", str (format_amount r.amount asset.decimals))
      ∷ ("amount_units", str (show_ℤ r.amount))
      ∷ ("reason", str reason)
      ∷ ("code", str code)
      ∷ ("attempts", int (pos r.attempts))
      ∷ ("was_confirmed", bool (status_eq r.status confirmed))
      ∷ [])

-- The event that a failure of a row enqueues, under the dedupe key of its code.
unfoldable pub report_failure :
    (String → String) → OutgoingTransaction → String → String → String → Tx ChainDb (Unit {0})
report_failure uuid5 r reason code cid = do
  payload ← failure_payload r reason code
  enqueue (new_event uuid5 tx_failed payload producer (r.transfer_id <> ":" <> code) cid)

abbrev pub new_outgoing :
    String → String → String → String → String → String → ℤ → String → OutgoingTransaction
new_outgoing id transfer_id network asset from_address to_address amount cid = record {
  id = id;
  transfer_id = transfer_id;
  network = network;
  asset = asset;
  from_address = from_address;
  to_address = to_address;
  amount = amount;
  tx_hash = none;
  status = created;
  block_number = none;
  block_hash = none;
  confirmations = 0;
  failure_reason = none;
  attempts = 0;
  next_attempt_at = none;
  broadcast_at = none;
  correlation_id = cid;
}

pub data Accepted : Type 0 where
  accepted duplicate : Accepted

-- INSERT ... ON CONFLICT (transfer_id) DO NOTHING, after ck_outgoing_amount_positive; says whether
-- the row was inserted.
unfoldable pub insert_outgoing : OutgoingTransaction → Tx ChainDb Bool
insert_outgoing r = do
  raise_if (not (leb_ℤ (pos 1) r.amount)) integrity_error
  known ← gets (λ db. any (λ x. str_eq x.transfer_id r.transfer_id) db.outgoing_transactions)
  modify (λ db.
      if known
      then db
      else record db { outgoing_transactions = db.outgoing_transactions ++ r ∷ [] })
  pure (not known)

-- The branch of `accept_transfer_request` for a sender whose key the service does not hold.
unfoldable pub refuse_unknown : (String → String) → OutgoingTransaction → Tx ChainDb Accepted
refuse_unknown uuid5 r = do
  let reason : String = "unknown sending address"
  let r' : OutgoingTransaction = record r { status = failed; failure_reason = some reason }
  save_outgoing r'
  report_failure uuid5 r' reason "UNKNOWN_SENDING_ADDRESS" r.correlation_id
  pure accepted

-- `payload.get(key, default)`, as text
abbrev pub get_text : String → String → Payload → String
get_text key default payload = if_none (get key payload) default show

-- `id` is the fresh primary key of the row.
unfoldable pub accept_transfer_request :
    (String → String) → String → Payload → String → Tx ChainDb Accepted
accept_transfer_request uuid5 id payload cid = do
  raw ← item "transfer_id" payload
  transfer_id ← or_raise (parse_uuid (show raw)) value_error
  from_address ← item "from_address" payload
  to_address ← item "to_address" payload
  units ← item "amount_units" payload
  amount ← or_raise (int_of units) value_error
  known ← gets (λ db. any (λ a. str_eq a.address (show from_address)) db.addresses)
  let r : OutgoingTransaction =
      new_outgoing id transfer_id (get_text "network" "BSC" payload)
        (get_text "asset" "USDT" payload) (show from_address) (show to_address) amount cid
  inserted ← insert_outgoing r
  if not inserted then pure duplicate else if known then pure accepted else refuse_unknown uuid5 r

-- `_lease_seconds`
unfoldable pub lease_seconds : ℕ → ℕ
lease_seconds attempts = min 60 (2 ^ min attempts 6)

abbrev is_claimable : TxStatus → Bool
is_claimable created = true
is_claimable pending = true
is_claimable _ = false

-- The condition of `_CLAIM_SQL`.
abbrev pub is_due : ℕ → OutgoingTransaction → Bool
is_due now r = is_claimable r.status && if_none r.next_attempt_at true (λ t. leb t now)

abbrev pub claimed : ℕ → ℕ → OutgoingTransaction → OutgoingTransaction
claimed now lease r = record r {
  attempts = suc r.attempts;
  status = pending;
  next_attempt_at = some (now + lease);
}

-- `_CLAIM_SQL`: the first `limit` due rows, in the order of their creation, and the table after it.
unfoldable pub claim_rows :
    ℕ → ℕ → ℕ → List OutgoingTransaction → List OutgoingTransaction × List OutgoingTransaction
claim_rows limit now lease [] = ([], [])
claim_rows limit now lease (r ∷ rs) =
    let take = ltb 0 limit && is_due now r in
    let rest = claim_rows (if take then limit - 1 else limit) now lease rs in
    if take
    then (claimed now lease r ∷ rest.0, claimed now lease r ∷ rest.1)
    else (rest.0, r ∷ rest.1)

-- What `adapter.send_transfer` ends with: a hash, or an exception with its text.
pub data Sent : Type 0 where
  sent : String → Sent
  rejected unavailable other : String → Sent

pub data Broadcast : Type 0 where
  broadcast retry failed_for_good skipped : Broadcast

-- `_record_failure`
unfoldable pub record_failure :
    (String → String) → OutgoingTransaction → String → String → Tx ChainDb Broadcast
record_failure uuid5 row reason code = do
  found ← gets (find_outgoing row.id)
  if_none found (pure skipped) λ r. if status_eq r.status confirmed then pure skipped else do
    let r' : OutgoingTransaction = record r {
      status = failed;
      failure_reason = some (take_chars 500 reason);
      next_attempt_at = none;
    }
    save_outgoing r'
    report_failure uuid5 r' (take_chars 500 reason) code r.correlation_id
    pure failed_for_good

abbrev broadcasted_row : ℕ → String → OutgoingTransaction → OutgoingTransaction
broadcasted_row now hash r = record r {
  tx_hash = some hash;
  status = broadcasted;
  broadcast_at = some now;
  failure_reason = none;
  next_attempt_at = none;
}

abbrev broadcast_payload : String → OutgoingTransaction → Asset → Payload
broadcast_payload hash r asset =
    ("transfer_id", str r.transfer_id)
    ∷ ("tx_hash", str hash)
    ∷ ("network", str r.network)
    ∷ ("asset", str r.asset)
    ∷ ("amount", str (format_amount r.amount asset.decimals))
    ∷ ("amount_units", str (show_ℤ r.amount))
    ∷ ("from_address", str r.from_address)
    ∷ ("to_address", str r.to_address)
    ∷ ("attempts", int (pos r.attempts))
    ∷ []

-- The transaction of `_broadcast_one` after the chain took the transfer.
unfoldable pub record_broadcast :
    (String → String) → ℕ → OutgoingTransaction → String → Tx ChainDb Broadcast
record_broadcast uuid5 now row hash = do
  found ← gets (find_outgoing row.id)
  if_none found (pure skipped) λ r.
      if status_eq r.status confirmed || status_eq r.status failed then pure skipped else do
        let r' : OutgoingTransaction = broadcasted_row now hash r
        save_outgoing r'
        asset ← or_raise (get_asset r.asset) unsupported_asset
        enqueue (
            new_event uuid5 tx_broadcasted (broadcast_payload hash r' asset) producer
              (r.transfer_id <> ":" <> hash <> ":broadcast") row.correlation_id)
        pure broadcast

-- UPDATE ... WHERE id, which puts a row back for a later attempt.
unfoldable pub requeue : Settings → ℕ → OutgoingTransaction → String → Tx ChainDb Broadcast
requeue settings now row reason = do
  found ← gets (find_outgoing row.id)
  if_none found (pure retry) λ r. do
    save_outgoing (record r {
      status = pending;
      failure_reason = some (take_chars 500 reason);
      next_attempt_at = some (now + lease_seconds row.attempts);
    })
    pure retry

abbrev retry_or_fail :
    (String → String) → Settings → ℕ → OutgoingTransaction → String → String → Tx ChainDb Broadcast
retry_or_fail uuid5 settings now row reason code =
    if leb settings.broadcast_max_attempts row.attempts
    then record_failure uuid5 row reason code
    else requeue settings now row reason

-- `_broadcast_one`, by what the chain answered.
unfoldable pub broadcast_one :
    (String → String) → Settings → ℕ → OutgoingTransaction → Sent → Tx ChainDb Broadcast
broadcast_one uuid5 settings now row (sent hash) = record_broadcast uuid5 now row hash
broadcast_one uuid5 settings now row (rejected reason) =
    record_failure uuid5 row reason "REJECTED_BY_NODE"
broadcast_one uuid5 settings now row (unavailable reason) =
    retry_or_fail uuid5 settings now row reason "RPC_UNAVAILABLE"
broadcast_one uuid5 settings now row (other reason) =
    retry_or_fail uuid5 settings now row reason "BROADCAST_FAILED"
