-- ===== src/Wallet/Transfers.antt =====
-- services/wallet/wallet_service/services/transfers.py: the life of a transfer. The texts of error
-- messages are left out.
pub mod Save
pub mod Settle
pub mod Fail
pub mod Load
pub mod Handlers
pub mod Insert
pub mod Create
use mini_crypto_wallet.Base.{
  ℕ, ◌==◌, Bool, true, false, not, ◌&&◌, ◌||◌, Option, none, some, List, [], ◌∷◌, ◌++◌, String,
  str_eq, if◌then◌else◌,
}
use mini_crypto_wallet.Base.Int.{ℤ, pos, neg, ◌-ℤ◌}
use mini_crypto_wallet.Base.Table.{any, is_some, or_else}
use mini_crypto_wallet.Base.Result.{
  Tx, Result, ok, err, if_none, ◌>>=◌, ◌>>◌, pure, gets, modify, or_raise, raise, raise_if,
  validation_error, conflict, not_found, wallet_inactive, insufficient_funds, unsupported_asset,
  value_error,
}
use mini_crypto_wallet.Base.Text.{show_ℤ, parse_uuid, take_chars}
use mini_crypto_wallet.Common.Events.{
  Value, Payload, str, int, null, get, item, show, truthy, new_event, transfer_requested,
}
use mini_crypto_wallet.Common.Money.{format_amount}
use mini_crypto_wallet.Common.Assets.{Asset, get_asset}
use mini_crypto_wallet.Wallet.Models.{
  WalletDb, User, Wallet, Transfer, EntryType, TransferStatus, created, broadcasted, confirmed,
  failed, processing, is_terminal, transfer_debit, transfer_credit, reversal, is_transfer,
  transfer_check, find_transfer, save_transfer, enqueue,
}
use mini_crypto_wallet.Wallet.Ledger.{Posting, lock_balance, place_hold, post_entries, release_hold}
use mini_crypto_wallet.Wallet.Users.{get_user, get_wallet}

pub data Outcome : Type 0 where
  processed duplicate ignored : Outcome

abbrev pub reference_type : String
reference_type = "TRANSFER"

-- The unique keys id and idempotency_key.
abbrev pub clashes : Transfer → Transfer → Bool
clashes t r = str_eq r.id t.id || str_eq r.idempotency_key t.idempotency_key

-- `session.add(transfer)` and the flush, which raises on the unique keys and on the checks.
unfoldable pub insert_transfer : Transfer → Tx WalletDb (Unit {0})
insert_transfer t = do
  clash ← gets (λ db. any (clashes t) db.transfers)
  raise_if (clash || not (transfer_check t)) conflict
  modify (λ db. record db { transfers = db.transfers ++ t ∷ [] })

abbrev pub request_payload : Transfer → Asset → Payload
request_payload t asset =
    ("transfer_id", str t.id)
    ∷ ("from_user_id", int (pos t.from_user_id))
    ∷ ("to_user_id", int (pos t.to_user_id))
    ∷ ("asset", str asset.symbol)
    ∷ ("network", str t.network)
    ∷ ("from_address", str t.from_address)
    ∷ ("to_address", str t.to_address)
    ∷ ("amount", str (format_amount t.amount asset.decimals))
    ∷ ("amount_units", str (show_ℤ t.amount))
    ∷ []

-- The arguments of `create_transfer`, with the fresh `uuid.uuid4()` and the correlation id.
pub record TransferRequest : Type 0 where
  pub id : String
  pub from_user_id : ℕ
  pub to_user_id : ℕ
  pub asset : String
  pub amount_units : ℤ
  pub idempotency_key : String
  pub network : String
  pub correlation_id : String

abbrev pub is_active : String → Bool
is_active status = str_eq status "ACTIVE"

-- Everything up to the lock of the sender's balance: the asset and the two wallets.
unfoldable pub check_parties : TransferRequest → Tx WalletDb (Asset × Wallet × Wallet)
check_parties r = do
  raise_if (r.from_user_id == r.to_user_id) validation_error
  asset ← or_raise (get_asset r.asset) unsupported_asset
  sender ← get_user r.from_user_id
  recipient ← get_user r.to_user_id
  raise_if (not (is_active sender.status)) conflict
  raise_if (not (is_active recipient.status)) conflict
  from_wallet ← gets (get_wallet r.from_user_id r.network asset.symbol)
  to_wallet ← gets (get_wallet r.to_user_id r.network asset.symbol)
  from_wallet' ← or_raise from_wallet not_found
  to_wallet' ← or_raise to_wallet not_found
  raise_if (not (is_active from_wallet'.status)) wallet_inactive
  raise_if (not (is_active to_wallet'.status)) wallet_inactive
  pure (asset, from_wallet', to_wallet')

abbrev pub new_transfer : TransferRequest → Asset → Wallet → Wallet → Transfer
new_transfer r asset from_wallet to_wallet = record {
  id = r.id;
  idempotency_key = r.idempotency_key;
  from_user_id = r.from_user_id;
  to_user_id = r.to_user_id;
  asset = asset.symbol;
  network = r.network;
  amount = r.amount_units;
  from_address = from_wallet.address;
  to_address = to_wallet.address;
  status = created;
  tx_hash = none;
  failure_code = none;
  failure_reason = none;
  correlation_id = r.correlation_id;
  settled_at = none;
}

-- From the lock to the flush: the funds are reserved, or the code raises.
unfoldable pub hold_and_insert : Transfer → Tx WalletDb (Unit {0})
hold_and_insert t = do
  balance ← lock_balance t.from_user_id t.asset
  held ← place_hold t.from_user_id t.asset t.amount
  raise_if (not held) (insufficient_funds (balance.posted -ℤ balance.reserved) t.amount)
  insert_transfer t

unfoldable pub create_transfer : (String → String) → TransferRequest → Tx WalletDb Transfer
create_transfer uuid5 r = do
  parties ← check_parties r
  let (asset, from_wallet, to_wallet) = parties
  let t : Transfer = new_transfer r asset from_wallet to_wallet
  hold_and_insert t
  modify (
      enqueue (
        new_event uuid5 transfer_requested (request_payload t asset) "wallet-service" t.id
          r.correlation_id))
  pure t

-- What a text column takes from a payload.
abbrev text_of : Option Value → Option String
text_of none = none
text_of (some null) = none
text_of (some v) = some (show v)

-- `payload.get(key) or old`
abbrev or_old : Option Value → Option String → Option String
or_old v old = if truthy v then text_of v else old

-- `_load_for_update`: a malformed id raises ValueError.
unfoldable pub load_for_update : Payload → Tx WalletDb (Option Transfer)
load_for_update payload = do
  raw ← item "transfer_id" payload
  id ← or_raise (parse_uuid (show raw)) value_error
  gets (find_transfer id)

abbrev pub broadcasted_transfer : Payload → Transfer → Transfer
broadcasted_transfer payload t = record t {
  status = broadcasted;
  tx_hash = text_of (get "tx_hash" payload);
}

unfoldable pub mark_broadcasted : Payload → Tx WalletDb Outcome
mark_broadcasted payload = do
  found ← load_for_update payload
  if_none found (pure ignored) λ t.
      if is_terminal t.status
      then pure duplicate
      else modify (save_transfer (broadcasted_transfer payload t)) >> pure processed

abbrev pub transfer_posting : ℕ → ℤ → EntryType → Transfer → Posting
transfer_posting user amount entry_type t = record {
  user_id = user;
  amount = amount;
  entry_type = entry_type;
  reference_type = reference_type;
  reference_id = t.id;
}

abbrev pub debit : Transfer → Posting
debit t = transfer_posting t.from_user_id (neg t.amount) transfer_debit t

abbrev pub credit : Transfer → Posting
credit t = transfer_posting t.to_user_id t.amount transfer_credit t

abbrev pub settle_postings : Transfer → List Posting
settle_postings t = debit t ∷ credit t ∷ []

-- A reversal gives the amount back to the sender and takes it from the recipient.
abbrev pub give_back : Transfer → Posting
give_back t = transfer_posting t.from_user_id t.amount reversal t

abbrev pub take_back : Transfer → Posting
take_back t = transfer_posting t.to_user_id (neg t.amount) reversal t

abbrev pub reversal_postings : Transfer → List Posting
reversal_postings t = give_back t ∷ take_back t ∷ []

-- The last writes of `settle_transfer`.
abbrev pub settled_transfer : ℕ → Payload → Transfer → Transfer
settled_transfer now payload t = record t {
  status = confirmed;
  tx_hash = or_old (get "tx_hash" payload) t.tx_hash;
  settled_at = some now;
}

-- The branch of `settle_transfer` for an open transfer.
unfoldable pub settle_open : String → ℕ → Payload → Transfer → Tx WalletDb Outcome
settle_open cid now payload t = do
  release_hold t.from_user_id t.asset t.amount
  post_entries cid t.asset (settle_postings t)
  modify (save_transfer (settled_transfer now payload t))
  pure processed

abbrev pub settle_by_status : TransferStatus → Tx WalletDb Outcome → Tx WalletDb Outcome
settle_by_status confirmed work = pure duplicate
settle_by_status failed work = pure ignored
settle_by_status _ work = work

unfoldable pub settle_transfer : String → ℕ → Payload → Tx WalletDb Outcome
settle_transfer cid now payload = do
  found ← load_for_update payload
  if_none found (pure ignored) λ t. settle_by_status t.status (settle_open cid now payload t)

-- `payload.get(key, default)`
abbrev get_or : String → String → Payload → Value
get_or key default payload = if_none (get key payload) (str default) (λ v. v)

-- The last writes of `fail_transfer`.
abbrev pub failed_transfer : Payload → Transfer → Transfer
failed_transfer payload t = record t {
  status = failed;
  failure_code = text_of (some (get_or "code" "UNKNOWN" payload));
  failure_reason = some (take_chars 1000 (show (get_or "reason" "transaction failed" payload)));
  tx_hash = or_old (get "tx_hash" payload) t.tx_hash;
}

-- The two branches of `fail_transfer`: a settled transfer is reversed, an open one is released.
unfoldable pub reverse_settled : String → Payload → Transfer → Tx WalletDb Outcome
reverse_settled cid payload t = do
  post_entries cid t.asset (reversal_postings t)
  modify (save_transfer (failed_transfer payload t))
  pure processed

unfoldable pub fail_open : Payload → Transfer → Tx WalletDb Outcome
fail_open payload t = do
  release_hold t.from_user_id t.asset t.amount
  modify (save_transfer (failed_transfer payload t))
  pure processed

abbrev pub fail_by_status :
    TransferStatus → Tx WalletDb Outcome → Tx WalletDb Outcome → Tx WalletDb Outcome
fail_by_status failed reverse release = pure duplicate
fail_by_status confirmed reverse release = reverse
fail_by_status _ reverse release = release

unfoldable pub fail_transfer : String → Payload → Tx WalletDb Outcome
fail_transfer cid payload = do
  found ← load_for_update payload
  if_none found (pure ignored)
      λ t. fail_by_status t.status (reverse_settled cid payload t) (fail_open payload t)
