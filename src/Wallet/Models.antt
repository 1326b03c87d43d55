-- ===== src/Wallet/Models.antt =====
-- services/wallet/wallet_service/models.py: the tables, their constraints, and the statements that
-- read and write them. Time stamps that nothing reads are left out, and so are the surrogate keys
-- of ledger entries, wallets and dead letters.
use mini_crypto_wallet.Base.{
  ℕ, ◌==◌, Bool, true, false, not, ◌&&◌, Option, List, [], String, str_eq, if◌then◌else◌,
}
use mini_crypto_wallet.Base.Int.{ℤ, pos, leb_ℤ}
use mini_crypto_wallet.Base.Table.{find?, any, update}
use mini_crypto_wallet.Base.Result.{Tx, ok, err, if_none, integrity_error}
use mini_crypto_wallet.Common.Events.{EventEnvelope}
use mini_crypto_wallet.Common.Outbox.{OutboxRow}
use mini_crypto_wallet.Common.Outbox

pub data EntryType : Type 0 where
  deposit transfer_debit transfer_credit fee reversal : EntryType

pub data TransferStatus : Type 0 where
  created processing broadcasted confirmed failed : TransferStatus

-- `status in TransferStatus.TERMINAL`
abbrev pub is_terminal : TransferStatus → Bool
is_terminal confirmed = true
is_terminal failed = true
is_terminal _ = false

abbrev pub entry_type_eq : EntryType → EntryType → Bool
entry_type_eq deposit deposit = true
entry_type_eq transfer_debit transfer_debit = true
entry_type_eq transfer_credit transfer_credit = true
entry_type_eq fee fee = true
entry_type_eq reversal reversal = true
entry_type_eq _ _ = false

pub record User : Type 0 where
  pub id : ℕ
  pub name : String
  pub email : String
  pub status : String

pub record Wallet : Type 0 where
  pub user_id : ℕ
  pub network : String
  pub asset : String
  pub address : String
  pub status : String

pub record Balance : Type 0 where
  pub user_id : ℕ
  pub asset : String
  pub posted : ℤ
  pub reserved : ℤ
  pub version : ℕ

pub record LedgerEntry : Type 0 where
  pub user_id : ℕ
  pub asset : String
  pub amount : ℤ
  pub entry_type : EntryType
  pub reference_type : String
  pub reference_id : String
  pub correlation_id : String

pub record Transfer : Type 0 where
  pub id : String
  pub idempotency_key : String
  pub from_user_id : ℕ
  pub to_user_id : ℕ
  pub asset : String
  pub network : String
  pub amount : ℤ
  pub from_address : String
  pub to_address : String
  pub status : TransferStatus
  pub tx_hash : Option String
  pub failure_code : Option String
  pub failure_reason : Option String
  pub correlation_id : String
  pub settled_at : Option ℕ

pub record IdempotencyKey : Type 0 where
  pub scope : String
  pub key : String
  pub request_hash : String
  pub response_status : ℕ
  -- the transfer that the response body shows, once there is one
  pub response_body : Option Transfer
  pub resource_id : Option String

pub record ProcessedEvent : Type 0 where
  pub consumer : String
  pub event_id : String
  pub event_type : String

pub record DeadLetter : Type 0 where
  pub consumer : String
  pub event_id : String
  pub event_type : String
  pub envelope : EventEnvelope
  pub delivery_count : ℕ
  pub error : String

pub record WalletDb : Type 0 where
  pub users : List User
  pub wallets : List Wallet
  pub balances : List Balance
  pub ledger_entries : List LedgerEntry
  pub transfers : List Transfer
  pub idempotency_keys : List IdempotencyKey
  pub outbox : List OutboxRow
  pub processed_events : List ProcessedEvent
  pub dead_letters : List DeadLetter

abbrev pub empty_db : WalletDb
empty_db = record {
  users = [];
  wallets = [];
  balances = [];
  ledger_entries = [];
  transfers = [];
  idempotency_keys = [];
  outbox = [];
  processed_events = [];
  dead_letters = [];
}

-- The primary key of `balances`.
abbrev pub is_balance : ℕ → String → Balance → Bool
is_balance u a b = b.user_id == u && str_eq b.asset a

-- ck_balance_reserved_non_negative and ck_balance_available_non_negative
abbrev pub balance_check : Balance → Bool
balance_check b = leb_ℤ (pos 0) b.reserved && leb_ℤ b.reserved b.posted

-- uq_ledger_idempotency; the asset is not in the key.
abbrev pub is_entry : ℕ → EntryType → String → String → LedgerEntry → Bool
is_entry u t rt ref e =
    e.user_id == u
    && entry_type_eq e.entry_type t
    && str_eq e.reference_type rt
    && str_eq e.reference_id ref

abbrev pub is_transfer : String → Transfer → Bool
is_transfer id t = str_eq t.id id

-- ck_transfer_amount_positive and ck_transfer_distinct_parties
abbrev pub transfer_check : Transfer → Bool
transfer_check t = leb_ℤ (pos 1) t.amount && not (t.from_user_id == t.to_user_id)

abbrev pub find_balance : ℕ → String → WalletDb → Option Balance
find_balance u a db = find? (is_balance u a) db.balances

abbrev pub find_transfer : String → WalletDb → Option Transfer
find_transfer id db = find? (is_transfer id) db.transfers

abbrev pub has_entry : ℕ → EntryType → String → String → WalletDb → Bool
has_entry u t rt ref db = any (is_entry u t rt ref) db.ledger_entries

-- UPDATE balances SET ... WHERE user_id AND asset, with the checks; returns the rows changed.
unfoldable pub update_balance : ℕ → String → (Balance → Balance) → Tx WalletDb ℕ
update_balance u a f db = if_none (find_balance u a db) (ok (0, db)) λ b.
    if balance_check (f b)
    then ok (1, record db { balances = update (is_balance u a) f db.balances })
    else err integrity_error

-- The write of a changed transfer when the session is flushed.
unfoldable pub save_transfer : Transfer → WalletDb → WalletDb
save_transfer t db = record db { transfers = update (is_transfer t.id) (λ old. t) db.transfers }

unfoldable pub enqueue : EventEnvelope → WalletDb → WalletDb
enqueue envelope db = record db { outbox = Outbox.enqueue_event envelope db.outbox }
