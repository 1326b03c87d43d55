-- ===== src/Blockchain/Models.antt =====
-- services/blockchain/blockchain_service/models.py: the tables of the service. Times are whole
-- seconds. Time stamps that nothing reads and the nonce are left out.
use mini_crypto_wallet.Base.{ℕ, Bool, true, false, not, ◌&&◌, Option, some, List, String, str_eq}
use mini_crypto_wallet.Base.Int.{ℤ}
use mini_crypto_wallet.Base.Table.{find?, any, update}
use mini_crypto_wallet.Base.Result.{Tx, ◌>>=◌, ◌>>◌, gets, modify, raise_if, integrity_error}
use mini_crypto_wallet.Common.Events.{EventEnvelope}
use mini_crypto_wallet.Common.Outbox.{OutboxRow, enqueue_event}

pub data TxStatus : Type 0 where
  created pending broadcasted confirmed failed reorged : TxStatus

pub record Address : Type 0 where
  pub owner_ref : String
  pub network : String
  pub address : String
  pub derivation : String
  pub status : String

pub record OutgoingTransaction : Type 0 where
  pub id : String
  pub transfer_id : String
  pub network : String
  pub asset : String
  pub from_address : String
  pub to_address : String
  pub amount : ℤ
  pub tx_hash : Option String
  pub status : TxStatus
  pub block_number : Option ℕ
  pub block_hash : Option String
  pub confirmations : ℕ
  pub failure_reason : Option String
  pub attempts : ℕ
  pub next_attempt_at : Option ℕ
  pub broadcast_at : Option ℕ
  pub correlation_id : String

pub record KeyMaterial : Type 0 where
  pub address : String
  pub encrypted_private_key : String
  pub key_version : ℕ

pub data DepositStatus : Type 0 where
  detected confirmed reorged : DepositStatus

pub record Deposit : Type 0 where
  pub id : String
  pub network : String
  pub asset : String
  pub tx_hash : String
  pub log_index : ℕ
  pub to_address : String
  pub from_address : String
  pub amount : ℤ
  pub block_number : ℕ
  pub block_hash : String
  pub confirmations : ℕ
  pub status : DepositStatus

pub record ScanState : Type 0 where
  pub network : String
  pub last_scanned_block : ℕ
  pub last_scanned_hash : Option String

pub record ProcessedEvent : Type 0 where
  pub consumer : String
  pub event_id : String
  pub event_type : String

pub record DeadLetter : Type 0 where
  pub consumer : String
  pub event_id : String
  pub event_type : String
  pub envelope : EventEnvelope
  pub delivery_count : ℕ
  pub error : String

pub record ChainDb : Type 0 where
  pub addresses : List Address
  pub key_material : List KeyMaterial
  pub outgoing_transactions : List OutgoingTransaction
  pub deposits : List Deposit
  pub scan_state : List ScanState
  pub outbox : List OutboxRow
  pub processed_events : List ProcessedEvent
  pub dead_letters : List DeadLetter

-- blockchain_service/config.py, as far as the modelled code reads it.
pub record Settings : Type 0 where
  pub broadcast_max_attempts : ℕ
  pub confirmations_required : ℕ
  pub finality_depth : ℕ
  pub pending_timeout_seconds : ℕ
  pub network : String
  pub reorg_safety_blocks : ℕ
  pub scan_batch_blocks : ℕ

abbrev pub is_outgoing : String → OutgoingTransaction → Bool
is_outgoing id r = str_eq r.id id

abbrev pub find_outgoing : String → ChainDb → Option OutgoingTransaction
find_outgoing id db = find? (is_outgoing id) db.outgoing_transactions

abbrev pub status_eq : TxStatus → TxStatus → Bool
status_eq created created = true
status_eq pending pending = true
status_eq broadcasted broadcasted = true
status_eq TxStatus.confirmed TxStatus.confirmed = true
status_eq failed failed = true
status_eq TxStatus.reorged TxStatus.reorged = true
status_eq _ _ = false

abbrev same_hash : Option String → Option String → Bool
same_hash (some h) (some h') = str_eq h h'
same_hash _ _ = false

-- Another row has the hash, which the unique key on tx_hash refuses.
abbrev pub hash_taken : OutgoingTransaction → ChainDb → Bool
hash_taken r db =
    any (λ x. not (str_eq x.id r.id) && same_hash x.tx_hash r.tx_hash) db.outgoing_transactions

-- The write of a changed row when the session is flushed.
unfoldable pub save_outgoing : OutgoingTransaction → Tx ChainDb (Unit {0})
save_outgoing r = do
  taken ← gets (hash_taken r)
  raise_if taken integrity_error
  modify (λ db. record db {
    outgoing_transactions = update (is_outgoing r.id) (λ old. r) db.outgoing_transactions;
  })

unfoldable pub enqueue : EventEnvelope → Tx ChainDb (Unit {0})
enqueue envelope = modify (λ db. record db { outbox = enqueue_event envelope db.outbox })
