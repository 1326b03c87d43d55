-- ===== src/Blockchain/Deposits/Confirm.antt =====
-- When a deposit is confirmed.
use mini_crypto_wallet.Base.{str_eq, ℕ, ◌+◌, ◌-◌, ◌≤◌, ◌≡◌, Bool, true, Option, some, List, String}
use mini_crypto_wallet.Base.Table.{filter}
use mini_crypto_wallet.Base.Text.{◌<>◌, show_ℕ}
use mini_crypto_wallet.Common.Events.{deposit_confirmed}
use mini_crypto_wallet.Common.Outbox.{OutboxRow, has_event}
use mini_crypto_wallet.Blockchain.Models.{ChainDb, Deposit, DepositStatus}
use mini_crypto_wallet.Blockchain.Models.DepositStatus.{detected, confirmed}
use mini_crypto_wallet.Blockchain.Deposits.{TransferLog, is_deposit, find_deposit, whereabouts}
use mini_crypto_wallet.Blockchain.Watcher.{TxReceipt}

-- The key of the row that a deposit was read from.
abbrev key_of : Deposit → Deposit → Bool
key_of k = is_deposit k.network k.tx_hash k.log_index

-- What a confirmation shows of the row: it was only detected, its log is on the chain now, and the
-- blocks from there to the head are at least as many as required.
pub record Confirms (required head : ℕ) (before : Deposit) (receipt : Option TxReceipt)
    (logs_at : ℕ → String → List TransferLog) (db : ChainDb) : Type 0 where
  pub row : Deposit
  pub found : find_deposit before db ≡ some row
  pub was_detected : row.status ≡ detected
  pub number : ℕ
  pub hash : String
  pub on_chain : whereabouts before receipt logs_at ≡ some (number, hash)
  pub deep_enough : required ≤ head + 1 - number

-- The events in the outbox that report a confirmed deposit.
abbrev pub confirmations_in : ChainDb → List OutboxRow
confirmations_in db = filter (λ r. str_eq r.event_type deposit_confirmed) db.outbox

-- The name of the event that a deposit is confirmed.
abbrev pub confirmation_name : Deposit → String
confirmation_name d =
    deposit_confirmed
    <> "|"
    <> (d.network <> ":" <> d.tx_hash <> ":" <> show_ℕ d.log_index <> ":" <> d.block_hash)

-- The row of a deposit is confirmed, with the place of its log, and the event that says so is in the
-- outbox.
pub record Stored (uuid5 : String → String) (before : Deposit) (number : ℕ) (hash : String)
    (db' : ChainDb) : Type 0 where
  pub row' : Deposit
  pub found' : find_deposit before db' ≡ some row'
  pub is_confirmed : row'.status ≡ confirmed
  pub block_number : row'.block_number ≡ number
  pub block_hash : row'.block_hash ≡ hash
  pub told : has_event (uuid5 (confirmation_name row')) db'.outbox ≡ true

-- No confirmation is reported, and if the row of the deposit is confirmed, it already was.
pub record Unconfirmed (before : Deposit) (db db' : ChainDb) : Type 0 where
  pub events : confirmations_in db' ≡ confirmations_in db
  pub earlier :
      (d' : Deposit)
      → find_deposit before db' ≡ some d'
      → d'.status ≡ confirmed
      → (d : Deposit) × (find_deposit before db ≡ some d) × (d.status ≡ confirmed)
