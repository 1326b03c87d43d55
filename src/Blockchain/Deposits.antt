-- ===== src/Blockchain/Deposits.antt =====
-- services/blockchain/blockchain_service/services/deposits.py: deposits are detected, confirmed and
-- taken back when the chain takes them back. The chain adapter's answers are parameters.
-- Statements name a row by its network, hash and log index, which are unique.
pub mod Once
pub mod Confirm
use mini_crypto_wallet.Base.{
  ℕ, suc, ◌+◌, ◌-◌, min, Bool, true, false, not, ◌&&◌, ◌||◌, Option, none, some, List, [], ◌∷◌,
  ◌++◌, String, str_eq, map, if◌then◌else◌, leb, ltb, ◌==◌,
}
use mini_crypto_wallet.Base.Int.{ℤ, pos, leb_ℤ}
use mini_crypto_wallet.Base.Table.{find?, any, filter, update, length, is_some}
use mini_crypto_wallet.Base.Result.{
  Tx, Result, ok, err, if_none, ◌>>=◌, ◌>>◌, pure, gets, modify, or_raise, raise_if,
  unsupported_asset, integrity_error, atomically, after,
}
use mini_crypto_wallet.Base.Text.{◌<>◌, show_ℕ, show_ℤ, lower, codes_eq, drop_chars, take_chars}
use mini_crypto_wallet.Common.Events.{
  Value, Payload, str, int, bool, new_event, deposit_detected, deposit_confirmed, deposit_reorged,
}
use mini_crypto_wallet.Common.Money.{format_amount}
use mini_crypto_wallet.Common.Assets.{Asset, get_asset}
use mini_crypto_wallet.Blockchain.Models.{
  ChainDb, Deposit, DepositStatus, ScanState, Address, Settings, enqueue,
}
use mini_crypto_wallet.Blockchain.Models.DepositStatus.{detected, confirmed, reorged}
use mini_crypto_wallet.Blockchain.Transactions.{producer}
use mini_crypto_wallet.Blockchain.Addresses.{active_addresses}
use mini_crypto_wallet.Blockchain.Watcher.{TxReceipt}

-- `TransferLog` of chain/base.py
pub record TransferLog : Type 0 where
  pub network : String
  pub asset : String
  pub tx_hash : String
  pub log_index : ℕ
  pub block_number : ℕ
  pub block_hash : String
  pub from_address : String
  pub to_address : String
  pub amount : ℤ

abbrev identity : TransferLog → String
identity e = e.network <> ":" <> e.tx_hash <> ":" <> show_ℕ e.log_index

-- uq_deposit_chain_identity
abbrev pub is_deposit : String → String → ℕ → Deposit → Bool
is_deposit network tx_hash log_index d =
    str_eq d.network network && str_eq d.tx_hash tx_hash && d.log_index == log_index

abbrev pub find_deposit : Deposit → ChainDb → Option Deposit
find_deposit k db = find? (is_deposit k.network k.tx_hash k.log_index) db.deposits

abbrev pub save_deposit : Deposit → ChainDb → ChainDb
save_deposit d db = record db {
  deposits = update (is_deposit d.network d.tx_hash d.log_index) (λ old. d) db.deposits;
}

abbrev pub deposit_status_eq : DepositStatus → DepositStatus → Bool
deposit_status_eq detected detected = true
deposit_status_eq confirmed confirmed = true
deposit_status_eq reorged reorged = true
deposit_status_eq _ _ = false

unfoldable pub deposit_payload : Deposit → ℕ → Tx ChainDb Payload
deposit_payload d confirmations = do
  asset ← or_raise (get_asset d.asset) unsupported_asset
  pure (
      ("deposit_id", str d.id)
      ∷ ("network", str d.network)
      ∷ ("asset", str d.asset)
      ∷ ("tx_hash", str d.tx_hash)
      ∷ ("log_index", int (pos d.log_index))
      ∷ ("from_address", str d.from_address)
      ∷ ("to_address", str d.to_address)
      ∷ ("amount", str (format_amount d.amount asset.decimals))
      ∷ ("amount_units", str (show_ℤ d.amount))
      ∷ ("decimals", int (pos asset.decimals))
      ∷ ("block_number", int (pos d.block_number))
      ∷ ("block_hash", str d.block_hash)
      ∷ ("confirmations", int (pos confirmations))
      ∷ [])

-- `f"dep-{tx_hash[2:14]}"`
abbrev correlation_of : String → String
correlation_of tx_hash = "dep-" <> take_chars 12 (drop_chars 2 tx_hash)

abbrev pub new_deposit : String → TransferLog → Deposit
new_deposit id e = record {
  id = id;
  network = e.network;
  asset = e.asset;
  tx_hash = e.tx_hash;
  log_index = e.log_index;
  to_address = e.to_address;
  from_address = e.from_address;
  amount = e.amount;
  block_number = e.block_number;
  block_hash = e.block_hash;
  confirmations = 0;
  status = detected;
}

abbrev pub revived : TransferLog → Deposit → Deposit
revived e d = record d {
  block_number = e.block_number;
  block_hash = e.block_hash;
  status = detected;
  confirmations = 0;
}

abbrev insert_deposit : Deposit → ChainDb → ChainDb
insert_deposit d db = record db { deposits = db.deposits ++ d ∷ [] }

-- INSERT ... ON CONFLICT DO UPDATE ... WHERE status = 'REORGED', after ck_deposit_amount_positive:
-- the row that was inserted or revived.
unfoldable pub insert_or_revive : String → TransferLog → Tx ChainDb (Option Deposit)
insert_or_revive id e = do
  raise_if (not (leb_ℤ (pos 1) e.amount)) integrity_error
  found ← gets (find_deposit (new_deposit id e))
  if_none found (modify (insert_deposit (new_deposit id e)) >> pure (some (new_deposit id e))) λ d.
      if deposit_status_eq d.status reorged
      then modify (save_deposit (revived e d)) >> pure (some (revived e d))
      else pure none

-- Logs that one of the service's own addresses sent are internal movements.
abbrev pub is_external : List String → TransferLog → Bool
is_external watched e = not (any (λ a. codes_eq (lower a) (lower e.from_address)) watched)

abbrev is_network : String → ScanState → Bool
is_network network s = str_eq s.network network

-- INSERT ... ON CONFLICT (network) DO UPDATE of the cursor
abbrev pub set_cursor : ScanState → List ScanState → List ScanState
set_cursor s rows =
    if any (is_network s.network) rows
    then update (is_network s.network) (λ old. s) rows
    else rows ++ s ∷ []

-- Where the scan starts: after the cursor, or the safety margin before it when the hash of the
-- block there has changed.
unfoldable pub scan_from : Settings → (ℕ → Option String) → ChainDb → ℕ
scan_from settings hash_at db = if_none (find? (is_network settings.network) db.scan_state) 1 λ s.
    if_none s.last_scanned_hash (s.last_scanned_block + 1) λ last.
      if str_eq last "" || if_none (hash_at s.last_scanned_block) false (str_eq last)
      then s.last_scanned_block + 1
      else s.last_scanned_block - settings.reorg_safety_blocks + 1

abbrev pub scan_to : Settings → ℕ → ℕ → ℕ
scan_to settings head from_block = min head (from_block + settings.scan_batch_blocks - 1)

pub data Verified : Type 0 where
  gone checked confirmed_now reorged_now : Verified

-- Where the log of a deposit stands now, by its receipt and the logs of the receipt's block.
unfoldable pub whereabouts :
    Deposit → Option TxReceipt → (ℕ → String → List TransferLog) → Option (ℕ × String)
whereabouts before none logs_at = none
whereabouts before (some receipt) logs_at =
    if str_eq receipt.block_hash before.block_hash
    then some (receipt.block_number, receipt.block_hash)
    else if_none
        (find? (λ e. str_eq e.tx_hash before.tx_hash && e.log_index == before.log_index)
          (logs_at receipt.block_number before.to_address))
        none (λ e. some (e.block_number, e.block_hash))

abbrev pub seen_at : ℕ → ℕ → String → Deposit → Deposit
seen_at head number hash d = record d {
  block_number = number;
  block_hash = hash;
  confirmations = head + 1 - number;
}

-- `fresh` gives the row of a log its primary key.
module _ (uuid5 : String → String) (fresh : TransferLog → String) where
  -- `_upsert_deposit`
  unfoldable pub upsert_deposit : TransferLog → Tx ChainDb Bool
  upsert_deposit e = do
    found ← insert_or_revive (fresh e) e
    if_none found (pure false) λ d. do
      payload ← deposit_payload d 0
      enqueue (
          new_event uuid5 deposit_detected payload producer (identity e <> ":" <> e.block_hash)
            (correlation_of e.tx_hash))
      pure true

  -- The loop over the logs; the number of deposits detected.
  unfoldable pub upsert_all : List TransferLog → Tx ChainDb ℕ
  upsert_all [] = pure 0
  upsert_all (e ∷ es) = do
    new ← upsert_deposit e
    rest ← upsert_all es
    pure (if new then suc rest else rest)

  -- The one transaction of a scan: the deposits, their events and the cursor.
  unfoldable pub record_scan : Settings → ℕ → Option String → List TransferLog → Tx ChainDb ℕ
  record_scan settings to_block tip_hash logs = do
    new ← upsert_all logs
    modify (λ db. record db {
      scan_state =
          set_cursor
            (record {
              network = settings.network;
              last_scanned_block = to_block;
              last_scanned_hash = tip_hash;
            })
            db.scan_state;
    })
    pure new

  -- `run_once` of `DepositScanner`: the deposits detected.
  unfoldable pub scan :
      Settings
      → ℕ
      → (ℕ → Option String)
      → (ℕ → ℕ → List String → List TransferLog)
      → ChainDb
      → Result ℕ × ChainDb
  scan settings head hash_at logs_in db =
      let first = scan_from settings hash_at db in
      let last = scan_to settings head first in
      let watched = active_addresses db in
      let logs : List TransferLog =
        if leb (length watched) 0 then [] else logs_in first last watched in
      if head == 0 || ltb last first
      then (ok 0, db)
      else atomically (record_scan settings last (hash_at last) (filter (is_external watched) logs))
          db

  -- `_mark_reorged`
  unfoldable pub mark_reorged : Deposit → Tx ChainDb Verified
  mark_reorged d = do
    modify (save_deposit (record d { status = reorged }))
    payload ← deposit_payload d d.confirmations
    enqueue (
        new_event uuid5 deposit_reorged
          (payload
            ++ ("was_confirmed", bool (deposit_status_eq d.status confirmed))
              ∷ ("orphaned_block_hash", str d.block_hash)
              ∷ [])
          producer
          (d.network
            <> ":"
            <> d.tx_hash
            <> ":"
            <> show_ℕ d.log_index
            <> ":"
            <> d.block_hash
            <> ":reorg")
          (correlation_of d.tx_hash))
    pure reorged_now

  unfoldable pub confirm : Deposit → Tx ChainDb Verified
  confirm d = do
    let d' : Deposit = record d { status = confirmed }
    modify (save_deposit d')
    payload ← deposit_payload d' d'.confirmations
    enqueue (
        new_event uuid5 deposit_confirmed payload producer
          (d.network <> ":" <> d.tx_hash <> ":" <> show_ℕ d.log_index <> ":" <> d.block_hash)
          (correlation_of d.tx_hash))
    pure confirmed_now

  -- The branch of `_reverify` for a log that is still there.
  unfoldable pub refresh : ℕ → Deposit → Tx ChainDb Verified
  refresh required d =
      if deposit_status_eq d.status detected && leb required d.confirmations
      then confirm d
      else modify (save_deposit d) >> pure checked

  -- The transaction of `_reverify`; `before` is the row as it was read before the calls of the chain.
  unfoldable pub reverify :
      ℕ → ℕ → Deposit → Option TxReceipt → (ℕ → String → List TransferLog) → Tx ChainDb Verified
  reverify required head before receipt logs_at = do
    found ← gets (find_deposit before)
    if_none found (pure gone) λ d.
        if_none (whereabouts before receipt logs_at) (mark_reorged d)
          λ place. refresh required (seen_at head place.0 place.1 d)
