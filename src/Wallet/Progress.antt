-- ===== src/Wallet/Progress.antt =====
-- services/wallet/wallet_service/services/progress.py: a transfer whose request is published is in
-- processing.
pub mod Advances
use mini_crypto_wallet.Base.{
  ℕ, suc, Bool, true, false, ◌&&◌, Option, none, some, List, [], ◌∷◌, String, str_eq, if◌then◌else◌,
}
use mini_crypto_wallet.Base.Table.{any, is_some}
use mini_crypto_wallet.Common.Events.{Value, get, show, transfer_requested, null}
use mini_crypto_wallet.Common.Outbox.{OutboxRow}
use mini_crypto_wallet.Wallet.Models.{WalletDb, Transfer, TransferStatus, created, processing}

-- `envelope -> 'payload' ->> 'transfer_id'` equals the id; NULL equals nothing.
names_transfer : String → Option Value → Bool
names_transfer id none = false
names_transfer id (some null) = false
names_transfer id (some v) = str_eq (show v) id

abbrev pub is_created : TransferStatus → Bool
is_created created = true
is_created _ = false

-- The condition of the statement on one outbox row.
unfoldable pub requests : String → OutboxRow → Bool
unfolding names_transfer
requests id o =
    str_eq o.event_type transfer_requested
    && is_some o.published_at
    && names_transfer id (get "transfer_id" o.envelope.payload)

unfoldable pub can_advance : List OutboxRow → Transfer → Bool
unfolding requests
can_advance outbox t = is_created t.status && any (requests t.id) outbox

unfoldable pub advance_all : List OutboxRow → List Transfer → List Transfer × ℕ
advance_all outbox [] = ([], 0)
advance_all outbox (t ∷ ts) =
    let (rest, n) = advance_all outbox ts in
    if can_advance outbox t then (record t { status = processing } ∷ rest, suc n) else (t ∷ rest, n)

-- `run_once`: the rows changed, with the new database.
unfoldable pub run_once : WalletDb → ℕ × WalletDb
run_once db =
    let (rows, n) = advance_all db.outbox db.transfers in (n, record db { transfers = rows })
