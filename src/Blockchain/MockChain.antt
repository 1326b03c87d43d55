-- ===== src/Blockchain/MockChain.antt =====
-- services/blockchain/blockchain_service/chain/mock.py: the tables of the simulated node, what it
-- answers and its switches for faults. The rows of a table stand in the order of `created_at`.
pub mod Mining
pub mod Reorg
pub mod Balanced
pub mod Forks
pub mod Submission
pub mod Heights
pub mod Longer
use mini_crypto_wallet.Base.{
  ℕ, suc, ◌+◌, max, Bool, true, false, not, ◌&&◌, ◌||◌, Option, none, some, List, [], ◌∷◌, ◌++◌,
  String, str_eq, if◌then◌else◌, ltb, leb, ◌==◌,
}
use mini_crypto_wallet.Base.Int.{ℤ, pos, pos_part}
use mini_crypto_wallet.Base.Table.{find?, any, filter}
use mini_crypto_wallet.Base.Result.{
  Tx, Error, ok, err, ◌>>=◌, ◌>>◌, pure, gets, modify, raise_if, if_none, rpc_unavailable,
}
use mini_crypto_wallet.Base.Text.{◌<>◌, lower, codes_eq}
use mini_crypto_wallet.Blockchain.Deposits.{TransferLog}
use mini_crypto_wallet.Blockchain.Watcher.{TxReceipt}

pub record MockBlock : Type 0 where
  pub hash : String
  pub number : ℕ
  pub parent_hash : String
  pub is_canonical : Bool

pub data TxStatus : Type 0 where
  pending mined failed dropped : TxStatus

abbrev pub is_mined : TxStatus → Bool
is_mined mined = true
is_mined s = false

abbrev pub is_pending : TxStatus → Bool
is_pending pending = true
is_pending s = false

abbrev pub is_dropped : TxStatus → Bool
is_dropped dropped = true
is_dropped s = false

pub record MockTx : Type 0 where
  pub hash : String
  pub from_address : String
  pub to_address : String
  pub amount : ℤ
  pub asset : String
  pub status : TxStatus
  pub block_number : Option ℕ
  pub block_hash : Option String
  pub log_index : Option ℕ
  pub is_mint : Bool
  pub fail_on_mine : Bool

pub record MockBalance : Type 0 where
  pub address : String
  pub amount : ℤ

pub record MockFaults : Type 0 where
  pub rpc_available : Bool
  pub halt_mining : Bool
  pub fail_next_transfers : ℕ

pub record Node : Type 0 where
  pub blocks : List MockBlock
  pub transactions : List MockTx
  pub balances : List MockBalance
  pub faults : Option MockFaults

abbrev pub no_faults : MockFaults
no_faults = record { rpc_available = true; halt_mining = false; fail_next_transfers = 0 }

abbrev pub genesis_number : ℕ
genesis_number = 1

abbrev pub zero_hash : String
zero_hash = "0x0000000000000000000000000000000000000000000000000000000000000000"

-- The canonical block with the largest number.
abbrev pub head_block : List MockBlock → Option MockBlock
head_block [] = none
head_block (b ∷ bs) =
    let best = head_block bs in
    if b.is_canonical
    then if_none best (some b) (λ h. if leb h.number b.number then some b else some h)
    else best

abbrev pub int_or_0 : Option ℕ → ℕ
int_or_0 none = 0
int_or_0 (some n) = n

-- `_faults`, which inserts the row of the switches if it is missing.
unfoldable pub read_faults : Tx Node MockFaults
read_faults s =
    let faults = if_none s.faults no_faults (λ f. f) in
    ok (faults, record s { faults = some faults })

unfoldable pub assert_rpc_up : Tx Node (Unit {0})
assert_rpc_up s = raise_if (if_none s.faults false (λ f. not f.rpc_available)) rpc_unavailable s

unfoldable pub get_block_number : Tx Node ℕ
get_block_number = do assert_rpc_up; gets (λ s. if_none (head_block s.blocks) 0 (λ b. b.number))

unfoldable pub get_block_hash : ℕ → Tx Node (Option String)
get_block_hash number = do
  assert_rpc_up
  gets (λ s.
      if_none (find? (λ b. b.number == number && b.is_canonical) s.blocks) none (λ b. some b.hash))

-- `MockBlock.hash == MockTx.block_hash`
abbrev pub block_of : MockTx → List MockBlock → Option MockBlock
block_of tx blocks = if_none tx.block_hash none (λ hash. find? (λ b. str_eq b.hash hash) blocks)

abbrev pub receipt_of : MockTx → Option MockBlock → Option TxReceipt
receipt_of tx none = none
receipt_of tx (some block) =
    if (is_pending tx.status || is_dropped tx.status) || not block.is_canonical
    then none
    else some (record {
      tx_hash = tx.hash;
      block_number = int_or_0 tx.block_number;
      block_hash = block.hash;
      status = if is_mined tx.status then 1 else 0;
    })

unfoldable pub get_receipt : String → Tx Node (Option TxReceipt)
get_receipt tx_hash = do
  assert_rpc_up
  gets (λ s.
      if_none (find? (λ t. str_eq t.hash tx_hash) s.transactions) none
        (λ t. receipt_of t (block_of t s.blocks)))

unfoldable pub get_token_balance : String → Tx Node ℤ
get_token_balance address = do
  assert_rpc_up
  gets (λ s. if_none (find? (λ r. str_eq r.address address) s.balances) (pos 0) (λ r. r.amount))

-- ORDER BY block_number, log_index
abbrev before : TransferLog → TransferLog → Bool
before a b =
    ltb a.block_number b.block_number
    || (a.block_number == b.block_number && leb a.log_index b.log_index)

abbrev insert_log : TransferLog → List TransferLog → List TransferLog
insert_log a [] = a ∷ []
insert_log a (b ∷ logs) =
    let rest = insert_log a logs in if before a b then a ∷ b ∷ logs else b ∷ rest

abbrev sort_logs : List TransferLog → List TransferLog
sort_logs [] = []
sort_logs (a ∷ logs) = insert_log a (sort_logs logs)

module _ (network : String) where
  abbrev log_of : MockTx → MockBlock → TransferLog
  log_of tx block = record {
    network = network;
    asset = tx.asset;
    tx_hash = tx.hash;
    log_index = int_or_0 tx.log_index;
    block_number = int_or_0 tx.block_number;
    block_hash = block.hash;
    from_address = tx.from_address;
    to_address = tx.to_address;
    amount = tx.amount;
  }

  abbrev is_wanted : List String → MockTx → Bool
  is_wanted [] tx = true
  is_wanted (a ∷ rest) tx = any (λ w. codes_eq (lower tx.to_address) (lower w)) (a ∷ rest)

  -- A null block number compares with nothing.
  abbrev is_within : ℕ → ℕ → Option ℕ → Bool
  is_within from_block to_block none = false
  is_within from_block to_block (some n) = leb from_block n && leb n to_block

  abbrev is_selected : ℕ → ℕ → List String → MockTx → Bool
  is_selected from_block to_block addresses tx =
      is_mined tx.status
      && (is_within from_block to_block tx.block_number && is_wanted addresses tx)

  abbrev select_logs : ℕ → ℕ → List String → List MockBlock → List MockTx → List TransferLog
  select_logs from_block to_block addresses blocks [] = []
  select_logs from_block to_block addresses blocks (tx ∷ txs) =
      let rest = select_logs from_block to_block addresses blocks txs in
      if is_selected from_block to_block addresses tx
      then if_none (block_of tx blocks) rest
          (λ b. if b.is_canonical then log_of tx b ∷ rest else rest)
      else rest

  unfoldable pub get_transfer_logs : ℕ → ℕ → List String → Tx Node (List TransferLog)
  get_transfer_logs from_block to_block addresses s =
      if ltb to_block from_block
      then ok ([], s)
      else (assert_rpc_up
            >> gets (λ n.
              sort_logs (select_logs from_block to_block addresses n.blocks n.transactions)))
          s

-- `set_faults`, whose arguments may be `None`; a negative number of failures counts as none.
unfoldable pub set_faults : Option Bool → Option Bool → Option ℤ → Tx Node MockFaults
set_faults rpc_available halt_mining fail_next_transfers = do
  faults ← read_faults
  let faults' : MockFaults = record {
    rpc_available = if_none rpc_available faults.rpc_available (λ b. b);
    halt_mining = if_none halt_mining faults.halt_mining (λ b. b);
    fail_next_transfers = if_none fail_next_transfers faults.fail_next_transfers (λ n. pos_part n);
  }
  modify (λ s. record s { faults = some faults' })
  pure faults'

unfoldable pub get_faults : Tx Node MockFaults
get_faults = gets (λ s. if_none s.faults no_faults (λ f. f))
