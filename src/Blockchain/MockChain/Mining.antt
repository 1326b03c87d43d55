-- ===== src/Blockchain/MockChain/Mining.antt =====
-- services/blockchain/blockchain_service/chain/mock.py: what changes the simulated chain: transfers
-- that are submitted and blocks that are mined. SHA-256 and the random
-- numbers of `uuid4` are parameters. The advisory lock makes each transaction run alone.
use mini_crypto_wallet.Base.{
  ℕ, suc, ◌-◌, Bool, true, false, not, ◌&&◌, ◌||◌, Option, none, some, List, [], ◌∷◌, ◌++◌, String,
  str_eq, if◌then◌else◌, ltb,
}
use mini_crypto_wallet.Base.Int.{ℤ, pos, neg, ◌+ℤ◌, leb_ℤ}
use mini_crypto_wallet.Base.Table.{find?, any, update}
use mini_crypto_wallet.Base.Result.{
  Tx, ◌>>=◌, ◌>>◌, pure, gets, modify, raise_if, if_none, transaction_rejected, integrity_error,
}
use mini_crypto_wallet.Base.Text.{◌<>◌, show_ℕ}
use mini_crypto_wallet.Blockchain.MockChain.{
  Node, MockBlock, MockTx, MockBalance, MockFaults, pending, mined, failed, is_pending, no_faults,
  read_faults, assert_rpc_up, head_block, genesis_number, zero_hash,
}

-- `_adjust`
abbrev has_address : String → MockBalance → Bool
has_address address r = str_eq r.address address

abbrev with_balance : String → List MockBalance → List MockBalance
with_balance address rows =
    if any (has_address address) rows
    then rows
    else rows ++ record { address = address; amount = pos 0 } ∷ []

unfoldable pub adjust_balance : String → ℤ → List MockBalance → List MockBalance
adjust_balance address delta rows =
    update (has_address address) (λ r. record r { amount = r.amount +ℤ delta })
      (with_balance address rows)

-- `_apply_balances`; `amount` is `sign * tx.amount`.
unfoldable pub apply_balances : MockTx → ℤ → List MockBalance → List MockBalance
apply_balances tx amount rows =
    adjust_balance tx.to_address amount
      (if tx.is_mint then rows else adjust_balance tx.from_address (neg amount) rows)

abbrev pub balance_row : String → List MockBalance → Option MockBalance
balance_row address rows = find? (has_address address) rows

-- What mining goes through its transactions with.
pub record Purse : Type 0 where
  pub balances : List MockBalance
  pub fail_next_transfers : ℕ
  pub log_index : ℕ

abbrev forced_failure : MockTx → ℕ → Bool
forced_failure tx fail_next = tx.fail_on_mine || (ltb 0 fail_next && not tx.is_mint)

-- A sender without a row, or with less than the amount.
abbrev is_short : MockTx → List MockBalance → Bool
is_short tx rows =
    if_none (balance_row tx.from_address rows) true (λ r. not (leb_ℤ tx.amount r.amount))

abbrev pub is_reverted : MockTx → Purse → Bool
is_reverted tx p =
    forced_failure tx p.fail_next_transfers || (not tx.is_mint && is_short tx p.balances)

abbrev in_block : ℕ → String → MockTx → MockTx
in_block number hash tx = record tx { block_number = some number; block_hash = some hash }

abbrev failures_left : MockTx → Purse → ℕ
failures_left tx p =
    if forced_failure tx p.fail_next_transfers && not tx.fail_on_mine
    then p.fail_next_transfers - 1
    else p.fail_next_transfers

-- One pass of the loop of `mine_block`.
unfoldable pub mine_tx : ℕ → String → MockTx → Purse → MockTx × Purse
mine_tx number hash tx p =
    if is_reverted tx p
    then (
      record (in_block number hash tx) { status = failed; log_index = none },
      record p { fail_next_transfers = failures_left tx p },
    )
    else (
      record (in_block number hash tx) { status = mined; log_index = some p.log_index },
      record {
        balances = apply_balances tx tx.amount p.balances;
        fail_next_transfers = failures_left tx p;
        log_index = suc p.log_index;
      },
    )

-- The first `limit` pending transactions are included.
unfoldable pub mine_txs : ℕ → String → ℕ → List MockTx → Purse → List MockTx × Purse
mine_txs number hash limit [] p = ([], p)
mine_txs number hash limit (tx ∷ txs) p =
    let included = ltb 0 limit && is_pending tx.status in
    let done = if included then mine_tx number hash tx p else (tx, p) in
    let rest = mine_txs number hash (if included then limit - 1 else limit) txs done.1 in
    (done.0 ∷ rest.0, rest.1)

abbrev pub max_txs_per_block : ℕ
max_txs_per_block = 50

module _ (sha256 : String → String) where
  -- `_hash("block", str(number), parent_hash, uuid.uuid4().hex)`
  abbrev pub block_hash_of : ℕ → String → String → String
  block_hash_of number parent_hash uuid =
      "0x" <> sha256 ("block|" <> (show_ℕ number <> ("|" <> (parent_hash <> ("|" <> uuid)))))

  abbrev pub new_block : Option MockBlock → String → MockBlock
  new_block head uuid =
      let number = if_none head genesis_number (λ b. suc b.number) in
      let parent_hash = if_none head zero_hash (λ b. b.hash) in
      record {
        hash = block_hash_of number parent_hash uuid;
        number = number;
        parent_hash = parent_hash;
        is_canonical = true;
      }

  abbrev pub has_hash : String → MockBlock → Bool
  has_hash hash b = str_eq b.hash hash

  -- The pending transactions enter the block, unless mining is halted.
  abbrev pub include_pending : MockBlock → MockFaults → Node → Node
  include_pending block faults s =
      let p : Purse = record {
        balances = s.balances;
        fail_next_transfers = faults.fail_next_transfers;
        log_index = 0;
      } in
      let r = mine_txs block.number block.hash max_txs_per_block s.transactions p in
      if faults.halt_mining then s else record s {
        transactions = r.0;
        balances = r.1.balances;
        faults = some (record faults { fail_next_transfers = r.1.fail_next_transfers });
      }

  -- `mine_block`; the hash is the primary key of the blocks.
  unfoldable pub mine_block : String → Tx Node ℕ
  mine_block uuid = do
    faults ← read_faults
    head ← gets (λ s. head_block s.blocks)
    let block = new_block head uuid
    known ← gets (λ s. any (has_hash block.hash) s.blocks)
    raise_if known integrity_error
    modify (λ s. include_pending block faults (record s { blocks = s.blocks ++ block ∷ [] }))
    pure block.number

  -- The genesis block and the row of the switches, if they are missing.
  unfoldable pub ensure_started : String → Node → Node
  ensure_started network s =
      let started = record s { faults = some (if_none s.faults no_faults (λ f. f)) } in
      if any (λ b. true) s.blocks then started else record started {
        blocks =
            record {
              hash = "0x" <> sha256 ("genesis|" <> network);
              number = genesis_number;
              parent_hash = zero_hash;
              is_canonical = true;
            }
            ∷ [];
      }

  module _ (network asset : String) where
    unfoldable pub tx_hash_of : String → String
    tx_hash_of client_ref = "0x" <> sha256 ("tx|" <> (network <> ("|" <> client_ref)))

    abbrev pub submitted : String → String → ℤ → String → Bool → MockTx
    submitted from_address to_address amount hash is_mint = record {
      hash = hash;
      from_address = from_address;
      to_address = to_address;
      amount = amount;
      asset = asset;
      status = pending;
      block_number = none;
      block_hash = none;
      log_index = none;
      is_mint = is_mint;
      fail_on_mine = false;
    }

    abbrev pub has_tx : String → List MockTx → Bool
    has_tx hash txs = any (λ t. str_eq t.hash hash) txs

    -- INSERT ... ON CONFLICT (hash) DO NOTHING
    abbrev pub insert_tx : MockTx → List MockTx → List MockTx
    insert_tx tx txs = if has_tx tx.hash txs then txs else txs ++ tx ∷ []

    unfoldable pub send_transfer : String → String → ℤ → String → Bool → Tx Node String
    send_transfer from_address to_address amount client_ref is_mint = do
      raise_if (leb_ℤ amount (pos 0)) transaction_rejected
      let hash = tx_hash_of client_ref
      assert_rpc_up
      modify (λ s. record s {
        transactions =
            insert_tx (submitted from_address to_address amount hash is_mint) s.transactions;
      })
      pure hash

    abbrev pub external_source_address : String
    external_source_address = "0x1111111111111111111111111111111111111111"

    unfoldable pub simulate_deposit : String → ℤ → String → Tx Node String
    simulate_deposit to_address amount client_ref =
        send_transfer external_source_address to_address amount client_ref true
