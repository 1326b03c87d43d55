-- ===== src/Blockchain/MockChain/Reorg.antt =====
-- services/blockchain/blockchain_service/chain/mock.py: `reorg`, which replaces the top blocks of the
-- simulated chain by a longer fork. SHA-256 and the random numbers of `uuid4` are parameters.
use mini_crypto_wallet.Base.{
  ℕ, zero, suc, ◌+◌, ◌-◌, max, Bool, false, not, ◌&&◌, Option, none, some, List, [], ◌∷◌, ◌++◌,
  String, str_eq, if◌then◌else◌, leb, map,
}
use mini_crypto_wallet.Base.Int.{neg}
use mini_crypto_wallet.Base.Table.{any, filter, length}
use mini_crypto_wallet.Base.Result.{Tx, Result, ok, if_none, atomically, after}
use mini_crypto_wallet.Base.Text.{lower, codes_eq}
use mini_crypto_wallet.Blockchain.MockChain.{
  Node, MockBlock, MockTx, MockBalance, pending, dropped, is_mined, head_block, genesis_number,
}
use mini_crypto_wallet.Blockchain.MockChain.Mining.{apply_balances, mine_block}

-- The hashes are compared in lower case.
abbrev pub is_named : List String → String → Bool
is_named names hash = any (λ h. codes_eq (lower h) (lower hash)) names

abbrev pub is_in : String → MockTx → Bool
is_in hash tx = if_none tx.block_hash false (λ h. str_eq h hash)

abbrev pub released : List String → MockTx → MockTx
released drop tx = record tx {
  block_number = none;
  block_hash = none;
  log_index = none;
  status = if is_named drop tx.hash then dropped else pending;
}

-- What a fork takes back: the transactions and balances that are left, and the hashes it reverted.
pub record Unwound : Type 0 where
  pub transactions : List MockTx
  pub balances : List MockBalance
  pub reverted : List String

module _ (drop : List String) where
  -- The transactions of one block that is orphaned.
  unfoldable pub unwind_block : String → List MockTx → List MockBalance → Unwound
  unwind_block hash [] rows = record { transactions = []; balances = rows; reverted = [] }
  unwind_block hash (tx ∷ txs) rows =
      let taken = is_in hash tx in
      let rows' =
        if taken && is_mined tx.status then apply_balances tx (neg tx.amount) rows else rows in
      let rest = unwind_block hash txs rows' in
      record {
        transactions = (if taken then released drop tx else tx) ∷ rest.transactions;
        balances = rest.balances;
        reverted = if taken then tx.hash ∷ rest.reverted else rest.reverted;
      }

  unfoldable pub unwind_blocks : List MockBlock → List MockTx → List MockBalance → Unwound
  unwind_blocks [] txs rows = record { transactions = txs; balances = rows; reverted = [] }
  unwind_blocks (b ∷ bs) txs rows =
      let one = unwind_block b.hash txs rows in
      let rest = unwind_blocks bs one.transactions one.balances in
      record rest { reverted = one.reverted ++ rest.reverted }

abbrev pub is_victim : ℕ → MockBlock → Bool
is_victim lowest b = b.is_canonical && leb lowest b.number

abbrev pub orphan : ℕ → MockBlock → MockBlock
orphan lowest b = record b { is_canonical = b.is_canonical && not (leb lowest b.number) }

-- ORDER BY number DESC
abbrev pub insert_block : MockBlock → List MockBlock → List MockBlock
insert_block a [] = a ∷ []
insert_block a (b ∷ bs) =
    let rest = insert_block a bs in if leb b.number a.number then a ∷ b ∷ bs else b ∷ rest

abbrev pub by_number_desc : List MockBlock → List MockBlock
by_number_desc [] = []
by_number_desc (b ∷ bs) = insert_block b (by_number_desc bs)

abbrev pub lowest_of : ℕ → ℕ → ℕ
lowest_of head depth = max (genesis_number + 1) (head + 1 - depth)

-- The transaction of `reorg`: the numbers of the orphaned blocks, highest first, and the hashes of
-- their transactions; `none` is a chain without blocks.
unfoldable pub unwind : ℕ → List String → Tx Node (Option (List ℕ × List String))
unwind depth drop s = if_none (head_block s.blocks) (ok (none, s)) (λ head.
    let lowest = lowest_of head.number depth in
    let victims = by_number_desc (filter (is_victim lowest) s.blocks) in
    let u = unwind_blocks drop victims s.transactions s.balances in
    ok (
      some (map (λ b. b.number) victims, u.reverted),
      record s {
        blocks = map (orphan lowest) s.blocks;
        transactions = u.transactions;
        balances = u.balances;
      },
    ))

module _ (sha256 : String → String) (uuids : ℕ → String) where
  -- `for _ in range(n): await self.mine_block()`, each in a transaction of its own.
  unfoldable pub mine_blocks : ℕ → Node → Result (Unit {0}) × Node
  mine_blocks zero s = (ok tt, s)
  mine_blocks (suc n) s =
      after (atomically (mine_block sha256 (uuids n)) s) (λ _ s'. mine_blocks n s')

  abbrev pub rebuild : Option (List ℕ × List String) → Node → Result (List ℕ × List String) × Node
  rebuild none s = (ok ([], []), s)
  rebuild (some (orphaned, reverted)) s =
      after (mine_blocks (suc (length orphaned)) s) (λ _ s'. (ok (orphaned, reverted), s'))

  -- `reorg`; the names that were to be dropped, which it returns too, are left out.
  unfoldable pub reorg : ℕ → List String → Node → Result (List ℕ × List String) × Node
  reorg depth drop s = after (atomically (unwind depth drop) s) rebuild
