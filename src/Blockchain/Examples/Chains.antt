-- ===== src/Blockchain/Examples/Chains.antt =====
-- The theorems on the simulated chain at a chain with a deposit.
use mini_crypto_wallet.Base.{
  ℕ, ◌≡◌, ◌≤◌, refl, ◌⊎◌, min, true, false, none, List, [], ◌∷◌, ◌++◌, String,
}
use mini_crypto_wallet.Base.Int.{pos, ◌+ℤ◌}
use mini_crypto_wallet.Base.Table.{length}
use mini_crypto_wallet.Base.Result.{Result, ok, err, integrity_error}
use mini_crypto_wallet.Base.Text.{show_ℕ}
use mini_crypto_wallet.Blockchain.MockChain.{Node, read_faults, assert_rpc_up}
use mini_crypto_wallet.Blockchain.MockChain.Mining.{
  ensure_started, mine_block, send_transfer, simulate_deposit, submitted, tx_hash_of,
}
use mini_crypto_wallet.Blockchain.MockChain.Reorg.{reorg}
use mini_crypto_wallet.Blockchain.MockChain.Balanced.{Balanced, mine_block-Balanced}
use mini_crypto_wallet.Blockchain.MockChain.Forks.{reorg-Balanced}
use mini_crypto_wallet.Blockchain.MockChain.Heights.{IsChain, mine_block-IsChain}
use mini_crypto_wallet.Blockchain.MockChain.Longer.{HashTaken, reorg-IsChain}
use mini_crypto_wallet.Blockchain.MockChain.Submission.{send_transfer_once}

abbrev text_hash : String → String
text_hash s = s

abbrev counter : ℕ → String
counter n = show_ℕ n

abbrev no_blocks : Node
no_blocks = record { blocks = []; transactions = []; balances = []; faults = none }

abbrev started_node : Node
started_node = ensure_started text_hash "BSC" no_blocks

abbrev node_of : {A : Type 0} → Result (A × Node) → Node → Node
node_of (ok (a, s)) s₀ = s
node_of (err x) s₀ = s₀

-- A deposit of 5 was submitted.
abbrev with_deposit : Node
with_deposit =
    node_of (simulate_deposit text_hash "BSC" "USDT" "0xb" (pos 5) "r" started_node) started_node

abbrev deposit_hash : String
deposit_hash = tx_hash_of text_hash "BSC" "USDT" "r"

send_transfer_example :
    (with_deposit.balances ≡ started_node.balances)
    × (with_deposit.blocks ≡ started_node.blocks)
    × ((with_deposit.transactions ≡ started_node.transactions)
        ⊎ (with_deposit.transactions
            ≡ started_node.transactions
              ++ submitted text_hash "BSC" "USDT" "0x1111111111111111111111111111111111111111" "0xb"
                  (pos 5)
                  deposit_hash
                  true
                ∷ []))
    × (send_transfer text_hash "BSC" "USDT" "0xa" "0xc" (pos 9) "r" false with_deposit
        ≡ ok (deposit_hash, with_deposit))
unfolding simulate_deposit send_transfer assert_rpc_up ensure_started
send_transfer_example =
    send_transfer_once text_hash "BSC" "USDT" "0x1111111111111111111111111111111111111111" "0xb" "r"
      (pos 5) true "0xa" "0xc" (pos 9) false started_node with_deposit deposit_hash refl refl

with_deposit-Balanced : Balanced with_deposit
unfolding simulate_deposit send_transfer assert_rpc_up ensure_started ◌+ℤ◌
with_deposit-Balanced a = refl

-- The deposit is mined.
abbrev mined_node : Node
mined_node = node_of (mine_block text_hash "u" with_deposit) with_deposit

mined_node_is : mine_block text_hash "u" with_deposit ≡ ok (2, mined_node)
unfolding simulate_deposit send_transfer assert_rpc_up ensure_started mine_block read_faults show_ℕ
mined_node_is = refl

mined_node-Balanced : Balanced mined_node
mined_node-Balanced =
    mine_block-Balanced text_hash "u" 2 with_deposit mined_node mined_node_is with_deposit-Balanced

mine_block_example : Balanced mined_node
mine_block_example =
    mine_block-Balanced text_hash "u" 2 with_deposit mined_node mined_node_is with_deposit-Balanced

two_blocks : IsChain 2 mined_node.blocks
unfolding simulate_deposit send_transfer assert_rpc_up ensure_started mine_block read_faults show_ℕ
two_blocks = refl

mine_block-IsChain_example : (◌≡◌ {A = ℕ} 2 2) × IsChain 2 mined_node.blocks
unfolding simulate_deposit send_transfer assert_rpc_up ensure_started mine_block read_faults show_ℕ
mine_block-IsChain_example =
    mine_block-IsChain text_hash "u" 1 2 with_deposit mined_node mined_node_is refl

-- A fork that drops the deposit.
reorg_example : Balanced (reorg text_hash counter 3 (deposit_hash ∷ []) mined_node).1
reorg_example =
    reorg-Balanced text_hash counter 3 (deposit_hash ∷ []) mined_node mined_node-Balanced

reorg-IsChain_example :
    let r = reorg text_hash counter 3 (deposit_hash ∷ []) mined_node in
    ((r.0 ≡ err integrity_error)
      × (j : ℕ) × (j ≤ min 3 1)
      × HashTaken text_hash counter j r.1.blocks)
    ⊎ ((orphaned : List ℕ) × (reverted : List String) × (r.0 ≡ ok (orphaned, reverted))
        × (length orphaned ≡ min 3 1)
        × IsChain 3 r.1.blocks)
reorg-IsChain_example =
    reorg-IsChain text_hash counter 3 (deposit_hash ∷ []) 1 mined_node two_blocks
