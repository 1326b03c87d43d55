-- ===== src/Blockchain/MockChain/Forks.antt =====
-- Forks of the simulated chain: the balances stay what its mined transactions add up to.
use mini_crypto_wallet.Base.{
  ℕ, zero, suc, ◌≡◌, refl, subst, ap, inl, inr, not, ◌&&◌, Option, none, some, List, [], ◌∷◌,
  String, str_eq, Bool-cases, Option-cases, if◌then◌else◌,
}
use mini_crypto_wallet.Base.Int.{ℤ, pos, neg, ◌+ℤ◌, int_laws, pos_part, neg_part}
use mini_crypto_wallet.Base.Table.{sum, filter, length}
use mini_crypto_wallet.Base.Result.{Result, ok, err, ok-injective, after, commit}
use mini_crypto_wallet.Blockchain.MockChain.{
  Node, MockBlock, MockTx, MockBalance, is_mined, head_block,
}
use mini_crypto_wallet.Blockchain.MockChain.Reorg.{
  is_named, is_in, released, unwind_block, unwind_blocks, is_victim, by_number_desc, lowest_of,
  unwind, mine_blocks, rebuild, reorg,
}
use mini_crypto_wallet.Blockchain.MockChain.Mining.{apply_balances, mine_block}
use mini_crypto_wallet.Blockchain.MockChain.Balanced.{
  Balanced, balance_of, credit, effect, balance_of-apply, chain_sums, moves_together, after_another,
  mine_block-Balanced,
}

-- What a transfer backwards adds is what the transfer took.
effect-neg :
    (a : String) (tx : MockTx)
    → effect a (record tx { amount = neg tx.amount }) +ℤ effect a tx ≡ pos 0
effect-neg a tx = elim (Bool-cases (str_eq tx.to_address a)) [
  | inl k ↦ elim (Bool-cases (not tx.is_mint && str_eq tx.from_address a)) [
    | inl l ↦ rw (k, l) (omega int_laws)
    | inr l ↦ rw (k, l) (omega int_laws)
  ]
  | inr k ↦ elim (Bool-cases (not tx.is_mint && str_eq tx.from_address a)) [
    | inl l ↦ rw (k, l) (omega int_laws)
    | inr l ↦ rw (k, l) (omega int_laws)
  ]
]

back_and_forth : (b x y : ℤ) → x +ℤ y ≡ pos 0 → (b +ℤ x) +ℤ y ≡ b +ℤ pos 0
back_and_forth b x y h = omega (int_laws, ap pos_part h, ap neg_part h)

module _ (drop : List String) where
  released-credit : (a : String) (tx : MockTx) → credit a (released drop tx) ≡ pos 0
  released-credit a tx = elim (Bool-cases (is_named drop tx.hash)) [
    | inl k ↦ rw k refl
    | inr k ↦ rw k refl
  ]

  unwind_tx-credit :
      (a hash : String) (tx : MockTx) (rows : List MockBalance)
      → let taken = is_in hash tx in
        balance_of a
            (if taken && is_mined tx.status then apply_balances tx (neg tx.amount) rows else rows)
          +ℤ credit a tx
        ≡ balance_of a rows +ℤ credit a (if taken then released drop tx else tx)
  unwind_tx-credit a hash tx rows = elim (Bool-cases (is_in hash tx)) [
    | inr k ↦ rw k refl
    | inl k ↦ elim (Bool-cases (is_mined tx.status)) [
      | inr m ↦ rw (k, m, released-credit a tx) refl
      | inl m ↦
          rw (k, m, released-credit a tx, balance_of-apply a tx (neg tx.amount) rows)
            (back_and_forth (balance_of a rows) _ _ (effect-neg a tx))
    ]
  ]

  unwind_block-credit :
      (a hash : String) (txs : List MockTx) (rows : List MockBalance)
      → let u = unwind_block drop hash txs rows in
        balance_of a u.balances +ℤ sum (credit a) txs
        ≡ balance_of a rows +ℤ sum (credit a) u.transactions
  unfolding unwind_block
  unwind_block-credit a hash [] rows = refl
  unwind_block-credit a hash (tx ∷ txs) rows =
      chain_sums _ _ _ _ _ _ _ (unwind_tx-credit a hash tx rows) (unwind_block-credit a hash txs _)

  unwind_blocks-credit :
      (a : String) (bs : List MockBlock) (txs : List MockTx) (rows : List MockBalance)
      → let u = unwind_blocks drop bs txs rows in
        balance_of a u.balances +ℤ sum (credit a) txs
        ≡ balance_of a rows +ℤ sum (credit a) u.transactions
  unfolding unwind_blocks
  unwind_blocks-credit a [] txs rows = refl
  unwind_blocks-credit a (b ∷ bs) txs rows =
      let one = unwind_block drop b.hash txs rows in
      after_another _ _ _ _ _ _ (unwind_block-credit a b.hash txs rows)
        (unwind_blocks-credit a bs one.transactions one.balances)

  unwind-Balanced :
      (depth : ℕ) (s s' : Node) (r : Option (List ℕ × List String))
      → unwind depth drop s ≡ ok (r, s')
      → Balanced s
      → Balanced s'
  unfolding unwind
  unwind-Balanced depth s s' r h k = elim (Option-cases (head_block s.blocks)) [
    | inl e ↦ subst Balanced (ok-injective _ _ _ _ (rw e at h)).1 k
    | inr (head, e) ↦
        let victims = by_number_desc (filter (is_victim (lowest_of head.number depth)) s.blocks) in
        subst Balanced (ok-injective _ _ _ _ (rw e at h)).1 (λ a.
          moves_together (balance_of a s.balances) _ _ _
            (unwind_blocks-credit a victims s.transactions s.balances) (k a))
  ]

module _ (sha256 : String → String) (uuids : ℕ → String) where
  mine_blocks-Balanced : (n : ℕ) (s : Node) → Balanced s → Balanced (mine_blocks sha256 uuids n s).1
  unfolding mine_blocks
  mine_blocks-Balanced zero s h = h
  mine_blocks-Balanced (suc n) s h =
      ended (mine_block sha256 (uuids n) s) refl (λ s' k. mine_blocks-Balanced n s' k)
    where
      ended :
          (r : Result (ℕ × Node))
          → mine_block sha256 (uuids n) s ≡ r
          → ((s' : Node) → Balanced s' → Balanced (mine_blocks sha256 uuids n s').1)
          → Balanced (after (commit r s) (λ _ s'. mine_blocks sha256 uuids n s')).1
      ended (ok (m, s')) k more = more s' (mine_block-Balanced sha256 (uuids n) m s s' k h)
      ended (err x) k more = h

  -- The balances stay what the mined transactions add up to when a fork of any depth replaces
  -- blocks, whatever transactions it drops, and also when it stops half-way.
  pub reorg-Balanced :
      (depth : ℕ) (drop : List String) (s : Node)
      → Balanced s
      → Balanced (reorg sha256 uuids depth drop s).1
  unfolding reorg
  reorg-Balanced depth drop s h = ended (unwind depth drop s) refl
    where
      mined_again :
          (orphaned : List ℕ) (reverted : List String) (r : Result (Unit {0}) × Node)
          → Balanced r.1
          → Balanced
              (after {B = List ℕ × List String} r (λ _ s''. (ok (orphaned, reverted), s''))).1
      mined_again orphaned reverted (ok u, s'') k = k
      mined_again orphaned reverted (err x, s'') k = k

      rebuilt :
          (r : Option (List ℕ × List String)) (s' : Node)
          → Balanced s'
          → Balanced (rebuild sha256 uuids r s').1
      rebuilt none s' k = k
      rebuilt (some (orphaned, reverted)) s' k =
          mined_again orphaned reverted (mine_blocks sha256 uuids (suc (length orphaned)) s')
            (mine_blocks-Balanced (suc (length orphaned)) s' k)

      ended :
          (r : Result (Option (List ℕ × List String) × Node))
          → unwind depth drop s ≡ r
          → Balanced (after (commit r s) (rebuild sha256 uuids)).1
      ended (ok (o, s')) k = rebuilt o s' (unwind-Balanced drop depth s s' o k h)
      ended (err x) k = h
