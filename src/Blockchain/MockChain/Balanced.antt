-- ===== src/Blockchain/MockChain/Balanced.antt =====
-- The token balances of the simulated chain are what its mined transactions add up to.
use mini_crypto_wallet.Base.{
  ℕ, ◌-◌, ◌≡◌, ◌∙◌, refl, subst, ap, inl, inr, true, false, not, ◌&&◌, some, List, [], ◌∷◌, ◌++◌,
  String, str_eq, eq_iff, arith, Bool-cases, if◌then◌else◌, ltb,
}
use mini_crypto_wallet.Base.Int.{ℤ, pos, neg, ◌+ℤ◌, int_laws, pos_part, neg_part}
use mini_crypto_wallet.Base.Table.{any, update, sum}
use mini_crypto_wallet.Base.Result.{ok, ok-injective, if_none}
use mini_crypto_wallet.Blockchain.MockChain.{
  Node, MockBlock, MockTx, MockBalance, MockFaults, no_faults, TxStatus, pending, mined, failed,
  dropped, is_mined, is_pending, head_block, read_faults,
}
use mini_crypto_wallet.Blockchain.MockChain.Mining.{
  Purse, adjust_balance, apply_balances, balance_row, is_reverted, max_txs_per_block, new_block,
  has_hash, include_pending, mine_tx, mine_txs, mine_block,
}

-- The balance of an address.
abbrev pub balance_of : String → List MockBalance → ℤ
balance_of a rows = if_none (balance_row a rows) (pos 0) (λ r. r.amount)

-- What a transaction adds to the balance of an address, if it is mined.
abbrev pub effect : String → MockTx → ℤ
effect a tx =
    (if str_eq tx.to_address a then tx.amount else pos 0)
    +ℤ (if not tx.is_mint && str_eq tx.from_address a then neg tx.amount else pos 0)

abbrev pub credit : String → MockTx → ℤ
credit a tx = if is_mined tx.status then effect a tx else pos 0

abbrev pub Balanced : Node → Type 0
Balanced s = (a : String) → balance_of a s.balances ≡ sum (credit a) s.transactions

address_of : (b : String) (r : MockBalance) → str_eq r.address b ≡ true → r.address ≡ b
address_of b r h = (eq_iff r.address b).0 h

module _ (a b : String) where
  balance_of-update :
      (d : ℤ) (rows : List MockBalance)
      → any (λ (r : MockBalance). str_eq r.address b) rows ≡ true
      → balance_of a
          (update (λ r. str_eq r.address b) (λ r. record r { amount = r.amount +ℤ d }) rows)
        ≡ balance_of a rows +ℤ (if str_eq b a then d else pos 0)
  balance_of-update d [] h = cc
  balance_of-update d (r ∷ rows) h = elim (Bool-cases (str_eq r.address b)) [
    | inl e ↦
        let is : r.address ≡ b = address_of b r e in
        elim (Bool-cases (str_eq b a)) [
          | inl f ↦ rw (e, is, f)
          | inr f ↦ rw (e, is, f) (omega int_laws)
        ]
    | inr e ↦
        let rest = balance_of-update d rows (rw e at h) in
        elim (Bool-cases (str_eq r.address a)) [
          | inr f ↦ rw (e, f) rest
          | inl f ↦
              let other : str_eq b a ≡ false =
                ground (arith, eq_iff r.address a, eq_iff b a, eq_iff r.address b) in
              rw (e, f, other) (omega int_laws)
        ]
  ]

  balance_of-append :
      (rows : List MockBalance)
      → balance_of a (rows ++ record { address = b; amount = pos 0 } ∷ []) ≡ balance_of a rows
  balance_of-append [] = ground arith
  balance_of-append (r ∷ rows) = ground (arith, balance_of-append rows)

  any-concat :
      (rows : List MockBalance)
      → any
          (λ (r : MockBalance). str_eq r.address b)
          (rows ++ record { address = b; amount = pos 0 } ∷ [])
        ≡ true
  any-concat [] = ground (arith, eq_iff b b)
  any-concat (r ∷ rows) = ground (arith, any-concat rows)

  -- A change of one balance.
  balance_of-adjust :
      (d : ℤ) (rows : List MockBalance)
      → balance_of a (adjust_balance b d rows)
        ≡ balance_of a rows +ℤ (if str_eq b a then d else pos 0)
  unfolding adjust_balance
  balance_of-adjust d rows =
      elim (Bool-cases (any (λ (r : MockBalance). str_eq r.address b) rows)) [
        | inl k ↦ rw k (balance_of-update d rows k)
        | inr k ↦
            let fresh = rows ++ record { address = b; amount = pos 0 } ∷ [] in
            rw k (
              balance_of-update d fresh (any-concat rows)
              ∙ ap (λ (t : ℤ). t +ℤ (if str_eq b a then d else pos 0)) (balance_of-append rows))
      ]

swap_last : (x y z : ℤ) → (x +ℤ y) +ℤ z ≡ x +ℤ (z +ℤ y)
swap_last x y z = omega int_laws

-- A transfer of an amount, forwards or backwards.
pub balance_of-apply :
    (a : String) (tx : MockTx) (d : ℤ) (rows : List MockBalance)
    → balance_of a (apply_balances tx d rows)
      ≡ balance_of a rows +ℤ effect a (record tx { amount = d })
unfolding apply_balances
balance_of-apply a tx d rows = elim (Bool-cases tx.is_mint) [
  | inl k ↦ rw k (balance_of-adjust a tx.to_address d rows ∙ omega int_laws)
  | inr k ↦
      let paid = balance_of-adjust a tx.from_address (neg d) rows in
      rw k (
        balance_of-adjust a tx.to_address d (adjust_balance tx.from_address (neg d) rows)
        ∙ rw paid (swap_last (balance_of a rows) _ _))
]

-- A transaction that mining takes up.
mine_tx-credit :
    (a : String) (number : ℕ) (hash : String) (tx : MockTx) (p : Purse)
    → let r = mine_tx number hash tx p in
      balance_of a r.1.balances ≡ balance_of a p.balances +ℤ credit a r.0
unfolding mine_tx
mine_tx-credit a number hash tx p = elim (Bool-cases (is_reverted tx p)) [
  | inl k ↦ rw k (omega int_laws)
  | inr k ↦ rw k (balance_of-apply a tx tx.amount p.balances)
]

pending_not_mined : (s : TxStatus) → is_pending s ≡ true → is_mined s ≡ false
pending_not_mined pending h = refl
pending_not_mined mined h = cc
pending_not_mined failed h = refl
pending_not_mined dropped h = refl

pending-credit : (a : String) (tx : MockTx) → is_pending tx.status ≡ true → credit a tx ≡ pos 0
pending-credit a tx h = rw (pending_not_mined tx.status h)

-- Two changes, one after the other, of a balance and of a sum.
pub chain_sums :
    (b b' b'' c c' s s' : ℤ)
    → b' +ℤ c ≡ b +ℤ c'
    → b'' +ℤ s ≡ b' +ℤ s'
    → b'' +ℤ (c +ℤ s) ≡ b +ℤ (c' +ℤ s')
chain_sums b b' b'' c c' s s' h k =
    omega (int_laws, ap pos_part h, ap neg_part h, ap pos_part k, ap neg_part k)

pub mine_txs-credit :
    (a : String) (number : ℕ) (hash : String) (limit : ℕ) (txs : List MockTx) (p : Purse)
    → let r = mine_txs number hash limit txs p in
      balance_of a r.1.balances +ℤ sum (credit a) txs
      ≡ balance_of a p.balances +ℤ sum (credit a) r.0
unfolding mine_txs
mine_txs-credit a number hash limit [] p = refl
mine_txs-credit a number hash limit (tx ∷ txs) p =
    elim (Bool-cases (ltb 0 limit && is_pending tx.status)) [
      | inr k ↦ rw k (chain_sums _ _ _ _ _ _ _ refl (mine_txs-credit a number hash limit txs p))
      | inl k ↦
          let r = mine_tx number hash tx p in
          let is : is_pending tx.status ≡ true = ground arith in
          let one : balance_of a r.1.balances +ℤ credit a tx
              ≡ balance_of a p.balances +ℤ credit a r.0 =
            rw (pending-credit a tx is) (
              omega (
                int_laws,
                ap pos_part (mine_tx-credit a number hash tx p),
                ap neg_part (mine_tx-credit a number hash tx p),
              )) in
          rw k (chain_sums _ _ _ _ _ _ _ one (mine_txs-credit a number hash (limit - 1) txs r.1))
    ]

-- Balances that move as the sums move stay balanced.
pub moves_together : (b b' s s' : ℤ) → b' +ℤ s ≡ b +ℤ s' → b ≡ s → b' ≡ s'
moves_together b b' s s' h k =
    omega (int_laws, ap pos_part h, ap neg_part h, ap pos_part k, ap neg_part k)

pub after_another :
    (b b' b'' s s' s'' : ℤ) → b' +ℤ s ≡ b +ℤ s' → b'' +ℤ s' ≡ b' +ℤ s'' → b'' +ℤ s ≡ b +ℤ s''
after_another b b' b'' s s' s'' h k =
    omega (int_laws, ap pos_part h, ap neg_part h, ap pos_part k, ap neg_part k)

module _ (sha256 : String → String) (uuid : String) where
  include_pending-Balanced :
      (block : MockBlock) (faults : MockFaults) (s : Node)
      → Balanced s
      → Balanced (include_pending sha256 block faults s)
  include_pending-Balanced block faults s h a = elim (Bool-cases faults.halt_mining) [
    | inl k ↦ rw k (h a)
    | inr k ↦
        let p : Purse = record {
          balances = s.balances;
          fail_next_transfers = faults.fail_next_transfers;
          log_index = 0;
        } in
        rw k (
          moves_together (balance_of a s.balances) _ _ _
            (mine_txs-credit a block.number block.hash max_txs_per_block s.transactions p) (h a))
  ]

  -- A block that is mined keeps the balances right.
  pub mine_block-Balanced :
      (n : ℕ) (s s' : Node) → mine_block sha256 uuid s ≡ ok (n, s') → Balanced s → Balanced s'
  unfolding mine_block read_faults
  mine_block-Balanced n s s' h k =
      let faults = if_none s.faults no_faults (λ f. f) in
      let block = new_block sha256 (head_block s.blocks) uuid in
      elim (Bool-cases (any (has_hash sha256 block.hash) s.blocks)) [
        | inl e ↦ cc (rw e at h)
        | inr e ↦
            let s₁ = record s { faults = some faults; blocks = s.blocks ++ block ∷ [] } in
            subst Balanced (ok-injective _ _ _ _ (rw e at h)).1
              (include_pending-Balanced block faults s₁ k)
      ]
