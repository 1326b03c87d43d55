-- ===== src/Blockchain/MockChain/Submission.antt =====
-- Transfers that are submitted to the simulated chain, once or again.
use mini_crypto_wallet.Base.{
  ◌≡◌, refl, sym, ◌⊎◌, inl, inr, Bool, true, false, not, [], ◌∷◌, ◌++◌, String, str_eq, eq_iff,
  arith, Bool-cases,
}
use mini_crypto_wallet.Base.Int.{leb_ℤ, ℤ, pos}
use mini_crypto_wallet.Base.Table.{any, any-append}
use mini_crypto_wallet.Base.Result.{ok, ok-injective, if_none}
use mini_crypto_wallet.Blockchain.MockChain.{Node, MockTx, assert_rpc_up}
use mini_crypto_wallet.Blockchain.MockChain.Mining.{send_transfer, tx_hash_of, submitted}

module _ (sha256 : String → String) (network asset : String) where
  -- The submission of a transfer that the node knows.
  known_again :
      (from to ref : String) (amount : ℤ) (is_mint : Bool) (s : Node)
      → leb_ℤ amount (pos 0) ≡ false
      → if_none s.faults false (λ f. not f.rpc_available) ≡ false
      → any (λ (t : MockTx). str_eq t.hash (tx_hash_of sha256 network asset ref)) s.transactions
        ≡ true
      → send_transfer sha256 network asset from to amount ref is_mint s
        ≡ ok (tx_hash_of sha256 network asset ref, s)
  unfolding send_transfer assert_rpc_up
  known_again from to ref amount is_mint s positive up known = rw (positive, up, known) refl

  -- If a transfer is submitted, no balance and no block changes: the transfer is at most added to the
  -- transactions, as a pending one. Every further submission under its reference, by whatever parties
  -- and of whatever positive amount, returns the same hash and changes nothing.
  pub send_transfer_once :
      (from to ref : String) (amount : ℤ) (is_mint : Bool) (from' to' : String) (amount' : ℤ)
      (is_mint' : Bool) (s s' : Node) (hash : String)
      → leb_ℤ amount' (pos 0) ≡ false
      → send_transfer sha256 network asset from to amount ref is_mint s ≡ ok (hash, s')
      → (s'.balances ≡ s.balances)
        × (s'.blocks ≡ s.blocks)
        × ((s'.transactions ≡ s.transactions)
            ⊎ (s'.transactions
                ≡ s.transactions
                  ++ submitted sha256 network asset from to amount hash is_mint ∷ []))
        × (send_transfer sha256 network asset from' to' amount' ref is_mint' s' ≡ ok (hash, s'))
  unfolding send_transfer assert_rpc_up
  send_transfer_once from to ref amount is_mint from' to' amount' is_mint' s s' hash ok' h =
      let tx =
        submitted sha256 network asset from to amount (tx_hash_of sha256 network asset ref)
          is_mint in
      elim (Bool-cases (leb_ℤ amount (pos 0))) [
        | inl e ↦ cc (rw e at h)
        | inr positive ↦ elim (Bool-cases (if_none s.faults false (λ f. not f.rpc_available))) [
          | inl down ↦ cc (rw (positive, down) at h)
          | inr up ↦
              elim (Bool-cases (any (λ (t : MockTx). str_eq t.hash tx.hash) s.transactions)) [
                | inl known ↦
                    let same = ok-injective _ _ _ _ (rw (positive, up, known) at h) in
                    rw (sym same.0, sym same.1)
                      (
                        refl,
                        refl,
                        inl refl,
                        known_again from' to' ref amount' is_mint' s ok' up known,
                      )
                | inr new ↦
                    let s₁ = record s { transactions = s.transactions ++ tx ∷ [] } in
                    let same = ok-injective _ _ _ _ (rw (positive, up, new) at h) in
                    let there : any (λ (t : MockTx). str_eq t.hash tx.hash) s₁.transactions ≡ true =
                      rw any-append (ground (arith, eq_iff tx.hash tx.hash)) in
                    rw (sym same.0, sym same.1)
                      (
                        refl,
                        refl,
                        inr refl,
                        known_again from' to' ref amount' is_mint' s₁ ok' up there,
                      )
              ]
        ]
      ]
