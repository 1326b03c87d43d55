-- ===== src/Wallet/Deposits/Once.antt =====
-- A deposit is credited once.
use mini_crypto_wallet.Base.{ℕ, List, ◌≡◌, refl, ◌∙◌, inl, inr, some, [], ◌∷◌, String, Option-cases}
use mini_crypto_wallet.Base.Result.{ok, or_raise, key_error, value_error, bind-eq-ok, ok-injective}
use mini_crypto_wallet.Base.Reads.{Stateless, Stateless-pure, Stateless-or_raise, Stateless-bind}
use mini_crypto_wallet.Common.Events.{EventEnvelope, Payload, get, show, int_of}
use mini_crypto_wallet.Wallet.Models.{WalletDb, deposit}
use mini_crypto_wallet.Wallet.Users.{wallet_by_address}
use mini_crypto_wallet.Wallet.Ledger.{post_entries}
use mini_crypto_wallet.Wallet.Ledger.Laws.{Later, post_entries-Later}
use mini_crypto_wallet.Wallet.Transfers.{processed, duplicate}
use mini_crypto_wallet.Wallet.Deposits.{
  amount_units, chain_reference, reference_id, credit_deposit, deposit_posting,
}
use mini_crypto_wallet.Wallet.Frame.Handlers.{credit_deposit-Frame}
use mini_crypto_wallet.Wallet.Delivery.{deliver, deliver-Later}

amount_units-Stateless : (payload : Payload) → Stateless (amount_units payload)
unfolding amount_units
amount_units-Stateless payload =
    Stateless-bind _ _ (Stateless-or_raise (get "amount_units" payload) key_error)
      λ v. Stateless-or_raise (int_of v) value_error

reference_id-Stateless : (payload : Payload) → Stateless (reference_id payload)
unfolding reference_id chain_reference
reference_id-Stateless payload =
    Stateless-bind _ _ (Stateless-or_raise (get "network" payload) key_error) λ a.
      Stateless-bind _ _ (Stateless-or_raise (get "tx_hash" payload) key_error) λ b.
        Stateless-bind _ _ (Stateless-or_raise (get "log_index" payload) key_error)
          λ c. Stateless-pure _

-- Two events about the same transfer log in the same block: they name the log, its block, the
-- recipient, the asset and the amount alike, and may differ in all else.
pub record SameLog (payload payload' : Payload) : Type 0 where
  pub network : get "network" payload' ≡ get "network" payload
  pub tx_hash : get "tx_hash" payload' ≡ get "tx_hash" payload
  pub log_index : get "log_index" payload' ≡ get "log_index" payload
  pub block_hash : get "block_hash" payload' ≡ get "block_hash" payload
  pub to_address : get "to_address" payload' ≡ get "to_address" payload
  pub asset : get "asset" payload' ≡ get "asset" payload
  pub amount_units : get "amount_units" payload' ≡ get "amount_units" payload

credit_deposit-same :
    (cid : String) (payload payload' : Payload) (db : WalletDb)
    → SameLog payload payload'
    → credit_deposit cid payload' db ≡ credit_deposit cid payload db
unfolding credit_deposit amount_units reference_id chain_reference
credit_deposit-same cid payload payload' db h =
    rw (h.to_address, h.amount_units, h.asset, h.network, h.tx_hash, h.log_index, h.block_hash) refl

-- The same event again.
credited_again :
    (cid cid' : String) (payload : Payload) (db db' db'' : WalletDb)
    → credit_deposit cid payload db ≡ ok (processed, db')
    → Later db' db''
    → credit_deposit cid' payload db'' ≡ ok (duplicate, db'')
unfolding credit_deposit
credited_again cid cid' payload db db' db'' e later =
    let frame = credit_deposit-Frame cid payload processed db db' e in
    let (a, s1, e1, h1) =
      bind-eq-ok (or_raise (get "to_address" payload) key_error db) _ processed db' e in
    let (same1, all1) = Stateless-or_raise (get "to_address" payload) key_error a db s1 e1 in
    elim (Option-cases (wallet_by_address (show a) s1)) [
      | inl k ↦ cc (ok-injective _ _ _ _ (rw k at h1)).0
      | inr (w, k) ↦
          let (x, s2, e2, h2) = bind-eq-ok (amount_units payload s1) _ processed db' (rw k at h1) in
          let (b, s3, e3, h3) =
            bind-eq-ok (or_raise (get "asset" payload) key_error s2) _ processed db' h2 in
          let (ref, s4, e4, h4) = bind-eq-ok (reference_id payload s3) _ processed db' h3 in
          let (n, s5, e5, h5) =
            bind-eq-ok (post_entries cid (show b) (deposit_posting w.user_id x deposit ref ∷ []) s4)
              _ processed db' h4 in
          let last : s5 ≡ db' = (ok-injective _ _ _ _ h5).1 in
          let again =
            post_entries-Later cid cid' (show b) (deposit_posting w.user_id x deposit ref ∷ []) n s4
              db' db'' (rw last at e5) later in
          let known : wallet_by_address (show a) db' ≡ some w =
            unfold wallet_by_address in rw (frame.wallets, ← same1) k in
          rw (
            all1 db'',
            later.wallets (show a) w known,
            (amount_units-Stateless payload x s1 s2 e2).1 db'',
            (Stateless-or_raise (get "asset" payload) key_error b s2 s3 e3).1 db'',
            (reference_id-Stateless payload ref s3 s4 e4).1 db'',
            again,
          )
    ]

-- A confirmed deposit that was credited is not credited again: after any further events, an event about
-- the same log in the same block, under any correlation id and with any other fields, returns
-- `duplicate` and changes nothing.
pub credit_deposit_once :
    (cid cid' : String) (payload payload' : Payload) (es : List (ℕ × EventEnvelope))
    (db db' : WalletDb)
    → SameLog payload payload'
    → credit_deposit cid payload db ≡ ok (processed, db')
    → credit_deposit cid' payload' (deliver es db') ≡ ok (duplicate, deliver es db')
credit_deposit_once cid cid' payload payload' es db db' same e =
    credit_deposit-same cid' payload payload' (deliver es db') same
    ∙ credited_again cid cid' payload db db' (deliver es db') e (deliver-Later es db')
