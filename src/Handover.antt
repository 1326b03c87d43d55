-- ===== src/Handover.antt =====
-- What one service writes into the payload of an event, the other reads back: the transfer requests
-- of services/wallet and the confirmed deposits of services/blockchain.
mod Examples
use mini_crypto_wallet.Base.{
  ℕ, ◌≡◌, refl, inl, inr, subst, Bool, true, false, some, Option, none, List, [], ◌∷◌, ◌++◌, String,
  str_eq, Option-cases,
}
use mini_crypto_wallet.Base.Int.{ℤ, pos, leb_ℤ, ◌≤ℤ◌}
use mini_crypto_wallet.Base.Table.{any}
use mini_crypto_wallet.Base.Result.{ok, err, ok-injective}
use mini_crypto_wallet.Base.Text.{◌<>◌, show_ℤ, read_ℤ, read_ℤ-show_ℤ, parse_uuid}
use mini_crypto_wallet.Common.Assets.{Asset, get_asset}
use mini_crypto_wallet.Common.Events.{Payload, Value, str, get, show, int_of}
use mini_crypto_wallet.Wallet.Models.{WalletDb, Transfer, Wallet, deposit, has_entry}
use mini_crypto_wallet.Wallet.Users.{wallet_by_address}
use mini_crypto_wallet.Wallet.Transfers.{request_payload, processed}
use mini_crypto_wallet.Wallet.Deposits.{
  credit_deposit, amount_units, reference_id, chain_reference, reference_type,
}
use mini_crypto_wallet.Wallet.Deposits.Effect.{Credited, credit_deposit-Credited}
use mini_crypto_wallet.Wallet.Invariant.{Inv}
use mini_crypto_wallet.Blockchain.Models.{ChainDb, Deposit}
use mini_crypto_wallet.Blockchain.Deposits.{deposit_payload}
use mini_crypto_wallet.Blockchain.Transactions.{
  accept_transfer_request, insert_outgoing, new_outgoing, accepted, get_text,
}

-- The request that the wallet service writes for a transfer is accepted by the blockchain service,
-- where it knows the sender's address and not yet the transfer, as a row with the transfer's id,
-- network, parties and amount and with the symbol of its asset.
pub accept-request_payload :
    (uuid5 : String → String) (id cid : String) (t : Transfer) (asset : Asset) (db : ChainDb)
    → parse_uuid t.id ≡ some t.id
    → leb_ℤ (pos 1) t.amount ≡ true
    → any (λ a. str_eq a.address t.from_address) db.addresses ≡ true
    → any (λ x. str_eq x.transfer_id t.id) db.outgoing_transactions ≡ false
    → let row =
        new_outgoing id t.id t.network asset.symbol t.from_address t.to_address t.amount cid in
      (accept_transfer_request uuid5 id (request_payload t asset) cid db
        ≡ ok (accepted, record db { outgoing_transactions = db.outgoing_transactions ++ row ∷ [] }))
      × (row.transfer_id ≡ t.id)
      × (row.network ≡ t.network)
      × (row.asset ≡ asset.symbol)
      × (row.from_address ≡ t.from_address)
      × (row.to_address ≡ t.to_address)
      × (row.amount ≡ t.amount)
unfolding accept_transfer_request insert_outgoing show int_of
accept-request_payload uuid5 id cid t asset db canonical positive known new = (
  rw (canonical, read_ℤ-show_ℤ t.amount, positive, known, new) refl,
  refl,
  refl,
  refl,
  refl,
  refl,
  refl,
)

-- The identity of the log of a deposit and the block that it stands in.
abbrev reference_of : Deposit → String
reference_of d =
    d.network <> ":" <> d.tx_hash <> ":" <> show_ℤ (pos d.log_index) <> ":" <> d.block_hash

-- A confirmed deposit that the blockchain service reports reaches the wallet of its address: where
-- the amount is above zero and the log is not in the ledger yet, the wallet service credits exactly
-- the amount of the deposit, in its asset, to the owner of the address and to nobody else.
pub credit-deposit_payload :
    (cid : String) (d : Deposit) (confirmations : ℕ) (payload : Payload) (chain chain' : ChainDb)
    (w : Wallet) (db : WalletDb)
    → deposit_payload d confirmations chain ≡ ok (payload, chain')
    → Inv db
    → wallet_by_address d.to_address db ≡ some w
    → pos 1 ≤ℤ d.amount
    → has_entry w.user_id deposit reference_type (reference_of d) db ≡ false
    → (db' : WalletDb) × (credit_deposit cid payload db ≡ ok (processed, db'))
      × Credited w.user_id d.asset d.amount db db'
unfolding deposit_payload amount_units reference_id chain_reference show int_of
credit-deposit_payload cid d confirmations payload chain chain' w db reported h owner positive new =
    elim (Option-cases (get_asset d.asset)) [
      | inl k ↦ cc (rw k at reported)
      | inr (asset, k) ↦
          let is = (ok-injective _ _ _ _ (rw k at reported)).0 in
          subst
            (λ (p : Payload).
              (db' : WalletDb) × (credit_deposit cid p db ≡ ok (processed, db'))
              × Credited w.user_id d.asset d.amount db db')
            is
            (credit_deposit-Credited cid _ (str d.to_address) (str d.asset) w d.amount
              (reference_of d) db h refl owner (rw (read_ℤ-show_ℤ d.amount)) refl refl positive new)
    ]
