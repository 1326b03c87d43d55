-- ===== src/Wallet/Deposits/Effect.antt =====
-- What a deposit does to the balances.
use mini_crypto_wallet.Base.{ℕ, ◌≡◌, ◌∙◌, false, some, [], ◌∷◌, String, arith}
use mini_crypto_wallet.Base.Int.{ℤ, pos, ◌+ℤ◌, ◌≤ℤ◌, eqb_ℤ, int_laws}
use mini_crypto_wallet.Base.Result.{ok}
use mini_crypto_wallet.Common.Events.{Payload, Value, get, show}
use mini_crypto_wallet.Wallet.Models.{WalletDb, Wallet, deposit, has_entry}
use mini_crypto_wallet.Wallet.Users.{wallet_by_address}
use mini_crypto_wallet.Wallet.Ledger.{Posting, post_entries, post_all}
use mini_crypto_wallet.Wallet.Ledger.Rows.{posted_of, reserved_of}
use mini_crypto_wallet.Wallet.Ledger.Round.{at, PostEffect, post_entry-PostEffect}
use mini_crypto_wallet.Wallet.Ledger.Pair.{Covered, post_entry_writes}
use mini_crypto_wallet.Wallet.Transfers.{processed}
use mini_crypto_wallet.Wallet.Transfers.Save.{balance_bounds}
use mini_crypto_wallet.Wallet.Deposits.{
  amount_units, reference_id, reference_type, credit_deposit, deposit_posting,
}
use mini_crypto_wallet.Wallet.Kept.{credit_deposit-Inv}
use mini_crypto_wallet.Wallet.Invariant.{Inv}

-- What the credit of an amount leaves behind.
pub record Credited (u : ℕ) (asset : String) (amount : ℤ) (db db' : WalletDb) : Type 0 where
  pub inv : Inv db'
  pub posted :
      (u' : ℕ) (a' : String) → posted_of u' a' db' ≡ posted_of u' a' db +ℤ at u asset amount u' a'
  pub reserved : (u' : ℕ) (a' : String) → reserved_of u' a' db' ≡ reserved_of u' a' db
  pub transfers : db'.transfers ≡ db.transfers

post_one :
    (cid asset : String) (p : Posting) (db : WalletDb)
    → Inv db
    → eqb_ℤ p.amount (pos 0) ≡ false
    → has_entry p.user_id p.entry_type p.reference_type p.reference_id db ≡ false
    → Covered asset p db
    → (db' : WalletDb) × (post_entries cid asset (p ∷ []) db ≡ ok (1, db'))
      × PostEffect cid asset p 1 db db'
unfolding post_entries post_all
post_one cid asset p db h nz new covered =
    let (db', e) = post_entry_writes cid asset p db h.checked nz new covered in
    (db', rw e, post_entry-PostEffect cid asset p 1 db db' e)

-- A confirmed deposit to the address of a wallet, of an amount above zero, whose log and block are
-- not in the ledger yet, is credited: the call returns `processed`, keeps the invariant, adds
-- exactly the amount to the posted balance of the wallet's owner and changes no other balance, no
-- reserved funds and no transfer.
pub credit_deposit-Credited :
    (cid : String) (payload : Payload) (to asset : Value) (w : Wallet) (amount : ℤ) (ref : String)
    (db : WalletDb)
    → Inv db
    → get "to_address" payload ≡ some to
    → wallet_by_address (show to) db ≡ some w
    → amount_units payload db ≡ ok (amount, db)
    → get "asset" payload ≡ some asset
    → reference_id payload db ≡ ok (ref, db)
    → pos 1 ≤ℤ amount
    → has_entry w.user_id deposit reference_type ref db ≡ false
    → (db' : WalletDb) × (credit_deposit cid payload db ≡ ok (processed, db'))
      × Credited w.user_id (show asset) amount db db'
unfolding credit_deposit
credit_deposit-Credited cid payload to asset w amount ref db h e1 e2 e3 e4 e5 positive new =
    let bounds = balance_bounds w.user_id (show asset) db h.checked in
    let covered : Covered (show asset) (deposit_posting w.user_id amount deposit ref) db =
      omega int_laws in
    let (db', posted, effect) =
      post_one cid (show asset) (deposit_posting w.user_id amount deposit ref) db h (ground arith)
        new covered in
    let returned : credit_deposit cid payload db ≡ ok (processed, db') =
      rw (e1, e2, e3, e4, e5, posted) in
    (
      db',
      returned,
      record {
        inv = credit_deposit-Inv cid payload processed db db' returned h;
        posted = λ u' a'. effect.posted u' a' ∙ rw new;
        reserved = effect.reserved;
        transfers = effect.transfers;
      },
    )
