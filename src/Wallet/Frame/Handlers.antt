-- ===== src/Wallet/Frame/Handlers.antt =====
-- The handlers of events leave the wallets, the processed events and the keys alone.
use mini_crypto_wallet.Base.{ℕ, refl, [], ◌∷◌, String}
use mini_crypto_wallet.Base.Int.{neg}
use mini_crypto_wallet.Base.Result.{Tx, pure, key_error, value_error}
use mini_crypto_wallet.Base.Keeps.{
  Keeps, Keeps-same, Keeps-pure, Keeps-gets, Keeps-or_raise, Keeps-if, Keeps-if_none, Keeps-bind,
  Keeps-modify,
}
use mini_crypto_wallet.Common.Events.{Payload, EventEnvelope, get, show, int_of}
use mini_crypto_wallet.Wallet.Users.{wallet_by_address}
use mini_crypto_wallet.Wallet.Models.{
  WalletDb, deposit, reversal, TransferStatus, created, processing, broadcasted, confirmed, failed,
  Transfer, save_transfer,
}
use mini_crypto_wallet.Wallet.Transfers.{
  Outcome, processed, duplicate, ignored, load_for_update, broadcasted_transfer, settle_postings,
  settled_transfer, reversal_postings, failed_transfer, mark_broadcasted, settle_open,
  settle_transfer, reverse_settled, fail_open, fail_transfer, settle_by_status, fail_by_status,
}
use mini_crypto_wallet.Wallet.Transfers.Load.{load_for_update_lem}
use mini_crypto_wallet.Wallet.Deposits.{
  deposit_posting, outcome_of, chain_reference, reference_id, amount_units, credit_deposit,
  reverse_deposit,
}
use mini_crypto_wallet.Wallet.Dispatcher.{handle}
use mini_crypto_wallet.Wallet.Frame.{Frame, frame, post_entries-Frame, release_hold-Frame}

save-Frame : (t : Transfer) (db : WalletDb) → Frame db (save_transfer t db)
unfolding save_transfer
save-Frame t db = record {
  wallets = refl;
  processed = refl;
  keys = refl;
  entries = λ p h. h;
  rows = λ u a h. h;
}

load-Frame : (payload : Payload) → Keeps frame (load_for_update payload)
load-Frame payload =
    Keeps-same frame (load_for_update payload) λ o s s' e. (load_for_update_lem payload o s s' e).0

mark_broadcasted-Frame : (payload : Payload) → Keeps frame (mark_broadcasted payload)
unfolding mark_broadcasted
mark_broadcasted-Frame payload = Keeps-bind frame _ _ (load-Frame payload) λ o.
    Keeps-if_none frame o _ _ (Keeps-pure frame ignored) λ t.
      Keeps-if frame _ _ _ (Keeps-pure frame duplicate) (
        Keeps-bind frame _ _ (Keeps-modify frame _ (save-Frame (broadcasted_transfer payload t)))
          λ x. Keeps-pure frame processed)

module _ (work other : Tx WalletDb Outcome) (hw : Keeps frame work) (ho : Keeps frame other) where
  settle_by_status-Frame : (s : TransferStatus) → Keeps frame (settle_by_status s work)
  settle_by_status-Frame confirmed = Keeps-pure frame duplicate
  settle_by_status-Frame failed = Keeps-pure frame ignored
  settle_by_status-Frame created = hw
  settle_by_status-Frame processing = hw
  settle_by_status-Frame broadcasted = hw

  fail_by_status-Frame : (s : TransferStatus) → Keeps frame (fail_by_status s work other)
  fail_by_status-Frame failed = Keeps-pure frame duplicate
  fail_by_status-Frame confirmed = hw
  fail_by_status-Frame created = ho
  fail_by_status-Frame processing = ho
  fail_by_status-Frame broadcasted = ho

settle_open-Frame :
    (cid : String) (now : ℕ) (payload : Payload) (t : Transfer)
    → Keeps frame (settle_open cid now payload t)
unfolding settle_open
settle_open-Frame cid now payload t =
    Keeps-bind frame _ _ (release_hold-Frame t.from_user_id t.asset t.amount) λ x.
      Keeps-bind frame _ _ (post_entries-Frame cid t.asset (settle_postings t)) λ n.
        Keeps-bind frame _ _ (Keeps-modify frame _ (save-Frame (settled_transfer now payload t)))
          λ y. Keeps-pure frame processed

reverse_settled-Frame :
    (cid : String) (payload : Payload) (t : Transfer) → Keeps frame (reverse_settled cid payload t)
unfolding reverse_settled
reverse_settled-Frame cid payload t =
    Keeps-bind frame _ _ (post_entries-Frame cid t.asset (reversal_postings t)) λ n.
      Keeps-bind frame _ _ (Keeps-modify frame _ (save-Frame (failed_transfer payload t)))
        λ y. Keeps-pure frame processed

fail_open-Frame : (payload : Payload) (t : Transfer) → Keeps frame (fail_open payload t)
unfolding fail_open
fail_open-Frame payload t =
    Keeps-bind frame _ _ (release_hold-Frame t.from_user_id t.asset t.amount) λ x.
      Keeps-bind frame _ _ (Keeps-modify frame _ (save-Frame (failed_transfer payload t)))
        λ y. Keeps-pure frame processed

settle_transfer-Frame :
    (cid : String) (now : ℕ) (payload : Payload) → Keeps frame (settle_transfer cid now payload)
unfolding settle_transfer
settle_transfer-Frame cid now payload = Keeps-bind frame _ _ (load-Frame payload) λ o.
    Keeps-if_none frame o _ _ (Keeps-pure frame ignored) λ t.
      settle_by_status-Frame (settle_open cid now payload t) (pure ignored)
        (settle_open-Frame cid now payload t) (Keeps-pure frame ignored) t.status

fail_transfer-Frame : (cid : String) (payload : Payload) → Keeps frame (fail_transfer cid payload)
unfolding fail_transfer
fail_transfer-Frame cid payload = Keeps-bind frame _ _ (load-Frame payload) λ o.
    Keeps-if_none frame o _ _ (Keeps-pure frame ignored) λ t.
      fail_by_status-Frame (reverse_settled cid payload t) (fail_open payload t)
        (reverse_settled-Frame cid payload t) (fail_open-Frame payload t) t.status

amount_units-Frame : (payload : Payload) → Keeps frame (amount_units payload)
unfolding amount_units
amount_units-Frame payload =
    Keeps-bind frame _ _ (Keeps-or_raise frame (get "amount_units" payload) key_error)
      λ v. Keeps-or_raise frame (int_of v) value_error

chain_reference-Frame :
    (key : String) (payload : Payload) → Keeps frame (chain_reference key payload)
unfolding chain_reference
chain_reference-Frame key payload =
    Keeps-bind frame _ _ (Keeps-or_raise frame (get "network" payload) key_error) λ a.
      Keeps-bind frame _ _ (Keeps-or_raise frame (get "tx_hash" payload) key_error) λ b.
        Keeps-bind frame _ _ (Keeps-or_raise frame (get "log_index" payload) key_error)
          λ c. Keeps-pure frame _

pub credit_deposit-Frame :
    (cid : String) (payload : Payload) → Keeps frame (credit_deposit cid payload)
unfolding credit_deposit reference_id
credit_deposit-Frame cid payload =
    Keeps-bind frame _ _ (Keeps-or_raise frame (get "to_address" payload) key_error) λ a.
      Keeps-bind frame _ _ (Keeps-gets frame (wallet_by_address (show a))) λ o.
        Keeps-if_none frame o _ _ (Keeps-pure frame ignored) λ w.
          Keeps-bind frame _ _ (amount_units-Frame payload) λ x.
            Keeps-bind frame _ _ (Keeps-or_raise frame (get "asset" payload) key_error) λ b.
              Keeps-bind frame _ _ (chain_reference-Frame "block_hash" payload) λ r.
                Keeps-bind frame _ _
                  (post_entries-Frame cid (show b) (deposit_posting w.user_id x deposit r ∷ []))
                  λ n. Keeps-pure frame (outcome_of n)

reverse_deposit-Frame :
    (cid : String) (payload : Payload) → Keeps frame (reverse_deposit cid payload)
unfolding reverse_deposit
reverse_deposit-Frame cid payload = Keeps-if frame _ _ _ (Keeps-pure frame _) (
    Keeps-bind frame _ _ (Keeps-or_raise frame (get "to_address" payload) key_error) λ a.
      Keeps-bind frame _ _ (Keeps-gets frame (wallet_by_address (show a))) λ o.
        Keeps-if_none frame o _ _ (Keeps-pure frame ignored) λ w.
          Keeps-bind frame _ _ (amount_units-Frame payload) λ x.
            Keeps-bind frame _ _ (chain_reference-Frame "orphaned_block_hash" payload) λ r.
              Keeps-bind frame _ _ (Keeps-or_raise frame (get "asset" payload) key_error) λ b.
                Keeps-bind frame _ _
                  (post_entries-Frame cid (show b)
                    (deposit_posting w.user_id (neg x) reversal r ∷ []))
                  λ n. Keeps-pure frame (outcome_of n))

-- No handler changes the wallets or forgets a processed event.
pub handle-Frame : (now : ℕ) (e : EventEnvelope) → Keeps frame (handle now e)
unfolding handle
handle-Frame now e = Keeps-if frame _ _ _ (Keeps-pure frame _) (
    Keeps-if frame _ _ _ (credit_deposit-Frame e.correlation_id e.payload) (
      Keeps-if frame _ _ _ (reverse_deposit-Frame e.correlation_id e.payload) (
        Keeps-if frame _ _ _ (mark_broadcasted-Frame e.payload) (
          Keeps-if frame _ _ _ (settle_transfer-Frame e.correlation_id now e.payload) (
            Keeps-if frame _ _ _ (fail_transfer-Frame e.correlation_id e.payload)
              (Keeps-pure frame _))))))
