-- ===== src/Wallet/Frame.antt =====
-- The tables that handlers and transfers leave alone: the wallets, the processed events and the
-- idempotency keys; and the ledger and the balances lose no row. Here the ledger's operations.
pub mod Handlers
pub mod Creation
use mini_crypto_wallet.Base.{
  ℕ, ◌≡◌, refl, sym, subst, ◌==◌, ◌||◌, ◌∙◌, inl, inr, List, [], ◌∷◌, String, arith, Bool-cases,
  Option-cases, not, ◌++◌, if◌then◌else◌,
}
use mini_crypto_wallet.Base.Int.{ℤ, pos, neg, eqb_ℤ, leb_ℤ, ◌-ℤ◌}
use mini_crypto_wallet.Base.Table.{any}
use mini_crypto_wallet.Base.Result.{
  Tx, pure, assertion_error, conflict, insufficient_funds, integrity_error, key_error, value_error,
  ok-injective,
}
use mini_crypto_wallet.Base.Keeps.{
  Order, Keeps, Keeps-same, Keeps-pure, Keeps-gets, Keeps-or_raise, Keeps-if, Keeps-if_none,
  Keeps-bind, Keeps-raise_if, Keeps-modify,
}
use mini_crypto_wallet.Common.Events.{
  Payload, EventEnvelope, get, show, int_of, new_event, transfer_requested,
}
use mini_crypto_wallet.Wallet.Transfers.Create.{check_parties-Keeps}
use mini_crypto_wallet.Wallet.Users.{wallet_by_address}
use mini_crypto_wallet.Wallet.Models.{
  WalletDb, enqueue, transfer_check, LedgerEntry, has_entry, deposit, reversal, TransferStatus,
  created, processing, broadcasted, confirmed, failed, Balance, Transfer, balance_check,
  find_balance, update_balance, save_transfer,
}
use mini_crypto_wallet.Wallet.Ledger.{
  Posting, place_hold, add_reserved, entry_of, add_posted, ensure_balance, lock_balance,
  insert_entry, post_entry, post_all, post_entries, release_hold,
}
use mini_crypto_wallet.Wallet.Transfers.{
  TransferRequest, clashes, new_transfer, request_payload, insert_transfer, hold_and_insert,
  create_transfer, Outcome, processed, duplicate, ignored, load_for_update, broadcasted_transfer,
  settle_postings, settled_transfer, reversal_postings, failed_transfer, mark_broadcasted,
  settle_open, settle_transfer, reverse_settled, fail_open, fail_transfer, settle_by_status,
  fail_by_status,
}
use mini_crypto_wallet.Wallet.Transfers.Load.{load_for_update_lem}
use mini_crypto_wallet.Wallet.Deposits.{
  deposit_posting, outcome_of, chain_reference, reference_id, amount_units, credit_deposit,
  reverse_deposit,
}
use mini_crypto_wallet.Wallet.Dispatcher.{handle}
use mini_crypto_wallet.Base.{Bool, true, false}
use mini_crypto_wallet.Base.Table.{any-append, update}
use mini_crypto_wallet.Wallet.Models.{is_balance}
use mini_crypto_wallet.Wallet.Ledger.Rows.{has_row, KeepsKey, updated-has_row, ensure-has_row}
use mini_crypto_wallet.Wallet.Ledger.Round.{is_posted}

pub record Frame (db db' : WalletDb) : Type 0 where
  pub wallets : db'.wallets ≡ db.wallets
  pub processed : db'.processed_events ≡ db.processed_events
  pub keys : db'.idempotency_keys ≡ db.idempotency_keys
  pub entries : (p : Posting) → is_posted p db ≡ true → is_posted p db' ≡ true
  pub rows : (u : ℕ) (a : String) → has_row u a db ≡ true → has_row u a db' ≡ true

abbrev pub frame : Order WalletDb
frame = record {
  to = Frame;
  same = λ s. record {
    wallets = refl;
    processed = refl;
    keys = refl;
    entries = λ p h. h;
    rows = λ u a h. h;
  };
  trans = λ s t u p q. record {
    wallets = q.wallets ∙ p.wallets;
    processed = q.processed ∙ p.processed;
    keys = q.keys ∙ p.keys;
    entries = λ x h. q.entries x (p.entries x h);
    rows = λ u a h. q.rows u a (p.rows u a h);
  };
}

pub update_balance-Frame :
    (u : ℕ) (a : String) (f : Balance → Balance) → KeepsKey f → Keeps frame (update_balance u a f)
unfolding update_balance
update_balance-Frame u a f keeps n s s' e = elim (Option-cases (find_balance u a s)) [
  | inl k ↦ rw (← (ok-injective _ _ _ _ (rw k at e)).1) (frame.same s)
  | inr (b, k) ↦ elim (Bool-cases (balance_check (f b))) [
    | inl good ↦ rw (← (ok-injective _ _ _ _ (rw (k, good) at e)).1) (record {
      wallets = refl;
      processed = refl;
      keys = refl;
      entries = λ p h. h;
      rows =
          updated-has_row u a f s (record s { balances = update (is_balance u a) f s.balances }) b
            keeps k refl;
    })
    | inr bad ↦ cc (rw (k, bad) at e)
  ]
]

ensure-Frame : (u : ℕ) (a : String) (db : WalletDb) → Frame db (ensure_balance u a db)
unfolding ensure_balance
ensure-Frame u a db = record {
  wallets = ground arith;
  processed = ground arith;
  keys = ground arith;
  entries = λ p h.
      let same : (ensure_balance u a db).ledger_entries ≡ db.ledger_entries = ground arith in
      unfold ensure_balance in rw same h;
  rows = λ u' a' h. ensure-has_row u u' a a' db h;
}

pub lock_balance-Frame : (u : ℕ) (a : String) → Keeps frame (lock_balance u a)
unfolding lock_balance
lock_balance-Frame u a = Keeps-bind frame _ _ (Keeps-modify frame _ (ensure-Frame u a)) λ x.
    Keeps-bind frame _ _ (Keeps-gets frame (find_balance u a))
      λ o. Keeps-or_raise frame o assertion_error

add_entry-Frame :
    (known : Bool) (x : LedgerEntry) (s : WalletDb)
    → Frame s (if known then s else record s { ledger_entries = s.ledger_entries ++ x ∷ [] })
add_entry-Frame true x s = frame.same s
add_entry-Frame false x s = record {
  wallets = refl;
  processed = refl;
  keys = refl;
  entries = λ p h. rw (any-append, h) refl;
  rows = λ u a h. h;
}

insert_entry-Frame : (x : LedgerEntry) → Keeps frame (insert_entry x)
unfolding insert_entry
insert_entry-Frame x =
    Keeps-bind frame _ _ (Keeps-raise_if frame (eqb_ℤ x.amount (pos 0)) integrity_error) λ y.
      Keeps-bind frame _ _
        (Keeps-gets frame (has_entry x.user_id x.entry_type x.reference_type x.reference_id))
        λ known.
          Keeps-bind frame _ _
            (Keeps-modify frame
              (λ s. if known then s else record s { ledger_entries = s.ledger_entries ++ x ∷ [] })
              (add_entry-Frame known x))
            λ z. Keeps-pure frame (not known)

post_entry-Frame : (cid asset : String) (p : Posting) → Keeps frame (post_entry cid asset p)
unfolding post_entry
post_entry-Frame cid asset p = Keeps-bind frame _ _ (lock_balance-Frame p.user_id asset) λ b.
    Keeps-bind frame _ _ (insert_entry-Frame (entry_of cid asset p)) λ inserted.
      Keeps-if frame inserted _ _
        (Keeps-bind frame _ _
          (update_balance-Frame p.user_id asset (add_posted p.amount) (λ b. (refl, refl)))
          λ n. Keeps-pure frame 1)
        (Keeps-pure frame 0)

post_all-Frame : (cid asset : String) (ps : List Posting) → Keeps frame (post_all cid asset ps)
unfolding post_all
post_all-Frame cid asset [] = Keeps-pure frame 0
post_all-Frame cid asset (p ∷ ps) =
    Keeps-bind frame _ _ (post_entry-Frame cid asset p)
      λ n. Keeps-bind frame _ _ (post_all-Frame cid asset ps) λ m. Keeps-pure frame _

pub post_entries-Frame :
    (cid asset : String) (ps : List Posting) → Keeps frame (post_entries cid asset ps)
unfolding post_entries
post_entries-Frame cid asset ps = post_all-Frame cid asset _

pub release_hold-Frame : (u : ℕ) (a : String) (x : ℤ) → Keeps frame (release_hold u a x)
unfolding release_hold
release_hold-Frame u a x =
    Keeps-bind frame _ _ (update_balance-Frame u a _ (λ b. (refl, refl))) λ n. Keeps-pure frame tt
