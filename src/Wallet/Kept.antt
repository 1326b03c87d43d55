-- ===== src/Wallet/Kept.antt =====
-- The invariant across the handlers of events.
use mini_crypto_wallet.Base.{
  ℕ, ◌+◌, ◌≡◌, refl, sym, subst, inl, inr, ◌∙◌, true, false, some, [], ◌∷◌, String, arith,
  Bool-cases, Option-cases, if◌then◌else◌,
}
use mini_crypto_wallet.Base.Int.{neg}
use mini_crypto_wallet.Base.Table.{any-append, find?}
use mini_crypto_wallet.Base.Result.{
  Tx, Result, ok, pure, bind-eq-ok, ok-injective, key_error, value_error, ◌>>=◌, if_none, modify,
  ◌>>◌,
}
use mini_crypto_wallet.Base.Keeps.{
  Order, Keeps, Keeps-pure, Keeps-gets, Keeps-or_raise, Keeps-if, Keeps-if_none, Keeps-bind,
}
use mini_crypto_wallet.Common.Events.{Payload, EventEnvelope, get, show, int_of}
use mini_crypto_wallet.Wallet.Models.{
  WalletDb, Transfer, EntryType, deposit, reversal, is_terminal, find_transfer, save_transfer,
  is_transfer, is_entry,
}
use mini_crypto_wallet.Wallet.Users.{wallet_by_address}
use mini_crypto_wallet.Wallet.Ledger.{Posting, entry_of, post_all, post_entries}
use mini_crypto_wallet.Wallet.Ledger.Round.{PostEffect, post_entry-PostEffect, is_posted}
use mini_crypto_wallet.Wallet.Ledger.Laws.{post_entry-Reconciled}
use mini_crypto_wallet.Wallet.Transfers.{
  Outcome, processed, duplicate, ignored, load_for_update, settle_transfer, fail_transfer,
  mark_broadcasted, broadcasted_transfer,
}
use mini_crypto_wallet.Wallet.Transfers
use mini_crypto_wallet.Wallet.Transfers.Load.{load_for_update_lem}
use mini_crypto_wallet.Wallet.Transfers.Save.{save-Inv, Postings-same}
use mini_crypto_wallet.Wallet.Transfers.Handlers.{settle_transfer_lem, fail_transfer_lem}
use mini_crypto_wallet.Wallet.Deposits.{
  chain_reference, reference_id, amount_units, credit_deposit, reverse_deposit, deposit_posting,
  outcome_of,
}
use mini_crypto_wallet.Wallet.Deposits
use mini_crypto_wallet.Wallet.Dispatcher.{handle}
use mini_crypto_wallet.Wallet.Invariant.{Inv, is_open, Postings, has_transfer_entry, find_sound}

abbrev pub inv : Order WalletDb
inv = record { to = λ s t. Inv s → Inv t; same = λ s h. h; trans = λ s t u p q h. q (p h) }

-- A found transfer, with the state that it was loaded from.
loaded_at :
    (payload : Payload) (t : Transfer) (db db1 : WalletDb)
    → load_for_update payload db ≡ ok (some t, db1)
    → load_for_update payload db ≡ ok (some t, db)
loaded_at payload t db db1 e =
    subst (λ d. load_for_update payload db ≡ ok (some t, d))
      (load_for_update_lem payload (some t) db db1 e).0 e

-- A handler that loads a transfer keeps the invariant, if it does so for a transfer that is found.
load-Keeps :
    (payload : Payload) (work : Transfer → Tx WalletDb Outcome)
    → ((t : Transfer) (out : Outcome) (db db' : WalletDb)
        → load_for_update payload db ≡ ok (some t, db)
        → work t db ≡ ok (out, db')
        → Inv db
        → Inv db')
    → Keeps inv (load_for_update payload >>= λ found. if_none found (pure ignored) work)
load-Keeps payload work keep out db db' e h =
    let (o, db1, loaded, rest) = bind-eq-ok (load_for_update payload db) _ out db' e in
    let same = (load_for_update_lem payload o db db1 loaded).0 in
    elim (Option-cases o) [
      | inl k ↦ subst Inv (sym same ∙ (ok-injective _ _ _ _ (rw k at rest)).1) h
      | inr (t, k) ↦
          keep t out db db' (loaded_at payload t db db1 (rw k at loaded))
            (subst (λ d. work t d ≡ ok (out, db')) same (rw k at rest)) h
    ]

-- The same database from two accounts of one call.
same_end :
    (r : Result (Outcome × WalletDb)) (a b : Outcome) (s t : WalletDb)
    → r ≡ ok (a, s)
    → r ≡ ok (b, t)
    → Inv s
    → Inv t
same_end r a b s t e e' h = subst Inv (ok-injective _ _ _ _ (sym e ∙ e')).1 h

settle_transfer-Inv :
    (cid : String) (now : ℕ) (payload : Payload) → Keeps inv (settle_transfer cid now payload)
unfolding settle_transfer
settle_transfer-Inv cid now payload out db db' e h =
    let whole = settle_transfer cid now payload db in
    let (o, db1, loaded, rest) = bind-eq-ok (load_for_update payload db) _ out db' e in
    let same = (load_for_update_lem payload o db db1 loaded).0 in
    elim (Option-cases o) [
      | inl k ↦ subst Inv (sym same ∙ (ok-injective _ _ _ _ (rw k at rest)).1) h
      | inr (t, k) ↦
          elim (settle_transfer_lem cid now payload t db h
            (loaded_at payload t db db1 (rw k at loaded))) [
              | inl (open_t, (db2, e2, effects)) ↦
                  same_end whole processed out db2 db' e2 e effects.0
              | inr (inl (s, e2)) ↦ same_end whole duplicate out db db' e2 e h
              | inr (inr (s, e2)) ↦ same_end whole ignored out db db' e2 e h
            ]
    ]

fail_transfer-Inv : (cid : String) (payload : Payload) → Keeps inv (fail_transfer cid payload)
unfolding fail_transfer
fail_transfer-Inv cid payload out db db' e h =
    let whole = fail_transfer cid payload db in
    let (o, db1, loaded, rest) = bind-eq-ok (load_for_update payload db) _ out db' e in
    let same = (load_for_update_lem payload o db db1 loaded).0 in
    elim (Option-cases o) [
      | inl k ↦ subst Inv (sym same ∙ (ok-injective _ _ _ _ (rw k at rest)).1) h
      | inr (t, k) ↦
          elim (fail_transfer_lem cid payload t db h
            (loaded_at payload t db db1 (rw k at loaded))) [
              | inl (open_t, (db2, e2, effects)) ↦
                  same_end whole processed out db2 db' e2 e effects.0
              | inr (inl (s, inl (a, (db2, e2, effects)))) ↦
                  same_end whole processed out db2 db' e2 e effects.0
              | inr (inl (s, inr (n, e2))) ↦ cc (sym e2 ∙ e)
              | inr (inr (s, e2)) ↦ same_end whole duplicate out db db' e2 e h
            ]
    ]

broadcasted-Inv :
    (payload : Payload) (t : Transfer) (db : WalletDb)
    → find_transfer t.id db ≡ some t
    → is_open t ≡ true
    → Inv db
    → Inv (save_transfer (broadcasted_transfer payload t) db)
broadcasted-Inv payload t db found open_t h =
    save-Inv t (broadcasted_transfer payload t) db db refl found
      (find_sound _ db.transfers t h.sound found) h refl h.reconciled h.checked (λ u a. rw open_t)
      (λ u e k. (subst (λ o. Postings t.id o db) found (h.postings t.id)).0 u e open_t, λ u k. cc)
      (λ id ne. h.postings id)

mark_broadcasted-Inv : (payload : Payload) → Keeps inv (mark_broadcasted payload)
unfolding mark_broadcasted
mark_broadcasted-Inv payload =
    load-Keeps payload
      (λ t.
        if is_terminal t.status
        then pure duplicate
        else modify (save_transfer (broadcasted_transfer payload t)) >> pure processed)
      λ t out db db' loaded e h. elim (Bool-cases (is_terminal t.status)) [
        | inl k ↦ subst Inv (ok-injective _ _ _ _ (rw k at e)).1 h
        | inr k ↦ subst Inv (ok-injective _ _ _ _ (rw k at e)).1 (
            broadcasted-Inv payload t db
              ((load_for_update_lem payload (some t) db db loaded).1 t refl) (rw k) h)
      ]

-- A posting of a deposit is not one of a transfer.
deposit_entry :
    (cid asset : String) (p : Posting) (u : ℕ) (k : EntryType) (id : String)
    → p.reference_type ≡ Deposits.reference_type
    → is_entry u k Transfers.reference_type id (entry_of cid asset p) ≡ false
deposit_entry cid asset p u k id r = rw r (ground arith)

deposit_posting-Inv :
    (cid asset : String) (p : Posting) (n : ℕ) (db db' : WalletDb)
    → p.reference_type ≡ Deposits.reference_type
    → PostEffect cid asset p n db db'
    → Inv db
    → Inv db'
deposit_posting-Inv cid asset p n db db' r e h = record {
  reconciled = post_entry-Reconciled cid asset p n db db' e h.reconciled;
  checked = e.checked h.checked;
  holds = λ u a. rw (e.reserved u a, e.transfers) (h.holds u a);
  sound = rw e.transfers (h.sound);
  postings = λ id.
      subst (λ ts. Postings id (find? (is_transfer id) ts) db') (sym e.transfers)
        (Postings-same id (find_transfer id db) db db' (λ u k. same_entries id u k)
          (h.postings id));
}
  where
    same_entries :
        (id : String) (u : ℕ) (k : EntryType)
        → has_transfer_entry u k id db' ≡ has_transfer_entry u k id db
    same_entries id u k = elim (Bool-cases (is_posted p db)) [
      | inl known ↦ rw (e.entries, known)
      | inr new ↦ rw (e.entries, new, any-append, deposit_entry cid asset p u k id r) (ground arith)
    ]

post_deposit-Inv :
    (cid asset : String) (p : Posting)
    → p.reference_type ≡ Deposits.reference_type
    → Keeps inv (post_entries cid asset (p ∷ []))
unfolding post_entries post_all
post_deposit-Inv cid asset p r =
    Keeps-bind inv _ _
      (λ n db db' e h.
        deposit_posting-Inv cid asset p n db db' r (post_entry-PostEffect cid asset p n db db' e) h)
      λ n. Keeps-bind inv _ _ (Keeps-pure inv 0) λ m. Keeps-pure inv (n + m)

amount_units-Inv : (payload : Payload) → Keeps inv (amount_units payload)
unfolding amount_units
amount_units-Inv payload =
    Keeps-bind inv _ _ (Keeps-or_raise inv (get "amount_units" payload) key_error)
      λ v. Keeps-or_raise inv (int_of v) value_error

chain_reference-Inv : (key : String) (payload : Payload) → Keeps inv (chain_reference key payload)
unfolding chain_reference
chain_reference-Inv key payload =
    Keeps-bind inv _ _ (Keeps-or_raise inv (get "network" payload) key_error) λ a.
      Keeps-bind inv _ _ (Keeps-or_raise inv (get "tx_hash" payload) key_error) λ b.
        Keeps-bind inv _ _ (Keeps-or_raise inv (get "log_index" payload) key_error)
          λ c. Keeps-pure inv _

pub credit_deposit-Inv : (cid : String) (payload : Payload) → Keeps inv (credit_deposit cid payload)
unfolding credit_deposit reference_id
credit_deposit-Inv cid payload =
    Keeps-bind inv _ _ (Keeps-or_raise inv (get "to_address" payload) key_error) λ a.
      Keeps-bind inv _ _ (Keeps-gets inv (wallet_by_address (show a))) λ o.
        Keeps-if_none inv o _ _ (Keeps-pure inv ignored) λ w.
          Keeps-bind inv _ _ (amount_units-Inv payload) λ x.
            Keeps-bind inv _ _ (Keeps-or_raise inv (get "asset" payload) key_error) λ b.
              Keeps-bind inv _ _ (chain_reference-Inv "block_hash" payload) λ r.
                Keeps-bind inv _ _
                  (post_deposit-Inv cid (show b) (deposit_posting w.user_id x deposit r) refl)
                  λ n. Keeps-pure inv (outcome_of n)

reverse_deposit-Inv : (cid : String) (payload : Payload) → Keeps inv (reverse_deposit cid payload)
unfolding reverse_deposit
reverse_deposit-Inv cid payload = Keeps-if inv _ _ _ (Keeps-pure inv processed) (
    Keeps-bind inv _ _ (Keeps-or_raise inv (get "to_address" payload) key_error) λ a.
      Keeps-bind inv _ _ (Keeps-gets inv (wallet_by_address (show a))) λ o.
        Keeps-if_none inv o _ _ (Keeps-pure inv ignored) λ w.
          Keeps-bind inv _ _ (amount_units-Inv payload) λ x.
            Keeps-bind inv _ _ (chain_reference-Inv "orphaned_block_hash" payload) λ r.
              Keeps-bind inv _ _ (Keeps-or_raise inv (get "asset" payload) key_error) λ b.
                Keeps-bind inv _ _
                  (post_deposit-Inv cid (show b) (deposit_posting w.user_id (neg x) reversal r)
                    refl)
                  λ n. Keeps-pure inv (outcome_of n))

-- Whatever event is handled, if the handler returns, the invariant still holds.
pub handle-Inv : (now : ℕ) (e : EventEnvelope) → Keeps inv (handle now e)
unfolding handle
handle-Inv now e = Keeps-if inv _ _ _ (Keeps-pure inv processed) (
    Keeps-if inv _ _ _ (credit_deposit-Inv e.correlation_id e.payload) (
      Keeps-if inv _ _ _ (reverse_deposit-Inv e.correlation_id e.payload) (
        Keeps-if inv _ _ _ (mark_broadcasted-Inv e.payload) (
          Keeps-if inv _ _ _ (settle_transfer-Inv e.correlation_id now e.payload) (
            Keeps-if inv _ _ _ (fail_transfer-Inv e.correlation_id e.payload)
              (Keeps-pure inv ignored))))))
