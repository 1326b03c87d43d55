-- ===== src/Wallet/Transfers/Save.antt =====
-- The write of one changed transfer, and what it does to the holds.
use mini_crypto_wallet.Base.{
  ℕ, ◌≡◌, refl, sym, subst, inl, inr, ◌⊎◌, ◌∙◌, ap, true, false, Option, none, some, String, str_eq,
  arith, eq_iff, Bool-cases, Option-cases,
}
use mini_crypto_wallet.Base.Int.{pos, ◌+ℤ◌, ◌≤ℤ◌, +ℤ_cancel_right}
use mini_crypto_wallet.Base.Table.{
  find?, sum-update, find?-update_self, find?-update_ne, find?_sound,
}
use mini_crypto_wallet.Wallet.Models.{
  WalletDb, Transfer, EntryType, is_transfer, transfer_check, find_transfer, save_transfer,
}
use mini_crypto_wallet.Wallet.Ledger.Rows.{posted_of, reserved_of, Checked}
use mini_crypto_wallet.Wallet.Models.{find_balance, Balance}
use mini_crypto_wallet.Wallet.Ledger.Holds.{Checked_bounds}
use mini_crypto_wallet.Wallet.Invariant.{
  hold_in, held, AllSound, Postings, has_transfer_entry, update_sound, Inv,
}
use mini_crypto_wallet.Wallet.Ledger.Laws.{Reconciled}

-- The id of a transfer that was found by it.
pub find_transfer_id :
    (id : String) (db : WalletDb) (t : Transfer) → find_transfer id db ≡ some t → t.id ≡ id
find_transfer_id id db t h = (eq_iff t.id id).0 (find?_sound (is_transfer id) db.transfers t h)

pub str_eq_refl : (s : String) → str_eq s s ≡ true
str_eq_refl s = (eq_iff s s).1 refl

module _ (t t' : Transfer) (db : WalletDb) (same_id : t'.id ≡ t.id)
    (found : find_transfer t.id db ≡ some t) where
  pub find_transfer-save_self : find_transfer t.id (save_transfer t' db) ≡ some t'
  unfolding save_transfer
  find_transfer-save_self =
      subst (λ i. find_transfer i (save_transfer t' db) ≡ some t') same_id
        (find?-update_self (is_transfer t'.id) (λ old. t') db.transfers t
          (subst (λ i. find_transfer i db ≡ some t) (sym same_id) found) (str_eq_refl t'.id))

  pub find_transfer-save_ne :
      (id : String)
      → str_eq t.id id ≡ false
      → find_transfer id (save_transfer t' db) ≡ find_transfer id db
  unfolding save_transfer
  find_transfer-save_ne id ne =
      find?-update_ne (is_transfer id) (is_transfer t'.id) (λ old. t') db.transfers
        (λ x hx.
          (ground (arith, eq_iff x.id t'.id, eq_iff x.id id, eq_iff t.id id), rw (same_id) ne))

  pub held-save :
      (u : ℕ) (a : String)
      → held u a (save_transfer t' db) +ℤ hold_in u a t ≡ held u a db +ℤ hold_in u a t'
  unfolding save_transfer
  held-save u a =
      sum-update (hold_in u a) (is_transfer t'.id) (λ old. t') db.transfers t
        (subst (λ i. find_transfer i db ≡ some t) (sym same_id) found)

  pub save-AllSound :
      transfer_check t' ≡ true → AllSound db.transfers → AllSound (save_transfer t' db).transfers
  unfolding save_transfer
  save-AllSound good h = update_sound (is_transfer t'.id) (λ old. t') db.transfers (λ x hx. good) h

-- The postings of a transfer are a matter of the ledger entries alone.
pub Postings-same :
    (id : String) (o : Option Transfer) (db db' : WalletDb)
    → ((u : ℕ) (e : EntryType) → has_transfer_entry u e id db' ≡ has_transfer_entry u e id db)
    → Postings id o db
    → Postings id o db'
Postings-same id none db db' same h = λ u e. same u e ∙ h u e
Postings-same id (some t) db db' same h = (λ u e k. same u e ∙ h.0 u e k, λ u k. same u _ ∙ h.1 u k)

-- The check constraints, for rows that may be missing.
pub balance_bounds :
    (u : ℕ) (a : String) (db : WalletDb)
    → Checked db
    → (pos 0 ≤ℤ reserved_of u a db) × (reserved_of u a db ≤ℤ posted_of u a db)
balance_bounds u a db h = elim (Option-cases (find_balance u a db)) [
  | inl e ↦ rw e (omega arith)
  | inr (b, e) ↦ rw e (Checked_bounds u a db b h e)
]

-- Where funds are reserved there is a row.
pub find_reserved :
    (u : ℕ) (a : String) (db : WalletDb)
    → pos 1 ≤ℤ reserved_of u a db
    → (b : Balance) × (find_balance u a db ≡ some b)
find_reserved u a db h = elim (Option-cases (find_balance u a db)) [
  | inl e ↦ absurd (omega (arith, rw e at h))
  | inr found ↦ found
]

-- Saving a changed transfer keeps the invariant, if the holds and the postings of its new state are
-- as they should be.
pub save-Inv :
    (t t' : Transfer) (db db' : WalletDb)
    → t'.id ≡ t.id
    → find_transfer t.id db ≡ some t
    → transfer_check t' ≡ true
    → Inv db
    → db'.transfers ≡ db.transfers
    → Reconciled db'
    → Checked db'
    → ((u : ℕ) (a : String)
        → reserved_of u a db' +ℤ hold_in u a t ≡ reserved_of u a db +ℤ hold_in u a t')
    → Postings t.id (some t') db'
    → ((id : String) → str_eq t.id id ≡ false → Postings id (find_transfer id db) db')
    → Inv (save_transfer t' db')
save-Inv t t' db db' same_id found good h same_ts reconciled checked reserved own others =
    let found' : find_transfer t.id db' ≡ some t = rw same_ts found in
    record {
      reconciled = unfold save_transfer in reconciled;
      checked = unfold save_transfer in checked;
      holds = λ u a. holds u a;
      sound = save-AllSound t t' db' same_id found' good (rw same_ts (h.sound));
      postings = λ id. own_or_other id (Bool-cases (str_eq t.id id));
    }
  where
    found_in : find_transfer t.id db' ≡ some t
    found_in = rw same_ts found

    holds :
        (u : ℕ) (a : String)
        → reserved_of u a (save_transfer t' db') ≡ held u a (save_transfer t' db')
    holds u a =
        let same : held u a db' ≡ reserved_of u a db = rw same_ts (sym (h.holds u a)) in
        unfold save_transfer in
        +ℤ_cancel_right (hold_in u a t) (reserved_of u a db') _ (
          reserved u a
          ∙ ap (λ x. x +ℤ hold_in u a t') (sym same)
          ∙ sym (held-save t t' db' same_id found_in u a))

    own_or_other :
        (id : String)
        → (str_eq t.id id ≡ true) ⊎ (str_eq t.id id ≡ false)
        → Postings id (find_transfer id (save_transfer t' db')) (save_transfer t' db')
    own_or_other id (inl k) =
        subst (λ i. Postings i (find_transfer i (save_transfer t' db')) (save_transfer t' db'))
          ((eq_iff t.id id).0 k)
          (subst (λ o. Postings t.id o (save_transfer t' db'))
            (sym (find_transfer-save_self t t' db' same_id found_in)) (unfold save_transfer in own))
    own_or_other id (inr k) =
        subst (λ o. Postings id o (save_transfer t' db'))
          (sym (find_transfer-save_ne t t' db' same_id found_in id k))
          (Postings-same id (find_transfer id db') db' (save_transfer t' db')
            (λ u e. unfold save_transfer in refl)
            (subst (λ ts. Postings id (find? (is_transfer id) ts) db') (sym same_ts) (others id k)))
