-- ===== src/Wallet/Transfers/Insert.antt =====
-- The insert of a new transfer, and what it does to the invariant.
use mini_crypto_wallet.Base.{
  ℕ, ◌≡◌, refl, sym, subst, inl, inr, ◌∙◌, ap, Bool, true, false, none, some, List, [], ◌∷◌, ◌++◌,
  String, str_eq, arith, Bool-cases, Option-cases, if◌then◌else◌,
}
use mini_crypto_wallet.Base.Int.{◌+ℤ◌, ◌≤ℤ◌, int_laws}
use mini_crypto_wallet.Base.Table.{find?, any, or_else, find?-append, sum-append}
use mini_crypto_wallet.Base.Result.{ok, ok-injective}
use mini_crypto_wallet.Wallet.Models.{
  WalletDb, Transfer, EntryType, transfer_check, find_transfer, is_transfer,
}
use mini_crypto_wallet.Wallet.Ledger.Rows.{posted_of, reserved_of, Checked}
use mini_crypto_wallet.Wallet.Ledger.Round.{at}
use mini_crypto_wallet.Wallet.Transfers.{insert_transfer, clashes}
use mini_crypto_wallet.Wallet.Transfers.Save.{Postings-same, str_eq_refl}
use mini_crypto_wallet.Wallet.Transfers.Settle.{hold_of_open}
use mini_crypto_wallet.Wallet.Invariant.{Inv, is_open, held, AllSound, Postings, has_transfer_entry}

find?-none :
    (p q : Transfer → Bool) (ts : List Transfer)
    → ((t : Transfer) → q t ≡ true → p t ≡ true)
    → any p ts ≡ false
    → find? q ts ≡ none
find?-none p q [] imp h = refl
find?-none p q (t ∷ ts) imp h = elim (Bool-cases (q t)) [
  | inl k ↦ cc (rw (imp t k) at h)
  | inr k ↦ elim (Bool-cases (p t)) [
    | inl k' ↦ cc (rw k' at h)
    | inr k' ↦ rw k (find?-none p q ts imp (rw k' at h))
  ]
]

AllSound-append :
    (ts : List Transfer) (t : Transfer)
    → AllSound ts
    → transfer_check t ≡ true
    → AllSound (ts ++ t ∷ [])
AllSound-append [] t h k = (k, tt)
AllSound-append (x ∷ ts) t h k = (h.0, AllSound-append ts t h.1 k)

abbrev pub inserted : Transfer → WalletDb → WalletDb
inserted t db = record db { transfers = db.transfers ++ t ∷ [] }

-- An insert succeeds only for a row that the constraints allow.
pub insert_transfer_lem :
    (t : Transfer) (db db' : WalletDb)
    → insert_transfer t db ≡ ok (tt, db')
    → (db' ≡ inserted t db) × (any (clashes t) db.transfers ≡ false) × (transfer_check t ≡ true)
unfolding insert_transfer
insert_transfer_lem t db db' h = elim (Bool-cases (any (clashes t) db.transfers)) [
  | inl k ↦ cc (rw k at h)
  | inr k ↦ elim (Bool-cases (transfer_check t)) [
    | inl k' ↦ (sym (ok-injective _ _ _ _ (rw (k, k') at h)).1, k, k')
    | inr k' ↦ cc (rw (k, k') at h)
  ]
]

-- What a new transfer leaves behind: the amount is reserved for it, and was available before.
pub record Created (t : Transfer) (db db' : WalletDb) : Type 0 where
  pub covered :
      reserved_of t.from_user_id t.asset db +ℤ t.amount ≤ℤ posted_of t.from_user_id t.asset db
  pub posted : (u : ℕ) (a : String) → posted_of u a db' ≡ posted_of u a db
  pub reserved :
      (u : ℕ) (a : String)
      → reserved_of u a db' ≡ reserved_of u a db +ℤ at t.from_user_id t.asset t.amount u a
  pub stored : find_transfer t.id db' ≡ some t
  pub inv : Inv db → Inv db'

module _ (t : Transfer) (db db1 : WalletDb) (open_t : is_open t ≡ true)
    (new : any (clashes t) db.transfers ≡ false) (good : transfer_check t ≡ true)
    (entries : db1.ledger_entries ≡ db.ledger_entries) (transfers : db1.transfers ≡ db.transfers)
    (posted : (u : ℕ) (a : String) → posted_of u a db1 ≡ posted_of u a db)
    (reserved : (u : ℕ) (a : String)
      → reserved_of u a db1 ≡ reserved_of u a db +ℤ at t.from_user_id t.asset t.amount u a)
    (checked : Checked db → Checked db1) where
  new_id : find_transfer t.id db ≡ none
  new_id = find?-none (clashes t) (is_transfer t.id) db.transfers (λ x k. ground arith) new

  found-inserted :
      (id : String)
      → find_transfer id (inserted t db1)
        ≡ or_else (find_transfer id db) (if str_eq t.id id then some t else none)
  found-inserted id = rw (transfers, find?-append)

  held-inserted :
      (u : ℕ) (a : String)
      → held u a (inserted t db1) ≡ held u a db +ℤ at t.from_user_id t.asset t.amount u a
  held-inserted u a = rw (transfers, sum-append, hold_of_open t u a open_t) (omega int_laws)

  Postings-inserted :
      (id : String) → Inv db → Postings id (find_transfer id (inserted t db1)) (inserted t db1)
  Postings-inserted id h = elim (Option-cases (find_transfer id db)) [
    | inr (x, k) ↦
        let still : find_transfer id (inserted t db1) ≡ some x = found-inserted id ∙ rw k in
        subst (λ o. Postings id o (inserted t db1)) (sym still)
          (Postings-same id (some x) db (inserted t db1) (λ u e. rw entries)
            (subst (λ o. Postings id o db) k (h.postings id)))
    | inl k ↦
        let old : Postings id none db = subst (λ o. Postings id o db) k (h.postings id) in
        let none_yet : (u : ℕ) (e : EntryType)
            → has_transfer_entry u e id (inserted t db1) ≡ false =
          λ u e. rw entries (old u e) in
        elim (Bool-cases (str_eq t.id id)) [
          | inl s ↦
              let now_found : find_transfer id (inserted t db1) ≡ some t =
                found-inserted id ∙ rw (k, s) in
              subst (λ o. Postings id o (inserted t db1)) (sym now_found)
                (λ u e i. none_yet u e, λ u i. none_yet u _)
          | inr s ↦
              let still_none : find_transfer id (inserted t db1) ≡ none =
                found-inserted id ∙ rw (k, s) in
              subst (λ o. Postings id o (inserted t db1)) (sym still_none) none_yet
        ]
  ]

  pub Created-of :
      reserved_of t.from_user_id t.asset db +ℤ t.amount ≤ℤ posted_of t.from_user_id t.asset db
      → Created t db (inserted t db1)
  Created-of covered = record {
    covered = covered;
    posted = posted;
    reserved = reserved;
    stored = found-inserted t.id ∙ rw (new_id, str_eq_refl t.id);
    inv = λ h. record {
      reconciled = λ u a. rw entries (posted u a ∙ h.reconciled u a);
      checked = checked h.checked;
      holds = λ u a.
          reserved u a
          ∙ ap (λ x. x +ℤ at t.from_user_id t.asset t.amount u a) (h.holds u a)
          ∙ sym (held-inserted u a);
      sound = rw transfers (AllSound-append db.transfers t h.sound good);
      postings = λ id. Postings-inserted id h;
    };
  }
