-- ===== src/Wallet/Ledger/Laws.antt =====
-- What `post_entries` keeps: the snapshots agree with the ledger, and a replay, at once or later,
-- changes nothing.
use mini_crypto_wallet.Base.{
  ℕ, ◌≡◌, refl, subst, inl, inr, true, false, some, List, [], ◌∷◌, ◌++◌, String, arith, eq_iff,
  Bool-cases, Option-cases,
}
use mini_crypto_wallet.Base.Int.{ℤ, pos, int_laws, eqb_ℤ}
use mini_crypto_wallet.Base.Table.{sum, sum-append, any-append}
use mini_crypto_wallet.Base.Result.{ok, bind-eq-ok, ok-injective}
use mini_crypto_wallet.Wallet.Models.{
  WalletDb, Wallet, LedgerEntry, EntryType, deposit, transfer_debit, transfer_credit, fee, reversal,
  entry_type_eq, is_entry, find_balance,
}
use mini_crypto_wallet.Wallet.Ledger.{
  Posting, ensure_balance, post_entry, post_all, post_entries, sort_by_user, entry_of, lock_balance,
  insert_entry,
}
use mini_crypto_wallet.Wallet.Users.{wallet_by_address}
use mini_crypto_wallet.Wallet.Ledger.Rows.{posted_of, has_row}
use mini_crypto_wallet.Wallet.Ledger.Round.{PostEffect, post_entry-PostEffect, is_posted, at}

-- What an entry adds to the balance of a user in an asset.
abbrev pub amount_in : ℕ → String → LedgerEntry → ℤ
amount_in u a e = at e.user_id e.asset e.amount u a

abbrev pub ledger_sum : ℕ → String → WalletDb → ℤ
ledger_sum u a db = sum (amount_in u a) db.ledger_entries

-- Each snapshot is the sum of its ledger entries.
abbrev pub Reconciled : WalletDb → Type 0
Reconciled db = (u : ℕ) (a : String) → posted_of u a db ≡ ledger_sum u a db

pub post_entry-Reconciled :
    (cid asset : String) (p : Posting) (n : ℕ) (db db' : WalletDb)
    → PostEffect cid asset p n db db'
    → Reconciled db
    → Reconciled db'
post_entry-Reconciled cid asset p n db db' e h u a = elim (Bool-cases (is_posted p db)) [
  | inl k ↦ rw (e.entries, e.posted u a, k) (h u a)
  | inr k ↦ rw (e.entries, e.posted u a, k, sum-append, h u a) (omega int_laws)
]

-- Induction over the rounds: what every round keeps, the loop keeps.
pub post_all_keeps :
    (P : WalletDb → Type 0) (cid asset : String)
    → ((p : Posting) (n : ℕ) (db db' : WalletDb) → PostEffect cid asset p n db db' → P db → P db')
    → (ps : List Posting) (n : ℕ) (db db' : WalletDb) → post_all cid asset ps db ≡ ok (n, db')
    → P db
    → P db'
unfolding post_all
post_all_keeps P cid asset keep [] n db db' h pdb = subst P (ok-injective _ _ _ _ h).1 pdb
post_all_keeps P cid asset keep (p ∷ ps) n db db' h pdb =
    let (k, db1, one, rest) = bind-eq-ok (post_entry cid asset p db) _ n db' h in
    let (m, db2, all, last) = bind-eq-ok (post_all cid asset ps db1) _ n db' rest in
    subst P (ok-injective _ _ _ _ last).1 (
      post_all_keeps P cid asset keep ps m db1 db2 all
        (keep p k db db1 (post_entry-PostEffect cid asset p k db db1 one) pdb))

-- Whatever `post_entries` is given, if it returns, the snapshots still agree with the ledger.
pub post_entries-Reconciled :
    (cid asset : String) (ps : List Posting) (n : ℕ) (db db' : WalletDb)
    → post_entries cid asset ps db ≡ ok (n, db')
    → Reconciled db
    → Reconciled db'
unfolding post_entries
post_entries-Reconciled cid asset ps n db db' h =
    post_all_keeps Reconciled cid asset (post_entry-Reconciled cid asset) (sort_by_user ps) n db db'
      h

-- The posting is in the ledger and its balance row is there, so that a round skips it.
abbrev Done : String → Posting → WalletDb → Type 0
Done asset p db =
    (eqb_ℤ p.amount (pos 0) ≡ false) × (is_posted p db ≡ true) × (has_row p.user_id asset db ≡ true)

is_posted-append :
    (q : Posting) (db db' : WalletDb) (es : List LedgerEntry)
    → db'.ledger_entries ≡ db.ledger_entries ++ es
    → is_posted q db ≡ true
    → is_posted q db' ≡ true
is_posted-append q db db' es e h = rw (e, any-append, h)

entry_type_eq_refl : (t : EntryType) → entry_type_eq t t ≡ true
entry_type_eq_refl deposit = refl
entry_type_eq_refl transfer_debit = refl
entry_type_eq_refl transfer_credit = refl
entry_type_eq_refl fee = refl
entry_type_eq_refl reversal = refl

is_entry_self :
    (cid asset : String) (p : Posting)
    → is_entry p.user_id p.entry_type p.reference_type p.reference_id (entry_of cid asset p) ≡ true
is_entry_self cid asset p =
    rw (entry_type_eq_refl) (
      ground
        (arith, eq_iff p.reference_type p.reference_type, eq_iff p.reference_id p.reference_id))

post_entry-Done :
    (cid asset : String) (p q : Posting) (n : ℕ) (db db' : WalletDb)
    → PostEffect cid asset p n db db'
    → Done asset q db
    → Done asset q db'
post_entry-Done cid asset p q n db db' e h = elim (Bool-cases (is_posted p db)) [
  | inl k ↦ (h.0, rw (e.entries, k) (h.1), e.rows q.user_id asset h.2)
  | inr k ↦ (h.0, rw (e.entries, k, any-append, h.1), e.rows q.user_id asset h.2)
]

post_entry-Done' :
    (cid asset : String) (p : Posting) (n : ℕ) (db db' : WalletDb)
    → PostEffect cid asset p n db db'
    → Done asset p db'
post_entry-Done' cid asset p n db db' e = elim (Bool-cases (is_posted p db)) [
  | inl k ↦ (e.nonzero, rw (e.entries, k) k, e.row)
  | inr k ↦ (e.nonzero, rw (e.entries, k, any-append, is_entry_self cid asset p, k), e.row)
]

post_entry_skips :
    (cid asset : String) (p : Posting) (db : WalletDb)
    → Done asset p db
    → post_entry cid asset p db ≡ ok (0, db)
unfolding post_entry lock_balance ensure_balance insert_entry
post_entry_skips cid asset p db (nz, known, row) =
    elim (Option-cases (find_balance p.user_id asset db)) [
      | inl e ↦ cc (rw e at row)
      | inr (b, e) ↦ rw (row, e, nz, known)
    ]

-- Every posting of a list is in the ledger.
abbrev AllDone : String → List Posting → WalletDb → Type 0
AllDone asset [] db = Unit
AllDone asset (p ∷ ps) db = Done asset p db × AllDone asset ps db

post_all_skips :
    (cid asset : String) (ps : List Posting) (db : WalletDb)
    → AllDone asset ps db
    → post_all cid asset ps db ≡ ok (0, db)
unfolding post_all
post_all_skips cid asset [] db h = refl
post_all_skips cid asset (p ∷ ps) db h =
    rw (post_entry_skips cid asset p db h.0, post_all_skips cid asset ps db h.1)

post_all_done :
    (cid asset : String) (ps : List Posting) (n : ℕ) (db db' : WalletDb)
    → post_all cid asset ps db ≡ ok (n, db')
    → AllDone asset ps db'
unfolding post_all
post_all_done cid asset [] n db db' h = tt
post_all_done cid asset (p ∷ ps) n db db' h =
    let (k, db1, one, rest) = bind-eq-ok (post_entry cid asset p db) _ n db' h in
    let (m, db2, all, last) = bind-eq-ok (post_all cid asset ps db1) _ n db' rest in
    let done =
      post_entry-Done' cid asset p k db db1 (post_entry-PostEffect cid asset p k db db1 one) in
    subst (AllDone asset (p ∷ ps)) (ok-injective _ _ _ _ last).1 (
      post_all_keeps (Done asset p) cid asset (λ q. post_entry-Done cid asset q p) ps m db1 db2 all
          done,
      post_all_done cid asset ps m db1 db2 all,
    )

-- Postings that were written once are not written again: the same call on the database that it
-- left, under any correlation id, returns 0 and changes nothing.
pub post_entries_replay :
    (cid cid' asset : String) (ps : List Posting) (n : ℕ) (db db' : WalletDb)
    → post_entries cid asset ps db ≡ ok (n, db')
    → post_entries cid' asset ps db' ≡ ok (0, db')
unfolding post_entries
post_entries_replay cid cid' asset ps n db db' h =
    post_all_skips cid' asset (sort_by_user ps) db'
      (post_all_done cid asset (sort_by_user ps) n db db' h)

-- A database later on: the ledger, which is append-only, and the balances have lost no row, and an
-- address is still that of its wallet.
pub record Later (db db' : WalletDb) : Type 0 where
  pub entries : (p : Posting) → is_posted p db ≡ true → is_posted p db' ≡ true
  pub rows : (u : ℕ) (a : String) → has_row u a db ≡ true → has_row u a db' ≡ true
  pub wallets :
      (address : String) (w : Wallet)
      → wallet_by_address address db ≡ some w
      → wallet_by_address address db' ≡ some w

Later-AllDone :
    (asset : String) (ps : List Posting) (db db' : WalletDb)
    → Later db db'
    → AllDone asset ps db
    → AllDone asset ps db'
Later-AllDone asset [] db db' l h = tt
Later-AllDone asset (p ∷ ps) db db' l ((nz, known, row), h) =
    ((nz, l.entries p known, l.rows p.user_id asset row), Later-AllDone asset ps db db' l h)

-- Postings that were written once are not written again later on either.
pub post_entries-Later :
    (cid cid' asset : String) (ps : List Posting) (n : ℕ) (db db' db'' : WalletDb)
    → post_entries cid asset ps db ≡ ok (n, db')
    → Later db' db''
    → post_entries cid' asset ps db'' ≡ ok (0, db'')
unfolding post_entries
post_entries-Later cid cid' asset ps n db db' db'' h l =
    post_all_skips cid' asset (sort_by_user ps) db'' (
      Later-AllDone asset (sort_by_user ps) db' db'' l
        (post_all_done cid asset (sort_by_user ps) n db db' h))
