-- ===== src/Wallet/Ledger/Pair.antt =====
-- Two new postings for two users, in whichever order the ids put them: both are written.
use mini_crypto_wallet.Base.{
  ℕ, ◌==◌, ◌≡◌, ◌≢◌, refl, sym, inl, inr, ◌∙◌, ap, Bool, true, false, ◌||◌, [], ◌∷◌, String, arith,
  Bool-cases, leb,
}
use mini_crypto_wallet.Base.Int.{pos, ◌+ℤ◌, ◌≤ℤ◌, eqb_ℤ, int_laws}
use mini_crypto_wallet.Base.Table.{any-append}
use mini_crypto_wallet.Base.Result.{ok, err, integrity_error}
use mini_crypto_wallet.Wallet.Models.{WalletDb, EntryType, is_entry, has_entry, update_balance}
use mini_crypto_wallet.Wallet.Ledger.{
  Posting, ensure_balance, insert_entry, post_entry, post_all, post_entries, entry_of, add_posted,
}
use mini_crypto_wallet.Wallet.Ledger.Rows.{
  posted_of, reserved_of, posted_or_zero, reserved_or_zero, has_row, Checked, posted_of-ensure,
  reserved_of-ensure, ensure-Checked,
}
use mini_crypto_wallet.Wallet.Ledger.Round.{
  at, is_posted, PostEffect, post_entry-PostEffect, lock_balance_lem, ensure_entries, written,
}
use mini_crypto_wallet.Wallet.Ledger.Holds.{Checked_bounds, balance_check_of, not_balance_check}
use mini_crypto_wallet.Wallet.Ledger.Laws.{Reconciled, post_entry-Reconciled}

-- The balance of the posting's user stays above what is reserved.
abbrev pub Covered : String → Posting → WalletDb → Type 0
Covered asset p db = reserved_of p.user_id asset db ≤ℤ posted_of p.user_id asset db +ℤ p.amount

-- A new posting that leaves the reserved funds covered is written.
pub post_entry_writes :
    (cid asset : String) (p : Posting) (db : WalletDb)
    → Checked db
    → eqb_ℤ p.amount (pos 0) ≡ false
    → is_posted p db ≡ false
    → Covered asset p db
    → (db' : WalletDb) × (post_entry cid asset p db ≡ ok (1, db'))
unfolding post_entry insert_entry update_balance
post_entry_writes cid asset p db h nz fresh covered =
    let (b, found, locked) = lock_balance_lem p.user_id asset db in
    let ensured = ensure_balance p.user_id asset db in
    let (low, high) =
      Checked_bounds p.user_id asset ensured b (ensure-Checked p.user_id asset db h) found in
    let same_posted : b.posted ≡ posted_of p.user_id asset db =
      sym (ap posted_or_zero found) ∙ posted_of-ensure p.user_id p.user_id asset asset db in
    let same_reserved : b.reserved ≡ reserved_of p.user_id asset db =
      sym (ap reserved_or_zero found) ∙ reserved_of-ensure p.user_id p.user_id asset asset db in
    let good =
      balance_check_of (add_posted p.amount b) low (rw (same_posted, same_reserved) covered) in
    (written cid asset p db, rw (locked, nz, ensure_entries p.user_id asset db, fresh, found, good))

-- A new posting that would uncover the reserved funds raises.
pub post_entry_raises :
    (cid asset : String) (p : Posting) (db : WalletDb)
    → eqb_ℤ p.amount (pos 0) ≡ false
    → is_posted p db ≡ false
    → ¬ (Covered asset p db)
    → post_entry cid asset p db ≡ err integrity_error
unfolding post_entry insert_entry update_balance
post_entry_raises cid asset p db nz fresh uncovered =
    let (b, found, locked) = lock_balance_lem p.user_id asset db in
    let same_posted : b.posted ≡ posted_of p.user_id asset db =
      sym (ap posted_or_zero found) ∙ posted_of-ensure p.user_id p.user_id asset asset db in
    let same_reserved : b.reserved ≡ reserved_of p.user_id asset db =
      sym (ap reserved_or_zero found) ∙ reserved_of-ensure p.user_id p.user_id asset asset db in
    let bad =
      not_balance_check (add_posted p.amount b)
        (λ covered. uncovered (rw (same_posted, same_reserved) at covered)) in
    rw (locked, nz, ensure_entries p.user_id asset db, fresh, found, bad)

-- What writing both postings does.
pub record Pair (cid asset : String) (p q : Posting) (db db' : WalletDb) : Type 0 where
  pub posted :
      (u : ℕ) (a : String)
      → posted_of u a db'
        ≡ posted_of u a db +ℤ at p.user_id asset p.amount u a +ℤ at q.user_id asset q.amount u a
  pub reserved : (u : ℕ) (a : String) → reserved_of u a db' ≡ reserved_of u a db
  pub others :
      (u : ℕ) (t : EntryType) (rt ref : String)
      → is_entry u t rt ref (entry_of cid asset p) ≡ false
      → is_entry u t rt ref (entry_of cid asset q) ≡ false
      → has_entry u t rt ref db' ≡ has_entry u t rt ref db
  pub transfers : db'.transfers ≡ db.transfers
  pub checked : Checked db → Checked db'
  pub reconciled : Reconciled db → Reconciled db'
  pub rows : (u : ℕ) (a : String) → has_row u a db ≡ true → has_row u a db' ≡ true

Pair-swap :
    {cid asset : String} {p q : Posting} {db db' : WalletDb}
    → Pair cid asset q p db db'
    → Pair cid asset p q db db'
Pair-swap h = record {
  posted = λ u a. h.posted u a ∙ omega int_laws;
  reserved = h.reserved;
  others = λ u t rt ref e f. h.others u t rt ref f e;
  transfers = h.transfers;
  checked = h.checked;
  reconciled = h.reconciled;
  rows = h.rows;
}

or_false-false : (b : Bool) → ((b || false) || false) ≡ b
or_false-false true = refl
or_false-false false = refl

Pair-of :
    (cid asset : String) (p q : Posting) (m n : ℕ) (db db1 db' : WalletDb)
    → is_posted p db ≡ false
    → is_posted q db1 ≡ false
    → PostEffect cid asset p m db db1
    → PostEffect cid asset q n db1 db'
    → Pair cid asset p q db db'
Pair-of cid asset p q m n db db1 db' fp fq e f = record {
  posted = λ u a. rw (f.posted u a, fq, e.posted u a, fp);
  reserved = λ u a. f.reserved u a ∙ e.reserved u a;
  others = λ u t rt ref hp hq.
      rw (f.entries, fq, any-append, hq, e.entries, fp, any-append, hp) (or_false-false _);
  transfers = f.transfers ∙ e.transfers;
  checked = λ h. f.checked (e.checked h);
  reconciled = λ h.
      post_entry-Reconciled cid asset q n db1 db' f
        (post_entry-Reconciled cid asset p m db db1 e h);
  rows = λ u a h. f.rows u a (e.rows u a h);
}

-- A round for another user leaves the posting as new and as covered as it was.
module _ (cid asset : String) (p q : Posting) (n : ℕ) (db db1 : WalletDb)
    (ne : p.user_id ≢ q.user_id) (e : PostEffect cid asset p n db db1)
    (fp : is_posted p db ≡ false) where
  other : (p.user_id == q.user_id) ≡ false
  other = ground arith

  still_new : is_posted q db ≡ false → is_posted q db1 ≡ false
  still_new fq = rw (e.entries, fp, any-append, fq, other)

  still_covered : Covered asset q db → Covered asset q db1
  still_covered covered =
      rw (e.reserved q.user_id asset, e.posted q.user_id asset, fp, other) (omega int_laws)

  before : Covered asset q db1 → Covered asset q db
  before covered =
      let c = rw (e.reserved q.user_id asset, e.posted q.user_id asset, fp, other) at covered in
      omega int_laws

post_two :
    (cid asset : String) (p q : Posting) (db : WalletDb)
    → p.user_id ≢ q.user_id
    → Checked db
    → eqb_ℤ p.amount (pos 0) ≡ false
    → eqb_ℤ q.amount (pos 0) ≡ false
    → is_posted p db ≡ false
    → is_posted q db ≡ false
    → Covered asset p db
    → Covered asset q db
    → (db' : WalletDb) × (post_all cid asset (p ∷ q ∷ []) db ≡ ok (2, db'))
      × Pair cid asset p q db db'
unfolding post_all
post_two cid asset p q db ne h zp zq fp fq cp cq =
    let (db1, one) = post_entry_writes cid asset p db h zp fp cp in
    let e = post_entry-PostEffect cid asset p 1 db db1 one in
    let fq1 = still_new cid asset p q 1 db db1 ne e fp fq in
    let cq1 = still_covered cid asset p q 1 db db1 ne e fp cq in
    let (db2, two) = post_entry_writes cid asset q db1 (e.checked h) zq fq1 cq1 in
    let f = post_entry-PostEffect cid asset q 1 db1 db2 two in
    (db2, rw (one, two), Pair-of cid asset p q 1 1 db db1 db2 fp fq1 e f)

-- Both postings are written, whichever user has the smaller id.
pub post_entries-Pair :
    (cid asset : String) (p q : Posting) (db : WalletDb)
    → p.user_id ≢ q.user_id
    → Checked db
    → eqb_ℤ p.amount (pos 0) ≡ false
    → eqb_ℤ q.amount (pos 0) ≡ false
    → is_posted p db ≡ false
    → is_posted q db ≡ false
    → Covered asset p db
    → Covered asset q db
    → (db' : WalletDb) × (post_entries cid asset (p ∷ q ∷ []) db ≡ ok (2, db'))
      × Pair cid asset p q db db'
unfolding post_entries
post_entries-Pair cid asset p q db ne h zp zq fp fq cp cq =
    elim (Bool-cases (leb p.user_id q.user_id)) [
      | inl k ↦ rw k (post_two cid asset p q db ne h zp zq fp fq cp cq)
      | inr k ↦
          let (db', e, pair) = post_two cid asset q p db (λ x. ne (sym x)) h zq zp fq fp cq cp in
          rw k (db', e, Pair-swap pair)
    ]

-- If one of two new postings for two users would uncover the reserved funds, nothing is posted.
pub post_pair_raises :
    (cid asset : String) (p q : Posting) (db : WalletDb)
    → p.user_id ≢ q.user_id
    → Checked db
    → eqb_ℤ p.amount (pos 0) ≡ false
    → eqb_ℤ q.amount (pos 0) ≡ false
    → is_posted p db ≡ false
    → is_posted q db ≡ false
    → Covered asset p db
    → ¬ (Covered asset q db)
    → post_entries cid asset (p ∷ q ∷ []) db ≡ err integrity_error
unfolding post_entries post_all
post_pair_raises cid asset p q db ne h zp zq fp fq cp uq =
    elim (Bool-cases (leb p.user_id q.user_id)) [
      | inl k ↦
          let (db1, one) = post_entry_writes cid asset p db h zp fp cp in
          let e = post_entry-PostEffect cid asset p 1 db db1 one in
          rw (
            k,
            one,
            post_entry_raises cid asset q db1 zq (still_new cid asset p q 1 db db1 ne e fp fq)
                (λ c. uq (before cid asset p q 1 db db1 ne e fp c)),
          )
      | inr k ↦ rw (k, post_entry_raises cid asset q db zq fq uq)
    ]
