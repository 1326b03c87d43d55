-- ===== src/Wallet/Ledger/Round.antt =====
-- What one round of `post_entries` does.
use mini_crypto_wallet.Base.{
  ℕ, ◌≡◌, refl, sym, inl, inr, ◌∙◌, Bool, true, false, some, [], ◌∷◌, ◌++◌, String, if◌then◌else◌,
  arith, Bool-cases,
}
use mini_crypto_wallet.Base.Int.{ℤ, pos, ◌+ℤ◌, int_laws, eqb_ℤ}
use mini_crypto_wallet.Base.Table.{update}
use mini_crypto_wallet.Base.Result.{ok, ok-injective}
use mini_crypto_wallet.Wallet.Models.{
  WalletDb, Balance, is_balance, balance_check, find_balance, update_balance, has_entry,
}
use mini_crypto_wallet.Wallet.Ledger.{
  Posting, ensure_balance, lock_balance, insert_entry, post_entry, entry_of, add_posted,
}
use mini_crypto_wallet.Wallet.Ledger.Rows.{
  same_key, same_key_eq, posted_of, reserved_of, KeepsKey, find_balance-update, posted_of-ensure,
  reserved_of-ensure, has_row, Checked, ensure-Checked, ensure-has_row, updated-Checked,
  updated-has_row, find_balance-ensure,
}

-- An amount that goes to one balance, seen from the balance of any user in any asset.
abbrev pub at : ℕ → String → ℤ → ℕ → String → ℤ
at u a x u' a' = if same_key u a u' a' then x else pos 0

-- Is the posting in the ledger?
abbrev pub is_posted : Posting → WalletDb → Bool
is_posted p db = has_entry p.user_id p.entry_type p.reference_type p.reference_id db

-- A successful round: a posting that the ledger has is skipped, any other is appended and moves its
-- balance.
pub record PostEffect (cid asset : String) (p : Posting) (n : ℕ) (db db' : WalletDb) : Type 0 where
  pub nonzero : eqb_ℤ p.amount (pos 0) ≡ false
  pub count : n ≡ (if is_posted p db then 0 else 1)
  pub posted :
      (u : ℕ) (a : String)
      → posted_of u a db' ≡ (
          if is_posted p db
          then posted_of u a db
          else posted_of u a db +ℤ at p.user_id asset p.amount u a)
  pub reserved : (u : ℕ) (a : String) → reserved_of u a db' ≡ reserved_of u a db
  pub entries : db'.ledger_entries ≡ (
      if is_posted p db then db.ledger_entries else db.ledger_entries ++ entry_of cid asset p ∷ [])
  pub transfers : db'.transfers ≡ db.transfers
  pub checked : Checked db → Checked db'
  pub rows : (u : ℕ) (a : String) → has_row u a db ≡ true → has_row u a db' ≡ true
  pub row : has_row p.user_id asset db' ≡ true

pub lock_balance_lem :
    (u : ℕ) (a : String) (db : WalletDb)
    → (b : Balance) × (find_balance u a (ensure_balance u a db) ≡ some b)
      × (lock_balance u a db ≡ ok (b, ensure_balance u a db))
unfolding lock_balance
lock_balance_lem u a db = let (b, e) = find_balance-ensure u a db in (b, e, rw e)

pub ensure_entries :
    (u : ℕ) (a : String) (db : WalletDb)
    → (ensure_balance u a db).ledger_entries ≡ db.ledger_entries
unfolding ensure_balance
ensure_entries u a db = ground arith

pub ensure_transfers :
    (u : ℕ) (a : String) (db : WalletDb) → (ensure_balance u a db).transfers ≡ db.transfers
unfolding ensure_balance
ensure_transfers u a db = ground arith

-- The database after a posting is appended and its balance moved.
abbrev pub written : String → String → Posting → WalletDb → WalletDb
written cid asset p db = record (ensure_balance p.user_id asset db) {
  ledger_entries = db.ledger_entries ++ entry_of cid asset p ∷ [];
  balances =
      update (is_balance p.user_id asset) (add_posted p.amount)
        (ensure_balance p.user_id asset db).balances;
}

-- The two ways in which a round succeeds, from the database with the balance row ensured.
pub data Rounds (cid asset : String) (p : Posting) (n : ℕ) (db db' : WalletDb) : Type 0 where
  skip :
      is_posted p db ≡ true
      → n ≡ 0
      → db' ≡ ensure_balance p.user_id asset db
      → Rounds cid asset p n db db'
  write :
      (b : Balance)
      → is_posted p db ≡ false
      → n ≡ 1
      → find_balance p.user_id asset (ensure_balance p.user_id asset db) ≡ some b
      → balance_check (add_posted p.amount b) ≡ true
      → db' ≡ written cid asset p db
      → Rounds cid asset p n db db'

post_entry-Rounds :
    (cid asset : String) (p : Posting) (n : ℕ) (db db' : WalletDb)
    → post_entry cid asset p db ≡ ok (n, db')
    → (eqb_ℤ p.amount (pos 0) ≡ false) × Rounds cid asset p n db db'
unfolding post_entry insert_entry update_balance ensure_balance
post_entry-Rounds cid asset p n db db' h =
    let (b, found, locked) = lock_balance_lem p.user_id asset db in
    let same = ensure_entries p.user_id asset db in
    elim (Bool-cases (eqb_ℤ p.amount (pos 0))) [
      | inl z ↦ cc (rw (locked, z) at h)
      | inr nz ↦ elim (Bool-cases (is_posted p db)) [
        | inl known ↦
            let (en, ed) = ok-injective _ _ _ _ (rw (locked, nz, same, known) at h) in
            (nz, skip known (sym en) (sym ed))
        | inr fresh ↦ elim (Bool-cases (balance_check (add_posted p.amount b))) [
          | inl good ↦
              let (en, ed) =
                ok-injective _ _ _ _ (rw (locked, nz, same, fresh, found, good) at h) in
              (nz, write b fresh (sym en) found good (sym ed))
          | inr bad ↦ cc (rw (locked, nz, same, fresh, found, bad) at h)
        ]
      ]
    ]

written_posted :
    (u u' : ℕ) (a a' : String) (x : ℤ) (db db' : WalletDb) (b : Balance)
    → find_balance u a db ≡ some b
    → db'.balances ≡ update (is_balance u a) (add_posted x) db.balances
    → (posted_of u' a' db' ≡ posted_of u' a' db +ℤ at u a x u' a')
      × (reserved_of u' a' db' ≡ reserved_of u' a' db)
written_posted u u' a a' x db db' b found e =
    let read =
      find_balance-update u u' a a' (add_posted x) db.balances b (λ c. (refl, refl)) found in
    elim (Bool-cases (same_key u a u' a')) [
      | inl k ↦
          let (eu, ea) = same_key_eq u u' a a' k in rw (e, read, k, ← eu, ← ea, found) (refl, refl)
      | inr k ↦ rw (e, read, k) (omega int_laws, refl)
    ]

pub post_entry-PostEffect :
    (cid asset : String) (p : Posting) (n : ℕ) (db db' : WalletDb)
    → post_entry cid asset p db ≡ ok (n, db')
    → PostEffect cid asset p n db db'
post_entry-PostEffect cid asset p n db db' h =
    let (nz, r) = post_entry-Rounds cid asset p n db db' h in effect_of nz r
  where
    effect_of :
        eqb_ℤ p.amount (pos 0) ≡ false
        → Rounds cid asset p n db db'
        → PostEffect cid asset p n db db'
    effect_of nz (skip known en ed) = record {
      nonzero = nz;
      count = rw known en;
      posted = λ u a. rw (known, ed) (posted_of-ensure p.user_id u asset a db);
      reserved = λ u a. rw ed (reserved_of-ensure p.user_id u asset a db);
      entries = rw (known, ed) (ensure_entries p.user_id asset db);
      transfers = rw ed (ensure_transfers p.user_id asset db);
      checked = λ h. rw ed (ensure-Checked p.user_id asset db h);
      rows = λ u a h. rw ed (ensure-has_row p.user_id u asset a db h);
      row = rw (ed, (find_balance-ensure p.user_id asset db).1);
    }
    effect_of nz (write b fresh en found good ed) =
        let ensured = ensure_balance p.user_id asset db in
        let keeps : KeepsKey (add_posted p.amount) = λ c. (refl, refl) in
        let moved : (u : ℕ) (a : String)
            → (posted_of u a db' ≡ posted_of u a ensured +ℤ at p.user_id asset p.amount u a)
              × (reserved_of u a db' ≡ reserved_of u a ensured) =
          λ u a. written_posted p.user_id u asset a p.amount ensured db' b found (rw ed) in
        record {
          nonzero = nz;
          count = rw fresh en;
          posted = λ u a. rw (fresh, (moved u a).0, posted_of-ensure p.user_id u asset a db);
          reserved = λ u a. (moved u a).1 ∙ reserved_of-ensure p.user_id u asset a db;
          entries = rw (fresh, ed);
          transfers = rw ed (ensure_transfers p.user_id asset db);
          checked = λ h.
              updated-Checked p.user_id asset (add_posted p.amount) ensured db' b keeps found
                (rw ed) good (ensure-Checked p.user_id asset db h);
          rows = λ u a h.
              updated-has_row p.user_id asset (add_posted p.amount) ensured db' b keeps found
                (rw ed) u a (ensure-has_row p.user_id u asset a db h);
          row =
              updated-has_row p.user_id asset (add_posted p.amount) ensured db' b keeps found
                (rw ed) p.user_id asset (rw found);
        }
