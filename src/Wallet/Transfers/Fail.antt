-- ===== src/Wallet/Transfers/Fail.antt =====
-- Failing a transfer: an open one is released, a settled one is reversed.
use mini_crypto_wallet.Base.{ℕ, ◌≡◌, refl, sym, subst, ◌∙◌, ap, true, false, some, String, arith}
use mini_crypto_wallet.Base.Int.{pos, neg, ◌+ℤ◌, ◌≤ℤ◌, int_laws}
use mini_crypto_wallet.Base.Table.{find?}
use mini_crypto_wallet.Base.Result.{ok, err, integrity_error}
use mini_crypto_wallet.Common.Events.{Payload}
use mini_crypto_wallet.Wallet.Models.{
  WalletDb, Transfer, confirmed, reversal, find_transfer, save_transfer, is_transfer,
}
use mini_crypto_wallet.Wallet.Ledger.Rows.{posted_of, reserved_of, reserved_or_zero}
use mini_crypto_wallet.Wallet.Ledger.Round.{at}
use mini_crypto_wallet.Wallet.Ledger.Holds.{Held, release_hold_lem}
use mini_crypto_wallet.Wallet.Ledger.Pair.{Pair, post_entries-Pair, post_pair_raises, Covered}
use mini_crypto_wallet.Wallet.Transfers.{
  processed, reference_type, fail_open, reverse_settled, failed_transfer, give_back, take_back,
}
use mini_crypto_wallet.Wallet.Invariant.{
  Inv, is_open, hold_in, Postings, has_transfer_entry, find_sound,
}
use mini_crypto_wallet.Wallet.Transfers.Save.{
  find_transfer-save_self, save-Inv, Postings-same, balance_bounds, find_reserved,
}
use mini_crypto_wallet.Wallet.Transfers.Settle.{
  parties, amount-le-reserved, released_reserved, hold_of_open, other_reference,
}

failed_effects :
    (payload : Payload) (t : Transfer) (db db1 : WalletDb)
    → Inv db
    → find_transfer t.id db ≡ some t
    → is_open t ≡ true
    → Held t.from_user_id t.asset (pos 0) t.amount db db1
    → let db' = save_transfer (failed_transfer payload t) db1 in
      Inv db'
      × ((u : ℕ) (a : String) → posted_of u a db' ≡ posted_of u a db)
      × ((u : ℕ) (a : String)
          → reserved_of u a db' +ℤ at t.from_user_id t.asset t.amount u a ≡ reserved_of u a db)
      × (find_transfer t.id db' ≡ some (failed_transfer payload t))
failed_effects payload t db db1 h found open_t r =
    let t' = failed_transfer payload t in
    (
      save-Inv t t' db db1 refl found (find_sound _ db.transfers t h.sound found) h r.transfers
          (λ u a. rw r.entries (r.posted u a ∙ h.reconciled u a)) (r.checked h.checked)
          (λ u a. rw (hold_of_open t u a open_t, released_reserved t db db1 u a r) (omega int_laws))
          (λ u e k. cc, λ u k. cc)
          (λ id ne.
            Postings-same id (find_transfer id db) db db1 (λ u e. rw r.entries) (h.postings id)),
      λ u a. unfold save_transfer in r.posted u a,
      λ u a. unfold save_transfer in released_reserved t db db1 u a r,
      find_transfer-save_self t t' db1 refl
          (subst (λ ts. find? (is_transfer t.id) ts ≡ some t) (sym r.transfers) found),
    )

-- An open transfer can always be failed: the call returns `processed`, keeps the invariant, gives
-- the hold back, moves no posted balance and stores the failed transfer.
pub fail_open_lem :
    (payload : Payload) (t : Transfer) (db : WalletDb)
    → Inv db
    → find_transfer t.id db ≡ some t
    → is_open t ≡ true
    → (db' : WalletDb) × (fail_open payload t db ≡ ok (processed, db'))
      × (Inv db'
          × ((u : ℕ) (a : String) → posted_of u a db' ≡ posted_of u a db)
          × ((u : ℕ) (a : String)
              → reserved_of u a db' +ℤ at t.from_user_id t.asset t.amount u a ≡ reserved_of u a db)
          × (find_transfer t.id db' ≡ some (failed_transfer payload t)))
unfolding fail_open
fail_open_lem payload t db h found open_t =
    let (ne, positive, z, z') = parties t (find_sound _ db.transfers t h.sound found) in
    let le = amount-le-reserved t db h found open_t in
    let (b, row) = find_reserved t.from_user_id t.asset db (omega arith) in
    let (db1, e1, r) =
      release_hold_lem t.from_user_id t.asset t.amount db b h.checked row (omega arith)
        (subst (λ x. t.amount ≤ℤ x) (ap reserved_or_zero row) le) in
    (
      save_transfer (failed_transfer payload t) db1,
      rw e1,
      failed_effects payload t db db1 h found open_t r,
    )

-- The balances after a settled transfer is taken back.
pub record Returned (t : Transfer) (db db' : WalletDb) : Type 0 where
  pub posted :
      (u : ℕ) (a : String)
      → posted_of u a db'
        ≡ posted_of u a db
          +ℤ at t.from_user_id t.asset t.amount u a
          +ℤ at t.to_user_id t.asset (neg t.amount) u a
  pub reserved : (u : ℕ) (a : String) → reserved_of u a db' ≡ reserved_of u a db

hold_of_closed : (t : Transfer) (u : ℕ) (a : String) → t.status ≡ confirmed → hold_in u a t ≡ pos 0
hold_of_closed t u a h = rw h

reversed_effects :
    (cid : String) (payload : Payload) (t : Transfer) (db db1 : WalletDb)
    → Inv db
    → find_transfer t.id db ≡ some t
    → t.status ≡ confirmed
    → Pair cid t.asset (give_back t) (take_back t) db db1
    → let db' = save_transfer (failed_transfer payload t) db1 in
      Inv db' × Returned t db db' × (find_transfer t.id db' ≡ some (failed_transfer payload t))
reversed_effects cid payload t db db1 h found settled p =
    let t' = failed_transfer payload t in
    (
      save-Inv t t' db db1 refl found (find_sound _ db.transfers t h.sound found) h p.transfers
          (p.reconciled h.reconciled) (p.checked h.checked)
          (λ u a. rw (p.reserved u a, hold_of_closed t u a settled)) (λ u e k. cc, λ u k. cc)
          (λ id ne.
            Postings-same id (find_transfer id db) db db1
              (λ u e.
                p.others u e reference_type id
                  (other_reference cid t.asset (give_back t) t u e id refl ne)
                  (other_reference cid t.asset (take_back t) t u e id refl ne))
              (h.postings id)),
      record {
        posted = λ u a. unfold save_transfer in p.posted u a;
        reserved = λ u a. unfold save_transfer in p.reserved u a;
      },
      find_transfer-save_self t t' db1 refl
          (subst (λ ts. find? (is_transfer t.id) ts ≡ some t) (sym p.transfers) found),
    )

not_reversed :
    (t : Transfer) (db : WalletDb) (u : ℕ)
    → Inv db
    → find_transfer t.id db ≡ some t
    → t.status ≡ confirmed
    → has_transfer_entry u reversal t.id db ≡ false
not_reversed t db u h found settled =
    (subst (λ o. Postings t.id o db) found (h.postings t.id)).1 u settled

-- A settled transfer whose amount the recipient still has available can always be reversed: the call
-- returns `processed`, keeps the invariant, moves the amount back and stores the failed transfer.
pub reverse_settled_lem :
    (cid : String) (payload : Payload) (t : Transfer) (db : WalletDb)
    → Inv db
    → find_transfer t.id db ≡ some t
    → t.status ≡ confirmed
    → reserved_of t.to_user_id t.asset db +ℤ t.amount ≤ℤ posted_of t.to_user_id t.asset db
    → (db' : WalletDb) × (reverse_settled cid payload t db ≡ ok (processed, db'))
      × (Inv db' × Returned t db db' × (find_transfer t.id db' ≡ some (failed_transfer payload t)))
unfolding reverse_settled
reverse_settled_lem cid payload t db h found settled available =
    let (ne, positive, z, z') = parties t (find_sound _ db.transfers t h.sound found) in
    let from = balance_bounds t.from_user_id t.asset db h.checked in
    let c1 : reserved_of t.from_user_id t.asset db
        ≤ℤ posted_of t.from_user_id t.asset db +ℤ t.amount =
      omega int_laws in
    let c2 : reserved_of t.to_user_id t.asset db
        ≤ℤ posted_of t.to_user_id t.asset db +ℤ neg t.amount =
      omega int_laws in
    let (db1, e1, p) =
      post_entries-Pair cid t.asset (give_back t) (take_back t) db ne h.checked z z'
        (not_reversed t db t.from_user_id h found settled)
        (not_reversed t db t.to_user_id h found settled) c1 c2 in
    (
      save_transfer (failed_transfer payload t) db1,
      rw e1,
      reversed_effects cid payload t db db1 h found settled p,
    )

-- A settled transfer whose amount the recipient no longer has available cannot be reversed: the
-- call raises the database's integrity error.
pub reverse_settled_raises :
    (cid : String) (payload : Payload) (t : Transfer) (db : WalletDb)
    → Inv db
    → find_transfer t.id db ≡ some t
    → t.status ≡ confirmed
    → ¬ (reserved_of t.to_user_id t.asset db +ℤ t.amount ≤ℤ posted_of t.to_user_id t.asset db)
    → reverse_settled cid payload t db ≡ err integrity_error
unfolding reverse_settled
reverse_settled_raises cid payload t db h found settled short =
    let (ne, positive, z, z') = parties t (find_sound _ db.transfers t h.sound found) in
    let from = balance_bounds t.from_user_id t.asset db h.checked in
    let c1 : reserved_of t.from_user_id t.asset db
        ≤ℤ posted_of t.from_user_id t.asset db +ℤ t.amount =
      omega int_laws in
    let uncovered : ¬ (Covered t.asset (take_back t) db) = λ c. short (available c) in
    rw (
      post_pair_raises cid t.asset (give_back t) (take_back t) db ne h.checked z z'
        (not_reversed t db t.from_user_id h found settled)
        (not_reversed t db t.to_user_id h found settled) c1 uncovered)
  where
    available :
        reserved_of t.to_user_id t.asset db ≤ℤ posted_of t.to_user_id t.asset db +ℤ neg t.amount
        → reserved_of t.to_user_id t.asset db +ℤ t.amount ≤ℤ posted_of t.to_user_id t.asset db
    available c = omega int_laws
