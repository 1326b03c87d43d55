-- ===== src/Wallet/Transfers/Create.antt =====
-- `create_transfer`: the funds are held and the transfer is stored, or nothing is.
use mini_crypto_wallet.Base.{
  ℕ, ◌≡◌, refl, sym, subst, inl, inr, ◌∙◌, ap, Bool, true, not, some, String, arith, Bool-cases,
  ◌==◌,
}
use mini_crypto_wallet.Base.Int.{pos, ◌+ℤ◌, int_laws, pos_part, neg_part, eq_of_parts}
use mini_crypto_wallet.Base.Result.{
  ok, gets, validation_error, unsupported_asset, not_found, wallet_inactive, bind-eq-ok,
  ok-injective, conflict,
}
use mini_crypto_wallet.Base.Keeps.{
  Keeps, Keeps-bind, Keeps-pure, Keeps-gets, Keeps-or_raise, Keeps-raise_if, unchanged,
}
use mini_crypto_wallet.Common.Events.{EventEnvelope}
use mini_crypto_wallet.Common.Assets.{Asset, get_asset}
use mini_crypto_wallet.Wallet.Users.{get_user, get_wallet, find_user}
use mini_crypto_wallet.Wallet.Models.{
  WalletDb, enqueue, created, Transfer, Balance, find_balance, find_transfer,
}
use mini_crypto_wallet.Wallet.Ledger.{ensure_balance, lock_balance, place_hold}
use mini_crypto_wallet.Wallet.Ledger.Rows.{
  posted_of, reserved_of, Checked, ensure-Checked, posted_of-ensure, reserved_of-ensure,
  posted_or_zero, reserved_or_zero,
}
use mini_crypto_wallet.Wallet.Ledger.Round.{at, lock_balance_lem, ensure_entries, ensure_transfers}
use mini_crypto_wallet.Wallet.Ledger.Holds.{Held, place_hold_lem}
use mini_crypto_wallet.Wallet.Transfers.{
  TransferRequest, is_active, check_parties, new_transfer, create_transfer, hold_and_insert,
  insert_transfer,
}
use mini_crypto_wallet.Wallet.Transfers.Insert.{insert_transfer_lem, Created, Created-of}
use mini_crypto_wallet.Wallet.Transfers.Save.{Postings-same}
use mini_crypto_wallet.Wallet.Transfers.Settle.{parties}
use mini_crypto_wallet.Wallet.Invariant.{Inv, is_open}

at_none : (t : Transfer) (u : ℕ) (a : String) → at t.from_user_id t.asset (pos 0) u a ≡ pos 0
at_none t u a = ground arith

-- A hold adds its amount to the reserved funds.
Held-reserved :
    (t : Transfer) (db db1 : WalletDb) (u : ℕ) (a : String)
    → Held t.from_user_id t.asset t.amount (pos 0) db db1
    → reserved_of u a db1 ≡ reserved_of u a db +ℤ at t.from_user_id t.asset t.amount u a
Held-reserved t db db1 u a r =
    let zero = ap (λ x. reserved_of u a db1 +ℤ x) (at_none t u a) in
    let e = r.reserved u a in
    eq_of_parts _ _
      (omega (int_laws, ap pos_part e, ap neg_part e, ap pos_part zero, ap neg_part zero))

-- The two statements after the lock, on the row that the lock returned.
locked-Created :
    (t : Transfer) (db db1 db2 db' : WalletDb) (b : Balance) (done : Bool)
    → is_open t ≡ true
    → Inv db
    → db1 ≡ ensure_balance t.from_user_id t.asset db
    → find_balance t.from_user_id t.asset db1 ≡ some b
    → place_hold t.from_user_id t.asset t.amount db1 ≡ ok (done, db2)
    → done ≡ true
    → insert_transfer t db2 ≡ ok (tt, db')
    → Created t db db'
locked-Created t db db1 db2 db' b done open_t h same found placed is_done stored =
    let (same', new, good) = insert_transfer_lem t db2 db' stored in
    let (ne, positive, z, z') = parties t good in
    let checked1 : Checked db1 =
      subst Checked (sym same) (ensure-Checked t.from_user_id t.asset db h.checked) in
    let posted1 : (u : ℕ) (a : String) → posted_of u a db1 ≡ posted_of u a db =
      λ u a. rw same (posted_of-ensure t.from_user_id u t.asset a db) in
    let reserved1 : (u : ℕ) (a : String) → reserved_of u a db1 ≡ reserved_of u a db =
      λ u a. rw same (reserved_of-ensure t.from_user_id u t.asset a db) in
    elim (place_hold_lem t.from_user_id t.asset t.amount db1 b checked1 found (omega arith)) [
      | inr (less, e) ↦ cc (sym is_done ∙ (ok-injective _ _ _ _ (sym placed ∙ e)).0)
      | inl (fits, (db3, e, r3)) ↦
          let r : Held t.from_user_id t.asset t.amount (pos 0) db1 db2 =
            subst (Held t.from_user_id t.asset t.amount (pos 0) db1)
              (ok-injective _ _ _ _ (sym e ∙ placed)).1 r3 in
          let ts : db2.transfers ≡ db.transfers =
            r.transfers ∙ rw same (ensure_transfers t.from_user_id t.asset db) in
          let pb : posted_of t.from_user_id t.asset db ≡ b.posted =
            sym (posted1 _ _) ∙ ap posted_or_zero found in
          let rb : reserved_of t.from_user_id t.asset db ≡ b.reserved =
            sym (reserved1 _ _) ∙ ap reserved_or_zero found in
          subst (Created t db) (sym same') (
            Created-of t db db2 open_t (rw ts at new) good
              (r.entries ∙ rw same (ensure_entries t.from_user_id t.asset db)) ts
              (λ u a. r.posted u a ∙ posted1 u a)
              (λ u a. Held-reserved t db1 db2 u a r ∙ rw (reserved1 u a)) (λ c. r.checked checked1)
              (rw (pb, rb) (omega int_laws)))
    ]

-- If `hold_and_insert` returns, the amount was available, it is reserved and the transfer stored.
pub hold_and_insert-Created :
    (t : Transfer) (db db' : WalletDb)
    → is_open t ≡ true
    → Inv db
    → hold_and_insert t db ≡ ok (tt, db')
    → Created t db db'
unfolding hold_and_insert
hold_and_insert-Created t db db' open_t h e =
    let (b0, db1, e1, h1) = bind-eq-ok (lock_balance t.from_user_id t.asset db) _ tt db' e in
    let (b, found, locked) = lock_balance_lem t.from_user_id t.asset db in
    let same = (ok-injective _ _ _ _ (sym locked ∙ e1)).1 in
    let (done, db2, e2, h2) =
      bind-eq-ok (place_hold t.from_user_id t.asset t.amount db1) _ tt db' h1 in
    elim (Bool-cases done) [
      | inr k ↦ cc (rw k at h2)
      | inl k ↦
          locked-Created t db db1 db2 db' b done open_t h (sym same) (rw (← same) found) e2 k
            (rw k at h2)
    ]

pub check_parties-Keeps : (r : TransferRequest) → Keeps unchanged (check_parties r)
unfolding check_parties get_user
check_parties-Keeps r =
    Keeps-bind unchanged _ _
      (Keeps-raise_if unchanged (r.from_user_id == r.to_user_id) validation_error)
      λ x1.
        Keeps-bind unchanged _ _ (Keeps-or_raise unchanged (get_asset r.asset) unsupported_asset)
          λ asset. Keeps-bind unchanged _ _ (user r.from_user_id) λ sender.
            Keeps-bind unchanged _ _ (user r.to_user_id) λ recipient.
              Keeps-bind unchanged _ _
                (Keeps-raise_if unchanged (not (is_active sender.status)) conflict)
                λ x2.
                  Keeps-bind unchanged _ _
                    (Keeps-raise_if unchanged (not (is_active recipient.status)) conflict)
                    λ x3. Keeps-bind unchanged _ _ (wallet r.from_user_id asset) λ f.
                      Keeps-bind unchanged _ _ (wallet r.to_user_id asset) λ t.
                        Keeps-bind unchanged _ _ (Keeps-or_raise unchanged f not_found) λ f'.
                          Keeps-bind unchanged _ _ (Keeps-or_raise unchanged t not_found) λ t'.
                            Keeps-bind unchanged _ _
                              (Keeps-raise_if unchanged (not (is_active f'.status)) wallet_inactive)
                              λ x4.
                                Keeps-bind unchanged _ _
                                  (Keeps-raise_if unchanged (not (is_active t'.status))
                                    wallet_inactive)
                                  λ x5. Keeps-pure unchanged (asset, f', t')
  where
    user : (id : ℕ) → Keeps unchanged (get_user id)
    user id =
        Keeps-bind unchanged _ _ (Keeps-gets unchanged (find_user id))
          λ o. Keeps-or_raise unchanged o not_found

    wallet :
        (id : ℕ) (asset : Asset) → Keeps unchanged (gets (get_wallet id r.network asset.symbol))
    wallet id asset = Keeps-gets unchanged (get_wallet id r.network asset.symbol)

-- Adding to the outbox changes nothing that `Created` speaks of.
enqueued-Created :
    (t : Transfer) (e : EventEnvelope) (db db' : WalletDb)
    → Created t db db'
    → Created t db (enqueue e db')
unfolding enqueue
enqueued-Created t e db db' c = record {
  covered = c.covered;
  posted = c.posted;
  reserved = c.reserved;
  stored = c.stored;
  inv = λ h.
      let k = c.inv h in
      record {
        reconciled = k.reconciled;
        checked = k.checked;
        holds = k.holds;
        sound = k.sound;
        postings = λ id.
            Postings-same id (find_transfer id db') db' (enqueue e db') (λ u x. refl)
              (k.postings id);
      };
}

-- If `create_transfer` returns a transfer, the sender had its amount available, exactly that amount
-- is now reserved for it and no other funds, no posted balance has changed, the transfer is stored
-- as created with the amount and the parties of the request, and the invariant still holds.
pub create_transfer-Created :
    (uuid5 : String → String) (r : TransferRequest) (t : Transfer) (db db' : WalletDb)
    → Inv db
    → create_transfer uuid5 r db ≡ ok (t, db')
    → (Inv db' × Created t db db')
      × ((t.status ≡ created) × (t.amount ≡ r.amount_units))
      × ((t.from_user_id ≡ r.from_user_id) × (t.to_user_id ≡ r.to_user_id))
unfolding create_transfer
create_transfer-Created uuid5 r t db db' h e =
    let ((asset, f, g), db1, e1, h1) = bind-eq-ok (check_parties r db) _ t db' e in
    let (done, db2, e2, h2) =
      bind-eq-ok (hold_and_insert (new_transfer r asset f g) db1) _ t db' h1 in
    let (is_t, is_db) = ok-injective _ _ _ _ h2 in
    let same : db1 ≡ db = check_parties-Keeps r (asset, f, g) db db1 e1 in
    let c =
      hold_and_insert-Created (new_transfer r asset f g) db1 db2 refl (subst Inv (sym same) h) e2 in
    let made : Created (new_transfer r asset f g) db db' =
      subst (λ d. Created (new_transfer r asset f g) d db') same
        (subst (Created (new_transfer r asset f g) db1) is_db (enqueued-Created _ _ db1 db2 c)) in
    (
      (made.inv h, subst (λ x. Created x db db') is_t made),
      (rw (← is_t), rw (← is_t)),
      (rw (← is_t), rw (← is_t)),
    )
