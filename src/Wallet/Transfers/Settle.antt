-- ===== src/Wallet/Transfers/Settle.antt =====
-- Settling an open transfer.
use mini_crypto_wallet.Base.{
  ℕ, ◌≡◌, ◌≢◌, refl, sym, subst, inl, inr, ◌∙◌, ap, true, false, some, String, str_eq, arith,
  eq_iff, Bool-cases, if◌then◌else◌,
}
use mini_crypto_wallet.Base.Int.{
  pos, neg, ◌+ℤ◌, ◌≤ℤ◌, eqb_ℤ, int_laws, neg_parts, pos_part, neg_part, eq_of_parts,
}
use mini_crypto_wallet.Base.Table.{find?}
use mini_crypto_wallet.Base.Result.{ok}
use mini_crypto_wallet.Common.Events.{Payload}
use mini_crypto_wallet.Wallet.Models.{
  WalletDb, Transfer, EntryType, transfer_debit, transfer_credit, reversal, transfer_check,
  find_transfer, save_transfer, is_entry, is_transfer, entry_type_eq,
}
use mini_crypto_wallet.Wallet.Ledger.{Posting, post_entries, entry_of}
use mini_crypto_wallet.Wallet.Ledger.Rows.{
  posted_of, reserved_of, reserved_or_zero, same_key, same_key_refl,
}
use mini_crypto_wallet.Wallet.Ledger.Round.{at}
use mini_crypto_wallet.Wallet.Ledger.Holds.{Held, release_hold_lem}
use mini_crypto_wallet.Wallet.Ledger.Pair.{Pair, post_entries-Pair}
use mini_crypto_wallet.Wallet.Transfers.{
  processed, reference_type, settle_open, settle_postings, settled_transfer, debit, credit,
}
use mini_crypto_wallet.Wallet.Invariant.{
  Inv, is_open, hold_in, held, Postings, has_transfer_entry, hold-le-held, find_sound,
}
use mini_crypto_wallet.Wallet.Transfers.Save.{
  find_transfer-save_self, save-Inv, Postings-same, balance_bounds, find_reserved,
}

-- What the check constraints say of a transfer.
pub parties :
    (t : Transfer)
    → transfer_check t ≡ true
    → (t.from_user_id ≢ t.to_user_id)
      × (pos 1 ≤ℤ t.amount)
      × (eqb_ℤ t.amount (pos 0) ≡ false)
      × (eqb_ℤ (neg t.amount) (pos 0) ≡ false)
parties t h = (ground arith, ground arith, ground arith, ground (arith, neg_parts t.amount))

-- The balances after a transfer has moved: its hold is gone, the amount has left the sender and
-- reached the recipient, and no other balance has changed.
pub record Moved (t : Transfer) (db db' : WalletDb) : Type 0 where
  pub posted :
      (u : ℕ) (a : String)
      → posted_of u a db'
        ≡ posted_of u a db
          +ℤ at t.from_user_id t.asset (neg t.amount) u a
          +ℤ at t.to_user_id t.asset t.amount u a
  pub reserved :
      (u : ℕ) (a : String)
      → reserved_of u a db' +ℤ at t.from_user_id t.asset t.amount u a ≡ reserved_of u a db

-- The hold of an open transfer is among the reserved funds of its sender.
pub amount-le-reserved :
    (t : Transfer) (db : WalletDb)
    → Inv db
    → find_transfer t.id db ≡ some t
    → is_open t ≡ true
    → t.amount ≤ℤ reserved_of t.from_user_id t.asset db
amount-le-reserved t db h found open_t =
    let le = hold-le-held t.from_user_id t.asset _ db.transfers t h.sound found in
    rw (h.holds t.from_user_id t.asset) (subst (λ x. x ≤ℤ held t.from_user_id t.asset db) same le)
  where
    same : hold_in t.from_user_id t.asset t ≡ t.amount
    same = ground (arith, eq_iff t.asset t.asset)

pub entry_none :
    (t : Transfer) (db db1 : WalletDb) (u : ℕ) (e : EntryType)
    → Inv db
    → find_transfer t.id db ≡ some t
    → is_open t ≡ true
    → db1.ledger_entries ≡ db.ledger_entries
    → has_transfer_entry u e t.id db1 ≡ false
entry_none t db db1 u e h found open_t same =
    rw same ((subst (λ o. Postings t.id o db) found (h.postings t.id)).0 u e open_t)

-- The two postings of a settlement succeed once the hold is released.
settle_posts :
    (cid : String) (t : Transfer) (db db1 : WalletDb)
    → Inv db
    → find_transfer t.id db ≡ some t
    → is_open t ≡ true
    → Held t.from_user_id t.asset (pos 0) t.amount db db1
    → (db2 : WalletDb) × (post_entries cid t.asset (settle_postings t) db1 ≡ ok (2, db2))
      × Pair cid t.asset (debit t) (credit t) db1 db2
settle_posts cid t db db1 h found open_t r =
    let (ne, positive, z, z') = parties t (find_sound _ db.transfers t h.sound found) in
    let from = balance_bounds t.from_user_id t.asset db h.checked in
    let to = balance_bounds t.to_user_id t.asset db1 (r.checked h.checked) in
    let less : reserved_of t.from_user_id t.asset db1 +ℤ t.amount
        ≡ reserved_of t.from_user_id t.asset db +ℤ pos 0 =
      subst
        (λ b.
          reserved_of t.from_user_id t.asset db1 +ℤ (if b then t.amount else pos 0)
          ≡ reserved_of t.from_user_id t.asset db +ℤ (if b then pos 0 else pos 0))
        (same_key_refl t.from_user_id t.asset) (r.reserved t.from_user_id t.asset) in
    let kept = r.posted t.from_user_id t.asset in
    let c1 : reserved_of t.from_user_id t.asset db1
        ≤ℤ posted_of t.from_user_id t.asset db1 +ℤ neg t.amount =
      rw kept (omega (int_laws, ap pos_part less, ap neg_part less)) in
    let c2 : reserved_of t.to_user_id t.asset db1
        ≤ℤ posted_of t.to_user_id t.asset db1 +ℤ t.amount =
      omega int_laws in
    post_entries-Pair cid t.asset (debit t) (credit t) db1 ne (r.checked h.checked) z' z
      (entry_none t db db1 t.from_user_id transfer_debit h found open_t r.entries)
      (entry_none t db db1 t.to_user_id transfer_credit h found open_t r.entries) c1 c2

pub other_reference :
    (cid asset : String) (p : Posting) (t : Transfer) (u : ℕ) (e : EntryType) (id : String)
    → p.reference_id ≡ t.id
    → str_eq t.id id ≡ false
    → is_entry u e reference_type id (entry_of cid asset p) ≡ false
other_reference cid asset p t u e id ref ne =
    ground (arith, eq_iff p.reference_id id, eq_iff t.id id)

other_type :
    (cid asset : String) (p : Posting) (u : ℕ) (e : EntryType) (id : String)
    → entry_type_eq p.entry_type e ≡ false
    → is_entry u e reference_type id (entry_of cid asset p) ≡ false
other_type cid asset p u e id ne = ground arith

at_zero : (u u' : ℕ) (a a' : String) → at u a (pos 0) u' a' ≡ pos 0
at_zero u u' a a' = elim (Bool-cases (same_key u a u' a')) [ inl k ↦ rw k | inr k ↦ rw k ]

-- The hold of an open transfer is gone from the reserved funds.
pub released_reserved :
    (t : Transfer) (db db1 : WalletDb) (u : ℕ) (a : String)
    → Held t.from_user_id t.asset (pos 0) t.amount db db1
    → reserved_of u a db1 +ℤ at t.from_user_id t.asset t.amount u a ≡ reserved_of u a db
released_reserved t db db1 u a r =
    let e = r.reserved u a in
    let zero = ap (λ x. reserved_of u a db +ℤ x) (at_zero t.from_user_id u t.asset a) in
    let both = e ∙ zero in eq_of_parts _ _ (omega (int_laws, ap pos_part both, ap neg_part both))

pub hold_of_open :
    (t : Transfer) (u : ℕ) (a : String)
    → is_open t ≡ true
    → hold_in u a t ≡ at t.from_user_id t.asset t.amount u a
hold_of_open t u a h = rw h

-- The effects of a settlement, from those of its steps.
settled_effects :
    (cid : String) (now : ℕ) (payload : Payload) (t : Transfer) (db db1 db2 : WalletDb)
    → Inv db
    → find_transfer t.id db ≡ some t
    → is_open t ≡ true
    → Held t.from_user_id t.asset (pos 0) t.amount db db1
    → Pair cid t.asset (debit t) (credit t) db1 db2
    → let db' = save_transfer (settled_transfer now payload t) db2 in
      Inv db' × Moved t db db' × (find_transfer t.id db' ≡ some (settled_transfer now payload t))
settled_effects cid now payload t db db1 db2 h found open_t r p =
    let t' = settled_transfer now payload t in
    let same_ts = p.transfers ∙ r.transfers in
    (
      save-Inv t t' db db2 refl found (find_sound _ db.transfers t h.sound found) h same_ts
          (p.reconciled (λ u a. rw r.entries (r.posted u a ∙ h.reconciled u a)))
          (p.checked (r.checked h.checked))
          (λ u a.
            rw (p.reserved u a, hold_of_open t u a open_t, released_reserved t db db1 u a r)
              (omega int_laws))
          (
            λ u e k. cc,
            λ u k.
                p.others u reversal reference_type t.id
                  (other_type cid t.asset (debit t) u reversal t.id refl)
                  (other_type cid t.asset (credit t) u reversal t.id refl)
                ∙ entry_none t db db1 u reversal h found open_t r.entries,
          )
          (λ id ne.
            Postings-same id (find_transfer id db) db db2
              (λ u e.
                p.others u e reference_type id
                  (other_reference cid t.asset (debit t) t u e id refl ne)
                  (other_reference cid t.asset (credit t) t u e id refl ne)
                ∙ rw r.entries)
              (h.postings id)),
      record {
        posted = λ u a. unfold save_transfer in p.posted u a ∙ rw (r.posted u a);
        reserved =
            λ u a. unfold save_transfer in rw (p.reserved u a) (released_reserved t db db1 u a r);
      },
      find_transfer-save_self t t' db2 refl
          (subst (λ ts. find? (is_transfer t.id) ts ≡ some t) (sym same_ts) found),
    )

-- An open transfer can always be settled: the call returns `processed`, keeps the invariant, moves
-- the amount, releases the hold and stores the confirmed transfer.
pub settle_open_lem :
    (cid : String) (now : ℕ) (payload : Payload) (t : Transfer) (db : WalletDb)
    → Inv db
    → find_transfer t.id db ≡ some t
    → is_open t ≡ true
    → (db' : WalletDb) × (settle_open cid now payload t db ≡ ok (processed, db'))
      × (Inv db'
          × Moved t db db'
          × (find_transfer t.id db' ≡ some (settled_transfer now payload t)))
unfolding settle_open
settle_open_lem cid now payload t db h found open_t =
    let (ne, positive, z, z') = parties t (find_sound _ db.transfers t h.sound found) in
    let le = amount-le-reserved t db h found open_t in
    let (b, row) = find_reserved t.from_user_id t.asset db (omega arith) in
    let (db1, e1, r) =
      release_hold_lem t.from_user_id t.asset t.amount db b h.checked row (omega arith)
        (subst (λ x. t.amount ≤ℤ x) (ap reserved_or_zero row) le) in
    let (db2, e2, p) = settle_posts cid t db db1 h found open_t r in
    (
      save_transfer (settled_transfer now payload t) db2,
      rw (e1, e2),
      settled_effects cid now payload t db db1 db2 h found open_t r p,
    )
