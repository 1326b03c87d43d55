-- ===== src/Wallet/Transfers/Handlers.antt =====
-- `settle_transfer` and `fail_transfer` as wholes: what they do on each status of the transfer.
use mini_crypto_wallet.Base.{
  ℕ, ◌≡◌, refl, inl, inr, ◌⊎◌, ◌∙◌, true, some, String, arith, Bool-cases,
}
use mini_crypto_wallet.Base.Int.{◌+ℤ◌, ◌≤ℤ◌, leb_ℤ}
use mini_crypto_wallet.Base.Result.{ok, err, integrity_error}
use mini_crypto_wallet.Common.Events.{Payload}
use mini_crypto_wallet.Wallet.Models.{WalletDb, Transfer, confirmed, failed, find_transfer}
use mini_crypto_wallet.Wallet.Ledger.Rows.{posted_of, reserved_of}
use mini_crypto_wallet.Wallet.Ledger.Round.{at}
use mini_crypto_wallet.Wallet.Transfers.{
  processed, duplicate, ignored, load_for_update, settle_transfer, fail_transfer, settle_open,
  fail_open, reverse_settled, settled_transfer, failed_transfer,
}
use mini_crypto_wallet.Wallet.Invariant.{Inv, is_open}
use mini_crypto_wallet.Wallet.Transfers.Load.{
  load_for_update_lem, settle_by_status_lem, fail_by_status_lem,
}
use mini_crypto_wallet.Wallet.Transfers.Settle.{Moved, settle_open_lem}
use mini_crypto_wallet.Wallet.Transfers.Fail.{
  Returned, fail_open_lem, reverse_settled_lem, reverse_settled_raises,
}

-- What a settlement leaves behind.
abbrev pub Settled : ℕ → Payload → Transfer → WalletDb → WalletDb → Type 0
Settled now payload t db db' =
    Inv db'
    × Moved t db db'
    × (find_transfer t.id db' ≡ some (settled_transfer now payload t))
    × ((settled_transfer now payload t).status ≡ confirmed)

-- Let the payload name the transfer t and the invariant hold. If t is open, the call returns
-- `processed`, keeps the invariant, moves the amount from sender to recipient, releases exactly the
-- hold and stores the confirmed transfer; if t is confirmed it returns `duplicate` and if t has
-- failed `ignored`, and changes nothing. It never raises.
pub settle_transfer_lem :
    (cid : String) (now : ℕ) (payload : Payload) (t : Transfer) (db : WalletDb)
    → Inv db
    → load_for_update payload db ≡ ok (some t, db)
    → ((is_open t ≡ true)
        × ((db' : WalletDb) × (settle_transfer cid now payload db ≡ ok (processed, db'))
            × Settled now payload t db db'))
      ⊎ ((t.status ≡ confirmed) × (settle_transfer cid now payload db ≡ ok (duplicate, db)))
      ⊎ ((t.status ≡ failed) × (settle_transfer cid now payload db ≡ ok (ignored, db)))
unfolding settle_transfer
settle_transfer_lem cid now payload t db h loaded =
    let found = (load_for_update_lem payload (some t) db db loaded).1 t refl in
    elim (settle_by_status_lem (settle_open cid now payload t) (settle_open cid now payload t) db
      t.status) [
        | inl (open_t, e) ↦
            let (db', ok_e, (inv, moved, stored)) =
              settle_open_lem cid now payload t db h found open_t in
            inl (open_t, (db', rw loaded (e ∙ ok_e), (inv, moved, stored, refl)))
        | inr (inl (s, e)) ↦ inr (inl (s, rw loaded e))
        | inr (inr (s, e)) ↦ inr (inr (s, rw loaded e))
      ]

-- What the failure of an open transfer leaves behind.
abbrev pub Released : Payload → Transfer → WalletDb → WalletDb → Type 0
Released payload t db db' =
    Inv db'
    × ((u : ℕ) (a : String) → posted_of u a db' ≡ posted_of u a db)
    × ((u : ℕ) (a : String)
        → reserved_of u a db' +ℤ at t.from_user_id t.asset t.amount u a ≡ reserved_of u a db)
    × (find_transfer t.id db' ≡ some (failed_transfer payload t))
    × ((failed_transfer payload t).status ≡ failed)

-- What the reversal of a settled transfer leaves behind.
abbrev pub Reversed : Payload → Transfer → WalletDb → WalletDb → Type 0
Reversed payload t db db' =
    Inv db'
    × Returned t db db'
    × (find_transfer t.id db' ≡ some (failed_transfer payload t))
    × ((failed_transfer payload t).status ≡ failed)

-- The recipient still has the amount of a transfer available.
abbrev pub Available : Transfer → WalletDb → Type 0
Available t db =
    reserved_of t.to_user_id t.asset db +ℤ t.amount ≤ℤ posted_of t.to_user_id t.asset db

Available-cases : (t : Transfer) (db : WalletDb) → Available t db ⊎ (¬ (Available t db))
Available-cases t db =
    elim (Bool-cases (
      leb_ℤ (reserved_of t.to_user_id t.asset db +ℤ t.amount)
        (posted_of t.to_user_id t.asset db))) [
          | inl k ↦ inl (ground arith)
          | inr k ↦ inr (ground arith)
        ]

reverse_settled-cases :
    (cid : String) (payload : Payload) (t : Transfer) (db : WalletDb)
    → Inv db
    → find_transfer t.id db ≡ some t
    → t.status ≡ confirmed
    → (Available t db
        × ((db' : WalletDb) × (reverse_settled cid payload t db ≡ ok (processed, db'))
            × Reversed payload t db db'))
      ⊎ ((¬ (Available t db)) × (reverse_settled cid payload t db ≡ err integrity_error))
reverse_settled-cases cid payload t db h found s = elim (Available-cases t db) [
  | inl a ↦
      let (db', ok_e, (inv, back, stored)) = reverse_settled_lem cid payload t db h found s a in
      inl (a, (db', ok_e, (inv, back, stored, refl)))
  | inr n ↦ inr (n, reverse_settled_raises cid payload t db h found s n)
]

-- Let the payload name the transfer t and the invariant hold. If t is open, the call returns
-- `processed`, keeps the invariant, releases exactly the hold, moves no posted balance and stores
-- the failed transfer. If t is confirmed, it moves the amount back where the recipient still has it
-- available, and raises the integrity error where not. If t has failed it returns `duplicate` and
-- changes nothing.
pub fail_transfer_lem :
    (cid : String) (payload : Payload) (t : Transfer) (db : WalletDb)
    → Inv db
    → load_for_update payload db ≡ ok (some t, db)
    → ((is_open t ≡ true)
        × ((db' : WalletDb) × (fail_transfer cid payload db ≡ ok (processed, db'))
            × Released payload t db db'))
      ⊎ ((t.status ≡ confirmed)
          × ((Available t db
                × ((db' : WalletDb) × (fail_transfer cid payload db ≡ ok (processed, db'))
                    × Reversed payload t db db'))
              ⊎ ((¬ (Available t db)) × (fail_transfer cid payload db ≡ err integrity_error))))
      ⊎ ((t.status ≡ failed) × (fail_transfer cid payload db ≡ ok (duplicate, db)))
unfolding fail_transfer
fail_transfer_lem cid payload t db h loaded =
    let found = (load_for_update_lem payload (some t) db db loaded).1 t refl in
    elim (fail_by_status_lem (reverse_settled cid payload t) (fail_open payload t) db t.status) [
      | inl (open_t, e) ↦
          let (db', ok_e, (inv, same, freed, stored)) = fail_open_lem payload t db h found open_t in
          inl (open_t, (db', rw loaded (e ∙ ok_e), (inv, same, freed, stored, refl)))
      | inr (inl (s, e)) ↦ inr (
          inl (
            s,
            elim (reverse_settled-cases cid payload t db h found s) [
              | inl (a, (db', ok_e, effects)) ↦ inl (a, (db', rw loaded (e ∙ ok_e), effects))
              | inr (n, raises) ↦ inr (n, rw loaded (e ∙ raises))
            ],
          ))
      | inr (inr (s, e)) ↦ inr (inr (s, rw loaded e))
    ]
