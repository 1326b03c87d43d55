-- ===== src/Wallet/Ledger/Holds.antt =====
-- What placing and releasing a hold does to the balances.
use mini_crypto_wallet.Base.{
  ℕ, ◌≡◌, refl, inl, inr, ◌⊎◌, true, false, some, String, arith, Bool-cases,
}
use mini_crypto_wallet.Base.Int.{ℤ, pos, ◌+ℤ◌, ◌-ℤ◌, ◌≤ℤ◌, leb_ℤ, int_laws}
use mini_crypto_wallet.Base.Table.{update}
use mini_crypto_wallet.Base.Result.{ok}
use mini_crypto_wallet.Wallet.Models.{
  WalletDb, Balance, is_balance, balance_check, find_balance, update_balance,
}
use mini_crypto_wallet.Wallet.Ledger.{place_hold, release_hold, add_reserved, sub_reserved}
use mini_crypto_wallet.Wallet.Ledger.Rows.{
  same_key, same_key_eq, posted_of, reserved_of, has_row, Checked, KeepsKey, find_balance-updated,
  updated-Checked, updated-has_row,
}
use mini_crypto_wallet.Wallet.Ledger.Round.{at}

-- The balances after a change of one row's hold: `before` and `after` are what is added to the
-- reserved funds on the two sides.
pub record Held (u : ℕ) (a : String) (before after : ℤ) (db db' : WalletDb) : Type 0 where
  pub posted : (u' : ℕ) (a' : String) → posted_of u' a' db' ≡ posted_of u' a' db
  pub reserved :
      (u' : ℕ) (a' : String)
      → reserved_of u' a' db' +ℤ at u a after u' a' ≡ reserved_of u' a' db +ℤ at u a before u' a'
  pub entries : db'.ledger_entries ≡ db.ledger_entries
  pub transfers : db'.transfers ≡ db.transfers
  pub checked : Checked db → Checked db'
  pub rows : (u' : ℕ) (a' : String) → has_row u' a' db ≡ true → has_row u' a' db' ≡ true

abbrev updated : ℕ → String → (Balance → Balance) → WalletDb → WalletDb
updated u a f db = record db { balances = update (is_balance u a) f db.balances }

module _ (u : ℕ) (a : String) (f : Balance → Balance) (before after : ℤ) (db : WalletDb)
    (b : Balance) (keeps : KeepsKey f) (same_posted : (f b).posted ≡ b.posted)
    (moved : (f b).reserved +ℤ after ≡ b.reserved +ℤ before) (found : find_balance u a db ≡ some b)
    (good : balance_check (f b) ≡ true) where
  updated-Held : Held u a before after db (updated u a f db)
  updated-Held = record {
    posted = λ u' a'. elim (Bool-cases (same_key u a u' a')) [
      | inl k ↦
          let (eu, ea) = same_key_eq u u' a a' k in
          rw
            (
              find_balance-updated u a f db (updated u a f db) b keeps found refl u' a',
              k,
              ← eu,
              ← ea,
              found,
            )
            same_posted
      | inr k ↦ rw (find_balance-updated u a f db (updated u a f db) b keeps found refl u' a', k)
    ];
    reserved = λ u' a'. elim (Bool-cases (same_key u a u' a')) [
      | inl k ↦
          let (eu, ea) = same_key_eq u u' a a' k in
          rw
            (
              find_balance-updated u a f db (updated u a f db) b keeps found refl u' a',
              k,
              ← eu,
              ← ea,
              found,
            )
            moved
      | inr k ↦ rw (find_balance-updated u a f db (updated u a f db) b keeps found refl u' a', k)
    ];
    entries = refl;
    transfers = refl;
    checked = updated-Checked u a f db (updated u a f db) b keeps found refl good;
    rows = updated-has_row u a f db (updated u a f db) b keeps found refl;
  }

-- `Checked` at one row, as inequalities.
pub Checked_bounds :
    (u : ℕ) (a : String) (db : WalletDb) (b : Balance)
    → Checked db
    → find_balance u a db ≡ some b
    → (pos 0 ≤ℤ b.reserved) × (b.reserved ≤ℤ b.posted)
Checked_bounds u a db b h e = ground (arith, h u a b e)

pub balance_check_of :
    (b : Balance) → pos 0 ≤ℤ b.reserved → b.reserved ≤ℤ b.posted → balance_check b ≡ true
balance_check_of b low high = ground arith

pub not_balance_check : (b : Balance) → ¬ (b.reserved ≤ℤ b.posted) → balance_check b ≡ false
not_balance_check b h = ground arith

-- A hold on an existing balance never raises: it takes effect, and reserves exactly the amount, if
-- the amount is within the available funds, and otherwise it changes nothing.
pub place_hold_lem :
    (u : ℕ) (a : String) (amount : ℤ) (db : WalletDb) (b : Balance)
    → Checked db
    → find_balance u a db ≡ some b
    → pos 0 ≤ℤ amount
    → ((amount ≤ℤ b.posted -ℤ b.reserved)
        × ((db' : WalletDb) × (place_hold u a amount db ≡ ok (true, db'))
            × Held u a amount (pos 0) db db'))
      ⊎ ((¬ (amount ≤ℤ b.posted -ℤ b.reserved)) × (place_hold u a amount db ≡ ok (false, db)))
unfolding place_hold update_balance
place_hold_lem u a amount db b h found nonneg =
    let (low, high) = Checked_bounds u a db b h found in
    elim (Bool-cases (leb_ℤ amount (b.posted -ℤ b.reserved))) [
      | inr k ↦ inr (ground arith, rw (found, k))
      | inl k ↦
          let fits : amount ≤ℤ b.posted -ℤ b.reserved = ground arith in
          let good = balance_check_of (add_reserved amount b) (omega int_laws) (omega int_laws) in
          inl (
            fits,
            (updated u a (add_reserved amount) db, rw (found, k, good), held-Held amount good),
          )
    ]
  where
    held-Held :
        (x : ℤ)
        → balance_check (add_reserved x b) ≡ true
        → Held u a x (pos 0) db (updated u a (add_reserved x) db)
    held-Held x good =
        updated-Held u a (add_reserved x) x (pos 0) db b (λ c. (refl, refl)) refl (omega int_laws)
          found good

-- Releasing a hold that the reserved funds cover never raises, and takes exactly the amount off
-- the reserved funds.
pub release_hold_lem :
    (u : ℕ) (a : String) (amount : ℤ) (db : WalletDb) (b : Balance)
    → Checked db
    → find_balance u a db ≡ some b
    → pos 0 ≤ℤ amount
    → amount ≤ℤ b.reserved
    → (db' : WalletDb) × (release_hold u a amount db ≡ ok (tt, db'))
      × Held u a (pos 0) amount db db'
unfolding release_hold update_balance
release_hold_lem u a amount db b h found nonneg fits =
    let (low, high) = Checked_bounds u a db b h found in
    let good = balance_check_of (sub_reserved amount b) (omega int_laws) (omega int_laws) in
    (
      updated u a (sub_reserved amount) db,
      rw (found, good),
      updated-Held u a (sub_reserved amount) (pos 0) amount db b (λ c. (refl, refl)) refl
          (omega int_laws) found good,
    )
