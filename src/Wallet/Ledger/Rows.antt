-- ===== src/Wallet/Ledger/Rows.antt =====
-- The balance rows under each statement that writes them: what a later read finds.
use mini_crypto_wallet.Base.{
  ℕ, ◌==◌, ◌≡◌, refl, ◌⊎◌, inl, inr, ◌∙◌, Bool, true, false, ◌&&◌, Option, none, some, List, String,
  str_eq, if◌then◌else◌, arith, eq_iff, Bool-cases, Option-cases,
}
use mini_crypto_wallet.Base.Int.{ℤ, pos}
use mini_crypto_wallet.Base.Table.{
  find?, update, is_some, or_else, find?-append, find?-update_self, find?-update_ne, find?_sound,
}
use mini_crypto_wallet.Wallet.Models.{WalletDb, Balance, is_balance, balance_check, find_balance}
use mini_crypto_wallet.Wallet.Ledger.{new_balance, ensure_balance}

abbrev pub same_key : ℕ → String → ℕ → String → Bool
same_key u a u' a' = u == u' && str_eq a a'

pub same_key_refl : (u : ℕ) (a : String) → same_key u a u a ≡ true
same_key_refl u a = ground (arith, eq_iff a a)

-- The parts of a balance that an amount is read from; a missing row counts as zero.
abbrev pub posted_or_zero : Option Balance → ℤ
posted_or_zero none = pos 0
posted_or_zero (some b) = b.posted

abbrev pub reserved_or_zero : Option Balance → ℤ
reserved_or_zero none = pos 0
reserved_or_zero (some b) = b.reserved

abbrev pub posted_of : ℕ → String → WalletDb → ℤ
posted_of u a db = posted_or_zero (find_balance u a db)

abbrev pub reserved_of : ℕ → String → WalletDb → ℤ
reserved_of u a db = reserved_or_zero (find_balance u a db)

-- A change of a balance row leaves its primary key.
abbrev pub KeepsKey : (Balance → Balance) → Type 0
KeepsKey f = (b : Balance) → ((f b).user_id ≡ b.user_id) × ((f b).asset ≡ b.asset)

is_balance_ne :
    (u u' : ℕ) (a a' : String) (b : Balance)
    → same_key u a u' a' ≡ false
    → is_balance u a b ≡ true
    → is_balance u' a' b ≡ false
is_balance_ne u u' a a' b h k = ground (arith, eq_iff a a', eq_iff b.asset a, eq_iff b.asset a')

pub same_key_eq : (u u' : ℕ) (a a' : String) → same_key u a u' a' ≡ true → (u ≡ u') × (a ≡ a')
same_key_eq u u' a a' h = (ground arith, ground (arith, eq_iff a a'))

is_balance-keeps :
    (u : ℕ) (a : String) (f : Balance → Balance) (b : Balance)
    → KeepsKey f
    → is_balance u a (f b) ≡ is_balance u a b
is_balance-keeps u a f b keeps = rw ((keeps b).0, (keeps b).1)

-- After the update of one row, a read of its key finds the changed row and any other read is as
-- before.
pub find_balance-update :
    (u u' : ℕ) (a a' : String) (f : Balance → Balance) (rows : List Balance) (b : Balance)
    → KeepsKey f
    → find? (is_balance u a) rows ≡ some b
    → find? (is_balance u' a') (update (is_balance u a) f rows)
      ≡ (if same_key u a u' a' then some (f b) else find? (is_balance u' a') rows)
find_balance-update u u' a a' f rows b keeps h = elim (Bool-cases (same_key u a u' a')) [
  | inl e ↦
      let (eu, ea) = same_key_eq u u' a a' e in
      rw (e, ← eu, ← ea)
        (find?-update_self (is_balance u a) f rows b h
          (is_balance-keeps u a f b keeps ∙ find?_sound (is_balance u a) rows b h))
  | inr e ↦ rw e (
      find?-update_ne (is_balance u' a') (is_balance u a) f rows (λ x hx. (
        is_balance_ne u u' a a' x e hx,
        is_balance-keeps u' a' f x keeps ∙ is_balance_ne u u' a a' x e hx,
      )))
]

append_none : (o : Option Balance) → or_else o none ≡ o
append_none none = refl
append_none (some b) = refl

-- A new row for a key that had none reads as zero, and so did the missing row.
view-ensure :
    (u u' : ℕ) (a a' : String) (db : WalletDb)
    → (posted_of u' a' (ensure_balance u a db) ≡ posted_of u' a' db)
      × (reserved_of u' a' (ensure_balance u a db) ≡ reserved_of u' a' db)
unfolding ensure_balance
view-ensure u u' a a' db = elim (Option-cases (find_balance u a db)) [
  | inr (b, e) ↦ rw e (refl, refl)
  | inl e ↦ elim (Bool-cases (same_key u a u' a')) [
    | inl k ↦
        let (eu, ea) = same_key_eq u u' a a' k in
        rw (e, ← eu, ← ea, find?-append, e, same_key_refl u a) (refl, refl)
    | inr k ↦ rw (e, find?-append, k, append_none) (refl, refl)
  ]
]

pub posted_of-ensure :
    (u u' : ℕ) (a a' : String) (db : WalletDb)
    → posted_of u' a' (ensure_balance u a db) ≡ posted_of u' a' db
posted_of-ensure u u' a a' db = (view-ensure u u' a a' db).0

pub reserved_of-ensure :
    (u u' : ℕ) (a a' : String) (db : WalletDb)
    → reserved_of u' a' (ensure_balance u a db) ≡ reserved_of u' a' db
reserved_of-ensure u u' a a' db = (view-ensure u u' a a' db).1

-- The row exists after the insert.
pub find_balance-ensure :
    (u : ℕ) (a : String) (db : WalletDb)
    → (b : Balance) × (find_balance u a (ensure_balance u a db) ≡ some b)
unfolding ensure_balance
find_balance-ensure u a db = elim (Option-cases (find_balance u a db)) [
  | inr (b, e) ↦ (b, rw e e)
  | inl e ↦ (new_balance u a, rw (e, find?-append, e, same_key_refl u a))
]

abbrev pub has_row : ℕ → String → WalletDb → Bool
has_row u a db = is_some (find_balance u a db)

-- Every balance that is found satisfies the two check constraints.
abbrev pub Checked : WalletDb → Type 0
Checked db =
    (u : ℕ) (a : String) (b : Balance) → find_balance u a db ≡ some b → balance_check b ≡ true

ensure_finds :
    (u u' : ℕ) (a a' : String) (db : WalletDb) (b : Balance)
    → find_balance u' a' (ensure_balance u a db) ≡ some b
    → (find_balance u' a' db ≡ some b) ⊎ (b ≡ new_balance u a)
unfolding ensure_balance
ensure_finds u u' a a' db b h = elim (Option-cases (find_balance u a db)) [
  | inr (c, e) ↦ inl (rw e at h)
  | inl e ↦ elim (Option-cases (find_balance u' a' db)) [
    | inl e' ↦ inr (ground (arith, rw (e, find?-append, e') at h))
    | inr (c, e') ↦ inl (e' ∙ rw (e, find?-append, e') at h)
  ]
]

pub ensure-Checked :
    (u : ℕ) (a : String) (db : WalletDb) → Checked db → Checked (ensure_balance u a db)
ensure-Checked u a db h u' a' b e = elim (ensure_finds u u' a a' db b e) [
  | inl old ↦ h u' a' b old
  | inr new ↦ rw new
]

pub ensure-has_row :
    (u u' : ℕ) (a a' : String) (db : WalletDb)
    → has_row u' a' db ≡ true
    → has_row u' a' (ensure_balance u a db) ≡ true
unfolding ensure_balance
ensure-has_row u u' a a' db h = elim (Option-cases (find_balance u' a' db)) [
  | inl e ↦ cc (rw e at h)
  | inr (b, e) ↦ elim (Bool-cases (has_row u a db)) [
    | inl k ↦ rw k h
    | inr k ↦ rw (k, find?-append, e)
  ]
]

-- An update of one row that keeps the checks of that row keeps them all, and every row.
module _ (u : ℕ) (a : String) (f : Balance → Balance) (db db' : WalletDb) (b : Balance)
    (keeps : KeepsKey f) (found : find_balance u a db ≡ some b)
    (updated : db'.balances ≡ update (is_balance u a) f db.balances) where
  pub find_balance-updated :
      (u' : ℕ) (a' : String)
      → find_balance u' a' db' ≡ (if same_key u a u' a' then some (f b) else find_balance u' a' db)
  find_balance-updated u' a' =
      rw updated (find_balance-update u u' a a' f db.balances b keeps found)

  pub updated-Checked : balance_check (f b) ≡ true → Checked db → Checked db'
  updated-Checked good h u' a' c e = elim (Bool-cases (same_key u a u' a')) [
    | inl k ↦ ground (arith, rw (find_balance-updated u' a', k) at e)
    | inr k ↦ h u' a' c (rw (find_balance-updated u' a', k) at e)
  ]

  pub updated-has_row : (u' : ℕ) (a' : String) → has_row u' a' db ≡ true → has_row u' a' db' ≡ true
  updated-has_row u' a' h = elim (Bool-cases (same_key u a u' a')) [
    | inl k ↦ rw (find_balance-updated u' a', k)
    | inr k ↦ rw (find_balance-updated u' a', k) h
  ]
