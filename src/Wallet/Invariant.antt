-- ===== src/Wallet/Invariant.antt =====
-- What holds of the wallet database between two transactions: the snapshots agree with the ledger,
-- the reserved funds are those of the open transfers, and the postings of a transfer follow its
-- status.
use mini_crypto_wallet.Base.{
  ℕ, ◌≡◌, inl, inr, Bool, true, false, not, Option, none, some, List, [], ◌∷◌, String, arith,
  Bool-cases, if◌then◌else◌,
}
use mini_crypto_wallet.Base.Int.{ℤ, pos, ◌≤ℤ◌, int_laws}
use mini_crypto_wallet.Base.Table.{find?, update, sum}
use mini_crypto_wallet.Wallet.Models.{
  WalletDb, Transfer, confirmed, EntryType, reversal, transfer_check, find_transfer, has_entry,
  is_terminal,
}
use mini_crypto_wallet.Wallet.Transfers.{reference_type}
use mini_crypto_wallet.Wallet.Ledger.Rows.{reserved_of, Checked}
use mini_crypto_wallet.Wallet.Ledger.Round.{at}
use mini_crypto_wallet.Wallet.Ledger.Laws.{Reconciled}

abbrev pub is_open : Transfer → Bool
is_open t = not (is_terminal t.status)

-- What a transfer holds of the balance of a user in an asset.
abbrev pub hold_in : ℕ → String → Transfer → ℤ
hold_in u a t = if is_open t then at t.from_user_id t.asset t.amount u a else pos 0

abbrev pub held : ℕ → String → WalletDb → ℤ
held u a db = sum (hold_in u a) db.transfers

-- Every row of `transfers` satisfies its check constraints.
abbrev pub AllSound : List Transfer → Type 0
AllSound [] = Unit
AllSound (t ∷ ts) = (transfer_check t ≡ true) × AllSound ts

abbrev pub has_transfer_entry : ℕ → EntryType → String → WalletDb → Bool
has_transfer_entry u t id db = has_entry u t reference_type id db

-- The postings that a transfer's state allows: none before it is settled, no reversal before it has
-- failed.
abbrev pub Postings : String → Option Transfer → WalletDb → Type 0
Postings id none db = (u : ℕ) (e : EntryType) → has_transfer_entry u e id db ≡ false
Postings id (some t) db =
    ((u : ℕ) (e : EntryType) → is_open t ≡ true → has_transfer_entry u e id db ≡ false)
    × ((u : ℕ) → t.status ≡ confirmed → has_transfer_entry u reversal id db ≡ false)

pub record Inv (db : WalletDb) : Type 0 where
  pub reconciled : Reconciled db
  pub checked : Checked db
  pub holds : (u : ℕ) (a : String) → reserved_of u a db ≡ held u a db
  pub sound : AllSound db.transfers
  pub postings : (id : String) → Postings id (find_transfer id db) db

hold_nonneg : (u : ℕ) (a : String) (t : Transfer) → transfer_check t ≡ true → pos 0 ≤ℤ hold_in u a t
hold_nonneg u a t h = ground arith

sum_nonneg : (u : ℕ) (a : String) (ts : List Transfer) → AllSound ts → pos 0 ≤ℤ sum (hold_in u a) ts
sum_nonneg u a [] h = omega arith
sum_nonneg u a (t ∷ ts) h = omega (int_laws, sum_nonneg u a ts h.1, hold_nonneg u a t h.0)

-- No transfer holds more than all of them.
pub hold-le-held :
    (u : ℕ) (a : String) (p : Transfer → Bool) (ts : List Transfer) (t : Transfer)
    → AllSound ts
    → find? p ts ≡ some t
    → hold_in u a t ≤ℤ sum (hold_in u a) ts
hold-le-held u a p [] t h e = cc
hold-le-held u a p (x ∷ xs) t h e = elim (Bool-cases (p x)) [
  | inl k ↦ let same : x ≡ t = ground arith in rw (← same) (omega (int_laws, sum_nonneg u a xs h.1))
  | inr k ↦ omega (int_laws, hold-le-held u a p xs t h.1 (rw k at e), hold_nonneg u a x h.0)
]

pub find_sound :
    (p : Transfer → Bool) (ts : List Transfer) (t : Transfer)
    → AllSound ts
    → find? p ts ≡ some t
    → transfer_check t ≡ true
find_sound p [] t h e = cc
find_sound p (x ∷ xs) t h e = elim (Bool-cases (p x)) [
  | inl k ↦ let same : x ≡ t = ground arith in rw (← same) h.0
  | inr k ↦ find_sound p xs t h.1 (rw k at e)
]

pub update_sound :
    (p : Transfer → Bool) (f : Transfer → Transfer) (ts : List Transfer)
    → ((t : Transfer) → transfer_check t ≡ true → transfer_check (f t) ≡ true)
    → AllSound ts
    → AllSound (update p f ts)
update_sound p f [] keeps h = tt
update_sound p f (x ∷ xs) keeps h = elim (Bool-cases (p x)) [
  | inl k ↦ rw k (keeps x h.0, h.1)
  | inr k ↦ rw k (h.0, update_sound p f xs keeps h.1)
]
