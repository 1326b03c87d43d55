-- ===== src/Wallet/Ledger.antt =====
-- services/wallet/wallet_service/services/ledger.py: the posting engine. Row locks change no state.
pub mod Rows
pub mod Round
pub mod Laws
pub mod Reconcile
pub mod Holds
pub mod Pair
use mini_crypto_wallet.Base.{
  ℕ, suc, ◌+◌, ◌==◌, Bool, true, false, not, ◌&&◌, ◌||◌, Option, none, some, List, [], ◌∷◌, ◌++◌,
  String, str_eq, if◌then◌else◌, leb,
}
use mini_crypto_wallet.Base.Int.{ℤ, pos, ◌+ℤ◌, ◌-ℤ◌, leb_ℤ, eqb_ℤ}
use mini_crypto_wallet.Base.Table.{find?, any, update, is_some}
use mini_crypto_wallet.Base.Result.{
  Tx, Result, ok, err, if_none, ◌>>=◌, ◌>>◌, pure, gets, modify, or_raise, raise_if,
  integrity_error, assertion_error,
}
use mini_crypto_wallet.Wallet.Models.{
  WalletDb, Balance, LedgerEntry, EntryType, find_balance, has_entry, update_balance,
}

pub record Posting : Type 0 where
  pub user_id : ℕ
  pub amount : ℤ
  pub entry_type : EntryType
  pub reference_type : String
  pub reference_id : String

abbrev pub new_balance : ℕ → String → Balance
new_balance u a = record { user_id = u; asset = a; posted = pos 0; reserved = pos 0; version = 0 }

-- INSERT ... ON CONFLICT (user_id, asset) DO NOTHING
unfoldable pub ensure_balance : ℕ → String → WalletDb → WalletDb
ensure_balance u a db =
    if is_some (find_balance u a db)
    then db
    else record db { balances = db.balances ++ new_balance u a ∷ [] }

-- `scalar_one` raises where there is no row.
unfoldable pub lock_balance : ℕ → String → Tx WalletDb Balance
lock_balance u a = do
  modify (ensure_balance u a)
  or_raise (← gets (find_balance u a)) assertion_error

unfoldable pub read_balance : ℕ → String → WalletDb → Option Balance
read_balance = find_balance

abbrev pub entry_of : String → String → Posting → LedgerEntry
entry_of cid asset p = record {
  user_id = p.user_id;
  asset = asset;
  amount = p.amount;
  entry_type = p.entry_type;
  reference_type = p.reference_type;
  reference_id = p.reference_id;
  correlation_id = cid;
}

-- INSERT INTO ledger_entries ... ON CONFLICT ON CONSTRAINT uq_ledger_idempotency DO NOTHING; the
-- check ck_ledger_amount_non_zero comes first. Says whether the entry was inserted.
unfoldable pub insert_entry : LedgerEntry → Tx WalletDb Bool
insert_entry e = do
  raise_if (eqb_ℤ e.amount (pos 0)) integrity_error
  known ← gets (has_entry e.user_id e.entry_type e.reference_type e.reference_id)
  modify (λ db. if known then db else record db { ledger_entries = db.ledger_entries ++ e ∷ [] })
  pure (not known)

abbrev pub add_posted : ℤ → Balance → Balance
add_posted x b = record b { posted = b.posted +ℤ x; version = b.version + 1 }

-- One round of the loop of `post_entries`: the number of entries written.
unfoldable pub post_entry : String → String → Posting → Tx WalletDb ℕ
post_entry cid asset p = do
  lock_balance p.user_id asset
  inserted ← insert_entry (entry_of cid asset p)
  if inserted then update_balance p.user_id asset (add_posted p.amount) >> pure 1 else pure 0

-- `sorted(postings, key=lambda p: p.user_id)`, which is stable
abbrev insert_by_user : Posting → List Posting → List Posting
insert_by_user p [] = p ∷ []
insert_by_user p (q ∷ qs) = if leb p.user_id q.user_id then p ∷ q ∷ qs else q ∷ insert_by_user p qs

abbrev pub sort_by_user : List Posting → List Posting
sort_by_user [] = []
sort_by_user (p ∷ ps) = insert_by_user p (sort_by_user ps)

unfoldable pub post_all : String → String → List Posting → Tx WalletDb ℕ
post_all cid asset [] = pure 0
post_all cid asset (p ∷ ps) = do
  one ← post_entry cid asset p
  rest ← post_all cid asset ps
  pure (one + rest)

unfoldable pub post_entries : String → String → List Posting → Tx WalletDb ℕ
post_entries cid asset postings = post_all cid asset (sort_by_user postings)

abbrev pub add_reserved : ℤ → Balance → Balance
add_reserved x b = record b { reserved = b.reserved +ℤ x; version = b.version + 1 }

-- UPDATE ... WHERE posted - reserved >= amount; true if a row was changed.
unfoldable pub place_hold : ℕ → String → ℤ → Tx WalletDb Bool
place_hold u a amount db = if_none (find_balance u a db) (ok (false, db)) λ b.
    if leb_ℤ amount (b.posted -ℤ b.reserved)
    then (update_balance u a (add_reserved amount) >>= λ rows. pure (rows == 1)) db
    else ok (false, db)

abbrev pub sub_reserved : ℤ → Balance → Balance
sub_reserved x b = record b { reserved = b.reserved -ℤ x; version = b.version + 1 }

unfoldable pub release_hold : ℕ → String → ℤ → Tx WalletDb (Unit {0})
release_hold u a amount = update_balance u a (sub_reserved amount) >> pure tt
