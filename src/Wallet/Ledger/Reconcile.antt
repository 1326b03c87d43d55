-- ===== src/Wallet/Ledger/Reconcile.antt =====
-- services/wallet/wallet_service/services/ledger.py: `reconcile`, the report that compares every
-- snapshot with the sum of its ledger entries. The order of texts is the database's collation, a
-- parameter.
use mathlib.Core.List.{Memᴰ}
use mini_crypto_wallet.Base.{
  ℕ, ◌==◌, ◌≡◌, ◌↔◌, refl, inl, inr, Bool, true, ◌&&◌, ◌||◌, some, List, [], ◌∷◌, String, arith,
  Bool-cases, Option-cases, false, map, ltb, str_eq, ap, ◌∙◌, eq_iff, if◌then◌else◌,
}
use mini_crypto_wallet.Base.Int.{ℤ, pos, ◌+ℤ◌, eqb_ℤ, eq_of_parts, int_laws}
use mini_crypto_wallet.Base.Text.{show_ℤ}
use mini_crypto_wallet.Base.Table.{
  any, find?, update, sum, is_some, find?_sound, find?-update_self, find?-update_ne,
}
use mini_crypto_wallet.Base.Result.{if_none}
use mini_crypto_wallet.Wallet.Models.{WalletDb, Balance, LedgerEntry, find_balance}
use mini_crypto_wallet.Wallet.Ledger.Rows.{posted_of}
use mini_crypto_wallet.Wallet.Ledger.Laws.{Reconciled, amount_in, ledger_sum}

pub record ReportRow : Type 0 where
  pub user_id : ℕ
  pub asset : String
  pub snapshot_posted : String
  pub ledger_sum : String
  pub reserved : String
  pub consistent : Bool

-- A row of the subquery `sums`: a group of entries and the sum of their amounts.
pub record SumRow : Type 0 where
  pub user_id : ℕ
  pub asset : String
  pub total : ℤ

abbrev is_group : ℕ → String → SumRow → Bool
is_group u a g = g.user_id == u && str_eq g.asset a

-- GROUP BY user_id, asset: an entry opens its group or is added to it.
abbrev add_entry : LedgerEntry → List SumRow → List SumRow
add_entry e groups =
    if any (is_group e.user_id e.asset) groups
    then update (is_group e.user_id e.asset) (λ g. record g { total = g.total +ℤ e.amount }) groups
    else record { user_id = e.user_id; asset = e.asset; total = e.amount } ∷ groups

unfoldable pub sums : List LedgerEntry → List SumRow
sums [] = []
sums (e ∷ es) = add_entry e (sums es)

-- The outer join with `sums`, and `coalesce(sums.c.total, 0)`.
abbrev joined_total : List SumRow → Balance → ℤ
joined_total groups b = if_none (find? (is_group b.user_id b.asset) groups) (pos 0) (λ g. g.total)

abbrev report_row : List SumRow → Balance → ReportRow
report_row groups b =
    let total = joined_total groups b in
    record {
      user_id = b.user_id;
      asset = b.asset;
      snapshot_posted = show_ℤ b.posted;
      ledger_sum = show_ℤ total;
      reserved = show_ℤ b.reserved;
      consistent = eqb_ℤ b.posted total;
    }

module _ (collates : String → String → Bool) where
  -- ORDER BY user_id, asset
  abbrev before : Balance → Balance → Bool
  before a b = ltb a.user_id b.user_id || (a.user_id == b.user_id && collates a.asset b.asset)

  abbrev insert_row : Balance → List Balance → List Balance
  insert_row a [] = a ∷ []
  insert_row a (b ∷ bs) = let rest = insert_row a bs in if before a b then a ∷ b ∷ bs else b ∷ rest

  abbrev in_order : List Balance → List Balance
  in_order [] = []
  in_order (b ∷ bs) = insert_row b (in_order bs)

  unfoldable pub reconcile : WalletDb → List ReportRow
  reconcile db = map (report_row (sums db.ledger_entries)) (in_order db.balances)

-- Every row of a report is consistent.
abbrev pub all_consistent : List ReportRow → Bool
all_consistent [] = true
all_consistent (r ∷ rs) = r.consistent && all_consistent rs

-- A snapshot agrees with the ledger.
abbrev pub Agrees : WalletDb → Balance → Type 0
Agrees db b = b.posted ≡ ledger_sum b.user_id b.asset db

abbrev pub AllAgree : WalletDb → List Balance → Type 0
AllAgree db [] = Unit
AllAgree db (b ∷ bs) = Agrees db b × AllAgree db bs

eqb_ℤ-true : (a b : ℤ) → (eqb_ℤ a b ≡ true) ↔ (a ≡ b)
eqb_ℤ-true a b = (λ h. eq_of_parts a b (ground arith), λ h. rw h (ground arith))

any-find? : {A : Type 0} (p : A → Bool) (xs : List A) → any p xs ≡ is_some (find? p xs)
any-find? p [] = refl
any-find? p (x ∷ xs) = ground (arith, any-find? p xs)

module _ (u : ℕ) (a : String) where
  abbrev total_in : List SumRow → ℤ
  total_in groups = if_none (find? (is_group u a) groups) (pos 0) (λ g. g.total)

  other_group :
      (e : LedgerEntry) (g : SumRow)
      → (e.user_id == u && str_eq e.asset a) ≡ false
      → is_group e.user_id e.asset g ≡ true
      → is_group u a g ≡ false
  other_group e g k h =
      let same_user : g.user_id ≡ e.user_id = ground arith in
      let same_asset : g.asset ≡ e.asset = (eq_iff g.asset e.asset).0 (ground arith) in
      rw (same_user, same_asset, k) refl

  -- An entry moves the sum of its own group alone.
  total_in-add_entry :
      (e : LedgerEntry) (groups : List SumRow)
      → total_in (add_entry e groups) ≡ amount_in u a e +ℤ total_in groups
  total_in-add_entry e groups = elim (Bool-cases (e.user_id == u && str_eq e.asset a)) [
    | inl k ↦
        let same_user : e.user_id ≡ u = ground arith in
        let same_asset : e.asset ≡ a = (eq_iff e.asset a).0 (ground arith) in
        let key : (u == u && str_eq a a) ≡ true = ground (arith, eq_iff a a) in
        rw (same_user, same_asset, key, any-find? (is_group u a) groups)
          (elim (Option-cases (find? (is_group u a) groups)) [
            | inl m ↦ rw (m, key) (omega int_laws)
            | inr (g, m) ↦
                let is = find?_sound (is_group u a) groups g m in
                let found =
                  find?-update_self (is_group u a) (λ h. record h { total = h.total +ℤ e.amount })
                    groups g m is in
                rw (m, found) (omega int_laws)
          ])
    | inr k ↦ elim (Bool-cases (any (is_group e.user_id e.asset) groups)) [
      | inl m ↦
          rw
            (
              m,
              k,
              find?-update_ne (is_group u a) (is_group e.user_id e.asset)
                  (λ h. record h { total = h.total +ℤ e.amount }) groups
                  (λ g h. let other = other_group e g k h in (other, other)),
            )
            (omega int_laws)
      | inr m ↦ rw (m, k) (omega int_laws)
    ]
  ]

  total_in-sums : (es : List LedgerEntry) → total_in (sums es) ≡ sum (amount_in u a) es
  unfolding sums
  total_in-sums [] = refl
  total_in-sums (e ∷ es) =
      total_in-add_entry e (sums es) ∙ ap (λ t. amount_in u a e +ℤ t) (total_in-sums es)

all_consistent-AllAgree :
    (db : WalletDb) (bs : List Balance)
    → (all_consistent (map (report_row (sums db.ledger_entries)) bs) ≡ true) ↔ AllAgree db bs
all_consistent-AllAgree db [] = (λ h. tt, λ h. refl)
all_consistent-AllAgree db (b ∷ bs) =
    let rest = all_consistent-AllAgree db bs in
    let same = eqb_ℤ-true b.posted (ledger_sum b.user_id b.asset db) in
    let total : joined_total (sums db.ledger_entries) b ≡ ledger_sum b.user_id b.asset db =
      total_in-sums b.user_id b.asset db.ledger_entries in
    rw total (
      λ h. (same.0 (ground arith), rest.0 (ground arith)),
      λ h. let one = same.1 h.0 in let more = rest.1 h.1 in rw (one, more) refl,
    )

module _ (collates : String → String → Bool) (db : WalletDb) where
  AllAgree-insert_row :
      (b : Balance) (bs : List Balance)
      → AllAgree db (insert_row collates b bs) ↔ (Agrees db b × AllAgree db bs)
  AllAgree-insert_row b [] = (λ h. h, λ h. h)
  AllAgree-insert_row b (c ∷ bs) =
      let rest = AllAgree-insert_row b bs in
      elim (Bool-cases (before collates b c)) [
        | inl k ↦ rw k (λ h. h, λ h. h)
        | inr k ↦
            rw k (λ h. let (x, y) = rest.0 h.1 in (x, (h.0, y)), λ h. (h.1.0, rest.1 (h.0, h.1.1)))
      ]

  AllAgree-in_order : (bs : List Balance) → AllAgree db (in_order collates bs) ↔ AllAgree db bs
  AllAgree-in_order [] = (λ h. h, λ h. h)
  AllAgree-in_order (b ∷ bs) =
      let rest = AllAgree-in_order bs in
      let inserted = AllAgree-insert_row b (in_order collates bs) in
      (λ h. let (x, y) = inserted.0 h in (x, rest.0 y), λ h. inserted.1 (h.0, rest.1 h.1))

  -- The report is consistent in every row exactly when each stored snapshot is the sum of its ledger
  -- entries.
  pub reconcile-AllAgree : (all_consistent (reconcile collates db) ≡ true) ↔ AllAgree db db.balances
  unfolding reconcile
  reconcile-AllAgree =
      let rows = all_consistent-AllAgree db (in_order collates db.balances) in
      let order = AllAgree-in_order db.balances in
      (λ h. order.0 (rows.0 h), λ h. rows.1 (order.1 h))

-- Each stored snapshot is found by its key.
abbrev pub Keyed : WalletDb → Type 0
Keyed db = (b : Balance) → Memᴰ b db.balances → find_balance b.user_id b.asset db ≡ some b

AllAgree-all :
    (db : WalletDb) (bs : List Balance) → ((b : Balance) → Memᴰ b bs → Agrees db b) → AllAgree db bs
AllAgree-all db [] h = tt
AllAgree-all db (b ∷ bs) h = (h b (Memᴰ.head refl), AllAgree-all db bs (λ c m. h c (Memᴰ.tail m)))

-- The invariant of the ledger is what the report looks for.
pub reconcile-Reconciled :
    (collates : String → String → Bool) (db : WalletDb)
    → Reconciled db
    → Keyed db
    → all_consistent (reconcile collates db) ≡ true
reconcile-Reconciled collates db h keyed = (reconcile-AllAgree collates db).1 (
    AllAgree-all db db.balances (λ b m.
      let agrees : posted_of b.user_id b.asset db ≡ ledger_sum b.user_id b.asset db =
        h b.user_id b.asset in
      rw (keyed b m) at agrees))
