-- ===== src/Wallet/Progress/Advances.antt =====
-- What a run of the transfer progress worker does to the transfers.
use mini_crypto_wallet.Base.{
  ℕ, ◌≡◌, ◌∙◌, refl, sym, subst, ap, ◌⊎◌, inl, inr, true, ◌&&◌, some, List, [], ◌∷◌, String, arith,
  Bool-cases, map, if◌then◌else◌,
}
use mini_crypto_wallet.Base.Table.{any, find?, sum}
use mini_crypto_wallet.Common.Outbox.{OutboxRow}
use mini_crypto_wallet.Wallet.Models.{
  WalletDb, Transfer, TransferStatus, created, processing, broadcasted, confirmed, failed,
  find_transfer, is_transfer,
}
use mini_crypto_wallet.Wallet.Invariant.{Inv, is_open, hold_in, AllSound, Postings}
use mini_crypto_wallet.Wallet.Transfers.Save.{Postings-same}
use mini_crypto_wallet.Wallet.Progress.{is_created, requests, can_advance, advance_all, run_once}

-- The transfer had its request published and was still new; now it is in processing.
abbrev pub Advanced : List OutboxRow → Transfer → Transfer → Type 0
Advanced outbox t t' =
    (t.status ≡ created)
    × (any (requests t.id) outbox ≡ true)
    × (t' ≡ record t { status = processing })

is_created-eq : (s : TransferStatus) → is_created s ≡ true → s ≡ created
is_created-eq created h = refl
is_created-eq processing h = cc
is_created-eq broadcasted h = cc
is_created-eq confirmed h = cc
is_created-eq failed h = cc

module _ (outbox : List OutboxRow) where
  -- What the statement makes of a row.
  abbrev advance : Transfer → Transfer
  advance t = if can_advance outbox t then record t { status = processing } else t

  advance_all-map : (ts : List Transfer) → (advance_all outbox ts).0 ≡ map advance ts
  unfolding advance_all
  advance_all-map [] = refl
  advance_all-map (t ∷ ts) = elim (Bool-cases (can_advance outbox t)) [
    | inl k ↦ rw k (
        ap (λ (rows : List Transfer). record t { status = processing } ∷ rows) (advance_all-map ts))
    | inr k ↦ rw k (ap (λ (rows : List Transfer). t ∷ rows) (advance_all-map ts))
  ]

  -- A row is left alone or advanced.
  advance-cases : (t : Transfer) → (advance t ≡ t) ⊎ Advanced outbox t (advance t)
  unfolding can_advance
  advance-cases t = elim (Bool-cases (is_created t.status && any (requests t.id) outbox)) [
    | inr k ↦ inl (rw k refl)
    | inl k ↦
        let new : is_created t.status ≡ true = ground arith in
        let asked : any (requests t.id) outbox ≡ true = ground arith in
        inr (is_created-eq t.status new, asked, rw k refl)
  ]

  hold_in-advance : (u : ℕ) (a : String) (t : Transfer) → hold_in u a (advance t) ≡ hold_in u a t
  hold_in-advance u a t = elim (advance-cases t) [
    | inl same ↦ ap (hold_in u a) same
    | inr (new, asked, is) ↦ rw (is, new) refl
  ]

  sum-advance :
      (u : ℕ) (a : String) (ts : List Transfer)
      → sum (hold_in u a) (map advance ts) ≡ sum (hold_in u a) ts
  sum-advance u a [] = refl
  sum-advance u a (t ∷ ts) = rw (hold_in-advance u a t, sum-advance u a ts) refl

  AllSound-advance : (ts : List Transfer) → AllSound ts → AllSound (map advance ts)
  AllSound-advance [] h = tt
  AllSound-advance (t ∷ ts) h = elim (advance-cases t) [
    | inl same ↦ (rw same h.0, AllSound-advance ts h.1)
    | inr (new, asked, is) ↦ (rw is h.0, AllSound-advance ts h.1)
  ]

  -- The row with an id, before and after.
  find-advance :
      (id : String) (ts : List Transfer)
      → (find? (is_transfer id) (map advance ts) ≡ find? (is_transfer id) ts)
        ⊎ ((t t' : Transfer) × (find? (is_transfer id) ts ≡ some t)
            × (find? (is_transfer id) (map advance ts) ≡ some t')
            × Advanced outbox t t')
  find-advance id [] = inl refl
  find-advance id (t ∷ ts) = elim (advance-cases t) [
    | inl same ↦ elim (Bool-cases (is_transfer id t)) [
      | inl k ↦ inl (rw (same, k) refl)
      | inr k ↦ rw (same, k) (find-advance id ts)
    ]
    | inr (new, asked, is) ↦ elim (Bool-cases (is_transfer id t)) [
      | inl k ↦
          inr (t, record t { status = processing }, rw k refl, rw (is, k) refl, (new, asked, refl))
      | inr k ↦ rw (is, k) (find-advance id ts)
    ]
  ]

-- A row that is advanced is as open as before.
Postings-advance :
    (id : String) (t t' : Transfer) (db : WalletDb) (outbox : List OutboxRow)
    → Advanced outbox t t'
    → Postings id (some t) db
    → Postings id (some t') db
Postings-advance id t t' db outbox (new, asked, is) h =
    let open_before : is_open t ≡ true = rw new refl in
    let later : t'.status ≡ processing = rw is refl in (λ u e k. h.0 u e open_before, λ u k. cc)

-- A run of the worker keeps the invariant and changes no transfer but those that are new and whose
-- request is published, which are then in processing.
pub run_once-Advances :
    (db : WalletDb)
    → Inv db
    → let db' = (run_once db).1 in
      Inv db'
      × ((id : String)
          → (find_transfer id db' ≡ find_transfer id db)
            ⊎ ((t t' : Transfer) × (find_transfer id db ≡ some t)
                × (find_transfer id db' ≡ some t')
                × Advanced db.outbox t t'))
unfolding run_once
run_once-Advances db h = rw (advance_all-map db.outbox db.transfers) (
  record {
    reconciled = h.reconciled;
    checked = h.checked;
    holds = λ u a. h.holds u a ∙ sym (sum-advance db.outbox u a db.transfers);
    sound = AllSound-advance db.outbox db.transfers h.sound;
    postings = λ id. elim (find-advance db.outbox id db.transfers) [
      | inl same ↦
          rw same (Postings-same id (find_transfer id db) db _ (λ u e. refl) (h.postings id))
      | inr (t, t', before, later, advanced) ↦ rw later (
          Postings-advance id t t' db db.outbox advanced
            (subst (λ o. Postings id o db) before (h.postings id)))
    ];
  },
  λ id. find-advance db.outbox id db.transfers,
)
