-- ===== src/Blockchain/Deposits/Once.antt =====
-- A log that is scanned again is no new deposit.
use mini_crypto_wallet.Base.{
  ℕ, ◌≡◌, refl, sym, subst, inl, inr, Bool, true, false, Option, none, some, String, arith, eq_iff,
  Bool-cases, Option-cases,
}
use mini_crypto_wallet.Base.Int.{pos, leb_ℤ}
use mini_crypto_wallet.Base.Table.{find?, update, find?-append, find?-update_self, find?_sound}
use mini_crypto_wallet.Base.Result.{ok, unsupported_asset, bind-eq-ok, ok-injective}
use mini_crypto_wallet.Base.Keeps.{Keeps, Keeps-bind, Keeps-or_raise, Keeps-pure, unchanged}
use mini_crypto_wallet.Common.Assets.{get_asset}
use mini_crypto_wallet.Blockchain.Models.{ChainDb, Deposit, enqueue}
use mini_crypto_wallet.Blockchain.Models.DepositStatus.{reorged}
use mini_crypto_wallet.Blockchain.Deposits.{
  TransferLog, is_deposit, new_deposit, revived, insert_or_revive, upsert_deposit, deposit_payload,
  deposit_status_eq,
}

abbrev log_is : TransferLog → Deposit → Bool
log_is e = is_deposit e.network e.tx_hash e.log_index

new_is : (id : String) (e : TransferLog) → log_is e (new_deposit id e) ≡ true
new_is id e = ground (arith, eq_iff e.network e.network, eq_iff e.tx_hash e.tx_hash)

-- A database in which the log stands as a deposit that no reorg took back.
abbrev pub Live : TransferLog → ChainDb → Type 0
Live e db =
    (leb_ℤ (pos 1) e.amount ≡ true)
    × ((d : Deposit) × (find? (log_is e) db.deposits ≡ some d)
        × (deposit_status_eq d.status reorged ≡ false))

revived_by_key :
    (e : TransferLog) (d : Deposit) (db : ChainDb)
    → find? (log_is e) db.deposits ≡ some d
    → find?
        (log_is e)
        (update (is_deposit d.network d.tx_hash d.log_index) (λ old. revived e d) db.deposits)
      ≡ some (revived e d)
revived_by_key e d db found =
    let key = find?_sound (log_is e) db.deposits d found in
    let n : d.network ≡ e.network = ground (arith, eq_iff d.network e.network) in
    let h : d.tx_hash ≡ e.tx_hash = ground (arith, eq_iff d.tx_hash e.tx_hash) in
    let i : d.log_index ≡ e.log_index = ground arith in
    subst (λ p. find? (log_is e) (update p (λ old. revived e d) db.deposits) ≡ some (revived e d))
      (sym (keys n h i)) (find?-update_self (log_is e) (λ old. revived e d) db.deposits d found key)
  where
    keys :
        d.network ≡ e.network
        → d.tx_hash ≡ e.tx_hash
        → d.log_index ≡ e.log_index
        → is_deposit d.network d.tx_hash d.log_index ≡ log_is e
    keys n h i = λ j. is_deposit (n j) (h j) (i j)

insert_or_revive-Live :
    (id : String) (e : TransferLog) (o : Option Deposit) (db db' : ChainDb)
    → insert_or_revive id e db ≡ ok (o, db')
    → Live e db'
unfolding insert_or_revive
insert_or_revive-Live id e o db db' h = elim (Bool-cases (leb_ℤ (pos 1) e.amount)) [
  | inr k ↦ cc (rw k at h)
  | inl k ↦ elim (Option-cases (find? (log_is e) db.deposits)) [
    | inl new ↦
        rw (← (ok-injective _ _ _ _ (rw (k, new) at h)).1)
          (k, (new_deposit id e, rw (find?-append, new, new_is id e), refl))
    | inr (d, found) ↦ elim (Bool-cases (deposit_status_eq d.status reorged)) [
      | inl gone ↦
          rw (← (ok-injective _ _ _ _ (rw (k, found, gone) at h)).1)
            (k, (revived e d, revived_by_key e d db found, refl))
      | inr live ↦ rw (← (ok-injective _ _ _ _ (rw (k, found, live) at h)).1) (k, (d, found, live))
    ]
  ]
]

Live-unchanged :
    (id : String) (e : TransferLog) (db : ChainDb)
    → Live e db
    → insert_or_revive id e db ≡ ok (none, db)
unfolding insert_or_revive
Live-unchanged id e db (positive, (d, found, live)) = rw (positive, found, live)

pub payload-Keeps : (d : Deposit) (n : ℕ) → Keeps unchanged (deposit_payload d n)
unfolding deposit_payload
payload-Keeps d n =
    Keeps-bind unchanged _ _ (Keeps-or_raise unchanged (get_asset d.asset) unsupported_asset)
      λ asset. Keeps-pure unchanged _

upsert-Live :
    (uuid5 : String → String) (fresh : TransferLog → String) (e : TransferLog) (new : Bool)
    (db db' : ChainDb)
    → upsert_deposit uuid5 fresh e db ≡ ok (new, db')
    → Live e db'
unfolding upsert_deposit enqueue
upsert-Live uuid5 fresh e new db db' h =
    let (o, db1, e1, h1) = bind-eq-ok (insert_or_revive (fresh e) e db) _ new db' h in
    let live = insert_or_revive-Live (fresh e) e o db db1 e1 in
    elim (Option-cases o) [
      | inl k ↦ subst (Live e) (ok-injective _ _ _ _ (rw k at h1)).1 live
      | inr (d, k) ↦
          let (payload, db2, e2, h2) =
            bind-eq-ok (deposit_payload d 0 db1) _ new db' (rw k at h1) in
          let same = payload-Keeps d 0 payload db1 db2 e2 in
          subst (Live e) (ok-injective _ _ _ _ h2).1 (subst (Live e) (sym same) live)
    ]

-- Once a log has been recorded, recording the same log again reports no new deposit and changes
-- nothing, neither the deposits nor the outbox.
pub upsert_deposit_once :
    (uuid5 uuid5' : String → String) (fresh fresh' : TransferLog → String) (e : TransferLog)
    (new : Bool) (db db' : ChainDb)
    → upsert_deposit uuid5 fresh e db ≡ ok (new, db')
    → upsert_deposit uuid5' fresh' e db' ≡ ok (false, db')
upsert_deposit_once uuid5 uuid5' fresh fresh' e new db db' h =
    let live = upsert-Live uuid5 fresh e new db db' h in
    unfold upsert_deposit in rw (Live-unchanged (fresh' e) e db' live)
