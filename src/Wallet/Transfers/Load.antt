-- ===== src/Wallet/Transfers/Load.antt =====
-- How the consumers of chain events find their transfer, and what they do by its status.
use mini_crypto_wallet.Base.{
  ◌≡◌, refl, sym, subst, inl, inr, ◌⊎◌, ◌∙◌, true, not, Option, none, some,
}
use mini_crypto_wallet.Base.Result.{
  Tx, Error, ok, or_raise, gets, key_error, value_error, bind-eq-ok, ok-injective,
}
use mini_crypto_wallet.Base.Text.{parse_uuid}
use mini_crypto_wallet.Common.Events.{Payload, get, show}
use mini_crypto_wallet.Wallet.Models.{
  WalletDb, Transfer, TransferStatus, created, processing, broadcasted, confirmed, failed,
  is_terminal, find_transfer,
}
use mini_crypto_wallet.Wallet.Transfers.{
  Outcome, duplicate, ignored, load_for_update, settle_by_status, fail_by_status,
}
use mini_crypto_wallet.Wallet.Transfers.Save.{find_transfer_id}

pub or_raise_keeps :
    {S A : Type 0} (o : Option A) (e : Error) (a : A) (s s' : S)
    → or_raise o e s ≡ ok (a, s')
    → s' ≡ s
or_raise_keeps none e a s s' h = cc
or_raise_keeps (some b) e a s s' h = sym (ok-injective _ _ _ _ h).1

-- A transfer that is loaded is the one found by its own id, and loading changes nothing.
pub load_for_update_lem :
    (payload : Payload) (o : Option Transfer) (db db' : WalletDb)
    → load_for_update payload db ≡ ok (o, db')
    → (db' ≡ db) × ((t : Transfer) → o ≡ some t → find_transfer t.id db ≡ some t)
unfolding load_for_update
load_for_update_lem payload o db db' h =
    let (raw, db1, e1, h1) =
      bind-eq-ok (or_raise (get "transfer_id" payload) key_error db) _ o db' h in
    let (id, db2, e2, h2) =
      bind-eq-ok (or_raise (parse_uuid (show raw)) value_error db1) (λ i. gets (find_transfer i)) o
        db' h1 in
    let same1 : db1 ≡ db = or_raise_keeps (get "transfer_id" payload) key_error raw db db1 e1 in
    let same2 : db2 ≡ db1 = or_raise_keeps (parse_uuid (show raw)) value_error id db1 db2 e2 in
    let (found, last) = ok-injective _ _ _ _ h2 in
    (
      sym last ∙ same2 ∙ same1,
      λ t e.
          let at_id : find_transfer id db ≡ some t =
            subst (λ d. find_transfer id d ≡ some t) (same2 ∙ same1) (found ∙ e) in
          subst (λ i. find_transfer i db ≡ some t) (sym (find_transfer_id id db t at_id)) at_id,
    )

-- The branches of the two handlers, on any work.
module _ (work other : Tx WalletDb Outcome) (db : WalletDb) where
  pub settle_by_status_lem :
      (s : TransferStatus)
      → ((not (is_terminal s) ≡ true) × (settle_by_status s work db ≡ work db))
        ⊎ ((s ≡ confirmed) × (settle_by_status s work db ≡ ok (duplicate, db)))
        ⊎ ((s ≡ failed) × (settle_by_status s work db ≡ ok (ignored, db)))
  settle_by_status_lem created = inl (refl, refl)
  settle_by_status_lem processing = inl (refl, refl)
  settle_by_status_lem broadcasted = inl (refl, refl)
  settle_by_status_lem confirmed = inr (inl (refl, refl))
  settle_by_status_lem failed = inr (inr (refl, refl))

  pub fail_by_status_lem :
      (s : TransferStatus)
      → ((not (is_terminal s) ≡ true) × (fail_by_status s work other db ≡ other db))
        ⊎ ((s ≡ confirmed) × (fail_by_status s work other db ≡ work db))
        ⊎ ((s ≡ failed) × (fail_by_status s work other db ≡ ok (duplicate, db)))
  fail_by_status_lem created = inl (refl, refl)
  fail_by_status_lem processing = inl (refl, refl)
  fail_by_status_lem broadcasted = inl (refl, refl)
  fail_by_status_lem confirmed = inr (inl (refl, refl))
  fail_by_status_lem failed = inr (inr (refl, refl))
