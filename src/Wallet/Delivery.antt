-- ===== src/Wallet/Delivery.antt =====
-- The deliveries of events to `dispatch`: at least once by the bus, handled once.
use mini_crypto_wallet.Base.{
  ℕ, ◌≡◌, refl, sym, subst, inl, inr, ◌⊎◌, ap, true, some, List, [], ◌∷◌, String, arith, eq_iff,
  Bool-cases, Option-cases,
}
use mini_crypto_wallet.Base.Table.{any-append}
use mini_crypto_wallet.Base.Result.{Result, Error, ok, err, ok-injective, commit}
use mini_crypto_wallet.Base.Text.{parse_uuid}
use mini_crypto_wallet.Common.Events.{EventEnvelope}
use mini_crypto_wallet.Wallet.Models.{WalletDb, find_transfer}
use mini_crypto_wallet.Wallet.Transfers.{Outcome, duplicate}
use mini_crypto_wallet.Wallet.Dispatcher.{
  was_processed, handle, claim_and_handle, dispatch, claimed,
}
use mini_crypto_wallet.Wallet.Invariant.{Inv}
use mini_crypto_wallet.Wallet.Transfers.Save.{Postings-same}
use mini_crypto_wallet.Wallet.Ledger.Laws.{Later}
use mini_crypto_wallet.Wallet.Users.{wallet_by_address}
use mini_crypto_wallet.Wallet.Frame.Handlers.{handle-Frame}
use mini_crypto_wallet.Wallet.Kept.{handle-Inv}

claimed-Inv : (id : String) (e : EventEnvelope) (db : WalletDb) → Inv db → Inv (claimed id e db)
claimed-Inv id e db h = record {
  reconciled = h.reconciled;
  checked = h.checked;
  holds = h.holds;
  sound = h.sound;
  postings =
      λ i. Postings-same i (find_transfer i db) db (claimed id e db) (λ u k. refl) (h.postings i);
}

-- The two ways in which the transaction of a dispatch succeeds.
pub data Claims (now : ℕ) (e : EventEnvelope) (out : Outcome) (db db' : WalletDb) : Type 0 where
  again :
      (id : String)
      → parse_uuid e.event_id ≡ some id
      → was_processed id db ≡ true
      → db' ≡ db
      → Claims now e out db db'
  first :
      (id : String)
      → parse_uuid e.event_id ≡ some id
      → handle now e (claimed id e db) ≡ ok (out, db')
      → Claims now e out db db'

claims :
    (now : ℕ) (e : EventEnvelope) (out : Outcome) (db db' : WalletDb)
    → claim_and_handle now e db ≡ ok (out, db')
    → Claims now e out db db'
unfolding claim_and_handle
claims now e out db db' h = elim (Option-cases (parse_uuid e.event_id)) [
  | inl k ↦ cc (rw k at h)
  | inr (id, k) ↦ elim (Bool-cases (was_processed id db)) [
    | inl known ↦ again id k known (sym (ok-injective _ _ _ _ (rw (k, known) at h)).1)
    | inr new ↦ first id k (rw (k, new) at h)
  ]
]

claim_and_handle-Inv :
    (now : ℕ) (e : EventEnvelope) (out : Outcome) (db db' : WalletDb)
    → Claims now e out db db'
    → Inv db
    → Inv db'
claim_and_handle-Inv now e out db db' (again id k known same) h = subst Inv (sym same) h
claim_and_handle-Inv now e out db db' (first id k handled) h =
    handle-Inv now e out (claimed id e db) db' handled (claimed-Inv id e db h)

claimed_is_processed :
    (id : String) (e : EventEnvelope) (db : WalletDb) → was_processed id (claimed id e db) ≡ true
claimed_is_processed id e db = rw any-append (ground (arith, eq_iff id id))

claimed_keeps :
    (id id' : String) (e : EventEnvelope) (db : WalletDb)
    → was_processed id' db ≡ true
    → was_processed id' (claimed id e db) ≡ true
claimed_keeps id id' e db h = rw (any-append, h)

-- A processed event stays processed.
pub claims_keep :
    (now : ℕ) (e : EventEnvelope) (out : Outcome) (id' : String) (db db' : WalletDb)
    → Claims now e out db db'
    → was_processed id' db ≡ true
    → was_processed id' db' ≡ true
claims_keep now e out id' db db' (again id k known same) h = rw same h
claims_keep now e out id' db db' (first id k handled) h =
    rw (handle-Frame now e out (claimed id e db) db' handled).processed
      (claimed_keeps id id' e db h)

pub claims_record :
    (now : ℕ) (e : EventEnvelope) (out : Outcome) (db db' : WalletDb)
    → Claims now e out db db'
    → (id : String) × (parse_uuid e.event_id ≡ some id) × (was_processed id db' ≡ true)
claims_record now e out db db' (again id k known same) = (id, k, rw same known)
claims_record now e out db db' (first id k handled) = (
  id,
  k,
  rw (handle-Frame now e out (claimed id e db) db' handled).processed
      (claimed_is_processed id e db),
)

-- A dispatch ends in one of two ways.
pub dispatch-cases :
    (now : ℕ) (e : EventEnvelope) (db : WalletDb)
    → ((out : Outcome) × (db' : WalletDb) × (dispatch now e db ≡ (ok out, db'))
        × Claims now e out db db')
      ⊎ ((x : Error) × (dispatch now e db ≡ (err x, db)))
unfolding dispatch
dispatch-cases now e db = ended (claim_and_handle now e db) refl
  where
    ended :
        (r : Result (Outcome × WalletDb))
        → claim_and_handle now e db ≡ r
        → ((out : Outcome) × (db' : WalletDb) × (commit (claim_and_handle now e db) db
              ≡ (ok out, db'))
            × Claims now e out db db')
          ⊎ ((x : Error) × (commit (claim_and_handle now e db) db ≡ (err x, db)))
    ended (ok (out, db')) h = inl (out, db', rw h, claims now e out db db' h)
    ended (err x) h = inr (x, rw h)

-- Events in the order of their delivery, each with the time of its call.
abbrev pub deliver : List (ℕ × EventEnvelope) → WalletDb → WalletDb
deliver [] db = db
deliver ((now, e) ∷ es) db = deliver es (dispatch now e db).1

pub dispatch-Inv :
    (now : ℕ) (e : EventEnvelope) (db : WalletDb) → Inv db → Inv (dispatch now e db).1
dispatch-Inv now e db h = elim (dispatch-cases now e db) [
  | inl (out, db', k, c) ↦ rw k (claim_and_handle-Inv now e out db db' c h)
  | inr (x, k) ↦ rw k h
]

-- Whatever events are delivered, in whatever order and however often, the invariant still holds.
pub deliver-Inv : (es : List (ℕ × EventEnvelope)) (db : WalletDb) → Inv db → Inv (deliver es db)
deliver-Inv [] db h = h
deliver-Inv ((now, e) ∷ es) db h = deliver-Inv es (dispatch now e db).1 (dispatch-Inv now e db h)

deliver_keeps :
    (es : List (ℕ × EventEnvelope)) (id : String) (db : WalletDb)
    → was_processed id db ≡ true
    → was_processed id (deliver es db) ≡ true
deliver_keeps [] id db h = h
deliver_keeps ((now, e) ∷ es) id db h = elim (dispatch-cases now e db) [
  | inl (out, db', k, c) ↦
      subst (λ d. was_processed id (deliver es d) ≡ true)
        (sym (ap (λ (r : Result Outcome × WalletDb). r.1) k))
        (deliver_keeps es id db' (claims_keep now e out id db db' c h))
  | inr (x, k) ↦
      subst (λ d. was_processed id (deliver es d) ≡ true)
        (sym (ap (λ (r : Result Outcome × WalletDb). r.1) k)) (deliver_keeps es id db h)
]

-- A delivered event takes no ledger entry, no balance row and no wallet away.
claims-Later :
    (now : ℕ) (e : EventEnvelope) (out : Outcome) (db db' : WalletDb)
    → Claims now e out db db'
    → Later db db'
unfolding wallet_by_address
claims-Later now e out db db' (again id k known same) =
    rw same (record { entries = λ p h. h; rows = λ u a h. h; wallets = λ a w h. h })
claims-Later now e out db db' (first id k handled) =
    let kept = handle-Frame now e out (claimed id e db) db' handled in
    record {
      entries = λ p h. kept.entries p h;
      rows = λ u a h. kept.rows u a h;
      wallets = λ a w h. rw kept.wallets h;
    }

pub deliver-Later : (es : List (ℕ × EventEnvelope)) (db : WalletDb) → Later db (deliver es db)
deliver-Later [] db = record { entries = λ p h. h; rows = λ u a h. h; wallets = λ a w h. h }
deliver-Later ((now, e) ∷ es) db = elim (dispatch-cases now e db) [
  | inl (out, db', k, c) ↦
      let first = claims-Later now e out db db' c in
      let rest = deliver-Later es db' in
      rw k (record {
        entries = λ p h. rest.entries p (first.entries p h);
        rows = λ u a h. rest.rows u a (first.rows u a h);
        wallets = λ a w h. rest.wallets a w (first.wallets a w h);
      })
  | inr (x, k) ↦ rw k (deliver-Later es db)
]

again_duplicate :
    (now : ℕ) (e : EventEnvelope) (id : String) (db : WalletDb)
    → parse_uuid e.event_id ≡ some id
    → was_processed id db ≡ true
    → dispatch now e db ≡ (ok duplicate, db)
unfolding dispatch claim_and_handle
again_duplicate now e id db k h = rw (k, h)

-- A dispatch either raises and leaves the database as it was, or the event is handled for good: a
-- later delivery of it, at any time and after any other events, returns `duplicate` and changes
-- nothing.
pub dispatch_once :
    (now now' : ℕ) (e : EventEnvelope) (es : List (ℕ × EventEnvelope)) (db : WalletDb)
    → let db' = (dispatch now e db).1 in
      ((x : Error) × (dispatch now e db ≡ (err x, db)))
      ⊎ ((out : Outcome) × ((dispatch now e db).0 ≡ ok out)
          × (dispatch now' e (deliver es db') ≡ (ok duplicate, deliver es db')))
dispatch_once now now' e es db = elim (dispatch-cases now e db) [
  | inl (out, db', k, c) ↦
      let (id, parsed, done) = claims_record now e out db db' c in
      inr (
        out,
        rw k,
        rw k (again_duplicate now' e id (deliver es db') parsed (deliver_keeps es id db' done)),
      )
  | inr raised ↦ inl raised
]
