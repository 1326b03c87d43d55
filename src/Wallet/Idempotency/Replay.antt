-- ===== src/Wallet/Idempotency/Replay.antt =====
-- A request that is sent again under its idempotency key.
use mini_crypto_wallet.Base.{
  sym, ap, ◌∙◌, false, ◌==◌, ◌≡◌, refl, subst, inl, inr, true, none, some, [], ◌∷◌, ◌++◌, String,
  str_eq, arith, eq_iff, Bool-cases, Option-cases,
}
use mini_crypto_wallet.Base.Table.{find?-append, find?-update_self}
use mini_crypto_wallet.Base.Result.{err, idempotency_conflict, ok, bind-eq-ok, ok-injective}
use mini_crypto_wallet.Wallet.Models.{WalletDb, IdempotencyKey, Transfer}
use mini_crypto_wallet.Wallet.Transfers.{TransferRequest, create_transfer}
use mini_crypto_wallet.Wallet.Idempotency.{
  is_key, find_key, placeholder, add_key, claim, replay, complete, Response, transfer_scope,
  create_and_complete, post_transfer_body, RequestFields, fields_of,
}
use mini_crypto_wallet.Wallet.Frame.Creation.{create_transfer-Frame}

abbrev pub again : Response → Response
again p = record { status = p.status; body = p.body; replayed = true }

abbrev completed : Transfer → IdempotencyKey → IdempotencyKey
completed t k = record k { response_status = 202; response_body = some t; resource_id = some t.id }

-- The row that a completed request leaves.
completed_row :
    (scope key hash : String) (t : Transfer) (db db2 : WalletDb)
    → find_key scope key db ≡ none
    → db2.idempotency_keys ≡ db.idempotency_keys ++ placeholder scope key hash ∷ []
    → find_key scope key (complete scope key 202 t db2)
      ≡ some (completed t (placeholder scope key hash))
unfolding complete
completed_row scope key hash t db db2 new keys =
    find?-update_self (is_key scope key) (completed t) db2.idempotency_keys
      (placeholder scope key hash) (rw (keys, find?-append, new, self)) self
  where
    self : is_key scope key (placeholder scope key hash) ≡ true
    self = ground (arith, eq_iff scope scope, eq_iff key key)

-- A key whose row has this fingerprint and a response is answered with that response.
same_hash_replays :
    (uuid5 : String → String) (fingerprint : RequestFields → String) (r : TransferRequest)
    (x : IdempotencyKey) (db : WalletDb)
    → find_key transfer_scope r.idempotency_key db ≡ some x
    → x.request_hash ≡ fingerprint (fields_of r)
    → (x.response_status == 0) ≡ false
    → post_transfer_body uuid5 fingerprint r db
      ≡ ok (record { status = x.response_status; body = x.response_body; replayed = true }, db)
unfolding post_transfer_body claim replay
same_hash_replays uuid5 fingerprint r x db k same done =
    let equal : str_eq x.request_hash (fingerprint (fields_of r)) ≡ true =
      (eq_iff x.request_hash (fingerprint (fields_of r))).1 same in
    rw (k, equal, done) refl

-- If a transfer request gets a response, a request under the same key from and to the same users, of
-- the same asset, network and amount, gets the same response again, marked as a replay, and changes
-- nothing, whatever its own id and correlation id are; so no second transfer is created.
pub post_transfer_replay :
    (uuid5 uuid5' : String → String) (fingerprint : RequestFields → String) (r r' : TransferRequest)
    (p : Response) (db db' : WalletDb)
    → post_transfer_body uuid5 fingerprint r db ≡ ok (p, db')
    → r'.idempotency_key ≡ r.idempotency_key
    → fields_of r' ≡ fields_of r
    → post_transfer_body uuid5' fingerprint r' db' ≡ ok (again p, db')
unfolding post_transfer_body claim replay create_and_complete
post_transfer_replay uuid5 uuid5' fingerprint r r' p db db' e same_key same_fields =
    elim (Option-cases (find_key transfer_scope r.idempotency_key db)) [
      | inl k ↦
          let first : IdempotencyKey =
            placeholder transfer_scope r.idempotency_key (fingerprint (fields_of r)) in
          let (t, db2, e2, h2) =
            bind-eq-ok (create_transfer uuid5 r (add_key first db)) _ p db' (rw k at e) in
          let (is_p, is_db) = ok-injective _ _ _ _ h2 in
          let keys = (create_transfer-Frame uuid5 r t _ db2 e2).keys in
          let row =
            completed_row transfer_scope r.idempotency_key (fingerprint (fields_of r)) t db db2 k
              keys in
          rw (← is_p) (answered (completed t first) refl refl (rw is_db at row))
      | inr (x, k) ↦ elim (Bool-cases (str_eq x.request_hash (fingerprint (fields_of r)))) [
        | inr n ↦ cc (rw (k, n) at e)
        | inl s ↦ elim (Bool-cases (x.response_status == 0)) [
          | inl z ↦ cc (rw (k, s, z) at e)
          | inr z ↦
              let (is_p, is_db) = ok-injective _ _ _ _ (rw (k, s, z) at e) in
              rw (← is_p) (
                answered x ((eq_iff x.request_hash (fingerprint (fields_of r))).0 s) z
                  (rw is_db at k))
        ]
      ]
    ]
  where
    answered :
        (x : IdempotencyKey)
        → x.request_hash ≡ fingerprint (fields_of r)
        → (x.response_status == 0) ≡ false
        → find_key transfer_scope r.idempotency_key db' ≡ some x
        → post_transfer_body uuid5' fingerprint r' db'
          ≡ ok (record { status = x.response_status; body = x.response_body; replayed = true }, db')
    answered x same done k =
        same_hash_replays uuid5' fingerprint r' x db'
          (subst (λ i. find_key transfer_scope i db' ≡ some x) (sym same_key) k)
          (same ∙ ap fingerprint (sym same_fields)) done

-- A key whose row has another fingerprint is refused.
other_hash_raises :
    (uuid5 : String → String) (fingerprint : RequestFields → String) (r : TransferRequest)
    (x : IdempotencyKey) (db : WalletDb)
    → find_key transfer_scope r.idempotency_key db ≡ some x
    → str_eq x.request_hash (fingerprint (fields_of r)) ≡ false
    → post_transfer_body uuid5 fingerprint r db ≡ err idempotency_conflict
unfolding post_transfer_body claim replay
other_hash_raises uuid5 fingerprint r x db k n = rw (k, n)

-- If a transfer request gets a response, another request under its key with another fingerprint is
-- refused as a conflict.
pub post_transfer_conflict :
    (uuid5 uuid5' : String → String) (fingerprint : RequestFields → String) (r r' : TransferRequest)
    (p : Response) (db db' : WalletDb)
    → post_transfer_body uuid5 fingerprint r db ≡ ok (p, db')
    → r'.idempotency_key ≡ r.idempotency_key
    → str_eq (fingerprint (fields_of r)) (fingerprint (fields_of r')) ≡ false
    → post_transfer_body uuid5' fingerprint r' db' ≡ err idempotency_conflict
unfolding post_transfer_body claim replay create_and_complete
post_transfer_conflict uuid5 uuid5' fingerprint r r' p db db' e same other =
    elim (Option-cases (find_key transfer_scope r.idempotency_key db)) [
      | inl k ↦
          let first : IdempotencyKey =
            placeholder transfer_scope r.idempotency_key (fingerprint (fields_of r)) in
          let (t, db2, e2, h2) =
            bind-eq-ok (create_transfer uuid5 r (add_key first db)) _ p db' (rw k at e) in
          let keys = (create_transfer-Frame uuid5 r t _ db2 e2).keys in
          let row =
            completed_row transfer_scope r.idempotency_key (fingerprint (fields_of r)) t db db2 k
              keys in
          let known : find_key transfer_scope r.idempotency_key db' ≡ some (completed t first) =
            subst (λ d. find_key transfer_scope r.idempotency_key d ≡ some (completed t first))
              (ok-injective _ _ _ _ h2).1 row in
          other_hash_raises uuid5' fingerprint r' (completed t first) db'
            (subst (λ i. find_key transfer_scope i db' ≡ some (completed t first)) (sym same) known)
            other
      | inr (x, k) ↦ elim (Bool-cases (str_eq x.request_hash (fingerprint (fields_of r)))) [
        | inr n ↦ cc (rw (k, n) at e)
        | inl s ↦ elim (Bool-cases (x.response_status == 0)) [
          | inl z ↦ cc (rw (k, s, z) at e)
          | inr z ↦
              let is_db = (ok-injective _ _ _ _ (rw (k, s, z) at e)).1 in
              let hash : x.request_hash ≡ fingerprint (fields_of r) =
                (eq_iff x.request_hash (fingerprint (fields_of r))).0 s in
              other_hash_raises uuid5' fingerprint r' x db'
                (subst (λ i. find_key transfer_scope i db' ≡ some x) (sym same)
                  (subst (λ d. find_key transfer_scope r.idempotency_key d ≡ some x) is_db k))
                (subst (λ h. str_eq h (fingerprint (fields_of r')) ≡ false) (sym hash) other)
        ]
      ]
    ]
