-- ===== src/Wallet/Idempotency.antt =====
-- services/wallet/wallet_service/services/idempotency.py, and `post_transfer` of
-- services/wallet/wallet_service/api/routes.py, which it guards. The SHA-256 fingerprint is a
-- parameter, as a function of the values that the route puts into it.
pub mod Replay
use mini_crypto_wallet.Base.{
  ℕ, ◌==◌, Bool, true, false, not, ◌&&◌, Option, none, some, List, [], ◌∷◌, ◌++◌, String, str_eq,
  if◌then◌else◌,
}
use mini_crypto_wallet.Base.Int.{ℤ}
use mini_crypto_wallet.Base.Table.{find?, update, is_some}
use mini_crypto_wallet.Base.Result.{
  Tx, Result, if_none, ◌>>=◌, ◌>>◌, pure, gets, modify, or_raise, raise, raise_if, atomically,
  idempotency_in_progress, idempotency_conflict,
}
use mini_crypto_wallet.Wallet.Models.{WalletDb, IdempotencyKey, Transfer}
use mini_crypto_wallet.Wallet.Transfers.{TransferRequest, create_transfer}

abbrev pub is_key : String → String → IdempotencyKey → Bool
is_key scope key r = str_eq r.scope scope && str_eq r.key key

abbrev pub find_key : String → String → WalletDb → Option IdempotencyKey
find_key scope key db = find? (is_key scope key) db.idempotency_keys

-- The placeholder that claims a key; its status is `_PLACEHOLDER_STATUS`.
abbrev pub placeholder : String → String → String → IdempotencyKey
placeholder scope key request_hash = record {
  scope = scope;
  key = key;
  request_hash = request_hash;
  response_status = 0;
  response_body = none;
  resource_id = none;
}

-- What `claim` does with the row that another request has left.
unfoldable pub replay : String → IdempotencyKey → Tx WalletDb (Option IdempotencyKey)
replay request_hash existing = do
  raise_if (not (str_eq existing.request_hash request_hash)) idempotency_conflict
  raise_if (existing.response_status == 0) idempotency_in_progress
  pure (some existing)

abbrev pub add_key : IdempotencyKey → WalletDb → WalletDb
add_key r db = record db { idempotency_keys = db.idempotency_keys ++ r ∷ [] }

-- `none` means that the caller owns the key. Between the two statements of the code another
-- transaction may roll back; here a transaction sees what was committed before it.
unfoldable pub claim : String → String → String → Tx WalletDb (Option IdempotencyKey)
claim scope key request_hash = do
  existing ← gets (find_key scope key)
  if_none existing (modify (add_key (placeholder scope key request_hash)) >> pure none)
      (replay request_hash)

unfoldable pub complete : String → String → ℕ → Transfer → WalletDb → WalletDb
complete scope key status body db = record db {
  idempotency_keys =
      update (is_key scope key)
        (λ r. record r {
          response_status = status;
          response_body = some body;
          resource_id = some body.id;
        })
        db.idempotency_keys;
}

-- The response of `post_transfer`: its status, its body and the header Idempotent-Replay.
pub record Response : Type 0 where
  pub status : ℕ
  pub body : Option Transfer
  pub replayed : Bool

abbrev pub transfer_scope : String
transfer_scope = "transfers"

unfoldable pub create_and_complete : (String → String) → TransferRequest → Tx WalletDb Response
create_and_complete uuid5 r = do
  t ← create_transfer uuid5 r
  modify (complete transfer_scope r.idempotency_key 202 t)
  pure (record { status = 202; body = some t; replayed = false })

-- What the route puts into the fingerprint.
pub record RequestFields : Type 0 where
  pub from_user_id : ℕ
  pub to_user_id : ℕ
  pub asset : String
  pub network : String
  pub amount_units : ℤ

abbrev pub fields_of : TransferRequest → RequestFields
fields_of r = record {
  from_user_id = r.from_user_id;
  to_user_id = r.to_user_id;
  asset = r.asset;
  network = r.network;
  amount_units = r.amount_units;
}

-- The transaction of `post_transfer`, after the asset is resolved and the amount parsed.
unfoldable pub post_transfer_body :
    (String → String) → (RequestFields → String) → TransferRequest → Tx WalletDb Response
post_transfer_body uuid5 fingerprint r = do
  found ← claim transfer_scope r.idempotency_key (fingerprint (fields_of r))
  if_none found (create_and_complete uuid5 r)
      λ k. pure (record { status = k.response_status; body = k.response_body; replayed = true })

unfoldable pub post_transfer :
    (String → String)
    → (RequestFields → String)
    → TransferRequest
    → WalletDb
    → Result Response × WalletDb
post_transfer uuid5 fingerprint r = atomically (post_transfer_body uuid5 fingerprint r)
