-- ===== src/Blockchain/Addresses.antt =====
-- services/blockchain/blockchain_service/services/addresses.py: the issue of custody addresses. The
-- account that the keystore makes, with its sealed key, is an argument.
use mini_crypto_wallet.Base.{
  ℕ, ◌≡◌, refl, inl, inr, Bool, true, false, Option, List, [], ◌∷◌, ◌++◌, String, str_eq, map,
  eq_iff, Bool-cases, Option-cases,
}
use mini_crypto_wallet.Base.Table.{find?, any, filter, find?-append}
use mini_crypto_wallet.Base.Result.{
  Tx, ok, if_none, ◌>>=◌, ◌>>◌, pure, gets, modify, raise_if, integrity_error, ok-injective,
}
use mini_crypto_wallet.Blockchain.Models.{ChainDb, Address}

-- What `keystore.create_account` and `keystore.encrypt` make.
pub record Account : Type 0 where
  pub address : String
  pub encrypted_private_key : String
  pub key_version : ℕ

-- `find_by_owner`
abbrev pub find_by_owner : String → ChainDb → Option Address
find_by_owner owner_ref db = find? (λ a. str_eq a.owner_ref owner_ref) db.addresses

abbrev pub new_address : String → String → Account → Address
new_address owner_ref network account = record {
  owner_ref = owner_ref;
  network = network;
  address = account.address;
  derivation = "random-keypair";
  status = "ACTIVE";
}

abbrev add_address : Address → Account → ChainDb → ChainDb
add_address a account db = record db {
  addresses = db.addresses ++ a ∷ [];
  key_material =
      db.key_material
      ++ record {
        address = account.address;
        encrypted_private_key = account.encrypted_private_key;
        key_version = account.key_version;
      }
        ∷ [];
}

-- The insert of an address with its key; the flush raises where the address is taken.
unfoldable pub issue : Address → Account → Tx ChainDb (Address × Bool)
issue a account = do
  taken ← gets (λ db. any (λ x. str_eq x.address a.address) db.addresses)
  raise_if taken integrity_error
  modify (add_address a account)
  pure (a, true)

-- The address, and whether it was created.
unfoldable pub get_or_create_address : String → String → Account → Tx ChainDb (Address × Bool)
get_or_create_address owner_ref network account = do
  existing ← gets (find_by_owner owner_ref)
  if_none existing (issue (new_address owner_ref network account) account) λ a. pure (a, false)

-- `active_addresses`
abbrev pub active_addresses : ChainDb → List String
active_addresses db =
    map (λ (a : Address). a.address) (filter (λ a. str_eq a.status "ACTIVE") db.addresses)

-- Once an owner has got an address, every further call for the owner, whatever network it names,
-- returns the same address, not created, and changes nothing.
pub get_or_create_address_once :
    (owner_ref network network' : String) (account account' : Account) (a : Address)
    (created : Bool) (db db' : ChainDb)
    → get_or_create_address owner_ref network account db ≡ ok ((a, created), db')
    → get_or_create_address owner_ref network' account' db' ≡ ok ((a, false), db')
unfolding get_or_create_address issue
get_or_create_address_once owner_ref network network' account account' a created db db' h =
    elim (Option-cases (find_by_owner owner_ref db)) [
      | inr (x, k) ↦
          let (same, last) = ok-injective _ _ _ _ (rw k at h) in
          let is_a : x ≡ a = λ i. (same i).0 in rw (← last, k, is_a)
      | inl k ↦ elim (Bool-cases (any (λ x. str_eq x.address account.address) db.addresses)) [
        | inl taken ↦ cc (rw (k, taken) at h)
        | inr new ↦
            let (same, last) = ok-injective _ _ _ _ (rw (k, new) at h) in
            let is_a : new_address owner_ref network account ≡ a = λ i. (same i).0 in
            let own : str_eq owner_ref owner_ref ≡ true = (eq_iff owner_ref owner_ref).1 refl in
            rw (← last, find?-append, k, own, is_a)
      ]
    ]
