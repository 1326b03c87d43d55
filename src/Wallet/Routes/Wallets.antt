-- ===== src/Wallet/Routes/Wallets.antt =====
-- A request for a wallet that is sent again.
use mini_crypto_wallet.Base.{
  ℕ, ◌≡◌, ◌==◌, inl, inr, Bool, String, arith, Bool-cases, Option-cases, not, ◌&&◌, some, str_eq,
  ap, ◌∙◌, ◌++◌, [], ◌∷◌, if◌then◌else◌,
}
use mini_crypto_wallet.Base.Table.{is_some, any, find?}
use mini_crypto_wallet.Base.Result.{Result, ok, err, ok-injective, ok-or-err}
use mini_crypto_wallet.Common.Assets.{Asset, get_asset}
use mini_crypto_wallet.Wallet.Models.{WalletDb, Wallet, User}
use mini_crypto_wallet.Wallet.Ledger.{ensure_balance}
use mini_crypto_wallet.Wallet.Users.{find_user, get_user, get_wallet, attach_wallet}
use mini_crypto_wallet.Wallet.Routes.{
  or_default, Defaults, resolve_asset, WalletRequest, WalletResponse, network_of, find_wallet,
  record_wallet, found, issue_wallet, create_wallet,
}

ensure_balance-users :
    (u : ℕ) (a : String) (db : WalletDb) → (ensure_balance u a db).users ≡ db.users
unfolding ensure_balance
ensure_balance-users u a db = ground arith

-- An attached wallet is found under its user, network and asset, and the users stay.
attach_wallet_lem :
    (u : ℕ) (network asset address : String) (w : Wallet) (created : Bool) (db db' : WalletDb)
    → attach_wallet u network asset address db ≡ ok ((w, created), db')
    → (get_wallet u network asset db' ≡ some w) × (db'.users ≡ db.users)
unfolding attach_wallet
attach_wallet_lem u network asset address w created db db' e =
    let known = is_some (get_wallet u network asset db) in
    let row : Wallet = record {
      user_id = u;
      network = network;
      asset = asset;
      address = address;
      status = "ACTIVE";
    } in
    let added : WalletDb = if known then db else record db { wallets = db.wallets ++ row ∷ [] } in
    let same_users : added.users ≡ db.users = ground arith in
    elim (Bool-cases (not known && any (λ x. str_eq x.address address) db.wallets)) [
      | inl k ↦ cc (rw k at e)
      | inr k ↦ elim (Option-cases (get_wallet u network asset (ensure_balance u asset added))) [
        | inl m ↦ cc (rw (k, m) at e)
        | inr (x, m) ↦
            let (is_pair, is_db) = ok-injective _ _ _ _ (rw (k, m) at e) in
            let same : x ≡ w = cc is_pair in
            (rw (← is_db, m, same), rw (← is_db) (ensure_balance-users u asset added ∙ same_users))
      ]
    ]

-- The wallet of an answer.
abbrev wallet_of : Result WalletResponse → Wallet → Wallet
wallet_of (ok p) w = p.wallet
wallet_of (err x) w = w

module _ (create_address : String → String → Result String) (meanwhile : WalletDb → WalletDb)
    (d : Defaults) (r : WalletRequest) where
  -- The wallet of a recorded address is found, and the users stay.
  issue_wallet_lem :
      (symbol : String) (answer : Result String) (p : WalletResponse) (db db' : WalletDb)
      → issue_wallet create_address meanwhile d r symbol answer db ≡ (ok p, db')
      → (get_wallet r.user_id (network_of d r) symbol db' ≡ some p.wallet) × (db'.users ≡ db.users)
  unfolding issue_wallet record_wallet
  issue_wallet_lem symbol (err x) p db db' e = cc
  issue_wallet_lem symbol (ok address) p db db' e =
      elim (ok-or-err (attach_wallet r.user_id (network_of d r) symbol address db)) [
        | inr (x, k) ↦ cc (rw k at e)
        | inl (((w, created), db2), k) ↦
            let h = rw k at e in
            let is_db : db2 ≡ db' = cc h in
            let is_p : w ≡ p.wallet = ap (λ q. wallet_of q w) (ap (λ q. q.0) h) in
            rw (← is_db, ← is_p)
              (attach_wallet_lem r.user_id (network_of d r) symbol address w created db db2 k)
      ]

  -- A wallet that is there is the answer.
  create_wallet-found :
      (asset : Asset) (x : User) (w : Wallet) (db : WalletDb)
      → get_asset (or_default r.asset d.asset) ≡ some asset
      → find_user r.user_id db ≡ some x
      → get_wallet r.user_id (network_of d r) asset.symbol db ≡ some w
      → create_wallet create_address meanwhile d r db ≡ found w db
  unfolding create_wallet find_wallet resolve_asset get_user
  create_wallet-found asset x w db a u k = rw (a, u, k)

  -- What a request leaves that gets a response: its asset, its user and its wallet.
  create_wallet-leaves :
      (p : WalletResponse) (db db' : WalletDb)
      → ((x : User) → find_user r.user_id db ≡ some x → find_user r.user_id (meanwhile db) ≡ some x)
      → create_wallet create_address meanwhile d r db ≡ (ok p, db')
      → (asset : Asset) × (x : User) × (get_asset (or_default r.asset d.asset) ≡ some asset)
        × (find_user r.user_id db' ≡ some x)
        × (get_wallet r.user_id (network_of d r) asset.symbol db' ≡ some p.wallet)
  unfolding create_wallet find_wallet resolve_asset get_user issue_wallet record_wallet
  create_wallet-leaves p db db' stays e =
      elim (Option-cases (get_asset (or_default r.asset d.asset))) [
        | inl a ↦ cc (rw a at e)
        | inr (asset, a) ↦ elim (Option-cases (find_user r.user_id db)) [
          | inl u ↦ cc (rw (a, u) at e)
          | inr (x, u) ↦
              elim (Option-cases (get_wallet r.user_id (network_of d r) asset.symbol db)) [
                | inr (w, k) ↦
                    let h = rw (a, u, k) at e in
                    let is_db : db ≡ db' = cc h in
                    let is_p : w ≡ p.wallet = ap (λ q. wallet_of q w) (ap (λ q. q.0) h) in
                    rw (← is_db, ← is_p) (asset, x, a, u, k)
                | inl k ↦
                    let (found_again, users) =
                      issue_wallet_lem asset.symbol _ p (meanwhile db) db' (rw (a, u, k) at e) in
                    let known : find_user r.user_id db' ≡ some x =
                      ap (λ us. find? (λ y. y.id == r.user_id) us) users ∙ stays x u in
                    (asset, x, a, known, found_again)
              ]
        ]
      ]

-- If a request for a wallet gets a response, and its user is not removed while it waits for the
-- address, the same request gets the same wallet again with status 200 and changes nothing,
-- whatever the blockchain service would answer.
pub create_wallet_once :
    (create_address create_address' : String → String → Result String)
    (meanwhile meanwhile' : WalletDb → WalletDb) (d : Defaults) (r : WalletRequest)
    (p : WalletResponse) (db db' : WalletDb)
    → ((x : User) → find_user r.user_id db ≡ some x → find_user r.user_id (meanwhile db) ≡ some x)
    → create_wallet create_address meanwhile d r db ≡ (ok p, db')
    → create_wallet create_address' meanwhile' d r db' ≡ found p.wallet db'
create_wallet_once ca ca' m m' d r p db db' stays e =
    let (asset, x, a, u, k) = create_wallet-leaves ca m d r p db db' stays e in
    create_wallet-found ca' m' d r asset x p.wallet db' a u k
