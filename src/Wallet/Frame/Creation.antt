-- ===== src/Wallet/Frame/Creation.antt =====
-- The creation of a transfer leaves the wallets, the processed events and the keys alone.
use mini_crypto_wallet.Base.{
  ℕ, refl, sym, subst, ◌==◌, ◌||◌, inl, inr, [], ◌∷◌, String, Bool-cases, Option-cases, not, ◌++◌,
}
use mini_crypto_wallet.Base.Int.{ℤ, leb_ℤ, ◌-ℤ◌}
use mini_crypto_wallet.Base.Table.{any}
use mini_crypto_wallet.Base.Result.{conflict, insufficient_funds, ok-injective}
use mini_crypto_wallet.Base.Keeps.{
  Keeps, Keeps-pure, Keeps-gets, Keeps-bind, Keeps-raise_if, Keeps-modify,
}
use mini_crypto_wallet.Common.Events.{EventEnvelope, new_event, transfer_requested}
use mini_crypto_wallet.Wallet.Transfers.Create.{check_parties-Keeps}
use mini_crypto_wallet.Wallet.Models.{
  WalletDb, enqueue, transfer_check, Transfer, find_balance, update_balance,
}
use mini_crypto_wallet.Wallet.Ledger.{place_hold, add_reserved}
use mini_crypto_wallet.Wallet.Transfers.{
  TransferRequest, clashes, new_transfer, request_payload, insert_transfer, hold_and_insert,
  create_transfer,
}
use mini_crypto_wallet.Wallet.Frame.{Frame, frame, update_balance-Frame, lock_balance-Frame}

place_hold-Frame : (u : ℕ) (a : String) (x : ℤ) → Keeps frame (place_hold u a x)
unfolding place_hold
place_hold-Frame u a x done s s' e = elim (Option-cases (find_balance u a s)) [
  | inl k ↦ rw (← (ok-injective _ _ _ _ (rw k at e)).1) (frame.same s)
  | inr (b, k) ↦ elim (Bool-cases (leb_ℤ x (b.posted -ℤ b.reserved))) [
    | inr less ↦ rw (← (ok-injective _ _ _ _ (rw (k, less) at e)).1) (frame.same s)
    | inl fits ↦
        Keeps-bind frame (update_balance u a (add_reserved x)) _
          (update_balance-Frame u a (add_reserved x) (λ b. (refl, refl)))
          (λ n. Keeps-pure frame (n == 1)) done s s' (rw (k, fits) at e)
  ]
]

insert_transfer-Frame : (t : Transfer) → Keeps frame (insert_transfer t)
unfolding insert_transfer
insert_transfer-Frame t =
    Keeps-bind frame _ _ (Keeps-gets frame (λ db. any (clashes t) db.transfers)) λ clash.
      Keeps-bind frame _ _ (Keeps-raise_if frame (clash || not (transfer_check t)) conflict) λ x.
        Keeps-modify frame (λ db. record db { transfers = db.transfers ++ t ∷ [] })
          λ s. record {
            wallets = refl;
            processed = refl;
            keys = refl;
            entries = λ p h. h;
            rows = λ u a h. h;
          }

hold_and_insert-Frame : (t : Transfer) → Keeps frame (hold_and_insert t)
unfolding hold_and_insert
hold_and_insert-Frame t = Keeps-bind frame _ _ (lock_balance-Frame t.from_user_id t.asset) λ b.
    Keeps-bind frame _ _ (place_hold-Frame t.from_user_id t.asset t.amount) λ done.
      Keeps-bind frame _ _
        (Keeps-raise_if frame (not done) (insufficient_funds (b.posted -ℤ b.reserved) t.amount))
        λ x. insert_transfer-Frame t

enqueue-Frame : (e : EventEnvelope) (db : WalletDb) → Frame db (enqueue e db)
unfolding enqueue
enqueue-Frame e db = record {
  wallets = refl;
  processed = refl;
  keys = refl;
  entries = λ p h. h;
  rows = λ u a h. h;
}

pub create_transfer-Frame :
    (uuid5 : String → String) (r : TransferRequest) → Keeps frame (create_transfer uuid5 r)
unfolding create_transfer
create_transfer-Frame uuid5 r =
    Keeps-bind frame _ _
      (λ a s s' e. subst (Frame s) (sym (check_parties-Keeps r a s s' e)) (frame.same s))
      λ (asset, f, g). Keeps-bind frame _ _ (hold_and_insert-Frame (new_transfer r asset f g)) λ x.
        Keeps-bind frame _ _
          (Keeps-modify frame _ (
            enqueue-Frame (
              new_event uuid5 transfer_requested (request_payload (new_transfer r asset f g) asset)
                "wallet-service" r.id r.correlation_id)))
          λ y. Keeps-pure frame (new_transfer r asset f g)
