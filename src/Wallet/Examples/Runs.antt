-- ===== src/Wallet/Examples/Runs.antt =====
-- Runs of the wallet's operations, and the theorems on what a run leaves behind.
use mini_crypto_wallet.Base.{map, ◌≡◌, refl, ◌⊎◌, true, false, some, List, [], ◌∷◌, String, arith}
use mini_crypto_wallet.Base.Int.{pos, neg, ◌+ℤ◌, ◌-ℤ◌, ◌≤ℤ◌}
use mini_crypto_wallet.Base.Result.{Result, ok, err}
use mini_crypto_wallet.Base.Text.{show_ℤ, read_ℤ, read_ℤ-show_ℤ, upper}
use mini_crypto_wallet.Common.Events.{Payload, str, int, show, int_of}
use mini_crypto_wallet.Common.Assets.{get_asset, usdt}
use mini_crypto_wallet.Wallet.Models.{WalletDb, Transfer, created, update_balance, enqueue}
use mini_crypto_wallet.Wallet.Users.{get_user, get_wallet, wallet_by_address}
use mini_crypto_wallet.Wallet.Ledger.{
  Posting, ensure_balance, lock_balance, insert_entry, post_entry, post_all, post_entries,
  place_hold, release_hold,
}
use mini_crypto_wallet.Wallet.Models.{find_transfer}
use mini_crypto_wallet.Common.Outbox.Relay.{mark_published}
use mini_crypto_wallet.Wallet.Transfers.Save.{Postings-same}
use mini_crypto_wallet.Base.{Bool, ◌↔◌}
use mini_crypto_wallet.Wallet.Ledger.Reconcile.{
  reconcile, sums, all_consistent, AllAgree, reconcile-AllAgree,
}
use mini_crypto_wallet.Wallet.Progress.{run_once}
use mini_crypto_wallet.Wallet.Progress.Advances.{Advanced, run_once-Advances}
use mini_crypto_wallet.Wallet.Ledger.Holds.{Held, place_hold_lem, release_hold_lem}
use mini_crypto_wallet.Wallet.Ledger.Laws.{Reconciled, post_entries_replay, post_entries-Reconciled}
use mini_crypto_wallet.Wallet.Transfers.{
  TransferRequest, processed, duplicate, check_parties, hold_and_insert, insert_transfer,
  create_transfer, new_transfer, settle_postings,
}
use mini_crypto_wallet.Wallet.Transfers.Insert.{Created}
use mini_crypto_wallet.Wallet.Transfers.Create.{create_transfer-Created}
use mini_crypto_wallet.Wallet.Deposits.{credit_deposit, amount_units, chain_reference, reference_id}
use mini_crypto_wallet.Wallet.Deposits.Once.{credit_deposit_once}
use mini_crypto_wallet.Wallet.Idempotency.{
  RequestFields, Response, claim, create_and_complete, post_transfer_body,
}
use mini_crypto_wallet.Wallet.Idempotency.Replay.{again, post_transfer_replay}
use mini_crypto_wallet.Wallet.Invariant.{Inv}
use mini_crypto_wallet.Wallet.Delivery.{deliver}
use mini_crypto_wallet.Wallet.Examples.{
  confirmed_event, two_users, two_users-Inv, two_users-Reconciled, two_users-Checked,
  transfer_of_40, balance_of_100, wallet_of,
}
use mini_crypto_wallet.Base.Result.{err, idempotency_conflict}
use mini_crypto_wallet.Common.Events.{Value}
use mini_crypto_wallet.Wallet.Deposits.Effect.{Credited, credit_deposit-Credited}
use mini_crypto_wallet.Wallet.Idempotency.Replay.{post_transfer_conflict}

-- The database that a run leaves; `db` stands for a run that raises.
abbrev state_of : {A : Type 0} → Result (A × WalletDb) → WalletDb → WalletDb
state_of (ok (a, s)) db = s
state_of (err e) db = db

abbrev name_hash : String → String
name_hash s = s

abbrev request_of_30 : TransferRequest
request_of_30 = record {
  id = "00000000-0000-0000-0000-00000000000c";
  from_user_id = 1;
  to_user_id = 2;
  asset = "USDT";
  amount_units = pos 30;
  idempotency_key = "k2";
  network = "BSC";
  correlation_id = "c";
}

abbrev transfer_of_30 : Transfer
transfer_of_30 = new_transfer request_of_30 usdt (wallet_of 1 "0xa") (wallet_of 2 "0xb")

after_request : WalletDb
after_request = state_of (create_transfer name_hash request_of_30 two_users) two_users

creates_30 : create_transfer name_hash request_of_30 two_users ≡ ok (transfer_of_30, after_request)
unfolding after_request create_transfer check_parties get_asset upper usdt get_user get_wallet
    hold_and_insert lock_balance ensure_balance place_hold update_balance insert_transfer enqueue
    ◌+ℤ◌ ◌-ℤ◌
creates_30 = refl

create_transfer_example :
    (Inv after_request × Created transfer_of_30 two_users after_request)
    × ((transfer_of_30.status ≡ created) × (transfer_of_30.amount ≡ request_of_30.amount_units))
    × ((transfer_of_30.from_user_id ≡ request_of_30.from_user_id)
        × (transfer_of_30.to_user_id ≡ request_of_30.to_user_id))
create_transfer_example =
    create_transfer-Created name_hash request_of_30 transfer_of_30 two_users after_request
      two_users-Inv creates_30

abbrev fingerprint_of : RequestFields → String
fingerprint_of r = r.asset

abbrev accepted_30 : Response
accepted_30 = record { status = 202; body = some transfer_of_30; replayed = false }

after_post : WalletDb
after_post =
    state_of (post_transfer_body name_hash fingerprint_of request_of_30 two_users) two_users

posts_30 :
    post_transfer_body name_hash fingerprint_of request_of_30 two_users
    ≡ ok (accepted_30, after_post)
unfolding after_post post_transfer_body claim create_and_complete create_transfer check_parties
    get_asset upper usdt get_user get_wallet hold_and_insert lock_balance ensure_balance place_hold
    update_balance insert_transfer enqueue ◌+ℤ◌ ◌-ℤ◌
posts_30 = refl

-- The client sends its request again, which gets another id and correlation id.
abbrev retry_of_30 : TransferRequest
retry_of_30 = record request_of_30 {
  id = "00000000-0000-0000-0000-00000000000f";
  correlation_id = "retry";
}

post_transfer_example :
    post_transfer_body name_hash fingerprint_of retry_of_30 after_post
    ≡ ok (again accepted_30, after_post)
post_transfer_example =
    post_transfer_replay name_hash name_hash fingerprint_of request_of_30 retry_of_30 accepted_30
      two_users after_post posts_30 refl refl

abbrev deposit_of_5 : Payload
deposit_of_5 =
    ("network", str "BSC")
    ∷ ("tx_hash", str "0xd")
    ∷ ("log_index", int (pos 0))
    ∷ ("block_hash", str "0xe")
    ∷ ("to_address", str "0xb")
    ∷ ("asset", str "USDT")
    ∷ ("amount_units", int (pos 5))
    ∷ []

after_deposit : WalletDb
after_deposit = state_of (credit_deposit "c" deposit_of_5 two_users) two_users

credits_5 : credit_deposit "c" deposit_of_5 two_users ≡ ok (processed, after_deposit)
unfolding after_deposit credit_deposit amount_units int_of wallet_by_address reference_id
    chain_reference show show_ℤ post_entries post_all post_entry lock_balance ensure_balance
    insert_entry update_balance ◌+ℤ◌
credits_5 = refl

-- A second event about the same log, with more fields.
abbrev again_5 : Payload
again_5 = ("confirmations", int (pos 20)) ∷ deposit_of_5

-- The transfer of 40 is confirmed in between.
credit_deposit_example :
    credit_deposit "c2" again_5 (deliver ((100, confirmed_event) ∷ []) after_deposit)
    ≡ ok (duplicate, deliver ((100, confirmed_event) ∷ []) after_deposit)
credit_deposit_example =
    credit_deposit_once "c" "c2" deposit_of_5 again_5 ((100, confirmed_event) ∷ []) two_users
      after_deposit
      (record {
        network = refl;
        tx_hash = refl;
        log_index = refl;
        block_hash = refl;
        to_address = refl;
        asset = refl;
        amount_units = refl;
      })
      credits_5

-- The settlement's postings, while its hold is still there: 100 - 40 covers the reserved 40.
abbrev both_postings : List Posting
both_postings = settle_postings transfer_of_40

after_postings : WalletDb
after_postings = state_of (post_entries "c" "USDT" both_postings two_users) two_users

posts_both : post_entries "c" "USDT" both_postings two_users ≡ ok (2, after_postings)
unfolding after_postings post_entries post_all post_entry lock_balance ensure_balance insert_entry
    update_balance ◌+ℤ◌ neg
posts_both = refl

replay_example : post_entries "c2" "USDT" both_postings after_postings ≡ ok (0, after_postings)
replay_example =
    post_entries_replay "c" "c2" "USDT" both_postings 2 two_users after_postings posts_both

reconciled_example : Reconciled after_postings
reconciled_example =
    post_entries-Reconciled "c" "USDT" both_postings 2 two_users after_postings posts_both
      two_users-Reconciled

place_hold_example :
    ((pos 60 ≤ℤ balance_of_100.posted -ℤ balance_of_100.reserved)
      × ((db' : WalletDb) × (place_hold 1 "USDT" (pos 60) two_users ≡ ok (true, db'))
          × Held 1 "USDT" (pos 60) (pos 0) two_users db'))
    ⊎ ((¬ (pos 60 ≤ℤ balance_of_100.posted -ℤ balance_of_100.reserved))
        × (place_hold 1 "USDT" (pos 60) two_users ≡ ok (false, two_users)))
place_hold_example =
    place_hold_lem 1 "USDT" (pos 60) two_users balance_of_100 two_users-Checked refl (omega arith)

release_hold_example :
    (db' : WalletDb) × (release_hold 1 "USDT" (pos 40) two_users ≡ ok (tt, db'))
    × Held 1 "USDT" (pos 0) (pos 40) two_users db'
release_hold_example =
    release_hold_lem 1 "USDT" (pos 40) two_users balance_of_100 two_users-Checked refl (omega arith)
      (omega arith)

round_trip_example : read_ℤ (show_ℤ (neg (pos 40))) ≡ some (neg (pos 40))
round_trip_example = read_ℤ-show_ℤ (neg (pos 40))

abbrev to_address_of_5 : Value
to_address_of_5 = str "0xb"

abbrev asset_of_5 : Value
asset_of_5 = str "USDT"

found_5 : wallet_by_address (show to_address_of_5) two_users ≡ some (wallet_of 2 "0xb")
unfolding wallet_by_address show
found_5 = refl

amount_5 : amount_units deposit_of_5 two_users ≡ ok (pos 5, two_users)
unfolding amount_units int_of
amount_5 = refl

abbrev reference_of_5 : String
reference_of_5 = "BSC:0xd:0:0xe"

reference_5 : reference_id deposit_of_5 two_users ≡ ok (reference_of_5, two_users)
unfolding reference_id chain_reference show show_ℤ
reference_5 = refl

deposit_effect_example :
    (db' : WalletDb) × (credit_deposit "c" deposit_of_5 two_users ≡ ok (processed, db'))
    × Credited 2 (show asset_of_5) (pos 5) two_users db'
deposit_effect_example =
    credit_deposit-Credited "c" deposit_of_5 to_address_of_5 asset_of_5 (wallet_of 2 "0xb") (pos 5)
      reference_of_5 two_users two_users-Inv refl found_5 amount_5 refl reference_5 (omega arith)
      refl

abbrev request_of_other : TransferRequest
request_of_other = record request_of_30 { asset = "EUR" }

conflict_example :
    post_transfer_body name_hash fingerprint_of request_of_other after_post
    ≡ err idempotency_conflict
conflict_example =
    post_transfer_conflict name_hash name_hash fingerprint_of request_of_30 request_of_other
      accepted_30 two_users after_post posts_30 refl refl

-- The relay published what the request enqueued.
abbrev relayed : WalletDb
relayed = record after_request { outbox = map (mark_published 5) after_request.outbox }

relayed-Inv : Inv relayed
relayed-Inv =
    let h : Inv after_request =
      (create_transfer-Created name_hash request_of_30 transfer_of_30 two_users after_request
        two_users-Inv creates_30).0.0 in
    record {
      reconciled = h.reconciled;
      checked = h.checked;
      holds = h.holds;
      sound = h.sound;
      postings = λ i.
          Postings-same i (find_transfer i after_request) after_request relayed (λ u k. refl)
            (h.postings i);
    }

progress_example :
    Inv (run_once relayed).1
    × ((id : String)
        → (find_transfer id (run_once relayed).1 ≡ find_transfer id relayed)
          ⊎ ((t t' : Transfer) × (find_transfer id relayed ≡ some t)
              × (find_transfer id (run_once relayed).1 ≡ some t')
              × Advanced relayed.outbox t t'))
progress_example = run_once-Advances relayed relayed-Inv

abbrev any_order : String → String → Bool
any_order a b = true

reports_consistent : all_consistent (reconcile any_order two_users) ≡ true
unfolding reconcile sums ◌+ℤ◌
reports_consistent = refl

reconcile_example :
    (all_consistent (reconcile any_order two_users) ≡ true) ↔ AllAgree two_users two_users.balances
reconcile_example = reconcile-AllAgree any_order two_users
