-- ===== src/Handover/Examples.antt =====
-- A request and a deposit that are handed over.
use mini_crypto_wallet.Base.{◌≡◌, refl, some, [], ◌∷◌, String, arith}
use mini_crypto_wallet.Base.Int.{pos}
use mini_crypto_wallet.Base.Result.{Result, ok, err}
use mini_crypto_wallet.Base.Text.{parse_uuid, show_ℤ}
use mini_crypto_wallet.Common.Assets.{get_asset, usdt}
use mini_crypto_wallet.Common.Events.{Payload}
use mini_crypto_wallet.Wallet.Models.{WalletDb}
use mini_crypto_wallet.Wallet.Transfers.{request_payload, processed}
use mini_crypto_wallet.Wallet.Deposits.{credit_deposit}
use mini_crypto_wallet.Wallet.Deposits.Effect.{Credited}
use mini_crypto_wallet.Wallet.Users.{wallet_by_address}
use mini_crypto_wallet.Wallet.Examples.{
  two_users, two_users-Inv, transfer_of_40, transfer_id, wallet_of,
}
use mini_crypto_wallet.Blockchain.Models.{ChainDb}
use mini_crypto_wallet.Blockchain.Deposits.{deposit_payload}
use mini_crypto_wallet.Blockchain.Transactions.{accept_transfer_request, new_outgoing, accepted}
use mini_crypto_wallet.Blockchain.Examples.{empty_chain, row_of_5}
use mini_crypto_wallet.Handover.{accept-request_payload, credit-deposit_payload}

abbrev text_hash : String → String
text_hash s = s

-- The blockchain service keeps the sender's address.
abbrev chain_with_sender : ChainDb
chain_with_sender = record empty_chain {
  addresses =
      record {
        owner_ref = "user:1";
        network = "BSC";
        address = "0xa";
        derivation = "";
        status = "ACTIVE";
      }
      ∷ [];
}

request_example :
    let row = new_outgoing "o1" transfer_id "BSC" "USDT" "0xa" "0xb" (pos 40) "c" in
    (accept_transfer_request text_hash "o1"
        (request_payload transfer_of_40 usdt)
        "c"
        chain_with_sender
      ≡ ok (accepted, record chain_with_sender { outgoing_transactions = row ∷ [] }))
    × (row.transfer_id ≡ transfer_id)
    × (row.network ≡ "BSC")
    × (row.asset ≡ "USDT")
    × (row.from_address ≡ "0xa")
    × (row.to_address ≡ "0xb")
    × (row.amount ≡ pos 40)
unfolding parse_uuid usdt
request_example =
    accept-request_payload text_hash "o1" "c" transfer_of_40 usdt chain_with_sender refl refl refl
      refl

abbrev payload_of : Result (Payload × ChainDb) → Payload
payload_of (ok (p, s)) = p
payload_of (err x) = []

abbrev reported_5 : Payload
reported_5 = payload_of (deposit_payload row_of_5 12 empty_chain)

reports_5 : deposit_payload row_of_5 12 empty_chain ≡ ok (reported_5, empty_chain)
unfolding deposit_payload get_asset
reports_5 = refl

owner_of_0xb : wallet_by_address "0xb" two_users ≡ some (wallet_of 2 "0xb")
unfolding wallet_by_address
owner_of_0xb = refl

deposit_example :
    (db' : WalletDb) × (credit_deposit "c" reported_5 two_users ≡ ok (processed, db'))
    × Credited 2 "USDT" (pos 5) two_users db'
unfolding show_ℤ
deposit_example =
    credit-deposit_payload "c" row_of_5 12 reported_5 empty_chain empty_chain (wallet_of 2 "0xb")
      two_users reports_5 two_users-Inv owner_of_0xb (omega arith) refl
