-- ===== src/Wallet/Deposits.antt =====
-- services/wallet/wallet_service/services/deposits.py: confirmed deposits are credited, and taken
-- back when the chain takes them back.
pub mod Once
pub mod Effect
use mini_crypto_wallet.Base.{
  ℕ, ◌==◌, Bool, true, false, not, Option, none, some, List, [], ◌∷◌, String, if◌then◌else◌,
}
use mini_crypto_wallet.Base.Int.{ℤ, neg}
use mini_crypto_wallet.Base.Result.{Tx, if_none, ◌>>=◌, ◌>>◌, pure, gets, or_raise, value_error}
use mini_crypto_wallet.Base.Text.{◌<>◌}
use mini_crypto_wallet.Common.Events.{Value, Payload, str, int, get, item, show, truthy, int_of}
use mini_crypto_wallet.Wallet.Models.{WalletDb, EntryType, deposit, reversal}
use mini_crypto_wallet.Wallet.Ledger.{Posting, post_entries}
use mini_crypto_wallet.Wallet.Users.{wallet_by_address}
use mini_crypto_wallet.Wallet.Transfers.{Outcome, processed, duplicate, ignored}

abbrev pub reference_type : String
reference_type = "DEPOSIT"

-- `payload.get(key, '')`, as an f-string writes it
abbrev show_or_empty : Option Value → String
show_or_empty none = ""
show_or_empty (some v) = show v

-- The identity of a log, and the block that it stands in under the key `block_key`.
unfoldable pub chain_reference : String → Payload → Tx WalletDb String
chain_reference block_key payload = do
  network ← item "network" payload
  tx_hash ← item "tx_hash" payload
  log_index ← item "log_index" payload
  pure (
      show network
      <> ":"
      <> show tx_hash
      <> ":"
      <> show log_index
      <> ":"
      <> show_or_empty (get block_key payload))

unfoldable pub reference_id : Payload → Tx WalletDb String
reference_id = chain_reference "block_hash"

unfoldable pub amount_units : Payload → Tx WalletDb ℤ
amount_units payload = do or_raise (int_of (← item "amount_units" payload)) value_error

abbrev pub deposit_posting : ℕ → ℤ → EntryType → String → Posting
deposit_posting user amount entry_type reference = record {
  user_id = user;
  amount = amount;
  entry_type = entry_type;
  reference_type = reference_type;
  reference_id = reference;
}

abbrev pub outcome_of : ℕ → Outcome
outcome_of written = if written == 0 then duplicate else processed

unfoldable pub credit_deposit : String → Payload → Tx WalletDb Outcome
credit_deposit cid payload = do
  address ← item "to_address" payload
  found ← gets (wallet_by_address (show address))
  if_none found (pure ignored) λ wallet. do
    amount ← amount_units payload
    asset ← item "asset" payload
    reference ← reference_id payload
    written ←
        post_entries cid (show asset) (deposit_posting wallet.user_id amount deposit reference ∷ [])
    pure (outcome_of written)

unfoldable pub reverse_deposit : String → Payload → Tx WalletDb Outcome
reverse_deposit cid payload =
    if not (truthy (get "was_confirmed" payload)) then pure processed else do
      address ← item "to_address" payload
      found ← gets (wallet_by_address (show address))
      if_none found (pure ignored) λ wallet. do
        amount ← amount_units payload
        reference ← chain_reference "orphaned_block_hash" payload
        asset ← item "asset" payload
        written ←
            post_entries cid (show asset)
              (deposit_posting wallet.user_id (neg amount) reversal reference ∷ [])
        pure (outcome_of written)
