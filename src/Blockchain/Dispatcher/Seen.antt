-- ===== src/Blockchain/Dispatcher/Seen.antt =====
-- What was processed stays processed, and a dispatch that returns records its event.
use mini_crypto_wallet.Base.{
  ◌≡◌, refl, sym, ◌⊎◌, inl, inr, Bool, true, [], ◌∷◌, ◌++◌, String, str_eq, not, false, eq_iff,
  arith, if◌then◌else◌, Bool-cases, Option-cases, some,
}
use mini_crypto_wallet.Base.Table.{any, any-append, update}
use mini_crypto_wallet.Base.Result.{
  Result, Error, ok, err, value_error, key_error, unsupported_asset, integrity_error, commit,
  ok-injective,
}
use mini_crypto_wallet.Base.Keeps.{
  Order, Keeps, Keeps-pure, Keeps-gets, Keeps-or_raise, Keeps-if, Keeps-bind, Keeps-raise_if,
  Keeps-modify,
}
use mini_crypto_wallet.Base.Text.{◌<>◌, parse_uuid}
use mini_crypto_wallet.Common.Events.{
  Payload, EventEnvelope, get, show, int_of, new_event, transfer_requested, tx_failed,
}
use mini_crypto_wallet.Common.Assets.{get_asset}
use mini_crypto_wallet.Blockchain.Models.{
  ChainDb, OutgoingTransaction, save_outgoing, enqueue, hash_taken, is_outgoing, failed,
}
use mini_crypto_wallet.Blockchain.Transactions.{
  accepted, duplicate, accept_transfer_request, insert_outgoing, refuse_unknown, report_failure,
  failure_payload, producer, new_outgoing, get_text,
}
use mini_crypto_wallet.Common.Outbox.{enqueue_event}
use mini_crypto_wallet.Blockchain.Dispatcher.{
  Outcome, requested, seen_before, ignored, was_processed, handle, claimed, claim_and_handle,
  dispatch,
}

-- What was processed stays processed.
abbrev pub seen : Order ChainDb
seen = record {
  to = λ s t. (id : String) → was_processed id s ≡ true → was_processed id t ≡ true;
  same = λ s id h. h;
  trans = λ s t u p q id h. q id (p id h);
}

insert_outgoing-Keeps : (r : OutgoingTransaction) → Keeps seen (insert_outgoing r)
unfolding insert_outgoing
insert_outgoing-Keeps r = Keeps-bind seen _ _ (Keeps-raise_if seen _ _) λ _.
    Keeps-bind seen _ _
      (Keeps-gets seen λ db. any (λ x. str_eq x.transfer_id r.transfer_id) db.outgoing_transactions)
      λ known.
        Keeps-bind seen _ _
          (Keeps-modify seen
            (λ db.
              if known
              then db
              else record db { outgoing_transactions = db.outgoing_transactions ++ r ∷ [] })
            (λ s. kept known s))
          λ _. Keeps-pure seen (not known)
  where
    kept :
        (known : Bool) (s : ChainDb) (id : String)
        → was_processed id s ≡ true
        → was_processed id (
            if known
            then s
            else record s { outgoing_transactions = s.outgoing_transactions ++ r ∷ [] })
          ≡ true
    kept true s id h = h
    kept false s id h = h

report_failure-Keeps :
    (uuid5 : String → String) (r : OutgoingTransaction) (reason code cid : String)
    → Keeps seen (report_failure uuid5 r reason code cid)
unfolding report_failure failure_payload enqueue
report_failure-Keeps uuid5 r reason code cid =
    Keeps-bind seen _ _
      (Keeps-bind seen _ _ (Keeps-or_raise seen (get_asset r.asset) unsupported_asset)
        (λ asset. Keeps-pure seen _))
      (λ payload.
        Keeps-modify seen
          (λ db. record db {
            outbox =
                enqueue_event
                  (new_event uuid5 tx_failed payload producer (r.transfer_id <> ":" <> code) cid)
                  db.outbox;
          })
          (λ s id h. h))

save_outgoing-Keeps : (r : OutgoingTransaction) → Keeps seen (save_outgoing r)
unfolding save_outgoing
save_outgoing-Keeps r = Keeps-bind seen _ _ (Keeps-gets seen (hash_taken r)) λ taken.
    Keeps-bind seen _ _ (Keeps-raise_if seen taken integrity_error) λ _.
      Keeps-modify seen
        (λ db. record db {
          outgoing_transactions = update (is_outgoing r.id) (λ old. r) db.outgoing_transactions;
        })
        (λ s id h. h)

refuse_unknown-Keeps :
    (uuid5 : String → String) (r : OutgoingTransaction) → Keeps seen (refuse_unknown uuid5 r)
unfolding refuse_unknown
refuse_unknown-Keeps uuid5 r =
    let r' = record r { status = failed; failure_reason = some "unknown sending address" } in
    let reason : String = "unknown sending address" in
    let code : String = "UNKNOWN_SENDING_ADDRESS" in
    Keeps-bind seen _ _ (save_outgoing-Keeps r') λ _.
      Keeps-bind seen _ _ (report_failure-Keeps uuid5 r' reason code r.correlation_id)
        λ _. Keeps-pure seen accepted

accept_transfer_request-Keeps :
    (uuid5 : String → String) (id : String) (payload : Payload) (cid : String)
    → Keeps seen (accept_transfer_request uuid5 id payload cid)
unfolding accept_transfer_request
accept_transfer_request-Keeps uuid5 id payload cid =
    Keeps-bind seen _ _ (Keeps-or_raise seen (get "transfer_id" payload) key_error) λ raw.
      Keeps-bind seen _ _ (Keeps-or_raise seen (parse_uuid (show raw)) value_error) λ transfer_id.
        Keeps-bind seen _ _ (Keeps-or_raise seen (get "from_address" payload) key_error)
          λ from_address.
            Keeps-bind seen _ _ (Keeps-or_raise seen (get "to_address" payload) key_error)
              λ to_address.
                Keeps-bind seen _ _ (Keeps-or_raise seen (get "amount_units" payload) key_error)
                  λ units.
                    Keeps-bind seen _ _ (Keeps-or_raise seen (int_of units) value_error) λ amount.
                      Keeps-bind seen _ _
                        (Keeps-gets seen
                          λ db. any (λ a. str_eq a.address (show from_address)) db.addresses)
                        λ known.
                          let r =
                            new_outgoing id transfer_id (get_text "network" "BSC" payload)
                              (get_text "asset" "USDT" payload) (show from_address)
                              (show to_address) amount cid in
                          Keeps-bind seen _ _ (insert_outgoing-Keeps r) λ inserted.
                            Keeps-if seen (not inserted) _ _ (Keeps-pure seen duplicate) (
                              Keeps-if seen known _ _ (Keeps-pure seen accepted)
                                (refuse_unknown-Keeps uuid5 r))

handle-Keeps :
    (uuid5 : String → String) (id : String) (e : EventEnvelope) → Keeps seen (handle uuid5 id e)
unfolding handle
handle-Keeps uuid5 id e =
    Keeps-if seen (str_eq e.event_type transfer_requested) _ _
      (Keeps-bind seen _ _ (accept_transfer_request-Keeps uuid5 id e.payload e.correlation_id)
        (λ label. Keeps-pure seen (requested label)))
      (Keeps-pure seen ignored)

claimed-seen :
    (event_id : String) (e : EventEnvelope) (db : ChainDb)
    → seen.to db (claimed event_id e db) × (was_processed event_id (claimed event_id e db) ≡ true)
claimed-seen event_id e db =
    (λ id h. rw (any-append, h) refl, rw any-append (ground (arith, eq_iff event_id event_id)))

-- The event has its row in `processed_events`.
abbrev pub Processed : ChainDb → EventEnvelope → Type 0
Processed db e = (id : String) × (parse_uuid e.event_id ≡ some id) × (was_processed id db ≡ true)

module _ (uuid5 : String → String) (id : String) where
  claim_and_handle-Processed :
      (e : EventEnvelope) (out : Outcome) (db db' : ChainDb)
      → claim_and_handle uuid5 id e db ≡ ok (out, db')
      → seen.to db db' × Processed db' e
  unfolding claim_and_handle
  claim_and_handle-Processed e out db db' h = elim (Option-cases (parse_uuid e.event_id)) [
    | inl k ↦ cc (rw k at h)
    | inr (event_id, k) ↦ elim (Bool-cases (was_processed event_id db)) [
      | inl known ↦
          let same : db ≡ db' = (ok-injective _ _ _ _ (rw (k, known) at h)).1 in
          rw (sym same) (λ i p. p, (event_id, k, known))
      | inr new ↦
          let later = handle-Keeps uuid5 id e out (claimed event_id e db) db' (rw (k, new) at h) in
          let (before, there) = claimed-seen event_id e db in
          (λ i p. later i (before i p), (event_id, k, later event_id there))
    ]
  ]

  -- A dispatch commits and records its event, or it leaves the database as it was.
  pub dispatch-cases :
      (e : EventEnvelope) (db : ChainDb)
      → ((out : Outcome) × (db' : ChainDb) × (dispatch uuid5 id e db ≡ (ok out, db'))
          × seen.to db db'
          × Processed db' e)
        ⊎ ((x : Error) × (dispatch uuid5 id e db ≡ (err x, db)))
  unfolding dispatch
  dispatch-cases e db = ended (claim_and_handle uuid5 id e db) refl
    where
      ended :
          (r : Result (Outcome × ChainDb))
          → claim_and_handle uuid5 id e db ≡ r
          → ((out : Outcome) × (db' : ChainDb) × (commit r db ≡ (ok out, db'))
              × seen.to db db'
              × Processed db' e)
            ⊎ ((x : Error) × (commit r db ≡ (err x, db)))
      ended (ok (out, db')) h =
          let (later, there) = claim_and_handle-Processed e out db db' h in
          inl (out, db', refl, later, there)
      ended (err x) h = inr (x, refl)

  pub dispatch-seen :
      (e e' : EventEnvelope) (db : ChainDb)
      → Processed db e'
      → Processed (dispatch uuid5 id e db).1 e'
  dispatch-seen e e' db (i, k, h) = elim (dispatch-cases e db) [
    | inl (out, db', is, later, there) ↦ (i, k, rw is (later i h))
    | inr (x, is) ↦ (i, k, rw is h)
  ]

  pub again_seen :
      (e : EventEnvelope) (db : ChainDb)
      → Processed db e
      → dispatch uuid5 id e db ≡ (ok seen_before, db)
  unfolding dispatch claim_and_handle
  again_seen e db (i, k, h) = rw (k, h) refl
