-- ===== src/Common/Events.antt =====
-- libs/common/src/mcw_common/events.py: the envelope of an event and its payload. The SHA-1 name
-- hash `uuid.uuid5(EVENT_NAMESPACE, ...)` is a parameter.
use mini_crypto_wallet.Base.{
  Bool, true, false, not, Option, none, some, List, [], ◌∷◌, String, str_eq, if◌then◌else◌,
}
use mini_crypto_wallet.Base.Int.{ℤ, pos, eqb_ℤ}
use mini_crypto_wallet.Base.Result.{Tx, or_raise, key_error}
use mini_crypto_wallet.Base.Text.{◌<>◌, show_ℤ, read_ℤ}

-- The JSON values that payloads hold.
pub data Value : Type 0 where
  str : String → Value
  int : ℤ → Value
  bool : Bool → Value
  null : Value

-- `dict[str, Any]`, as the pairs in order; keys are not repeated.
abbrev pub Payload : Type 0
Payload = List (String × Value)

-- `payload.get(key)`
abbrev pub get : String → Payload → Option Value
get key [] = none
get key ((k, v) ∷ rest) = if str_eq k key then some v else get key rest

-- `payload[key]`, which raises KeyError
abbrev pub item : {S : Type 0} → String → Payload → Tx S Value
item key payload = or_raise (get key payload) key_error

-- `str(value)`, as an f-string writes it
unfoldable pub show : Value → String
show (str s) = s
show (int n) = show_ℤ n
show (bool true) = "True"
show (bool false) = "False"
show null = "None"

-- `int(value)`; `none` is ValueError
unfoldable pub int_of : Value → Option ℤ
int_of (int n) = some n
int_of v = read_ℤ (show v)

-- `bool(payload.get(key))`
abbrev pub truthy : Option Value → Bool
truthy none = false
truthy (some (str s)) = not (str_eq s "")
truthy (some (int n)) = not (eqb_ℤ n (pos 0))
truthy (some (bool b)) = b
truthy (some null) = false

-- `EventType`
abbrev pub deposit_detected : String
deposit_detected = "deposit.detected"

abbrev pub deposit_confirmed : String
deposit_confirmed = "deposit.confirmed"

abbrev pub deposit_reorged : String
deposit_reorged = "deposit.reorged"

abbrev pub tx_broadcasted : String
tx_broadcasted = "blockchain.transaction.broadcasted"

abbrev pub tx_confirmed : String
tx_confirmed = "blockchain.transaction.confirmed"

abbrev pub tx_failed : String
tx_failed = "blockchain.transaction.failed"

abbrev pub transfer_requested : String
transfer_requested = "transfer.requested"

unfoldable pub stream_for : String → String
stream_for event_type = "mcw:events:" <> event_type

pub record EventEnvelope : Type 0 where
  pub event_id : String
  pub event_type : String
  pub producer : String
  pub correlation_id : String
  pub payload : Payload

-- The code gives every event a dedupe key, so the random id of an event without one is left out,
-- and so are the time stamp, the schema version 1 and the causation id, which nothing reads.
unfoldable pub new_event :
    (String → String) → String → Payload → String → String → String → EventEnvelope
new_event uuid5 event_type payload producer dedupe_key correlation_id = record {
  event_id = uuid5 (event_type <> "|" <> dedupe_key);
  event_type = event_type;
  producer = producer;
  correlation_id = correlation_id;
  payload = payload;
}
