-- ===== src/Base/Result.antt =====
-- Exceptions as values, and code that runs inside one database transaction: an error drops the
-- state, which is the rollback of `session.begin()`.
use mathlib.Core.Bool.{Bool}
use mathlib.Core.Option.{Option, none, some}
use mathlib.Core.Logic.{◌⊎◌, inl, inr}
use mathlib.Core.Path.{◌≡◌, refl}
use mini_crypto_wallet.Base.Tests.{if◌then◌else◌}
use mini_crypto_wallet.Base.Int.{ℤ}

-- The classes of mcw_common/errors.py that the modelled code raises, and the exceptions of
-- Python, of the database and of the chain that reach its callers.
pub data Error : Type 0 where
  validation_error not_found conflict wallet_inactive : Error
  -- the available and the requested amount of an InsufficientFundsError, in units
  insufficient_funds : ℤ → ℤ → Error
  idempotency_conflict idempotency_in_progress : Error
  unsupported_asset key_error value_error assertion_error integrity_error : Error
  rpc_unavailable transaction_rejected other_error : Error

pub data Result {ℓ} (A : Type ℓ) : Type ℓ where
  ok : A → Result A
  err : Error → Result A

-- A step of a transaction on a database `S`.
abbrev pub Tx : Type 0 → Type 0 → Type 0
Tx S A = S → Result (A × S)

-- `if x is None: ... else: ...`
abbrev pub if_none {ℓ κ} : {A : Type ℓ} {B : Type κ} → Option A → B → (A → B) → B
if_none none b f = b
if_none (some a) b f = f a

infixl 5 ◌>>=◌ ◌>>◌
abbrev pub bind : {S A B : Type 0} → Result (A × S) → (A → Tx S B) → Result (B × S)
bind (ok (a, s)) f = f a s
bind (err e) f = err e

abbrev pub ◌>>=◌ : {S A B : Type 0} → Tx S A → (A → Tx S B) → Tx S B
◌>>=◌ m f s = bind (m s) f

abbrev pub ◌>>◌ : {S A B : Type 0} → Tx S A → Tx S B → Tx S B
m >> k = m >>= λ _. k

module _ {S A : Type 0} where
  abbrev pub pure : A → Tx S A
  pure a s = ok (a, s)

  abbrev pub raise : Error → Tx S A
  raise e s = err e

  abbrev pub gets : (S → A) → Tx S A
  gets f s = ok (f s, s)

  abbrev pub or_raise : Option A → Error → Tx S A
  or_raise none e s = err e
  or_raise (some a) e s = ok (a, s)

  -- `async with session.begin():` commits at the end of the block and rolls back on an exception.
  abbrev pub commit : Result (A × S) → S → Result A × S
  commit (ok (a, s')) s = (ok a, s')
  commit (err e) s = (err e, s)

  abbrev pub atomically : Tx S A → S → Result A × S
  atomically m s = commit (m s) s

-- What follows a transaction of its own, unless that raised.
abbrev pub after : {S A B : Type 0} → Result A × S → (A → S → Result B × S) → Result B × S
after (ok a, s) f = f a s
after (err e, s) f = (err e, s)

module _ {S : Type 0} where
  abbrev pub modify : (S → S) → Tx S (Unit {0})
  modify f s = ok (tt, f s)

  abbrev pub raise_if : Bool → Error → Tx S (Unit {0})
  raise_if b e s = if b then err e else ok (tt, s)

module _ {S A : Type 0} where
  pub ok-injective :
      (a b : A) (s t : S) → ◌≡◌ {A = Result (A × S)} (ok (a, s)) (ok (b, t)) → (a ≡ b) × (s ≡ t)
  ok-injective a b s t h = (cc, cc)

  -- The last step of a transaction that succeeds.
  pub bind-eq-ok :
      {B : Type 0} (r : Result (B × S)) (f : B → Tx S A) (a : A) (t : S)
      → bind r f ≡ ok (a, t)
      → (b : B) × (s : S) × (r ≡ ok (b, s)) × (f b s ≡ ok (a, t))
  bind-eq-ok (ok (b, s)) f a t h = (b, s, refl, h)
  bind-eq-ok (err e) f a t h = cc

-- `try: return ... except ... as e: ...`
abbrev pub or_else_err : {A : Type 0} → Result A → (Error → Result A) → Result A
or_else_err (ok a) f = ok a
or_else_err (err e) f = f e

pub ok-or-err : {A : Type 0} (r : Result A) → ((a : A) × (r ≡ ok a)) ⊎ ((e : Error) × (r ≡ err e))
ok-or-err (ok a) = inl (a, refl)
ok-or-err (err e) = inr (e, refl)
