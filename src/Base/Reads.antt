-- ===== src/Base/Reads.antt =====
-- Steps that read no state and change none: what they return once, they return on every state.
use mathlib.Core.Option.{Option, none, some}
use mathlib.Core.Path.{◌≡◌, refl, sym, ◌∙◌}
use mini_crypto_wallet.Base.Result.{Tx, Error, ok, ◌>>=◌, pure, or_raise, bind-eq-ok, ok-injective}

module _ {S : Type 0} where
  abbrev pub Stateless : {A : Type 0} → Tx S A → Type 0
  Stateless {A} m = (a : A) (s s' : S) → m s ≡ ok (a, s') → (s' ≡ s) × ((t : S) → m t ≡ ok (a, t))

  module _ {A : Type 0} where
    pub Stateless-pure : (x : A) → Stateless (pure x)
    Stateless-pure x a s s' e =
        let (same, last) = ok-injective _ _ _ _ e in (sym last, λ t. rw same refl)

    pub Stateless-or_raise : (o : Option A) (x : Error) → Stateless (or_raise o x)
    Stateless-or_raise none x a s s' e = cc
    Stateless-or_raise (some b) x a s s' e =
        let (same, last) = ok-injective _ _ _ _ e in (sym last, λ t. rw same refl)

    pub Stateless-bind :
        {B : Type 0} (m : Tx S B) (f : B → Tx S A)
        → Stateless m
        → ((b : B) → Stateless (f b))
        → Stateless (m >>= f)
    Stateless-bind m f hm hf a s s' e =
        let (b, t, e1, e2) = bind-eq-ok (m s) f a s' e in
        let (same1, all1) = hm b s t e1 in
        let (same2, all2) = hf b a t s' e2 in (same2 ∙ same1, λ u. rw (all1 u) (all2 u))
