-- ===== src/Base/Keeps.antt =====
-- What every successful run of a transaction step keeps, by a reflexive and transitive relation
-- between the states before and after it.
use mathlib.Core.Bool.{Bool, true, false}
use mathlib.Core.Option.{Option, none, some}
use mathlib.Core.Path.{◌≡◌, refl, sym, subst, ◌∙◌}
use mini_crypto_wallet.Base.Tests.{if◌then◌else◌}
use mini_crypto_wallet.Base.Result.{
  Tx, Error, ok, if_none, ◌>>=◌, pure, gets, or_raise, raise_if, modify, bind-eq-ok, ok-injective,
}

pub record Order (S : Type 0) : Type 1 where
  pub to : S → S → Type 0
  pub same : (s : S) → to s s
  pub trans : (s t u : S) → to s t → to t u → to s u

-- Steps that change nothing.
abbrev pub unchanged : {S : Type 0} → Order S
unchanged = record { to = λ s t. t ≡ s; same = λ s. refl; trans = λ s t u p q. q ∙ p }

module _ {S : Type 0} (R : Order S) where
  abbrev pub Keeps : {A : Type 0} → Tx S A → Type 0
  Keeps {A} m = (a : A) (s s' : S) → m s ≡ ok (a, s') → R.to s s'

  module _ {A : Type 0} where
    -- A step that succeeds only where it leaves the state.
    pub Keeps-same : (m : Tx S A) → ((a : A) (s s' : S) → m s ≡ ok (a, s') → s' ≡ s) → Keeps m
    Keeps-same m h a s s' e = subst (λ t. R.to s t) (sym (h a s s' e)) (R.same s)

    pub Keeps-pure : (x : A) → Keeps (pure x)
    Keeps-pure x = Keeps-same (pure x) λ a s s' e. sym (ok-injective _ _ _ _ e).1

    pub Keeps-gets : (f : S → A) → Keeps (gets f)
    Keeps-gets f = Keeps-same (gets f) λ a s s' e. sym (ok-injective _ _ _ _ e).1

    pub Keeps-or_raise : (o : Option A) (x : Error) → Keeps (or_raise o x)
    Keeps-or_raise none x a s s' e = cc
    Keeps-or_raise (some b) x a s s' e = subst (λ t. R.to s t) (ok-injective _ _ _ _ e).1 (R.same s)

    pub Keeps-if : (b : Bool) (m n : Tx S A) → Keeps m → Keeps n → Keeps (if b then m else n)
    Keeps-if true m n hm hn = hm
    Keeps-if false m n hm hn = hn

    pub Keeps-if_none :
        {B : Type 0} (o : Option B) (m : Tx S A) (f : B → Tx S A)
        → Keeps m
        → ((b : B) → Keeps (f b))
        → Keeps (if_none o m f)
    Keeps-if_none none m f hm hf = hm
    Keeps-if_none (some b) m f hm hf = hf b

    pub Keeps-bind :
        {B : Type 0} (m : Tx S B) (f : B → Tx S A)
        → Keeps m
        → ((b : B) → Keeps (f b))
        → Keeps (m >>= f)
    Keeps-bind m f hm hf a s s' e =
        let (b, t, e1, e2) = bind-eq-ok (m s) f a s' e in
        R.trans s t s' (hm b s t e1) (hf b a t s' e2)

  pub Keeps-raise_if : (b : Bool) (x : Error) → Keeps (raise_if b x)
  Keeps-raise_if true x a s s' e = cc
  Keeps-raise_if false x a s s' e = subst (λ t. R.to s t) (ok-injective _ _ _ _ e).1 (R.same s)

  pub Keeps-modify : (f : S → S) → ((s : S) → R.to s (f s)) → Keeps (modify f)
  Keeps-modify f h a s s' e = subst (λ t. R.to s t) (ok-injective _ _ _ _ e).1 (h s)
