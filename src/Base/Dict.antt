-- ===== src/Base/Dict.antt =====
-- Python's `dict`, as the association list of its items in the order of insertion.
use mathlib.Core.Path.{◌≡◌, refl, ap, ◌∙◌, sym}
use mathlib.Core.Logic.{◌↔◌, ◌⊎◌, inl, inr}
use mathlib.Core.Bool.{Bool, true, false}
use mathlib.Core.Option.{Option, none, some}
use mathlib.Core.List.{List, [], ◌∷◌, Memᴰ}
use mathlib.Core.List.Memᴰ
use native.Mathlib.Omega.{arith}
use mini_crypto_wallet.Base.Tests.{if◌then◌else◌, Bool-cases}

module _ {K V : Type 0} (eq : K → K → Bool) where
  -- `d.get(key)`
  abbrev pub lookup : K → List (K × V) → Option V
  lookup key [] = none
  lookup key ((k, v) ∷ d) = if eq k key then some v else lookup key d

  -- `d.get(key, default)`
  abbrev pub get_or : V → K → List (K × V) → V
  get_or default key [] = default
  get_or default key ((k, v) ∷ d) = if eq k key then v else get_or default key d

  -- `d[key] = value`
  abbrev pub put : K → V → List (K × V) → List (K × V)
  put key value [] = (key, value) ∷ []
  put key value ((k, v) ∷ d) = if eq k key then (k, value) ∷ d else (k, v) ∷ put key value d

  -- `d.get(key, default)` changed in place by `f`, which keeps the default as it is.
  abbrev pub adjust : K → (V → V) → List (K × V) → List (K × V)
  adjust key f [] = []
  adjust key f ((k, v) ∷ d) = if eq k key then (k, f v) ∷ d else (k, v) ∷ adjust key f d

  -- `d.setdefault(key, value)`
  abbrev pub setdefault : K → V → List (K × V) → List (K × V)
  setdefault key value [] = (key, value) ∷ []
  setdefault key value ((k, v) ∷ d) =
      if eq k key then (k, v) ∷ d else (k, v) ∷ setdefault key value d

  -- `d.pop(key, None)`
  abbrev pub pop : K → List (K × V) → List (K × V)
  pop key [] = []
  pop key ((k, v) ∷ d) = let rest = pop key d in if eq k key then rest else (k, v) ∷ rest

  pub lookup-pop_self : (key : K) (d : List (K × V)) → lookup key (pop key d) ≡ none
  lookup-pop_self key [] = refl
  lookup-pop_self key ((k, v) ∷ d) = elim (Bool-cases (eq k key)) [
    | inl e ↦ rw e (lookup-pop_self key d)
    | inr e ↦ rw (e, e) (lookup-pop_self key d)
  ]

  pub mem_of_pop : (key : K) (d : List (K × V)) {x : K × V} → Memᴰ x (pop key d) → Memᴰ x d
  mem_of_pop key [] m = m
  mem_of_pop key ((k, v) ∷ d) m = elim (Bool-cases (eq k key)) [
    | inl e ↦ Memᴰ.tail (mem_of_pop key d (rw e at m))
    | inr e ↦ elim (Memᴰ.cases_cons (rw e at m)) [
      | inl h ↦ Memᴰ.head h
      | inr m' ↦ Memᴰ.tail (mem_of_pop key d m')
    ]
  ]

  -- The default is what a missing key reads as, so `setdefault` with it changes no reading.
  pub get_or-setdefault :
      (v : V) (key k : K) (d : List (K × V)) → get_or v k (setdefault key v d) ≡ get_or v k d
  get_or-setdefault v key k [] = ground arith
  get_or-setdefault v key k ((k', w) ∷ d) = ground (arith, get_or-setdefault v key k d)

eq_ne :
    {K : Type 0} (eq : K → K → Bool) (eq_true : (a b : K) → (eq a b ≡ true) ↔ (a ≡ b)) (a b c : K)
    → eq a b ≡ true
    → eq b c ≡ false
    → eq a c ≡ false
eq_ne eq eq_true a b c h k = let same : a ≡ b = (eq_true a b).0 h in rw same k

module _ {K V : Type 0} (eq : K → K → Bool) (eq_true : (a b : K) → (eq a b ≡ true) ↔ (a ≡ b)) where
  pub lookup-put_self :
      (key : K) (v : V) (d : List (K × V)) → lookup eq key (put eq key v d) ≡ some v
  lookup-put_self key v [] = rw ((eq_true key key).1 refl)
  lookup-put_self key v ((k, w) ∷ d) = elim (Bool-cases (eq k key)) [
    | inl e ↦ rw (e, e)
    | inr e ↦ rw (e, e) (lookup-put_self key v d)
  ]

  pub lookup-put_ne :
      (key k' : K) (v : V) (d : List (K × V))
      → eq key k' ≡ false
      → lookup eq k' (put eq key v d) ≡ lookup eq k' d
  lookup-put_ne key k' v [] h = rw h
  lookup-put_ne key k' v ((k, w) ∷ d) h = elim (Bool-cases (eq k key)) [
    | inl e ↦ rw (e, eq_ne eq eq_true k key k' e h)
    | inr e ↦ rw (e, lookup-put_ne key k' v d h)
  ]

  pub get_or-put_self :
      (v₀ : V) (key : K) (v : V) (d : List (K × V)) → get_or eq v₀ key (put eq key v d) ≡ v
  get_or-put_self v₀ key v [] = rw ((eq_true key key).1 refl)
  get_or-put_self v₀ key v ((k, w) ∷ d) = elim (Bool-cases (eq k key)) [
    | inl e ↦ rw (e, e)
    | inr e ↦ rw (e, e) (get_or-put_self v₀ key v d)
  ]

  pub get_or-put_ne :
      (v₀ : V) (key k' : K) (v : V) (d : List (K × V))
      → eq key k' ≡ false
      → get_or eq v₀ k' (put eq key v d) ≡ get_or eq v₀ k' d
  get_or-put_ne v₀ key k' v [] h = rw h
  get_or-put_ne v₀ key k' v ((k, w) ∷ d) h = elim (Bool-cases (eq k key)) [
    | inl e ↦ rw (e, eq_ne eq eq_true k key k' e h)
    | inr e ↦ rw (e, get_or-put_ne v₀ key k' v d h)
  ]

  pub get_or-adjust_self :
      (v₀ : V) (key : K) (f : V → V) (d : List (K × V))
      → f v₀ ≡ v₀
      → get_or eq v₀ key (adjust eq key f d) ≡ f (get_or eq v₀ key d)
  get_or-adjust_self v₀ key f [] h = sym h
  get_or-adjust_self v₀ key f ((k, w) ∷ d) h = elim (Bool-cases (eq k key)) [
    | inl e ↦ rw (e, e)
    | inr e ↦ rw (e, e) (get_or-adjust_self v₀ key f d h)
  ]

  pub get_or-adjust_ne :
      (v₀ : V) (key k' : K) (f : V → V) (d : List (K × V))
      → eq key k' ≡ false
      → get_or eq v₀ k' (adjust eq key f d) ≡ get_or eq v₀ k' d
  get_or-adjust_ne v₀ key k' f [] h = refl
  get_or-adjust_ne v₀ key k' f ((k, w) ∷ d) h = elim (Bool-cases (eq k key)) [
    | inl e ↦ rw (e, eq_ne eq eq_true k key k' e h)
    | inr e ↦ rw (e, get_or-adjust_ne v₀ key k' f d h)
  ]

  pub lookup-pop_ne :
      (key k' : K) (d : List (K × V))
      → eq key k' ≡ false
      → lookup eq k' (pop eq key d) ≡ lookup eq k' d
  lookup-pop_ne key k' [] h = refl
  lookup-pop_ne key k' ((k, w) ∷ d) h = elim (Bool-cases (eq k key)) [
    | inl e ↦ rw (e, eq_ne eq eq_true k key k' e h) (lookup-pop_ne key k' d h)
    | inr e ↦ rw (e, lookup-pop_ne key k' d h)
  ]

  pub mem_of_put :
      (key : K) (v : V) (d : List (K × V)) {x : K × V}
      → Memᴰ x (put eq key v d)
      → (x ≡ (key, v)) ⊎ Memᴰ x d
  mem_of_put key v [] m = inl (Memᴰ.eq_of_singleton m)
  mem_of_put key v ((k, w) ∷ d) m = elim (Bool-cases (eq k key)) [
    | inl e ↦
        let same : k ≡ key = (eq_true k key).0 e in
        elim (Memᴰ.cases_cons (rw e at m)) [
          | inl h ↦ inl (h ∙ ap (λ (a : K). (a, v)) same)
          | inr m' ↦ inr (Memᴰ.tail m')
        ]
    | inr e ↦ elim (Memᴰ.cases_cons (rw e at m)) [
      | inl h ↦ inr (Memᴰ.head h)
      | inr m' ↦ elim (mem_of_put key v d m') [ inl h ↦ inl h | inr m'' ↦ inr (Memᴰ.tail m'') ]
    ]
  ]
