-- ===== src/Base/Table.antt =====
-- A database table as the list of its rows, in the order of insertion. A statement that names a
-- unique key addresses the first row with the key; inserts keep it the only one.
use mathlib.Core.Path.{◌≡◌, refl, ap}
use mathlib.Core.Logic.{inl, inr}
use mathlib.Core.Bool.{Bool, true, false, ◌||◌}
use mathlib.Core.Option.{Option, none, some}
use mathlib.Core.List.{List, [], ◌∷◌, ◌++◌}
use native.Mathlib.Omega.{arith}
use Prim.Native.Nat.{ℕ, zero, suc}
use mini_crypto_wallet.Base.Tests.{if◌then◌else◌, Bool-cases}
use mini_crypto_wallet.Base.Int.{ℤ, pos, pos_part, neg_part, ◌+ℤ◌, int_laws}

module _ {A : Type 0} where
  abbrev pub length : List A → ℕ
  length [] = 0
  length (x ∷ xs) = suc (length xs)

  abbrev pub find? : (A → Bool) → List A → Option A
  find? p [] = none
  find? p (x ∷ xs) = if p x then some x else find? p xs

  abbrev pub any : (A → Bool) → List A → Bool
  any p [] = false
  any p (x ∷ xs) = p x || any p xs

  abbrev pub filter : (A → Bool) → List A → List A
  filter p [] = []
  filter p (x ∷ xs) = let rest = filter p xs in if p x then x ∷ rest else rest

  -- UPDATE ... WHERE <unique key>
  abbrev pub update : (A → Bool) → (A → A) → List A → List A
  update p f [] = []
  update p f (x ∷ xs) = if p x then f x ∷ xs else x ∷ update p f xs

  abbrev pub sum : (A → ℤ) → List A → ℤ
  sum g [] = pos 0
  sum g (x ∷ xs) = g x +ℤ sum g xs

  -- `xs[:n]` and `xs[n:]`
  abbrev pub take : ℕ → List A → List A
  take n [] = []
  take zero (x ∷ xs) = []
  take (suc n) (x ∷ xs) = x ∷ take n xs

  abbrev pub drop : ℕ → List A → List A
  drop n [] = []
  drop zero (x ∷ xs) = x ∷ xs
  drop (suc n) (x ∷ xs) = drop n xs

  abbrev pub or_else : Option A → Option A → Option A
  or_else none o = o
  or_else (some a) o = some a

  abbrev pub is_some : Option A → Bool
  is_some none = false
  is_some (some a) = true

  pub find?-append :
      (p : A → Bool) (xs ys : List A) → find? p (xs ++ ys) ≡ or_else (find? p xs) (find? p ys)
  find?-append p [] ys = refl
  find?-append p (x ∷ xs) ys = ground (arith, find?-append p xs ys)

  -- What a search finds satisfies its test.
  pub find?_sound : (p : A → Bool) (xs : List A) (a : A) → find? p xs ≡ some a → p a ≡ true
  find?_sound p [] a h = cc
  find?_sound p (x ∷ xs) a h = ground (arith, find?_sound p xs a)

  pub any-append : (p : A → Bool) (xs ys : List A) → any p (xs ++ ys) ≡ (any p xs || any p ys)
  any-append p [] ys = refl
  any-append p (x ∷ xs) ys = ground (arith, any-append p xs ys)

  -- A row that is updated by its own key is found again, changed.
  pub find?-update_self :
      (p : A → Bool) (f : A → A) (xs : List A) (a : A)
      → find? p xs ≡ some a
      → p (f a) ≡ true
      → find? p (update p f xs) ≡ some (f a)
  find?-update_self p f [] a h k = cc
  find?-update_self p f (x ∷ xs) a h k = elim (Bool-cases (p x)) [
    | inl e ↦ let same : x ≡ a = ground arith in rw (e, same, k)
    | inr e ↦ rw (e, e) (find?-update_self p f xs a (rw e at h) k)
  ]

  -- A search for rows that the update neither takes nor makes is unchanged.
  pub find?-update_ne :
      (q p : A → Bool) (f : A → A) (xs : List A)
      → ((x : A) → p x ≡ true → (q x ≡ false) × (q (f x) ≡ false))
      → find? q (update p f xs) ≡ find? q xs
  find?-update_ne q p f [] h = refl
  find?-update_ne q p f (x ∷ xs) h = elim (Bool-cases (p x)) [
    | inl e ↦ rw (e, (h x e).0, (h x e).1)
    | inr e ↦ rw (e, find?-update_ne q p f xs h)
  ]

module _ {A : Type 0} where
  pub sum-append : (g : A → ℤ) (xs ys : List A) → sum g (xs ++ ys) ≡ sum g xs +ℤ sum g ys
  sum-append g [] ys = omega int_laws
  sum-append g (x ∷ xs) ys = rw (sum-append g xs ys) (omega int_laws)

  pub sum-update :
      (g : A → ℤ) (p : A → Bool) (f : A → A) (xs : List A) (a : A)
      → find? p xs ≡ some a
      → sum g (update p f xs) +ℤ g a ≡ sum g xs +ℤ g (f a)
  sum-update g p f [] a h = cc
  sum-update g p f (x ∷ xs) a h = elim (Bool-cases (p x)) [
    | inl e ↦ let same : x ≡ a = ground arith in rw (e, same) (omega int_laws)
    | inr e ↦
        let ih = ap (λ (t : ℤ). g x +ℤ t) (sum-update g p f xs a (rw e at h)) in
        rw e (omega (int_laws, ap pos_part ih, ap neg_part ih))
  ]
