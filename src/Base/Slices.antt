-- ===== src/Base/Slices.antt =====
-- What slices of a list hold.
use Prim.Native.Nat.{ℕ, zero, suc, ◌+◌, ◌-◌, ◌≤◌, min}
use mathlib.Core.Path.{◌≡◌, refl, ap}
use mathlib.Core.Logic.{inl, inr}
use mathlib.Core.List.{List, [], ◌∷◌, ◌++◌, Memᴰ}
use mathlib.Core.List.Memᴰ
use native.Mathlib.Omega.{arith}
use mini_crypto_wallet.Base.Tests.{Bool-cases, leb}
use mini_crypto_wallet.Base.Table.{length, take, drop}

module _ {A : Type 0} where
  pub mem_of_take : (n : ℕ) (xs : List A) {x : A} → Memᴰ x (take n xs) → Memᴰ x xs
  mem_of_take n [] m = m
  mem_of_take zero (y ∷ xs) m = absurd (Memᴰ.not-nil m)
  mem_of_take (suc n) (y ∷ xs) m = elim (Memᴰ.cases_cons m) [
    | inl e ↦ Memᴰ.head e
    | inr m' ↦ Memᴰ.tail (mem_of_take n xs m')
  ]

  pub mem_of_drop : (n : ℕ) (xs : List A) {x : A} → Memᴰ x (drop n xs) → Memᴰ x xs
  mem_of_drop n [] m = m
  mem_of_drop zero (y ∷ xs) m = m
  mem_of_drop (suc n) (y ∷ xs) m = Memᴰ.tail (mem_of_drop n xs m)

  take_all : (k : ℕ) (xs : List A) → length xs ≤ k → take k xs ≡ xs
  take_all k [] h = refl
  take_all zero (y ∷ xs) h = absurd (omega (arith, h))
  take_all (suc k) (y ∷ xs) h = ap (λ (zs : List A). y ∷ zs) (take_all k xs (omega (arith, h)))

  pub take-min : (k : ℕ) (xs : List A) → take (min k (length xs)) xs ≡ take k xs
  take-min k xs = elim (Bool-cases (leb (length xs) k)) [
    | inl e ↦
        let le : length xs ≤ k = ground arith in
        let low : min k (length xs) ≡ length xs = omega (arith, le) in
        rw (low, take_all k xs le) (take_all (length xs) xs (omega arith))
    | inr e ↦
        let ge : k ≤ length xs = ground arith in
        let high : min k (length xs) ≡ k = omega (arith, ge) in rw high
  ]

  -- The first `c + n` are the first `c` and the `n` after them.
  pub take-add : (c n : ℕ) (xs : List A) → take (c + n) xs ≡ take c xs ++ take n (drop c xs)
  take-add c n [] = refl
  take-add zero n (y ∷ xs) = let z : 0 + n ≡ n = omega arith in rw z
  take-add (suc c) n (y ∷ xs) =
      let z : suc c + n ≡ suc (c + n) = omega arith in
      rw z (ap (λ (zs : List A). y ∷ zs) (take-add c n xs))

  -- What is added at the end is not among the first.
  pub take-append : (c : ℕ) (xs ys : List A) → c ≤ length xs → take c (xs ++ ys) ≡ take c xs
  take-append c [] [] h = refl
  take-append zero [] (y ∷ ys) h = refl
  take-append (suc c) [] (y ∷ ys) h = absurd (omega (arith, h))
  take-append zero (x ∷ xs) ys h = refl
  take-append (suc c) (x ∷ xs) ys h =
      ap (λ (zs : List A). x ∷ zs) (take-append c xs ys (omega (arith, h)))

  pub length-append_le : (xs ys : List A) → length xs ≤ length (xs ++ ys)
  length-append_le [] ys = omega arith
  length-append_le (x ∷ xs) ys = let ih = length-append_le xs ys in omega (arith, ih)

  pub append-take-drop : (n : ℕ) (xs : List A) → take n xs ++ drop n xs ≡ xs
  append-take-drop n [] = refl
  append-take-drop zero (x ∷ xs) = refl
  append-take-drop (suc n) (x ∷ xs) = ap (λ (zs : List A). x ∷ zs) (append-take-drop n xs)

  pub drop-add : (c n : ℕ) (xs : List A) → drop (c + n) xs ≡ drop n (drop c xs)
  drop-add c n [] = refl
  drop-add zero n (x ∷ xs) = let z : 0 + n ≡ n = omega arith in rw z
  drop-add (suc c) n (x ∷ xs) =
      let z : suc c + n ≡ suc (c + n) = omega arith in rw z (drop-add c n xs)

  drop_all : (k : ℕ) (xs : List A) → length xs ≤ k → drop k xs ≡ []
  drop_all k [] h = refl
  drop_all zero (x ∷ xs) h = absurd (omega (arith, h))
  drop_all (suc k) (x ∷ xs) h = drop_all k xs (omega (arith, h))

  pub drop-min : (k : ℕ) (xs : List A) → drop (min k (length xs)) xs ≡ drop k xs
  drop-min k xs = elim (Bool-cases (leb (length xs) k)) [
    | inl e ↦
        let le : length xs ≤ k = ground arith in
        let low : min k (length xs) ≡ length xs = omega (arith, le) in
        rw (low, drop_all k xs le) (drop_all (length xs) xs (omega arith))
    | inr e ↦
        let ge : k ≤ length xs = ground arith in
        let high : min k (length xs) ≡ k = omega (arith, ge) in rw high
  ]

  pub drop-append : (c : ℕ) (xs ys : List A) → c ≤ length xs → drop c (xs ++ ys) ≡ drop c xs ++ ys
  drop-append c [] [] h = refl
  drop-append zero [] (y ∷ ys) h = refl
  drop-append (suc c) [] (y ∷ ys) h = absurd (omega (arith, h))
  drop-append zero (x ∷ xs) ys h = refl
  drop-append (suc c) (x ∷ xs) ys h = drop-append c xs ys (omega (arith, h))

  pub length-drop : (n : ℕ) (xs : List A) → length (drop n xs) ≡ length xs - n
  length-drop n [] = omega arith
  length-drop zero (x ∷ xs) = omega arith
  length-drop (suc n) (x ∷ xs) = let ih = length-drop n xs in omega (arith, ih)

  pub nil_of_length : (xs : List A) → length xs ≤ 0 → xs ≡ []
  nil_of_length [] h = refl
  nil_of_length (x ∷ xs) h = absurd (omega (arith, h))
