-- ===== src/Blockchain/MockChain/Heights.antt =====
-- The canonical blocks of the simulated chain: one for each height, and a fork makes the chain
-- longer by one.
use mini_crypto_wallet.Base.{
  ℕ, zero, suc, ◌≤◌, ◌<◌, ◌≡◌, ◌∙◌, refl, sym, subst, ap, inl, inr, max, Option, none, some, List,
  [], ◌∷◌, ◌++◌, String, arith, Bool-cases, Option-cases, if◌then◌else◌, leb,
}
use mini_crypto_wallet.Base.Table.{any}
use mini_crypto_wallet.Base.Result.{ok, ok-injective, if_none}
use mini_crypto_wallet.Blockchain.MockChain.{
  Node, MockBlock, MockFaults, no_faults, head_block, read_faults,
}
use mini_crypto_wallet.Blockchain.MockChain.Mining.{
  new_block, has_hash, include_pending, mine_block,
}

-- The numbers from 1 to `n`.
abbrev pub up_to : ℕ → List ℕ
up_to zero = []
up_to (suc n) = up_to n ++ suc n ∷ []

-- The heights of the canonical blocks, in the order of the table.
abbrev pub heights : List MockBlock → List ℕ
heights [] = []
heights (b ∷ bs) = let rest = heights bs in if b.is_canonical then b.number ∷ rest else rest

-- The canonical blocks have the heights 1 to `n`, each once and in order.
abbrev pub IsChain : ℕ → List MockBlock → Type 0
IsChain n bs = heights bs ≡ up_to n

abbrev largest : List ℕ → ℕ
largest [] = 0
largest (h ∷ hs) = max h (largest hs)

abbrev pub head_number : List MockBlock → ℕ
head_number bs = if_none (head_block bs) 0 (λ b. b.number)

heights-append : (bs cs : List MockBlock) → heights (bs ++ cs) ≡ heights bs ++ heights cs
heights-append [] cs = refl
heights-append (b ∷ bs) cs = ground (arith, heights-append bs cs)

largest-concat : (hs : List ℕ) (n : ℕ) → largest (hs ++ n ∷ []) ≡ max (largest hs) n
largest-concat [] n = omega arith
largest-concat (h ∷ hs) n = let ih = largest-concat hs n in omega (arith, ih)

largest-up_to : (n : ℕ) → largest (up_to n) ≡ n
largest-up_to zero = refl
largest-up_to (suc n) =
    let last = largest-concat (up_to n) (suc n) in
    let ih = largest-up_to n in omega (arith, last, ih)

-- The head has the largest height.
head_number-largest : (bs : List MockBlock) → head_number bs ≡ largest (heights bs)
head_number-largest [] = refl
head_number-largest (b ∷ bs) = elim (Bool-cases b.is_canonical) [
  | inr k ↦ rw k (head_number-largest bs)
  | inl k ↦
      let before = head_number-largest bs in
      elim (Option-cases (head_block bs)) [
        | inl e ↦
            let ih : 0 ≡ largest (heights bs) = rw e at before in rw (k, e) (omega (arith, ih))
        | inr (h, e) ↦
            let ih : h.number ≡ largest (heights bs) = rw e at before in
            elim (Bool-cases (leb h.number b.number)) [
              | inl l ↦
                  let le : h.number ≤ b.number = ground arith in
                  rw (k, e, l) (omega (arith, ih, le))
              | inr l ↦
                  let lt : b.number < h.number = ground arith in
                  rw (k, e, l) (omega (arith, ih, lt))
            ]
      ]
]

-- The number of the head, which is 0 for a chain without blocks.
pub head_number-IsChain : (n : ℕ) (bs : List MockBlock) → IsChain n bs → head_number bs ≡ n
head_number-IsChain n bs h = head_number-largest bs ∙ ap largest h ∙ largest-up_to n

module _ (sha256 : String → String) where
  include_pending-blocks :
      (block : MockBlock) (faults : MockFaults) (s : Node)
      → (include_pending sha256 block faults s).blocks ≡ s.blocks
  include_pending-blocks block faults s = elim (Bool-cases faults.halt_mining) [
    | inl k ↦ rw k refl
    | inr k ↦ rw k refl
  ]

  -- A block that is mined is the only one at the height after the head.
  pub mine_block-IsChain :
      (uuid : String) (n m : ℕ) (s s' : Node)
      → mine_block sha256 uuid s ≡ ok (m, s')
      → IsChain n s.blocks
      → (m ≡ suc n) × IsChain (suc n) s'.blocks
  unfolding mine_block read_faults
  mine_block-IsChain uuid n m s s' h c =
      let faults = if_none s.faults no_faults (λ f. f) in
      let block = new_block sha256 (head_block s.blocks) uuid in
      elim (Bool-cases (any (has_hash sha256 block.hash) s.blocks)) [
        | inl e ↦ cc (rw e at h)
        | inr e ↦
            let s₁ = record s { faults = some faults; blocks = s.blocks ++ block ∷ [] } in
            let same = ok-injective _ _ _ _ (rw e at h) in
            let next : block.number ≡ suc n =
              next_number uuid (head_block s.blocks) ∙ ap suc (head_number-IsChain n s.blocks c) in
            (
              sym same.0 ∙ next,
              subst (λ (t : Node). IsChain (suc n) t.blocks) same.1
                  (rw (include_pending-blocks block faults s₁) (
                    heights-append s.blocks (block ∷ [])
                    ∙ ap (λ (hs : List ℕ). hs ++ block.number ∷ []) c
                    ∙ ap (λ (k : ℕ). up_to n ++ k ∷ []) next)),
            )
      ]
    where
      next_number :
          (uuid : String) (head : Option MockBlock)
          → (new_block sha256 head uuid).number ≡ suc (if_none head 0 (λ b. b.number))
      next_number uuid none = refl
      next_number uuid (some b) = refl
