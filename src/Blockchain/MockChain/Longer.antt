-- ===== src/Blockchain/MockChain/Longer.antt =====
-- A fork makes the simulated chain longer by one.
use mathlib.Core.List.{append-nil}
use mini_crypto_wallet.Base.{
  ℕ, zero, suc, ◌+◌, ◌-◌, ◌≤◌, ◌<◌, ◌≡◌, ◌∙◌, refl, ap, ◌⊎◌, inl, inr, min, max, true, false, some,
  List, [], ◌∷◌, ◌++◌, String, arith, Bool-cases, Option-cases, if◌then◌else◌, leb, map,
}
use mini_crypto_wallet.Base.Table.{any, filter, length}
use mini_crypto_wallet.Base.Result.{Result, Error, ok, err, after, commit, integrity_error}
use mini_crypto_wallet.Blockchain.MockChain.{Node, MockBlock, head_block, genesis_number}
use mini_crypto_wallet.Blockchain.MockChain.Reorg.{
  unwind_blocks, is_victim, orphan, insert_block, by_number_desc, lowest_of, unwind, mine_blocks,
  reorg,
}
use mini_crypto_wallet.Blockchain.MockChain.Mining.{mine_block, new_block, has_hash}
use mini_crypto_wallet.Blockchain.MockChain.{read_faults}
use mini_crypto_wallet.Blockchain.MockChain.Heights.{
  up_to, heights, IsChain, head_number, head_number-IsChain, mine_block-IsChain,
}

module _ (lowest : ℕ) where
  abbrev kept : List ℕ → List ℕ
  kept [] = []
  kept (h ∷ hs) = let rest = kept hs in if leb lowest h then rest else h ∷ rest

  abbrev taken : List ℕ → ℕ
  taken [] = 0
  taken (h ∷ hs) = let rest = taken hs in if leb lowest h then suc rest else rest

  heights-orphan : (bs : List MockBlock) → heights (map (orphan lowest) bs) ≡ kept (heights bs)
  heights-orphan [] = refl
  heights-orphan (b ∷ bs) = ground (arith, heights-orphan bs)

  length-victims :
      (bs : List MockBlock) → length (filter (is_victim lowest) bs) ≡ taken (heights bs)
  length-victims [] = refl
  length-victims (b ∷ bs) = ground (arith, length-victims bs)

  kept-concat : (hs : List ℕ) (n : ℕ) → kept (hs ++ n ∷ []) ≡ kept hs ++ kept (n ∷ [])
  kept-concat [] n = refl
  kept-concat (h ∷ hs) n = ground (arith, kept-concat hs n)

  taken-concat : (hs : List ℕ) (n : ℕ) → taken (hs ++ n ∷ []) ≡ taken hs + taken (n ∷ [])
  taken-concat [] n = omega arith
  taken-concat (h ∷ hs) n = ground (arith, taken-concat hs n)

  cut_none : (n : ℕ) → n < lowest → (kept (up_to n) ≡ up_to n) × (taken (up_to n) ≡ 0)
  cut_none zero h = (refl, refl)
  cut_none (suc n) h =
      let (k, t) = cut_none n (omega (arith, h)) in
      let below : leb lowest (suc n) ≡ false = ground arith in
      let c = taken-concat (up_to n) (suc n) in
      let zero_more : taken (suc n ∷ []) ≡ 0 = rw below refl in
      (
        rw (kept-concat (up_to n) (suc n), below) (ap (λ (hs : List ℕ). hs ++ suc n ∷ []) k),
        omega (arith, t, c, zero_more),
      )

  -- Of the heights up to `n`, those below the lowest stay.
  cut-up_to :
      (n : ℕ)
      → (m : ℕ) × (kept (up_to n) ≡ up_to m) × (taken (up_to n) + m ≡ n) × (m ≡ min n (lowest - 1))
  cut-up_to zero = (0, refl, omega arith, omega arith)
  cut-up_to (suc n) =
      let (m, k, t, is) = cut-up_to n in
      elim (Bool-cases (leb lowest (suc n))) [
        | inl e ↦
            let below : lowest ≤ suc n = ground arith in
            let c = taken-concat (up_to n) (suc n) in
            let one : taken (suc n ∷ []) ≡ 1 = rw e refl in
            (
              m,
              rw (kept-concat (up_to n) (suc n), e) (append-nil _ ∙ k),
              omega (arith, t, c, one),
              omega (arith, is, below),
            )
        | inr e ↦
            let above : suc n < lowest = ground arith in
            let (all, none_taken) = cut_none (suc n) above in
            (suc n, all, omega (arith, none_taken), omega (arith, above))
      ]

length-insert_block :
    (b : MockBlock) (bs : List MockBlock) → length (insert_block b bs) ≡ suc (length bs)
length-insert_block b [] = refl
length-insert_block b (c ∷ bs) = ground (arith, length-insert_block b bs)

length-by_number_desc : (bs : List MockBlock) → length (by_number_desc bs) ≡ length bs
length-by_number_desc [] = refl
length-by_number_desc (b ∷ bs) =
    length-insert_block b (by_number_desc bs) ∙ ap suc (length-by_number_desc bs)

length-map : {A B : Type 0} (f : A → B) (xs : List A) → length (map f xs) ≡ length xs
length-map f [] = refl
length-map f (x ∷ xs) = ap suc (length-map f xs)

module _ (depth : ℕ) (drop : List String) where
  -- What is left when the victims of a fork are orphaned.
  unwind-IsChain :
      (n : ℕ) (s : Node)
      → IsChain (suc n) s.blocks
      → (orphaned : List ℕ) × (reverted : List String) × (s' : Node) × (m : ℕ) × (unwind depth drop
            s
          ≡ ok (some (orphaned, reverted), s'))
        × IsChain m s'.blocks
        × (length orphaned + m ≡ suc n)
        × (length orphaned ≡ min depth n)
  unfolding unwind
  unwind-IsChain n s c =
      let at_head : head_number s.blocks ≡ suc n = head_number-IsChain (suc n) s.blocks c in
      elim (Option-cases (head_block s.blocks)) [
        | inl e ↦ let is : 0 ≡ suc n = rw e at at_head in absurd (omega (arith, is))
        | inr (head, e) ↦
            let is : head.number ≡ suc n = rw e at at_head in
            let lowest = lowest_of head.number depth in
            let victims = by_number_desc (filter (is_victim lowest) s.blocks) in
            let (m, k, t, low) = cut-up_to lowest (suc n) in
            let count : length (map (λ (b : MockBlock). b.number) victims)
                ≡ taken lowest (up_to (suc n)) =
              length-map (λ (b : MockBlock). b.number) victims
              ∙ length-by_number_desc _
              ∙ length-victims lowest s.blocks
              ∙ ap (taken lowest) c in
            let low_is : lowest ≡ max (genesis_number + 1) (suc n + 1 - depth) = rw is refl in
            let u = unwind_blocks drop victims s.transactions s.balances in
            (
              map (λ (b : MockBlock). b.number) victims,
              u.reverted,
              record s {
                blocks = map (orphan lowest) s.blocks;
                transactions = u.transactions;
                balances = u.balances;
              },
              m,
              rw e refl,
              heights-orphan lowest s.blocks ∙ ap (kept lowest) c ∙ k,
              omega (arith, count, t),
              omega (arith, count, t, low, low_is),
            )
      ]

mine_block-raises :
    (sha256 : String → String) (uuid : String) (s : Node) (x : Error)
    → mine_block sha256 uuid s ≡ err x
    → (x ≡ integrity_error)
      × (any (has_hash sha256 (new_block sha256 (head_block s.blocks) uuid).hash) s.blocks ≡ true)
unfolding mine_block read_faults
mine_block-raises sha256 uuid s x h =
    elim (Bool-cases
      (any (has_hash sha256 (new_block sha256 (head_block s.blocks) uuid).hash) s.blocks)) [
        | inl e ↦ (cc (rw e at h), e)
        | inr e ↦ cc (rw e at h)
      ]

module _ (sha256 : String → String) (uuids : ℕ → String) where
  -- The hash of the next block, made with random number `k`, is that of a block that is there.
  abbrev pub HashTaken : ℕ → List MockBlock → Type 0
  HashTaken k bs = any (has_hash sha256 (new_block sha256 (head_block bs) (uuids k)).hash) bs ≡ true

  mine_blocks-IsChain :
      (k n : ℕ) (s : Node)
      → IsChain n s.blocks
      → let r = mine_blocks sha256 uuids k s in
        ((r.0 ≡ err integrity_error) × (j : ℕ) × (j < k) × HashTaken j r.1.blocks)
        ⊎ ((r.0 ≡ ok tt) × IsChain (k + n) r.1.blocks)
  unfolding mine_blocks
  mine_blocks-IsChain zero n s c = let z : 0 + n ≡ n = omega arith in inr (refl, rw z c)
  mine_blocks-IsChain (suc k) n s c =
      ended (mine_block sha256 (uuids k) s) refl (λ s' d. mine_blocks-IsChain k (suc n) s' d)
    where
      ended :
          (r : Result (ℕ × Node))
          → mine_block sha256 (uuids k) s ≡ r
          → ((s' : Node)
              → IsChain (suc n) s'.blocks
              → let r' = mine_blocks sha256 uuids k s' in
                ((r'.0 ≡ err integrity_error) × (j : ℕ) × (j < k) × HashTaken j r'.1.blocks)
                ⊎ ((r'.0 ≡ ok tt) × IsChain (k + suc n) r'.1.blocks))
          → let r' = after (commit r s) (λ _ s'. mine_blocks sha256 uuids k s') in
            ((r'.0 ≡ err integrity_error) × (j : ℕ) × (j < suc k) × HashTaken j r'.1.blocks)
            ⊎ ((r'.0 ≡ ok tt) × IsChain (suc k + n) r'.1.blocks)
      ended (err x) e more =
          let (is, known) = mine_block-raises sha256 (uuids k) s x e in
          inl (rw is refl, k, omega arith, known)
      ended (ok (m, s')) e more =
          let (height, c') = mine_block-IsChain sha256 (uuids k) n m s s' e c in
          let sizes : k + suc n ≡ suc k + n = omega arith in
          elim (more s' c') [
            | inl (is, j, below, known) ↦ inl (is, j, omega (arith, below), known)
            | inr (is, c'') ↦ inr (is, rw sizes at c'')
          ]

  -- A fork of a chain with one block for each height orphans as many blocks as its depth says, but
  -- never the genesis block, and leaves such a chain that is longer by one. It raises only if the
  -- hash of one of the new blocks is that of a block that the chain already has when it is mined.
  pub reorg-IsChain :
      (depth : ℕ) (drop : List String) (n : ℕ) (s : Node)
      → IsChain (suc n) s.blocks
      → let r = reorg sha256 uuids depth drop s in
        ((r.0 ≡ err integrity_error) × (j : ℕ) × (j ≤ min depth n) × HashTaken j r.1.blocks)
        ⊎ ((orphaned : List ℕ) × (reverted : List String) × (r.0 ≡ ok (orphaned, reverted))
            × (length orphaned ≡ min depth n)
            × IsChain (suc (suc n)) r.1.blocks)
  unfolding reorg
  reorg-IsChain depth drop n s c =
      let (orphaned, reverted, s', m, is, c', total, count) = unwind-IsChain depth drop n s c in
      let sizes : suc (length orphaned) + m ≡ suc (suc n) = omega (arith, total) in
      let mined = mine_blocks-IsChain (suc (length orphaned)) m s' c' in
      rw is (
        rebuilt orphaned reverted count (mine_blocks sha256 uuids (suc (length orphaned)) s')
          (rw sizes at mined))
    where
      rebuilt :
          (orphaned : List ℕ) (reverted : List String)
          → length orphaned ≡ min depth n
          → (r : Result (Unit {0}) × Node)
          → ((r.0 ≡ err integrity_error)
              × (j : ℕ) × (j < suc (length orphaned))
              × HashTaken j r.1.blocks)
            ⊎ ((r.0 ≡ ok tt) × IsChain (suc (suc n)) r.1.blocks)
          → let r' = after {B = List ℕ × List String} r (λ _ s''. (ok (orphaned, reverted), s'')) in
            ((r'.0 ≡ err integrity_error) × (j : ℕ) × (j ≤ min depth n) × HashTaken j r'.1.blocks)
            ⊎ ((orphaned : List ℕ) × (reverted : List String) × (r'.0 ≡ ok (orphaned, reverted))
                × (length orphaned ≡ min depth n)
                × IsChain (suc (suc n)) r'.1.blocks)
      rebuilt orphaned reverted count (err x, s'') (inl (h, j, below, known)) =
          let same : x ≡ integrity_error = cc in
          inl (rw same refl, j, omega (arith, count, below), known)
      rebuilt orphaned reverted count (err x, s'') (inr (h, c'')) = cc
      rebuilt orphaned reverted count (ok u, s'') (inl (h, j, below, known)) = cc
      rebuilt orphaned reverted count (ok u, s'') (inr (h, c'')) =
          inr (orphaned, reverted, refl, count, c'')
