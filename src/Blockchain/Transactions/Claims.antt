-- ===== src/Blockchain/Transactions/Claims.antt =====
-- The lease that a claim of rows takes.
use mini_crypto_wallet.Base.{
  ℕ, zero, suc, ◌+◌, ◌-◌, ◌≡◌, ◌≤◌, ◌<◌, refl, ◌⊎◌, inl, inr, Bool, leb, true, false, ◌&&◌, List,
  [], ◌∷◌, arith, Bool-cases, ltb,
}
use mini_crypto_wallet.Base.Table.{length}
use mini_crypto_wallet.Blockchain.Models.{OutgoingTransaction}
use mini_crypto_wallet.Blockchain.Transactions.{claim_rows, claimed, is_due}

-- Every row is held until the lease is over, and is due from then on.
abbrev AllLeased : ℕ → List OutgoingTransaction → Type 0
AllLeased until [] = Unit
AllLeased until (r ∷ rs) =
    (((t : ℕ) → t < until → is_due t r ≡ false) × ((t : ℕ) → until ≤ t → is_due t r ≡ true))
    × AllLeased until rs

claim_rows_lem :
    (limit now lease : ℕ) (rows : List OutgoingTransaction)
    → (length (claim_rows limit now lease rows).0 ≤ limit)
      × (length (claim_rows limit now lease rows).1 ≡ length rows)
      × AllLeased (now + lease) (claim_rows limit now lease rows).0
unfolding claim_rows
claim_rows_lem limit now lease [] = (omega arith, refl, tt)
claim_rows_lem limit now lease (r ∷ rs) = elim (Bool-cases (ltb 0 limit && is_due now r)) [
  | inl k ↦
      let (short, same, leased) = claim_rows_lem (limit - 1) now lease rs in
      let some_left : 0 < limit = ground arith in
      rw k (omega arith, rw same, ((λ t h. ground arith, λ t h. ground arith), leased))
  | inr k ↦
      let (short, same, leased) = claim_rows_lem limit now lease rs in rw k (short, rw same, leased)
]

-- Each row is due at a time, or each is not.
abbrev pub AllDue : Bool → ℕ → List OutgoingTransaction → Type 0
AllDue b t [] = Unit
AllDue b t (r ∷ rs) = (is_due t r ≡ b) × AllDue b t rs

leased-AllDue :
    (until t : ℕ) (rows : List OutgoingTransaction)
    → AllLeased until rows
    → ((t < until) × AllDue false t rows) ⊎ ((until ≤ t) × AllDue true t rows)
leased-AllDue until t rows h = elim (Bool-cases (leb until t)) [
  | inl k ↦ let late : until ≤ t = ground arith in inr (late, due late rows h)
  | inr k ↦ let early : t < until = ground arith in inl (early, held early rows h)
]
  where
    held : t < until → (rs : List OutgoingTransaction) → AllLeased until rs → AllDue false t rs
    held early [] h = tt
    held early (r ∷ rs) h = (h.0.0 t early, held early rs h.1)

    due : until ≤ t → (rs : List OutgoingTransaction) → AllLeased until rs → AllDue true t rs
    due late [] h = tt
    due late (r ∷ rs) h = (h.0.1 t late, due late rs h.1)

-- What a claim of at most `limit` rows does to the table: when the limit is used up, or at the end, it
-- stops; it passes over a row that is not due; and it takes every due row, with its lease, which is
-- also written into the table.
pub data Claims (now lease : ℕ)
    : ℕ
      → List OutgoingTransaction
      → List OutgoingTransaction
      → List OutgoingTransaction
      → Type 0 where
  used_up : (rows : List OutgoingTransaction) → Claims now lease 0 rows [] rows
  end : (limit : ℕ) → Claims now lease limit [] [] []
  pass :
      (limit : ℕ) (r : OutgoingTransaction) (rs cs rs' : List OutgoingTransaction)
      → is_due now r ≡ false
      → Claims now lease limit rs cs rs'
      → Claims now lease limit (r ∷ rs) cs (r ∷ rs')
  take :
      (limit : ℕ) (r : OutgoingTransaction) (rs cs rs' : List OutgoingTransaction)
      → is_due now r ≡ true
      → Claims now lease limit rs cs rs'
      → Claims now lease (suc limit) (r ∷ rs) (claimed now lease r ∷ cs) (claimed now lease r ∷ rs')

claim_rows-none :
    (now lease : ℕ) (rows : List OutgoingTransaction) → claim_rows 0 now lease rows ≡ ([], rows)
unfolding claim_rows
claim_rows-none now lease [] = refl
claim_rows-none now lease (r ∷ rs) = rw (claim_rows-none now lease rs) refl

claim_rows-Claims :
    (limit now lease : ℕ) (rows : List OutgoingTransaction)
    → Claims now lease limit rows
        (claim_rows limit now lease rows).0
        (claim_rows limit now lease rows).1
unfolding claim_rows
claim_rows-Claims limit now lease [] = end limit
claim_rows-Claims zero now lease (r ∷ rs) = rw (claim_rows-none now lease rs) (used_up (r ∷ rs))
claim_rows-Claims (suc limit) now lease (r ∷ rs) =
    let more : ltb 0 (suc limit) ≡ true = ground arith in
    let less : suc limit - 1 ≡ limit = omega arith in
    elim (Bool-cases (is_due now r)) [
      | inl k ↦ rw (more, k, less) (take limit r rs _ _ k (claim_rows-Claims limit now lease rs))
      | inr k ↦
          rw (more, k) (pass (suc limit) r rs _ _ k (claim_rows-Claims (suc limit) now lease rs))
    ]

-- A claim takes at most `limit` rows: the first that are due, each of which it also leaves in the table
-- with its lease, and it changes no other row. At any time before the lease is over, no row that it
-- took is due, for this worker or another; at any time from then on, every one is due again, so that
-- a worker that dies loses none.
pub claim_rows-AllDue :
    (limit now lease t : ℕ) (rows : List OutgoingTransaction)
    → (length (claim_rows limit now lease rows).0 ≤ limit)
      × Claims now lease limit rows
          (claim_rows limit now lease rows).0
          (claim_rows limit now lease rows).1
      × (((t < now + lease) × AllDue false t (claim_rows limit now lease rows).0)
          ⊎ ((now + lease ≤ t) × AllDue true t (claim_rows limit now lease rows).0))
claim_rows-AllDue limit now lease t rows =
    let (short, same, leased) = claim_rows_lem limit now lease rows in
    (
      short,
      claim_rows-Claims limit now lease rows,
      leased-AllDue (now + lease) t (claim_rows limit now lease rows).0 leased,
    )
