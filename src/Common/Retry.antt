-- ===== src/Common/Retry.antt =====
-- libs/common/src/mcw_common/retry.py: bounded retries and the circuit breaker. The delays between
-- attempts change no state and are left out; times are whole seconds, and a threshold is at least
-- one.
use mini_crypto_wallet.Base.{
  ℕ, zero, suc, ◌+◌, ◌-◌, ◌≤◌, ◌<◌, ◌≡◌, refl, sym, subst, ◌∙◌, ◌⊎◌, ◌↔◌, inl, inr, Bool, true,
  false, Option, none, some, arith, Bool-cases, if◌then◌else◌, leb,
}
use mini_crypto_wallet.Base.Result.{
  Result, Error, ok, err, if_none, assertion_error, ok-or-err, or_else_err,
}

module _ {A : Type 0} (retry_on : Error → Bool) (fn : ℕ → Result A) where
  -- The loop of `retry_async` from an attempt on, with `left` attempts left; `fn k` is how the call of
  -- attempt k ends.
  unfoldable pub retry_from : ℕ → ℕ → Error → Result A
  retry_from zero attempt last = err last
  retry_from (suc left) attempt last =
      or_else_err (fn attempt) λ e. if retry_on e then retry_from left (suc attempt) e else err e

  -- `retry_async`; without an attempt, the assertion fails.
  unfoldable pub retry_async : ℕ → Result A
  retry_async attempts = retry_from attempts 1 assertion_error

  -- The first attempt that succeeds: it is one of those allowed, and every earlier one ended in an
  -- exception that is retried.
  pub record FirstSuccess (attempt left : ℕ) (a : A) : Type 0 where
    pub at : ℕ
    pub low : attempt ≤ at
    pub high : at < attempt + left
    pub returned : fn at ≡ ok a
    pub earlier :
        (m : ℕ) → attempt ≤ m → m < at → (e : Error) × (fn m ≡ err e) × (retry_on e ≡ true)

  retry_from_lem :
      (left attempt : ℕ) (last : Error) (a : A)
      → retry_from left attempt last ≡ ok a
      → FirstSuccess attempt left a
  unfolding retry_from
  retry_from_lem zero attempt last a h = cc
  retry_from_lem (suc left) attempt last a h = elim (ok-or-err (fn attempt)) [
    | inl (b, k) ↦ record {
      at = attempt;
      low = omega arith;
      high = omega arith;
      returned = k ∙ rw k at h;
      earlier = λ m low high. absurd (omega arith);
    }
    | inr (e, k) ↦ elim (Bool-cases (retry_on e)) [
      | inr no_retry ↦ cc (rw (k, no_retry) at h)
      | inl again ↦
          let next = retry_from_lem left (suc attempt) e a (rw (k, again) at h) in
          record {
            at = next.at;
            low = omega (arith, next.low);
            high = omega (arith, next.high);
            returned = next.returned;
            earlier = λ m low high. elim (Bool-cases (leb (suc attempt) m)) [
              | inl later ↦ next.earlier m (ground arith) high
              | inr first ↦ let same : attempt ≡ m = ground arith in rw (← same) (e, k, again)
            ];
          }
    ]
  ]

  -- The first success within what is left is returned.
  retry_from-returns :
      (left attempt : ℕ) (last : Error) (a : A)
      → FirstSuccess attempt left a
      → retry_from left attempt last ≡ ok a
  unfolding retry_from
  retry_from-returns zero attempt last a h = absurd (omega (arith, h.low, h.high))
  retry_from-returns (suc left) attempt last a h = elim (Bool-cases (leb h.at attempt)) [
    | inl now ↦
        let low = h.low in
        let same : h.at ≡ attempt = ground arith in
        let success : fn attempt ≡ ok a = rw same at h.returned in rw success refl
    | inr later ↦
        let low = h.low in
        let below : attempt < h.at = ground arith in
        let (e, k, again) = h.earlier attempt (omega arith) below in
        rw (k, again)
          (retry_from-returns left (suc attempt) e a (record {
            at = h.at;
            low = omega (arith, below);
            high = omega (arith, h.high);
            returned = h.returned;
            earlier = λ m above high. h.earlier m (omega (arith, above)) high;
          }))
  ]

  -- `retry_async` returns a value exactly if an attempt within the limit returns it and each attempt
  -- before that one ends in an exception that is retried.
  pub retry_async-FirstSuccess :
      (attempts : ℕ) (a : A) → (retry_async attempts ≡ ok a) ↔ FirstSuccess 1 attempts a
  unfolding retry_async
  retry_async-FirstSuccess attempts a = (
    λ h. retry_from_lem attempts 1 assertion_error a h,
    λ h. retry_from-returns attempts 1 assertion_error a h,
  )

pub record CircuitBreaker : Type 0 where
  pub failure_threshold : ℕ
  pub reset_timeout : ℕ
  pub failures : ℕ
  pub opened_at : Option ℕ

-- `is_open` at a time, which half-opens the circuit after the cooldown.
unfoldable pub is_open : ℕ → CircuitBreaker → Bool × CircuitBreaker
is_open now c =
    if_none c.opened_at (false, c)
      λ since.
        if leb c.reset_timeout (now - since)
        then (false, record c { opened_at = none; failures = c.failure_threshold - 1 })
        else (true, c)

unfoldable pub record_success : CircuitBreaker → CircuitBreaker
record_success c = record c { failures = 0; opened_at = none }

unfoldable pub record_failure : ℕ → CircuitBreaker → CircuitBreaker
record_failure now c =
    if leb c.failure_threshold (suc c.failures)
    then record c { failures = suc c.failures; opened_at = if_none c.opened_at (some now) some }
    else record c { failures = suc c.failures }

-- A failing call after each other.
abbrev pub fail_times : ℕ → ℕ → CircuitBreaker → CircuitBreaker
fail_times now zero c = c
fail_times now (suc n) c = fail_times now n (record_failure now c)

stays_open :
    (now n since : ℕ) (c : CircuitBreaker)
    → c.opened_at ≡ some since
    → (fail_times now n c).opened_at ≡ some since
unfolding record_failure
stays_open now zero since c h = h
stays_open now (suc n) since c h = elim (Bool-cases (leb c.failure_threshold (suc c.failures))) [
  | inl k ↦ stays_open now n since (record_failure now c) (rw (k, h))
  | inr k ↦ stays_open now n since (record_failure now c) (rw (k, h))
]

fail_times_lem :
    (now n : ℕ) (c : CircuitBreaker)
    → c.opened_at ≡ none
    → c.failures < c.failure_threshold
    → (c.failures + n < c.failure_threshold → (fail_times now n c).opened_at ≡ none)
      × (c.failure_threshold ≤ c.failures + n → (fail_times now n c).opened_at ≡ some now)
unfolding record_failure
fail_times_lem now zero c h below = (λ k. h, λ k. absurd (omega arith))
fail_times_lem now (suc n) c h below =
    elim (Bool-cases (leb c.failure_threshold (suc c.failures))) [
      | inl k ↦
          let reached : c.failure_threshold ≤ suc c.failures = ground arith in
          (
            λ few. absurd (omega arith),
            λ many. stays_open now n now (record_failure now c) (rw (k, h)),
          )
      | inr k ↦
          let under : suc c.failures < c.failure_threshold = ground arith in
          let c' : CircuitBreaker = record c { failures = suc c.failures } in
          let same : record_failure now c ≡ c' = rw k in
          let rest = fail_times_lem now n c' h under in
          (
            λ few.
                subst (λ d. (fail_times now n d).opened_at ≡ none) (sym same)
                  (rest.0 (omega arith)),
            λ many.
                subst (λ d. (fail_times now n d).opened_at ≡ some now) (sym same)
                  (rest.1 (omega arith)),
          )
    ]

is_open_lem :
    (now since : ℕ) (c : CircuitBreaker)
    → c.opened_at ≡ some since
    → 1 ≤ c.failure_threshold
    → (now - since < c.reset_timeout → is_open now c ≡ (true, c))
      × (c.reset_timeout ≤ now - since
          → ((is_open now c).0 ≡ false)
            × ((t : ℕ)
                → t - now < c.reset_timeout
                → (is_open t (record_failure now (is_open now c).1)).0 ≡ true))
unfolding is_open record_failure
is_open_lem now since c h positive = (
  λ early. let k : leb c.reset_timeout (now - since) ≡ false = ground arith in rw (h, k),
  λ late.
      let k : leb c.reset_timeout (now - since) ≡ true = ground arith in
      let enough : leb c.failure_threshold (suc (c.failure_threshold - 1)) ≡ true = ground arith in
      (
        rw (h, k),
        λ t soon.
            let m : leb c.reset_timeout (t - now) ≡ false = ground arith in rw (h, k, enough, m),
      ),
)

-- A closed circuit is still closed after failures in a row that are fewer than the threshold, and is
-- open, from the time of the failures on, after as many as the threshold or more.
pub fail_times-cases :
    (now n : ℕ) (c : CircuitBreaker)
    → c.opened_at ≡ none
    → c.failures < c.failure_threshold
    → ((c.failures + n < c.failure_threshold) × ((fail_times now n c).opened_at ≡ none))
      ⊎ ((c.failure_threshold ≤ c.failures + n) × ((fail_times now n c).opened_at ≡ some now))
fail_times-cases now n c h below =
    let (few, many) = fail_times_lem now n c h below in
    elim (Bool-cases (leb c.failure_threshold (c.failures + n))) [
      | inl k ↦
          let enough : c.failure_threshold ≤ c.failures + n = ground arith in
          inr (enough, many enough)
      | inr k ↦
          let less : c.failures + n < c.failure_threshold = ground arith in inl (less, few less)
    ]

-- An open circuit with a threshold of at least one refuses calls, and does not change, until the
-- cooldown is over. Then the next call is let through, and if that call fails, the circuit is open
-- again at every time that is within another cooldown of the failure.
is_open-cases :
    (now since t : ℕ) (c : CircuitBreaker)
    → c.opened_at ≡ some since
    → 1 ≤ c.failure_threshold
    → t - now < c.reset_timeout
    → ((now - since < c.reset_timeout) × (is_open now c ≡ (true, c)))
      ⊎ ((c.reset_timeout ≤ now - since)
          × ((is_open now c).0 ≡ false)
          × ((is_open t (record_failure now (is_open now c).1)).0 ≡ true))
is_open-cases now since t c h positive soon =
    let (early, late) = is_open_lem now since c h positive in
    elim (Bool-cases (leb c.reset_timeout (now - since))) [
      | inl k ↦
          let over : c.reset_timeout ≤ now - since = ground arith in
          let (through, again) = late over in inr (over, through, again t soon)
      | inr k ↦ let short : now - since < c.reset_timeout = ground arith in inl (short, early short)
    ]
