-- ===== src/Common/Examples.antt =====
-- The theorems on retries and the circuit breaker at concrete calls.
use mini_crypto_wallet.Base.{
  ◌↔◌, ℕ, ◌+◌, ◌≤◌, ◌<◌, ◌≡◌, refl, ◌⊎◌, Bool, true, none, some, arith, ◌==◌, if◌then◌else◌,
}
use mini_crypto_wallet.Base.Result.{Result, Error, ok, err, rpc_unavailable}
use mini_crypto_wallet.Common.Retry.{
  retry_async, FirstSuccess, retry_async-FirstSuccess, CircuitBreaker, fail_times, fail_times-cases,
}

abbrev third_call_works : ℕ → Result ℕ
third_call_works n = if n == 3 then ok 7 else err rpc_unavailable

abbrev always : Error → Bool
always e = true

retry_example :
    (retry_async always third_call_works 4 ≡ ok 7) ↔ FirstSuccess always third_call_works 1 4 7
retry_example = retry_async-FirstSuccess always third_call_works 4 7

abbrev closed_circuit : CircuitBreaker
closed_circuit = record {
  failure_threshold = 5;
  reset_timeout = 15;
  failures = 0;
  opened_at = none;
}

fail_times_example :
    ((0 + 5 < 5) × ((fail_times 100 5 closed_circuit).opened_at ≡ none))
    ⊎ ((5 ≤ 0 + 5) × ((fail_times 100 5 closed_circuit).opened_at ≡ some 100))
fail_times_example = fail_times-cases 100 5 closed_circuit refl (omega arith)
