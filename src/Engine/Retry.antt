-- ===== src/Engine/Retry.antt =====
-- core/engine/retry.go: which errors are retried, how often, and after which delay.
-- A time.Duration is an int64, so the doubling of a delay wraps around.
pub mod Backoff
pub mod Bounds
use workflow_execution_engin.Prelude.{
  ℕ, zero, suc, ◌+◌, ◌-◌, Option, none, some, if◌then◌else◌, is_some, ℤ, pos, ◌+ℤ◌, leb_ℤ, ltb_ℤ,
  wrap64,
}
use workflow_execution_engin.Domain.Error.{Error, as_violation, is_transient, retry_after_of}

pub data ErrorClass : Type 0 where
  class_fatal class_transient class_contract_violation : ErrorClass

unfoldable pub classify : Error → ErrorClass
unfolding as_violation is_transient
classify e =
    if is_some (as_violation e)
    then class_contract_violation
    else if is_transient e
    then class_transient
    else class_fatal

-- The loop of exponentialBackoff, by the rounds left.
unfoldable pub double_until : ℕ → (d max : ℤ) → ℤ
unfolding ◌+ℤ◌ wrap64
double_until zero d max = d
double_until (suc rounds) d max =
    let d' = wrap64 (d +ℤ d) in
    let rest = double_until rounds d' max in if leb_ℤ max d' then max else rest

-- `attempt` counts from 1.
unfoldable pub exponential_backoff : (base max : ℤ) → ℕ → ℤ
unfolding double_until
exponential_backoff base max attempt =
    if leb_ℤ base (pos 0) then pos 0 else double_until (attempt - 1) base max

-- The counters after a failure that is retried; `none` where the failure is returned.
unfoldable pub count_failure : (max_transient : ℤ) → ℕ × ℕ → Error → Option (ℕ × ℕ)
unfolding classify
count_failure max_transient (transient_n, contract_n) e = elim (classify e) [
  | class_fatal ↦ none
  | class_transient ↦
      if leb_ℤ max_transient (pos transient_n) then none else some (suc transient_n, contract_n)
  | class_contract_violation ↦ elim (as_violation e) [
    | none ↦ none
    | some v ↦
        if leb_ℤ v.max_retries (pos contract_n) then none else some (transient_n, suc contract_n)
  ]
]

-- The delay before a retry: the server's hint where it is longer.
unfoldable pub retry_delay : (ℕ → ℤ) → ℕ → Error → ℤ
retry_delay backoff attempt e =
    let d = backoff attempt in
    elim (retry_after_of e) [ none ↦ d | some hint ↦ if ltb_ℤ d hint then hint else d ]

-- withRetry. `attempt` is one call of fn on the state that fn's closure changes, `on_retry` the
-- callback, and `interrupted n d` the error of the context where it ends before or while the n-th
-- wait, of length d, is over. `none` as a result means that the fuel ran out.
module _ {S : Type 0} (max_transient : ℤ) (backoff : ℕ → ℤ) (attempt : S → S × Option Error)
    (on_retry : ℕ → Error → S → S) (interrupted : ℕ → ℤ → Option Error) where
  -- what follows a failed attempt; `again` is the next round of the loop
  after_failure :
      (again : ℕ × ℕ → S → Option (S × Option Error))
      → ℕ × ℕ
      → Error
      → S
      → Option (S × Option Error)
  unfolding count_failure retry_delay
  after_failure again counters e s = elim (count_failure max_transient counters e) [
    | none ↦ some (s, some e)
    | some (t, c) ↦
        let s' = on_retry (t + c) e s in
        elim (interrupted (t + c) (retry_delay backoff (t + c) e)) [
          | some stop ↦ some (s', some stop)
          | none ↦ again (t, c) s'
        ]
  ]

  after_attempt :
      (again : ℕ × ℕ → S → Option (S × Option Error))
      → ℕ × ℕ
      → S × Option Error
      → Option (S × Option Error)
  unfolding after_failure
  after_attempt again counters (s, none) = some (s, none)
  after_attempt again counters (s, some e) = after_failure again counters e s

  unfoldable pub retry_loop : ℕ → ℕ × ℕ → S → Option (S × Option Error)
  unfolding after_attempt
  retry_loop zero counters s = none
  retry_loop (suc fuel) counters s = after_attempt (retry_loop fuel) counters (attempt s)

  unfoldable pub with_retry : ℕ → S → Option (S × Option Error)
  unfolding retry_loop
  with_retry fuel s = retry_loop fuel (0, 0) s
