-- ===== src/Engine/Retry/Bounds.antt =====
-- How often the loop of core/engine/retry.go runs.
use workflow_execution_engin.Prelude.{
  ℕ, zero, suc, ◌+◌, ◌≤◌, ◌<◌, ◌≡◌, refl, ap, inl, inr, Option, none, some, arith, Option-cases, ℤ,
  pos, ◌≤ℤ◌,
}
use workflow_execution_engin.Domain.Error.{Error, Violation, as_violation}
use workflow_execution_engin.Engine.Retry.{
  count_failure, retry_delay, after_failure, after_attempt, retry_loop, with_retry,
}

module _ {S : Type 0} (max_transient contract_bound : ℕ) (backoff : ℕ → ℤ)
    (attempt : S → S × Option Error) (on_retry : ℕ → Error → S → S)
    (interrupted : ℕ → ℤ → Option Error)
    (bounded : (s : S) (e : Error) (v : Violation)
      → (attempt s).1 ≡ some e
      → as_violation e ≡ some v
      → v.max_retries ≤ℤ pos contract_bound) where
  abbrev loop : ℕ → ℕ × ℕ → S → Option (S × Option Error)
  loop = retry_loop (pos max_transient) backoff attempt on_retry interrupted

  -- A counted failure raises one of the two counters, which stay within their bounds.
  count_failure_bounds :
      (s : S) (e : Error) (t c t' c' : ℕ)
      → (attempt s).1 ≡ some e
      → t ≤ max_transient
      → c ≤ contract_bound
      → count_failure (pos max_transient) (t, c) e ≡ some (t', c')
      → (t' + c' ≡ suc (t + c)) × (t' ≤ max_transient) × (c' ≤ contract_bound)
  unfolding count_failure
  count_failure_bounds s e t c t' c' a ht hc h = elim (Option-cases (as_violation e)) [
    | inl n ↦ ground arith
    | inr (v, n) ↦ ground (arith, bounded s e v a n)
  ]

  -- From here on the rounds left suffice for every failure that may still be counted.
  abbrev Enough : ℕ → ℕ → ℕ → Type 0
  Enough fuel t c =
      (t ≤ max_transient) × (c ≤ contract_bound) × (max_transient + contract_bound < fuel + (t + c))

  abbrev Ends : Option (S × Option Error) → Type 0
  Ends o = (r : S × Option Error) × (o ≡ some r)

  after_failure-Ends :
      (fuel : ℕ) (s s' : S) (e : Error) (t c : ℕ)
      → (attempt s).1 ≡ some e
      → Enough (suc fuel) t c
      → ((t' c' : ℕ) (u : S) → Enough fuel t' c' → Ends (loop fuel (t', c') u))
      → Ends (
          after_failure
            (pos max_transient)
            backoff
            attempt
            on_retry
            interrupted
            (loop fuel)
            (t, c)
            e
            s')
  unfolding after_failure
  after_failure-Ends fuel s s' e t c a en again =
      elim (Option-cases (count_failure (pos max_transient) (t, c) e)) [
        | inl n ↦ ((s', some e), rw (n, after_failure))
        | inr ((t', c'), n) ↦
            rw (n, after_failure)
              (let b = count_failure_bounds s e t c t' c' a en.0 en.1 n in
                elim (Option-cases (interrupted (t' + c') (retry_delay backoff (t' + c') e))) [
                  | inl i ↦ rw i (again t' c' (on_retry (t' + c') e s') (omega arith))
                  | inr (stop, i) ↦ rw i ((on_retry (t' + c') e s', some stop), refl)
                ])
      ]

  after_attempt-Ends :
      (fuel : ℕ) (s : S) (r : S × Option Error) (t c : ℕ)
      → attempt s ≡ r
      → Enough (suc fuel) t c
      → ((t' c' : ℕ) (u : S) → Enough fuel t' c' → Ends (loop fuel (t', c') u))
      → Ends (
          after_attempt
            (pos max_transient)
            backoff
            attempt
            on_retry
            interrupted
            (loop fuel)
            (t, c)
            r)
  unfolding after_attempt
  after_attempt-Ends fuel s (s', none) t c a en again = ((s', none), refl)
  after_attempt-Ends fuel s (s', some e) t c a en again =
      after_failure-Ends fuel s s' e t c (ap (λ r. r.1) a) en again

  retry_loop-Ends : (fuel t c : ℕ) (s : S) → Enough fuel t c → Ends (loop fuel (t, c) s)
  unfolding retry_loop
  retry_loop-Ends zero t c s en = absurd (omega arith)
  retry_loop-Ends (suc fuel) t c s en =
      after_attempt-Ends fuel s (attempt s) t c refl en (λ t' c' u. retry_loop-Ends fuel t' c' u)

  -- Where no contract asks for more than `contract_bound` retries, the loop ends within
  -- `max_transient + contract_bound + 1` attempts, whatever the attempts return.
  pub with_retry_ends :
      (s : S)
      → (r : S × Option Error) × (with_retry
            (pos max_transient)
            backoff
            attempt
            on_retry
            interrupted
            (suc (max_transient + contract_bound))
            s
          ≡ some r)
  unfolding with_retry
  with_retry_ends s = retry_loop-Ends (suc (max_transient + contract_bound)) 0 0 s (omega arith)
