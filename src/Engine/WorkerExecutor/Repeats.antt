-- ===== src/Engine/WorkerExecutor/Repeats.antt =====
-- What the loop of core/engine/retry.go does after an error of a provider or of a contract.
use workflow_execution_engin.Prelude.{
  ℕ, suc, ◌+◌, pos, leb_ℤ, ltb_ℤ, String, ◌≡◌, refl, ap, ◌∙◌, Bool, true, false, Option, none, some,
  if◌then◌else◌, ℤ,
}
use workflow_execution_engin.Domain.Error.{
  Error, sentinel, plain, wrapped, diagnosed, provider_transient, provider_fatal, transient, fatal,
  contract_violation, Diagnostic, is_provider_fatal, with_retry_after, as_violation, is_transient,
  retry_after_of, provider_transient_of, Fallible, ok, err,
}
use workflow_execution_engin.Engine.Types.{NodeResult}
use workflow_execution_engin.Engine.Retry.{
  class_fatal, class_transient, classify, count_failure, retry_delay,
}
use workflow_execution_engin.Engine.WorkerExecutor.{
  map_unretried, map_classified, map_provider_error, hinted,
}

-- What the retry loop does after a result: it ends, with the result or with the error, or it goes on
-- with new counters after a delay, and hands a feedback to the next attempt.
pub data Next : Type 0 where
  done never : Next
  again : (transient_n contract_n : ℕ) (delay : ℤ) (feedback : Option String) → Next

-- an error that carries no mark of the engine's own retry classes
abbrev pub IsForeign : Error → Type 0
IsForeign e = (as_violation e ≡ none) × (is_transient e ≡ false)

transient_hint :
    (e : Error) (d : Option ℤ) → provider_transient_of e ≡ some d → retry_after_of e ≡ d
unfolding provider_transient_of retry_after_of
transient_hint (sentinel s) d h = cc
transient_hint (plain m) d h = cc
transient_hint (wrapped m e) d h = transient_hint e d h
transient_hint (diagnosed g e) d h = transient_hint e d h
transient_hint (provider_transient o e) d h = cc
transient_hint (provider_fatal e) d h = transient_hint e d h
transient_hint (transient e) d h = transient_hint e d h
transient_hint (contract_violation e f n) d h = transient_hint e d h
transient_hint (fatal e) d h = transient_hint e d h

-- a hint changes neither what the chain is nor its own hint
hinted_same :
    (d : Option ℤ) (g : Diagnostic) (e : Error)
    → (as_violation (hinted d (diagnosed g e)) ≡ as_violation e)
      × (retry_after_of (hinted d (diagnosed g e)) ≡ retry_after_of e)
unfolding with_retry_after as_violation retry_after_of
hinted_same none g e = (refl, refl)
hinted_same (some d) g e = (refl, refl)

-- The longer of the loop's own delay and the one that the server asks for, if it does.
abbrev pub longest : ℤ → Option ℤ → ℤ
longest d none = d
longest d (some hint) = if ltb_ℤ d hint then hint else d

-- The limit and the backoff of withRetry, and the failures that it has counted.
module _ (max_transient : ℤ) (backoff : ℕ → ℤ) (t c : ℕ) where
  abbrev pub next_of : Option (ℕ × ℕ) → Error → Next
  next_of none e = never
  next_of (some (t', c')) e =
      again t' c' (retry_delay backoff (t' + c') e)
        (elim (as_violation e) [ none ↦ none | some v ↦ some v.feedback ])

  -- by the counters and the delay of the code's loop
  abbrev pub what_next : Fallible NodeResult → Next
  what_next (ok res) = done
  what_next (err e) = next_of (count_failure max_transient (t, c) e) e

  -- what is to follow an error of a provider, by whether it is transient
  abbrev pub after_error : Option (Option ℤ) → Next
  after_error none = never
  after_error (some hint) =
      if leb_ℤ max_transient (pos t)
      then never
      else again (suc t) c (longest (backoff (suc t + c)) hint) none

  -- what is to follow an output that violates the contract
  abbrev pub after_violation : ℤ → String → Next
  after_violation n f =
      if leb_ℤ n (pos c) then never else again t (suc c) (backoff (t + suc c)) (some f)

  fatal_counted :
      (e : Error) → classify e ≡ class_fatal → count_failure max_transient (t, c) e ≡ none
  unfolding count_failure
  fatal_counted e k = rw (k, count_failure) refl

  transient_counted :
      (e : Error)
      → classify e ≡ class_transient
      → count_failure max_transient (t, c) e
        ≡ (if leb_ℤ max_transient (pos t) then none else some (suc t, c))
  unfolding count_failure
  transient_counted e k = rw (k, count_failure) refl

  fatal_classified : (e : Error) → IsForeign e → classify (fatal e) ≡ class_fatal
  unfolding classify as_violation is_transient
  fatal_classified e (v, w) = rw (v, w) refl

  pub fatal_never : (e : Error) → IsForeign e → what_next (err (fatal e)) ≡ never
  fatal_never e f = ap (λ o. next_of o (fatal e)) (fatal_counted (fatal e) (fatal_classified e f))

  transient_classified :
      (e : Error) → as_violation e ≡ none → classify (transient e) ≡ class_transient
  unfolding classify as_violation is_transient
  transient_classified e v = rw v refl

  -- the delay and the feedback after an error, where the loop goes on
  next_if :
      (b : Bool) (t' c' : ℕ) (e : Error)
      → next_of (if b then none else some (t', c')) e
        ≡ (if b then never else next_of (some (t', c')) e)
  next_if true t' c' e = refl
  next_if false t' c' e = refl

  delay_longest :
      (n : ℕ) (e : Error) (d : Option ℤ)
      → retry_after_of e ≡ d
      → retry_delay backoff n e ≡ longest (backoff n) d
  unfolding retry_delay
  delay_longest n e none h = rw (retry_delay, h) refl
  delay_longest n e (some d) h = rw (retry_delay, h) refl

  transient_delayed :
      (e : Error) (d : Option ℤ)
      → as_violation e ≡ none
      → retry_after_of e ≡ d
      → what_next (err (transient e)) ≡ after_error (some d)
  unfolding as_violation retry_after_of
  transient_delayed e d v h =
      ap (λ o. next_of o (transient e)) (transient_counted (transient e) (transient_classified e v))
      ∙ next_if (leb_ℤ max_transient (pos t)) (suc t) c (transient e)
      ∙ rw (v, delay_longest (suc t + c) (transient e) d h) refl

  violation_counted :
      (e : Error) (f : String) (n : ℤ)
      → count_failure max_transient (t, c) (contract_violation e f n)
        ≡ (if leb_ℤ n (pos c) then none else some (t, suc c))
  unfolding count_failure classify as_violation
  violation_counted e f n = refl

  pub violation_next :
      (e : Error) (f : String) (n : ℤ)
      → retry_after_of e ≡ none
      → what_next (err (contract_violation e f n)) ≡ after_violation n f
  unfolding as_violation retry_after_of
  violation_next e f n h =
      ap (λ o. next_of o (contract_violation e f n)) (violation_counted e f n)
      ∙ next_if (leb_ℤ n (pos c)) t (suc c) (contract_violation e f n)
      ∙ rw (delay_longest (t + suc c) (contract_violation e f n) none h) refl

  map_unretried-next :
      (b : Bool) (id : String) (e : Error)
      → IsForeign e
      → what_next (err (map_unretried b id e)) ≡ never
  unfolding as_violation is_transient
  map_unretried-next true id e f = fatal_never (diagnosed _ e) f
  map_unretried-next false id e f = fatal_never (diagnosed _ e) f

  map_classified-next :
      (o : Option (Option ℤ)) (id : String) (e : Error)
      → provider_transient_of e ≡ o
      → IsForeign e
      → what_next (err (map_classified o id e)) ≡ after_error o
  map_classified-next none id e q f = map_unretried-next (is_provider_fatal e) id e f
  map_classified-next (some d) id e q f =
      transient_delayed _ d ((hinted_same d _ e).0 ∙ f.0)
        ((hinted_same d _ e).1 ∙ transient_hint e d q)

  pub map_provider_error-next :
      (id : String) (e : Error)
      → IsForeign e
      → what_next (err (map_provider_error id e)) ≡ after_error (provider_transient_of e)
  unfolding map_provider_error
  map_provider_error-next id e f = map_classified-next (provider_transient_of e) id e refl f
