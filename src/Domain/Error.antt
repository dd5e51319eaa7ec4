-- ===== src/Domain/Error.antt =====
-- Go's error values, as the engine builds and inspects them: a chain of wrappers that ends in a
-- sentinel or in a plain text. core/engine/retry.go and approval.go have the wrappers.
use workflow_execution_engin.Prelude.{ℤ, Bool, String, Option, none, some, true, false}

-- The package-level errors that the code compares with errors.Is.
pub data Sentinel : Type 0 where
  approval_required approval_rejected budget_exceeded cancelled node_failed : Sentinel
  incomplete_graph missing_input context_canceled deadline_exceeded : Sentinel

-- core/diagnostic: Diagnostic, less its Cause, which is the rest of the chain
pub data Kind : Type 0 where
  kind_engine kind_tool kind_provider kind_validation kind_budget : Kind
  kind_cache kind_artifact kind_cancellation kind_timeout : Kind

pub record Diagnostic : Type 0 where
  pub kind : Kind
  pub code : String
  pub node_id : String
  pub operation : String
  pub message : String
  pub likely_fix : String
  pub retry_after : ℤ

pub data Error : Type 0 where
  sentinel : Sentinel → Error
  -- errors.New, and fmt.Errorf with no %w
  plain : String → Error
  -- fmt.Errorf with one %w, by the text around it
  wrapped : String → Error → Error
  -- diagnostic.Wrap
  diagnosed : Diagnostic → Error → Error
  -- model.TransientError, with the delay that the server asks for, and model.FatalError
  provider_transient : Option ℤ → Error → Error
  provider_fatal : Error → Error
  transient : Error → Error
  contract_violation : Error → (feedback : String) → (max_retries : ℤ) → Error
  fatal : Error → Error

abbrev pub sentinel_eq : Sentinel → Sentinel → Bool
sentinel_eq approval_required approval_required = true
sentinel_eq approval_rejected approval_rejected = true
sentinel_eq budget_exceeded budget_exceeded = true
sentinel_eq cancelled cancelled = true
sentinel_eq node_failed node_failed = true
sentinel_eq incomplete_graph incomplete_graph = true
sentinel_eq missing_input missing_input = true
sentinel_eq context_canceled context_canceled = true
sentinel_eq deadline_exceeded deadline_exceeded = true
sentinel_eq _ _ = false

-- errors.Is(err, target) for a sentinel
unfoldable pub is : Sentinel → Error → Bool
is t (sentinel s) = sentinel_eq s t
is t (plain m) = false
is t (wrapped m e) = is t e
is t (diagnosed d e) = is t e
is t (provider_transient d e) = is t e
is t (provider_fatal e) = is t e
is t (transient e) = is t e
is t (contract_violation e f n) = is t e
is t (fatal e) = is t e

pub record Violation : Type 0 where
  pub feedback : String
  pub max_retries : ℤ

-- errors.As for contractViolationError: the outermost one of the chain
unfoldable pub as_violation : Error → Option Violation
as_violation (sentinel s) = none
as_violation (plain m) = none
as_violation (wrapped m e) = as_violation e
as_violation (diagnosed d e) = as_violation e
as_violation (provider_transient d e) = as_violation e
as_violation (provider_fatal e) = as_violation e
as_violation (transient e) = as_violation e
as_violation (contract_violation e f n) = some (record { feedback = f; max_retries = n })
as_violation (fatal e) = as_violation e

-- errors.As for transientError
unfoldable pub is_transient : Error → Bool
is_transient (sentinel s) = false
is_transient (plain m) = false
is_transient (wrapped m e) = is_transient e
is_transient (diagnosed d e) = is_transient e
is_transient (provider_transient d e) = is_transient e
is_transient (provider_fatal e) = is_transient e
is_transient (transient e) = true
is_transient (contract_violation e f n) = is_transient e
is_transient (fatal e) = is_transient e

-- retryAfterOf: the outermost model.TransientError of the chain says whether there is a delay
unfoldable pub retry_after_of : Error → Option ℤ
retry_after_of (sentinel s) = none
retry_after_of (plain m) = none
retry_after_of (wrapped m e) = retry_after_of e
retry_after_of (diagnosed d e) = retry_after_of e
retry_after_of (provider_transient d e) = d
retry_after_of (provider_fatal e) = retry_after_of e
retry_after_of (transient e) = retry_after_of e
retry_after_of (contract_violation e f n) = retry_after_of e
retry_after_of (fatal e) = retry_after_of e

-- diagnostic.From: the outermost Diagnostic of the chain
unfoldable pub diagnostic_of : Error → Option Diagnostic
diagnostic_of (sentinel s) = none
diagnostic_of (plain m) = none
diagnostic_of (wrapped m e) = diagnostic_of e
diagnostic_of (diagnosed d e) = some d
diagnostic_of (provider_transient d e) = diagnostic_of e
diagnostic_of (provider_fatal e) = diagnostic_of e
diagnostic_of (transient e) = diagnostic_of e
diagnostic_of (contract_violation e f n) = diagnostic_of e
diagnostic_of (fatal e) = diagnostic_of e

-- errors.As for model.TransientError: the delay of the outermost one, where it has one
unfoldable pub provider_transient_of : Error → Option (Option ℤ)
provider_transient_of (sentinel s) = none
provider_transient_of (plain m) = none
provider_transient_of (wrapped m e) = provider_transient_of e
provider_transient_of (diagnosed d e) = provider_transient_of e
provider_transient_of (provider_transient d e) = some d
provider_transient_of (provider_fatal e) = provider_transient_of e
provider_transient_of (transient e) = provider_transient_of e
provider_transient_of (contract_violation e f n) = provider_transient_of e
provider_transient_of (fatal e) = provider_transient_of e

-- errors.As for model.FatalError
unfoldable pub is_provider_fatal : Error → Bool
is_provider_fatal (sentinel s) = false
is_provider_fatal (plain m) = false
is_provider_fatal (wrapped m e) = is_provider_fatal e
is_provider_fatal (diagnosed d e) = is_provider_fatal e
is_provider_fatal (provider_transient d e) = is_provider_fatal e
is_provider_fatal (provider_fatal e) = true
is_provider_fatal (transient e) = is_provider_fatal e
is_provider_fatal (contract_violation e f n) = is_provider_fatal e
is_provider_fatal (fatal e) = is_provider_fatal e

-- diagnostic.WithRetryAfter, which changes the outermost Diagnostic of the chain
unfoldable pub with_retry_after : Error → ℤ → Error
with_retry_after (sentinel s) d = sentinel s
with_retry_after (plain m) d = plain m
with_retry_after (wrapped m e) d = wrapped m (with_retry_after e d)
with_retry_after (diagnosed g e) d = diagnosed (record g { retry_after = d }) e
with_retry_after (provider_transient o e) d = provider_transient o (with_retry_after e d)
with_retry_after (provider_fatal e) d = provider_fatal (with_retry_after e d)
with_retry_after (transient e) d = transient (with_retry_after e d)
with_retry_after (contract_violation e f n) d = contract_violation (with_retry_after e d) f n
with_retry_after (fatal e) d = fatal (with_retry_after e d)

-- A result beside Go's error.
pub data Fallible {ℓ} (A : Type ℓ) : Type ℓ where
  ok : A → Fallible A
  err : Error → Fallible A
