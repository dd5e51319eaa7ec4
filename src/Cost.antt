-- ===== src/Cost.antt =====
-- core/cost/accounting.go: the price of a model call.
use workflow_execution_engin.Prelude.{
  ℕ, String, Option, none, some, [], ◌∷◌, ◌==◌, if◌then◌else◌, Map, lookup, ℤ,
}
use workflow_execution_engin.Domain.Value.{Float64, FloatOps}

pub record Rate : Type 0 where
  pub input_per_token : Float64
  pub output_per_token : Float64

-- `per_million` has the quotients of perMillion, by the two prices in cents.
module _ (ops : FloatOps) (per_million : ℕ → ℕ → Rate) where
  unfoldable pub rates : Map (Map Rate)
  rates =
      (
        "openai",
        ("gpt-4o", per_million 250 1000)
            ∷ ("gpt-4o-mini", per_million 15 60)
            ∷ ("gpt-4.1", per_million 200 800)
            ∷ ("gpt-4.1-mini", per_million 40 160)
            ∷ ("o4-mini", per_million 110 440)
            ∷ [],
      )
      ∷ (
        "anthropic",
        ("claude-3-5-sonnet", per_million 300 1500)
            ∷ ("claude-3-5-haiku", per_million 80 400)
            ∷ ("claude-3-opus", per_million 1500 7500)
            ∷ ("claude-sonnet-5", per_million 300 1500)
            ∷ [],
      )
      ∷ []

  abbrev pub cost_at : Option Rate → ℤ → ℤ → Float64
  cost_at none input output = 0
  cost_at (some r) input output =
      ops.add (ops.mul (ops.of_int input) r.input_per_token)
        (ops.mul (ops.of_int output) r.output_per_token)

  -- cost.Compute
  unfoldable pub compute : (provider model : String) → (input_tokens output_tokens : ℤ) → Float64
  unfolding rates lookup
  compute provider model input_tokens output_tokens =
      elim (lookup (if provider == "" then "openai" else provider) rates) [
        | none ↦ 0
        | some by_model ↦ cost_at (lookup model by_model) input_tokens output_tokens
      ]
