-- ===== src/AgentRt/ResourceBudget.antt =====
-- agent_rt/resource_budget.rs: the tokens and the cost that an orchestration has used. Costs are
-- floating point numbers, a parameter C with what is computed of them.
pub mod Usage
use zeptobeam.Base.{
  ℕ, ◌+◌, List, [], Bool, true, false, ◌||◌, Option, none, some, String, string_eq, leb, u64_max,
  min, ◌>>=◌,
}
use zeptobeam.HashMap
use zeptobeam.HashMap.{HashMap}
use zeptobeam.AgentRt.Json.{Json}

pub record ModelPrice (C : Type 0) : Type 0 where
  pub input_per_1k : C
  pub output_per_1k : C

-- The arithmetic of `f64` that is used: zero, the sum, the test `>=` with its sides swapped, and the
-- price of a number of tokens, `tokens as f64 / 1000.0 * price`.
pub record Costs (C : Type 0) : Type 0 where
  pub zero_cost : C
  pub plus : C → C → C
  pub at_most : C → C → Bool
  pub price_of : ℕ → C → C

abbrev pub TokenPricing : Type 0 → Type 0
TokenPricing C = HashMap String (ModelPrice C)

pub record ResourceBudget (C : Type 0) : Type 0 where
  pub max_tokens : Option ℕ
  pub max_cost_usd : Option C
  pub tokens_used : ℕ
  pub cost_usd : C
  pub pricing : TokenPricing C

pub record UsageReport : Type 0 where
  pub input_tokens : ℕ
  pub output_tokens : ℕ
  pub model : Option String

-- `saturating_add` on `u64`.
abbrev pub saturating_add : ℕ → ℕ → ℕ
saturating_add a b = min (a + b) u64_max

module _ {C : Type 0} (costs : Costs C) where
  unfoldable pub new : Option ℕ → Option C → TokenPricing C → ResourceBudget C
  new max_tokens max_cost_usd pricing = record {
    max_tokens = max_tokens;
    max_cost_usd = max_cost_usd;
    tokens_used = 0;
    cost_usd = costs.zero_cost;
    pricing = pricing;
  }

  unfoldable pub unlimited : ResourceBudget C
  unfolding new
  unlimited = new none none []

  unfoldable pub is_exhausted : ResourceBudget C → Bool
  is_exhausted b =
      (elim b.max_tokens [ none ↦ false | some max ↦ leb max b.tokens_used ])
      || (elim b.max_cost_usd [ none ↦ false | some max ↦ costs.at_most max b.cost_usd ])

  unfoldable pub cost_after : ResourceBudget C → UsageReport → C
  cost_after b usage = elim usage.model [
    | none ↦ b.cost_usd
    | some model ↦ elim (HashMap.get b.pricing model) [
      | none ↦ b.cost_usd
      | some prices ↦ costs.plus b.cost_usd (
          costs.plus (costs.price_of usage.input_tokens prices.input_per_1k)
            (costs.price_of usage.output_tokens prices.output_per_1k))
    ]
  ]

  unfoldable pub record_usage : ResourceBudget C → UsageReport → ResourceBudget C × Bool
  unfolding is_exhausted cost_after
  record_usage b usage =
      let b' = record b {
        tokens_used =
            saturating_add b.tokens_used (saturating_add usage.input_tokens usage.output_tokens);
        cost_usd = cost_after b usage;
      } in
      (b', is_exhausted b')

unfoldable pub parse_usage : {V : Type 0} → Json V → V → Option UsageReport
parse_usage json payload = do
  usage ← json.get payload "usage"
  input ← json.get usage "input_tokens"
  input_tokens ← json.as_u64 input
  output ← json.get usage "output_tokens"
  output_tokens ← json.as_u64 output
  some (record {
    input_tokens = input_tokens;
    output_tokens = output_tokens;
    model = elim (json.get usage "model") [ none ↦ none | some v ↦ json.as_str v ];
  })
