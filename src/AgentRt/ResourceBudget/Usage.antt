-- ===== src/AgentRt/ResourceBudget/Usage.antt =====
-- agent_rt/resource_budget.rs: what a history of usage reports adds up to.
use zeptobeam.Base.{
  ℕ, ◌+◌, ◌≤◌, ◌≡◌, refl, ◌∙◌, List, [], ◌∷◌, none, some, arith, min, u64_max, leb,
}
use zeptobeam.AgentRt.ResourceBudget.{
  Costs, TokenPricing, ResourceBudget, UsageReport, saturating_add, new, record_usage, is_exhausted,
}

abbrev pub total : List UsageReport → ℕ
total [] = 0
total (u ∷ us) = (u.input_tokens + u.output_tokens) + total us

module _ {C : Type 0} (costs : Costs C) where
  -- The budget after a history of reports.
  unfoldable pub record_all : ResourceBudget C → List UsageReport → ResourceBudget C
  unfolding record_usage
  record_all b [] = b
  record_all b (u ∷ us) = record_all (record_usage costs b u).0 us

  record_all-tokens_used :
      (us : List UsageReport) (b : ResourceBudget C)
      → b.tokens_used ≤ u64_max
      → (record_all b us).tokens_used ≡ saturating_add b.tokens_used (total us)
  unfolding record_all record_usage
  record_all-tokens_used [] b small = omega arith
  record_all-tokens_used (u ∷ us) b small =
      record_all-tokens_used us (record_usage costs b u).0 (omega arith) ∙ omega arith

  record_all-max_tokens :
      (us : List UsageReport) (b : ResourceBudget C)
      → ((record_all b us).max_tokens ≡ b.max_tokens)
        × ((record_all b us).max_cost_usd ≡ b.max_cost_usd)
  unfolding record_all record_usage
  record_all-max_tokens [] b = (refl, refl)
  record_all-max_tokens (u ∷ us) b = record_all-max_tokens us (record_usage costs b u).0

  abbrev pub after : List UsageReport → ℕ → TokenPricing C → ResourceBudget C
  after us max pricing = record_all (new costs (some max) none pricing) us

  -- After any history of usage reports on a new budget without a limit on the cost, the tokens used
  -- are the sum of those reported, or the largest 64-bit number if the sum exceeds this, and the
  -- budget is exhausted just when that reaches the limit on the tokens.
  pub is_exhausted-after :
      (us : List UsageReport) (max : ℕ) (pricing : TokenPricing C)
      → ((after us max pricing).tokens_used ≡ min (total us) u64_max)
        × (is_exhausted costs (after us max pricing) ≡ leb max (min (total us) u64_max))
  unfolding is_exhausted new
  is_exhausted-after us max pricing =
      let b = new costs (some max) none pricing in
      let used : (record_all b us).tokens_used ≡ min (total us) u64_max =
        record_all-tokens_used us b (omega arith) ∙ omega arith in
      let (limit, cost) = record_all-max_tokens us b in (used, ground (arith, used, limit, cost))
