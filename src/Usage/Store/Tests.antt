-- ===== src/Usage/Store/Tests.antt =====
-- The ledger on a few records.
use hellodac.Prelude.{ℕ, ◌≡◌, refl, none, some, List, [], ◌∷◌, String, Option, sum_by, map}
use hellodac.Prelude.Sort.{IsSorted, sort_by}
use hellodac.Usage.Store.{UsageRecord, Range, month_totals, month_by_model, by_cost_desc}
use hellodac.Usage.Store.Groups.{month_by_model_sums}

abbrev used : String → String → Option ℕ → ℕ → UsageRecord
used run model cost at = record {
  run_id = run;
  provider = none;
  model = some model;
  input_tokens = 10;
  output_tokens = 2;
  cache_read = none;
  cost = cost;
  peak_cost = none;
  at = at;
}

abbrev ledger : List UsageRecord
ledger =
    used "r1" "flash" (some 3) 5
    ∷ used "r1" "pro" (some 20) 6
    ∷ used "r2" "flash" none 12
    ∷ used "r3" "flash" (some 9) 40
    ∷ []

abbrev june : Range
june = record { start = 0; end = 30 }

two_runs : (month_totals june ledger).runs ≡ 2
unfolding month_totals
two_runs = refl

dearest_first : map (λ g. g.cost_micro_usd) (month_by_model june ledger) ≡ 20 ∷ 3 ∷ []
unfolding month_by_model sort_by
dearest_first = refl

month_by_model_sums_example :
    let groups = month_by_model june ledger in
    let total = month_totals june ledger in
    (sum_by (λ g. g.cost_micro_usd) groups ≡ total.cost_micro_usd)
    × (sum_by (λ g. g.peak_cost_micro_usd) groups ≡ total.peak_cost_micro_usd)
    × (sum_by (λ g. g.input_tokens) groups ≡ total.input_tokens)
    × (sum_by (λ g. g.output_tokens) groups ≡ total.output_tokens)
    × (sum_by (λ g. g.cache_read_tokens) groups ≡ total.cache_read_tokens)
    × (sum_by (λ g. g.unpriced) groups ≡ total.unpriced)
    × IsSorted by_cost_desc groups
month_by_model_sums_example = month_by_model_sums june ledger
