-- ===== src/Usage/Store.antt =====
-- src/usage/store.ts: spend, summed over the usage records of a range of time.
pub mod Groups
pub mod Days
mod Tests
use hellodac.Prelude.{
  ℕ, suc, ◌+◌, String, Bool, true, false, not, ◌&&◌, ◌||◌, Option, none, some, List, [], ◌∷◌,
  Ordering, compare, map, ltb, leb, if◌then◌else◌, or_default, is_some, length, any, keep_if,
  sum_by, count_if, ◌is◌, includes,
}
use hellodac.Prelude.Sort.{sort_by, then_by}

pub record UsageRecord : Type 0 where
  pub run_id : String
  pub provider : Option String
  pub model : Option String
  pub input_tokens : ℕ
  pub output_tokens : ℕ
  pub cache_read : Option ℕ
  pub cost : Option ℕ
  pub peak_cost : Option ℕ
  pub at : ℕ

-- Half open, in milliseconds.
pub record Range : Type 0 where
  pub start : ℕ
  pub end : ℕ

pub record SpendTotals : Type 0 where
  pub runs : ℕ
  pub input_tokens : ℕ
  pub output_tokens : ℕ
  pub cache_read_tokens : ℕ
  pub cost_micro_usd : ℕ
  pub peak_cost_micro_usd : ℕ
  pub unpriced : ℕ

abbrev pub in_range : Range → UsageRecord → Bool
in_range r u = leb r.start u.at && ltb u.at r.end

abbrev pub within : Range → List UsageRecord → List UsageRecord
within r = keep_if (in_range r)

-- `COUNT(DISTINCT run_id)`
unfoldable pub distinct_runs : List UsageRecord → ℕ
distinct_runs [] = 0
distinct_runs (u ∷ us) =
    if any (λ v. v.run_id is u.run_id) us then distinct_runs us else suc (distinct_runs us)

-- `SUM` skips a NULL, and `COALESCE` makes 0 of the sum of none.
abbrev pub known : Option ℕ → ℕ
known c = or_default c 0

-- The selection of every totals query, over the rows that its `where` and `groupBy` leave.
unfoldable pub totals_selection : List UsageRecord → SpendTotals
unfolding distinct_runs
totals_selection us = record {
  runs = distinct_runs us;
  input_tokens = sum_by (λ u. u.input_tokens) us;
  output_tokens = sum_by (λ u. u.output_tokens) us;
  cache_read_tokens = sum_by (λ u. known u.cache_read) us;
  cost_micro_usd = sum_by (λ u. known u.cost) us;
  peak_cost_micro_usd = sum_by (λ u. known u.peak_cost) us;
  unpriced = count_if (λ u. not (is_some u.cost)) us;
}

unfoldable pub month_totals : Range → List UsageRecord → SpendTotals
unfolding totals_selection
month_totals month us = totals_selection (within month us)

pub record DaySpend : Type 0 where
  pub cost_micro_usd : ℕ
  pub unpriced : ℕ

-- Spend of one local day, a floor: what has no price is counted apart.
unfoldable pub day_spend : Range → List UsageRecord → DaySpend
day_spend day us = record {
  cost_micro_usd = sum_by (λ u. known u.cost) (within day us);
  unpriced = count_if (λ u. not (is_some u.cost)) (within day us);
}

abbrev pub same_text : Option String → Option String → Bool
same_text none none = true
same_text (some a) (some b) = a is b
same_text _ _ = false

-- `GROUP BY provider, model`, where NULLs are one group.
abbrev pub same_model : UsageRecord → UsageRecord → Bool
same_model u v = same_text u.provider v.provider && same_text u.model v.model

pub record ModelSpend : Type 0 where
  pub provider : Option String
  pub model : Option String
  pub totals : SpendTotals
  pub open totals use *

abbrev pub group_spend : UsageRecord → List UsageRecord → ModelSpend
group_spend u us = record { provider = u.provider; model = u.model; totals = totals_selection us }

-- The groups, on fuel: each round takes the group of the first row out.
unfoldable pub group_by_model : ℕ → List UsageRecord → List ModelSpend
unfolding totals_selection
group_by_model fuel [] = []
group_by_model ℕ.zero (u ∷ us) = []
group_by_model (suc fuel) (u ∷ us) =
    group_spend u (u ∷ keep_if (same_model u) us)
    ∷ group_by_model fuel (keep_if (λ v. not (same_model u v)) us)

-- `ORDER BY costMicroUsd DESC, runs DESC`
unfoldable pub by_cost_desc : ModelSpend → ModelSpend → Ordering
by_cost_desc a b = then_by (compare b.cost_micro_usd a.cost_micro_usd) (compare b.runs a.runs)

unfoldable pub month_by_model : Range → List UsageRecord → List ModelSpend
unfolding group_by_model by_cost_desc
month_by_model month us =
    let rows = within month us in sort_by by_cost_desc (group_by_model (length rows) rows)
