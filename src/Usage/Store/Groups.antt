-- ===== src/Usage/Store/Groups.antt =====
-- src/usage/store.ts: the spend by model.
use hellodac.Prelude.{
  ℕ, zero, suc, ◌+◌, ◌≤◌, ◌≡◌, refl, Bool, not, List, [], ◌∷◌, arith, Ordering, compare, length,
  keep_if, sum_by, count_if, is_some, if◌then◌else◌, length-keep_if-le,
}
use hellodac.Prelude.Sort.{
  sort_by, insert_by, sort_by-IsSorted, IsSorted, then_by-IsComparator, IsComparator,
}
use hellodac.Usage.Store.{
  UsageRecord, Range, SpendTotals, within, known, totals_selection, month_totals, same_model,
  ModelSpend, group_by_model, by_cost_desc, month_by_model,
}

sum_by-insert_by :
    {A : Type 0} (cmp : A → A → Ordering) (f : A → ℕ) (x : A) (xs : List A)
    → sum_by f (insert_by cmp x xs) ≡ f x + sum_by f xs
unfolding insert_by
sum_by-insert_by cmp f x [] = omega arith
sum_by-insert_by cmp f x (y ∷ ys) = ground (arith, sum_by-insert_by cmp f x ys)

sum_by-sort_by :
    {A : Type 0} (cmp : A → A → Ordering) (f : A → ℕ) (xs : List A)
    → sum_by f (sort_by cmp xs) ≡ sum_by f xs
unfolding sort_by
sum_by-sort_by cmp f [] = refl
sum_by-sort_by cmp f (x ∷ xs) =
    omega (arith, sum_by-insert_by cmp f x (sort_by cmp xs), sum_by-sort_by cmp f xs)

-- A test splits a sum in two.
sum_by-split :
    {A : Type 0} (p : A → Bool) (f : A → ℕ) (xs : List A)
    → sum_by f (keep_if p xs) + sum_by f (keep_if (λ a. not (p a)) xs) ≡ sum_by f xs
sum_by-split p f [] = omega arith
sum_by-split p f (x ∷ xs) = ground (arith, sum_by-split p f xs)

pub count_if-sum_by :
    {A : Type 0} (p : A → Bool) (xs : List A)
    → count_if p xs ≡ sum_by (λ a. if p a then 1 else 0) xs
count_if-sum_by p [] = refl
count_if-sum_by p (x ∷ xs) = ground (arith, count_if-sum_by p xs)

-- A field of the totals that is a sum over the rows.
abbrev IsSum : (SpendTotals → ℕ) → (UsageRecord → ℕ) → Type 0
IsSum field f = (us : List UsageRecord) → field (totals_selection us) ≡ sum_by f us

groups_sum :
    (field : SpendTotals → ℕ) (f : UsageRecord → ℕ) (fuel : ℕ) (us : List UsageRecord)
    → IsSum field f
    → length us ≤ fuel
    → sum_by (λ (g : ModelSpend). field g.totals) (group_by_model fuel us) ≡ sum_by f us
unfolding group_by_model
groups_sum field f zero [] s h = refl
groups_sum field f (suc fuel) [] s h = refl
groups_sum field f zero (u ∷ us) s h = absurd (omega arith)
groups_sum field f (suc fuel) (u ∷ us) s h = omega (
  arith,
  s (u ∷ keep_if (same_model u) us),
  sum_by-split (same_model u) f us,
  groups_sum field f fuel (keep_if (λ v. not (same_model u v)) us) s
      (omega (arith, length-keep_if-le (λ v. not (same_model u v)) us)),
)

by_model_sum :
    (field : SpendTotals → ℕ) (f : UsageRecord → ℕ) (month : Range) (us : List UsageRecord)
    → IsSum field f
    → sum_by (λ (g : ModelSpend). field g.totals) (month_by_model month us)
      ≡ field (month_totals month us)
unfolding month_by_model month_totals
by_model_sum field f month us s = omega (
  arith,
  sum_by-sort_by by_cost_desc (λ (g : ModelSpend). field g.totals)
      (group_by_model (length (within month us)) (within month us)),
  groups_sum field f (length (within month us)) (within month us) s (omega arith),
  s (within month us),
)

by_cost_desc-IsComparator : IsComparator by_cost_desc
unfolding by_cost_desc
by_cost_desc-IsComparator =
    then_by-IsComparator (λ a b. compare b.cost_micro_usd a.cost_micro_usd)
      (λ a b. compare b.runs a.runs)
      (record {
        flip = λ a b. ground arith;
        lt_trans = λ a b c p q. ground arith;
        lt_eq = λ a b c p q. ground arith;
        eq_lt = λ a b c p q. ground arith;
        eq_eq = λ a b c p q. ground arith;
      })
      (record {
        flip = λ a b. ground arith;
        lt_trans = λ a b c p q. ground arith;
        lt_eq = λ a b c p q. ground arith;
        eq_lt = λ a b c p q. ground arith;
        eq_eq = λ a b c p q. ground arith;
      })

-- Over the models of a month, the costs, the peak costs, the tokens and the records without a price
-- add up to the month's totals; the models are listed from the dearest down.
pub month_by_model_sums :
    (month : Range) (us : List UsageRecord)
    → let groups = month_by_model month us in
      let total = month_totals month us in
      (sum_by (λ g. g.cost_micro_usd) groups ≡ total.cost_micro_usd)
      × (sum_by (λ g. g.peak_cost_micro_usd) groups ≡ total.peak_cost_micro_usd)
      × (sum_by (λ g. g.input_tokens) groups ≡ total.input_tokens)
      × (sum_by (λ g. g.output_tokens) groups ≡ total.output_tokens)
      × (sum_by (λ g. g.cache_read_tokens) groups ≡ total.cache_read_tokens)
      × (sum_by (λ g. g.unpriced) groups ≡ total.unpriced)
      × IsSorted by_cost_desc groups
unfolding totals_selection month_by_model
month_by_model_sums month us = (
  by_model_sum (λ t. t.cost_micro_usd) (λ u. known u.cost) month us (λ vs. refl),
  by_model_sum (λ t. t.peak_cost_micro_usd) (λ u. known u.peak_cost) month us (λ vs. refl),
  by_model_sum (λ t. t.input_tokens) (λ u. u.input_tokens) month us (λ vs. refl),
  by_model_sum (λ t. t.output_tokens) (λ u. u.output_tokens) month us (λ vs. refl),
  by_model_sum (λ t. t.cache_read_tokens) (λ u. known u.cache_read) month us (λ vs. refl),
  by_model_sum (λ t. t.unpriced) (λ u. if not (is_some u.cost) then 1 else 0) month us
      (λ vs. count_if-sum_by (λ u. not (is_some u.cost)) vs),
  sort_by-IsSorted by_cost_desc by_cost_desc-IsComparator _,
)
