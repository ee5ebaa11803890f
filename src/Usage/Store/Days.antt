-- ===== src/Usage/Store/Days.antt =====
-- src/usage/store.ts: the spend by day.
use hellodac.Prelude.{
  ℕ, ◌+◌, ◌≤◌, ◌≡◌, refl, not, List, [], ◌∷◌, arith, sum_by, is_some, if◌then◌else◌,
}
use hellodac.Usage.Store.{UsageRecord, Range, within, known, month_totals, day_spend}
use hellodac.Usage.Store.Groups.{count_if-sum_by}

-- Consecutive days from a first instant, each ending where the next begins.
abbrev pub days : ℕ → List ℕ → List Range
days start [] = []
days start (end ∷ ends) = record { start = start; end = end } ∷ days end ends

abbrev pub last_end : ℕ → List ℕ → ℕ
last_end start [] = start
last_end start (end ∷ ends) = last_end end ends

abbrev pub Ascending : ℕ → List ℕ → Type 0
Ascending start [] = Unit
Ascending start (end ∷ ends) = (start ≤ end) × Ascending end ends

start-le-last_end : (start : ℕ) (ends : List ℕ) → Ascending start ends → start ≤ last_end start ends
start-le-last_end start [] h = omega arith
start-le-last_end start (end ∷ ends) h = omega (arith, start-le-last_end end ends h.1)

abbrev upto : ℕ → ℕ → Range
upto a b = record { start = a; end = b }

sum_within : (UsageRecord → ℕ) → Range → List UsageRecord → ℕ
sum_within f r us = sum_by f (within r us)

sum_within-add :
    (f : UsageRecord → ℕ) (a b c : ℕ) (us : List UsageRecord)
    → a ≤ b
    → b ≤ c
    → sum_within f (upto a b) us + sum_within f (upto b c) us ≡ sum_within f (upto a c) us
unfolding sum_within
sum_within-add f a b c [] p q = omega arith
sum_within-add f a b c (u ∷ us) p q = ground (arith, sum_within-add f a b c us p q)

sum_within_empty :
    (f : UsageRecord → ℕ) (a : ℕ) (us : List UsageRecord) → sum_within f (upto a a) us ≡ 0
unfolding sum_within
sum_within_empty f a [] = refl
sum_within_empty f a (u ∷ us) = ground (arith, sum_within_empty f a us)

sum_days :
    (f : UsageRecord → ℕ) (start : ℕ) (ends : List ℕ) (us : List UsageRecord)
    → Ascending start ends
    → sum_by (λ d. sum_within f d us) (days start ends)
      ≡ sum_within f (upto start (last_end start ends)) us
sum_days f start [] us h = omega (arith, sum_within_empty f start us)
sum_days f start (end ∷ ends) us h = omega (
  arith,
  sum_days f end ends us h.1,
  sum_within-add f start end (last_end end ends) us h.0 (start-le-last_end end ends h.1),
)

unpriced_sum :
    (d : Range) (us : List UsageRecord)
    → (day_spend d us).unpriced ≡ sum_within (λ u. if not (is_some u.cost) then 1 else 0) d us
unfolding day_spend sum_within
unpriced_sum d us = count_if-sum_by (λ u. not (is_some u.cost)) (within d us)

unpriced_days :
    (ds : List Range) (us : List UsageRecord)
    → sum_by (λ d. (day_spend d us).unpriced) ds
      ≡ sum_by (λ d. sum_within (λ u. if not (is_some u.cost) then 1 else 0) d us) ds
unpriced_days [] us = refl
unpriced_days (d ∷ ds) us = omega (arith, unpriced_sum d us, unpriced_days ds us)

-- The spend of consecutive days, and their records without a price, add up to the totals of the range
-- from the first day's start to the last day's end: no record is lost or counted twice at midnight.
day_spend_sums :
    (start : ℕ) (ends : List ℕ) (us : List UsageRecord)
    → Ascending start ends
    → let total = month_totals (record { start = start; end = last_end start ends }) us in
      (sum_by (λ d. (day_spend d us).cost_micro_usd) (days start ends) ≡ total.cost_micro_usd)
      × (sum_by (λ d. (day_spend d us).unpriced) (days start ends) ≡ total.unpriced)
unfolding day_spend month_totals sum_within
day_spend_sums start ends us h = (
  sum_days (λ u. known u.cost) start ends us h,
  omega (
    arith,
    unpriced_days (days start ends) us,
    sum_days (λ u. if not (is_some u.cost) then 1 else 0) start ends us h,
    count_if-sum_by (λ u. not (is_some u.cost)) (within (upto start (last_end start ends)) us),
  ),
)
