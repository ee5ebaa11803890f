-- ===== src/Services/Plan/Counting.antt =====
-- src/services/agents-plan.ts: the agents of the plan, counted.
use hellodac.Prelude.{
  ℕ, zero, suc, ◌+◌, ◌-◌, ◌≤◌, ◌<◌, ◌≡◌, refl, ap, true, not, List, [], ◌∷◌, arith, String, length,
  keep_if, All, All-imp, keep_if-All, length-reverse, length-keep_if-not, length-take-le, In,
}
use hellodac.Prelude.Sort.{sort_by, length-sort_by}
use hellodac.Services.Placement.{Scores, Placement, plan_placement}
use hellodac.Services.Placement.Best.{plan_placement-IsGreedy}
use hellodac.Services.Plan.{
  PlannedAgent, ExistingAgent, AgentsPlanRequest, kept, surplus, range_from, wanted_ordinals,
  has_ordinal, free_ordinals, is_busy, sessions_of, created, kept_of, retired_of, placement_request,
  plan_agents, by_ordinal,
}

length-range_from : (first n : ℕ) → length (range_from first n) ≡ n
length-range_from first zero = refl
length-range_from first (suc n) = omega (arith, length-range_from (suc first) n)

length-kept :
    (service : String) (es : List ExistingAgent) (ws : List ℕ)
    → length (kept service es ws) ≤ length ws
unfolding kept
length-kept service [] ws = omega arith
length-kept service (e ∷ es) [] = omega arith
length-kept service (e ∷ es) (w ∷ ws) = omega (arith, length-kept service es ws)

length-kept-surplus :
    (service : String) (es : List ExistingAgent) (ws : List ℕ)
    → length (kept service es ws) + length (surplus service es ws) ≡ length es
unfolding kept surplus
length-kept-surplus service [] ws = refl
length-kept-surplus service (e ∷ es) [] =
    omega (arith, length-kept-surplus service es [], ap length (none_kept es))
  where
    none_kept : (xs : List ExistingAgent) → kept service xs [] ≡ []
    none_kept [] = refl
    none_kept (x ∷ xs) = refl
length-kept-surplus service (e ∷ es) (w ∷ ws) = omega (arith, length-kept-surplus service es ws)

-- The ordinals of a range that no agent of the list has.
abbrev free_in : List PlannedAgent → ℕ → ℕ → ℕ
free_in keep first n = length (keep_if (λ o. not (has_ordinal keep o)) (range_from first n))

-- An agent below the range takes no ordinal of it, and any agent takes at most one.
free_in-below :
    (a : PlannedAgent) (keep : List PlannedAgent) (first n : ℕ)
    → a.ordinal < first
    → free_in (a ∷ keep) first n ≡ free_in keep first n
free_in-below a keep first zero h = refl
free_in-below a keep first (suc n) h =
    ground (arith, free_in-below a keep (suc first) n (omega arith))

free_in-cons :
    (a : PlannedAgent) (keep : List PlannedAgent) (first n : ℕ)
    → free_in keep first n ≤ suc (free_in (a ∷ keep) first n)
free_in-cons a keep first zero = omega arith
free_in-cons a keep first (suc n) =
    ground (arith, free_in-cons a keep (suc first) n, free_in-below a keep (suc first) n)

free_in_nil : (first n : ℕ) → free_in [] first n ≡ n
free_in_nil first zero = refl
free_in_nil first (suc n) = omega (arith, free_in_nil (suc first) n)

enough_free : (keep : List PlannedAgent) (first n : ℕ) → n ≤ free_in keep first n + length keep
enough_free [] first n = omega (arith, free_in_nil first n)
enough_free (a ∷ keep) first n =
    omega (arith, enough_free keep first n, free_in-cons a keep first n)

pub length-free_ordinals :
    (count : ℕ) (keep : List PlannedAgent) → length (free_ordinals count keep) ≡ count - length keep
unfolding free_ordinals
length-free_ordinals count keep = omega (
  arith,
  length-take-le (length (wanted_ordinals count) - length keep)
      (keep_if (λ o. not (has_ordinal keep o)) (wanted_ordinals count))
      (omega (arith, enough_free keep 1 count, length-range_from 1 count)),
  length-range_from 1 count,
)

module _ (scores : Scores) where
  length-created :
      (service : String) (ps : List (Placement scores)) (os : List ℕ)
      → length ps ≤ length os
      → length (created scores service ps os) ≡ length ps
  unfolding created
  length-created service [] os h = refl
  length-created service (p ∷ ps) [] h = absurd (omega arith)
  length-created service (p ∷ ps) (o ∷ os) h =
      omega (arith, length-created service ps os (omega arith))

  -- The agents that stay, the new ones and the shortfall make up the number that is wanted; those
  -- that stay, are retired or drain make up the existing ones.
  pub plan_agents_count :
      (req : AgentsPlanRequest)
      → let plan = plan_agents scores req in
        (length plan.keep + length plan.create + plan.shortfall ≡ req.count)
        × (length plan.keep + length plan.remove + length plan.draining ≡ length req.existing)
  unfolding plan_agents
  plan_agents_count req =
      let keep = kept_of scores req in
      let free = free_ordinals req.count keep in
      let plan = plan_placement scores (placement_request scores req (length free)) in
      let few : length plan.placements + plan.shortfall ≡ length free =
        (plan_placement-IsGreedy scores (placement_request scores req (length free))).0 in
      let sorted = sort_by by_ordinal req.existing in
      let ws = wanted_ordinals req.count in
      (
        ground (
          arith,
          few,
          length-free_ordinals req.count keep,
          length-kept req.service_id sorted ws,
          length-range_from 1 req.count,
          length-created req.service_id plan.placements free (omega arith),
        ),
        omega (
          arith,
          length-keep_if-not (is_busy req) (retired_of scores req),
          length-reverse (surplus req.service_id sorted ws),
          length-kept-surplus req.service_id sorted ws,
          length-sort_by by_ordinal req.existing,
        ),
      )

  -- No agent that still serves conversations is retired at once, and only such agents drain.
  plan_agents_drains :
      (req : AgentsPlanRequest)
      → let plan = plan_agents scores req in
        All (λ a. sessions_of req a ≡ 0) plan.remove
        × All (λ a. 0 < sessions_of req a) plan.draining
  unfolding plan_agents
  plan_agents_drains req = (
    All-imp (λ a. In a (retired_of scores req) × (not (is_busy req a) ≡ true))
        (λ a. sessions_of req a ≡ 0) (λ a h. ground (arith, h.1))
        (keep_if (λ a. not (is_busy req a)) (retired_of scores req))
        (keep_if-All (λ a. not (is_busy req a)) (retired_of scores req)),
    All-imp (λ a. In a (retired_of scores req) × (is_busy req a ≡ true))
        (λ a. 0 < sessions_of req a) (λ a h. ground (arith, h.1))
        (keep_if (is_busy req) (retired_of scores req))
        (keep_if-All (is_busy req) (retired_of scores req)),
  )
