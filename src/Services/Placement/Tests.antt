-- ===== src/Services/Placement/Tests.antt =====
-- The placement on a small fleet, scored by natural numbers.
use hellodac.Prelude.{
  ◌+◌, ◌≤◌, ◌<◌, ◌≡◌, refl, none, [], ◌∷◌, arith, length, All, dict_get, dict_set,
}
use hellodac.Services.Placement.{
  PlacementRequest, plan_placement, blocking_reason, score_machine, initial_counts, with_counts,
  usage,
}
use hellodac.Services.Placement.Best.{counts_after}
use hellodac.Services.Placement.Hard.{IsFit, AllBest, plan_placement-AllBest}
use hellodac.Services.Placement.Counts.{agents_on, placed_on, plan_placement_capped}
use hellodac.Services.Placement.Fixtures.{plain, machine}

abbrev fleet : PlacementRequest
fleet = record {
  service_id = "faq";
  count = 3;
  machines = machine "m1" 3 ("faq" ∷ []) ∷ machine "m2" 0 ("shop" ∷ []) ∷ machine "m3" 3 [] ∷ [];
  strategy = none;
  pin_machines = none;
  max_agents_per_machine = none;
  thresholds = none;
}

two_fit : (plan_placement plain fleet).shortfall ≡ 1
unfolding plan_placement with_counts dict_get dict_set blocking_reason score_machine
two_fit = refl

plan_placement-AllBest_example :
    let plan = plan_placement plain fleet in
    let used = counts_after plain (initial_counts plain fleet) plan.placements in
    (length plan.placements + plan.shortfall ≡ 3)
    × AllBest plain fleet (initial_counts plain fleet) plan.placements
    × (0 < plan.shortfall → All (λ m. IsFit fleet (usage used m) m → ⊥) fleet.machines)
plan_placement-AllBest_example = plan_placement-AllBest plain fleet

plan_placement_capped_example :
    agents_on (initial_counts plain fleet) "m1"
      + placed_on plain "m1" (plan_placement plain fleet).placements
    ≤ 4
unfolding plan_placement with_counts dict_get dict_set blocking_reason score_machine
plan_placement_capped_example = plan_placement_capped plain fleet "m1" (omega arith)
