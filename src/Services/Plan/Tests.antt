-- ===== src/Services/Plan/Tests.antt =====
-- The plan of a small service.
use hellodac.Prelude.{
  ℕ, ◌+◌, ◌≤◌, ◌≡◌, refl, String, none, some, [], ◌∷◌, arith, length, All, map, dict_get, dict_set,
}
use hellodac.Prelude.Sort.{IsSorted, DistinctBy, sort_by}
use hellodac.Services.Placement.{
  spread, blocking_reason, score_machine, with_counts, plan_placement,
}
use hellodac.Services.Placement.Fixtures.{plain, machine}
use hellodac.Services.Plan.{
  ExistingAgent, AgentsPlanRequest, plan_agents, by_ordinal, by_agent_ordinal, agent_names,
}
use hellodac.Services.Plan.Counting.{plan_agents_count}
use hellodac.Services.Plan.Endpoint.{parse_agent_endpoint, is_one_line}
use hellodac.Services.Plan.Printed.{parse_agent_endpoint-agent_names}
use hellodac.Services.Plan.Ordinals.{ordinal_of, plan_agents_ordinals}

abbrev at : ℕ → String → ExistingAgent
at o m = record { ordinal = o; machine_id = m }

-- Three agents run, one of them busy.
abbrev running : ℕ → AgentsPlanRequest
running n = record {
  service_id = "faq";
  count = n;
  placement = spread;
  machines = none;
  max_agents_per_machine = none;
  existing = at 4 "m1" ∷ at 2 "m1" ∷ at 3 "m3" ∷ [];
  facts = machine "m1" 2 ("faq" ∷ []) ∷ machine "m3" 1 ("faq" ∷ []) ∷ [];
  sessions_by_agent = some (("faq-4", 2) ∷ []);
  thresholds = none;
}

shrinks : map ordinal_of (plan_agents plain (running 1)).remove ≡ 3 ∷ []
unfolding plan_agents by_ordinal sort_by dict_get agent_names
shrinks = refl

drains : map ordinal_of (plan_agents plain (running 1)).draining ≡ 4 ∷ []
unfolding plan_agents by_ordinal sort_by dict_get agent_names
drains = refl

grows : map ordinal_of (plan_agents plain (running 5)).agents ≡ 1 ∷ 2 ∷ 3 ∷ 4 ∷ 5 ∷ []
unfolding plan_agents by_ordinal sort_by dict_get dict_set plan_placement with_counts
    blocking_reason score_machine
grows = refl

plan_agents_count_example :
    let plan = plan_agents plain (running 5) in
    (length plan.keep + length plan.create + plan.shortfall ≡ 5)
    × (length plan.keep + length plan.remove + length plan.draining ≡ 3)
plan_agents_count_example = plan_agents_count plain (running 5)

plan_agents_ordinals_example :
    let plan = plan_agents plain (running 1) in
    DistinctBy ordinal_of plan.agents
    × IsSorted by_agent_ordinal plan.agents
    × All (λ a. All (λ b. b.ordinal ≤ a.ordinal) plan.keep) plan.remove
    × All (λ a. All (λ b. b.ordinal ≤ a.ordinal) plan.keep) plan.draining
plan_agents_ordinals_example = plan_agents_ordinals plain (running 1) (omega arith)

parse_agent_endpoint-agent_names_example :
    parse_agent_endpoint (agent_names "a-b" 27).endpoint_id
    ≡ some (record { service_id = "a-b"; ordinal = 27 })
unfolding is_one_line
parse_agent_endpoint-agent_names_example =
    parse_agent_endpoint-agent_names "a-b" 27 refl (omega arith)
