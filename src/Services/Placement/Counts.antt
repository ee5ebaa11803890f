-- ===== src/Services/Placement/Counts.antt =====
-- src/services/placement.ts: how many agents a machine gets.
use hellodac.Prelude.{
  ℕ, ◌+◌, ◌≤◌, ◌<◌, ◌≡◌, inl, inr, true, List, [], ◌∷◌, arith, All, All-imp, All_of_In, is_some,
  Dict, dict_get, dict_set, dict_get-dict_set, or_default, Option-cases, ◌is◌, eq_iff, String,
  count_if,
}
use hellodac.Services.Placement.{
  Scores, MachineFacts, PlacementRequest, Placement, blocking_reason, resolve_options, usage,
  with_counts, candidates_of, bump, plan_placement, initial_counts,
}
use hellodac.Services.Placement.Best.{IsGreedy, plan_placement-IsGreedy}

-- Every machine has an entry.
abbrev Counted : Dict ℕ → List MachineFacts → Type 0
Counted used = All (λ m. is_some (dict_get used m.id) ≡ true)

-- What a count of the map says of an id, 0 without an entry.
abbrev pub agents_on : Dict ℕ → String → ℕ
agents_on used id = or_default (dict_get used id) 0

set-is_some :
    (used : Dict ℕ) (id other : String) (n : ℕ)
    → is_some (dict_get used other) ≡ true
    → is_some (dict_get (dict_set used id n) other) ≡ true
set-is_some used id other n h = ground (arith, dict_get-dict_set used id other n)

set-Counted :
    (used : Dict ℕ) (id : String) (n : ℕ) (ms : List MachineFacts)
    → Counted used ms
    → Counted (dict_set used id n) ms
set-Counted used id n ms =
    All-imp (λ m. is_some (dict_get used m.id) ≡ true)
      (λ m. is_some (dict_get (dict_set used id n) m.id) ≡ true) (λ m. set-is_some used id m.id n)
      ms

with_counts-is_some :
    (used : Dict ℕ) (id : String) (ms : List MachineFacts)
    → is_some (dict_get used id) ≡ true
    → is_some (dict_get (with_counts used ms) id) ≡ true
unfolding with_counts
with_counts-is_some used id [] h = h
with_counts-is_some used id (m ∷ ms) h =
    with_counts-is_some (dict_set used m.id m.agent_count) id ms
      (set-is_some used m.id id m.agent_count h)

with_counts-Counted : (used : Dict ℕ) (ms : List MachineFacts) → Counted (with_counts used ms) ms
unfolding with_counts
with_counts-Counted used [] = tt
with_counts-Counted used (m ∷ ms) = (
  with_counts-is_some (dict_set used m.id m.agent_count) m.id ms
      (ground (arith, dict_get-dict_set used m.id m.id m.agent_count, eq_iff m.id m.id)),
  with_counts-Counted (dict_set used m.id m.agent_count) ms,
)

module _ (scores : Scores) where
  -- A candidate stands for an entry below the limit.
  candidates-below :
      (req : PlacementRequest) (used : Dict ℕ) (ms : List MachineFacts)
      → Counted used ms
      → All
          (λ (c : Placement scores).
            agents_on used c.machine_id < (resolve_options req).max_agents_per_machine)
          (candidates_of scores req used ms)
  unfolding candidates_of
  candidates-below req used [] h = tt
  candidates-below req used (m ∷ ms) h =
      elim (Option-cases (blocking_reason m req.service_id (resolve_options req) (usage used m))) [
        | inl e ↦
            rw (e, candidates_of)
              (unfold blocking_reason in ground arith, candidates-below req used ms h.1)
        | inr (r, e) ↦ rw (e, candidates_of) (candidates-below req used ms h.1)
      ]

  abbrev pub placed_on : String → List (Placement scores) → ℕ
  placed_on id = count_if (λ c. c.machine_id is id)

  greedy-below :
      (req : PlacementRequest) (used : Dict ℕ) (ps : List (Placement scores)) (id : String)
      → Counted used req.machines
      → IsGreedy scores req used ps
      → 0 < placed_on id ps
      → agents_on used id + placed_on id ps ≤ (resolve_options req).max_agents_per_machine
  greedy-below req used [] id k g h = elim h [ ]
  greedy-below req used (c ∷ cs) id k g h = ground (
    arith,
    All_of_In
        (λ (d : Placement scores).
          agents_on used d.machine_id < (resolve_options req).max_agents_per_machine)
        (candidates_of scores req used req.machines) (candidates-below req used req.machines k)
        g.0.0,
    greedy-below req (bump scores used c.machine_id) cs id
        (set-Counted used c.machine_id (agents_on used c.machine_id + 1) req.machines k) g.1,
    dict_get-dict_set used c.machine_id id (agents_on used c.machine_id + 1),
    eq_iff c.machine_id id,
  )

  -- A machine that gets an agent has, with the agents it runs already and all that the plan puts on
  -- it, no more than the limit for a machine.
  pub plan_placement_capped :
      (req : PlacementRequest) (id : String)
      → 0 < placed_on id (plan_placement scores req).placements
      → agents_on (initial_counts scores req) id
          + placed_on id (plan_placement scores req).placements
        ≤ (resolve_options req).max_agents_per_machine
  plan_placement_capped req id h =
      greedy-below req (initial_counts scores req) _ id (with_counts-Counted [] req.machines)
        (plan_placement-IsGreedy scores req).1 h
