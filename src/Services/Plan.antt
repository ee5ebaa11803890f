-- ===== src/Services/Plan.antt =====
-- src/services/agents-plan.ts: which agents of a service to keep, start, retire and drain.
pub mod Counting
pub mod Endpoint
pub mod Printed
pub mod Ordinals
mod Tests
use Prim.Native.String.{◌++◌ as join}
use mathlib.Core.List.{reverse}
use hellodac.Prelude.{
  ℕ, zero, suc, ◌+◌, ◌-◌, ◌/◌, ◌%◌, String, Bool, true, false, not, ◌&&◌, ◌||◌, Option, none, some,
  List, [], ◌∷◌, Ordering, compare, map, ltb, leb, ◌==◌, if◌then◌else◌, or_default, is_some, length,
  any, keep_if, take, ◌++◌, ◌is◌, includes, Dict, dict_get, dict_set,
}
use hellodac.Prelude.Sort.{sort_by}
use hellodac.Services.Placement.{
  Scores, Strategy, MachineFacts, Thresholds, PlacementRequest, Placement, Rejection, RejectReason,
  is_offline, private_agents_present, other_service_present, not_in_pin_list, is_pin,
  plan_placement,
}

-- The decimal digits of a number, as a template string prints it.
abbrev pub digit_text : ℕ → String
digit_text d =
    if d == 0
    then "0"
    else if d == 1
    then "1"
    else if d == 2
    then "2"
    else if d == 3
    then "3"
    else if d == 4
    then "4"
    else if d == 5
    then "5"
    else if d == 6
    then "6"
    else if d == 7
    then "7"
    else if d == 8
    then "8"
    else "9"

decimal_from : ℕ → ℕ → String
decimal_from zero n = ""
decimal_from (suc fuel) n =
    let front = decimal_from fuel (n / 10) in
    if ltb n 10 then digit_text n else join front (digit_text (n % 10))

-- A number has at most as many digits as it counts, and at least one.
unfoldable pub decimal : ℕ → String
unfolding decimal_from
decimal n = decimal_from (suc n) n

pub record AgentNames : Type 0 where
  pub endpoint_id : String
  pub agent_id : String

unfoldable pub agent_names : String → ℕ → AgentNames
unfolding decimal
agent_names service ordinal = record {
  endpoint_id = join "svc-" (join service (join "-" (decimal ordinal)));
  agent_id = join service (join "-" (decimal ordinal));
}

pub record PlannedAgent : Type 0 where
  pub service_id : String
  pub ordinal : ℕ
  pub names : AgentNames
  pub open names use *
  pub machine_id : String

pub record ExistingAgent : Type 0 where
  pub ordinal : ℕ
  pub machine_id : String

pub record AgentsPlanRequest : Type 0 where
  pub service_id : String
  pub count : ℕ
  pub placement : Strategy
  pub machines : Option (List String)
  pub max_agents_per_machine : Option ℕ
  pub existing : List ExistingAgent
  pub facts : List MachineFacts
  pub sessions_by_agent : Option (Dict ℕ)
  pub thresholds : Option Thresholds

pub data StrandedReason : Type 0 where
  machine_unknown : StrandedReason
  rejected : RejectReason → StrandedReason

pub record Stranded : Type 0 where
  pub agent : PlannedAgent
  pub reason : StrandedReason

abbrev pub make_agent : String → ℕ → String → PlannedAgent
make_agent service ordinal machine = record {
  service_id = service;
  ordinal = ordinal;
  names = agent_names service ordinal;
  machine_id = machine;
}

-- `n` numbers from `first` on.
abbrev pub range_from : ℕ → ℕ → List ℕ
range_from first zero = []
range_from first (suc n) = first ∷ range_from (suc first) n

abbrev pub wanted_ordinals : ℕ → List ℕ
wanted_ordinals count = range_from 1 count

unfoldable pub by_ordinal : ExistingAgent → ExistingAgent → Ordering
by_ordinal a b = compare a.ordinal b.ordinal

-- The walk over the existing agents against the wanted ordinals: those that stay, and the surplus.
unfoldable pub kept : String → List ExistingAgent → List ℕ → List PlannedAgent
kept service [] wanted = []
kept service (e ∷ es) [] = []
kept service (e ∷ es) (w ∷ ws) = make_agent service e.ordinal e.machine_id ∷ kept service es ws

unfoldable pub surplus : String → List ExistingAgent → List ℕ → List PlannedAgent
surplus service [] wanted = []
surplus service (e ∷ es) [] = make_agent service e.ordinal e.machine_id ∷ surplus service es []
surplus service (e ∷ es) (w ∷ ws) = surplus service es ws

abbrev pub sessions_of : AgentsPlanRequest → PlannedAgent → ℕ
sessions_of req a = or_default (dict_get (or_default req.sessions_by_agent []) a.agent_id) 0

abbrev pub is_busy : AgentsPlanRequest → PlannedAgent → Bool
is_busy req a = ltb 0 (sessions_of req a)

abbrev pub has_ordinal : List PlannedAgent → ℕ → Bool
has_ordinal [] o = false
has_ordinal (a ∷ as') o = a.ordinal == o || has_ordinal as' o

-- The smallest free ordinals, as many as there are slots to fill.
unfoldable pub free_ordinals : ℕ → List PlannedAgent → List ℕ
free_ordinals count keep =
    let wanted = wanted_ordinals count in
    take (length wanted - length keep) (keep_if (λ o. not (has_ordinal keep o)) wanted)

unfoldable pub facts_by_id : Dict MachineFacts → List MachineFacts → Dict MachineFacts
facts_by_id m [] = m
facts_by_id m (f ∷ fs) = facts_by_id (dict_set m f.id f) fs

-- Why the place of a kept agent is no longer acceptable.
unfoldable pub stranded_reason :
    AgentsPlanRequest → Option MachineFacts → String → Option StrandedReason
stranded_reason req none machine = some machine_unknown
stranded_reason req (some f) machine =
    if not f.online
    then some (rejected is_offline)
    else if f.has_private_agents
    then some (rejected private_agents_present)
    else if any (λ s. not (s is req.service_id)) f.services
    then some (rejected other_service_present)
    else if is_pin req.placement && not (includes (or_default req.machines []) machine)
    then some (rejected not_in_pin_list)
    else none

unfoldable pub stranded_of : AgentsPlanRequest → List PlannedAgent → List Stranded
unfolding stranded_reason facts_by_id
stranded_of req [] = []
stranded_of req (a ∷ rest) =
    let tail = stranded_of req rest in
    elim (stranded_reason req (dict_get (facts_by_id [] req.facts) a.machine_id) a.machine_id) [
      | none ↦ tail
      | some reason ↦ record { agent = a; reason = reason } ∷ tail
    ]

abbrev pub by_agent_ordinal : PlannedAgent → PlannedAgent → Ordering
by_agent_ordinal a b = compare a.ordinal b.ordinal

module _ (scores : Scores) where
  pub record AgentsPlan : Type 0 where
    pub agents : List PlannedAgent
    pub keep : List PlannedAgent
    pub create : List PlannedAgent
    pub remove : List PlannedAgent
    pub draining : List PlannedAgent
    pub shortfall : ℕ
    pub stranded : List Stranded
    pub rejections : List Rejection

  abbrev pub placement_request : AgentsPlanRequest → ℕ → PlacementRequest
  placement_request req n = record {
    service_id = req.service_id;
    count = n;
    machines = req.facts;
    strategy = some req.placement;
    pin_machines = some (or_default req.machines []);
    max_agents_per_machine = req.max_agents_per_machine;
    thresholds = req.thresholds;
  }

  -- `plan.placements.forEach((placement, index) => …)` over the free ordinals.
  unfoldable pub created : String → List (Placement scores) → List ℕ → List PlannedAgent
  created service [] os = []
  created service (p ∷ ps) [] = []
  created service (p ∷ ps) (o ∷ os) = make_agent service o p.machine_id ∷ created service ps os

  abbrev pub kept_of : AgentsPlanRequest → List PlannedAgent
  kept_of req = kept req.service_id (sort_by by_ordinal req.existing) (wanted_ordinals req.count)

  abbrev pub retired_of : AgentsPlanRequest → List PlannedAgent
  retired_of req =
      reverse (surplus req.service_id (sort_by by_ordinal req.existing) (wanted_ordinals req.count))

  unfoldable pub plan_agents : AgentsPlanRequest → AgentsPlan
  unfolding free_ordinals stranded_of created kept surplus
  plan_agents req =
      let keep = kept_of req in
      let retired = retired_of req in
      let free = free_ordinals req.count keep in
      let plan = plan_placement scores (placement_request req (length free)) in
      let none_free = length free == 0 in
      let new = if none_free then [] else created req.service_id plan.placements free in
      record {
        agents = sort_by by_agent_ordinal (keep ++ new);
        keep = keep;
        create = new;
        remove = keep_if (λ a. not (is_busy req a)) retired;
        draining = keep_if (is_busy req) retired;
        shortfall = if none_free then 0 else plan.shortfall;
        stranded = stranded_of req keep;
        rejections = if none_free then [] else plan.rejections;
      }
