-- ===== src/Services/Placement.antt =====
-- src/services/placement.ts: the machines that new agents of a service land on.
pub mod Counts
pub mod Hard
pub mod Best
pub mod Fixtures
mod Tests
use hellodac.Prelude.{
  ℕ, zero, suc, ◌+◌, ◌-◌, ◌*◌, String, Bool, true, false, not, ◌&&◌, ◌||◌, Option, none, some, List,
  [], ◌∷◌, Ordering, ltb, leb, ◌==◌, if◌then◌else◌, or_default, is_some, length, any, count_if,
  keep_if, head?, ◌is◌, includes, Dict, dict_get, dict_set,
}
use hellodac.Prelude.Sort.{IsComparator, then_by, opposite, sort_by}

-- What the scores are computed with: the floating-point numbers of the language, and its
-- `localeCompare`. The scores are only compared, and both comparisons are orders.
pub record Scores : Type 1 where
  pub Num : Type 0
  pub of_ℕ : ℕ → Num
  pub add : Num → Num → Num
  pub sub : Num → Num → Num
  pub mul : Num → Num → Num
  pub div : Num → Num → Num
  pub least : Num → Num → Num
  pub round : Num → Num
  pub compare_num : Num → Num → Ordering
  pub compare_num-IsComparator : IsComparator compare_num
  pub locale_compare : String → String → Ordering
  pub locale_compare-IsComparator : IsComparator locale_compare

pub data Strategy : Type 0 where
  spread pack pin : Strategy

pub record MachineFacts : Type 0 where
  pub id : String
  pub online : Bool
  pub agent_count : ℕ
  pub services : List String
  pub has_private_agents : Bool
  pub sessions : ℕ
  pub cpu_free_percent : Option ℕ
  pub mem_free_bytes : Option ℕ
  pub disk_free_bytes : Option ℕ
  pub knowledge_affinity : Option Bool

pub record Thresholds : Type 0 where
  pub min_free_cpu_percent : ℕ
  pub min_free_mem_bytes : ℕ
  pub min_free_disk_bytes : ℕ

abbrev pub default_thresholds : Thresholds
default_thresholds = record {
  min_free_cpu_percent = 20;
  min_free_mem_bytes = 1_500_000_000;
  min_free_disk_bytes = 5_000_000_000;
}

abbrev pub default_max_agents_per_machine : ℕ
default_max_agents_per_machine = 4

pub data RejectReason : Type 0 where
  is_offline private_agents_present other_service_present machine_full : RejectReason
  insufficient_cpu insufficient_memory insufficient_disk not_in_pin_list : RejectReason

pub record PlacementRequest : Type 0 where
  pub service_id : String
  pub count : ℕ
  pub machines : List MachineFacts
  pub strategy : Option Strategy
  pub pin_machines : Option (List String)
  pub max_agents_per_machine : Option ℕ
  pub thresholds : Option Thresholds

pub record ResolvedOptions : Type 0 where
  pub strategy : Strategy
  pub pin_machines : List String
  pub max_agents_per_machine : ℕ
  pub thresholds : Thresholds

abbrev pub resolve_options : PlacementRequest → ResolvedOptions
resolve_options req = record {
  strategy = or_default req.strategy spread;
  pin_machines = or_default req.pin_machines [];
  max_agents_per_machine = or_default req.max_agents_per_machine default_max_agents_per_machine;
  thresholds = or_default req.thresholds default_thresholds;
}

abbrev pub metrics_known : MachineFacts → Bool
metrics_known m =
    is_some m.cpu_free_percent && is_some m.mem_free_bytes && is_some m.disk_free_bytes

-- `free !== undefined && free < least`
abbrev pub too_little : Option ℕ → ℕ → Bool
too_little none bound = false
too_little (some free) bound = ltb free bound

abbrev pub is_pin : Strategy → Bool
is_pin pin = true
is_pin _ = false

abbrev pub is_pack : Strategy → Bool
is_pack pack = true
is_pack _ = false

-- The first hard constraint that fails.
unfoldable pub blocking_reason : MachineFacts → String → ResolvedOptions → ℕ → Option RejectReason
blocking_reason m service opts used =
    if not m.online
    then some is_offline
    else if m.has_private_agents
    then some private_agents_present
    else if any (λ s. not (s is service)) m.services
    then some other_service_present
    else if leb opts.max_agents_per_machine used
    then some machine_full
    else if is_pin opts.strategy && not (includes opts.pin_machines m.id)
    then some not_in_pin_list
    else if too_little m.cpu_free_percent opts.thresholds.min_free_cpu_percent
    then some insufficient_cpu
    else if too_little m.mem_free_bytes opts.thresholds.min_free_mem_bytes
    then some insufficient_memory
    else if too_little m.disk_free_bytes opts.thresholds.min_free_disk_bytes
    then some insufficient_disk
    else none

pub record Rejection : Type 0 where
  pub machine_id : String
  pub reason : RejectReason

abbrev pub usage : Dict ℕ → MachineFacts → ℕ
usage used m = or_default (dict_get used m.id) m.agent_count

-- `new Map(machines.map((m) => [m.id, m.agentCount]))`, on top of a map.
unfoldable pub with_counts : Dict ℕ → List MachineFacts → Dict ℕ
with_counts used [] = used
with_counts used (m ∷ ms) = with_counts (dict_set used m.id m.agent_count) ms

-- The rejections that a round would report.
unfoldable pub rejections_of : PlacementRequest → Dict ℕ → List MachineFacts → List Rejection
rejections_of req used [] = []
rejections_of req used (m ∷ ms) =
    let rest = rejections_of req used ms in
    elim (blocking_reason m req.service_id (resolve_options req) (usage used m)) [
      | none ↦ rest
      | some reason ↦ record { machine_id = m.id; reason = reason } ∷ rest
    ]

module _ (scores : Scores) where
  open scores use {Num, of_ℕ, add, sub, mul, div, least, round, compare_num, locale_compare}

  pub record Placement : Type 0 where
    pub machine_id : String
    pub score : Num
    pub known : Bool

  -- `Math.min(4, free / minimum) * weight`
  abbrev pub headroom : Option ℕ → ℕ → ℕ → Num
  headroom free minimum weight =
      mul (least (of_ℕ 4) (div (of_ℕ (or_default free 0)) (of_ℕ minimum))) (of_ℕ weight)

  unfoldable pub score_machine : MachineFacts → String → ResolvedOptions → ℕ → Num
  score_machine m service opts used =
      let t = opts.thresholds in
      let base = of_ℕ (or_default m.cpu_free_percent 0) in
      let with_memory = add base (headroom m.mem_free_bytes t.min_free_mem_bytes 10) in
      let with_disk = add with_memory (headroom m.disk_free_bytes t.min_free_disk_bytes 5) in
      let quiet = sub with_disk (of_ℕ m.sessions) in
      let own = count_if (λ s. s is service) m.services in
      let apart =
        if is_pack opts.strategy
        then quiet
        else sub (sub quiet (of_ℕ (own * 400))) (of_ℕ (used * 400)) in
      let near = if or_default m.knowledge_affinity false then add apart (of_ℕ 50) else apart in
      if metrics_known m then round near else sub (of_ℕ 0) (of_ℕ 1000)

  -- Higher scores first, then the ids in order.
  unfoldable pub compare_placements : Placement → Placement → Ordering
  compare_placements a b =
      then_by (compare_num b.score a.score) (locale_compare a.machine_id b.machine_id)

  -- The candidates of a round.
  unfoldable pub candidates_of : PlacementRequest → Dict ℕ → List MachineFacts → List Placement
  candidates_of req used [] = []
  candidates_of req used (m ∷ ms) =
      let opts = resolve_options req in
      let rest = candidates_of req used ms in
      elim (blocking_reason m req.service_id opts (usage used m)) [
        | none ↦
            record {
              machine_id = m.id;
              score = score_machine m req.service_id opts (usage used m);
              known = metrics_known m;
            }
            ∷ rest
        | some reason ↦ rest
      ]

  abbrev pub bump : Dict ℕ → String → Dict ℕ
  bump used id = dict_set used id (or_default (dict_get used id) 0 + 1)

  unfoldable pub choose : PlacementRequest → Dict ℕ → Option Placement
  unfolding compare_placements candidates_of sort_by
  choose req used = head? (sort_by compare_placements (candidates_of req used req.machines))

  -- So many rounds of the loop; it breaks in a round without candidates.
  unfoldable pub place : PlacementRequest → ℕ → Dict ℕ → List Placement
  unfolding choose
  place req zero used = []
  place req (suc rounds) used = elim (choose req used) [
    | none ↦ []
    | some chosen ↦ chosen ∷ place req rounds (bump used chosen.machine_id)
  ]

  pub record PlacementPlan : Type 0 where
    pub placements : List Placement
    pub shortfall : ℕ
    pub rejections : List Rejection

  abbrev pub initial_counts : PlacementRequest → Dict ℕ
  initial_counts req = with_counts [] req.machines

  unfoldable pub plan_placement : PlacementRequest → PlacementPlan
  unfolding place rejections_of
  plan_placement req =
      let ps = place req req.count (initial_counts req) in
      record {
        placements = ps;
        shortfall = req.count - length ps;
        rejections =
            if req.count == 0 then [] else rejections_of req (initial_counts req) req.machines;
      }
