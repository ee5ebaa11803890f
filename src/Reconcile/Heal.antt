-- ===== src/Reconcile/Heal.antt =====
-- src/reconcile/index.ts, `convergeNodes`: the nodes against the configuration. The log is left out.
use hellodac.Prelude.{
  ℕ, ◌+◌, ◌≡◌, String, Bool, true, false, Option, none, some, List, if◌then◌else◌, ltb, includes,
}
use hellodac.Nodes.Supervisor.State.{
  NodeState, starting, offline, Runner, process, docker, agent, SpawnSpec, Supervisor, Deps,
  is_live, is_offline,
}
use hellodac.Nodes.Supervisor.Launch.{Env}
use hellodac.Nodes.Supervisor.Commands.{start, restart, adopt}
use hellodac.Nodes.Supervisor.Events.{
  ProbeResult, probe_live_begin, probe_live_end, live_probe_threshold,
}

-- What docker says about the containers of a node: the calls fail, none is running, or one is, and
-- it matches the configuration or not.
pub data Managed : Type 0 where
  docker_throws absent : Managed
  running : (id : String) (matches : Bool) → Managed

-- The answers of the outside for one node. `meanwhile` is what happens to it during an `await`.
pub record Answers : Type 0 where
  pub probe : ProbeResult
  pub docker : Option Managed
  pub meanwhile : Supervisor → Supervisor

unfoldable pub heal_node : Deps → Env → Answers → SpawnSpec → Supervisor → Supervisor
heal_node deps env answers spec s =
    if is_live s.state
    then (let probed = probe_live_end env answers.probe (answers.meanwhile (probe_live_begin s)) in
        if is_offline probed.state then restart deps env spec probed else probed)
    else if is_offline s.state
    then restart deps env spec s
    else s

abbrev pub reconcile_container : Deps → Env → Managed → SpawnSpec → Supervisor → Supervisor
reconcile_container deps env docker_throws spec s = s
reconcile_container deps env absent spec s = start deps env spec s
reconcile_container deps env (running id true) spec s = adopt env spec id s
reconcile_container deps env (running id false) spec s = start deps env spec s

abbrev pub adopt_docker : Deps → Env → Answers → SpawnSpec → Supervisor → Supervisor
adopt_docker deps env answers spec s = elim answers.docker [
  | none ↦ s
  | some managed ↦ reconcile_container deps env managed spec (answers.meanwhile s)
]

abbrev pub adopt_as : Runner → Deps → Env → Answers → SpawnSpec → Supervisor → Supervisor
adopt_as docker deps env answers spec s = adopt_docker deps env answers spec s
adopt_as process deps env answers spec s = start deps env spec s
adopt_as agent deps env answers spec s = start deps env spec s

abbrev pub is_meant : Option (List String) → String → Bool
is_meant none id = true
is_meant (some only) id = includes only id

unfoldable pub converge_node :
    Deps
    → Env
    → Bool
    → Option (List String)
    → String
    → Answers
    → Option SpawnSpec
    → Supervisor
    → Supervisor
unfolding heal_node
converge_node deps env heal_only only id answers none s = s
converge_node deps env heal_only only id answers (some spec) s =
    if is_meant only id
    then (if heal_only
        then heal_node deps env answers spec s
        else adopt_as spec.runner deps env answers spec s)
    else s

-- What the liveness probe of a round makes of a node: `before` is its state when the round asks, and
-- `after` when the answer is there.
abbrev pub probed_state : ProbeResult → ℕ → NodeState → NodeState → NodeState
probed_state probe failures before after =
    if is_live before
    then elim probe [
      | none ↦ after
      | some detail ↦ if ltb (failures + 1) live_probe_threshold then after else offline
    ]
    else after

-- Where a round of healing should leave a process node.
abbrev pub healed : Bool → Bool → ProbeResult → ℕ → NodeState → NodeState → NodeState
healed in_scope has_child probe failures before after =
    let found = probed_state probe failures before after in
    if in_scope
    then (if is_offline found then (if has_child then offline else starting) else found)
    else before

-- A process node with no container and no armed timer.
pub record IsSettled (s : Supervisor) : Type 0 where
  pub no_container : s.container_id ≡ none
  pub no_timer : s.restart_timer ≡ none

-- The node when the answer of the probe is there; only a live node is probed.
abbrev pub at_answer : Answers → Supervisor → Supervisor
at_answer answers s = if is_live s.state then answers.meanwhile (probe_live_begin s) else s
