-- ===== src/Nodes/Supervisor/Events.antt =====
-- src/nodes/supervisor.ts: what happens to a `NodeSupervisor` from the outside: the ends of the
-- asynchronous chains, the timers, the exit of the child. `EnvStep` is all of it but the commands.
use hellodac.Prelude.{
  ℕ, ◌+◌, Bool, false, not, ◌||◌, Option, none, some, ◌∷◌, if◌then◌else◌, leb, ltb, ◌==◌, String,
}
use hellodac.Nodes.Supervisor.State.{
  cold, live, offline, Runner, process, docker, agent, SpawnSpec, NodeError, not_ready_within,
  live_probe_failed, start_threw, agent_reported_failure, spawn_failed, Retry, retry_process,
  retry_docker, retry_agent, stop_container, probe_live, Supervisor, Deps, emit, is_starting,
  is_live,
}
use hellodac.Nodes.Supervisor.Launch.{
  Env, poll, arm_ready_probe, spawn_once, start_docker, start_agent, enqueue_agent, kill_tree,
  on_exit, to_state, fresh_cold, after_docker_failure, after_agent_failure,
}

-- `LIVE_PROBE_THRESHOLD`
abbrev pub live_probe_threshold : ℕ
live_probe_threshold = 3

-- The answer of a probe: none if it is good, else its detail.
abbrev pub ProbeResult : Type 0
ProbeResult = Option String

abbrev pub with_error : NodeError → Supervisor → Supervisor
with_error e s = record s { last_error = some e }

-- The readiness window is over.
unfoldable pub ready_timeout : Runner → Deps → Env → SpawnSpec → Supervisor → Supervisor
unfolding enqueue_agent after_agent_failure after_docker_failure kill_tree
ready_timeout agent deps env spec s = after_agent_failure env spec (enqueue_agent deps s)
ready_timeout docker deps env spec s = after_docker_failure env spec (record s {
  container_id = none;
  effects = elim s.container_id [
    | none ↦ s.effects
    | some cid ↦ if deps.docker_wired then stop_container cid ∷ s.effects else s.effects
  ];
})
ready_timeout process deps env spec s = kill_tree s

-- The continuation of a readiness probe that was made with this deadline.
unfoldable pub ready_result : Deps → Env → SpawnSpec → ℕ → ProbeResult → Supervisor → Supervisor
unfolding ready_timeout
ready_result deps env spec deadline result s =
    if is_starting s.state
    then (elim result [
      | none ↦ record s {
        status = record (s.status) {
          state = live;
          attempts = 0;
          status_error = none;
          state_since = env.now;
        };
      }
      | some detail ↦
          if leb deadline env.now
          then ready_timeout spec.runner deps env spec
              (with_error (not_ready_within spec.ready_timeout_ms detail) s)
          else record s { ready_timer = some (spec, deadline) }
    ])
    else s

-- The `then` and the `catch` of the docker chain that was begun with this generation.
unfoldable pub docker_started : Env → ℕ → SpawnSpec → String → Supervisor → Supervisor
unfolding arm_ready_probe
docker_started env gen spec cid s =
    if not (gen == s.launch_gen) || not (is_starting s.state)
    then emit (stop_container cid) s
    else arm_ready_probe env spec (record s { container_id = some cid })

unfoldable pub docker_failed : Env → ℕ → SpawnSpec → String → Supervisor → Supervisor
unfolding after_docker_failure
docker_failed env gen spec message s0 =
    let s = with_error (start_threw message) s0 in
    if gen == s0.launch_gen
    then (if is_starting s.state then after_docker_failure env spec s else s)
    else s0

-- The `then` of the `docker stop` that `stop` made.
unfoldable pub docker_stopped : Deps → Env → SpawnSpec → Supervisor → Supervisor
unfolding start_docker
docker_stopped deps env spec s =
    if s.restart_requested
    then start_docker deps env spec (fresh_cold env s)
    else to_state env cold s

-- The result that the agent reports for the spawn of this generation.
unfoldable pub agent_result : Env → ℕ → SpawnSpec → Bool → Supervisor → Supervisor
unfolding after_agent_failure arm_ready_probe
agent_result env gen spec ok s =
    if not (gen == s.launch_gen) || not (is_starting s.state)
    then s
    else if ok
    then arm_ready_probe env spec s
    else after_agent_failure env spec (with_error agent_reported_failure s)

-- The child's `exit` and `error` events; the handle says which child it was.
abbrev pub is_child : ℕ → Option (ℕ × Option ℕ) → Bool
is_child h none = false
is_child h (some (k, pid)) = k == h

unfoldable pub child_exit : Env → ℕ → SpawnSpec → Supervisor → Supervisor
unfolding on_exit
child_exit env h spec s = if is_child h s.child then on_exit env spec s else s

unfoldable pub child_error : Env → ℕ → SpawnSpec → String → Supervisor → Supervisor
unfolding on_exit
child_error env h spec message s0 =
    let s = with_error (spawn_failed message) s0 in
    if is_child h s.child then on_exit env spec s else s

unfoldable pub fire_retry : Deps → Env → Retry → Supervisor → Supervisor
unfolding spawn_once start_docker start_agent
fire_retry deps env (retry_process spec) s = spawn_once env spec s
fire_retry deps env (retry_docker spec) s = start_docker deps env spec s
fire_retry deps env (retry_agent spec) s = start_agent deps env spec s

-- The timers; one that is not armed does not fire.
unfoldable pub restart_timer_fires : Deps → Env → Supervisor → Supervisor
unfolding fire_retry
restart_timer_fires deps env s = elim s.restart_timer [
  | none ↦ s
  | some retry ↦ fire_retry deps env retry (record s { restart_timer = none })
]

unfoldable pub ready_timer_fires : Supervisor → Supervisor
unfolding poll
ready_timer_fires s = elim s.ready_timer [ none ↦ s | some (spec, deadline) ↦ poll spec deadline s ]

-- `probeLive` up to its `await`, and from there on.
unfoldable pub probe_live_begin : Supervisor → Supervisor
probe_live_begin s =
    if is_live s.state then emit probe_live s else record s { live_probe_failures = 0 }

abbrev pub forget_container : Option SpawnSpec → Option String → Option String
forget_container none cid = cid
forget_container (some spec) cid = elim spec.runner [ docker ↦ none | _ ↦ cid ]

unfoldable pub probe_live_end : Env → ProbeResult → Supervisor → Supervisor
probe_live_end env none s = record s { live_probe_failures = 0 }
probe_live_end env (some detail) s0 =
    let failures = s0.live_probe_failures + 1 in
    let e = live_probe_failed failures detail in
    let s = record s0 { live_probe_failures = failures; last_error = some e } in
    if ltb failures live_probe_threshold then s else record s {
      container_id = forget_container s.last_spec s.container_id;
      status = record (s.status) {
        state = offline;
        pid = none;
        attempts = 1;
        status_error = some e;
        state_since = env.now;
      };
    }
