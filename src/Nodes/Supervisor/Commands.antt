-- ===== src/Nodes/Supervisor/Commands.antt =====
-- src/nodes/supervisor.ts: the commands of `NodeSupervisor`: start, stop, restart, resume, adopt.
use hellodac.Prelude.{suc, true, false, ◌||◌, Option, none, some, if◌then◌else◌, is_some, String}
use hellodac.Nodes.Supervisor.State.{
  cold, starting, Runner, process, docker, agent, SpawnSpec, stop_container, Supervisor, Deps, emit,
  is_starting, is_live, is_offline, is_restarting,
}
use hellodac.Nodes.Supervisor.Launch.{
  Env, arm_ready_probe, spawn_once, start_docker, start_agent, enqueue_agent, kill_tree,
  clear_pid_file, to_state, fresh_cold,
}

-- The tail of `start`, by runner, after `lastSpec` is stored.
unfoldable pub start_as : Runner → Deps → Env → SpawnSpec → Supervisor → Supervisor
unfolding start_docker start_agent spawn_once
start_as docker deps env spec s =
    if is_some s.container_id || is_some s.restart_timer || is_starting s.state
    then s
    else start_docker deps env spec (record s { manual_stop = false })
start_as agent deps env spec s =
    if is_some s.restart_timer || is_starting s.state
    then s
    else start_agent deps env spec (record s { manual_stop = false })
start_as process deps env spec s =
    if is_some s.child || is_some s.restart_timer || is_starting s.state
    then s
    else spawn_once env spec (record s { manual_stop = false })

unfoldable pub start : Deps → Env → SpawnSpec → Supervisor → Supervisor
unfolding start_as
start deps env spec s = start_as spec.runner deps env spec (record s { last_spec = some spec })

-- The agent branch of `stop`.
unfoldable pub stop_agent : Deps → Env → SpawnSpec → Supervisor → Supervisor
unfolding enqueue_agent start_agent
stop_agent deps env spec s0 =
    let s = enqueue_agent deps s0 in
    if s.restart_requested
    then start_agent deps env spec (fresh_cold env s)
    else to_state env cold s

-- The docker branch of `stop`: the container's end comes later, as an event.
unfoldable pub stop_docker : Deps → Env → Supervisor → Supervisor
stop_docker deps env s0 =
    let s = record s0 { container_id = none } in
    elim s0.container_id [
      | none ↦ to_state env cold s
      | some cid ↦ if deps.docker_wired then emit (stop_container cid) s else to_state env cold s
    ]

-- The process branch of `stop`: with a child, the exit comes later, as an event.
unfoldable pub stop_process : Env → Supervisor → Supervisor
unfolding kill_tree clear_pid_file
stop_process env s = if is_some s.child then kill_tree s else to_state env cold (clear_pid_file s)

-- The start of `stop`: the launch chains in flight become stale, and the timers are cleared.
abbrev pub invalidate : Supervisor → Supervisor
invalidate s = record s {
  manual_stop = true;
  launch_gen = suc s.launch_gen;
  restart_timer = none;
  ready_timer = none;
}

unfoldable pub stop_as : Option SpawnSpec → Deps → Env → Supervisor → Supervisor
unfolding stop_agent stop_docker stop_process
stop_as none deps env s = stop_process env s
stop_as (some spec) deps env s = elim spec.runner [
  | process ↦ stop_process env s
  | docker ↦ stop_docker deps env s
  | agent ↦ stop_agent deps env spec s
]

unfoldable pub stop : Deps → Env → Supervisor → Supervisor
unfolding stop_as
stop deps env s = stop_as s.last_spec deps env (invalidate s)

unfoldable pub restart_as : Runner → Deps → Env → SpawnSpec → Supervisor → Supervisor
unfolding start stop
restart_as agent deps env spec s = stop deps env (record s { restart_requested = true })
restart_as _ deps env spec s =
    if is_some s.child || is_some s.container_id || is_some s.restart_timer
    then stop deps env (record s { restart_requested = true })
    else start deps env spec s

unfoldable pub restart : Deps → Env → SpawnSpec → Supervisor → Supervisor
unfolding restart_as
restart deps env spec s = restart_as spec.runner deps env spec (record s { last_spec = some spec })

-- The tail of `resume`, by runner.
unfoldable pub resume_as : Runner → Deps → Env → SpawnSpec → Supervisor → Supervisor
unfolding restart start_agent start_docker spawn_once
resume_as agent deps env spec s = start_agent deps env spec s
resume_as docker deps env spec s =
    if is_offline s.state then restart deps env spec s else start_docker deps env spec s
resume_as process deps env spec s =
    if is_offline s.state
    then restart deps env spec s
    else if is_some s.child
    then s
    else spawn_once env spec s

unfoldable pub resume : Deps → Env → SpawnSpec → Supervisor → Supervisor
unfolding resume_as
resume deps env spec s0 =
    let s = record s0 { last_spec = some spec } in
    if s.manual_stop
      || is_live s.state
      || is_some s.restart_timer
      || is_starting s.state
      || is_restarting s.state
    then s
    else resume_as spec.runner deps env spec s

unfoldable pub adopt : Env → SpawnSpec → String → Supervisor → Supervisor
unfolding arm_ready_probe
adopt env spec cid s = arm_ready_probe env spec (record s {
  last_spec = some spec;
  container_id = some cid;
  manual_stop = false;
  launch_gen = suc s.launch_gen;
  status = record (s.status) { state = starting; status_error = none; state_since = env.now };
})
