-- ===== src/Nodes/Supervisor/Launch.antt =====
-- src/nodes/supervisor.ts: the launch chains of `NodeSupervisor`, and what follows a failed launch
-- or an exit.
use hellodac.Prelude.{
  ℕ, suc, ◌+◌, Bool, false, ◌&&◌, Option, none, some, if◌then◌else◌, or_default, is_some, String,
}
use hellodac.Nodes.Policy.{decide_after_exit, to_offline, backoff_delay_ms}
use hellodac.Nodes.Supervisor.State.{
  NodeState, cold, starting, restarting, offline, SpawnSpec, NodeError, docker_not_wired,
  agent_not_wired, docker_start_failed, agent_start_failed, exited, Retry, retry_process,
  retry_docker, retry_agent, Effect, spawn_process, spawn_threw, kill_process, remove_pid_file,
  start_container, spawn_on_agent, stop_on_agent, probe_ready, retry_after, Supervisor, Deps, emit,
  is_starting,
}

-- Where `spawnOnce` throws: nowhere; in `openSync` or `spawn`, before there is a child; or when it writes
-- the pid file.
pub data SpawnThrow : Type 0 where
  throws_nowhere throws_early throws_on_pid_file : SpawnThrow

-- The clock, the pid that the system gives to a process spawned now (none if the spawn fails), and
-- whether it throws.
pub record Env : Type 0 where
  pub now : ℕ
  pub spawned_pid : Option ℕ
  pub throws : SpawnThrow

-- The inner function `poll` of `armReadyProbe`.
unfoldable pub poll : SpawnSpec → ℕ → Supervisor → Supervisor
poll spec deadline s = if is_starting s.state then emit (probe_ready spec deadline) s else s

unfoldable pub arm_ready_probe : Env → SpawnSpec → Supervisor → Supervisor
unfolding poll
arm_ready_probe env spec s = poll spec (env.now + spec.ready_timeout_ms) s

-- The pid file stands beside the log file; it is written only when there is a pid.
abbrev pub pid_file_of : SpawnSpec → Option ℕ → Option String → Option String
pid_file_of spec none old = old
pid_file_of spec (some pid) old = elim spec.log_file [ none ↦ old | some file ↦ some file ]

-- Whether the pid file is written.
abbrev pub writes_pid : SpawnSpec → Option ℕ → Bool
writes_pid spec pid = is_some pid && is_some spec.log_file

-- `spawnOnce` once it has a child, up to the pid file.
abbrev pub spawned : Env → SpawnSpec → Supervisor → Supervisor
spawned env spec s = emit (spawn_process spec) (record s {
  status = record (s.status) { pid = env.spawned_pid; started_at = some env.now };
  child = some (s.next_handle, env.spawned_pid);
  next_handle = suc s.next_handle;
  pid_file = pid_file_of spec env.spawned_pid s.pid_file;
})

unfoldable pub spawn_once : Env → SpawnSpec → Supervisor → Supervisor
unfolding arm_ready_probe
spawn_once env spec s0 =
    let s = record s0 {
      status = record (s0.status) { state = starting; status_error = none; state_since = env.now };
    } in
    elim env.throws [
      | throws_early ↦ emit (spawn_threw spec) s
      | throws_on_pid_file ↦
          if writes_pid spec env.spawned_pid
          then emit (spawn_threw spec) (spawned env spec s)
          else arm_ready_probe env spec (spawned env spec s)
      | throws_nowhere ↦ arm_ready_probe env spec (spawned env spec s)
    ]

-- The early return of `startDocker` and `startAgent`.
abbrev pub not_wired : Env → NodeError → Supervisor → Supervisor
not_wired env e s = record s {
  last_error = some e;
  status = record (s.status) { state = offline; status_error = some e; state_since = env.now };
}

-- A new generation starts; the effect is the chain that was begun with it.
abbrev pub launch : Env → (ℕ → Effect) → Supervisor → Supervisor
launch env chain s = emit (chain (suc s.launch_gen)) (record s {
  status = record (s.status) { state = starting; status_error = none; state_since = env.now };
  launch_gen = suc s.launch_gen;
})

unfoldable pub start_docker : Deps → Env → SpawnSpec → Supervisor → Supervisor
start_docker deps env spec s =
    if deps.docker_wired && is_some spec.docker_image
    then launch env (λ gen. start_container gen spec) s
    else not_wired env docker_not_wired s

unfoldable pub start_agent : Deps → Env → SpawnSpec → Supervisor → Supervisor
start_agent deps env spec s =
    if deps.agent_wired && is_some spec.host
    then launch env (λ gen. spawn_on_agent gen spec) s
    else not_wired env agent_not_wired s

unfoldable pub enqueue_agent : Deps → Supervisor → Supervisor
enqueue_agent deps s = elim s.last_spec [
  | none ↦ s
  | some spec ↦ if deps.agent_wired && is_some spec.host then emit (stop_on_agent spec) s else s
]

-- `kill_tree` returns early without a child or a pid.
unfoldable pub kill_tree : Supervisor → Supervisor
kill_tree s = elim s.child [
  | none ↦ s
  | some (h, p) ↦ elim p [ none ↦ s | some pid ↦ emit (kill_process pid) s ]
]

unfoldable pub clear_pid_file : Supervisor → Supervisor
clear_pid_file s = elim s.pid_file [
  | none ↦ s
  | some file ↦ emit (remove_pid_file file) (record s { pid_file = none })
]

abbrev pub to_state : Env → NodeState → Supervisor → Supervisor
to_state env state s = record s {
  status = record (s.status) { state = state; pid = none; state_since = env.now };
}

-- The bookkeeping that a failed launch and an unexpected exit share.
abbrev pub count_failure : Env → NodeError → Supervisor → Supervisor
count_failure env fallback s = record s {
  status = record (s.status) {
    pid = none;
    attempts = s.attempts + 1;
    status_error = some (or_default s.last_error fallback);
    started_at = none;
    state_since = env.now;
  };
}

abbrev pub set_state : NodeState → Supervisor → Supervisor
set_state state s = record s { status = record (s.status) { state = state } }

-- Goes to `restarting` and arms the timer.
abbrev pub schedule : SpawnSpec → Retry → Supervisor → Supervisor
schedule spec retry s =
    emit (retry_after (backoff_delay_ms s.attempts spec.base_delay_ms spec.max_delay_ms))
      (record s { status = record (s.status) { state = restarting }; restart_timer = some retry })

unfoldable pub fail_and_retry : Env → SpawnSpec → NodeError → Retry → Supervisor → Supervisor
unfolding decide_after_exit
fail_and_retry env spec fallback retry s =
    if s.manual_stop
    then to_state env cold s
    else (elim (decide_after_exit (s.attempts + 1) spec.max_attempts false) [
      | to_offline ↦ set_state offline (count_failure env fallback s)
      | _ ↦ schedule spec retry (count_failure env fallback s)
    ])

unfoldable pub after_docker_failure : Env → SpawnSpec → Supervisor → Supervisor
unfolding fail_and_retry
after_docker_failure env spec s = fail_and_retry env spec docker_start_failed (retry_docker spec) s

unfoldable pub after_agent_failure : Env → SpawnSpec → Supervisor → Supervisor
unfolding fail_and_retry
after_agent_failure env spec s = fail_and_retry env spec agent_start_failed (retry_agent spec) s

-- The end of a stop: an intentional restart comes back, another goes cold.
abbrev pub fresh_cold : Env → Supervisor → Supervisor
fresh_cold env s = record s {
  restart_requested = false;
  manual_stop = false;
  status = record (s.status) { state = cold; pid = none; attempts = 0; state_since = env.now };
}

unfoldable pub on_exit : Env → SpawnSpec → Supervisor → Supervisor
unfolding clear_pid_file spawn_once decide_after_exit
on_exit env spec s0 =
    let s = record s0 { child = none; ready_timer = none } in
    if s.manual_stop
    then (if s.restart_requested
        then spawn_once env spec (fresh_cold env (clear_pid_file s))
        else to_state env cold (clear_pid_file s))
    else (elim (decide_after_exit (s.attempts + 1) spec.max_attempts false) [
      | to_offline ↦ set_state offline (clear_pid_file (count_failure env exited s))
      | _ ↦ schedule spec (retry_process spec) (count_failure env exited s)
    ])
