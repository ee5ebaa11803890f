-- ===== src/Nodes/Supervisor/State.antt =====
-- src/nodes/supervisor.ts: the state of `NodeSupervisor`, what it asks of the outside, and its
-- dependencies.
use hellodac.Prelude.{ℕ, Bool, true, false, Option, none, List, [], ◌∷◌, String}

pub data NodeState : Type 0 where
  cold starting live restarting offline : NodeState

pub data Runner : Type 0 where
  process docker agent : Runner

-- The fields of `ResolvedSpawnSpec` that the lifecycle reads.
pub record SpawnSpec : Type 0 where
  pub runner : Runner
  pub docker_image : Option String
  pub host : Option String
  pub log_file : Option String
  pub ready_timeout_ms : ℕ
  pub max_attempts : ℕ
  pub base_delay_ms : ℕ
  pub max_delay_ms : ℕ

-- The texts of `lastError`, with the values that they quote.
pub data NodeError : Type 0 where
  live_probe_failed : ℕ → String → NodeError
  not_ready_within : ℕ → String → NodeError
  docker_not_wired agent_not_wired : NodeError
  docker_start_failed agent_start_failed : NodeError
  start_threw : String → NodeError
  agent_reported_failure exited : NodeError
  spawn_failed : String → NodeError

-- Which launch a restart timer will make.
pub data Retry : Type 0 where
  retry_process retry_docker retry_agent : SpawnSpec → Retry

-- What the supervisor asks of the outside. A launch chain carries its generation. `spawn_threw` is the
-- exception that leaves `spawnOnce`.
pub data Effect : Type 0 where
  spawn_process spawn_threw : SpawnSpec → Effect
  kill_process : ℕ → Effect
  remove_pid_file : String → Effect
  start_container : ℕ → SpawnSpec → Effect
  stop_container : String → Effect
  spawn_on_agent : ℕ → SpawnSpec → Effect
  stop_on_agent : SpawnSpec → Effect
  probe_ready : SpawnSpec → ℕ → Effect
  probe_live : Effect
  retry_after : ℕ → Effect

pub record NodeStatus : Type 0 where
  pub state : NodeState
  pub pid : Option ℕ
  pub attempts : ℕ
  pub status_error : Option NodeError
  pub started_at : Option ℕ
  pub state_since : ℕ

-- `ready_timer` holds what the poll closes over. `effects` is the record of all requests, newest
-- first; it stands for the calls of `deps` and of the node libraries.
pub record Supervisor : Type 0 where
  pub status : NodeStatus
  pub open status use *
  pub child : Option (ℕ × Option ℕ)  -- a handle, and the pid unless the spawn failed
  pub next_handle : ℕ
  pub container_id : Option String
  pub last_spec : Option SpawnSpec
  pub launch_gen : ℕ
  pub ready_timer : Option (SpawnSpec × ℕ)
  pub restart_timer : Option Retry
  pub manual_stop : Bool
  pub restart_requested : Bool
  pub last_error : Option NodeError
  pub pid_file : Option String
  pub live_probe_failures : ℕ
  pub effects : List Effect

-- Which of the optional dependencies are wired up.
pub record Deps : Type 0 where
  pub docker_wired : Bool
  pub agent_wired : Bool

-- The constructor.
unfoldable pub new : ℕ → Supervisor
new now = record {
  status = record {
    state = cold;
    pid = none;
    attempts = 0;
    status_error = none;
    started_at = none;
    state_since = now;
  };
  child = none;
  next_handle = 0;
  container_id = none;
  last_spec = none;
  launch_gen = 0;
  ready_timer = none;
  restart_timer = none;
  manual_stop = false;
  restart_requested = false;
  last_error = none;
  pid_file = none;
  live_probe_failures = 0;
  effects = [];
}

abbrev pub emit : Effect → Supervisor → Supervisor
emit e s = record s { effects = e ∷ s.effects }

abbrev pub is_starting : NodeState → Bool
is_starting starting = true
is_starting _ = false

abbrev pub is_live : NodeState → Bool
is_live live = true
is_live _ = false

abbrev pub is_offline : NodeState → Bool
is_offline offline = true
is_offline _ = false

abbrev pub is_restarting : NodeState → Bool
is_restarting restarting = true
is_restarting _ = false
