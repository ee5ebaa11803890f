-- ===== src/Nodes/Supervisor/Failures.antt =====
-- src/nodes/supervisor.ts: process nodes between any two steps, and crash loops.
use hellodac.Prelude.{
  Bool, false, ℕ, ◌<◌, ◌≡◌, true, ◌||◌, Option, none, some, List, [], ◌∷◌, arith, is_some, String,
}
use hellodac.Nodes.Supervisor.State.{
  Effect, spawn_threw, live, process, SpawnSpec, Retry, retry_process, retry_docker, retry_agent,
  Supervisor, Deps, is_starting, is_live, is_offline, is_restarting, new,
}
use hellodac.Nodes.Supervisor.Launch.{Env, on_exit}
use hellodac.Nodes.Supervisor.Commands.{start, stop, restart, resume}
use hellodac.Nodes.Supervisor.Events.{
  ProbeResult, ready_result, ready_timer_fires, restart_timer_fires, child_exit, child_error,
  probe_live_begin, probe_live_end,
}

-- An armed timer launches a process whose failures so far are at least one and below its maximum.
abbrev TimerOk : Option Retry → ℕ → Type 0
TimerOk none attempts = Unit
TimerOk (some (retry_process spec)) attempts =
    (spec.runner ≡ process) × (0 < attempts) × (attempts < spec.max_attempts)
TimerOk (some (retry_docker spec)) attempts = ⊥
TimerOk (some (retry_agent spec)) attempts = ⊥

abbrev ProcessSpec : Option SpawnSpec → Type 0
ProcessSpec none = Unit
ProcessSpec (some spec) = spec.runner ≡ process

-- A spawn threw.
abbrev pub threw : List Effect → Bool
threw [] = false
threw (spawn_threw spec ∷ es) = true
threw (e ∷ es) = threw es

pub record IsSound (s : Supervisor) : Type 0 where
  pub spec_process : ProcessSpec s.last_spec
  pub timer_ok : TimerOk s.restart_timer s.attempts
  -- A timer is armed while the node waits to be restarted, and else only while it is offline.
  pub restarting_timer : is_restarting s.state ≡ true → is_some s.restart_timer ≡ true
  pub timer_state :
      is_some s.restart_timer ≡ true → is_restarting s.state || is_offline s.state ≡ true
  pub timer_child : is_some s.restart_timer ≡ true → s.child ≡ none
  pub running_child :
      is_starting s.state || is_live s.state ≡ true → is_some s.child || threw s.effects ≡ true
  pub live_clean : s.state ≡ live → s.attempts ≡ 0

-- One step of a process node: a command, or an event. `probe_ended` is the end of a liveness probe,
-- whatever became of the node in the meantime.
pub data Step (deps : Deps) (env : Env) (s : Supervisor) : Supervisor → Type 0 where
  started : (spec : SpawnSpec) → spec.runner ≡ process → Step deps env s (start deps env spec s)
  stopped : Step deps env s (stop deps env s)
  restarted : (spec : SpawnSpec) → spec.runner ≡ process → Step deps env s (restart deps env spec s)
  resumed : (spec : SpawnSpec) → spec.runner ≡ process → Step deps env s (resume deps env spec s)
  ready :
      (spec : SpawnSpec) (deadline : ℕ) (r : ProbeResult)
      → spec.runner ≡ process
      → Step deps env s (ready_result deps env spec deadline r s)
  ready_fired : Step deps env s (ready_timer_fires s)
  restart_fired : Step deps env s (restart_timer_fires deps env s)
  exits :
      (h : ℕ) (spec : SpawnSpec) → spec.runner ≡ process → Step deps env s (child_exit env h spec s)
  fails :
      (h : ℕ) (spec : SpawnSpec) (m : String)
      → spec.runner ≡ process
      → Step deps env s (child_error env h spec m s)
  probe_began : Step deps env s (probe_live_begin s)
  probe_ended : (r : ProbeResult) → Step deps env s (probe_live_end env r s)

start-IsSound :
    (deps : Deps) (env : Env) (s : Supervisor) (spec : SpawnSpec)
    → spec.runner ≡ process
    → IsSound s
    → IsSound (start deps env spec s)
unfolding start
start-IsSound deps env s spec p v = ground arith

stop-IsSound : (deps : Deps) (env : Env) (s : Supervisor) → IsSound s → IsSound (stop deps env s)
unfolding stop
stop-IsSound deps env s v = ground arith

restart-IsSound :
    (deps : Deps) (env : Env) (s : Supervisor) (spec : SpawnSpec)
    → spec.runner ≡ process
    → IsSound s
    → IsSound (restart deps env spec s)
unfolding restart
restart-IsSound deps env s spec p v = ground arith

resume-IsSound :
    (deps : Deps) (env : Env) (s : Supervisor) (spec : SpawnSpec)
    → spec.runner ≡ process
    → IsSound s
    → IsSound (resume deps env spec s)
unfolding resume
resume-IsSound deps env s spec p v = ground arith

ready_result-IsSound :
    (deps : Deps) (env : Env) (s : Supervisor) (spec : SpawnSpec) (d : ℕ) (r : ProbeResult)
    → spec.runner ≡ process
    → IsSound s
    → IsSound (ready_result deps env spec d r s)
unfolding ready_result
ready_result-IsSound deps env s spec d r p v = ground arith

on_exit-IsSound :
    (env : Env) (s : Supervisor) (spec : SpawnSpec)
    → spec.runner ≡ process
    → is_some s.child ≡ true
    → IsSound s
    → IsSound (on_exit env spec s)
unfolding on_exit
on_exit-IsSound env s spec p c v = ground arith

child_exit-IsSound :
    (env : Env) (s : Supervisor) (h : ℕ) (spec : SpawnSpec)
    → spec.runner ≡ process
    → IsSound s
    → IsSound (child_exit env h spec s)
unfolding child_exit
child_exit-IsSound env s h spec p v = ground arith

child_error-IsSound :
    (env : Env) (s : Supervisor) (h : ℕ) (spec : SpawnSpec) (m : String)
    → spec.runner ≡ process
    → IsSound s
    → IsSound (child_error env h spec m s)
unfolding child_error
child_error-IsSound env s h spec m p v = ground arith

restart_timer_fires-IsSound :
    (deps : Deps) (env : Env) (s : Supervisor)
    → IsSound s
    → IsSound (restart_timer_fires deps env s)
unfolding restart_timer_fires
restart_timer_fires-IsSound deps env s v = ground arith

probe_live_end-IsSound :
    (env : Env) (s : Supervisor) (r : ProbeResult) → IsSound s → IsSound (probe_live_end env r s)
unfolding probe_live_end
probe_live_end-IsSound env s r v = ground arith

-- Every command and every event keeps a process node sound.
pub Step-IsSound :
    {deps : Deps} {env : Env} {s t : Supervisor} → Step deps env s t → IsSound s → IsSound t
unfolding ready_timer_fires probe_live_begin
Step-IsSound {deps} {env} {s} (started spec p) v = start-IsSound deps env s spec p v
Step-IsSound {deps} {env} {s} stopped v = stop-IsSound deps env s v
Step-IsSound {deps} {env} {s} (restarted spec p) v = restart-IsSound deps env s spec p v
Step-IsSound {deps} {env} {s} (resumed spec p) v = resume-IsSound deps env s spec p v
Step-IsSound {deps} {env} {s} (ready spec d r p) v = ready_result-IsSound deps env s spec d r p v
Step-IsSound {deps} {env} {s} ready_fired v = ground arith
Step-IsSound {deps} {env} {s} restart_fired v = restart_timer_fires-IsSound deps env s v
Step-IsSound {deps} {env} {s} (exits h spec p) v = child_exit-IsSound env s h spec p v
Step-IsSound {deps} {env} {s} (fails h spec m p) v = child_error-IsSound env s h spec m p v
Step-IsSound {deps} {env} {s} probe_began v = ground arith
Step-IsSound {deps} {env} {s} (probe_ended r) v = probe_live_end-IsSound env s r v

-- The states that a process node gets to from its construction.
pub data Reach (deps : Deps) (now : ℕ) : Supervisor → Type 0 where
  built : Reach deps now (new now)
  next : {s t : Supervisor} (env : Env) → Reach deps now s → Step deps env s t → Reach deps now t

-- In every state that a process node reaches, by commands, exits, timers and probes in any order, the
-- late ends of liveness probes included: a restarting node has its restart timer armed, and the timer
-- is armed only while the node is restarting or offline; then the node has no child, and the timer's
-- launch follows at least one failure and fewer failures than its maximum; a starting or live node
-- has a child, unless a spawn threw; a live node has no failures.
pub Reach-IsSound : {deps : Deps} {now : ℕ} {s : Supervisor} → Reach deps now s → IsSound s
unfolding new
Reach-IsSound built = ground arith
Reach-IsSound (next env r step) = Step-IsSound step (Reach-IsSound r)
