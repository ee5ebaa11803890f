-- ===== src/Nodes/Supervisor/Restarting.antt =====
-- src/nodes/supervisor.ts: the intentional restart.
use hellodac.Prelude.{ℕ, ◌≡◌, ◌≢◌, true, false, Option, none, some, arith, is_some}
use hellodac.Nodes.Supervisor.State.{cold, starting, process, agent, SpawnSpec, Supervisor, Deps}
use hellodac.Nodes.Supervisor.Launch.{Env, throws_nowhere, throws_early, throws_on_pid_file}
use hellodac.Nodes.Supervisor.Commands.{start, stop, restart}
use hellodac.Nodes.Supervisor.Events.{child_exit}

-- The node comes up with a clean record: no failures counted and no flag left.
pub record IsRelaunched (s : Supervisor) : Type 0 where
  pub up : s.state ≡ starting
  pub clean : s.attempts ≡ 0
  pub not_stopped : s.manual_stop ≡ false
  pub answered : s.restart_requested ≡ false

-- The child of a spawn.
abbrev pub child_of : Env → ℕ → Option (ℕ × Option ℕ)
child_of env h = elim env.throws [
  | throws_early ↦ none
  | throws_on_pid_file ↦ some (h, env.spawned_pid)
  | throws_nowhere ↦ some (h, env.spawned_pid)
]

-- A restart that comes while the node waits for a retry is lost: with a timer armed and neither a
-- child nor a container, the node goes cold, the timer is cleared and nothing is launched, and the
-- request stays marked beside a stop that no operator made.
pub restart_lost :
    (deps : Deps) (env : Env) (spec : SpawnSpec) (s : Supervisor)
    → spec.runner ≢ agent
    → is_some s.restart_timer ≡ true
    → s.child ≡ none
    → s.container_id ≡ none
    → let t = restart deps env spec s in
      (t.state ≡ cold)
      × (t.restart_timer ≡ none)
      × (t.child ≡ none)
      × (t.container_id ≡ none)
      × (t.manual_stop ≡ true)
      × (t.restart_requested ≡ true)
unfolding restart
restart_lost deps env spec s r t c d = ground arith

-- After a lost restart, a process that is started, where the spawn does not throw, and then stopped comes back when its child exits.
stop_after_lost_restart :
    (deps : Deps) (env later : Env) (spec : SpawnSpec) (s : Supervisor)
    → spec.runner ≡ process
    → env.throws ≡ throws_nowhere
    → is_some s.restart_timer ≡ true
    → s.child ≡ none
    → s.container_id ≡ none
    → let t = stop deps env (start deps env spec (restart deps env spec s)) in
      (child_exit later s.next_handle spec t).state ≡ starting
unfolding restart start stop child_exit
stop_after_lost_restart deps env later spec s r n t c d = ground arith
