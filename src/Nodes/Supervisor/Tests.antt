-- ===== src/Nodes/Supervisor/Tests.antt =====
-- Runs of the supervisor on concrete nodes.
use hellodac.Prelude.{◌≡◌, ◌<◌, ◌+◌, any, false, refl, true, none, some, [], ◌∷◌, arith}
use hellodac.Nodes.Supervisor.State.{
  cold, starting, offline, process, SpawnSpec, retry_process, Supervisor, Deps, new,
}
use hellodac.Nodes.Supervisor.Launch.{Env, throws_nowhere, on_exit}
use hellodac.Nodes.Supervisor.Commands.{start, stop, restart}
use hellodac.Nodes.Supervisor.Events.{child_exit, probe_live_end, ready_result}
use hellodac.Nodes.Supervisor.Failures.{
  IsSound, built, next, started, exits, probe_ended as late_probe, Reach-IsSound,
}
use hellodac.Nodes.Supervisor.Crashes.{
  child_dies, crash_loop, Running, Waits, GaveUp, crash_loop_ends,
}
use hellodac.Nodes.Supervisor.Stopping.{
  IsStopped, IsDown, IsQuiet, is_down, fails_probe, outside_all, resumed, ready_fired, probe_ended,
  restart_fired as timer_fired, stop_stays,
}
use hellodac.Nodes.Supervisor.Restarting.{restart_lost}
use hellodac.Nodes.Supervisor.Probing.{
  three_in_a_row, probe_rounds, probe_rounds_state, late_probe_undoes_stop,
}

abbrev wired : Deps
wired = record { docker_wired = true; agent_wired = true }

abbrev env : Env
env = record { now = 100; spawned_pid = some 41; throws = throws_nowhere }

abbrev spec : SpawnSpec
spec = record {
  runner = process;
  docker_image = some "img";
  host = some "m1";
  log_file = some "node.log";
  ready_timeout_ms = 5000;
  max_attempts = 2;
  base_delay_ms = 10;
  max_delay_ms = 50;
}

node : Supervisor
unfolding new
node = new 0

booted : Supervisor
unfolding new start
booted = start wired env spec (new 0)

up : Supervisor
unfolding booted ready_result
up = ready_result wired env spec 5100 none booted

waiting : Supervisor
unfolding booted on_exit
waiting = on_exit env spec booted

waits : waiting.restart_timer ≡ some (retry_process spec)
unfolding waiting
waits = refl

Reach-IsSound_example :
    IsSound
      (probe_live_end env (some "late") (child_exit env 0 spec (start wired env spec (new 0))))
Reach-IsSound_example = Reach-IsSound (
    next env (next env (next env built (started spec refl)) (exits 0 spec refl))
      (late_probe (some "late")))

crash_loop_ends_example :
    let t = crash_loop wired spec (env ∷ []) booted in
    let exited = child_dies env spec t in
    Running 1 (1 + 1) t
    × (2 < spec.max_attempts → Waits spec 2 (1 + 1) exited)
    × (2 ≡ spec.max_attempts → GaveUp 2 (1 + 1) exited)
unfolding booted
crash_loop_ends_example =
    crash_loop_ends wired spec (env ∷ []) env booted 1
      (record {
        starts = refl;
        failed = refl;
        wanted = refl;
        no_timer = refl;
        has_child = refl;
        launched = refl;
      })
      (omega arith) (refl, tt)

stop_stays_example :
    let t = outside_all wired (ready_fired ∷ []) (stop wired env waiting) in
    let after = timer_fired env ∷ probe_ended env none ∷ resumed env spec ∷ [] in
    IsStopped t
    × (is_down t.state ≡ true → IsDown (outside_all wired after t))
    × (t.state ≡ cold → any fails_probe after ≡ false → IsQuiet (outside_all wired after t))
unfolding waiting
stop_stays_example =
    stop_stays wired env waiting (ready_fired ∷ [])
      (timer_fired env ∷ probe_ended env none ∷ resumed env spec ∷ []) refl

restart_lost_example :
    let t = restart wired env spec waiting in
    (t.state ≡ cold)
    × (t.restart_timer ≡ none)
    × (t.child ≡ none)
    × (t.container_id ≡ none)
    × (t.manual_stop ≡ true)
    × (t.restart_requested ≡ true)
unfolding waiting
restart_lost_example = restart_lost wired env spec waiting (λ e. cc) refl refl refl

probe_rounds_state_example :
    (probe_rounds env (some "x" ∷ none ∷ some "x" ∷ some "y" ∷ some "z" ∷ none ∷ []) up).state
    ≡ offline
unfolding up three_in_a_row
probe_rounds_state_example =
    probe_rounds_state env (some "x" ∷ none ∷ some "x" ∷ some "y" ∷ some "z" ∷ none ∷ []) up refl
      refl

stopped_late : Supervisor
unfolding node
stopped_late = record node { manual_stop = true; live_probe_failures = 2 }

late_probe_undoes_stop_example :
    let t = probe_live_end env (some "down") stopped_late in
    (t.state ≡ offline) × ((restart wired env spec t).state ≡ starting)
unfolding stopped_late
late_probe_undoes_stop_example =
    late_probe_undoes_stop wired env spec stopped_late "down" refl refl refl refl refl refl
      (omega arith)
