-- ===== src/Nodes/Supervisor/Stopping.antt =====
-- src/nodes/supervisor.ts: what happens after a stop that an operator asked for.
use hellodac.Prelude.{
  ℕ, ◌≡◌, Bool, true, false, Option, none, some, List, [], ◌∷◌, arith, any, String,
}
use hellodac.Nodes.Supervisor.State.{NodeState, cold, offline, process, SpawnSpec, Supervisor, Deps}
use hellodac.Nodes.Supervisor.Launch.{Env}
use hellodac.Nodes.Supervisor.Commands.{stop, resume}
use hellodac.Nodes.Supervisor.Events.{
  ProbeResult, ready_result, ready_timer_fires, restart_timer_fires, child_exit, child_error,
  probe_live_begin, probe_live_end, docker_started, docker_failed, docker_stopped, agent_result,
}

-- What the outside does to a stopped node. `chain` events carry the generation of a launch that
-- began before the stop; `resumed` is the return of the node's machine.
pub data Outside : Type 0 where
  ready : Env → SpawnSpec → ℕ → ProbeResult → Outside
  ready_fired : Outside
  restart_fired : Env → Outside
  exits : Env → ℕ → SpawnSpec → Outside
  fails : Env → ℕ → SpawnSpec → String → Outside
  container_up : Env → ℕ → SpawnSpec → String → Outside
  container_failed : Env → ℕ → SpawnSpec → String → Outside
  container_down : Env → SpawnSpec → Outside
  agent_answers : Env → ℕ → SpawnSpec → Bool → Outside
  probe_began : Outside
  probe_ended : Env → ProbeResult → Outside
  resumed : Env → SpawnSpec → Outside

pub outside : Deps → Outside → Supervisor → Supervisor
outside deps (ready env spec d r) s = ready_result deps env spec d r s
outside deps ready_fired s = ready_timer_fires s
outside deps (restart_fired env) s = restart_timer_fires deps env s
outside deps (exits env h spec) s = child_exit env h spec s
outside deps (fails env h spec m) s = child_error env h spec m s
outside deps (container_up env gen spec cid) s = docker_started env gen spec cid s
outside deps (container_failed env gen spec m) s = docker_failed env gen spec m s
outside deps (container_down env spec) s = docker_stopped deps env spec s
outside deps (agent_answers env gen spec ok) s = agent_result env gen spec ok s
outside deps probe_began s = probe_live_begin s
outside deps (probe_ended env r) s = probe_live_end env r s
outside deps (resumed env spec) s = resume deps env spec s

-- A stopped node: cold, or on its way to it while the old process or container goes down.
pub record IsStopped (s : Supervisor) : Type 0 where
  pub by_hand : s.manual_stop ≡ true
  pub no_restart : s.restart_requested ≡ false
  pub no_retry : s.restart_timer ≡ none

-- Neither running nor about to.
abbrev pub is_down : NodeState → Bool
is_down cold = true
is_down offline = true
is_down _ = false

pub record IsDown (s : Supervisor) : Type 0 where
  pub stopped : IsStopped s
  pub down_now : is_down s.state ≡ true

-- A liveness probe that was under way ends with a failure.
abbrev pub fails_probe : Outside → Bool
fails_probe (probe_ended env (some detail)) = true
fails_probe o = false

pub record IsQuiet (s : Supervisor) : Type 0 where
  pub stopped : IsStopped s
  pub cold_now : s.state ≡ cold

pub stop-IsStopped :
    (deps : Deps) (env : Env) (s : Supervisor)
    → s.restart_requested ≡ false
    → IsStopped (stop deps env s)
unfolding stop
stop-IsStopped deps env s e = ground arith

outside-IsStopped :
    (deps : Deps) (o : Outside) (s : Supervisor) → IsStopped s → IsStopped (outside deps o s)
unfolding outside
outside-IsStopped deps (ready env spec d r) s v = unfold ready_result in ground arith
outside-IsStopped deps ready_fired s v = unfold ready_timer_fires in ground arith
outside-IsStopped deps (restart_fired env) s v = unfold restart_timer_fires in ground arith
outside-IsStopped deps (exits env h spec) s v = unfold child_exit in ground arith
outside-IsStopped deps (fails env h spec m) s v = unfold child_error in ground arith
outside-IsStopped deps (container_up env gen spec cid) s v = unfold docker_started in ground arith
outside-IsStopped deps (container_failed env gen spec m) s v = unfold docker_failed in ground arith
outside-IsStopped deps (container_down env spec) s v = unfold docker_stopped in ground arith
outside-IsStopped deps (agent_answers env gen spec ok) s v = unfold agent_result in ground arith
outside-IsStopped deps probe_began s v = unfold probe_live_begin in ground arith
outside-IsStopped deps (probe_ended env r) s v = unfold probe_live_end in ground arith
outside-IsStopped deps (resumed env spec) s v = unfold resume in ground arith

outside-down :
    (deps : Deps) (o : Outside) (s : Supervisor)
    → IsDown s
    → is_down (outside deps o s).state ≡ true
unfolding outside
outside-down deps (ready env spec d r) s v = unfold ready_result in ground arith
outside-down deps ready_fired s v = unfold ready_timer_fires in ground arith
outside-down deps (restart_fired env) s v = unfold restart_timer_fires in ground arith
outside-down deps (exits env h spec) s v = unfold child_exit in ground arith
outside-down deps (fails env h spec m) s v = unfold child_error in ground arith
outside-down deps (container_up env gen spec cid) s v = unfold docker_started in ground arith
outside-down deps (container_failed env gen spec m) s v = unfold docker_failed in ground arith
outside-down deps (container_down env spec) s v = unfold docker_stopped in ground arith
outside-down deps (agent_answers env gen spec ok) s v = unfold agent_result in ground arith
outside-down deps probe_began s v = unfold probe_live_begin in ground arith
outside-down deps (resumed env spec) s v = unfold resume in ground arith
outside-down deps (probe_ended env r) s v = unfold probe_live_end in ground arith

outside-cold :
    (deps : Deps) (o : Outside) (s : Supervisor)
    → fails_probe o ≡ false
    → IsQuiet s
    → (outside deps o s).state ≡ cold
unfolding outside
outside-cold deps (ready env spec d r) s f v = unfold ready_result in ground arith
outside-cold deps ready_fired s f v = unfold ready_timer_fires in ground arith
outside-cold deps (restart_fired env) s f v = unfold restart_timer_fires in ground arith
outside-cold deps (exits env h spec) s f v = unfold child_exit in ground arith
outside-cold deps (fails env h spec m) s f v = unfold child_error in ground arith
outside-cold deps (container_up env gen spec cid) s f v = unfold docker_started in ground arith
outside-cold deps (container_failed env gen spec m) s f v = unfold docker_failed in ground arith
outside-cold deps (container_down env spec) s f v = unfold docker_stopped in ground arith
outside-cold deps (agent_answers env gen spec ok) s f v = unfold agent_result in ground arith
outside-cold deps probe_began s f v = unfold probe_live_begin in ground arith
outside-cold deps (resumed env spec) s f v = unfold resume in ground arith
outside-cold deps (probe_ended env none) s f v = unfold probe_live_end in ground arith
outside-cold deps (probe_ended env (some d)) s f v = ground (arith, f)

pub outside_all : Deps → List Outside → Supervisor → Supervisor
outside_all deps [] s = s
outside_all deps (o ∷ os) s = outside_all deps os (outside deps o s)

outside_all-IsDown :
    (deps : Deps) (os : List Outside) (s : Supervisor) → IsDown s → IsDown (outside_all deps os s)
unfolding outside_all
outside_all-IsDown deps [] s v = v
outside_all-IsDown deps (o ∷ os) s v =
    outside_all-IsDown deps os (outside deps o s) (record {
      stopped = outside-IsStopped deps o s v.stopped;
      down_now = outside-down deps o s v;
    })

outside_all-IsQuiet :
    (deps : Deps) (os : List Outside) (s : Supervisor)
    → any fails_probe os ≡ false
    → IsQuiet s
    → IsQuiet (outside_all deps os s)
unfolding outside_all
outside_all-IsQuiet deps [] s f v = v
outside_all-IsQuiet deps (o ∷ os) s f v =
    outside_all-IsQuiet deps os (outside deps o s) (ground (arith, f)) (record {
      stopped = outside-IsStopped deps o s v.stopped;
      cold_now = outside-cold deps o s (ground (arith, f)) v;
    })

outside_all-IsStopped :
    (deps : Deps) (os : List Outside) (s : Supervisor)
    → IsStopped s
    → IsStopped (outside_all deps os s)
unfolding outside_all
outside_all-IsStopped deps [] s v = v
outside_all-IsStopped deps (o ∷ os) s v =
    outside_all-IsStopped deps os (outside deps o s) (outside-IsStopped deps o s v)

-- After a stop with no restart pending, whatever the launch chains, timers, exits, probes and returning
-- machines do, in any order: no restart is armed or asked for and the stop is still marked as the
-- operator's; once the node is cold or offline it is never again starting, live or restarting; and
-- once it is cold it stays cold, unless a liveness probe that was under way ends with a failure.
pub stop_stays :
    (deps : Deps) (env : Env) (s : Supervisor) (before after : List Outside)
    → s.restart_requested ≡ false
    → let t = outside_all deps before (stop deps env s) in
      let u = outside_all deps after t in
      IsStopped t
      × (is_down t.state ≡ true → IsDown u)
      × (t.state ≡ cold → any fails_probe after ≡ false → IsQuiet u)
stop_stays deps env s before after e =
    let v = outside_all-IsStopped deps before (stop deps env s) (stop-IsStopped deps env s e) in
    (
      v,
      (λ d. outside_all-IsDown deps after _ (record { stopped = v; down_now = d })),
      λ c f. outside_all-IsQuiet deps after _ f (record { stopped = v; cold_now = c }),
    )

-- A stop of a process node leaves it cold: at once when it has no child, and else when the child
-- that is being killed exits; its pid file is removed.
stop_process_cold :
    (deps : Deps) (env later : Env) (spec : SpawnSpec) (s : Supervisor) (h : ℕ) (pid : Option ℕ)
    → s.restart_requested ≡ false
    → s.last_spec ≡ some spec
    → spec.runner ≡ process
    → (s.child ≡ none → ((stop deps env s).state ≡ cold) × ((stop deps env s).pid_file ≡ none))
      × (s.child ≡ some (h, pid)
          → let t = child_exit later h spec (stop deps env s) in
            (t.state ≡ cold) × (t.child ≡ none) × (t.pid_file ≡ none))
unfolding stop child_exit
stop_process_cold deps env later spec s h pid r l p = ground arith
