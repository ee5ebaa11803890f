-- ===== src/Nodes/Supervisor/Crashes.antt =====
-- src/nodes/supervisor.ts: a process that keeps exiting.
use hellodac.Prelude.{
  ℕ, suc, ◌+◌, ◌<◌, ◌≡◌, true, false, none, some, List, [], ◌∷◌, arith, is_some, length, All,
}
use mathlib.Core.Path.{subst}
use hellodac.Nodes.Supervisor.State.{
  starting, restarting, offline, SpawnSpec, Effect, spawn_process, Supervisor, Deps, retry_process,
}
use hellodac.Nodes.Supervisor.Launch.{Env, throws_nowhere}
use hellodac.Nodes.Supervisor.Events.{restart_timer_fires, child_exit}

-- How often a process was spawned.
abbrev pub launches_in : List Effect → ℕ
launches_in [] = 0
launches_in (spawn_process spec ∷ es) = suc (launches_in es)
launches_in (e ∷ es) = launches_in es

-- The child that the node has exits.
abbrev pub child_dies : Env → SpawnSpec → Supervisor → Supervisor
child_dies env spec s = elim s.child [ none ↦ s | some (h, pid) ↦ child_exit env h spec s ]

-- A crash loop: the child exits and the restart timer fires, once for each entry.
pub crash_loop : Deps → SpawnSpec → List Env → Supervisor → Supervisor
crash_loop deps spec [] s = s
crash_loop deps spec (env ∷ es) s =
    crash_loop deps spec es (restart_timer_fires deps env (child_dies env spec s))

-- A starting process that nobody asked to stop, after so many failures and launches.
pub record Running (failures launches : ℕ) (s : Supervisor) : Type 0 where
  pub starts : s.state ≡ starting
  pub failed : s.attempts ≡ failures
  pub wanted : s.manual_stop ≡ false
  pub no_timer : s.restart_timer ≡ none
  pub has_child : is_some s.child ≡ true
  pub launched : launches_in s.effects ≡ launches

-- An exit that is followed by another launch.
pub record Waits (spec : SpawnSpec) (failures launches : ℕ) (s : Supervisor) : Type 0 where
  pub restarts : s.state ≡ restarting
  pub failed : s.attempts ≡ failures
  pub wanted : s.manual_stop ≡ false
  pub timer : s.restart_timer ≡ some (retry_process spec)
  pub no_child : s.child ≡ none
  pub launched : launches_in s.effects ≡ launches

-- The exit at which the node gives up.
pub record GaveUp (failures launches : ℕ) (s : Supervisor) : Type 0 where
  pub ends : s.state ≡ offline
  pub failed : s.attempts ≡ failures
  pub no_timer : s.restart_timer ≡ none
  pub no_child : s.child ≡ none
  pub launched : launches_in s.effects ≡ launches

-- No spawn at these times throws.
abbrev pub AllSpawn : List Env → Type 0
AllSpawn es = All (λ (e : Env). e.throws ≡ throws_nowhere) es

dies-Waits :
    (env : Env) (spec : SpawnSpec) (s : Supervisor) (n l : ℕ)
    → suc n < spec.max_attempts
    → Running n l s
    → Waits spec (suc n) l (child_dies env spec s)
unfolding child_exit
dies-Waits env spec s n l h r = ground arith

fires-Running :
    (deps : Deps) (env : Env) (spec : SpawnSpec) (s : Supervisor) (n l : ℕ)
    → env.throws ≡ throws_nowhere
    → Waits spec n l s
    → Running n (suc l) (restart_timer_fires deps env s)
unfolding restart_timer_fires
fires-Running deps env spec s n l t r = ground arith

dies-GaveUp :
    (env : Env) (spec : SpawnSpec) (s : Supervisor) (n l : ℕ)
    → suc n ≡ spec.max_attempts
    → Running n l s
    → GaveUp (suc n) l (child_dies env spec s)
unfolding child_exit
dies-GaveUp env spec s n l h r = ground arith

crash_loop-Running :
    (deps : Deps) (spec : SpawnSpec) (es : List Env) (s : Supervisor) (n l : ℕ)
    → n + length es < spec.max_attempts
    → AllSpawn es
    → Running n l s
    → Running (n + length es) (l + length es) (crash_loop deps spec es s)
unfolding crash_loop
crash_loop-Running deps spec [] s n l h a r = ground arith
crash_loop-Running deps spec (env ∷ es) s n l h a r = ground (
  arith,
  crash_loop-Running deps spec es (restart_timer_fires deps env (child_dies env spec s)) (suc n)
      (suc l) (omega arith) a.1
      (fires-Running deps env spec _ (suc n) l a.0 (dies-Waits env spec s n l (omega arith) r)),
)

-- A process that starts afresh and keeps exiting before it is live, at any number of exits below
-- `max_attempts`, where no spawn throws: after each exit and the restart timer that follows it, it was launched once more and
-- starts with its new child. Its next exit, while it is not the last that `max_attempts` allows, arms
-- the timer again and launches nothing yet; the last one leaves the node offline, with no timer, no
-- child and no further launch.
pub crash_loop_ends :
    (deps : Deps) (spec : SpawnSpec) (es : List Env) (env : Env) (s : Supervisor) (launches : ℕ)
    → Running 0 launches s
    → length es < spec.max_attempts
    → AllSpawn es
    → let t = crash_loop deps spec es s in
      let exited = child_dies env spec t in
      Running (length es) (launches + length es) t
      × (suc (length es) < spec.max_attempts
          → Waits spec (suc (length es)) (launches + length es) exited)
      × (suc (length es) ≡ spec.max_attempts
          → GaveUp (suc (length es)) (launches + length es) exited)
crash_loop_ends deps spec es env s launches r l a =
    let v =
      subst (λ n. Running n (launches + length es) (crash_loop deps spec es s)) (omega arith)
        (crash_loop-Running deps spec es s 0 launches (omega (arith, l)) a r) in
    (
      v,
      (λ h. dies-Waits env spec _ (length es) (launches + length es) h v),
      λ h. dies-GaveUp env spec _ (length es) (launches + length es) h v,
    )
