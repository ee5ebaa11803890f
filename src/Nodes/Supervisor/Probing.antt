-- ===== src/Nodes/Supervisor/Probing.antt =====
-- src/nodes/supervisor.ts: the liveness probe of a live node.
use hellodac.Prelude.{
  ℕ, suc, ◌≤◌, ◌<◌, ◌≡◌, Bool, true, false, none, some, List, [], ◌∷◌, arith, String, if◌then◌else◌,
}
use hellodac.Nodes.Supervisor.State.{
  cold, starting, live, offline, process, SpawnSpec, Supervisor, Deps, is_live,
}
use hellodac.Nodes.Supervisor.Launch.{Env}
use hellodac.Nodes.Supervisor.Commands.{restart}
use hellodac.Nodes.Supervisor.Events.{ProbeResult, probe_live_begin, probe_live_end}

-- One call of `probeLive` that nothing interleaves.
pub probe_round : Env → ProbeResult → Supervisor → Supervisor
probe_round env r s =
    let t = probe_live_begin s in if is_live s.state then probe_live_end env r t else t

pub probe_rounds : Env → List ProbeResult → Supervisor → Supervisor
probe_rounds env [] s = s
probe_rounds env (r ∷ rs) s = probe_rounds env rs (probe_round env r s)

-- Three bad answers stand side by side.
unfoldable pub three_in_a_row : List ProbeResult → Bool
three_in_a_row [] = false
three_in_a_row (none ∷ rs) = three_in_a_row rs
three_in_a_row (some a ∷ []) = false
three_in_a_row (some a ∷ none ∷ rs) = three_in_a_row rs
three_in_a_row (some a ∷ some b ∷ []) = false
three_in_a_row (some a ∷ some b ∷ none ∷ rs) = three_in_a_row rs
three_in_a_row (some a ∷ some b ∷ some c ∷ rs) = true

-- A live node with so many failures counted.
abbrev LiveWith : ℕ → Supervisor → Type 0
LiveWith n s = (s.state ≡ live) × (s.live_probe_failures ≡ n)

good : (env : Env) (s : Supervisor) (n : ℕ) → LiveWith n s → LiveWith 0 (probe_round env none s)
unfolding probe_round probe_live_begin probe_live_end
good env s n h = ground arith

bad :
    (env : Env) (s : Supervisor) (n : ℕ) (d : String)
    → n < 2
    → LiveWith n s
    → LiveWith (suc n) (probe_round env (some d) s)
unfolding probe_round probe_live_begin probe_live_end
bad env s n d l h = ground arith

third :
    (env : Env) (s : Supervisor) (d : String)
    → LiveWith 2 s
    → (probe_round env (some d) s).state ≡ offline
unfolding probe_round probe_live_begin probe_live_end
third env s d h = ground arith

stays_offline :
    (env : Env) (rs : List ProbeResult) (s : Supervisor)
    → s.state ≡ offline
    → (probe_rounds env rs s).state ≡ offline
unfolding probe_rounds
stays_offline env [] s h = h
stays_offline env (r ∷ rs) s h =
    stays_offline env rs (probe_round env r s) (unfold probe_round probe_live_begin in ground arith)

-- While nothing else happens to a live node with no failed probe counted, a series of liveness
-- probes takes it offline exactly if three bad answers stand side by side in it; otherwise the node
-- is live at the end.
pub probe_rounds_state :
    (env : Env) (rs : List ProbeResult) (s : Supervisor)
    → s.state ≡ live
    → s.live_probe_failures ≡ 0
    → (probe_rounds env rs s).state ≡ (if three_in_a_row rs then offline else live)
unfolding probe_rounds three_in_a_row
probe_rounds_state env [] s p z = p
probe_rounds_state env (none ∷ rs) s p z =
    let h = good env s 0 (p, z) in probe_rounds_state env rs (probe_round env none s) h.0 h.1
probe_rounds_state env (some a ∷ []) s p z = (bad env s 0 a (omega arith) (p, z)).0
probe_rounds_state env (some a ∷ none ∷ rs) s p z =
    let h = good env _ 1 (bad env s 0 a (omega arith) (p, z)) in
    probe_rounds_state env rs (probe_round env none (probe_round env (some a) s)) h.0 h.1
probe_rounds_state env (some a ∷ some b ∷ []) s p z =
    (bad env _ 1 b (omega arith) (bad env s 0 a (omega arith) (p, z))).0
probe_rounds_state env (some a ∷ some b ∷ none ∷ rs) s p z =
    let h = good env _ 2 (bad env _ 1 b (omega arith) (bad env s 0 a (omega arith) (p, z))) in
    probe_rounds_state env rs
      (probe_round env none (probe_round env (some b) (probe_round env (some a) s))) h.0 h.1
probe_rounds_state env (some a ∷ some b ∷ some c ∷ rs) s p z =
    stays_offline env rs _
      (third env _ c (bad env _ 1 b (omega arith) (bad env s 0 a (omega arith) (p, z))))

-- The end of a failed probe does not look at the state again: where two failures are counted and an
-- operator stopped the process node while the probe was under way, the cold node turns offline, and
-- the restart by which the reconcile heals an offline node starts it.
pub late_probe_undoes_stop :
    (deps : Deps) (env : Env) (spec : SpawnSpec) (s : Supervisor) (d : String)
    → spec.runner ≡ process
    → s.state ≡ cold
    → s.manual_stop ≡ true
    → s.child ≡ none
    → s.container_id ≡ none
    → s.restart_timer ≡ none
    → 2 ≤ s.live_probe_failures
    → let t = probe_live_end env (some d) s in
      (t.state ≡ offline) × ((restart deps env spec t).state ≡ starting)
unfolding probe_live_end restart
late_probe_undoes_stop deps env spec s d r p m c k t f = ground arith
