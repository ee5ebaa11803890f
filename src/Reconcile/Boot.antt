-- ===== src/Reconcile/Boot.antt =====
-- src/reconcile/index.ts: what a dead process left in flight. The columns are those that are written
-- or tested.
use hellodac.Prelude.{
  ℕ, ◌≡◌, refl, arith, String, Bool, true, false, Option, some, List, [], ◌∷◌, map, if◌then◌else◌,
  any, count_if,
}
use hellodac.PublicApi.Tables.{RunState, is_failed, is_open}

pub record RunRow : Type 0 where
  pub id : String
  pub state : RunState
  pub ended_at : Option ℕ
  pub error : Option String

pub data CommandState : Type 0 where
  waiting delivered command_done command_failed : CommandState

pub record CommandRow : Type 0 where
  pub id : String
  pub state : CommandState
  pub done_at : Option ℕ
  pub result : Option String
  pub payload : String

abbrev pub restarted_text : String
restarted_text = "manager restarted while this run was in flight"

abbrev pub command_text : String
command_text = "{\"message\":\"manager restarted while this command was in flight\"}"

abbrev pub fail_run : ℕ → RunRow → RunRow
fail_run now r =
    if is_open r.state
    then record r { state = is_failed; ended_at = some now; error = some restarted_text }
    else r

-- The table, and the number of changed rows.
unfoldable pub converge_runs : ℕ → List RunRow → List RunRow × ℕ
converge_runs now rows = (map (fail_run now) rows, count_if (λ r. is_open r.state) rows)

abbrev pub is_delivered : CommandState → Bool
is_delivered delivered = true
is_delivered waiting = false
is_delivered command_done = false
is_delivered command_failed = false

abbrev pub fail_command : ℕ → CommandRow → CommandRow
fail_command now c =
    if is_delivered c.state
    then record c {
      state = command_failed;
      done_at = some now;
      result = some command_text;
      payload = "{}";
    }
    else c

unfoldable pub converge_agent_commands : ℕ → List CommandRow → List CommandRow × ℕ
converge_agent_commands now rows =
    (map (fail_command now) rows, count_if (λ c. is_delivered c.state) rows)

no_run_open :
    (now : ℕ) (rows : List RunRow) → any (λ r. is_open r.state) (map (fail_run now) rows) ≡ false
no_run_open now [] = refl
no_run_open now (r ∷ rows) = ground (arith, no_run_open now rows)

runs_settled :
    (later : ℕ) (rows : List RunRow)
    → any (λ r. is_open r.state) rows ≡ false
    → converge_runs later rows ≡ (rows, 0)
unfolding converge_runs
runs_settled later [] e = refl
runs_settled later (r ∷ rows) e = ground (arith, e, runs_settled later rows)

no_command_delivered :
    (now : ℕ) (rows : List CommandRow)
    → any (λ c. is_delivered c.state) (map (fail_command now) rows) ≡ false
no_command_delivered now [] = refl
no_command_delivered now (c ∷ rows) = ground (arith, no_command_delivered now rows)

commands_settled :
    (later : ℕ) (rows : List CommandRow)
    → any (λ c. is_delivered c.state) rows ≡ false
    → converge_agent_commands later rows ≡ (rows, 0)
unfolding converge_agent_commands
commands_settled later [] e = refl
commands_settled later (c ∷ rows) e = ground (arith, e, commands_settled later rows)

-- After the convergence at boot no run is pending or running and no command is delivered without an
-- answer; a second convergence changes no row of either table and counts none.
boot_settles :
    (now later : ℕ) (runs : List RunRow) (commands : List CommandRow)
    → let settled = (converge_runs now runs).0 in
      let answered = (converge_agent_commands now commands).0 in
      (any (λ r. is_open r.state) settled ≡ false)
      × (any (λ c. is_delivered c.state) answered ≡ false)
      × (converge_runs later settled ≡ (settled, 0))
      × (converge_agent_commands later answered ≡ (answered, 0))
unfolding converge_runs converge_agent_commands
boot_settles now later runs commands = (
  no_run_open now runs,
  no_command_delivered now commands,
  unfold converge_runs in runs_settled later (map (fail_run now) runs) (no_run_open now runs),
  commands_settled later (map (fail_command now) commands) (no_command_delivered now commands),
)
