-- ===== src/Cron/Scheduler/Load.antt =====
-- src/cron/schedule.ts, `load`: the occurrences that were missed, and the jobs.
use hellodac.Prelude.{
  ℕ, Bool, true, false, Option, none, some, List, [], ◌∷◌, leb, ◌==◌, if◌then◌else◌, or_default,
  keep_if, length, dict_set,
}
use hellodac.Cron.Scheduler.State.{
  Message, text, no_future_run, missed_runs, missed, CronRow, CronJob, Scheduler, Croner, Env,
  update, record_skip,
}

abbrev pub missed_cap : ℕ
missed_cap = 100

-- `lastRunAt ?? createdAt`.
abbrev pub since_of : CronRow → ℕ
since_of r = or_default r.last_run_at r.created_at

-- The last of the times, or the given one without any.
abbrev pub last_or : ℕ → List ℕ → ℕ
last_or d [] = d
last_or d (t ∷ ts) = last_or t ts

-- The next times of a row from its anchor that are not after now.
unfoldable pub passed : Croner → CronRow → ℕ → ℕ → ℕ → List ℕ
passed croner r now cap since =
    keep_if (λ t. leb t now) (croner.next_runs r.schedule r.timezone cap since)

-- How many occurrences `recordMissed` reports for a row.
unfoldable pub missed_count : Croner → Env → CronRow → ℕ
missed_count croner env r =
    if since_of r == 0 then 0 else elim (croner.refusal r.schedule r.timezone) [
      | some m ↦ 0
      | none ↦ length (passed croner r env.now missed_cap (since_of r))
    ]

abbrev pub missed_message : ℕ → Message
missed_message count = missed_runs (leb missed_cap count) count

-- What `recordMissed` writes to a row that has the given one's schedule and anchor.
unfoldable pub account : Croner → Env → CronRow → CronRow → CronRow
account croner env r q =
    if since_of r == 0
    then record q { last_run_at = some env.now }
    else if missed_count croner env r == 0
    then q
    else record q {
      last_run_at = some (last_or (since_of r) (passed croner r env.now missed_cap (since_of r)));
      last_state = some missed;
      last_error = some (missed_message (missed_count croner env r));
    }

-- The body of the loop of `recordMissed`.
unfoldable pub record_missed_row : Croner → Env → CronRow → Scheduler → Scheduler
record_missed_row croner env r s =
    let t =
      if missed_count croner env r == 0
      then s
      else record_skip env r (missed_message (missed_count croner env r)) s in
    record t { rows = update r.id (account croner env r) t.rows }

unfoldable pub record_missed_rows : Croner → Env → List CronRow → Scheduler → Scheduler
unfolding record_missed_row
record_missed_rows croner env [] s = s
record_missed_rows croner env (r ∷ rs) s =
    record_missed_rows croner env rs (record_missed_row croner env r s)

abbrev pub is_enabled : CronRow → Bool
is_enabled r = r.enabled

unfoldable pub record_missed : Croner → Env → Scheduler → Scheduler
unfolding record_missed_rows
record_missed croner env s = record_missed_rows croner env (keep_if is_enabled s.rows) s

unfoldable pub schedule_problem : Croner → Env → CronRow → Option Message
schedule_problem croner env r = elim (croner.refusal r.schedule r.timezone) [
  | some m ↦ some (text m)
  | none ↦ elim (croner.next_run r.schedule r.timezone env.now) [
    | none ↦ some no_future_run
    | some t ↦ none
  ]
]

unfoldable pub load_rows : Croner → Env → List CronRow → Scheduler → Scheduler
load_rows croner env [] s = s
load_rows croner env (r ∷ rs) s = elim (schedule_problem croner env r) [
  | some m ↦ load_rows croner env rs (record s { problems = dict_set s.problems r.id m })
  | none ↦
      let job : CronJob = record { schedule = r.schedule; timezone = r.timezone } in
      load_rows croner env rs (record s { jobs = dict_set s.jobs r.id job })
]

unfoldable pub load : Croner → Env → Scheduler → Scheduler
unfolding load_rows
load croner env s =
    load_rows croner env (keep_if is_enabled s.rows) (record s { jobs = []; problems = [] })

unfoldable pub start : Croner → Env → Scheduler → Scheduler
start croner env s = load croner env (record_missed croner env (record s { stopped = false }))

unfoldable pub reload : Croner → Env → Scheduler → Scheduler
reload croner env s = if s.stopped then s else load croner env s

unfoldable pub stop : Scheduler → Scheduler
stop s = record s { stopped = true; jobs = [] }
