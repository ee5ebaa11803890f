-- ===== src/Cron/Scheduler/Tests.antt =====
-- Two schedules, with a pattern that is due every minute.
use hellodac.Prelude.{
  ℕ, zero, suc, ◌+◌, ◌≤◌, ◌<◌, ◌≡◌, refl, String, Bool, true, false, Option, none, some, List, [],
  ◌∷◌, arith, is_some, dict_get, dict_delete, ◌is◌, if◌then◌else◌,
}
use hellodac.Usage.Store.{UsageRecord, day_spend}
use hellodac.Cron.Scheduler.State.{
  CronRow, CronAttempt, Config, Scheduler, Croner, Env, row, update,
}
use hellodac.Cron.Scheduler.Attempt.{
  awaiting, begin, begin_row, budget_block, skip, attempt, finish, count_failure, turn_failed,
}
use hellodac.Cron.Scheduler.Gate.{begin_gate, is_connected, MayRun}
use hellodac.Cron.Scheduler.Counted.{Failing}
use hellodac.Cron.Scheduler.Ceiling.{
  series, launches, failing_series_bounded, failing_series_disables,
}
use hellodac.Cron.Scheduler.Load.{passed, missed_count, account}
use hellodac.Cron.Scheduler.Missed.{missed_count_adds, missed_cap_repeats}

abbrev minutes : ℕ → ℕ → List ℕ
minutes zero since = []
minutes (suc n) since = suc since ∷ minutes n (suc since)

some_later : (since t : ℕ) → some (suc since) ≡ some t → since < t
some_later since t e = ground (arith, e)

minutes_end : (n since : ℕ) → some (suc since) ≡ none → minutes (suc n) since ≡ []
minutes_end n since e = ground (arith, e)

minutes-suc : (n since t : ℕ) → some (suc since) ≡ some t → minutes (suc n) since ≡ t ∷ minutes n t
minutes-suc n since t e = ground (arith, e)

abbrev every_minute : Croner
every_minute = record {
  refusal = λ p z. if p is "bad" then some "no such field" else none;
  next_run = λ p z since. some (suc since);
  next_runs = λ p z n since. minutes n since;
  next_run_later = λ p z since t e. some_later since t e;
  next_runs_zero = λ p z since. refl;
  next_runs_end = λ p z n since e. minutes_end n since e;
  next_runs_suc = λ p z n since t e. minutes-suc n since t e;
}

abbrev scheduled : String → String → Bool → ℕ → CronRow
scheduled id pattern on failures = record {
  id = id;
  agent_id = "reporter";
  name = "report";
  schedule = pattern;
  timezone = "UTC";
  prompt = "write the report";
  enabled = on;
  consecutive_failures = failures;
  last_run_at = none;
  created_at = 10;
  last_error = none;
  disabled_reason = none;
  last_state = none;
}

abbrev at : ℕ → Env
at t = record { now = t; today = record { start = 0; end = 1000 } }

abbrev config : Option ℕ → Config
config limit = record {
  agents = ("reporter", "office") ∷ [];
  clients = ("office", true) ∷ [];
  daily_budget_micro_usd = limit;
  max_consecutive_failures = 3;
}

abbrev spent : UsageRecord
spent = record {
  run_id = "r1";
  provider = none;
  model = none;
  input_tokens = 10;
  output_tokens = 2;
  cache_read = none;
  cost = some 40;
  peak_cost = none;
  at = 5;
}

abbrev table : Scheduler
table = record {
  rows =
      scheduled "daily" "* * * * *" true 1
      ∷ scheduled "broken" "bad" true 0
      ∷ scheduled "off" "* * * * *" false 0
      ∷ [];
  runs = [];
  notices = [];
  usage = spent ∷ [];
  jobs = ("daily", record { schedule = "* * * * *"; timezone = "UTC" }) ∷ [];
  problems = [];
  stopped = false;
}

abbrev daily : CronRow
daily = scheduled "daily" "* * * * *" true 1

abbrev fails : Failing
fails = record { env = at 100; used = spent ∷ []; error = some "timeout"; threw = false }

within_budget : begin (config (some 41)) (at 100) false "daily" table ≡ awaiting daily
unfolding begin begin_row budget_block day_spend row dict_get
within_budget = refl

launched :
    (launches (config none) "daily" (fails ∷ fails ∷ []) table ≡ 2)
    × (launches (config none) "daily" (fails ∷ fails ∷ fails ∷ fails ∷ []) table ≡ 2)
    × (launches (config (some 90)) "daily" (fails ∷ fails ∷ []) table ≡ 2)
    × (launches (config (some 41)) "daily" (fails ∷ fails ∷ []) table ≡ 1)
unfolding launches attempt begin begin_row budget_block skip day_spend row update dict_get finish
    count_failure dict_delete
launched = (refl, refl, refl, refl)

begin_gate_example :
    (row "daily" table.rows ≡ some daily)
    × (is_connected (config (some 41)) daily ≡ true)
    × MayRun (config (some 41)) (at 100) false daily table
begin_gate_example =
    (begin_gate (config (some 41)) (at 100) false "daily" table daily).0 within_budget

-- The attempt under a budget that is used up.
skipped : Scheduler × CronAttempt
unfolding attempt begin begin_row budget_block skip day_spend row update dict_get
skipped = attempt (config (some 40)) (at 100) false "daily" [] (turn_failed none) table

failing_series_bounded_example :
    launches (config none) "daily" (fails ∷ fails ∷ fails ∷ []) table + 1 ≤ 3
unfolding row
failing_series_bounded_example =
    failing_series_bounded (config none) "daily" (fails ∷ fails ∷ fails ∷ []) table daily refl
      (ground arith)

failing_series_disables_example :
    (launches (config none) "daily" (fails ∷ fails ∷ []) table ≡ 2)
    × (is_some (dict_get (series (config none) "daily" (fails ∷ fails ∷ []) table).jobs "daily")
        ≡ false)
    × ((q : CronRow) × (row "daily" (series (config none) "daily" (fails ∷ fails ∷ []) table).rows
          ≡ some q)
        × (q.enabled ≡ false)
        × (q.consecutive_failures ≡ 3))
unfolding row dict_get
failing_series_disables_example =
    failing_series_disables (config none) "daily" fails (fails ∷ []) table daily refl refl refl refl
      refl

missed_count_adds_example :
    missed_count every_minute (at 40) daily
    ≡ missed_count every_minute (at 15) daily
      + missed_count every_minute (at 40) (account every_minute (at 15) daily daily)
unfolding missed_count passed
missed_count_adds_example =
    missed_count_adds every_minute (at 15) (at 40) daily (ground arith) (ground arith)
      (ground arith)

missed_cap_repeats_example :
    0 < missed_count every_minute (at 200) (account every_minute (at 200) daily daily)
unfolding missed_count passed
missed_cap_repeats_example =
    missed_cap_repeats every_minute (at 200) daily 111 (ground arith) refl refl (ground arith)
