-- ===== src/Cron/Scheduler/Attempt.antt =====
-- src/cron/schedule.ts: one attempt at one schedule, before the turn and after it.
use hellodac.Prelude.{
  zero, suc, Bool, true, false, not, ◌&&◌, String, Option, none, some, List, ◌∷◌, ◌++◌, ltb, leb,
  if◌then◌else◌, dict_get, dict_delete,
}
use hellodac.Usage.Store.{UsageRecord, day_spend}
use hellodac.Cron.Scheduler.State.{
  Message, text, no_such_schedule, schedule_is_disabled, no_reason, agent_gone,
  endpoint_has_no_client, unpriced_usage, budget_reached, switched_off, SkipReason, disabled,
  budget, unmeasurable, misconfigured, done, failed, missed, CronRow, CronAttempt, cron_done,
  cron_failed, Config, Scheduler, Env, row, update, record_skip,
}

pub record Block : Type 0 where
  pub reason : SkipReason
  pub message : Message

unfoldable pub budget_block : Config → Env → Scheduler → Option Block
budget_block config env s = elim config.daily_budget_micro_usd [
  | none ↦ none
  | some limit ↦
      let spent = day_spend env.today s.usage in
      if ltb 0 spent.unpriced
      then some (record { reason = unmeasurable; message = unpriced_usage spent.unpriced })
      else if leb limit spent.cost_micro_usd
      then some (record { reason = budget; message = budget_reached spent.cost_micro_usd limit })
      else none
]

-- An attempt is over at once, or it awaits the turn of the row that it has read.
pub data Begun : Type 0 where
  finished : Scheduler → CronAttempt → Begun
  awaiting : CronRow → Begun

abbrev pub not_run : String → SkipReason → Message → CronAttempt
not_run id reason message = record {
  cron_id = id;
  ran = false;
  skipped = some reason;
  state = missed;
  message = some message;
}

-- The local function `skip` of `attempt`.
unfoldable pub skip : Env → CronRow → SkipReason → Message → Scheduler → Begun
skip env r reason message s =
    let t = record_skip env r message s in
    finished
      (record t {
        rows =
            update r.id
              (λ q. record q {
                last_state = some missed;
                last_error = some message;
                last_run_at = some env.now;
              })
              t.rows;
      })
      (not_run r.id reason message)

-- The checks of `attempt` on a row, up to the turn.
unfoldable pub begin_row : Config → Env → Bool → CronRow → Scheduler → Begun
unfolding skip budget_block
begin_row config env force r s =
    if not force && not r.enabled
    then finished s (not_run r.id disabled schedule_is_disabled)
    else elim (dict_get config.agents r.agent_id) [
      | none ↦ skip env r misconfigured (agent_gone r.agent_id) s
      | some endpoint ↦ elim (dict_get config.clients endpoint) [
        | none ↦ skip env r misconfigured (endpoint_has_no_client endpoint) s
        | some c ↦ if force then awaiting r else elim (budget_block config env s) [
          | none ↦ awaiting r
          | some b ↦ skip env r b.reason b.message s
        ]
      ]
    ]

unfoldable pub begin : Config → Env → Bool → String → Scheduler → Begun
unfolding begin_row
begin config env force id s = elim (row id s.rows) [
  | none ↦ finished s (not_run id misconfigured no_such_schedule)
  | some r ↦ begin_row config env force r s
]

-- What the turn came to: a run that is done, a run that is not, or an exception.
pub data TurnResult : Type 0 where
  turn_done : TurnResult
  turn_failed : Option String → TurnResult
  turn_threw : String → TurnResult

-- The update that `countFailure` makes, from the row as it was read before the turn.
abbrev pub failed_row : Config → Env → CronRow → Message → CronRow → CronRow
failed_row config env r message q =
    let failures = suc r.consecutive_failures in
    let disable = leb config.max_consecutive_failures failures in
    record q {
      consecutive_failures = failures;
      last_run_at = some env.now;
      last_state = some failed;
      last_error = some message;
      enabled = if disable then false else q.enabled;
      disabled_reason = if disable then some (switched_off failures message) else q.disabled_reason;
    }

unfoldable pub count_failure : Config → Env → CronRow → Message → Scheduler → Scheduler
count_failure config env r message s =
    let disable = leb config.max_consecutive_failures (suc r.consecutive_failures) in
    record s {
      notices = cron_failed r.name disable message ∷ s.notices;
      rows = update r.id (failed_row config env r message) s.rows;
      jobs = if disable then dict_delete s.jobs r.id else s.jobs;
    }

abbrev pub turn_message : Option String → Message
turn_message none = no_reason
turn_message (some m) = text m

abbrev pub failure : CronRow → Message → CronAttempt
failure r message = record {
  cron_id = r.id;
  ran = true;
  skipped = none;
  state = failed;
  message = some message;
}

-- The rest of `attempt`, after the turn.
unfoldable pub finish : Config → Env → CronRow → TurnResult → Scheduler → Scheduler × CronAttempt
unfolding count_failure
finish config env r turn_done s = (
  record s {
    rows =
        update r.id
          (λ q. record q {
            consecutive_failures = zero;
            last_run_at = some env.now;
            last_state = some done;
            last_error = none;
          })
          s.rows;
    notices = cron_done r.name ∷ s.notices;
  },
  record { cron_id = r.id; ran = true; skipped = none; state = done; message = none },
)
finish config env r (turn_failed e) s =
    (count_failure config env r (turn_message e) s, failure r (turn_message e))
finish config env r (turn_threw e) s = (count_failure config env r (text e) s, failure r (text e))

-- An attempt that nothing else interleaves with: when there is a turn, it records its usage, and its
-- result is handled.
unfoldable pub attempt :
    Config
    → Env
    → Bool
    → String
    → List UsageRecord
    → TurnResult
    → Scheduler
    → Scheduler × CronAttempt
unfolding begin finish
attempt config env force id used result s = elim (begin config env force id s) [
  | finished t a ↦ (t, a)
  | awaiting r ↦ finish config env r result (record s { usage = used ++ s.usage })
]
