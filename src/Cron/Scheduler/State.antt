-- ===== src/Cron/Scheduler/State.antt =====
-- src/cron/schedule.ts: the data of the scheduler: the `cron` and `run` rows that it reads and
-- writes, its configuration, its maps, and the library that reads the patterns. The ids that
-- `randomUUID` draws for run rows, and the log, are left out.
use hellodac.Prelude.{
  ℕ, suc, ◌<◌, ◌≡◌, String, Bool, Option, none, some, List, [], ◌∷◌, ◌is◌, if◌then◌else◌, find_if,
  Dict,
}
use hellodac.Usage.Store.{UsageRecord, Range}

-- The texts that the scheduler stores or returns, with what they interpolate.
pub data Message : Type 0 where
  text : String → Message
  no_such_schedule schedule_is_disabled no_reason no_future_run : Message
  agent_gone endpoint_has_no_client : String → Message
  unpriced_usage : ℕ → Message
  budget_reached : ℕ → ℕ → Message
  missed_runs : (capped : Bool) → ℕ → Message
  switched_off : ℕ → Message → Message

pub data SkipReason : Type 0 where
  disabled busy budget unmeasurable misconfigured : SkipReason

pub data AttemptState : Type 0 where
  done failed missed : AttemptState

-- `CronRow`.
pub record CronRow : Type 0 where
  pub id : String
  pub agent_id : String
  pub name : String
  pub schedule : String
  pub timezone : String
  pub prompt : String
  pub enabled : Bool
  pub consecutive_failures : ℕ
  pub last_run_at : Option ℕ
  pub created_at : ℕ
  pub last_error : Option Message
  pub disabled_reason : Option Message
  pub last_state : Option AttemptState

-- A `run` row of an attempt that never reached the upstream.
pub record SkipRow : Type 0 where
  pub agent_id : String
  pub cron_id : String
  pub started_at : ℕ
  pub error : Message

pub record CronAttempt : Type 0 where
  pub cron_id : String
  pub ran : Bool
  pub skipped : Option SkipReason
  pub state : AttemptState
  pub message : Option Message

pub data Notice : Type 0 where
  cron_done : String → Notice
  cron_failed : String → (disabled : Bool) → Message → Notice

-- `config` and `upstreamClients`: an agent is the name of its endpoint, a client a mark that it is
-- there.
pub record Config : Type 0 where
  pub agents : Dict String
  pub clients : Dict Bool
  pub daily_budget_micro_usd : Option ℕ
  pub max_consecutive_failures : ℕ

-- A started timer.
pub record CronJob : Type 0 where
  pub schedule : String
  pub timezone : String

pub record Scheduler : Type 0 where
  pub rows : List CronRow
  pub runs : List SkipRow
  pub notices : List Notice
  pub usage : List UsageRecord
  pub jobs : Dict CronJob
  pub problems : Dict Message
  pub stopped : Bool

-- The library croner: it refuses a pattern with a message, and tells the first time of a pattern
-- after a given one. `nextRuns` tells that many of them in a row.
pub record Croner : Type 0 where
  pub refusal : String → String → Option String
  pub next_run : String → String → ℕ → Option ℕ
  pub next_runs : String → String → ℕ → ℕ → List ℕ
  pub next_run_later : (p z : String) (since t : ℕ) → next_run p z since ≡ some t → since < t
  pub next_runs_zero : (p z : String) (since : ℕ) → next_runs p z 0 since ≡ []
  pub next_runs_end :
      (p z : String) (n since : ℕ) → next_run p z since ≡ none → next_runs p z (suc n) since ≡ []
  pub next_runs_suc :
      (p z : String) (n since t : ℕ)
      → next_run p z since ≡ some t
      → next_runs p z (suc n) since ≡ t ∷ next_runs p z n t

-- The clock of one call, and the local day that it falls on.
pub record Env : Type 0 where
  pub now : ℕ
  pub today : Range

-- `row`, and an update of the row with an id.
unfoldable pub row : String → List CronRow → Option CronRow
row id rows = find_if (λ r. r.id is id) rows

unfoldable pub update : String → (CronRow → CronRow) → List CronRow → List CronRow
update id f [] = []
update id f (r ∷ rs) = if r.id is id then f r ∷ update id f rs else r ∷ update id f rs

-- `recordSkip`.
abbrev pub record_skip : Env → CronRow → Message → Scheduler → Scheduler
record_skip env r message s = record s {
  runs =
      record { agent_id = r.agent_id; cron_id = r.id; started_at = env.now; error = message }
      ∷ s.runs;
}
