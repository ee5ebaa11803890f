-- ===== src/Cron/Scheduler/Gate.antt =====
-- src/cron/schedule.ts: which attempts launch a turn.
use hellodac.Prelude.{
  ℕ, ◌≡◌, ◌<◌, ◌⊎◌, ◌↔◌, inl, inr, refl, String, Bool, true, false, Option, none, some, map, arith,
  dict_get, is_some, Option-cases, Bool-cases, not, ◌&&◌, if◌then◌else◌,
}
use mathlib.Core.Path.{subst}
use hellodac.Usage.Store.{DaySpend, day_spend}
use hellodac.Cron.Scheduler.State.{
  Message, SkipReason, misconfigured, agent_gone, endpoint_has_no_client, CronRow, CronAttempt,
  Config, Scheduler, Env, row,
}
use hellodac.Cron.Scheduler.Attempt.{
  Begun, finished, awaiting, begin, begin_row, budget_block, skip,
}
use hellodac.Cron.Scheduler.Rows.{map-update}

-- The agent of a row is configured, and its endpoint has a client.
abbrev pub is_connected : Config → CronRow → Bool
is_connected config r = elim (dict_get config.agents r.agent_id) [
  | none ↦ false
  | some endpoint ↦ is_some (dict_get config.clients endpoint)
]

-- A spend that is known in full and below the limit, where there is one.
abbrev pub IsAffordable : Option ℕ → DaySpend → Type 0
IsAffordable none spent = Unit
IsAffordable (some limit) spent = (spent.unpriced ≡ 0) × (spent.cost_micro_usd < limit)

abbrev pub MayRun : Config → Env → Bool → CronRow → Scheduler → Type 0
MayRun config env force r s =
    (force ≡ true)
    ⊎ ((r.enabled ≡ true)
        × IsAffordable config.daily_budget_micro_usd (day_spend env.today s.usage))

-- An attempt launches a turn for a row exactly if the table has it under that id, its agent is
-- configured and has a client, and it is either forced or both enabled and, where a daily budget is
-- set, the spend of the day is known in full and below it.
pub begin_gate :
    (config : Config) (env : Env) (force : Bool) (id : String) (s : Scheduler) (r : CronRow)
    → begin config env force id s ≡ awaiting r
      ↔ ((row id s.rows ≡ some r) × (is_connected config r ≡ true) × MayRun config env force r s)
unfolding begin begin_row budget_block skip
begin_gate config env force id s r = ground arith

-- The part of a row that decides whether its schedule still runs.
pub record Health : Type 0 where
  pub id : String
  pub enabled : Bool
  pub consecutive_failures : ℕ
  pub disabled_reason : Option Message

abbrev pub health : CronRow → Health
health r = record {
  id = r.id;
  enabled = r.enabled;
  consecutive_failures = r.consecutive_failures;
  disabled_reason = r.disabled_reason;
}

-- What an attempt that is over has left alone.
abbrev Spares : Scheduler → Begun → Type 0
Spares s (finished t a) =
    (a.ran ≡ false) × (map health t.rows ≡ map health s.rows) × (t.jobs ≡ s.jobs)
Spares s (awaiting r) = Unit

skip-Spares :
    (env : Env) (r : CronRow) (reason : SkipReason) (m : Message) (s : Scheduler)
    → Spares s (skip env r reason m s)
unfolding skip
skip-Spares env r reason m s = (refl, map-update health r.id _ s.rows (λ q. refl), refl)

budgeted :
    (config : Config) (env : Env) (force : Bool) (r : CronRow) (s : Scheduler)
    → Spares s (
        if force then awaiting r else elim (budget_block config env s) [
          | none ↦ awaiting r
          | some b ↦ skip env r b.reason b.message s
        ])
budgeted config env true r s = tt
budgeted config env false r s = elim (Option-cases (budget_block config env s)) [
  | inl e ↦ rw e tt
  | inr (b, e) ↦ rw e (skip-Spares env r b.reason b.message s)
]

begin_row-Spares :
    (config : Config) (env : Env) (force : Bool) (r : CronRow) (s : Scheduler)
    → Spares s (begin_row config env force r s)
unfolding begin_row
begin_row-Spares config env force r s = elim (Bool-cases (not force && not r.enabled)) [
  | inl e ↦ rw e (refl, refl, refl)
  | inr e ↦ elim (Option-cases (dict_get config.agents r.agent_id)) [
    | inl f ↦ rw (e, f) (skip-Spares env r misconfigured (agent_gone r.agent_id) s)
    | inr (n, f) ↦ elim (Option-cases (dict_get config.clients n)) [
      | inl g ↦ rw (e, f, g) (skip-Spares env r misconfigured (endpoint_has_no_client n) s)
      | inr (c, g) ↦ rw (e, f, g) (budgeted config env force r s)
    ]
  ]
]

begin-Spares :
    (config : Config) (env : Env) (force : Bool) (id : String) (s : Scheduler)
    → Spares s (begin config env force id s)
unfolding begin
begin-Spares config env force id s = elim (Option-cases (row id s.rows)) [
  | inl e ↦ rw (e, begin) (refl, refl, refl)
  | inr (r, e) ↦ rw (e, begin) (begin_row-Spares config env force r s)
]

-- An attempt that launches no turn says so, and leaves the jobs and every row's switch, count of
-- failures and reason of a switch-off as they were: a skip is not a failure.
pub begin_spares :
    (config : Config) (env : Env) (force : Bool) (id : String) (s t : Scheduler) (a : CronAttempt)
    → begin config env force id s ≡ finished t a
    → (a.ran ≡ false) × (map health t.rows ≡ map health s.rows) × (t.jobs ≡ s.jobs)
unfolding begin
begin_spares config env force id s t a e = subst (Spares s) e (begin-Spares config env force id s)
