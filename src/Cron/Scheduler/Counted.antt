-- ===== src/Cron/Scheduler/Counted.antt =====
-- src/cron/schedule.ts: an attempt whose turn fails, and what its row counts.
use hellodac.Prelude.{
  suc, ◌≡◌, inl, inr, refl, String, Bool, true, false, Option, none, some, List, arith, leb,
  if◌then◌else◌, dict_get, is_some, Option-cases, Bool-cases, dict_get-dict_delete, eq_refl,
}
use mathlib.Core.Path.{subst, sym}
use hellodac.Usage.Store.{UsageRecord}
use hellodac.Cron.Scheduler.State.{
  Message, text, CronRow, CronAttempt, Config, Scheduler, Env, row, update,
}
use hellodac.Cron.Scheduler.Attempt.{
  TurnResult, turn_failed, turn_threw, attempt, finish, count_failure, failed_row, turn_message,
}
use hellodac.Cron.Scheduler.Rows.{row-update, row-id}

-- A turn that fails: when it starts, what it uses, and how it fails.
pub record Failing : Type 0 where
  pub env : Env
  pub used : List UsageRecord
  pub error : Option String
  pub threw : Bool

abbrev pub result_of : Failing → TurnResult
result_of f = elim f.error [
  | none ↦ turn_failed none
  | some m ↦ if f.threw then turn_threw m else turn_failed (some m)
]

abbrev pub attempt_failing : Config → String → Failing → Scheduler → Scheduler × CronAttempt
attempt_failing config id f s = attempt config f.env false id f.used (result_of f) s

-- The state and the answer of an attempt after which the row has failed once more.
abbrev pub CountedIn : Config → String → CronRow → Scheduler → Scheduler → Type 0
CountedIn config id r s t =
    (q : CronRow) × (row id t.rows ≡ some q)
    × (q.agent_id ≡ r.agent_id)
    × (q.consecutive_failures ≡ suc r.consecutive_failures)
    × (q.enabled ≡ (
        if leb config.max_consecutive_failures (suc r.consecutive_failures)
        then false
        else r.enabled))
    × (is_some (dict_get t.jobs id) ≡ (
        if leb config.max_consecutive_failures (suc r.consecutive_failures)
        then false
        else is_some (dict_get s.jobs id)))

count_failure-CountedIn :
    (config : Config) (env : Env) (id : String) (m : Message) (s : Scheduler) (r : CronRow)
    → row id s.rows ≡ some r
    → CountedIn config id r s (count_failure config env r m s)
unfolding count_failure
count_failure-CountedIn config env id m s r e = (
  failed_row config env r m r,
  subst
      (λ k.
        row id (update k (failed_row config env r m) s.rows) ≡ some (failed_row config env r m r))
      (sym (row-id id s.rows r e)) (row-update id (failed_row config env r m) s.rows r refl e),
  refl,
  refl,
  refl,
  ground (arith, dict_get-dict_delete s.jobs id id, eq_refl id, row-id id s.rows r e),
)

pub finish-CountedIn :
    (config : Config) (id : String) (f : Failing) (s : Scheduler) (r : CronRow)
    → row id s.rows ≡ some r
    → CountedIn config id r s (finish config f.env r (result_of f) s).0
      × ((finish config f.env r (result_of f) s).1.ran ≡ true)
unfolding finish
finish-CountedIn config id f s r e = elim (Option-cases f.error) [
  | inl g ↦ rw g (count_failure-CountedIn config f.env id (turn_message none) s r e, refl)
  | inr (m, g) ↦ elim (Bool-cases f.threw) [
    | inl h ↦ rw (g, h) (count_failure-CountedIn config f.env id (text m) s r e, refl)
    | inr h ↦
        rw (g, h) (count_failure-CountedIn config f.env id (turn_message (some m)) s r e, refl)
  ]
]
