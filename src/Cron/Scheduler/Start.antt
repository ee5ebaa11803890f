-- ===== src/Cron/Scheduler/Start.antt =====
-- src/cron/schedule.ts: the loops of a start over the rows.
use hellodac.Prelude.{
  inl, inr, ◌≡◌, refl, ap, ◌∙◌, sym, String, Bool, false, List, [], ◌∷◌, map, arith, keep_if,
  if◌then◌else◌, is_some, dict_get, dict_get-dict_set, ◌is◌, eq_iff, any, ◌&&◌, not, All,
  Bool-cases, Option-cases, ◌==◌, ◌||◌, eq_refl, dict_set,
}
use mathlib.Core.Path.{subst}
use hellodac.Cron.Scheduler.State.{CronRow, Scheduler, Croner, Env, update}
use hellodac.Cron.Scheduler.Load.{
  account, is_enabled, record_missed_row, record_missed_rows, record_missed, schedule_problem,
  load_rows, load, missed_count,
}

-- The ids of the table are different, as for a primary key.
abbrev pub DistinctIds : List CronRow → Type 0
DistinctIds [] = Unit
DistinctIds (r ∷ rs) = All (λ q. (q.id is r.id) ≡ false) rs × DistinctIds rs

-- The rows after a start.
abbrev pub accounted : Croner → Env → CronRow → CronRow
accounted croner env r = if r.enabled then account croner env r r else r

update_other :
    (id : String) (f : CronRow → CronRow) (rows : List CronRow)
    → All (λ q. (q.id is id) ≡ false) rows
    → update id f rows ≡ rows
unfolding update
update_other id f [] n = refl
update_other id f (q ∷ qs) n = ground (arith, update_other id f qs n.1, n.0)

row_rows :
    (croner : Croner) (env : Env) (r : CronRow) (s : Scheduler)
    → (record_missed_row croner env r s).rows ≡ update r.id (account croner env r) s.rows
unfolding record_missed_row
row_rows croner env r s = elim (Bool-cases (missed_count croner env r == 0)) [
  | inl e ↦ rw e refl
  | inr e ↦ rw e refl
]

-- A row that the loop does not reach stays in front.
rows_front :
    (croner : Croner) (env : Env) (q : CronRow) (todo : List CronRow) (rest : List CronRow)
    (s t : Scheduler)
    → s.rows ≡ q ∷ rest
    → t.rows ≡ rest
    → All (λ r. (r.id is q.id) ≡ false) todo
    → (record_missed_rows croner env todo s).rows ≡ q ∷ (record_missed_rows croner env todo t).rows
unfolding record_missed_rows update
rows_front croner env q [] rest s t e f n = ground (arith, e, f)
rows_front croner env q (r ∷ rs) rest s t e f n =
    rows_front croner env q rs (update r.id (account croner env r) rest)
      (record_missed_row croner env r s) (record_missed_row croner env r t)
      (ground (arith, row_rows croner env r s, e, n.0, eq_iff q.id r.id, eq_iff r.id q.id))
      (ground (arith, row_rows croner env r t, f)) n.1

account-id : (croner : Croner) (env : Env) (r q : CronRow) → (account croner env r q).id ≡ q.id
unfolding account
account-id croner env r q = ground arith

All-keep_if :
    (p : CronRow → Bool) (P : CronRow → Type 0) (rs : List CronRow)
    → All P rs
    → All P (keep_if p rs)
All-keep_if p P [] h = tt
All-keep_if p P (r ∷ rs) h = elim (Bool-cases (p r)) [
  | inl e ↦ rw e (h.0, All-keep_if p P rs h.1)
  | inr e ↦ rw e (All-keep_if p P rs h.1)
]

first_row :
    (croner : Croner) (env : Env) (q : CronRow) (qs : List CronRow) (s : Scheduler)
    → All (λ r. (r.id is q.id) ≡ false) qs
    → s.rows ≡ q ∷ qs
    → (record_missed_row croner env q s).rows ≡ account croner env q q ∷ qs
unfolding update
first_row croner env q qs s n e =
    ground (
      arith,
      row_rows croner env q s,
      e,
      eq_refl q.id,
      update_other q.id (account croner env q) qs n,
    )

all_rows :
    (croner : Croner) (env : Env) (rows : List CronRow) (s : Scheduler)
    → DistinctIds rows
    → s.rows ≡ rows
    → (record_missed_rows croner env (keep_if is_enabled rows) s).rows
      ≡ map (accounted croner env) rows
unfolding record_missed_rows
all_rows croner env [] s d e = e
all_rows croner env (q ∷ qs) s d e =
    let rest = all_rows croner env qs (record s { rows = qs }) d.1 refl in
    let others = All-keep_if is_enabled (λ r. (r.id is q.id) ≡ false) qs d.0 in
    elim (Bool-cases q.enabled) [
      | inl on ↦
          let head = account croner env q q in
          let same = account-id croner env q q in
          let done =
            (rows_front croner env head (keep_if is_enabled qs) qs
                (record_missed_row croner env q s) (record s { rows = qs })
                (first_row croner env q qs s d.0 e) refl
                (subst (λ k. All (λ r. (r.id is k) ≡ false) (keep_if is_enabled qs)) (sym same)
                  others)
              ∙ ap (λ t. head ∷ t) rest) in
          ground (arith, on, done)
      | inr off ↦
          let done =
            rows_front croner env q (keep_if is_enabled qs) qs s (record s { rows = qs }) e refl
              others
            ∙ ap (λ t. q ∷ t) rest in
          ground (arith, off, done)
    ]

-- With different ids, a start accounts each enabled row of the table, against its own schedule and
-- anchor, and leaves each other row alone.
record_missed_accounts :
    (croner : Croner) (env : Env) (s : Scheduler)
    → DistinctIds s.rows
    → (record_missed croner env s).rows ≡ map (accounted croner env) s.rows
unfolding record_missed
record_missed_accounts croner env s d = all_rows croner env s.rows s d refl

abbrev pub is_schedulable : Croner → Env → CronRow → Bool
is_schedulable croner env r = not (is_some (schedule_problem croner env r))

load_rows_jobs :
    (croner : Croner) (env : Env) (id : String) (rs : List CronRow) (s : Scheduler)
    → is_some (dict_get (load_rows croner env rs s).jobs id)
      ≡ (any (λ r. r.id is id && is_schedulable croner env r) rs || is_some (dict_get s.jobs id))
unfolding load_rows
load_rows_jobs croner env id [] s = refl
load_rows_jobs croner env id (r ∷ rs) s = elim (Option-cases (schedule_problem croner env r)) [
  | inl e ↦ ground (
    arith,
    e,
    load_rows_jobs croner env id rs (record s {
      jobs = dict_set s.jobs r.id (record { schedule = r.schedule; timezone = r.timezone });
    }),
    dict_get-dict_set s.jobs r.id id (record { schedule = r.schedule; timezone = r.timezone }),
  )
  | inr (m, e) ↦ ground (
    arith,
    e,
    load_rows_jobs croner env id rs (record s { problems = dict_set s.problems r.id m }),
  )
]

load_rows_problems :
    (croner : Croner) (env : Env) (id : String) (rs : List CronRow) (s : Scheduler)
    → is_some (dict_get (load_rows croner env rs s).problems id) ≡ (
        any (λ r. r.id is id && not (is_schedulable croner env r)) rs
        || is_some (dict_get s.problems id))
unfolding load_rows
load_rows_problems croner env id [] s = refl
load_rows_problems croner env id (r ∷ rs) s = elim (Option-cases (schedule_problem croner env r)) [
  | inl e ↦ ground (
    arith,
    e,
    load_rows_problems croner env id rs (record s {
      jobs = dict_set s.jobs r.id (record { schedule = r.schedule; timezone = r.timezone });
    }),
  )
  | inr (m, e) ↦ ground (
    arith,
    e,
    load_rows_problems croner env id rs (record s { problems = dict_set s.problems r.id m }),
    dict_get-dict_set s.problems r.id id m,
  )
]

-- After a load, an id has a job exactly if an enabled row with that id has a pattern that is
-- accepted and that has a next run, and it has a problem exactly if an enabled row with that id has
-- not; what an earlier load left is gone.
load_splits :
    (croner : Croner) (env : Env) (s : Scheduler) (id : String)
    → let enabled = keep_if is_enabled s.rows in
      (is_some (dict_get (load croner env s).jobs id)
        ≡ any (λ r. r.id is id && is_schedulable croner env r) enabled)
      × (is_some (dict_get (load croner env s).problems id)
          ≡ any (λ r. r.id is id && not (is_schedulable croner env r)) enabled)
unfolding load dict_get
load_splits croner env s id =
    let clean = record s { jobs = []; problems = [] } in
    (
      ground (arith, load_rows_jobs croner env id (keep_if is_enabled s.rows) clean),
      ground (arith, load_rows_problems croner env id (keep_if is_enabled s.rows) clean),
    )
