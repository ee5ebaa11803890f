-- ===== src/Cron/Scheduler/Ceiling.antt =====
-- src/cron/schedule.ts: the switch-off of a schedule that keeps failing.
use hellodac.Prelude.{
  ℕ, suc, ◌≡◌, ◌<◌, ◌≤◌, ◌+◌, ◌⊎◌, inl, inr, refl, String, true, false, none, some, List, [], ◌∷◌,
  arith, length, if◌then◌else◌, dict_get, is_some, map, ap, ◌is◌, Bool-cases,
}
use mathlib.Core.Path.{subst, sym, ◌∙◌}
use mathlib.Core.List.{◌++◌}
use mathlib.Core.Option.{some-injective}
use hellodac.Cron.Scheduler.State.{CronRow, CronAttempt, Config, Scheduler, Env, row}
use hellodac.Cron.Scheduler.Attempt.{Begun, finished, awaiting, attempt, begin, finish}
use hellodac.Cron.Scheduler.Gate.{begin_gate, is_connected, MayRun, begin_spares, Health, health}
use hellodac.Cron.Scheduler.Counted.{
  Failing, result_of, attempt_failing, CountedIn, finish-CountedIn,
}

-- A series of attempts that the timer makes, and how many turns it launches.
unfoldable pub series : Config → String → List Failing → Scheduler → Scheduler
series config id [] s = s
series config id (f ∷ fs) s = series config id fs (attempt_failing config id f s).0

unfoldable pub launches : Config → String → List Failing → Scheduler → ℕ
launches config id [] s = 0
launches config id (f ∷ fs) s =
    let later = launches config id fs (attempt_failing config id f s).0 in
    if (attempt_failing config id f s).1.ran then suc later else later

row-health :
    (id : String) (xs ys : List CronRow) (r : CronRow)
    → map health xs ≡ map health ys
    → row id ys ≡ some r
    → (q : CronRow) × (row id xs ≡ some q) × (health q ≡ health r)
unfolding row
row-health id [] [] r m e = ground arith
row-health id [] (y ∷ ys) r m e = ground arith
row-health id (x ∷ xs) [] r m e = ground arith
row-health id (x ∷ xs) (y ∷ ys) r m e =
    let same : health x ≡ health y = ground (arith, m) in
    let rest : map health xs ≡ map health ys = ground (arith, m) in
    let ids : x.id ≡ y.id = ap (λ (h : Health). h.id) same in
    elim (Bool-cases (y.id is id)) [
      | inl g ↦ (x, rw (ids, g) refl, ground (arith, same, e, g))
      | inr g ↦ rw (ids, g) (row-health id xs ys r rest (ground (arith, e, g)))
    ]

Begun-cases :
    (b : Begun)
    → ((t : Scheduler) × (a : CronAttempt) × (b ≡ finished t a))
      ⊎ ((r : CronRow) × (b ≡ awaiting r))
Begun-cases (finished t a) = inl (t, a, refl)
Begun-cases (awaiting r) = inr (r, refl)

awaiting-enabled :
    (config : Config) (env : Env) (id : String) (s : Scheduler) (r : CronRow)
    → begin config env false id s ≡ awaiting r
    → (row id s.rows ≡ some r) × (r.enabled ≡ true)
awaiting-enabled config env id s r g = ground (arith, (begin_gate config env false id s r).0 g)

-- An attempt of the timer whose turn fails: no turn, and the row's health is kept; or a turn for an
-- enabled row, and one failure more.
abbrev Outcome : Config → String → CronRow → Scheduler → Scheduler × CronAttempt → Type 0
Outcome config id r s out =
    ((out.1.ran ≡ false) × ((q : CronRow) × (row id out.0.rows ≡ some q) × (health q ≡ health r)))
    ⊎ ((out.1.ran ≡ true) × (r.enabled ≡ true) × CountedIn config id r s out.0)

attempt-Outcome :
    (config : Config) (id : String) (f : Failing) (s : Scheduler) (r : CronRow)
    → row id s.rows ≡ some r
    → Outcome config id r s (attempt_failing config id f s)
unfolding attempt
attempt-Outcome config id f s r e = elim (Begun-cases (begin config f.env false id s)) [
  | inl (t, a, g) ↦
      let spared = begin_spares config f.env false id s t a g in
      rw (g, attempt) (inl (spared.0, row-health id t.rows s.rows r spared.1 e))
  | inr (q, g) ↦
      let may = awaiting-enabled config f.env id s q g in
      let counted = finish-CountedIn config id f (record s { usage = f.used ++ s.usage }) q may.0 in
      let same : q ≡ r = some-injective q r (sym may.0 ∙ e) in
      rw (g, attempt)
        (inr (
          counted.1,
          subst (λ k. k.enabled ≡ true) same may.1,
          subst
              (λ k.
                CountedIn config id k s
                  (finish config f.env q (result_of f) (record s { usage = f.used ++ s.usage })).0)
              same counted.0,
        ))
]

-- A row that can still fail, or that is switched off at the ceiling.
abbrev Below : Config → CronRow → Type 0
Below config r =
    (r.consecutive_failures < config.max_consecutive_failures)
    ⊎ ((r.enabled ≡ false) × (r.consecutive_failures ≤ config.max_consecutive_failures))

series-Below :
    (config : Config) (id : String) (fs : List Failing) (s : Scheduler) (r : CronRow)
    → row id s.rows ≡ some r
    → Below config r
    → launches config id fs s + r.consecutive_failures ≤ config.max_consecutive_failures
unfolding launches
series-Below config id [] s r e b = ground arith
series-Below config id (f ∷ fs) s r e b = elim (attempt-Outcome config id f s r e) [
  | inl (n, (q, k, h)) ↦
      let same : q.consecutive_failures ≡ r.consecutive_failures =
        ap (λ (u : Health). u.consecutive_failures) h in
      let switch : q.enabled ≡ r.enabled = ap (λ (u : Health). u.enabled) h in
      ground (
        arith,
        n,
        series-Below config id fs (attempt_failing config id f s).0 q k
            (ground (arith, b, same, switch)),
        same,
      )
  | inr (n, on, (q, k, same_agent, more, switch, job)) ↦ ground (
    arith,
    n,
    series-Below config id fs (attempt_failing config id f s).0 q k
        (ground (arith, b, on, more, switch)),
    more,
  )
]

-- However often the timer attempts a schedule with fewer failures than the ceiling whose turns all
-- fail, under any configuration and whatever it finds of the spend, it launches at most as many turns
-- as the ceiling leaves above the failures that the row has counted.
pub failing_series_bounded :
    (config : Config) (id : String) (fs : List Failing) (s : Scheduler) (r : CronRow)
    → row id s.rows ≡ some r
    → r.consecutive_failures < config.max_consecutive_failures
    → launches config id fs s + r.consecutive_failures ≤ config.max_consecutive_failures
unfolding launches
failing_series_bounded config id fs s r e l = series-Below config id fs s r e (inl l)

attempt_launches :
    (config : Config) (id : String) (f : Failing) (s : Scheduler) (r : CronRow)
    → row id s.rows ≡ some r
    → (is_connected config r ≡ true)
    → MayRun config f.env false r s
    → CountedIn config id r s (attempt_failing config id f s).0
      × ((attempt_failing config id f s).1.ran ≡ true)
unfolding attempt
attempt_launches config id f s r e c m =
    rw ((begin_gate config f.env false id s r).1 (e, c, m), attempt)
      (finish-CountedIn config id f (record s { usage = f.used ++ s.usage }) r e)

connected-agent :
    (config : Config) (q r : CronRow)
    → q.agent_id ≡ r.agent_id
    → is_connected config r ≡ true
    → is_connected config q ≡ true
connected-agent config q r e c = rw e c

-- An enabled schedule whose agent is connected, under no daily budget, whose turns all fail: each
-- attempt launches a turn, and the attempt that brings the count of failures to the ceiling
-- switches the row off and removes its job.
pub failing_series_disables :
    (config : Config) (id : String) (f : Failing) (fs : List Failing) (s : Scheduler) (r : CronRow)
    → config.daily_budget_micro_usd ≡ none
    → row id s.rows ≡ some r
    → (is_connected config r ≡ true)
    → r.enabled ≡ true
    → r.consecutive_failures + suc (length fs) ≡ config.max_consecutive_failures
    → (launches config id (f ∷ fs) s ≡ suc (length fs))
      × (is_some (dict_get (series config id (f ∷ fs) s).jobs id) ≡ false)
      × ((q : CronRow) × (row id (series config id (f ∷ fs) s).rows ≡ some q)
          × (q.enabled ≡ false)
          × (q.consecutive_failures ≡ config.max_consecutive_failures))
unfolding launches series
failing_series_disables config id f [] s r n e c on l =
    let ((q, k, same_agent, more, switch, job), ran) =
      attempt_launches config id f s r e c (inr (on, rw n tt)) in
    (
      ground (arith, ran),
      ground (arith, job, l),
      (q, k, ground (arith, switch, l), ground (arith, more, l)),
    )
failing_series_disables config id f (g ∷ gs) s r n e c on l =
    let ((q, k, same_agent, more, switch, job), ran) =
      attempt_launches config id f s r e c (inr (on, rw n tt)) in
    let rest =
      failing_series_disables config id g gs (attempt_failing config id f s).0 q n k
        (connected-agent config q r same_agent c) (ground (arith, switch, l, on))
        (ground (arith, more, l)) in
    (ground (arith, ran, rest.0), rest.1, rest.2)
