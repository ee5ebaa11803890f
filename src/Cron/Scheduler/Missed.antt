-- ===== src/Cron/Scheduler/Missed.antt =====
-- src/cron/schedule.ts: the occurrences that passed while the process was down.
use hellodac.Prelude.{
  ℕ, true, false, zero, suc, inl, inr, ◌≡◌, ◌<◌, ◌≤◌, ◌+◌, refl, none, some, [], ◌∷◌, arith, length,
  Bool-cases, Option-cases, leb, if◌then◌else◌, ◌==◌, Option, String,
}
use hellodac.Cron.Scheduler.State.{CronRow, Croner, Env}
use hellodac.Cron.Scheduler.Load.{missed_cap, since_of, last_or, passed, missed_count, account}

module _ (croner : Croner) (r : CronRow) where
  next : ℕ → Option ℕ
  next since = croner.next_run r.schedule r.timezone since

  passed_zero : (now since : ℕ) → passed croner r now 0 since ≡ []
  unfolding passed
  passed_zero now since = rw (croner.next_runs_zero r.schedule r.timezone since) refl

  passed_end : (now n since : ℕ) → next since ≡ none → passed croner r now (suc n) since ≡ []
  unfolding passed next
  passed_end now n since e = rw (croner.next_runs_end r.schedule r.timezone n since e) refl

  passed-suc :
      (now n since t : ℕ)
      → next since ≡ some t
      → passed croner r now (suc n) since
        ≡ (if leb t now then t ∷ passed croner r now n t else passed croner r now n t)
  unfolding passed next
  passed-suc now n since t e = rw (croner.next_runs_suc r.schedule r.timezone n since t e) refl

  next_later : (since t : ℕ) → next since ≡ some t → since < t
  unfolding next
  next_later since t e = croner.next_run_later r.schedule r.timezone since t e

  -- Nothing after now has passed.
  passed_none : (now n since : ℕ) → now ≤ since → passed croner r now n since ≡ []
  passed_none now zero since l = passed_zero now since
  passed_none now (suc n) since l = elim (Option-cases (next since)) [
    | inl e ↦ passed_end now n since e
    | inr (t, e) ↦ ground (
      arith,
      passed-suc now n since t e,
      next_later since t e,
      passed_none now n t (ground (arith, next_later since t e, l)),
    )
  ]

  -- A larger cap changes nothing that a smaller one did not cut off.
  passed_cap :
      (now n m since : ℕ)
      → n ≤ m
      → length (passed croner r now n since) < n
      → passed croner r now m since ≡ passed croner r now n since
  passed_cap now zero m since k l = ground arith
  passed_cap now (suc n) zero since k l = ground arith
  passed_cap now (suc n) (suc m) since k l = elim (Option-cases (next since)) [
    | inl e ↦ ground (arith, passed_end now n since e, passed_end now m since e)
    | inr (t, e) ↦ ground (
      arith,
      passed-suc now n since t e,
      passed-suc now m since t e,
      passed_cap now n m t,
      passed_none now n t,
      passed_none now m t,
    )
  ]

  -- Under the cap, what passes up to a later time is what passed up to now, and what passes after
  -- the last of these.
  passed_adds :
      (now later n m since : ℕ)
      → now ≤ later
      → n ≤ m
      → length (passed croner r later n since) < n
      → length (passed croner r later n since)
        ≡ length (passed croner r now n since)
          + length (passed croner r later m (last_or since (passed croner r now n since)))
  passed_adds now later zero m since l k b = ground arith
  passed_adds now later (suc n) zero since l k b = ground arith
  passed_adds now later (suc n) (suc m) since l k b = elim (Option-cases (next since)) [
    | inl e ↦
        ground
          (arith, passed_end now n since e, passed_end later n since e, passed_end later m since e)
    | inr (t, e) ↦ elim (Bool-cases (leb t now)) [
      | inl h ↦
          let one : passed croner r now (suc n) since ≡ t ∷ passed croner r now n t =
            ground (arith, passed-suc now n since t e, h) in
          let two : passed croner r later (suc n) since ≡ t ∷ passed croner r later n t =
            ground (arith, passed-suc later n since t e, h, l) in
          rw one (ground (arith, two, b, passed_adds now later n (suc m) t l (ground (arith, k))))
      | inr h ↦
          let empty : passed croner r now (suc n) since ≡ [] =
            ground (arith, passed-suc now n since t e, h, passed_none now n t) in
          rw empty (ground (arith, passed_cap later (suc n) (suc m) since k b))
    ]
  ]

  passed_last : (now n since : ℕ) → since ≤ last_or since (passed croner r now n since)
  passed_last now zero since = ground (arith, passed_zero now since)
  passed_last now (suc n) since = elim (Option-cases (next since)) [
    | inl e ↦ ground (arith, passed_end now n since e)
    | inr (t, e) ↦ elim (Bool-cases (leb t now)) [
      | inl h ↦
          let one : passed croner r now (suc n) since ≡ t ∷ passed croner r now n t =
            ground (arith, passed-suc now n since t e, h) in
          rw one (ground (arith, next_later since t e, passed_last now n t))
      | inr h ↦
          let empty : passed croner r now (suc n) since ≡ [] =
            ground (arith, passed-suc now n since t e, h, passed_none now n t) in
          rw empty (ground arith)
    ]
  ]

  counted :
      (env : Env)
      → croner.refusal r.schedule r.timezone ≡ none
      → 0 < since_of r
      → missed_count croner env r ≡ length (passed croner r env.now missed_cap (since_of r))
  unfolding missed_count
  counted env ok p = ground (arith, ok)

  refused_none :
      (env : Env) (m : String)
      → croner.refusal r.schedule r.timezone ≡ some m
      → missed_count croner env r ≡ 0
  unfolding missed_count
  refused_none env m e = ground (arith, e)

  account_none :
      (env : Env)
      → 0 < since_of r
      → (missed_count croner env r == 0) ≡ true
      → account croner env r r ≡ r
  unfolding account
  account_none env p e = let set : (since_of r == 0) ≡ false = ground (arith, p) in rw (set, e) refl

  -- The last of the occurrences that have passed.
  abbrev pub last_of : Env → ℕ
  last_of env = last_or (since_of r) (passed croner r env.now missed_cap (since_of r))

account_some :
    (croner : Croner) (r : CronRow) (env later : Env)
    → croner.refusal r.schedule r.timezone ≡ none
    → 0 < since_of r
    → (missed_count croner env r == 0) ≡ false
    → missed_count croner later (account croner env r r)
      ≡ length (passed croner r later.now missed_cap (last_of croner r env))
unfolding account passed
account_some croner r env later ok p e =
    let set : (since_of r == 0) ≡ false = ground (arith, p) in
    let kept : 0 < last_of croner r env =
      ground (arith, p, passed_last croner r env.now missed_cap (since_of r)) in
    rw (set, e) (counted _ _ later ok kept)

-- A schedule whose anchor is set and that misses fewer occurrences than the cap up to a later time:
-- a start now and a start then report together exactly the occurrences that the later start alone
-- would report, so no occurrence is reported twice or is lost.
pub missed_count_adds :
    (croner : Croner) (env later : Env) (r : CronRow)
    → 0 < since_of r
    → env.now ≤ later.now
    → missed_count croner later r < missed_cap
    → missed_count croner later r
      ≡ missed_count croner env r + missed_count croner later (account croner env r r)
missed_count_adds croner env later r p k b = elim (Bool-cases (missed_count croner env r == 0)) [
  | inl e ↦ rw (account_none croner r env p e) (ground (arith, e))
  | inr e ↦ elim (Option-cases (croner.refusal r.schedule r.timezone)) [
    | inl ok ↦ ground (
      arith,
      counted croner r env ok p,
      counted croner r later ok p,
      account_some croner r env later ok p e,
      passed_adds croner r env.now later.now missed_cap missed_cap (since_of r) k,
      b,
    )
    | inr (m, refused) ↦ ground (arith, e, refused_none croner r env m refused)
  ]
]

-- When a whole cap of occurrences of a schedule is reported and the next occurrence after the last
-- of them has passed as well, a second start at the same time reports some more.
pub missed_cap_repeats :
    (croner : Croner) (env : Env) (r : CronRow) (t : ℕ)
    → 0 < since_of r
    → missed_count croner env r ≡ missed_cap
    → croner.next_run r.schedule r.timezone (last_of croner r env) ≡ some t
    → t ≤ env.now
    → 0 < missed_count croner env (account croner env r r)
unfolding next
missed_cap_repeats croner env r t p full e l =
    elim (Option-cases (croner.refusal r.schedule r.timezone)) [
      | inl ok ↦ ground (
        arith,
        account_some croner r env env ok p (ground (arith, full)),
        passed-suc croner r env.now 99 (last_of croner r env) t e,
        l,
      )
      | inr (m, refused) ↦ ground (arith, full, refused_none croner r env m refused)
    ]
