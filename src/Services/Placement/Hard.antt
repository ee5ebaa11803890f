-- ===== src/Services/Placement/Hard.antt =====
-- src/services/placement.ts: the hard constraints, and the machine of each round against them.
use hellodac.Prelude.{
  ℕ, ◌+◌, ◌≤◌, ◌<◌, ◌≡◌, refl, inl, inr, true, false, not, Option, none, some, List, [], ◌∷◌, arith,
  All, All-imp, In, Dict, Option-cases, any, includes, is_some, length, ◌is◌, eq_iff, String,
}
use hellodac.Prelude.Sort.{NotAfter}
use hellodac.Services.Placement.{
  Scores, pin, MachineFacts, PlacementRequest, Placement, blocking_reason, resolve_options, usage,
  metrics_known, score_machine, candidates_of, compare_placements, bump, plan_placement,
  initial_counts,
}
use hellodac.Services.Placement.Best.{IsGreedy, counts_after, plan_placement-IsGreedy}

-- A resource that is known has at least so much free.
abbrev pub Enough : Option ℕ → ℕ → Type 0
Enough none bound = Unit
Enough (some free) bound = bound ≤ free

-- What is asked of a machine that runs so many agents.
pub record IsFit (req : PlacementRequest) (used : ℕ) (m : MachineFacts) : Type 0 where
  pub up : m.online ≡ true
  pub no_private : m.has_private_agents ≡ false
  pub one_service : All (λ s. s ≡ req.service_id) m.services
  pub room : used < (resolve_options req).max_agents_per_machine
  pub pinned :
      (resolve_options req).strategy ≡ pin → includes (resolve_options req).pin_machines m.id ≡ true
  pub cpu : Enough m.cpu_free_percent (resolve_options req).thresholds.min_free_cpu_percent
  pub memory : Enough m.mem_free_bytes (resolve_options req).thresholds.min_free_mem_bytes
  pub disk : Enough m.disk_free_bytes (resolve_options req).thresholds.min_free_disk_bytes

All-own :
    (service : String) (ss : List String)
    → any (λ s. not (s is service)) ss ≡ false
    → All (λ s. s ≡ service) ss
All-own service [] h = tt
All-own service (s ∷ ss) h = ground (arith, eq_iff s service, All-own service ss)

own-All :
    (service : String) (ss : List String)
    → All (λ s. s ≡ service) ss
    → any (λ s. not (s is service)) ss ≡ false
own-All service [] h = refl
own-All service (s ∷ ss) h = ground (arith, h.0, eq_iff s service, own-All service ss h.1)

blocking_reason-IsFit :
    (req : PlacementRequest) (m : MachineFacts) (used : ℕ)
    → blocking_reason m req.service_id (resolve_options req) used ≡ none
    → IsFit req used m
unfolding blocking_reason
blocking_reason-IsFit req m used h = record {
  up = ground arith;
  no_private = ground arith;
  one_service = All-own req.service_id m.services (ground arith);
  room = ground arith;
  pinned = λ p. ground arith;
  cpu = ground arith;
  memory = ground arith;
  disk = ground arith;
}

IsFit-blocking_reason :
    (req : PlacementRequest) (m : MachineFacts) (used : ℕ)
    → IsFit req used m
    → blocking_reason m req.service_id (resolve_options req) used ≡ none
unfolding blocking_reason
IsFit-blocking_reason req m used v = ground (
  arith,
  v.up,
  v.no_private,
  own-All req.service_id m.services v.one_service,
  v.room,
  v.pinned,
  v.cpu,
  v.memory,
  v.disk,
)

module _ (scores : Scores) where
  -- A machine as a candidate, at the score that `scoreMachine` gives it.
  abbrev pub candidate : PlacementRequest → Dict ℕ → MachineFacts → Placement scores
  candidate req used m = record {
    machine_id = m.id;
    score = score_machine scores m req.service_id (resolve_options req) (usage used m);
    known = metrics_known m;
  }

  -- The placement is a fit machine of the request, and no fit machine comes before it.
  abbrev pub IsBest : PlacementRequest → Dict ℕ → Placement scores → Type 0
  IsBest req used c =
      ((m : MachineFacts) × In m req.machines
        × IsFit req (usage used m) m
        × (c ≡ candidate req used m))
      × All
          (λ n.
            IsFit req (usage used n) n
            → NotAfter (compare_placements scores) c (candidate req used n))
          req.machines

  -- Each placement is the best of its round; the counts include the placements before.
  abbrev pub AllBest : PlacementRequest → Dict ℕ → List (Placement scores) → Type 0
  AllBest req used [] = Unit
  AllBest req used (c ∷ cs) = IsBest req used c × AllBest req (bump scores used c.machine_id) cs

  candidates-IsFit :
      (req : PlacementRequest) (used : Dict ℕ) (c : Placement scores) (ms : List MachineFacts)
      → In c (candidates_of scores req used ms)
      → (m : MachineFacts) × In m ms × IsFit req (usage used m) m × (c ≡ candidate req used m)
  unfolding candidates_of
  candidates-IsFit req used c [] i = elim i [ ]
  candidates-IsFit req used c (m ∷ ms) i =
      elim (Option-cases (blocking_reason m req.service_id (resolve_options req) (usage used m))) [
        | inl e ↦ elim (rw (e, candidates_of) at i) [
          | inl same ↦ (m, inl refl, blocking_reason-IsFit req m (usage used m) e, same)
          | inr later ↦
              let (n, there, fit, same) = candidates-IsFit req used c ms later in
              (n, inr there, fit, same)
        ]
        | inr (r, e) ↦
            let (n, there, fit, same) =
              candidates-IsFit req used c ms (rw (e, candidates_of) at i) in
            (n, inr there, fit, same)
      ]

  IsFit-candidates :
      (P : Placement scores → Type 0) (req : PlacementRequest) (used : Dict ℕ)
      (ms : List MachineFacts)
      → All P (candidates_of scores req used ms)
      → All (λ n. IsFit req (usage used n) n → P (candidate req used n)) ms
  unfolding candidates_of
  IsFit-candidates P req used [] h = tt
  IsFit-candidates P req used (m ∷ ms) h =
      elim (Option-cases (blocking_reason m req.service_id (resolve_options req) (usage used m))) [
        | inl e ↦
            let k : All P (candidate req used m ∷ candidates_of scores req used ms) =
              rw (e, candidates_of) at h in
            ((λ fit. k.0), IsFit-candidates P req used ms k.1)
        | inr (r, e) ↦ (
          (λ fit. absurd (ground (arith, e, IsFit-blocking_reason req m (usage used m) fit))),
          IsFit-candidates P req used ms (rw (e, candidates_of) at h),
        )
      ]

  greedy-AllBest :
      (req : PlacementRequest) (used : Dict ℕ) (ps : List (Placement scores))
      → IsGreedy scores req used ps
      → AllBest req used ps
  greedy-AllBest req used [] g = tt
  greedy-AllBest req used (c ∷ cs) g = (
    (
      candidates-IsFit req used c req.machines g.0.0,
      IsFit-candidates (NotAfter (compare_placements scores) c) req used req.machines g.0.1,
    ),
    greedy-AllBest req (bump scores used c.machine_id) cs g.1,
  )

  blocked-unfit :
      (req : PlacementRequest) (used : Dict ℕ) (m : MachineFacts)
      → is_some (blocking_reason m req.service_id (resolve_options req) (usage used m)) ≡ true
      → IsFit req (usage used m) m
      → ⊥
  blocked-unfit req used m b fit = ground (arith, b, IsFit-blocking_reason req m (usage used m) fit)

  -- The placements and the shortfall make up the count. Each placement is a machine of the request that
  -- is fit under the counts of its round: online, with no internal agent and no other service, below
  -- the limit of agents, in the pin list under the pin strategy, and with the asked share free of each
  -- resource that is known; and no fit machine comes before it in the order of score, then id. If there
  -- is a shortfall, no machine is fit under the counts at the end.
  pub plan_placement-AllBest :
      (req : PlacementRequest)
      → let plan = plan_placement scores req in
        let used = counts_after scores (initial_counts scores req) plan.placements in
        (length plan.placements + plan.shortfall ≡ req.count)
        × AllBest req (initial_counts scores req) plan.placements
        × (0 < plan.shortfall → All (λ m. IsFit req (usage used m) m → ⊥) req.machines)
  plan_placement-AllBest req =
      let plan = plan_placement scores req in
      let used = counts_after scores (initial_counts scores req) plan.placements in
      let g = plan_placement-IsGreedy scores req in
      (
        g.0,
        greedy-AllBest req (initial_counts scores req) plan.placements g.1,
        λ h.
            All-imp
              (λ m.
                is_some (blocking_reason m req.service_id (resolve_options req) (usage used m))
                ≡ true)
              (λ m. IsFit req (usage used m) m → ⊥) (λ m b. blocked-unfit req used m b) req.machines
              (g.2 h),
      )
