-- ===== src/Services/Plan/Ordinals.antt =====
-- src/services/agents-plan.ts: the ordinals of the plan.
use hellodac.Prelude.{
  ℕ, zero, suc, ◌≤◌, ◌<◌, ◌≡◌, ◌≢◌, Bool, true, false, not, List, [], ◌∷◌, ◌++◌, arith, String,
  length, keep_if, take, All, All-imp, keep_if-All, ◌==◌, if◌then◌else◌, In, Bool-cases, inl, inr,
  All-reverse, All-take, keep_if-All_keep,
}
use hellodac.Prelude.Sort.{
  sort_by, sort_by-IsSorted, IsSorted, by_key-IsComparator, NotAfter, DistinctBy,
  sort_by-DistinctBy, DistinctBy-append,
}
use hellodac.Services.Placement.{Scores, Placement, plan_placement}
use hellodac.Services.Plan.{
  PlannedAgent, ExistingAgent, AgentsPlanRequest, kept, surplus, range_from, wanted_ordinals,
  has_ordinal, free_ordinals, is_busy, created, kept_of, retired_of, placement_request, plan_agents,
  by_ordinal, by_agent_ordinal,
}

abbrev pub ordinal_of : PlannedAgent → ℕ
ordinal_of a = a.ordinal

-- What holds of the ordinals of all existing agents holds of those that stay and of the surplus.
kept-All :
    (P : ℕ → Type 0) (service : String) (es : List ExistingAgent) (ws : List ℕ)
    → All (λ e. P e.ordinal) es
    → All (λ a. P (ordinal_of a)) (kept service es ws)
      × All (λ a. P (ordinal_of a)) (surplus service es ws)
unfolding kept surplus
kept-All P service [] ws h = (tt, tt)
kept-All P service (e ∷ es) [] h = (tt, (h.0, (kept-All P service es [] h.1).1))
kept-All P service (e ∷ es) (w ∷ ws) h =
    let rest = kept-All P service es ws h.1 in ((h.0, rest.0), rest.1)

kept-DistinctBy :
    (service : String) (es : List ExistingAgent) (ws : List ℕ)
    → DistinctBy (λ (e : ExistingAgent). e.ordinal) es
    → DistinctBy ordinal_of (kept service es ws)
unfolding kept
kept-DistinctBy service [] ws d = tt
kept-DistinctBy service (e ∷ es) [] d = tt
kept-DistinctBy service (e ∷ es) (w ∷ ws) d =
    ((kept-All (λ o. e.ordinal ≢ o) service es ws d.0).0, kept-DistinctBy service es ws d.1)

-- In a sorted list, those that stay come before the surplus.
kept-le-surplus :
    (service : String) (es : List ExistingAgent) (ws : List ℕ)
    → IsSorted by_ordinal es
    → All (λ a. All (λ b. b.ordinal ≤ a.ordinal) (kept service es ws)) (surplus service es ws)
unfolding kept surplus by_ordinal
kept-le-surplus service [] ws s = tt
kept-le-surplus service (e ∷ es) [] s = (
  tt,
  All-imp (λ a. All (λ (b : PlannedAgent). b.ordinal ≤ a.ordinal) (kept service es [])) (λ a. Unit)
      (λ a h. tt) _ (kept-le-surplus service es [] s.1),
)
kept-le-surplus service (e ∷ es) (w ∷ ws) s =
    both (surplus service es ws) first (kept-le-surplus service es ws s.1)
  where
    first : All (λ (a : PlannedAgent). e.ordinal ≤ a.ordinal) (surplus service es ws)
    first =
        (kept-All (λ o. e.ordinal ≤ o) service es ws
          (All-imp (NotAfter by_ordinal e) (λ x. e.ordinal ≤ x.ordinal) (λ x n. ground arith) es
            s.0)).1

    both :
        (xs : List PlannedAgent)
        → All (λ (a : PlannedAgent). e.ordinal ≤ a.ordinal) xs
        → All (λ a. All (λ (b : PlannedAgent). b.ordinal ≤ a.ordinal) (kept service es ws)) xs
        → All
            (λ a.
              (e.ordinal ≤ a.ordinal)
              × All (λ (b : PlannedAgent). b.ordinal ≤ a.ordinal) (kept service es ws))
            xs
    both [] h k = tt
    both (x ∷ xs) h k = ((h.0, k.0), both xs h.1 k.1)

-- A range is distinct, and so is what a filter or a prefix leaves of it.
range-above : (first bound n : ℕ) → bound < first → All (λ o. bound ≢ o) (range_from first n)
range-above first bound zero h = tt
range-above first bound (suc n) h = (omega arith, range-above (suc first) bound n (omega arith))

range-DistinctBy : (first n : ℕ) → DistinctBy (λ o. o) (range_from first n)
range-DistinctBy first zero = tt
range-DistinctBy first (suc n) =
    (range-above (suc first) first n (omega arith), range-DistinctBy (suc first) n)

keep_if-DistinctBy :
    (p : ℕ → Bool) (xs : List ℕ) → DistinctBy (λ o. o) xs → DistinctBy (λ o. o) (keep_if p xs)
keep_if-DistinctBy p [] d = tt
keep_if-DistinctBy p (x ∷ xs) d =
    ground (arith, keep_if-All_keep p (λ o. x ≢ o) xs d.0, keep_if-DistinctBy p xs d.1)

take-DistinctBy : (n : ℕ) (xs : List ℕ) → DistinctBy (λ o. o) xs → DistinctBy (λ o. o) (take n xs)
take-DistinctBy zero xs d = tt
take-DistinctBy (suc n) [] d = tt
take-DistinctBy (suc n) (x ∷ xs) d = (All-take (λ o. x ≢ o) n xs d.0, take-DistinctBy n xs d.1)

not_taken :
    (keep : List PlannedAgent) (o : ℕ) → has_ordinal keep o ≡ false → All (λ a. a.ordinal ≢ o) keep
not_taken [] o h = tt
not_taken (a ∷ keep) o h = (ground arith, not_taken keep o (ground arith))

free-apart :
    (count : ℕ) (keep : List PlannedAgent)
    → All (λ o. All (λ a. a.ordinal ≢ o) keep) (free_ordinals count keep)
unfolding free_ordinals
free-apart count keep =
    All-take (λ o. All (λ (a : PlannedAgent). a.ordinal ≢ o) keep) _ _
      (All-imp (λ o. In o (wanted_ordinals count) × (not (has_ordinal keep o) ≡ true))
        (λ o. All (λ (a : PlannedAgent). a.ordinal ≢ o) keep)
        (λ o h. not_taken keep o (ground (arith, h.1))) _
        (keep_if-All (λ o. not (has_ordinal keep o)) (wanted_ordinals count)))

free-DistinctBy :
    (count : ℕ) (keep : List PlannedAgent) → DistinctBy (λ o. o) (free_ordinals count keep)
unfolding free_ordinals
free-DistinctBy count keep = take-DistinctBy _ _ (
    keep_if-DistinctBy (λ o. not (has_ordinal keep o)) (wanted_ordinals count)
      (range-DistinctBy 1 count))

module _ (scores : Scores) where
  created-All :
      (P : ℕ → Type 0) (service : String) (ps : List (Placement scores)) (os : List ℕ)
      → All P os
      → All (λ a. P (ordinal_of a)) (created scores service ps os)
  unfolding created
  created-All P service [] os h = tt
  created-All P service (p ∷ ps) [] h = tt
  created-All P service (p ∷ ps) (o ∷ os) h = (h.0, created-All P service ps os h.1)

  created-DistinctBy :
      (service : String) (ps : List (Placement scores)) (os : List ℕ)
      → DistinctBy (λ o. o) os
      → DistinctBy ordinal_of (created scores service ps os)
  unfolding created
  created-DistinctBy service [] os d = tt
  created-DistinctBy service (p ∷ ps) [] d = tt
  created-DistinctBy service (p ∷ ps) (o ∷ os) d =
      (created-All (λ x. o ≢ x) service ps os d.0, created-DistinctBy service ps os d.1)

  -- `All` over two lists, the other way round.
  swap-All :
      (xs ys : List PlannedAgent)
      → All (λ y. All (λ x. ordinal_of x ≢ ordinal_of y) xs) ys
      → All (λ x. All (λ y. ordinal_of x ≢ ordinal_of y) ys) xs
  swap-All [] ys h = tt
  swap-All (x ∷ xs) ys h = (
    All-imp (λ y. All (λ z. ordinal_of z ≢ ordinal_of y) (x ∷ xs))
        (λ y. ordinal_of x ≢ ordinal_of y) (λ y k. k.0) ys h,
    swap-All xs ys (
        All-imp (λ y. All (λ z. ordinal_of z ≢ ordinal_of y) (x ∷ xs))
          (λ y. All (λ z. ordinal_of z ≢ ordinal_of y) xs) (λ y k. k.1) ys h),
  )

  new_of : AgentsPlanRequest → List PlannedAgent
  new_of req =
      let free = free_ordinals req.count (kept_of scores req) in
      if length free == 0
      then []
      else created scores req.service_id
          (plan_placement scores (placement_request scores req (length free))).placements free

  together-DistinctBy :
      (req : AgentsPlanRequest)
      → DistinctBy (λ (e : ExistingAgent). e.ordinal) req.existing
      → DistinctBy ordinal_of (kept_of scores req ++ new_of req)
  unfolding new_of
  together-DistinctBy req d =
      let keep = kept_of scores req in
      let free = free_ordinals req.count keep in
      let ps = (plan_placement scores (placement_request scores req (length free))).placements in
      let old : DistinctBy ordinal_of keep =
        kept-DistinctBy req.service_id (sort_by by_ordinal req.existing) (wanted_ordinals req.count)
          (sort_by-DistinctBy by_ordinal (λ (e : ExistingAgent). e.ordinal) req.existing d) in
      let new : DistinctBy ordinal_of (created scores req.service_id ps free) =
        created-DistinctBy req.service_id ps free (free-DistinctBy req.count keep) in
      let apart : All (λ a. All (λ b. ordinal_of b ≢ ordinal_of a) keep)
          (created scores req.service_id ps free) =
        created-All (λ o. All (λ (b : PlannedAgent). b.ordinal ≢ o) keep) req.service_id ps free
          (free-apart req.count keep) in
      elim (Bool-cases (length free == 0)) [
        | inl e ↦ rw e (DistinctBy-append ordinal_of keep [] old tt (swap-All keep [] tt))
        | inr e ↦ rw e (DistinctBy-append ordinal_of keep _ old new (swap-All keep _ apart))
      ]

  -- If the existing agents have distinct ordinals, so have the agents of the plan, which are listed
  -- in ascending order; and every agent that is retired or drains has an ordinal no lower than that
  -- of any agent that stays.
  pub plan_agents_ordinals :
      (req : AgentsPlanRequest)
      → DistinctBy (λ (e : ExistingAgent). e.ordinal) req.existing
      → let plan = plan_agents scores req in
        DistinctBy ordinal_of plan.agents
        × IsSorted by_agent_ordinal plan.agents
        × All (λ a. All (λ b. b.ordinal ≤ a.ordinal) plan.keep) plan.remove
        × All (λ a. All (λ b. b.ordinal ≤ a.ordinal) plan.keep) plan.draining
  unfolding plan_agents new_of
  plan_agents_ordinals req d = (
    sort_by-DistinctBy by_agent_ordinal ordinal_of _ (together-DistinctBy req d),
    sort_by-IsSorted by_agent_ordinal (by_key-IsComparator ordinal_of) _,
    keep_if-All_keep (λ a. not (is_busy req a)) _ _ high,
    keep_if-All_keep (is_busy req) _ _ high,
  )
    where
      high :
          All
            (λ a. All (λ (b : PlannedAgent). b.ordinal ≤ a.ordinal) (kept_of scores req))
            (retired_of scores req)
      high = All-reverse _ _ (
          kept-le-surplus req.service_id (sort_by by_ordinal req.existing)
            (wanted_ordinals req.count)
            (unfold by_ordinal in
              sort_by-IsSorted by_ordinal (by_key-IsComparator (λ (e : ExistingAgent). e.ordinal))
                req.existing))
