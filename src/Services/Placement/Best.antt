-- ===== src/Services/Placement/Best.antt =====
-- src/services/placement.ts: the candidate of each round, and shortfalls.
use hellodac.Prelude.{
  ℕ, zero, suc, ◌+◌, ◌≤◌, ◌<◌, ◌≡◌, refl, inl, inr, true, List, [], ◌∷◌, arith, length, All, In,
  is_some, Dict, Option-cases, Ordering,
}
use hellodac.Prelude.Sort.{IsComparator, NotAfter, then_by-IsComparator, sort_by-head, sort_by-nil}
use hellodac.Services.Placement.{
  Scores, MachineFacts, PlacementRequest, Placement, blocking_reason, resolve_options, usage,
  candidates_of, compare_placements, choose, place, bump, plan_placement, initial_counts,
}

module _ (scores : Scores) where
  open scores use {
    compare_num, compare_num-IsComparator, locale_compare, locale_compare-IsComparator,
  }

  abbrev by_score : Placement scores → Placement scores → Ordering
  by_score a b = compare_num b.score a.score

  by_score-IsComparator : IsComparator by_score
  by_score-IsComparator = record {
    flip = λ a b. N.flip b.score a.score;
    lt_trans = λ a b c p q. N.lt_trans c.score b.score a.score q p;
    lt_eq = λ a b c p q. N.eq_lt c.score b.score a.score q p;
    eq_lt = λ a b c p q. N.lt_eq c.score b.score a.score q p;
    eq_eq = λ a b c p q. N.eq_eq c.score b.score a.score q p;
  }
    where
      N : IsComparator compare_num
      N = compare_num-IsComparator

  by_id-IsComparator :
      IsComparator (λ (a b : Placement scores). locale_compare a.machine_id b.machine_id)
  by_id-IsComparator = record {
    flip = λ a b. L.flip a.machine_id b.machine_id;
    lt_trans = λ a b c. L.lt_trans a.machine_id b.machine_id c.machine_id;
    lt_eq = λ a b c. L.lt_eq a.machine_id b.machine_id c.machine_id;
    eq_lt = λ a b c. L.eq_lt a.machine_id b.machine_id c.machine_id;
    eq_eq = λ a b c. L.eq_eq a.machine_id b.machine_id c.machine_id;
  }
    where
      L : IsComparator locale_compare
      L = locale_compare-IsComparator

  compare_placements-IsComparator : IsComparator (compare_placements scores)
  unfolding compare_placements
  compare_placements-IsComparator =
      then_by-IsComparator _ _ by_score-IsComparator by_id-IsComparator

  -- Each placement is a candidate of its round, and no candidate of that round comes before it; the
  -- round's counts include the placements before.
  abbrev pub IsGreedy : PlacementRequest → Dict ℕ → List (Placement scores) → Type 0
  IsGreedy req used [] = Unit
  IsGreedy req used (c ∷ cs) =
      (In c (candidates_of scores req used req.machines)
        × All (NotAfter (compare_placements scores) c) (candidates_of scores req used req.machines))
      × IsGreedy req (bump scores used c.machine_id) cs

  -- The counts after these placements.
  abbrev pub counts_after : Dict ℕ → List (Placement scores) → Dict ℕ
  counts_after used [] = used
  counts_after used (c ∷ cs) = counts_after (bump scores used c.machine_id) cs

  -- No machine of the list can take one more agent.
  abbrev pub AllBlocked : PlacementRequest → Dict ℕ → List MachineFacts → Type 0
  AllBlocked req used =
      All (λ m.
        is_some (blocking_reason m req.service_id (resolve_options req) (usage used m)) ≡ true)

  no_candidates :
      (req : PlacementRequest) (used : Dict ℕ) (ms : List MachineFacts)
      → candidates_of scores req used ms ≡ []
      → AllBlocked req used ms
  unfolding candidates_of
  no_candidates req used [] e = tt
  no_candidates req used (m ∷ ms) e =
      elim (Option-cases (blocking_reason m req.service_id (resolve_options req) (usage used m))) [
        | inl b ↦ absurd (ground (arith, e, b))
        | inr (r, b) ↦ (rw b refl, no_candidates req used ms (ground (arith, e, b)))
      ]

  place-IsGreedy :
      (req : PlacementRequest) (rounds : ℕ) (used : Dict ℕ)
      → IsGreedy req used (place scores req rounds used)
  unfolding place
  place-IsGreedy req zero used = tt
  place-IsGreedy req (suc rounds) used = elim (Option-cases (choose scores req used)) [
    | inl e ↦ rw (e, place) tt
    | inr (c, e) ↦
        rw (e, place)
          (
            sort_by-head (compare_placements scores) compare_placements-IsComparator _
                (unfold choose in e),
            place-IsGreedy req rounds (bump scores used c.machine_id),
          )
  ]

  place-short :
      (req : PlacementRequest) (rounds : ℕ) (used : Dict ℕ)
      → length (place scores req rounds used) < rounds
      → AllBlocked req (counts_after used (place scores req rounds used)) req.machines
  unfolding place
  place-short req zero used h = elim h [ ]
  place-short req (suc rounds) used h = elim (Option-cases (choose scores req used)) [
    | inl e ↦
        rw (e, place)
          (no_candidates req used req.machines
            (sort_by-nil (compare_placements scores) _ (unfold choose in e)))
    | inr (c, e) ↦
        let k : suc (length (place scores req rounds (bump scores used c.machine_id)))
            < suc rounds =
          rw (e, place) at h in
        rw (e, place) (place-short req rounds (bump scores used c.machine_id) (omega arith))
  ]

  length-place-le :
      (req : PlacementRequest) (rounds : ℕ) (used : Dict ℕ)
      → length (place scores req rounds used) ≤ rounds
  unfolding place
  length-place-le req zero used = omega arith
  length-place-le req (suc rounds) used = elim (Option-cases (choose scores req used)) [
    | inl e ↦ rw (e, place) (omega arith)
    | inr (c, e) ↦
        rw (e, place) (omega (arith, length-place-le req rounds (bump scores used c.machine_id)))
  ]

  -- The placements and the shortfall make up the count; each placement is, in its round, a machine
  -- that no hard constraint blocks and that no such machine comes before in the order of score, then
  -- id; and if there is a shortfall, then every machine is blocked under the counts at the end.
  pub plan_placement-IsGreedy :
      (req : PlacementRequest)
      → let plan = plan_placement scores req in
        (length plan.placements + plan.shortfall ≡ req.count)
        × IsGreedy req (initial_counts scores req) plan.placements
        × (0 < plan.shortfall
            → AllBlocked req
                (counts_after (initial_counts scores req) plan.placements)
                req.machines)
  unfolding plan_placement
  plan_placement-IsGreedy req = (
    omega (arith, length-place-le req req.count (initial_counts scores req)),
    place-IsGreedy req req.count (initial_counts scores req),
    λ h. place-short req req.count (initial_counts scores req) (omega arith),
  )
