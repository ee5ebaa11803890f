-- ===== src/Services/Dispatch/Winner.antt =====
-- src/services/dispatch.ts: the agent that `pickWorker` picks.
use hellodac.Prelude.{
  ℕ, suc, ◌<◌, ◌≡◌, refl, ap, Bool, true, List, [], ◌∷◌, arith, length, any, keep_if, All, In,
  All-imp, keep_if-All, keep_if-All_back, or_default, ◌%◌,
}
use hellodac.Prelude.Sort.{
  IsComparator, IsSorted, NotAfter, by_key-IsComparator, then_by-IsComparator, sort_by, sort_by-All,
  sort_by-All_back, sort_by-IsSorted, length-sort_by,
}
use hellodac.Services.Dispatch.{
  WorkerFacts, DispatchRequest, picked, max_safe_integer, is_candidate, is_full, agent_ids,
  key_sessions, compare_load, compare_ranked, rank_from, ordered, pick_worker,
}

pub compare_load-IsComparator : (req : DispatchRequest) → IsComparator (compare_load req)
unfolding compare_load
compare_load-IsComparator req = then_by-IsComparator _ _ (by_key-IsComparator (λ w. w.sessions)) (
    then_by-IsComparator _ _ (by_key-IsComparator (λ w. w.queue_depth)) (
      then_by-IsComparator _ _
        (by_key-IsComparator (λ w. or_default w.last_turn_ms max_safe_integer))
        (by_key-IsComparator (key_sessions req))))

pub compare_ranked-IsComparator : (req : DispatchRequest) → IsComparator (compare_ranked req)
unfolding compare_ranked
compare_ranked-IsComparator req =
    then_by-IsComparator (λ a b. compare_load req a.0 b.0) _
      (record {
        flip = λ a b. C.flip a.0 b.0;
        lt_trans = λ a b c. C.lt_trans a.0 b.0 c.0;
        lt_eq = λ a b c. C.lt_eq a.0 b.0 c.0;
        eq_lt = λ a b c. C.eq_lt a.0 b.0 c.0;
        eq_eq = λ a b c. C.eq_eq a.0 b.0 c.0;
      })
      (by_key-IsComparator (λ (a : WorkerFacts × ℕ). a.1))
  where
    C : IsComparator (compare_load req)
    C = compare_load-IsComparator req

pub rank_from-All :
    (P : WorkerFacts → Type 0) (n o i : ℕ) (ws : List WorkerFacts)
    → All P ws
    → All (λ (e : WorkerFacts × ℕ). P e.0) (rank_from n o i ws)
unfolding rank_from
rank_from-All P n o i [] h = tt
rank_from-All P n o i (w ∷ ws) h = (h.0, rank_from-All P n o (suc i) ws h.1)

rank_from-All_back :
    (P : WorkerFacts → Type 0) (n o i : ℕ) (ws : List WorkerFacts)
    → All (λ (e : WorkerFacts × ℕ). P e.0) (rank_from n o i ws)
    → All P ws
unfolding rank_from
rank_from-All_back P n o i [] h = tt
rank_from-All_back P n o i (w ∷ ws) h = (h.0, rank_from-All_back P n o (suc i) ws h.1)

length-rank_from : (n o i : ℕ) (ws : List WorkerFacts) → length (rank_from n o i ws) ≡ length ws
unfolding rank_from
length-rank_from n o i [] = refl
length-rank_from n o i (w ∷ ws) = ap suc (length-rank_from n o (suc i) ws)

pub length-ordered :
    (req : DispatchRequest) (cs : List WorkerFacts) → length (ordered req cs) ≡ length cs
unfolding ordered
length-ordered req cs = omega (
  arith,
  length-sort_by (compare_ranked req)
      (rank_from (length cs) (or_default req.rotation_seed 0 % length cs) 0 cs),
  length-rank_from (length cs) (or_default req.rotation_seed 0 % length cs) 0 cs,
)

NotAfter-self : (req : DispatchRequest) (a : WorkerFacts × ℕ) → NotAfter (compare_ranked req) a a
NotAfter-self req a = ground (arith, (compare_ranked-IsComparator req).flip a a)

-- The head of the ordered candidates stands before every one of them.
pub ordered-head :
    (req : DispatchRequest) (cs : List WorkerFacts) (h : WorkerFacts × ℕ)
    (t : List (WorkerFacts × ℕ))
    → ordered req cs ≡ h ∷ t
    → All
        (NotAfter (compare_ranked req) h)
        (rank_from (length cs) (or_default req.rotation_seed 0 % length cs) 0 cs)
unfolding ordered
ordered-head req cs h t e =
    sort_by-All_back (compare_ranked req) (NotAfter (compare_ranked req) h) ranked
      (rw e (NotAfter-self req h, (rw e at sorted).0))
  where
    ranked : List (WorkerFacts × ℕ)
    ranked = rank_from (length cs) (or_default req.rotation_seed 0 % length cs) 0 cs

    sorted : IsSorted (compare_ranked req) (sort_by (compare_ranked req) ranked)
    sorted = sort_by-IsSorted (compare_ranked req) (compare_ranked-IsComparator req) ranked

ordered-All :
    (req : DispatchRequest) (P : WorkerFacts → Type 0) (cs : List WorkerFacts)
    → All P cs
    → All (λ (e : WorkerFacts × ℕ). P e.0) (ordered req cs)
unfolding ordered
ordered-All req P cs h =
    sort_by-All (compare_ranked req) (λ (e : WorkerFacts × ℕ). P e.0) _
      (rank_from-All P (length cs) (or_default req.rotation_seed 0 % length cs) 0 cs h)

candidates_of : DispatchRequest → List WorkerFacts
candidates_of req = keep_if (is_candidate req.max_sessions_per_agent) req.workers

pub keep_if-ne-nil :
    {A : Type 0} (p : A → Bool) (xs : List A) → any p xs ≡ true → 0 < length (keep_if p xs)
keep_if-ne-nil p [] h = cc
keep_if-ne-nil p (x ∷ xs) h = ground (arith, keep_if-ne-nil p xs)

-- An agent of the request that is online and below the limit, that the dispatcher answers with, and
-- that no other such agent comes before in the order of load.
abbrev pub IsWinner : DispatchRequest → WorkerFacts → Type 0
IsWinner req w =
    In w req.workers
    × (is_candidate req.max_sessions_per_agent w ≡ true)
    × (pick_worker req
        ≡ picked w.agent_id w.sessions
            (agent_ids (keep_if (is_full req.max_sessions_per_agent) req.workers)))
    × All (λ v. is_candidate req.max_sessions_per_agent v ≡ true → NotAfter (compare_load req) w v)
        req.workers

pick-IsWinner :
    (req : DispatchRequest) (o : List (WorkerFacts × ℕ))
    → 0 < length (candidates_of req)
    → ordered req (candidates_of req) ≡ o
    → (w : WorkerFacts) × IsWinner req w
unfolding pick_worker compare_ranked candidates_of
pick-IsWinner req [] h e =
    absurd (omega (arith, ap length e, length-ordered req (candidates_of req)))
pick-IsWinner req ((w, r) ∷ t) h e = (w, (member.0, member.1, ground (arith, e), least))
  where
    cap : ℕ
    cap = req.max_sessions_per_agent

    inside :
        All
          (λ (v : WorkerFacts × ℕ). In v.0 req.workers × (is_candidate cap v.0 ≡ true))
          ((w, r) ∷ t)
    inside = rw e at (
        ordered-All req (λ v. In v req.workers × (is_candidate cap v ≡ true)) (candidates_of req)
          (keep_if-All (is_candidate cap) req.workers))

    member : In w req.workers × (is_candidate cap w ≡ true)
    member = inside.0

    bound :
        (v : WorkerFacts × ℕ)
        → NotAfter (compare_ranked req) (w, r) v
        → NotAfter (compare_load req) w v.0
    bound v n = ground arith

    least : All (λ v. is_candidate cap v ≡ true → NotAfter (compare_load req) w v) req.workers
    least = keep_if-All_back (is_candidate cap) (NotAfter (compare_load req) w) req.workers (
        rank_from-All_back (NotAfter (compare_load req) w) _ _ 0 (candidates_of req) (
          All-imp (NotAfter (compare_ranked req) (w, r)) (λ v. NotAfter (compare_load req) w v.0)
            bound _ (ordered-head req (candidates_of req) (w, r) t e)))

-- If some agent is online and below its session limit, `pick_worker` picks an agent of the request
-- that is online and below the limit, reports its id, its sessions and the agents excluded as full,
-- and no agent that could have taken the conversation comes before it in the order of sessions,
-- queue depth, last latency (unknown last) and sessions of the same key.
pub pick_worker-least :
    (req : DispatchRequest)
    → any (is_candidate req.max_sessions_per_agent) req.workers ≡ true
    → (w : WorkerFacts) × IsWinner req w
unfolding candidates_of
pick_worker-least req h =
    pick-IsWinner req (ordered req (candidates_of req))
      (keep_if-ne-nil (is_candidate req.max_sessions_per_agent) req.workers h) refl
