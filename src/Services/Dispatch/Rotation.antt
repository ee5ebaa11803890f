-- ===== src/Services/Dispatch/Rotation.antt =====
-- src/services/dispatch.ts: the seed that breaks ties.
use mathlib.Core.Option.{some-injective}
use mathlib.Core.Path.{subst}
use hellodac.Prelude.{
  ℕ, zero, suc, ◌+◌, ◌%◌, ◌<◌, ◌≡◌, refl, ap, sym, ◌∙◌, Ordering, some, List, [], ◌∷◌, arith,
  length, keep_if, All, get_elem?, All-get_elem?, or_default, get_elem?-lt, head?,
}
use hellodac.Prelude.Sort.{NotAfter, sort_by-All}
use hellodac.Services.Dispatch.{
  WorkerFacts, DispatchRequest, picked, is_candidate, is_full, agent_ids, compare_load,
  compare_ranked, rotated, rank_from, ordered, pick_worker,
}
use hellodac.Services.Dispatch.Winner.{ordered-head, length-ordered}

-- Each candidate carries its position, rotated.
abbrev Placed : List WorkerFacts → ℕ → WorkerFacts × ℕ → Type 0
Placed cs o e =
    (i : ℕ) × (i < length cs) × (get_elem? cs i ≡ some e.0) × (e.1 ≡ rotated (length cs) o i)

suffix-Placed :
    (cs : List WorkerFacts) (o i : ℕ) (ws : List WorkerFacts)
    → ((k : ℕ) → k < length ws → (i + k < length cs) × (get_elem? cs (i + k) ≡ get_elem? ws k))
    → All (Placed cs o) (rank_from (length cs) o i ws)
unfolding rank_from
suffix-Placed cs o i [] h = tt
suffix-Placed cs o i (w ∷ ws) h = (
  (i, omega (arith, (h 0 (omega arith)).0), ground (arith, h 0 (omega arith)), refl),
  suffix-Placed cs o (suc i) ws (λ k l. ground (arith, h (suc k) (omega arith))),
)

rotated-zero : (n o i : ℕ) → o < n → i < n → rotated n o i ≡ 0 → i ≡ o
rotated-zero n o i p q e = grind arith

rotated_self : (n o : ℕ) → o < n → rotated n o o ≡ 0
rotated_self n o p = grind arith

rank_from-at :
    (Q : WorkerFacts × ℕ → Type 0) (n o i k : ℕ) (ws : List WorkerFacts) {w : WorkerFacts}
    → All Q (rank_from n o i ws)
    → get_elem? ws k ≡ some w
    → Q (w, rotated n o (i + k))
unfolding rank_from
rank_from-at Q n o i k [] h e = cc
rank_from-at Q n o i zero (v ∷ ws) {w} h e =
    subst (λ u. Q (u, rotated n o (i + 0))) (some-injective _ _ e)
      (subst (λ j. Q (v, rotated n o j)) (omega arith) h.0)
rank_from-at Q n o i (suc k) (v ∷ ws) {w} h e =
    subst (λ j. Q (w, rotated n o j)) (omega arith) (rank_from-at Q n o (suc i) k ws h.1 e)

-- All candidates carry the same load.
abbrev pub Tied : DispatchRequest → List WorkerFacts → Type 0
Tied req cs = All (λ v. All (λ u. compare_load req v u ≡ Ordering.eq) cs) cs

abbrev pub candidates_of : DispatchRequest → List WorkerFacts
candidates_of req = keep_if (is_candidate req.max_sessions_per_agent) req.workers

abbrev pub seed_of : DispatchRequest → ℕ
seed_of req = or_default req.rotation_seed 0

head-Placed :
    (req : DispatchRequest) (cs : List WorkerFacts) (o : List (WorkerFacts × ℕ))
    → ordered req cs ≡ o
    → All (Placed cs (seed_of req % length cs)) o
unfolding ordered
head-Placed req cs o p = rw p at (
    sort_by-All (compare_ranked req) (Placed cs (seed_of req % length cs)) _ (
      suffix-Placed cs (seed_of req % length cs) 0 cs
        (λ k l. (omega arith, ap (get_elem? cs) (omega arith)))))

head-rotates :
    (req : DispatchRequest) (cs : List WorkerFacts) (w : WorkerFacts) (o : List (WorkerFacts × ℕ))
    → Tied req cs
    → get_elem? cs (seed_of req % length cs) ≡ some w
    → ordered req cs ≡ o
    → (r : ℕ) × (head? o ≡ some (w, r))
unfolding compare_ranked
head-rotates req cs w [] tied e p =
    absurd (omega (arith, ap length p, length-ordered req cs, get_elem?-lt cs _ e))
head-rotates req cs w ((h, r) ∷ t) tied e p = (r, ap (λ v. some (v, r)) same)
  where
    n : ℕ
    n = length cs

    k : ℕ
    k = seed_of req % n

    inside : k < n
    inside = get_elem?-lt cs k e

    place : Placed cs k (h, r)
    place = (head-Placed req cs ((h, r) ∷ t) p).0

    before : NotAfter (compare_ranked req) (h, r) (w, rotated n k (0 + k))
    before =
        rank_from-at (NotAfter (compare_ranked req) (h, r)) n k 0 k cs
          (ordered-head req cs (h, r) t p) e

    equal : compare_load req h w ≡ Ordering.eq
    equal =
        All-get_elem? (λ u. compare_load req h u ≡ Ordering.eq) cs k
          (All-get_elem? (λ v. All (λ u. compare_load req v u ≡ Ordering.eq) cs) cs place.0 tied
            place.2)
          e

    at_front : rotated n k (0 + k) ≡ 0
    at_front = ap (rotated n k) (omega arith) ∙ rotated_self n k inside

    first : rotated n k place.0 ≡ 0
    first = ground (arith, before, equal, at_front, place.3)

    same : h ≡ w
    same =
        some-injective _ _
          (sym place.2 ∙ ap (get_elem? cs) (rotated-zero n k place.0 inside place.1 first) ∙ e)

-- If all agents that can take the conversation carry the same load, then the seed, modulo their
-- number, is the position of the one that is picked: successive seeds walk through them in order.
pub pick_worker-rotates :
    (req : DispatchRequest) (w : WorkerFacts)
    → Tied req (candidates_of req)
    → get_elem? (candidates_of req) (seed_of req % length (candidates_of req)) ≡ some w
    → pick_worker req
      ≡ picked w.agent_id w.sessions
          (agent_ids (keep_if (is_full req.max_sessions_per_agent) req.workers))
unfolding pick_worker
pick_worker-rotates req w tied e =
    let cs = candidates_of req in
    ground (arith, head-rotates req cs w (ordered req cs) tied e refl, get_elem?-lt cs _ e)
