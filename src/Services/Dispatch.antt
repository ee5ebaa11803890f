-- ===== src/Services/Dispatch.antt =====
-- src/services/dispatch.ts: the agent that takes a new conversation.
pub mod Errors
pub mod Rotation
pub mod Winner
mod Tests
use hellodac.Prelude.{
  ℕ, zero, suc, ◌+◌, ◌-◌, ◌*◌, ◌%◌, compare, Ordering, String, Bool, true, false, not, ◌&&◌, Option,
  none, some, List, [], ◌∷◌, map, ltb, leb, ◌==◌, if◌then◌else◌, or_default, length, keep_if,
  sum_by, dict_get, head?,
}
use hellodac.Prelude.Sort.{then_by, sort_by}

pub record WorkerFacts : Type 0 where
  pub agent_id : String
  pub online : Bool
  pub sessions : ℕ
  pub queue_depth : ℕ
  pub last_turn_ms : Option ℕ

pub record DispatchRequest : Type 0 where
  pub workers : List WorkerFacts
  pub max_sessions_per_agent : ℕ
  pub key_sessions_by_agent : List (String × ℕ)
  pub rotation_seed : Option ℕ

pub data Refusal : Type 0 where
  no_worker_online all_full : Refusal

pub data DispatchResult : Type 0 where
  picked : String → ℕ → List String → DispatchResult
  refused : Refusal → ℕ → ℕ → DispatchResult

-- `Number.MAX_SAFE_INTEGER`, the stand-in for a latency that was never measured.
abbrev pub max_safe_integer : ℕ
max_safe_integer = 9007199254740991

unfoldable pub compare_latency : Option ℕ → Option ℕ → Ordering
compare_latency a b = compare (or_default a max_safe_integer) (or_default b max_safe_integer)

-- What the walk over the workers makes of one of them.
abbrev pub is_full : ℕ → WorkerFacts → Bool
is_full cap w = w.online && leb cap w.sessions

abbrev pub is_candidate : ℕ → WorkerFacts → Bool
is_candidate cap w = w.online && not (leb cap w.sessions)

abbrev pub agent_ids : List WorkerFacts → List String
agent_ids = map (λ w. w.agent_id)

-- The candidates, and who was excluded by liveness and by capacity.
unfoldable pub dispatch_candidates :
    DispatchRequest
    → record { candidates : List WorkerFacts; offline : List String; full : List String }
dispatch_candidates req = record {
  candidates = keep_if (is_candidate req.max_sessions_per_agent) req.workers;
  offline = agent_ids (keep_if (λ w. not w.online) req.workers);
  full = agent_ids (keep_if (is_full req.max_sessions_per_agent) req.workers);
}

abbrev pub key_sessions : DispatchRequest → WorkerFacts → ℕ
key_sessions req w = or_default (dict_get req.key_sessions_by_agent w.agent_id) 0

-- The first four comparisons of the sort: sessions, queue, latency, sessions of the same key.
unfoldable pub compare_load : DispatchRequest → WorkerFacts → WorkerFacts → Ordering
unfolding compare_latency
compare_load req a b = then_by (compare a.sessions b.sessions) (
    then_by (compare a.queue_depth b.queue_depth) (
      then_by (compare_latency a.last_turn_ms b.last_turn_ms)
        (compare (key_sessions req a) (key_sessions req b))))

-- The comparator of the sort; the last comparison is between the rotated positions.
unfoldable pub compare_ranked : DispatchRequest → WorkerFacts × ℕ → WorkerFacts × ℕ → Ordering
compare_ranked req a b = then_by (compare_load req a.0 b.0) (compare a.1 b.1)

-- `(index - offset + n) % n`; the offset is below `n`, so the sum is written first.
abbrev pub rotated : ℕ → ℕ → ℕ → ℕ
rotated n offset index = (index + n - offset) % n

-- Each candidate with its rotated position, from a first index on.
unfoldable pub rank_from : ℕ → ℕ → ℕ → List WorkerFacts → List (WorkerFacts × ℕ)
rank_from n offset i [] = []
rank_from n offset i (w ∷ ws) = (w, rotated n offset i) ∷ rank_from n offset (suc i) ws

unfoldable pub ordered : DispatchRequest → List WorkerFacts → List (WorkerFacts × ℕ)
unfolding compare_ranked rank_from sort_by
ordered req cs =
    let n = length cs in
    sort_by (compare_ranked req) (rank_from n (or_default req.rotation_seed 0 % n) 0 cs)

abbrev pub refusal : DispatchRequest → List String → Refusal
refusal req offline =
    if ltb 0 (length req.workers) && (length offline == length req.workers)
    then no_worker_online
    else all_full

abbrev pub capacity : DispatchRequest → ℕ
capacity req = length req.workers * req.max_sessions_per_agent

abbrev pub in_use : DispatchRequest → ℕ
in_use req = sum_by (λ w. w.sessions) req.workers

-- The end of `pickWorker`: the head of the ordered candidates.
unfoldable pub choose : DispatchRequest → List String → Option (WorkerFacts × ℕ) → DispatchResult
choose req full none = refused all_full (capacity req) (in_use req)
choose req full (some (w, r)) = picked w.agent_id w.sessions full

unfoldable pub pick_worker : DispatchRequest → DispatchResult
unfolding choose dispatch_candidates ordered
pick_worker req =
    let d = dispatch_candidates req in
    if length d.candidates == 0
    then refused (refusal req d.offline) (capacity req) (in_use req)
    else choose req d.full (head? (ordered req d.candidates))
