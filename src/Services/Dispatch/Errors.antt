-- ===== src/Services/Dispatch/Errors.antt =====
-- src/services/dispatch.ts: the refusals of `pickWorker`.
use hellodac.Prelude.{
  ◌<◌, ◌≡◌, refl, ◌↔◌, Bool, false, not, List, [], ◌∷◌, arith, length, any, keep_if, All,
  length-keep_if-le,
}
use hellodac.Services.Dispatch.{
  WorkerFacts, DispatchRequest, Refusal, no_worker_online, refused, is_candidate, agent_ids,
  capacity, in_use, refusal, dispatch_candidates, pick_worker,
}

-- Every worker of the list is offline.
abbrev pub AllOffline : List WorkerFacts → Type 0
AllOffline = All (λ w. w.online ≡ false)

length-agent_ids : (ws : List WorkerFacts) → length (agent_ids ws) ≡ length ws
length-agent_ids [] = refl
length-agent_ids (w ∷ ws) = omega (arith, length-agent_ids ws)

offline-all :
    (ws : List WorkerFacts) → length (keep_if (λ w. not w.online) ws) ≡ length ws → AllOffline ws
offline-all [] h = tt
offline-all (w ∷ ws) h =
    ground (arith, length-keep_if-le (λ (v : WorkerFacts). not v.online) ws, offline-all ws)

all-offline :
    (ws : List WorkerFacts) → AllOffline ws → length (keep_if (λ w. not w.online) ws) ≡ length ws
all-offline [] h = refl
all-offline (w ∷ ws) h = ground (arith, all-offline ws h.1)

keep_if-nil : {A : Type 0} (p : A → Bool) (xs : List A) → any p xs ≡ false → keep_if p xs ≡ []
keep_if-nil p [] h = refl
keep_if-nil p (x ∷ xs) h = ground (arith, keep_if-nil p xs)

-- If no agent is both online and below its session limit, `pick_worker` refuses and reports the
-- capacity and the sessions in use over all agents; the reason is `no_worker_online` exactly when
-- the request has an agent and all of them are offline, and `all_full` otherwise.
pick_worker-refused :
    (req : DispatchRequest)
    → any (is_candidate req.max_sessions_per_agent) req.workers ≡ false
    → (why : Refusal) × (pick_worker req ≡ refused why (capacity req) (in_use req))
      × ((why ≡ no_worker_online) ↔ ((0 < length req.workers) × AllOffline req.workers))
unfolding pick_worker dispatch_candidates
pick_worker-refused req h = (
  refusal req (agent_ids (keep_if (λ w. not w.online) req.workers)),
  ground (arith, keep_if-nil (is_candidate req.max_sessions_per_agent) req.workers h),
  (
    λ e. ground (
      arith,
      length-agent_ids (keep_if (λ w. not w.online) req.workers),
      offline-all req.workers,
    ),
    λ e. ground (
      arith,
      length-agent_ids (keep_if (λ w. not w.online) req.workers),
      all-offline req.workers e.1,
    ),
  ),
)
