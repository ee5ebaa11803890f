-- ===== src/Services/Dispatch/Tests.antt =====
-- The dispatcher on concrete loads.
use hellodac.Prelude.{ℕ, ◌≡◌, refl, true, false, none, some, List, [], ◌∷◌, dict_get}
use hellodac.Services.Dispatch.{WorkerFacts, DispatchRequest, picked, compare_load, pick_worker}
use hellodac.Services.Dispatch.Rotation.{pick_worker-rotates}
use hellodac.Services.Dispatch.Winner.{IsWinner, pick_worker-least}

abbrev busy : WorkerFacts
busy = record { agent_id = "a"; online = true; sessions = 2; queue_depth = 0; last_turn_ms = none }

abbrev calm : WorkerFacts
calm = record { agent_id = "b"; online = true; sessions = 1; queue_depth = 0; last_turn_ms = none }

abbrev twin : WorkerFacts
twin = record { agent_id = "c"; online = true; sessions = 1; queue_depth = 0; last_turn_ms = none }

abbrev gone : WorkerFacts
gone = record { agent_id = "d"; online = false; sessions = 0; queue_depth = 0; last_turn_ms = none }

abbrev ask : List WorkerFacts → ℕ → DispatchRequest
ask ws seed = record {
  workers = ws;
  max_sessions_per_agent = 2;
  key_sessions_by_agent = [];
  rotation_seed = some seed;
}

picks_second : pick_worker (ask (busy ∷ gone ∷ calm ∷ twin ∷ []) 3) ≡ picked "c" 1 ("a" ∷ [])
unfolding pick_worker compare_load dict_get
picks_second = refl

pick_worker-least_example : (w : WorkerFacts) × IsWinner (ask (busy ∷ gone ∷ calm ∷ twin ∷ []) 3) w
pick_worker-least_example = pick_worker-least (ask (busy ∷ gone ∷ calm ∷ twin ∷ []) 3) refl

pick_worker-rotates_example :
    pick_worker (ask (busy ∷ gone ∷ calm ∷ twin ∷ []) 3) ≡ picked "c" 1 ("a" ∷ [])
unfolding compare_load dict_get
pick_worker-rotates_example =
    pick_worker-rotates (ask (busy ∷ gone ∷ calm ∷ twin ∷ []) 3) twin
      ((refl, (refl, tt)), ((refl, (refl, tt)), tt)) refl
