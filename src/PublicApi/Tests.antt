-- ===== src/PublicApi/Tests.antt =====
-- A key with a few runs, and a service of two agents.
use hellodac.Prelude.{
  List, ℕ, ◌+◌, ◌≡◌, ◌≤◌, refl, String, true, Option, none, some, [], ◌∷◌, map, dict_get, dict_set,
  count_if, arith,
}
use hellodac.Prelude.Sort.{sort_by}
use hellodac.PublicApi.Tables.{Run, Chat, Db, is_running, is_done}
use hellodac.PublicApi.Quota.{
  ApiKey, IsWithin, admitted, quota_exceeded, concurrency_exceeded, check_run_quota,
  runs_used_today, active_runs_for_key, quota_snapshot, check_run_quota_admits,
}
use hellodac.PublicApi.Sweep.{
  Service, Talk, windows, archive, sweep_idle_conversations, is_due, sweep_settles,
  swept as swept_row,
}
use hellodac.PublicApi.Load.{
  ServiceLoad, load_service_load, load_of, session_counts, queue_counts, tally, last_turn,
}

abbrev ran : String → ℕ → Run
ran agent at = record {
  agent_id = agent;
  api_key_id = some "k";
  state = is_done;
  started_at = at;
  ended_at = some (at + 7);
}

abbrev runs_now : Run
runs_now = record {
  agent_id = "a1";
  api_key_id = some "k";
  state = is_running;
  started_at = 120;
  ended_at = none;
}

abbrev talks : String → Option ℕ → Chat
talks agent removed = record { agent_id = agent; api_key_id = some "k"; removed_at = removed }

abbrev db : Db
db = record {
  runs = runs_now ∷ ran "a1" 90 ∷ ran "a2" 110 ∷ [];
  chats = talks "a1" none ∷ talks "a1" (some 80) ∷ talks "a2" none ∷ talks "b" none ∷ [];
}

abbrev key : ℕ → ℕ → ApiKey
key day together = record { id = "k"; quota_runs_day = some day; max_concurrency = together }

verdicts :
    (check_run_quota db (key 5 2) 100 ≡ admitted 2 (some 5) (some 3) 1)
    × (check_run_quota db (key 2 2) 100 ≡ quota_exceeded 2 2 86400100)
    × (check_run_quota db (key 5 1) 100 ≡ concurrency_exceeded 1 1)
unfolding check_run_quota runs_used_today active_runs_for_key
verdicts = (refl, refl, refl)

loads :
    map
      (λ (l : ServiceLoad). l.queue_depth)
      (load_service_load db (λ a. true) 20 ("a1" ∷ "a2" ∷ []))
    ≡ 1 ∷ 0 ∷ []
unfolding load_service_load load_of session_counts queue_counts tally last_turn sort_by dict_get
    dict_set
loads = refl

check_run_quota_admits_example :
    IsWithin (some 5) (runs_used_today (record db { runs = runs_now ∷ db.runs }) "k" 100)
    × (active_runs_for_key (record db { runs = runs_now ∷ db.runs }) "k" ≤ 2)
    × ((quota_snapshot (record db { runs = runs_now ∷ db.runs }) (key 5 2) 100).used ≡ 3)
    × (some 3
        ≡ (elim (quota_snapshot (record db { runs = runs_now ∷ db.runs }) (key 5 2) 100).remaining [
          | none ↦ none
          | some n ↦ some (n + 1)
        ]))
unfolding check_run_quota runs_used_today active_runs_for_key
check_run_quota_admits_example =
    check_run_quota_admits db (key 5 2) 100 2 1 (some 5) (some 3) runs_now refl
      (refl, ground arith, refl)

abbrev chats : List Talk
chats =
    record { id = "c1"; service_id = some "faq"; last_active_at = 0; removed_at = none }
    ∷ record { id = "c2"; service_id = none; last_active_at = 0; removed_at = none }
    ∷ record { id = "c3"; service_id = some "faq"; last_active_at = 7000000; removed_at = none }
    ∷ []

abbrev faq : List Service
faq = record { id = "faq"; session_idle_hours = some 1 } ∷ []

swept : (sweep_idle_conversations faq 8000000 chats).1 ≡ 1
unfolding sweep_idle_conversations archive windows dict_get dict_set
swept = refl

sweep_settles_example :
    ((sweep_idle_conversations faq 8000000 chats).0
      ≡ map (swept_row (windows [] faq) 8000000) chats)
    × ((sweep_idle_conversations faq 8000000 chats).1
        ≡ count_if (is_due (windows [] faq) 8000000) chats)
sweep_settles_example = sweep_settles faq 8000000 chats ((refl, (refl, tt)), ((refl, tt), (tt, tt)))
