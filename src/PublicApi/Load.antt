-- ===== src/PublicApi/Load.antt =====
-- src/public-api/service-load.ts: how busy the agents of a service are.
use hellodac.Prelude.{
  ℕ, ◌+◌, ◌-◌, ◌≡◌, refl, arith, String, Bool, not, ◌&&◌, Option, none, some, List, [], ◌∷◌, map,
  ltb, or_default, is_some, ◌is◌, includes, eq_iff, Dict, dict_get, dict_set, dict_get-dict_set,
  count_if, keep_if, take, find_if, All, compare, Ordering, ap,
}
use hellodac.Prelude.Sort.{sort_by}
use hellodac.PublicApi.Tables.{Run, Chat, Db, is_open, is_finished, has_text}

pub record ServiceLoad : Type 0 where
  pub agent_id : String
  pub online : Bool
  pub sessions : ℕ
  pub queue_depth : ℕ
  pub last_turn_ms : Option ℕ

-- `counts.set(id, (counts.get(id) ?? 0) + 1)` over the rows.
unfoldable pub tally : Dict ℕ → List String → Dict ℕ
tally counts [] = counts
tally counts (id ∷ ids) = tally (dict_set counts id (or_default (dict_get counts id) 0 + 1)) ids

abbrev pub agent_of_chat : Chat → String
agent_of_chat c = c.agent_id

abbrev pub agent_of_run : Run → String
agent_of_run r = r.agent_id

abbrev pub is_live : List String → Chat → Bool
is_live agents c = not (is_some c.removed_at) && includes agents c.agent_id

abbrev pub is_queued : List String → Run → Bool
is_queued agents r = includes agents r.agent_id && is_open r.state

unfoldable pub session_counts : Db → List String → Dict ℕ
unfolding tally
session_counts db agents = tally [] (map agent_of_chat (keep_if (is_live agents) db.chats))

unfoldable pub queue_counts : Db → List String → Dict ℕ
unfolding tally
queue_counts db agents = tally [] (map agent_of_run (keep_if (is_queued agents) db.runs))

-- The newest finished runs of an agent, down to a limit.
abbrev pub newest_first : Run → Run → Ordering
newest_first a b = compare b.started_at a.started_at

abbrev pub took_time : Run → Bool
took_time r = ltb r.started_at (or_default r.ended_at 0)

abbrev pub duration : Run → ℕ
duration r = or_default r.ended_at 0 - r.started_at

unfoldable pub last_turn : Db → ℕ → String → Option ℕ
unfolding sort_by
last_turn db limit agent =
    let done = keep_if (λ r. r.agent_id is agent && is_finished r.state) db.runs in
    elim (find_if took_time (take limit (sort_by newest_first done))) [
      | none ↦ none
      | some r ↦ some (duration r)
    ]

unfoldable pub load_of : Db → (String → Bool) → ℕ → List String → String → ServiceLoad
load_of db is_online limit agents agent = record {
  agent_id = agent;
  online = is_online agent;
  sessions = or_default (dict_get (session_counts db agents) agent) 0;
  queue_depth = or_default (dict_get (queue_counts db agents) agent) 0;
  last_turn_ms = last_turn db limit agent;
}

unfoldable pub load_service_load : Db → (String → Bool) → ℕ → List String → List ServiceLoad
load_service_load db is_online limit agents = map (load_of db is_online limit agents) agents

abbrev pub is_held : String → List String → Chat → Bool
is_held key agents c =
    has_text c.api_key_id key && not (is_some c.removed_at) && includes agents c.agent_id

unfoldable pub key_sessions_by_agent : Db → String → List String → Dict ℕ
unfolding tally
key_sessions_by_agent db key agents =
    tally [] (map agent_of_chat (keep_if (is_held key agents) db.chats))

tally-get :
    (counts : Dict ℕ) (ids : List String) (id : String)
    → or_default (dict_get (tally counts ids) id) 0
      ≡ or_default (dict_get counts id) 0 + count_if (λ k. k is id) ids
unfolding tally
tally-get counts [] id = omega arith
tally-get counts (k ∷ ks) id = ground (
  arith,
  tally-get (dict_set counts k (or_default (dict_get counts k) 0 + 1)) ks id,
  dict_get-dict_set counts k id (or_default (dict_get counts k) 0 + 1),
  eq_iff k id,
)

-- A count over the kept rows, by the column and the test.
count-keep_if :
    {A : Type 0} (key : A → String) (p : A → Bool) (id : String) (rows : List A)
    → count_if (λ k. k is id) (map key (keep_if p rows)) ≡ count_if (λ a. p a && key a is id) rows
count-keep_if key p id [] = refl
count-keep_if key p id (a ∷ as') = ground (arith, count-keep_if key p id as')

tally-count :
    {A : Type 0} (key : A → String) (p : A → Bool) (id : String) (rows : List A)
    → or_default (dict_get (tally [] (map key (keep_if p rows))) id) 0
      ≡ count_if (λ a. p a && key a is id) rows
unfolding dict_get
tally-count key p id rows =
    omega (arith, tally-get [] (map key (keep_if p rows)) id, count-keep_if key p id rows)

-- The load of an agent agrees with the tables: its live conversations and its open runs.
abbrev pub IsLoadOf : Db → (String → Bool) → List String → ServiceLoad → Type 0
IsLoadOf db is_online agents l =
    (l.online ≡ is_online l.agent_id)
    × (l.sessions ≡ count_if (λ c. is_live agents c && c.agent_id is l.agent_id) db.chats)
    × (l.queue_depth ≡ count_if (λ r. is_queued agents r && r.agent_id is l.agent_id) db.runs)

load_of-IsLoadOf :
    (db : Db) (is_online : String → Bool) (limit : ℕ) (agents : List String) (agent : String)
    → IsLoadOf db is_online agents (load_of db is_online limit agents agent)
unfolding load_of session_counts queue_counts
load_of-IsLoadOf db is_online limit agents agent = (
  refl,
  tally-count agent_of_chat (is_live agents) agent db.chats,
  tally-count agent_of_run (is_queued agents) agent db.runs,
)

loads_in_order :
    (db : Db) (is_online : String → Bool) (limit : ℕ) (agents some_agents : List String)
    → let loads = map (load_of db is_online limit agents) some_agents in
      (map (λ (l : ServiceLoad). l.agent_id) loads ≡ some_agents)
      × All (IsLoadOf db is_online agents) loads
unfolding load_of
loads_in_order db is_online limit agents [] = (refl, tt)
loads_in_order db is_online limit agents (a ∷ as') =
    let (names, right) = loads_in_order db is_online limit agents as' in
    (ap (λ t. a ∷ t) names, (load_of-IsLoadOf db is_online limit agents a, right))

-- The load lists the agents of the service in their order, each with its liveness, the number of its
-- conversations that are not removed and the number of its runs that are pending or running.
load_service_load_counts :
    (db : Db) (is_online : String → Bool) (limit : ℕ) (agents : List String)
    → (map (λ (l : ServiceLoad). l.agent_id) (load_service_load db is_online limit agents) ≡ agents)
      × All (IsLoadOf db is_online agents) (load_service_load db is_online limit agents)
unfolding load_service_load
load_service_load_counts db is_online limit agents = loads_in_order db is_online limit agents agents

-- What is counted for an agent and a key is the number of the key's conversations on that agent that
-- are not removed, where the agent is one of those asked for.
key_sessions_count :
    (db : Db) (key : String) (agents : List String) (agent : String)
    → or_default (dict_get (key_sessions_by_agent db key agents) agent) 0
      ≡ count_if (λ c. is_held key agents c && c.agent_id is agent) db.chats
unfolding key_sessions_by_agent
key_sessions_count db key agents agent =
    tally-count agent_of_chat (is_held key agents) agent db.chats
