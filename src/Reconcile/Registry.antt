-- ===== src/Reconcile/Registry.antt =====
-- src/reconcile/index.ts, `mirrorAgents`: the table `agent` as a mirror of the configuration.
use hellodac.Prelude.{
  ℕ, suc, String, Bool, true, false, not, Option, List, [], ◌∷◌, ◌++◌, map, if◌then◌else◌, ◌is◌,
  any, keep_if,
}

-- The fields of `ResolvedAgent` that are mirrored (`AgentRowFace`).
pub record AgentRowFace : Type 0 where
  pub id : String
  pub name : String
  pub workspace_path : String
  pub endpoint : String
  pub preset : Option String
  pub git_remote : Option String
  pub public : Bool

-- A row of the table `agent`; `public` is 0 or 1 there.
pub record AgentRow : Type 0 where
  pub face : AgentRowFace
  pub created_at : ℕ

pub record MirrorResult : Type 0 where
  pub inserted : ℕ
  pub updated : ℕ
  pub deleted : ℕ

abbrev pub row_of : AgentRowFace → ℕ → AgentRow
row_of agent created_at = record { face = agent; created_at = created_at }

abbrev pub has_id : String → AgentRow → Bool
has_id id r = r.face.id is id

abbrev pub update_row : AgentRowFace → AgentRow → AgentRow
update_row agent r = if has_id agent.id r then row_of agent r.created_at else r

-- The table, and whether the row was inserted.
unfoldable pub mirror_agent_row : ℕ → AgentRowFace → List AgentRow → List AgentRow × Bool
mirror_agent_row now agent rows =
    if any (has_id agent.id) rows
    then (map (update_row agent) rows, false)
    else (rows ++ row_of agent now ∷ [], true)

unfoldable pub remove_agent_row : String → List AgentRow → List AgentRow
remove_agent_row id rows = keep_if (λ r. not (has_id id r)) rows

abbrev pub count_mirrored : Bool → MirrorResult → MirrorResult
count_mirrored true r = record r { inserted = suc r.inserted }
count_mirrored false r = record r { updated = suc r.updated }

-- The loop over the agents of the configuration.
unfoldable pub mirror_each :
    ℕ → List AgentRowFace → List AgentRow × MirrorResult → List AgentRow × MirrorResult
unfolding mirror_agent_row
mirror_each now [] s = s
mirror_each now (agent ∷ agents) s =
    let out = mirror_agent_row now agent s.0 in
    mirror_each now agents (out.0, count_mirrored out.1 s.1)

abbrev pub is_known : List AgentRowFace → String → Bool
is_known agents id = any (λ a. a.id is id) agents

-- The loop over the rows as they were read.
unfoldable pub remove_stale :
    List AgentRowFace → List AgentRow → List AgentRow × MirrorResult → List AgentRow × MirrorResult
unfolding remove_agent_row
remove_stale agents [] s = s
remove_stale agents (row ∷ all) s = remove_stale agents all (
    if is_known agents row.face.id
    then s
    else (remove_agent_row row.face.id s.0, record (s.1) { deleted = suc (s.1).deleted }))

-- The agents of the configuration with its keys as their ids.
unfoldable pub mirror_agents :
    ℕ → Bool → List AgentRowFace → List AgentRow → List AgentRow × MirrorResult
unfolding mirror_each remove_stale
mirror_agents now stale agents rows =
    let mirrored =
      mirror_each now agents (rows, record { inserted = 0; updated = 0; deleted = 0 }) in
    if stale then remove_stale agents mirrored.0 mirrored else mirrored
