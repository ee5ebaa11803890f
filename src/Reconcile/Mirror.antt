-- ===== src/Reconcile/Mirror.antt =====
-- src/reconcile/index.ts: the table `agent` against the configuration.
use hellodac.Prelude.{
  ℕ, suc, ◌+◌, ◌≡◌, refl, arith, String, Bool, false, not, ◌&&◌, Option, none, some, List, [], ◌∷◌,
  ◌++◌, map, if◌then◌else◌, ◌is◌, any, count_if, find_if, length, is_some, eq_iff,
}
use hellodac.Reconcile.Registry.{
  AgentRowFace, AgentRow, MirrorResult, row_of, has_id, update_row, mirror_agent_row,
  remove_agent_row, count_mirrored, mirror_each, is_known, remove_stale, mirror_agents,
}

-- The table as a partial function of the id, and the configuration likewise.
abbrev pub lookup : List AgentRow → String → Option AgentRow
lookup rows id = find_if (has_id id) rows

abbrev pub agent_of : List AgentRowFace → String → Option AgentRowFace
agent_of agents id = find_if (λ a. a.id is id) agents

abbrev pub created : ℕ → Option AgentRow → ℕ
created now none = now
created now (some r) = r.created_at

-- What the table should hold for an id: the agent's row with the date of its first insertion, and for
-- an id that has no agent nothing, or what is there if nothing is removed.
abbrev pub wanted : ℕ → Bool → Option AgentRowFace → Option AgentRow → Option AgentRow
wanted now stale none old = if stale then none else old
wanted now stale (some agent) old = some (row_of agent (created now old))

-- Different agents have different ids.
abbrev pub Distinct : List AgentRowFace → Type 0
Distinct [] = Unit
Distinct (a ∷ agents) = (agent_of agents a.id ≡ none) × Distinct agents

lookup-append :
    (rows : List AgentRow) (r : AgentRow) (id : String)
    → any (has_id r.face.id) rows ≡ false
    → lookup (rows ++ r ∷ []) id ≡ (if has_id id r then some r else lookup rows id)
lookup-append [] r id e = refl
lookup-append (x ∷ rows) r id e = ground (
  arith,
  e,
  lookup-append rows r id,
  eq_iff x.face.id id,
  eq_iff r.face.id id,
  eq_iff x.face.id r.face.id,
)

lookup-any :
    (rows : List AgentRow) (id : String) → any (has_id id) rows ≡ false → lookup rows id ≡ none
lookup-any [] id e = refl
lookup-any (x ∷ rows) id e = ground (arith, e, lookup-any rows id)

-- A row that was found, with the agent's new values.
abbrev pub touched : AgentRowFace → Option AgentRow → Option AgentRow
touched agent none = none
touched agent (some r) = some (row_of agent r.created_at)

lookup-update_row :
    (rows : List AgentRow) (agent : AgentRowFace) (id : String)
    → lookup (map (update_row agent) rows) id
      ≡ (if agent.id is id then touched agent (lookup rows id) else lookup rows id)
lookup-update_row [] agent id = ground arith
lookup-update_row (x ∷ rows) agent id = ground (
  arith,
  lookup-update_row rows agent id,
  eq_iff x.face.id id,
  eq_iff agent.id id,
  eq_iff x.face.id agent.id,
)

any-lookup : (rows : List AgentRow) (id : String) → any (has_id id) rows ≡ is_some (lookup rows id)
any-lookup [] id = refl
any-lookup (x ∷ rows) id = ground (arith, any-lookup rows id)

lookup-mirror_agent_row :
    (now : ℕ) (agent : AgentRowFace) (rows : List AgentRow) (id : String)
    → lookup (mirror_agent_row now agent rows).0 id ≡ (
        if agent.id is id
        then some (row_of agent (created now (lookup rows id)))
        else lookup rows id)
unfolding mirror_agent_row
lookup-mirror_agent_row now agent rows id = ground (
  arith,
  lookup-update_row rows agent id,
  lookup-append rows (row_of agent now) id,
  any-lookup rows agent.id,
  any-lookup rows id,
  eq_iff agent.id id,
)

-- After the loop each agent has its row, and every other row is as before.
mirror_each-lookup :
    (now : ℕ) (agents : List AgentRowFace) (s : List AgentRow × MirrorResult) (id : String)
    → Distinct agents
    → lookup (mirror_each now agents s).0 id ≡ wanted now false (agent_of agents id) (lookup s.0 id)
unfolding mirror_each
mirror_each-lookup now [] s id d = refl
mirror_each-lookup now (a ∷ agents) s id (fresh, d) =
    let out = mirror_agent_row now a s.0 in
    ground (
      arith,
      fresh,
      mirror_each-lookup now agents (out.0, count_mirrored out.1 s.1) id d,
      lookup-mirror_agent_row now a s.0 id,
      eq_iff a.id id,
    )

mirror_each-counts :
    (now : ℕ) (agents : List AgentRowFace) (s : List AgentRow × MirrorResult)
    → let r = (mirror_each now agents s).1 in
      (r.inserted + r.updated ≡ (s.1).inserted + (s.1).updated + length agents)
      × (r.deleted ≡ (s.1).deleted)
unfolding mirror_each mirror_agent_row
mirror_each-counts now [] s = ground arith
mirror_each-counts now (a ∷ agents) s =
    let out = mirror_agent_row now a s.0 in
    ground (arith, mirror_each-counts now agents (out.0, count_mirrored out.1 s.1))

lookup-remove_agent_row :
    (rows : List AgentRow) (gone id : String)
    → lookup (remove_agent_row gone rows) id ≡ (if gone is id then none else lookup rows id)
unfolding remove_agent_row
lookup-remove_agent_row [] gone id = ground arith
lookup-remove_agent_row (x ∷ rows) gone id = ground (
  arith,
  lookup-remove_agent_row rows gone id,
  eq_iff x.face.id gone,
  eq_iff x.face.id id,
  eq_iff gone id,
)

known-agent_of :
    (agents : List AgentRowFace) (id : String) → is_known agents id ≡ is_some (agent_of agents id)
known-agent_of [] id = refl
known-agent_of (a ∷ agents) id = ground (arith, known-agent_of agents id)

-- What was in the table when it was read and has no agent is gone.
remove_stale-lookup :
    (agents : List AgentRowFace) (all : List AgentRow) (s : List AgentRow × MirrorResult)
    (id : String)
    → lookup (remove_stale agents all s).0 id
      ≡ (if any (has_id id) all && not (is_known agents id) then none else lookup s.0 id)
unfolding remove_stale
remove_stale-lookup agents [] s id = ground arith
remove_stale-lookup agents (row ∷ all) s id = ground (
  arith,
  remove_stale-lookup agents all
      (if is_known agents row.face.id
        then s
        else (remove_agent_row row.face.id s.0, record (s.1) { deleted = suc (s.1).deleted }))
      id,
  lookup-remove_agent_row s.0 row.face.id id,
  eq_iff row.face.id id,
)

remove_stale-counts :
    (agents : List AgentRowFace) (all : List AgentRow) (s : List AgentRow × MirrorResult)
    → let r = (remove_stale agents all s).1 in
      (r.inserted ≡ (s.1).inserted)
      × (r.updated ≡ (s.1).updated)
      × (r.deleted ≡ (s.1).deleted + count_if (λ row. not (is_known agents row.face.id)) all)
unfolding remove_stale
remove_stale-counts agents [] s = ground arith
remove_stale-counts agents (row ∷ all) s = ground (
  arith,
  remove_stale-counts agents all (
      if is_known agents row.face.id
      then s
      else (remove_agent_row row.face.id s.0, record (s.1) { deleted = suc (s.1).deleted })),
)

mirror_agents-counts :
    (now : ℕ) (stale : Bool) (agents : List AgentRowFace) (rows : List AgentRow)
    → let r = (mirror_agents now stale agents rows).1 in r.inserted + r.updated ≡ length agents
unfolding mirror_agents
mirror_agents-counts now stale agents rows =
    let zeros : MirrorResult = record { inserted = 0; updated = 0; deleted = 0 } in
    let mirrored = mirror_each now agents (rows, zeros) in
    ground (
      arith,
      mirror_each-counts now agents (rows, zeros),
      remove_stale-counts agents mirrored.0 mirrored,
    )

mirror_agents-lookup :
    (now : ℕ) (stale : Bool) (agents : List AgentRowFace) (rows : List AgentRow) (id : String)
    → Distinct agents
    → lookup (mirror_agents now stale agents rows).0 id
      ≡ wanted now stale (agent_of agents id) (lookup rows id)
unfolding mirror_agents
mirror_agents-lookup now stale agents rows id d =
    let zeros : MirrorResult = record { inserted = 0; updated = 0; deleted = 0 } in
    let mirrored = mirror_each now agents (rows, zeros) in
    ground (
      arith,
      mirror_each-lookup now agents (rows, zeros) id d,
      remove_stale-lookup agents mirrored.0 mirrored id,
      known-agent_of agents id,
      any-lookup mirrored.0 id,
    )

-- With different ids in the configuration: after a mirroring the table holds for each id what it
-- should, the agent with the date of its first insertion, and for an id without an agent nothing, or
-- what was there if nothing is to be removed. A second mirroring at any later time leaves that as it
-- is. The inserted and the updated rows are as many as the agents.
pub mirror_agents_mirrors :
    (now later : ℕ) (stale : Bool) (agents : List AgentRowFace) (rows : List AgentRow) (id : String)
    → Distinct agents
    → let first = mirror_agents now stale agents rows in
      (lookup first.0 id ≡ wanted now stale (agent_of agents id) (lookup rows id))
      × (lookup (mirror_agents later stale agents first.0).0 id ≡ lookup first.0 id)
      × ((first.1).inserted + (first.1).updated ≡ length agents)
mirror_agents_mirrors now later stale agents rows id d =
    let first = mirror_agents now stale agents rows in
    ground (
      arith,
      mirror_agents-lookup now stale agents rows id d,
      mirror_agents-lookup later stale agents first.0 id d,
      mirror_agents-counts now stale agents rows,
    )
