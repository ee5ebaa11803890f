-- ===== src/Approval/Decide.antt =====
-- src/approval.ts, `decidePendingApproval`, over the table `approvalQueue` of Runner/Waiting. The call
-- of the host is awaited, so the function is cut in two: `check` up to the call, `settle` after it.
use hellodac.Prelude.{
  ℕ, String, Bool, true, false, Option, none, some, List, [], ◌∷◌, ◌++◌, map, if◌then◌else◌, ◌is◌,
  find_if, any, Dict, dict_get, inl, inr, ◌⊎◌,
}
use hellodac.Runner.Waiting.{ApprovalRow, pending, resolved}

pub data Outcome : Type 0 where
  allowed_once rejected : Outcome

abbrev pub outcome_text : Outcome → String
outcome_text allowed_once = "allowed-once"
outcome_text rejected = "rejected"

-- The answer of the route.
pub data Answer : Type 0 where
  invalid_outcome unknown_approval already_decided no_session unknown_agent : Answer
  endpoint_not_configured : Answer
  decide_failed : String → Answer
  decided : Outcome → Answer

abbrev pub status : Answer → ℕ
status invalid_outcome = 400
status unknown_approval = 404
status already_decided = 409
status no_session = 409
status unknown_agent = 404
status endpoint_not_configured = 500
status (decide_failed detail) = 502
status (decided outcome) = 200

pub record Audit : Type 0 where
  pub at : ℕ
  pub actor : String
  pub decision_id : String
  pub agent_id : String
  pub outcome : Outcome

-- The tables, with the sessions of the runs; the endpoints of the agents; and the clients.
pub record Hub : Type 0 where
  pub approval_queue : List ApprovalRow
  pub run_sessions : Dict (Option String)
  pub agents : Dict String
  pub clients : List String
  pub audit_log : List Audit

-- What the host is asked, with the agent that asks.
pub record Call : Type 0 where
  pub agent_id : String
  pub endpoint : String
  pub decision_id : String
  pub session_id : String
  pub approval_id : String
  pub outcome : Outcome

abbrev pub row_of : String → Hub → Option ApprovalRow
row_of id hub = find_if (λ r. r.id is id) hub.approval_queue

abbrev pub is_pending : ApprovalRow → Bool
is_pending r = elim r.state [ pending ↦ true | resolved ↦ false ]

-- The session of a run; `none` without a run, or with one that has no session.
abbrev pub session_of : Option (Option String) → Option String
session_of none = none
session_of (some s) = s

abbrev pub includes_text : List String → String → Bool
includes_text xs k = any (λ x. x is k) xs

abbrev pub check_client : ApprovalRow → String → String → Outcome → Hub → Call ⊎ Answer
check_client r session endpoint outcome hub =
    if includes_text hub.clients endpoint
    then inl (record {
      agent_id = r.agent_id;
      endpoint = endpoint;
      decision_id = r.id;
      session_id = session;
      approval_id = r.approval_id;
      outcome = outcome;
    })
    else inr endpoint_not_configured

abbrev pub check_agent : ApprovalRow → String → Outcome → Hub → Call ⊎ Answer
check_agent r session outcome hub = elim (dict_get hub.agents r.agent_id) [
  | none ↦ inr unknown_agent
  | some endpoint ↦ check_client r session endpoint outcome hub
]

abbrev pub check_row : ApprovalRow → Outcome → Hub → Call ⊎ Answer
check_row r outcome hub =
    if is_pending r
    then elim (session_of (dict_get hub.run_sessions r.run_id)) [
      | none ↦ inr no_session
      | some session ↦ check_agent r session outcome hub
    ]
    else inr already_decided

-- `none` stands for an outcome that is neither of the two.
unfoldable pub check : String → Option Outcome → Hub → Call ⊎ Answer
check id none hub = inr invalid_outcome
check id (some outcome) hub = elim (row_of id hub) [
  | none ↦ inr unknown_approval
  | some r ↦ check_row r outcome hub
]

abbrev pub resolve_row : ℕ → Call → ApprovalRow → ApprovalRow
resolve_row now call r =
    if r.id is call.decision_id
    then record r {
      state = resolved;
      outcome = some (outcome_text call.outcome);
      resolved_at = some now;
    }
    else r

-- What the host answers: nothing, or why it refuses.
unfoldable pub settle : ℕ → String → Call → Option String → Hub → Hub × Answer
settle now actor call (some detail) hub = (hub, decide_failed detail)
settle now actor call none hub = (
  record hub {
    approval_queue = map (resolve_row now call) hub.approval_queue;
    audit_log =
        hub.audit_log
        ++ record {
          at = now;
          actor = actor;
          decision_id = call.decision_id;
          agent_id = call.agent_id;
          outcome = call.outcome;
        }
          ∷ [];
  },
  decided call.outcome,
)

-- The calls that were made, and the answer; `meanwhile` is what happens during the call.
abbrev pub settle_call :
    ℕ → String → Option String → (Hub → Hub) → Hub → Call ⊎ Answer → Hub × (List Call × Answer)
settle_call now actor refusal meanwhile hub (inr answer) = (hub, ([], answer))
settle_call now actor refusal meanwhile hub (inl call) =
    let out = settle now actor call refusal (meanwhile hub) in (out.0, (call ∷ [], out.1))

unfoldable pub decide_pending_approval :
    ℕ
    → String
    → String
    → Option Outcome
    → Option String
    → (Hub → Hub)
    → Hub
    → Hub × (List Call × Answer)
unfolding check settle
decide_pending_approval now actor id outcome refusal meanwhile hub =
    settle_call now actor refusal meanwhile hub (check id outcome hub)
