-- ===== src/Approval/Once.antt =====
-- src/approval.ts: what a decision changes, and the next decision on the same prompt.
use mathlib.Core.Path.{subst}
use hellodac.Prelude.{
  ℕ, ◌≡◌, ◌==◌, ◌&&◌, not, is_some, if◌then◌else◌, refl, sym, arith, String, Bool, true, false,
  Option, none, some, List, [], ◌∷◌, map, ◌is◌, find_if, dict_get, Option-cases, Bool-cases, inl,
  inr, eq_iff, length, ◌⊎◌,
}
use hellodac.Runner.Waiting.{ApprovalRow, resolved}
use hellodac.Approval.Decide.{
  Outcome, outcome_text, Answer, already_decided, no_session, unknown_agent, unknown_approval,
  endpoint_not_configured, status, Hub, Call, row_of, is_pending, session_of, includes_text,
  check_row, check, resolve_row, settle, settle_call, decide_pending_approval,
}

-- A prompt that is there, and one that waits.
abbrev pub is_there : String → Hub → Bool
is_there id hub = is_some (row_of id hub)

-- The agent of a prompt is configured and its endpoint has a client.
abbrev pub is_reachable : ApprovalRow → Hub → Bool
is_reachable r hub = elim (dict_get hub.agents r.agent_id) [
  | none ↦ false
  | some endpoint ↦ includes_text hub.clients endpoint
]

-- The prompt can be decided: it waits, its run has a session, and its agent can be reached.
abbrev pub can_decide : String → Hub → Bool
can_decide id hub = elim (row_of id hub) [
  | none ↦ false
  | some r ↦
      is_pending r
      && is_some (session_of (dict_get hub.run_sessions r.run_id))
      && is_reachable r hub
]

resolved-row :
    (now : ℕ) (call : Call) (rows : List ApprovalRow) (r : ApprovalRow)
    → find_if (λ x. x.id is call.decision_id) rows ≡ some r
    → find_if (λ x. x.id is call.decision_id) (map (resolve_row now call) rows)
      ≡ some (record r {
        state = resolved;
        outcome = some (outcome_text call.outcome);
        resolved_at = some now;
      })
resolved-row now call [] r e = cc
resolved-row now call (x ∷ rows) r e = elim (Bool-cases (x.id is call.decision_id)) [
  | inl q ↦ ground (arith, e, q)
  | inr q ↦
      let found : find_if (λ y. y.id is call.decision_id) rows ≡ some r = ground (arith, e, q) in
      ground (arith, q, resolved-row now call rows r found)
]

row_of-id :
    (id : String) (rows : List ApprovalRow) (r : ApprovalRow)
    → find_if (λ x. x.id is id) rows ≡ some r
    → r.id ≡ id
row_of-id id [] r e = cc
row_of-id id (x ∷ rows) r e = elim (Bool-cases (x.id is id)) [
  | inl q ↦ ground (arith, e, q, eq_iff x.id id)
  | inr q ↦ row_of-id id rows r (ground (arith, e, q))
]

-- The call that a check admits.
record IsCall (id : String) (outcome : Outcome) (call : Call) : Type 0 where
  decision : call.decision_id ≡ id
  same_outcome : call.outcome ≡ outcome

check_row-cases :
    (r : ApprovalRow) (id : String) (o : Outcome) (hub : Hub)
    → r.id ≡ id
    → ((call : Call) × (check_row r o hub ≡ inl call)
        × IsCall id o call
        × ((is_pending r
              && is_some (session_of (dict_get hub.run_sessions r.run_id))
              && is_reachable r hub)
            ≡ true))
      ⊎ ((answer : Answer) × (check_row r o hub ≡ inr answer)
          × ((status answer == 200) ≡ false)
          × ((is_pending r
                && is_some (session_of (dict_get hub.run_sessions r.run_id))
                && is_reachable r hub)
              ≡ false))
check_row-cases r id o hub e = elim (Bool-cases (is_pending r)) [
  | inr p ↦ inr (already_decided, ground (arith, p), refl, ground (arith, p))
  | inl p ↦ elim (Option-cases (session_of (dict_get hub.run_sessions r.run_id))) [
    | inl s ↦ inr (no_session, ground (arith, p, s), refl, ground (arith, p, s))
    | inr (session, s) ↦ elim (Option-cases (dict_get hub.agents r.agent_id)) [
      | inl g ↦ inr (unknown_agent, ground (arith, p, s, g), refl, ground (arith, p, s, g))
      | inr (endpoint, g) ↦ elim (Bool-cases (includes_text hub.clients endpoint)) [
        | inl c ↦ inl (
          record {
            agent_id = r.agent_id;
            endpoint = endpoint;
            decision_id = r.id;
            session_id = session;
            approval_id = r.approval_id;
            outcome = o;
          },
          ground (arith, p, s, g, c),
          record { decision = e; same_outcome = refl },
          ground (arith, p, s, g, c),
        )
        | inr c ↦
            inr (
              endpoint_not_configured,
              ground (arith, p, s, g, c),
              refl,
              ground (arith, p, s, g, c),
            )
      ]
    ]
  ]
]

-- A check admits a call exactly if the prompt can be decided.
check-cases :
    (id : String) (o : Outcome) (hub : Hub)
    → ((call : Call) × (check id (some o) hub ≡ inl call)
        × IsCall id o call
        × (can_decide id hub ≡ true))
      ⊎ ((answer : Answer) × (check id (some o) hub ≡ inr answer)
          × ((status answer == 200) ≡ false)
          × (can_decide id hub ≡ false))
unfolding check
check-cases id o hub = elim (Option-cases (row_of id hub)) [
  | inl f ↦ inr (unknown_approval, rw (f, check) refl, refl, rw (f, can_decide) refl)
  | inr (r, f) ↦
      rw (f, check, can_decide) (check_row-cases r id o hub (row_of-id id hub.approval_queue r f))
]

-- The row of a decision that was accepted.
abbrev pub decided_row : ℕ → Outcome → ApprovalRow → ApprovalRow
decided_row now o r = record r {
  state = resolved;
  outcome = some (outcome_text o);
  resolved_at = some now;
}

decide-settled :
    (later : ℕ) (other id : String) (p : Outcome) (refusal : Option String) (meanwhile : Hub → Hub)
    (hub : Hub) (s : ApprovalRow)
    → row_of id hub ≡ some s
    → is_pending s ≡ false
    → decide_pending_approval later other id (some p) refusal meanwhile hub
      ≡ (hub, ([], already_decided))
unfolding decide_pending_approval check
decide-settled later other id p refusal meanwhile hub s e q = ground (arith, e, q)

-- After an accepted decision: the prompt has its outcome, and any further decision on it asks the host
-- nothing, changes nothing and gets 409.
abbrev pub IsDecided : ℕ → String → Outcome → ApprovalRow → Hub → Type 0
IsDecided now id o r hub =
    (row_of id hub ≡ some (decided_row now o r))
    × ((later : ℕ) (other : String) (p : Outcome) (refusal : Option String) (meanwhile : Hub → Hub)
        → decide_pending_approval later other id (some p) refusal meanwhile hub
          ≡ (hub, ([], already_decided)))

settle-IsDecided :
    (now : ℕ) (actor id : String) (o : Outcome) (call : Call) (hub : Hub) (r : ApprovalRow)
    → IsCall id o call
    → row_of id hub ≡ some r
    → IsDecided now id o r (settle now actor call none hub).0
unfolding settle
settle-IsDecided now actor id o call hub r c e =
    let found : find_if (λ x. x.id is id) (map (resolve_row now call) hub.approval_queue)
        ≡ some (decided_row now o r) =
      subst
        (λ k.
          find_if (λ x. x.id is id) (map (resolve_row now call) hub.approval_queue)
          ≡ some (decided_row now k r))
        c.same_outcome
        (subst
          (λ k.
            find_if (λ x. x.id is k) (map (resolve_row now call) hub.approval_queue)
            ≡ some (decided_row now call.outcome r))
          c.decision
          (resolved-row now call hub.approval_queue r (
            subst (λ k. find_if (λ x. x.id is k) hub.approval_queue ≡ some r) (sym c.decision)
              e))) in
    (
      found,
      λ later other p refusal meanwhile.
          decide-settled later other id p refusal meanwhile _ (decided_row now o r) found refl,
    )

-- One decision that may be decided, with what the host answers it.
abbrev pub succeeds : String → Option Outcome → Option String → Hub → Bool
succeeds id outcome refusal hub = is_some outcome && can_decide id hub && not (is_some refusal)

abbrev pub Settles :
    ℕ
    → String
    → Option Outcome
    → Option String
    → (Hub → Hub)
    → Hub
    → Hub × (List Call × Answer)
    → Type 0
Settles now id outcome refusal meanwhile hub out =
    ((status (out.1).1 == 200) ≡ succeeds id outcome refusal hub)
    × (length (out.1).0 ≡ (if is_some outcome && can_decide id hub then 1 else 0))
    × (succeeds id outcome refusal hub ≡ true
        → (o : Outcome) × (outcome ≡ some o)
          × ((r : ApprovalRow) → row_of id (meanwhile hub) ≡ some r → IsDecided now id o r out.0))
    × (succeeds id outcome refusal hub ≡ false
        → out.0 ≡ (if is_some outcome && can_decide id hub then meanwhile hub else hub))

decide-called :
    (now : ℕ) (actor id : String) (o : Outcome) (refusal : Option String) (meanwhile : Hub → Hub)
    (hub : Hub) (call : Call)
    → check id (some o) hub ≡ inl call
    → decide_pending_approval now actor id (some o) refusal meanwhile hub
      ≡ (let out = settle now actor call refusal (meanwhile hub) in (out.0, (call ∷ [], out.1)))
unfolding decide_pending_approval
decide-called now actor id o refusal meanwhile hub call e = rw (e, settle_call) refl

decide-refused :
    (now : ℕ) (actor id : String) (o : Outcome) (refusal : Option String) (meanwhile : Hub → Hub)
    (hub : Hub) (answer : Answer)
    → check id (some o) hub ≡ inr answer
    → decide_pending_approval now actor id (some o) refusal meanwhile hub ≡ (hub, ([], answer))
unfolding decide_pending_approval
decide-refused now actor id o refusal meanwhile hub answer e = rw (e, settle_call) refl

called-Settles :
    (now : ℕ) (actor id : String) (o : Outcome) (refusal : Option String) (meanwhile : Hub → Hub)
    (hub : Hub) (call : Call)
    → check id (some o) hub ≡ inl call
    → IsCall id o call
    → can_decide id hub ≡ true
    → Settles now id
        (some o)
        refusal
        meanwhile
        hub
        (decide_pending_approval now actor id (some o) refusal meanwhile hub)
unfolding settle
called-Settles now actor id o none meanwhile hub call e c k =
    rw (decide-called now actor id o none meanwhile hub call e, k)
      (
        refl,
        refl,
        (λ t. (o, refl, λ r f. settle-IsDecided now actor id o call (meanwhile hub) r c f)),
        λ t. ground (arith, t),
      )
called-Settles now actor id o (some detail) meanwhile hub call e c k =
    rw (decide-called now actor id o (some detail) meanwhile hub call e, k)
      (refl, refl, (λ t. absurd (ground (arith, t))), λ t. refl)

-- A decision is answered 200 exactly if its outcome is one of the two, the prompt waits, its run has a
-- session, its agent is configured at an endpoint with a client, and the host does not refuse. The host
-- is asked once, if all but the last hold, and else not at all. Whatever happens during that call:
-- after the answer 200 the prompt, if it is still there, has the decided outcome, and any further
-- decision on it asks the host nothing, changes nothing and gets 409; after any other answer the
-- decision itself has changed nothing.
pub decide_pending_approval-Settles :
    (now : ℕ) (actor id : String) (outcome : Option Outcome) (refusal : Option String)
    (meanwhile : Hub → Hub) (hub : Hub)
    → Settles now id outcome refusal meanwhile hub
        (decide_pending_approval now actor id outcome refusal meanwhile hub)
decide_pending_approval-Settles now actor id none refusal meanwhile hub =
    unfold decide_pending_approval check in
    (refl, refl, (λ t. absurd (ground (arith, t))), λ t. refl)
decide_pending_approval-Settles now actor id (some o) refusal meanwhile hub =
    elim (check-cases id o hub) [
      | inl (call, e, c, k) ↦ called-Settles now actor id o refusal meanwhile hub call e c k
      | inr (answer, e, n, k) ↦
          rw (decide-refused now actor id o refusal meanwhile hub answer e, k)
            (n, refl, (λ t. absurd (ground (arith, t))), λ t. refl)
    ]
