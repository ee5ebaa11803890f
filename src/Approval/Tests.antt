-- ===== src/Approval/Tests.antt =====
-- A prompt that waits for a human.
use hellodac.Prelude.{none, some, [], ◌∷◌}
use hellodac.Runner.Waiting.{ApprovalRow, pending}
use hellodac.Approval.Decide.{allowed_once, rejected, Hub, decide_pending_approval}
use hellodac.Approval.Once.{Settles, decide_pending_approval-Settles}

abbrev prompt : ApprovalRow
prompt = record {
  id = "d1";
  run_id = "r1";
  agent_id = "a1";
  approval_id = "ap1";
  tool_name = "bash";
  reason = none;
  state = pending;
  outcome = none;
  created_at = 1;
  resolved_at = none;
}

abbrev hub : Hub
hub = record {
  approval_queue = prompt ∷ [];
  run_sessions = ("r1", some "s1") ∷ [];
  agents = ("a1", "local") ∷ [];
  clients = "local" ∷ [];
  audit_log = [];
}

-- Another decision on the same prompt, during the call of the host.
overlapping : Hub → Hub
unfolding decide_pending_approval
overlapping h = (decide_pending_approval 4 "web" "d1" (some rejected) none (λ g. g) h).0

decide_pending_approval-Settles_example :
    Settles 5 "d1"
      (some allowed_once)
      none
      overlapping
      hub
      (decide_pending_approval 5 "brain" "d1" (some allowed_once) none overlapping hub)
decide_pending_approval-Settles_example =
    decide_pending_approval-Settles 5 "brain" "d1" (some allowed_once) none overlapping hub
