-- ===== src/Upstream/Frames.antt =====
-- src/upstream/translate.ts: the frames of the event stream and what they become for the manager. The
-- schemas are of a library, so a frame is given as they leave it; the bodies that they do not look into
-- are JSON texts, and an event is what `eventPayload` makes of it.
use hellodac.Prelude.{ℕ, String, Option, none, some, or_default, if◌then◌else◌, ◌is◌}

pub data MuxFrame : Type 0 where
  session_event : (session_id : String) (event : Option String) → MuxFrame
  session_projection : (session_id key : String) (seq : Option ℕ) (goal : Option String) → MuxFrame
  question_requested : (session_id questions : String) → MuxFrame
  question_resolved : (session_id question_rpc_id outcome : String) → MuxFrame
  approval_requested :
      (session_id approval_id tool_name : String) (reason : Option String) → MuxFrame
  approval_resolved : (session_id approval_id outcome : String) → MuxFrame

-- `GatewayFrame`; the sequence number is 0 where none is written.
pub data GatewayFrame : Type 0 where
  event_frame : String → GatewayFrame
  stream_reconnected_frame : GatewayFrame
  goal_frame : (seq : ℕ) (goal : Option String) → GatewayFrame
  question_asked_frame : (question_id questions : String) → GatewayFrame
  question_resolved_frame : (question_id outcome : String) → GatewayFrame
  approval_pending_frame :
      (decision_id approval_id tool_name : String) (reason : Option String) → GatewayFrame
  approval_resolved_frame :
      (decision_id : Option String) (approval_id outcome : String) → GatewayFrame

-- The session that a frame names.
abbrev pub session_of : MuxFrame → String
session_of (session_event s e) = s
session_of (session_projection s k n g) = s
session_of (question_requested s q) = s
session_of (question_resolved s q o) = s
session_of (approval_requested s a t r) = s
session_of (approval_resolved s a o) = s

-- `goalProjectionFrame` of a projection.
abbrev pub goal_projection_frame : String → Option ℕ → Option String → Option GatewayFrame
goal_projection_frame key seq goal =
    if key is "goal" then some (goal_frame (or_default seq 0) goal) else none
