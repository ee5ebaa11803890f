-- ===== src/Runner/Waiting.antt =====
-- src/runner.ts: what a turn waits for. The counts of open questions and running tools, the silence
-- timer that they hold back, the timers that decline questions of outward turns, and the table
-- `approvalQueue`.
pub mod Backstop
pub mod Counting
mod Tests
use hellodac.Prelude.{
  ℕ, zero, suc, ◌+◌, ◌-◌, ◌≡◌, refl, String, Bool, true, false, not, ◌&&◌, ◌||◌, Option, none, some,
  List, [], ◌∷◌, ◌++◌, map, if◌then◌else◌, ltb, ◌==◌, ◌is◌, any, is_some, or_default, includes,
  Dict, dict_get, dict_set, dict_delete,
}

-- The frames by their kind, with the fields that are read here; `none` for one that is no text.
pub data LiveFrame : Type 0 where
  tool_call tool_result turn_end other_frame : LiveFrame
  question_asked question_resolved : (question_id : Option String) → LiveFrame
  approval_pending : (decision_id approval_id tool_name reason : Option String) → LiveFrame
  approval_resolved : (decision_id outcome : Option String) → LiveFrame

pub data ApprovalState : Type 0 where
  pending resolved : ApprovalState

pub record ApprovalRow : Type 0 where
  pub id : String
  pub run_id : String
  pub agent_id : String
  pub approval_id : String
  pub tool_name : String
  pub reason : Option String
  pub state : ApprovalState
  pub outcome : Option String
  pub created_at : ℕ
  pub resolved_at : Option ℕ

-- What `runAgent` fixes for a turn.
pub record Settings : Type 0 where
  pub run_id : String
  pub agent_id : String
  pub silence_ms : ℕ
  pub is_outward : Bool

-- The variables of `runAgent`; a timer is there while it is armed, that of a decline with its frame.
pub record Waiting : Type 0 where
  pub awaiting_human : ℕ
  pub tools_in_flight : ℕ
  pub silence_timer : Bool
  pub silenced : Bool
  pub pending_declines : Dict LiveFrame
  pub seen_ask_ids : List String
  pub approval_queue : List ApprovalRow

-- The time of a frame, and whether the database takes a write.
pub record At : Type 0 where
  pub now : ℕ
  pub writes : Bool

abbrev pub text_of : Option String → Option String
text_of none = none
text_of (some s) = if s is "" then none else some s

unfoldable pub ask_id_of_frame : LiveFrame → Option String
ask_id_of_frame (question_asked id) = text_of id
ask_id_of_frame (question_resolved id) = text_of id
ask_id_of_frame (approval_pending id approval tool reason) = text_of id
ask_id_of_frame (approval_resolved id outcome) = text_of id
ask_id_of_frame frame = none

-- `askIdOf`, without the empty text that its callers leave aside.
unfoldable pub ask_id_of : LiveFrame → Option String
ask_id_of (question_asked id) = text_of id
ask_id_of (approval_pending id approval tool reason) = text_of id
ask_id_of frame = none

-- `armSilence`.
unfoldable pub arm_silence : Settings → Waiting → Waiting
arm_silence st w = if st.silence_ms == 0 then w else record w {
  silence_timer = not ((ltb 0 w.awaiting_human || ltb 0 w.tools_in_flight) && not st.is_outward);
}

abbrev pub has_row : String → List ApprovalRow → Bool
has_row id rows = any (λ r. r.id is id) rows

abbrev pub pending_row :
    Settings → At → String → Option String → Option String → Option String → ApprovalRow
pending_row st at id approval tool reason = record {
  id = id;
  run_id = st.run_id;
  agent_id = st.agent_id;
  approval_id = or_default (text_of approval) id;
  tool_name = or_default tool "";
  reason = reason;
  state = pending;
  outcome = none;
  created_at = at.now;
  resolved_at = none;
}

-- An insert that does nothing where the key is there.
unfoldable pub record_pending_approval :
    Settings
    → At
    → Option String
    → Option String
    → Option String
    → Option String
    → List ApprovalRow
    → List ApprovalRow
record_pending_approval st at id approval tool reason rows = elim (text_of id) [
  | none ↦ rows
  | some d ↦
      if not at.writes || has_row d rows
      then rows
      else rows ++ pending_row st at d approval tool reason ∷ []
]

abbrev pub resolve_row : Settings → At → String → Option String → ApprovalRow → ApprovalRow
resolve_row st at d outcome r =
    if r.id is d && r.run_id is st.run_id
    then record r { state = resolved; outcome = outcome; resolved_at = some at.now }
    else r

unfoldable pub resolve_approval :
    Settings → At → Option String → Option String → List ApprovalRow → List ApprovalRow
resolve_approval st at id outcome rows = elim (text_of id) [
  | none ↦ rows
  | some d ↦ if at.writes then map (resolve_row st at d outcome) rows else rows
]

unfoldable pub schedule_auto_decline : LiveFrame → Dict LiveFrame → Dict LiveFrame
schedule_auto_decline frame timers = elim (ask_id_of_frame frame) [
  | none ↦ timers
  | some id ↦ if is_some (dict_get timers id) then timers else dict_set timers id frame
]

unfoldable pub cancel_auto_decline : LiveFrame → Dict LiveFrame → Dict LiveFrame
cancel_auto_decline frame timers = elim (ask_id_of_frame frame) [
  | none ↦ timers
  | some id ↦ dict_delete timers id
]

-- One more wait for a human, and one less.
abbrev pub asks : Settings → LiveFrame → Waiting → Waiting
asks st frame w = record w {
  awaiting_human = suc w.awaiting_human;
  pending_declines =
      if st.is_outward then schedule_auto_decline frame w.pending_declines else w.pending_declines;
}

abbrev pub answered : Settings → LiveFrame → Waiting → Waiting
answered st frame w = record w {
  awaiting_human = w.awaiting_human - 1;
  pending_declines =
      if st.is_outward then cancel_auto_decline frame w.pending_declines else w.pending_declines;
}

unfoldable pub track_awaiting : Settings → At → LiveFrame → Waiting → Waiting
track_awaiting st at tool_call w = record w { tools_in_flight = suc w.tools_in_flight }
track_awaiting st at tool_result w = record w { tools_in_flight = w.tools_in_flight - 1 }
track_awaiting st at (question_asked id) w = asks st (question_asked id) w
track_awaiting st at (approval_pending id approval tool reason) w =
    asks st (approval_pending id approval tool reason) (record w {
      approval_queue = record_pending_approval st at id approval tool reason w.approval_queue;
    })
track_awaiting st at (question_resolved id) w = answered st (question_resolved id) w
track_awaiting st at (approval_resolved id outcome) w =
    answered st (approval_resolved id outcome)
      (record w { approval_queue = resolve_approval st at id outcome w.approval_queue })
track_awaiting st at turn_end w = record w {
  awaiting_human = 0;
  tools_in_flight = 0;
  pending_declines = [];
}
track_awaiting st at other_frame w = w

-- An ask that was seen is dropped; any other frame is tracked, and then the timer is armed.
abbrev pub is_seen : Option String → Waiting → Bool
is_seen none w = false
is_seen (some id) w = includes w.seen_ask_ids id

abbrev pub see : Option String → Waiting → Waiting
see none w = w
see (some id) w = record w { seen_ask_ids = w.seen_ask_ids ++ id ∷ [] }

unfoldable pub live_frame : Settings → At → LiveFrame → Waiting → Waiting
live_frame st at frame w =
    let id = ask_id_of frame in
    if is_seen id w then w else arm_silence st (track_awaiting st at frame (see id w))

-- `clearTimers`, which the first `finish` of a turn calls. The timer of the total timeout is left out.
unfoldable pub clear_timers : Waiting → Waiting
clear_timers w = record w { silence_timer = false; pending_declines = [] }

-- The timer of a decline fires, and the host has accepted or refused the decline.
unfoldable pub decline_due : String → Waiting → Waiting
decline_due id w = record w { pending_declines = dict_delete w.pending_declines id }

unfoldable pub decline_result : Settings → Bool → Waiting → Waiting
decline_result st false w = w
decline_result st true w = arm_silence st (record w { awaiting_human = w.awaiting_human - 1 })

-- The silence timer fires; the turn is cancelled.
unfoldable pub silence_fires : Waiting → Waiting
silence_fires w = record w { silence_timer = false; silenced = true }
