-- ===== src/Runner/Turn.antt =====
-- src/runner/turn.ts: the state of a turn, the handler of its frames, and its end. The effects of a
-- frame (timers, the relay) are a list; the transaction of the database succeeds or fails by an
-- argument.
pub mod Bills
pub mod Ends
use Prim.Native.String.{◌++◌ as join}
use hellodac.Prelude.{
  ℕ, zero, suc, ◌+◌, ◌-◌, String, Bool, true, false, not, ◌&&◌, ◌||◌, Option, none, some, List, [],
  ◌∷◌, ◌++◌, if◌then◌else◌, is_some, ◌is◌, or_default,
}
use hellodac.Usage.Store.{UsageRecord}
use hellodac.Runner.Frames.{RawUsage, TokenUsage, normalize_usage, sum_usage}
use hellodac.Runner.Summary.{summary_of}
use hellodac.Runner.Pricing.{Doubles, PricingTable, CostBreakdown, compute_cost}

pub record TurnState : Type 0 where
  pub session_id : Option String
  pub provider : Option String
  pub model : Option String
  pub usage : Option TokenUsage
  pub reason : Option String
  pub tool_calls : ℕ
  pub texts : List String
  pub accrued_cost : ℕ
  pub accrued_peak_cost : ℕ
  pub cost_known : Bool

abbrev pub new_turn_state : TurnState
new_turn_state = record {
  session_id = none;
  provider = none;
  model = none;
  usage = none;
  reason = none;
  tool_calls = 0;
  texts = [];
  accrued_cost = 0;
  accrued_peak_cost = 0;
  cost_known = true;
}

-- The frames by their kind; `none` for a field that is no text.
pub data Frame : Type 0 where
  message : (usage : Option RawUsage) (text : Option String) → Frame
  tool_call stream_reconnected : Frame
  turn_end : (reason message cause : Option String) → Frame
  other_frame : String → Frame

pub data RunState : Type 0 where
  pending is_running done failed missed : RunState

-- What a frame makes of the loop.
pub data FrameResult : Type 0 where
  continue : FrameResult
  ended : RunState → Option String → FrameResult

pub data Effect : Type 0 where
  track_awaiting relay : Frame → Effect
  arm_silence on_reconnect : Effect

-- `endFromTurnEnd`; the reason is compared as a text.
abbrev pub is_reason : Option String → String → Bool
is_reason none k = false
is_reason (some r) k = r is k

unfoldable pub end_from_turn_end : Option String → Option String → Option String → FrameResult
end_from_turn_end reason detail cause =
    if is_reason reason "error"
    then ended failed (some (or_default detail "the turn ended with an error"))
    else if is_reason reason "aborted"
    then ended failed
        (some (join "the turn was aborted (" (join (or_default cause "unknown cause") ")")))
    else ended done none

-- A turn state with one priced response more.
abbrev pub accrue : (cost : ℕ) (peak : Bool) → TurnState → TurnState
accrue cost peak s = record s {
  accrued_cost = s.accrued_cost + cost;
  accrued_peak_cost = if peak then s.accrued_peak_cost + cost else s.accrued_peak_cost;
}

abbrev pub push_text : Option String → TurnState → TurnState
push_text none s = s
push_text (some t) s = if t is "" then s else record s { texts = s.texts ++ t ∷ [] }

module _ (doubles : Doubles) (is_weekend : ℕ → String → Bool) (table : PricingTable doubles) where
  -- The price of a response at a time.
  abbrev pub price : TurnState → ℕ → TokenUsage → Option (CostBreakdown doubles)
  price s now u = compute_cost doubles is_weekend (some u) s.provider s.model now table

  abbrev pub bill : ℕ → Option TokenUsage → TurnState → TurnState
  bill now none s = s
  bill now (some u) s = elim (price s now u) [
    | none ↦ record s { cost_known = false }
    | some c ↦ accrue c.micro_usd c.peak s
  ]

  abbrev pub handle_message : ℕ → Option RawUsage → Option String → TurnState → TurnState
  handle_message now raw text s =
      let u = normalize_usage raw in
      push_text text (bill now u (record s { usage = sum_usage s.usage u }))

  -- The state and the result; the effects are `frame_effects`.
  unfoldable pub handle_turn_frame : ℕ → Frame → TurnState → TurnState × FrameResult
  handle_turn_frame now (message raw text) s = (handle_message now raw text s, continue)
  handle_turn_frame now tool_call s = (record s { tool_calls = suc s.tool_calls }, continue)
  handle_turn_frame now stream_reconnected s = (s, continue)
  handle_turn_frame now (turn_end reason msg cause) s =
      (record s { reason = some (or_default reason "unknown") }, end_from_turn_end reason msg cause)
  handle_turn_frame now (other_frame kind) s = (s, continue)

  unfoldable pub frame_effects : Frame → List Effect
  frame_effects stream_reconnected =
      track_awaiting stream_reconnected ∷ arm_silence ∷ relay stream_reconnected ∷ on_reconnect ∷ []
  frame_effects frame = track_awaiting frame ∷ arm_silence ∷ relay frame ∷ []

-- What `finish` returns.
pub record RunOutcome : Type 0 where
  pub state : RunState
  pub session_id : Option String
  pub summary : String
  pub usage : Option TokenUsage
  pub cost_micro_usd : Option ℕ
  pub peak_cost_micro_usd : Option ℕ
  pub provider : Option String
  pub model : Option String
  pub reason : Option String
  pub error : Option String
  pub tool_calls : ℕ
  pub duration_ms : ℕ

-- The columns of the `run` row that `finish` writes.
pub record RunRow : Type 0 where
  pub state : RunState
  pub dsh_session_id : Option String
  pub result_summary : Option String
  pub ended_at : Option ℕ
  pub error : Option String

-- The closure of `makeFinish`, with the part of the database that it writes.
pub record Finish : Type 0 where
  pub finished_outcome : Option RunOutcome
  pub timers_cleared : Bool
  pub row : RunRow
  pub usage_records : List UsageRecord

-- The transaction of `finish` goes through, or fails with a message and leaves nothing.
pub data Transaction : Type 0 where
  commits : Transaction
  fails : String → Transaction

pub record FinishEnv : Type 0 where
  pub run_id : String
  pub started_at : ℕ
  pub now : ℕ
  pub transaction : Transaction

abbrev pub cost_of : TurnState → Option ℕ
cost_of s = if is_some s.usage && s.cost_known then some s.accrued_cost else none

abbrev pub peak_cost_of : TurnState → Option ℕ
peak_cost_of s = if is_some s.usage && s.cost_known then some s.accrued_peak_cost else none

abbrev pub usage_rows : FinishEnv → TurnState → List UsageRecord
usage_rows env s = elim s.usage [
  | none ↦ []
  | some u ↦
      record {
        run_id = env.run_id;
        provider = s.provider;
        model = s.model;
        input_tokens = u.input_tokens;
        output_tokens = u.output_tokens;
        cache_read = u.cache_read_tokens;
        cost = cost_of s;
        peak_cost = peak_cost_of s;
        at = env.now;
      }
      ∷ []
]

abbrev pub build_outcome :
    FinishEnv
    → TurnState
    → RunState
    → Option String
    → Option TokenUsage
    → Option ℕ
    → Option ℕ
    → RunOutcome
build_outcome env s state error usage cost peak = record {
  state = state;
  session_id = s.session_id;
  summary = summary_of s.texts;
  usage = usage;
  cost_micro_usd = cost;
  peak_cost_micro_usd = peak;
  provider = s.provider;
  model = s.model;
  reason = s.reason;
  error = error;
  tool_calls = s.tool_calls;
  duration_ms = env.now - env.started_at;
}

abbrev pub accounting_text : String → String
accounting_text why = join "accounting failed, this usage may not have been recorded: " why

-- The error of the turn, and that of its accounting.
abbrev pub accounting_error : Option String → String → String
accounting_error none why = accounting_text why
accounting_error (some e) why = join e (join "; " (accounting_text why))

abbrev pub not_empty : String → Option String
not_empty s = if s is "" then none else some s

-- The write of the first call.
abbrev pub write_end :
    Transaction → FinishEnv → TurnState → RunState → Option String → Finish → Finish × RunOutcome
write_end commits env s state error f =
    let out = build_outcome env s state error s.usage (cost_of s) (peak_cost_of s) in
    (
      record f {
        finished_outcome = some out;
        timers_cleared = true;
        row = record {
          state = state;
          dsh_session_id = s.session_id;
          result_summary = not_empty (summary_of s.texts);
          ended_at = some env.now;
          error = error;
        };
        usage_records = usage_rows env s ++ f.usage_records;
      },
      out,
    )
write_end (fails why) env s state error f =
    let text = some (accounting_error error why) in
    let out = build_outcome env s failed text none none none in
    (
      record f {
        finished_outcome = some out;
        timers_cleared = true;
        row = record {
          state = failed;
          dsh_session_id = s.session_id;
          result_summary = not_empty (summary_of s.texts);
          ended_at = some env.now;
          error = text;
        };
      },
      out,
    )

unfoldable pub finish :
    FinishEnv → TurnState → RunState → Option String → Finish → Finish × RunOutcome
finish env s state error f = elim f.finished_outcome [
  | some out ↦ (f, out)
  | none ↦ write_end env.transaction env s state error f
]
