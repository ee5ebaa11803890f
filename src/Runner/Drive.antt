-- ===== src/Runner/Drive.antt =====
-- src/runner.ts, `driveTurn`, from the subscription on: the frames of the session, the recovery of the
-- open asks before the prompt and after a reconnect, the cancellation and the answer to the prompt, in any order. The calls of the host are
-- awaited, so their answers are signals.
pub mod Written
pub mod Ended
mod Tests
use hellodac.Prelude.{
  ℕ, zero, suc, ◌+◌, ◌-◌, String, Bool, true, false, not, ◌&&◌, ◌||◌, Option, none, some, List, [],
  ◌∷◌, if◌then◌else◌, ltb, is_some, or_default,
}
use hellodac.Runner.Frames.{RawUsage}
use hellodac.Runner.Pricing.{Doubles, PricingTable}
use hellodac.Runner.Turn.{
  TurnState, Frame, message, stream_reconnected, FrameResult, continue, ended, RunState, failed,
  RunOutcome, Finish, FinishEnv, Transaction, handle_turn_frame, finish,
}
use hellodac.Runner.Waiting.{
  LiveFrame, Settings, Waiting, At, live_frame, arm_silence, clear_timers, ask_id_of, is_seen,
}

-- A frame of the stream, with what the turn and its waits read of it.
pub data WireFrame : Type 0 where
  message_frame : (usage : Option RawUsage) (text : Option String) → WireFrame
  call_frame result_frame reconnected_frame : WireFrame
  end_frame : (reason detail cause : Option String) → WireFrame
  asked_frame answered_frame : (question_id : Option String) → WireFrame
  pending_frame : (decision_id approval_id tool_name reason : Option String) → WireFrame
  resolved_frame : (decision_id outcome : Option String) → WireFrame
  plain_frame : (kind : String) → WireFrame

abbrev pub turn_frame : WireFrame → Frame
turn_frame (message_frame usage text) = message usage text
turn_frame call_frame = Frame.tool_call
turn_frame result_frame = Frame.other_frame "tool_result"
turn_frame reconnected_frame = stream_reconnected
turn_frame (end_frame reason detail cause) = Frame.turn_end reason detail cause
turn_frame (asked_frame id) = Frame.other_frame "question_asked"
turn_frame (answered_frame id) = Frame.other_frame "question_resolved"
turn_frame (pending_frame id approval tool reason) = Frame.other_frame "approval_pending"
turn_frame (resolved_frame id outcome) = Frame.other_frame "approval_resolved"
turn_frame (plain_frame kind) = Frame.other_frame kind

abbrev pub wait_frame : WireFrame → LiveFrame
wait_frame (message_frame usage text) = LiveFrame.other_frame
wait_frame call_frame = LiveFrame.tool_call
wait_frame result_frame = LiveFrame.tool_result
wait_frame reconnected_frame = LiveFrame.other_frame
wait_frame (end_frame reason detail cause) = LiveFrame.turn_end
wait_frame (asked_frame id) = LiveFrame.question_asked id
wait_frame (answered_frame id) = LiveFrame.question_resolved id
wait_frame (pending_frame id approval tool reason) =
    LiveFrame.approval_pending id approval tool reason
wait_frame (resolved_frame id outcome) = LiveFrame.approval_resolved id outcome
wait_frame (plain_frame kind) = LiveFrame.other_frame

-- `settled` is the value of `turnDone`, `returned` that of `driveTurn` where it does not wait for it.
pub record Drive : Type 0 where
  pub turn : TurnState
  pub waiting : Waiting
  pub ending : Finish
  pub subscribed : Bool
  pub settled : Option RunOutcome
  pub accepted : Bool
  pub returned : Option RunOutcome

pub data PromptAnswer : Type 0 where
  accepts refuses : PromptAnswer
  throws : (detail : String) → PromptAnswer

-- A time, and how the database takes the writes then.
pub record Moment : Type 0 where
  pub now : ℕ
  pub writes : Bool
  pub transaction : Transaction

-- `recovers` and `fetches`: the asks that the host returns after a reconnect and before the prompt, or
-- none if the call fails.
pub data Signal : Type 0 where
  arrives : Moment → WireFrame → Signal
  recovers fetches : Moment → (asks : List WireFrame) → Signal
  cancels : Moment → (why : String) → Signal
  answers : Moment → (cancelled : Option String) → PromptAnswer → Signal

abbrev pub refused_text : String
refused_text = "the prompt was not accepted by the upstream"

abbrev pub reconnect_text : String
reconnect_text =
    "upstream stream reconnected mid-turn: outcome unknown (the turn may have completed); check the session history"

abbrev pub first_of : Option RunOutcome → RunOutcome → Option RunOutcome
first_of none out = some out
first_of (some old) out = some old

-- The timers after a call of `finish`: only the first one clears them.
abbrev pub finish_timers : Finish → Waiting → Waiting
finish_timers f w = if is_some f.finished_outcome then w else clear_timers w

module _ (doubles : Doubles) (is_weekend : ℕ → String → Bool) (table : PricingTable doubles)
    (st : Settings) (started_at : ℕ) where
  abbrev pub env_of : Moment → FinishEnv
  env_of m = record {
    run_id = st.run_id;
    started_at = started_at;
    now = m.now;
    transaction = m.transaction;
  }

  abbrev pub at_of : Moment → At
  at_of m = record { now = m.now; writes = m.writes }

  -- `unsub(); resolveTurn(finish(...))`
  abbrev pub end_turn : Moment → RunState → Option String → Drive → Drive
  end_turn m state error d =
      let out = finish (env_of m) d.turn state error d.ending in
      record d {
        subscribed = false;
        ending = out.0;
        waiting = finish_timers d.ending d.waiting;
        settled = first_of d.settled out.1;
      }

  -- `return finish(...)`, with the unsubscription of the `finally`.
  abbrev pub return_now : Moment → Option String → Drive → Drive
  return_now m error d =
      let out = finish (env_of m) d.turn failed error d.ending in
      record d {
        subscribed = false;
        ending = out.0;
        waiting = finish_timers d.ending d.waiting;
        returned = some out.1;
      }

  abbrev pub after_frame : Moment → FrameResult → Drive → Drive
  after_frame m continue d = d
  after_frame m (ended state error) d = end_turn m state error d

  -- The handler of `subscribe`.
  unfoldable pub on_frame : Moment → WireFrame → Drive → Drive
  on_frame m frame d =
      let live = wait_frame frame in
      if not d.subscribed || is_seen (ask_id_of live) d.waiting
      then d
      else (let out = handle_turn_frame doubles is_weekend table m.now (turn_frame frame) d.turn in
          after_frame m out.1
            (record d { turn = out.0; waiting = live_frame st (at_of m) live d.waiting }))

  -- `processRecoveredAsk`; a question or an approval leaves the turn as it is.
  abbrev pub recover_asks : Moment → List WireFrame → Waiting → Waiting
  recover_asks m [] w = w
  recover_asks m (ask ∷ asks) w = recover_asks m asks (live_frame st (at_of m) (wait_frame ask) w)

  -- What `onReconnect` does once the asks were fetched.
  unfoldable pub on_recovered : Moment → List WireFrame → Drive → Drive
  on_recovered m asks d =
      let w = recover_asks m asks d.waiting in
      let e = record d { waiting = w } in
      if ltb 0 w.awaiting_human then e else end_turn m failed (some reconnect_text) e

  -- The recovery before the prompt, with the `armSilence` after it.
  unfoldable pub on_fetched : Moment → List WireFrame → Drive → Drive
  on_fetched m asks d = record d { waiting = arm_silence st (recover_asks m asks d.waiting) }

  abbrev pub on_answer : Moment → Option String → PromptAnswer → Drive → Drive
  on_answer m cancelled accepts d = record d { accepted = true }
  on_answer m cancelled refuses d = return_now m (some refused_text) d
  on_answer m cancelled (throws detail) d = return_now m (some (or_default cancelled detail)) d

  unfoldable pub signal : Signal → Drive → Drive
  unfolding on_frame on_recovered on_fetched
  signal (arrives m frame) d = on_frame m frame d
  signal (recovers m asks) d = on_recovered m asks d
  signal (fetches m asks) d = on_fetched m asks d
  signal (cancels m why) d = end_turn m failed (some why) d
  signal (answers m cancelled answer) d = on_answer m cancelled answer d

  unfoldable pub signals : List Signal → Drive → Drive
  unfolding signal
  signals [] d = d
  signals (s ∷ ss) d = signals ss (signal s d)

-- What the caller gets, once there is something to get.
abbrev pub result : Drive → Option RunOutcome
result d = if is_some d.returned then d.returned else if d.accepted then d.settled else none
