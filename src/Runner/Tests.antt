-- ===== src/Runner/Tests.antt =====
-- Turns of a model with a peak rate and of one that nobody priced, over whole numbers for doubles.
use hellodac.Prelude.{
  ℕ, ◌+◌, ◌*◌, ◌/◌, ◌≡◌, refl, String, Bool, true, false, none, some, List, [], ◌∷◌, ◌++◌, map,
  is_some, not, sum_by,
}
use hellodac.Runner.Frames.{RawUsage, input_of, output_of}
use hellodac.Runner.Pricing.{Doubles, PeakWindow, Rate, PricingTable}
use hellodac.Runner.Turn.{
  TurnState, message, tool_call, turn_end, new_turn_state, is_running, done, failed, commits, fails,
  Finish, FinishEnv, cost_of, peak_cost_of,
}
use hellodac.Runner.Turn.Bills.{
  Timed, run_frames, turn_bills, turn_of, usages, tool_calls, total, micro, peak_micro, is_empty,
}
use hellodac.Runner.Turn.Ends.{Call, call, call_all, finish_once, settled, ledger_rows}

abbrev whole : Doubles
whole = record {
  Num = ℕ;
  of_ℕ = λ n. n;
  add = λ a b. a + b;
  mul = λ a b. a * b;
  div = λ a b. a / b;
  round = λ a. a;
}

abbrev night : PeakWindow
night = record { start_minute_utc = 1380; end_minute_utc = 60 }

abbrev rate : ℕ → ℕ → Rate whole
rate i o = record { input = i; output = o; cache_read = none; cache_write = none }

abbrev table : PricingTable whole
table = record {
  rates = ("deep/chat", record { off_peak = rate 2 4; peak = some (rate 4 8) }) ∷ [];
  peak_windows = night ∷ [];
  weekends_off_peak = false;
  pricing_time_zone = "UTC";
}

abbrev weekday : ℕ → String → Bool
weekday at zone = false

abbrev raw : ℕ → ℕ → RawUsage
raw i o = record {
  input_tokens = some i;
  output_tokens = some o;
  cache_read_tokens = none;
  cache_write_tokens = none;
  reasoning_tokens = none;
}

abbrev three_frames : List Timed
three_frames =
    (0, message (some (raw 1000000 500000)) (some "hello"))
    ∷ (1, tool_call)
    ∷ (7200000, message (some (raw 1000000 0)) none)
    ∷ (7200001, turn_end (some "completed") none none)
    ∷ []

turn_bills_example :
    let t = (run_frames whole weekday table three_frames (turn_of (some "deep") (some "chat"))).0 in
    (cost_of t
      ≡ total whole weekday table
          (micro whole weekday table)
          (some "deep")
          (some "chat")
          (usages three_frames))
    × (peak_cost_of t
        ≡ total whole weekday table
            (peak_micro whole weekday table)
            (some "deep")
            (some "chat")
            (usages three_frames))
    × (is_some t.usage ≡ not (is_empty (usages three_frames)))
    × (input_of t.usage ≡ sum_by (λ u. u.1.input_tokens) (usages three_frames))
    × (output_of t.usage ≡ sum_by (λ u. u.1.output_tokens) (usages three_frames))
    × (t.tool_calls ≡ tool_calls three_frames)
turn_bills_example = turn_bills whole weekday table (some "deep") (some "chat") three_frames

abbrev env : FinishEnv
env = record { run_id = "r1"; started_at = 10; now = 30; transaction = commits }

abbrev late_env : FinishEnv
late_env = record { run_id = "r1"; started_at = 10; now = 40; transaction = fails "disk" }

abbrev before : Finish
before = record {
  finished_outcome = none;
  timers_cleared = false;
  row = record {
    state = is_running;
    dsh_session_id = none;
    result_summary = none;
    ended_at = none;
    error = none;
  };
  usage_records = [];
}

abbrev spent : TurnState
spent = record new_turn_state {
  session_id = some "s1";
  usage = some (record {
    input_tokens = 5;
    output_tokens = 7;
    cache_read_tokens = none;
    cache_write_tokens = none;
    reasoning_tokens = none;
  });
  accrued_cost = 9;
}

abbrev ending : Call
ending = record { env = env; turn = spent; state = done; error = none }

abbrev timeout : Call
timeout = record { env = late_env; turn = spent; state = failed; error = some "silent" }

finish_once_example :
    let first = call ending before in
    (call_all (ending ∷ timeout ∷ []) before
      ≡ (first.0, map (λ k. first.1) (ending ∷ timeout ∷ [])))
    × (first.1.state ≡ (settled commits done none).0)
    × (first.1.error ≡ (settled commits done none).1)
    × (first.0.row.state ≡ first.1.state)
    × (first.0.row.error ≡ first.1.error)
    × (first.0.row.dsh_session_id ≡ first.1.session_id)
    × (first.0.usage_records ≡ ledger_rows env first.1 ++ [])
    × (first.0.timers_cleared ≡ true)
finish_once_example = finish_once ending (timeout ∷ []) before refl
