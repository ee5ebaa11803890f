-- ===== src/Runner/Drive/Tests.antt =====
-- A turn that says one thing, is cancelled, and then gets its end and the answer to its prompt.
use hellodac.Prelude.{
  ℕ, ◌+◌, ◌*◌, ◌/◌, ◌≡◌, refl, String, Bool, true, false, none, some, List, [], ◌∷◌, any, ◌||◌,
  if◌then◌else◌, is_some,
}
use hellodac.Runner.Pricing.{Doubles, PricingTable}
use hellodac.Runner.Turn.{is_running, new_turn_state, commits}
use hellodac.Runner.Waiting.{Settings}
use hellodac.Runner.Drive.{
  message_frame, end_frame, Drive, accepts, Moment, Signal, arrives, cancels, answers, signals,
  result,
}
use hellodac.Runner.Drive.Written.{Coherent}
use hellodac.Runner.Drive.Ended.{next, is_answer, cancelled_turn_ends}

abbrev whole : Doubles
whole = record {
  Num = ℕ;
  of_ℕ = λ n. n;
  add = λ a b. a + b;
  mul = λ a b. a * b;
  div = λ a b. a / b;
  round = λ a. a;
}

abbrev no_rates : PricingTable whole
no_rates = record {
  rates = [];
  peak_windows = [];
  weekends_off_peak = false;
  pricing_time_zone = "UTC";
}

abbrev weekday : ℕ → String → Bool
weekday at zone = false

abbrev settings : Settings
settings = record { run_id = "r1"; agent_id = "a1"; silence_ms = 300000; is_outward = true }

abbrev fresh : Drive
fresh = record {
  turn = new_turn_state;
  waiting = record {
    awaiting_human = 0;
    tools_in_flight = 0;
    silence_timer = true;
    silenced = false;
    pending_declines = [];
    seen_ask_ids = [];
    approval_queue = [];
  };
  ending = record {
    finished_outcome = none;
    timers_cleared = false;
    row = record {
      state = is_running;
      dsh_session_id = none;
      result_summary = none;
      ended_at = none;
      error = none;
    };
    usage_records = [];
  };
  subscribed = true;
  settled = none;
  accepted = false;
  returned = none;
}

fresh-Coherent : Coherent fresh
fresh-Coherent = record { settled_written = λ o e. cc; returned_written = λ o e. cc }

abbrev moment : ℕ → Moment
moment now = record { now = now; writes = true; transaction = commits }

abbrev talk : List Signal
talk = arrives (moment 5) (message_frame none (some "hello")) ∷ []

abbrev late : List Signal
late =
    arrives (moment 9) (end_frame (some "completed") none none)
    ∷ answers (moment 10) none accepts
    ∷ []

cancelled_turn_ends_example :
    let all : List Signal → Drive → Drive = signals whole weekday no_rates settings 1 in
    let e =
      next whole weekday no_rates settings 1 (cancels (moment 8) "no frames") (all talk fresh) in
    let f = all late e in
    (is_some e.ending.finished_outcome ≡ true)
    × (f.ending ≡ e.ending)
    × (f.subscribed ≡ false)
    × (f.settled ≡ e.ending.finished_outcome)
    × (result f ≡ (
        if (any (is_answer whole weekday no_rates settings 1) talk
          || any (is_answer whole weekday no_rates settings 1) late)
        then e.ending.finished_outcome
        else none))
cancelled_turn_ends_example =
    cancelled_turn_ends whole weekday no_rates settings 1 talk late (moment 8) "no frames" fresh
      fresh-Coherent refl
