-- ===== src/Runner/Drive/Written.antt =====
-- src/runner.ts: what a turn settles or returns, against what `finish` wrote.
use hellodac.Prelude.{
  ℕ, ◌≡◌, arith, String, Bool, not, ◌||◌, Option, none, some, List, [], ◌∷◌, ltb, or_default,
  Option-cases, Bool-cases, inl, inr,
}
use hellodac.Runner.Pricing.{Doubles, PricingTable}
use hellodac.Runner.Turn.{
  TurnState, FrameResult, continue, ended, RunState, failed, RunOutcome, Finish, FinishEnv,
  handle_turn_frame, finish,
}
use hellodac.Runner.Turn.Ends.{finish_again, first_kept}
use hellodac.Runner.Waiting.{Settings, live_frame, ask_id_of, is_seen}
use hellodac.Runner.Drive.{
  turn_frame, wait_frame, Drive, accepts, refuses, throws, Moment, Signal, arrives, recovers,
  fetches, cancels, answers, env_of, at_of, end_turn, return_now, after_frame, on_frame,
  recover_asks, on_recovered, on_fetched, signal, signals, refused_text, reconnect_text,
}

-- What was settled or returned is what was written.
pub record Coherent (d : Drive) : Type 0 where
  pub settled_written : (o : RunOutcome) → d.settled ≡ some o → d.ending.finished_outcome ≡ some o
  pub returned_written : (o : RunOutcome) → d.returned ≡ some o → d.ending.finished_outcome ≡ some o

pub finish-again :
    (env : FinishEnv) (turn : TurnState) (state : RunState) (error : Option String) (f : Finish)
    (o : RunOutcome)
    → f.finished_outcome ≡ some o
    → finish env turn state error f ≡ (f, o)
finish-again env turn state error f o e =
    finish_again (record { env = env; turn = turn; state = state; error = error }) f o e

finish-kept :
    (env : FinishEnv) (turn : TurnState) (state : RunState) (error : Option String) (f : Finish)
    → f.finished_outcome ≡ none
    → (finish env turn state error f).0.finished_outcome ≡ some (finish env turn state error f).1
finish-kept env turn state error f e =
    first_kept (record { env = env; turn = turn; state = state; error = error }) f e

-- A call of `finish` leaves the outcome that it returns.
pub finish-written :
    (env : FinishEnv) (turn : TurnState) (state : RunState) (error : Option String) (f : Finish)
    → (finish env turn state error f).0.finished_outcome ≡ some (finish env turn state error f).1
finish-written env turn state error f = elim (Option-cases f.finished_outcome) [
  | inl e ↦ finish-kept env turn state error f e
  | inr (o, e) ↦ rw (finish-again env turn state error f o e) e
]

module _ (doubles : Doubles) (is_weekend : ℕ → String → Bool) (table : PricingTable doubles)
    (st : Settings) (started_at : ℕ) where
  abbrev env : Moment → FinishEnv
  env m = env_of doubles is_weekend table st started_at m

  abbrev next : Signal → Drive → Drive
  next s d = signal doubles is_weekend table st started_at s d

  pub end_turn-Coherent :
      (m : Moment) (state : RunState) (error : Option String) (d : Drive)
      → Coherent d
      → Coherent (end_turn doubles is_weekend table st started_at m state error d)
  end_turn-Coherent m state error d c = record {
    settled_written = λ o e. elim (Option-cases d.settled) [
      | inl n ↦ ground (arith, e, n, finish-written (env m) d.turn state error d.ending)
      | inr (old, s) ↦
          let same =
            finish-again (env m) d.turn state error d.ending old (c.settled_written old s) in
          ground (arith, e, s, same, c.settled_written old s)
    ];
    returned_written = λ o e.
        let same = finish-again (env m) d.turn state error d.ending o (c.returned_written o e) in
        ground (arith, same, c.returned_written o e);
  }

  return_now-Coherent :
      (m : Moment) (error : Option String) (d : Drive)
      → Coherent d
      → Coherent (return_now doubles is_weekend table st started_at m error d)
  return_now-Coherent m error d c = record {
    settled_written = λ o e.
        let same = finish-again (env m) d.turn failed error d.ending o (c.settled_written o e) in
        ground (arith, same, c.settled_written o e);
    returned_written =
        λ o e. ground (arith, e, finish-written (env m) d.turn failed error d.ending);
  }

  after_frame-Coherent :
      (m : Moment) (r : FrameResult) (d : Drive)
      → Coherent d
      → Coherent (after_frame doubles is_weekend table st started_at m r d)
  after_frame-Coherent m continue d c = c
  after_frame-Coherent m (ended state error) d c = end_turn-Coherent m state error d c

  signal-Coherent : (s : Signal) (d : Drive) → Coherent d → Coherent (next s d)
  unfolding signal on_frame on_recovered on_fetched
  signal-Coherent (arrives m frame) d c =
      let live = wait_frame frame in
      elim (Bool-cases (not d.subscribed || is_seen (ask_id_of live) d.waiting)) [
        | inl e ↦ rw e c
        | inr e ↦
            let out = handle_turn_frame doubles is_weekend table m.now (turn_frame frame) d.turn in
            let w = live_frame st (at_of doubles is_weekend table st started_at m) live d.waiting in
            rw e (
              after_frame-Coherent m out.1 (record d { turn = out.0; waiting = w })
                (record {
                  settled_written = c.settled_written;
                  returned_written = c.returned_written;
                }))
      ]
  signal-Coherent (recovers m asks) d c =
      let w = recover_asks doubles is_weekend table st started_at m asks d.waiting in
      let kept : Coherent (record d { waiting = w }) = record {
        settled_written = c.settled_written;
        returned_written = c.returned_written;
      } in
      elim (Bool-cases (ltb 0 w.awaiting_human)) [
        | inl e ↦ rw e kept
        | inr e ↦
            rw e (end_turn-Coherent m failed (some reconnect_text) (record d { waiting = w }) kept)
      ]
  signal-Coherent (fetches m asks) d c = record {
    settled_written = c.settled_written;
    returned_written = c.returned_written;
  }
  signal-Coherent (cancels m why) d c = end_turn-Coherent m failed (some why) d c
  signal-Coherent (answers m cancelled accepts) d c = record {
    settled_written = c.settled_written;
    returned_written = c.returned_written;
  }
  signal-Coherent (answers m cancelled refuses) d c = return_now-Coherent m (some refused_text) d c
  signal-Coherent (answers m cancelled (throws detail)) d c =
      return_now-Coherent m (some (or_default cancelled detail)) d c

  pub signals-Coherent :
      (ss : List Signal) (d : Drive)
      → Coherent d
      → Coherent (signals doubles is_weekend table st started_at ss d)
  unfolding signals
  signals-Coherent [] d c = c
  signals-Coherent (s ∷ ss) d c = signals-Coherent ss (next s d) (signal-Coherent s d c)
