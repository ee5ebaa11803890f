-- ===== src/Runner/Drive/Ended.antt =====
-- src/runner.ts: a turn after it was cancelled, as the total timeout does at last.
use hellodac.Prelude.{
  ℕ, ◌≡◌, refl, sym, ap, ◌∙◌, arith, String, Bool, true, false, not, any, if◌then◌else◌, ◌||◌,
  Option, none, some, List, [], ◌∷◌, ltb, is_some, or_default, Option-cases, Bool-cases, inl, inr,
  ◌⊎◌,
}
use hellodac.Runner.Pricing.{Doubles, PricingTable}
use hellodac.Runner.Turn.{RunState, failed, RunOutcome, Finish, FinishEnv, finish}
use hellodac.Runner.Turn.{FrameResult, continue, ended, handle_turn_frame}
use hellodac.Runner.Waiting.{Settings, live_frame, ask_id_of, is_seen}
use hellodac.Runner.Drive.{
  wait_frame, Drive, accepts, refuses, throws, Moment, Signal, arrives, recovers, fetches, cancels,
  answers, env_of, end_turn, return_now, on_frame, recover_asks, on_recovered, on_fetched, signal,
  signals, result, turn_frame, at_of, after_frame, refused_text, reconnect_text,
}
use hellodac.Runner.Drive.Written.{
  Coherent, finish-again, finish-written, end_turn-Coherent, signals-Coherent,
}

-- The turn is over with an outcome.
pub record IsOver (fin : Finish) (o : RunOutcome) (d : Drive) : Type 0 where
  pub kept : d.ending ≡ fin
  pub written : fin.finished_outcome ≡ some o
  pub unsubscribed : d.subscribed ≡ false
  pub resolved : d.settled ≡ some o
  pub none_other : (d.returned ≡ none) ⊎ (d.returned ≡ some o)

module _ (doubles : Doubles) (is_weekend : ℕ → String → Bool) (table : PricingTable doubles)
    (st : Settings) (started_at : ℕ) where
  abbrev env : Moment → FinishEnv
  env m = env_of doubles is_weekend table st started_at m

  abbrev pub next : Signal → Drive → Drive
  next s d = signal doubles is_weekend table st started_at s d

  module _ (fin : Finish) (o : RunOutcome) where
    end_turn-IsOver :
        (m : Moment) (state : RunState) (error : Option String) (d : Drive)
        → IsOver fin o d
        → IsOver fin o (end_turn doubles is_weekend table st started_at m state error d)
    end_turn-IsOver m state error d v =
        let there : d.ending.finished_outcome ≡ some o =
          ap (λ (f : Finish). f.finished_outcome) v.kept ∙ v.written in
        let same = finish-again (env m) d.turn state error d.ending o there in
        record {
          kept = ap (λ (r : Finish × RunOutcome). r.0) same ∙ v.kept;
          written = v.written;
          unsubscribed = refl;
          resolved = ground (arith, v.resolved);
          none_other = v.none_other;
        }

    return_now-IsOver :
        (m : Moment) (error : Option String) (d : Drive)
        → IsOver fin o d
        → IsOver fin o (return_now doubles is_weekend table st started_at m error d)
    return_now-IsOver m error d v =
        let there : d.ending.finished_outcome ≡ some o =
          ap (λ (f : Finish). f.finished_outcome) v.kept ∙ v.written in
        let same = finish-again (env m) d.turn failed error d.ending o there in
        record {
          kept = ap (λ (r : Finish × RunOutcome). r.0) same ∙ v.kept;
          written = v.written;
          unsubscribed = refl;
          resolved = v.resolved;
          none_other = inr (ap (λ (r : Finish × RunOutcome). some r.1) same);
        }

    signal-IsOver : (s : Signal) (d : Drive) → IsOver fin o d → IsOver fin o (next s d)
    unfolding signal on_frame on_recovered on_fetched
    signal-IsOver (arrives m frame) d v =
        let unheard : (not d.subscribed || is_seen (ask_id_of (wait_frame frame)) d.waiting)
            ≡ true =
          ground (arith, v.unsubscribed) in
        rw unheard v
    signal-IsOver (recovers m asks) d v =
        let w = recover_asks doubles is_weekend table st started_at m asks d.waiting in
        let still : IsOver fin o (record d { waiting = w }) = record {
          kept = v.kept;
          written = v.written;
          unsubscribed = v.unsubscribed;
          resolved = v.resolved;
          none_other = v.none_other;
        } in
        elim (Bool-cases (ltb 0 w.awaiting_human)) [
          | inl e ↦ rw e still
          | inr e ↦
              rw e (end_turn-IsOver m failed (some reconnect_text) (record d { waiting = w }) still)
        ]
    signal-IsOver (fetches m asks) d v = record {
      kept = v.kept;
      written = v.written;
      unsubscribed = v.unsubscribed;
      resolved = v.resolved;
      none_other = v.none_other;
    }
    signal-IsOver (cancels m why) d v = end_turn-IsOver m failed (some why) d v
    signal-IsOver (answers m cancelled accepts) d v = record {
      kept = v.kept;
      written = v.written;
      unsubscribed = v.unsubscribed;
      resolved = v.resolved;
      none_other = v.none_other;
    }
    signal-IsOver (answers m cancelled refuses) d v = return_now-IsOver m (some refused_text) d v
    signal-IsOver (answers m cancelled (throws detail)) d v =
        return_now-IsOver m (some (or_default cancelled detail)) d v

    signals-IsOver :
        (ss : List Signal) (d : Drive)
        → IsOver fin o d
        → IsOver fin o (signals doubles is_weekend table st started_at ss d)
    unfolding signals
    signals-IsOver [] d v = v
    signals-IsOver (s ∷ ss) d v = signals-IsOver ss (next s d) (signal-IsOver s d v)

  returned-of :
      (d : Drive) (o : RunOutcome)
      → Coherent d
      → d.ending.finished_outcome ≡ some o
      → (d.returned ≡ none) ⊎ (d.returned ≡ some o)
  returned-of d o c e = elim (Option-cases d.returned) [
    | inl n ↦ inl n
    | inr (r, p) ↦ inr (p ∙ sym (c.returned_written r p) ∙ e)
  ]

  settled-of :
      (d : Drive) (o : RunOutcome)
      → Coherent d
      → d.ending.finished_outcome ≡ some o
      → is_some d.settled ≡ true
      → d.settled ≡ some o
  settled-of d o c e k = elim (Option-cases d.settled) [
    | inl n ↦ ground (arith, n, k)
    | inr (r, p) ↦ p ∙ sym (c.settled_written r p) ∙ e
  ]

  -- The total timeout, the silence timer or a stop: after it the turn is over.
  cancels-IsOver :
      (m : Moment) (why : String) (d : Drive)
      → Coherent d
      → let e = next (cancels m why) d in
        let out = finish (env m) d.turn failed (some why) d.ending in IsOver e.ending out.1 e
  unfolding signal
  cancels-IsOver m why d c =
      let e = next (cancels m why) d in
      let out = finish (env m) d.turn failed (some why) d.ending in
      let w = finish-written (env m) d.turn failed (some why) d.ending in
      let ce = end_turn-Coherent doubles is_weekend table st started_at m failed (some why) d c in
      record {
        kept = refl;
        written = w;
        unsubscribed = refl;
        resolved = settled-of e out.1 ce w (ground arith);
        none_other = returned-of e out.1 ce w;
      }

  -- The host has answered the prompt.
  abbrev pub is_answer : Signal → Bool
  is_answer (answers m cancelled answer) = true
  is_answer s = false

  abbrev pub has_answer : Drive → Bool
  has_answer d = is_some d.returned || d.accepted

  after_frame-has_answer :
      (m : Moment) (r : FrameResult) (d : Drive)
      → has_answer (after_frame doubles is_weekend table st started_at m r d) ≡ has_answer d
  after_frame-has_answer m continue d = refl
  after_frame-has_answer m (ended state error) d = refl

  signal-has_answer :
      (s : Signal) (d : Drive) → has_answer (next s d) ≡ (has_answer d || is_answer s)
  unfolding signal on_frame on_recovered on_fetched
  signal-has_answer (arrives m frame) d =
      let live = wait_frame frame in
      elim (Bool-cases (not d.subscribed || is_seen (ask_id_of live) d.waiting)) [
        | inl e ↦ rw e (ground arith)
        | inr e ↦
            let out = handle_turn_frame doubles is_weekend table m.now (turn_frame frame) d.turn in
            let w = live_frame st (at_of doubles is_weekend table st started_at m) live d.waiting in
            rw e (
              ground
                (arith, after_frame-has_answer m out.1 (record d { turn = out.0; waiting = w })))
      ]
  signal-has_answer (recovers m asks) d =
      let w = recover_asks doubles is_weekend table st started_at m asks d.waiting in
      elim (Bool-cases (ltb 0 w.awaiting_human)) [
        | inl e ↦ rw e (ground arith)
        | inr e ↦ rw e (ground arith)
      ]
  signal-has_answer (fetches m asks) d = ground arith
  signal-has_answer (cancels m why) d = ground arith
  signal-has_answer (answers m cancelled accepts) d = ground arith
  signal-has_answer (answers m cancelled refuses) d = ground arith
  signal-has_answer (answers m cancelled (throws detail)) d = ground arith

  signals-has_answer :
      (ss : List Signal) (d : Drive)
      → has_answer (signals doubles is_weekend table st started_at ss d)
        ≡ (has_answer d || any is_answer ss)
  unfolding signals
  signals-has_answer [] d = ground arith
  signals-has_answer (s ∷ ss) d =
      ground (arith, signals-has_answer ss (next s d), signal-has_answer s d)

  -- What the caller gets from a turn that is over.
  result-IsOver :
      (fin : Finish) (o : RunOutcome) (d : Drive)
      → IsOver fin o d
      → result d ≡ (if has_answer d then some o else none)
  result-IsOver fin o d v = ground (arith, v.resolved, v.none_other)

  -- A turn on which no prompt was answered yet, after any signals and a cancellation (which the total
  -- timeout brings at last), and then any further signals: the end was written by the signals up to the
  -- cancellation, and is not written again; nothing is subscribed any more; the promise of the turn
  -- holds the written outcome; and the caller gets that outcome if one of the signals was the host's
  -- answer to the prompt (accepted, refused or thrown), and nothing as long as there is none.
  pub cancelled_turn_ends :
      (before after : List Signal) (m : Moment) (why : String) (d : Drive)
      → Coherent d
      → has_answer d ≡ false
      → let all : List Signal → Drive → Drive = signals doubles is_weekend table st started_at in
        let e = next (cancels m why) (all before d) in
        let f = all after e in
        (is_some e.ending.finished_outcome ≡ true)
        × (f.ending ≡ e.ending)
        × (f.subscribed ≡ false)
        × (f.settled ≡ e.ending.finished_outcome)
        × (result f ≡ (
            if any is_answer before || any is_answer after
            then e.ending.finished_outcome
            else none))
  cancelled_turn_ends before after m why d c q =
      let b = signals doubles is_weekend table st started_at before d in
      let e = next (cancels m why) b in
      let o = (finish (env m) b.turn failed (some why) b.ending).1 in
      let v =
        cancels-IsOver m why b
          (signals-Coherent doubles is_weekend table st started_at before d c) in
      let f = signals doubles is_weekend table st started_at after e in
      let w = signals-IsOver e.ending o after e v in
      let asked : has_answer f ≡ (any is_answer before || any is_answer after) = ground (
        arith,
        q,
        signals-has_answer before d,
        signal-has_answer (cancels m why) b,
        signals-has_answer after e,
      ) in
      let got : result f ≡ (if has_answer f then some o else none) = result-IsOver e.ending o f w in
      ground (arith, v.written, w.kept, w.unsubscribed, w.resolved, got, asked)
