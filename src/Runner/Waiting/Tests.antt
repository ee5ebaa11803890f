-- ===== src/Runner/Waiting/Tests.antt =====
-- A turn that asks the same question twice and waits for an approval.
use hellodac.Prelude.{ℕ, ◌≡◌, refl, arith, true, false, some, none, List, [], ◌∷◌}
use hellodac.Runner.Waiting.{
  LiveFrame, turn_end, question_asked, question_resolved, approval_pending, Settings, Waiting, At,
  arm_silence,
}
use hellodac.Runner.Waiting.Backstop.{
  arrives, declined, happen, happen_all, is_watched, silence_watches,
}
use hellodac.Runner.Waiting.Counting.{
  Agrees, live_frames, asks_after, asks_after_all, close_ask, awaiting_counts,
}

abbrev settings : Settings
settings = record { run_id = "r1"; agent_id = "a1"; silence_ms = 300000; is_outward = false }

abbrev idle : Waiting
idle = record {
  awaiting_human = 0;
  tools_in_flight = 0;
  silence_timer = false;
  silenced = false;
  pending_declines = [];
  seen_ask_ids = [];
  approval_queue = [];
}

abbrev at : ℕ → At
at now = record { now = now; writes = true }

abbrev ask_twice : List (At × LiveFrame)
ask_twice =
    (at 1, question_asked (some "q1"))
    ∷ (at 2, approval_pending (some "d1") (some "ap1") (some "bash") none)
    ∷ (at 3, question_asked (some "q1"))
    ∷ (at 4, question_resolved (some "q1"))
    ∷ []

silence_watches_example :
    let v =
      happen_all settings
        (arrives (at 1) (question_asked (some "q1")) ∷ declined true ∷ [])
        (arm_silence settings idle) in
    (v.silence_timer ≡ is_watched settings v)
    × ((happen settings (arrives (at 9) turn_end) v).silence_timer ≡ false)
silence_watches_example =
    silence_watches settings (arrives (at 1) (question_asked (some "q1")) ∷ declined true ∷ []) idle
      (at 9) (omega arith) refl

awaiting_counts_example :
    Agrees (live_frames settings ask_twice idle) (("q1" ∷ "d1" ∷ []), (some "d1" ∷ []))
unfolding asks_after_all asks_after close_ask
awaiting_counts_example =
    awaiting_counts settings ask_twice idle ([], []) (("q1" ∷ "d1" ∷ []), (some "d1" ∷ []))
      (refl, refl) refl
