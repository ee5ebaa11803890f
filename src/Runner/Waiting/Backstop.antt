-- ===== src/Runner/Waiting/Backstop.antt =====
-- src/runner.ts: when the silence timer is armed.
use hellodac.Prelude.{
  ◌-◌, ◌<◌, ◌≡◌, refl, any, if◌then◌else◌, arith, String, Bool, true, false, ◌&&◌, ◌||◌, List, [],
  ◌∷◌, ◌==◌,
}
use hellodac.Runner.Waiting.{
  LiveFrame, turn_end, Settings, Waiting, At, live_frame, clear_timers, decline_due, decline_result,
  arm_silence, track_awaiting, ask_id_of, see,
}

-- What happens while the turn runs, up to its end.
pub data Happening : Type 0 where
  arrives : At → LiveFrame → Happening
  declines : (id : String) → Happening
  declined : (accepted : Bool) → Happening

-- A turn end is the end of the turn, at which `finish` clears the timers.
abbrev pub is_end : LiveFrame → Bool
is_end turn_end = true
is_end frame = false

abbrev pub after_end : Bool → Waiting → Waiting
after_end over w = if over then clear_timers w else w

abbrev pub ends_turn : Happening → Bool
ends_turn (arrives at frame) = is_end frame
ends_turn h = false

unfoldable pub happen : Settings → Happening → Waiting → Waiting
happen st (arrives at frame) w = after_end (is_end frame) (live_frame st at frame w)
happen st (declines id) w = decline_due id w
happen st (declined accepted) w = decline_result st accepted w

unfoldable pub happen_all : Settings → List Happening → Waiting → Waiting
happen_all st [] w = w
happen_all st (h ∷ hs) w = happen_all st hs (happen st h w)

-- Whether nothing but the turn itself is to blame for a silence.
abbrev pub is_watched : Settings → Waiting → Bool
is_watched st w = st.is_outward || w.awaiting_human == 0 && w.tools_in_flight == 0

arm_silence-watched :
    (st : Settings) (w : Waiting)
    → 0 < st.silence_ms
    → (arm_silence st w).silence_timer ≡ is_watched st (arm_silence st w)
unfolding arm_silence
arm_silence-watched st w p = ground arith

happen-watched :
    (st : Settings) (h : Happening) (w : Waiting)
    → 0 < st.silence_ms
    → ends_turn h ≡ false
    → w.silence_timer ≡ is_watched st w
    → (happen st h w).silence_timer ≡ is_watched st (happen st h w)
unfolding happen live_frame decline_due decline_result
happen-watched st (arrives at frame) w p n e =
    let heard : (live_frame st at frame w).silence_timer
        ≡ is_watched st (live_frame st at frame w) =
      ground (
        arith,
        e,
        p,
        arm_silence-watched st (track_awaiting st at frame (see (ask_id_of frame) w)) p,
      ) in
    rw n heard
happen-watched st (declines id) w p n e = e
happen-watched st (declined false) w p n e = e
happen-watched st (declined true) w p n e =
    arm_silence-watched st (record w { awaiting_human = w.awaiting_human - 1 }) p

-- Once the silence timer was armed at the start of a turn, and until it fires or the turn is
-- cancelled: after any frames but the end of the turn, declines of questions and answers of the host
-- it is armed exactly if the turn is outward, or waits neither for a human nor for a tool; and the end
-- of the turn clears it. A limit of 0 switches it off and is excluded.
pub silence_watches :
    (st : Settings) (hs : List Happening) (w : Waiting) (at : At)
    → 0 < st.silence_ms
    → any ends_turn hs ≡ false
    → let v = happen_all st hs (arm_silence st w) in
      (v.silence_timer ≡ is_watched st v)
      × ((happen st (arrives at turn_end) v).silence_timer ≡ false)
unfolding happen_all clear_timers
silence_watches st hs w at p n =
    (all_watched hs (arm_silence st w) n (arm_silence-watched st w p), unfold happen in refl)
  where
    all_watched :
        (hs : List Happening) (w : Waiting)
        → any ends_turn hs ≡ false
        → w.silence_timer ≡ is_watched st w
        → let v = happen_all st hs w in v.silence_timer ≡ is_watched st v
    all_watched [] w n e = e
    all_watched (h ∷ hs) w n e =
        all_watched hs (happen st h w) (ground (arith, n))
          (happen-watched st h w p (ground (arith, n)) e)
