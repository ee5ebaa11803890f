-- ===== src/Runner/Waiting/Counting.antt =====
-- src/runner.ts: `awaitingHuman` against the questions and approvals that are open.
use hellodac.Prelude.{
  suc, ◌-◌, ◌≡◌, arith, String, Bool, true, false, Option, none, some, List, [], ◌∷◌, ◌++◌,
  if◌then◌else◌, Option-cases, inl, inr, ◌is◌, includes, length,
}
use hellodac.Runner.Waiting.{
  LiveFrame, tool_call, tool_result, turn_end, other_frame, question_asked, question_resolved,
  approval_pending, approval_resolved, Settings, Waiting, At, live_frame, arm_silence,
  track_awaiting, ask_id_of, is_seen, see, text_of,
}

abbrev pub same_id : Option String → Option String → Bool
same_id none none = true
same_id (some a) (some b) = a is b
same_id _ _ = false

-- A list without the first entry for an id; `none` where there is none.
unfoldable pub close_ask : Option String → List (Option String) → Option (List (Option String))
close_ask id [] = none
close_ask id (x ∷ xs) =
    let rest = close_ask id xs in
    if same_id x id then some xs else elim rest [ none ↦ none | some ys ↦ some (x ∷ ys) ]

-- What was seen, and what is open.
abbrev pub Asks : Type 0
Asks = List String × List (Option String)

abbrev pub with_open : List String → Option (List (Option String)) → Option Asks
with_open seen none = none
with_open seen (some xs) = some (seen, xs)

abbrev pub open_ask : Option String → Asks → Asks
open_ask none s = (s.0, none ∷ s.1)
open_ask (some id) s = if includes s.0 id then s else (s.0 ++ id ∷ [], some id ∷ s.1)

-- The asks after a frame; `none` if it resolves what is not open.
unfoldable pub asks_after : LiveFrame → Asks → Option Asks
asks_after (question_asked id) s = some (open_ask (text_of id) s)
asks_after (approval_pending id approval tool reason) s = some (open_ask (text_of id) s)
asks_after (question_resolved id) s = with_open s.0 (close_ask (text_of id) s.1)
asks_after (approval_resolved id outcome) s = with_open s.0 (close_ask (text_of id) s.1)
asks_after turn_end s = some (s.0, [])
asks_after tool_call s = some s
asks_after tool_result s = some s
asks_after other_frame s = some s

unfoldable pub asks_after_all : List (At × LiveFrame) → Asks → Option Asks
asks_after_all [] s = some s
asks_after_all ((at, frame) ∷ frames) s = elim (asks_after frame s) [
  | none ↦ none
  | some t ↦ asks_after_all frames t
]

unfoldable pub live_frames : Settings → List (At × LiveFrame) → Waiting → Waiting
live_frames st [] w = w
live_frames st ((at, frame) ∷ frames) w = live_frames st frames (live_frame st at frame w)

-- The counter counts the open asks, and the sets of seen ids agree.
abbrev pub Agrees : Waiting → Asks → Type 0
Agrees w s = (w.awaiting_human ≡ length s.1) × (w.seen_ask_ids ≡ s.0)

length-close_ask :
    (id : Option String) (xs ys : List (Option String))
    → close_ask id xs ≡ some ys
    → length xs ≡ suc (length ys)
unfolding close_ask
length-close_ask id [] ys e = cc
length-close_ask id (x ∷ xs) ys e = elim (Option-cases (close_ask id xs)) [
  | inl p ↦ ground (arith, e, p)
  | inr (zs, p) ↦ ground (arith, e, p, length-close_ask id xs zs p)
]

arm_silence-Agrees :
    (st : Settings) (w : Waiting) (s : Asks) → Agrees w s → Agrees (arm_silence st w) s
unfolding arm_silence
arm_silence-Agrees st w s a = ground (arith, a)

closed-Agrees :
    (w : Waiting) (id : Option String) (s t : Asks)
    → Agrees w s
    → with_open s.0 (close_ask id s.1) ≡ some t
    → (w.awaiting_human - 1 ≡ length t.1) × (w.seen_ask_ids ≡ t.0)
closed-Agrees w id s t a e = elim (Option-cases (close_ask id s.1)) [
  | inl p ↦ ground (arith, e, p)
  | inr (ys, p) ↦ ground (arith, a, e, p, length-close_ask id s.1 ys p)
]

-- A frame that asks, where tracking it adds one to the counter.
asked-Agrees :
    (st : Settings) (id : Option String) (w x : Waiting) (s : Asks)
    → Agrees w s
    → x.awaiting_human ≡ suc w.awaiting_human
    → x.seen_ask_ids ≡ (see id w).seen_ask_ids
    → Agrees (if is_seen id w then w else arm_silence st x) (open_ask id s)
unfolding arm_silence
asked-Agrees st none w x s a e f = ground (arith, a, e, f)
asked-Agrees st (some d) w x s a e f = ground (arith, a, e, f)

live_frame-Agrees :
    (st : Settings) (at : At) (frame : LiveFrame) (w : Waiting) (s t : Asks)
    → Agrees w s
    → asks_after frame s ≡ some t
    → Agrees (live_frame st at frame w) t
unfolding live_frame asks_after track_awaiting ask_id_of
live_frame-Agrees st at tool_call w s t a e =
    arm_silence-Agrees st (track_awaiting st at tool_call w) t (ground (arith, a, e))
live_frame-Agrees st at tool_result w s t a e =
    arm_silence-Agrees st (track_awaiting st at tool_result w) t (ground (arith, a, e))
live_frame-Agrees st at turn_end w s t a e =
    arm_silence-Agrees st (track_awaiting st at turn_end w) t (ground (arith, a, e))
live_frame-Agrees st at other_frame w s t a e = arm_silence-Agrees st w t (ground (arith, a, e))
live_frame-Agrees st at (question_resolved id) w s t a e =
    arm_silence-Agrees st (track_awaiting st at (question_resolved id) w) t
      (closed-Agrees w (text_of id) s t a e)
live_frame-Agrees st at (approval_resolved id outcome) w s t a e =
    arm_silence-Agrees st (track_awaiting st at (approval_resolved id outcome) w) t
      (closed-Agrees w (text_of id) s t a e)
live_frame-Agrees st at (question_asked id) w s t a e = ground (
  arith,
  e,
  asked-Agrees st (text_of id) w (track_awaiting st at (question_asked id) (see (text_of id) w)) s
      a,
)
live_frame-Agrees st at (approval_pending id approval tool reason) w s t a e = ground (
  arith,
  e,
  asked-Agrees st (text_of id) w
      (track_awaiting st at (approval_pending id approval tool reason) (see (text_of id) w)) s a,
)

-- Over the frames of a turn in which no answer comes for what is not open, and without automatic
-- declines: the counter of waits is the number of the open questions and approvals. One that is asked
-- again under the same id counts once, one without an id counts each time, and the end of the turn
-- closes all.
pub awaiting_counts :
    (st : Settings) (frames : List (At × LiveFrame)) (w : Waiting) (s t : Asks)
    → Agrees w s
    → asks_after_all frames s ≡ some t
    → Agrees (live_frames st frames w) t
unfolding asks_after_all live_frames
awaiting_counts st [] w s t a e = ground (arith, a, e)
awaiting_counts st ((at, frame) ∷ frames) w s t a e = elim (Option-cases (asks_after frame s)) [
  | inl p ↦ ground (arith, e, p)
  | inr (v, p) ↦
      awaiting_counts st frames (live_frame st at frame w) v t
        (live_frame-Agrees st at frame w s v a p) (ground (arith, e, p))
]
