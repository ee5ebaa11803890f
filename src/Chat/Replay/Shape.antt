-- ===== src/Chat/Replay/Shape.antt =====
-- src/chat/replay.ts: what a compacted stretch of events begins and ends with.
use mathlib.Core.List.{append_assoc, append-nil}
use hellodac.Prelude.{
  ◌≡◌, refl, ap, ◌∙◌, arith, String, Bool, true, false, ◌&&◌, ◌||◌, List, [], ◌∷◌, ◌++◌, any,
  Bool-cases, inl, inr,
}
use hellodac.Chat.Replay.Chunks.{plain}
use hellodac.Chat.Replay.Texts.{plain-compact_events}
use hellodac.Chat.Replay.{
  HistoryEvent, chunk, message, turn_end, other_event, is_message, is_turn_end, chunk_type,
  chunk_text, copy, append_text, compact_event, compact_events, compact_segment, segments_from,
  last_segment,
}

abbrev pub Events : Type 0
Events = List HistoryEvent

pub any-append :
    (p : HistoryEvent → Bool) (xs ys : Events) → any p (xs ++ ys) ≡ (any p xs || any p ys)
any-append p [] ys = refl
any-append p (x ∷ xs) ys = ground (arith, any-append p xs ys)

-- No end of a turn in a compacted stretch without one, and nothing that is not empty becomes empty.
append_text-ends :
    (u x : String) (out : Events) → any is_turn_end (append_text u x out) ≡ any is_turn_end out
append_text-ends u x [] = refl
append_text-ends u x (chunk seq c ∷ out) = ground (arith, append_text-ends u x out)
append_text-ends u x (message body ∷ out) = append_text-ends u x out
append_text-ends u x (turn_end body ∷ out) = refl
append_text-ends u x (other_event kind body ∷ out) = append_text-ends u x out

compact_event-ends :
    (hm : Bool) (out : Events) (e : HistoryEvent)
    → any is_turn_end (compact_event hm out e) ≡ (any is_turn_end out || is_turn_end e)
compact_event-ends hm out (chunk seq c) = ground (
  arith,
  append_text-ends (chunk_type c) (chunk_text c) out,
  any-append is_turn_end out (copy seq (chunk_type c) (chunk_text c) ∷ []),
)
compact_event-ends hm out (message body) =
    ground (arith, any-append is_turn_end out (message body ∷ []))
compact_event-ends hm out (turn_end body) =
    ground (arith, any-append is_turn_end out (turn_end body ∷ []))
compact_event-ends hm out (other_event kind body) =
    ground (arith, any-append is_turn_end out (other_event kind body ∷ []))

compact_events-ends :
    (hm : Bool) (out es : Events)
    → any is_turn_end (compact_events hm out es) ≡ (any is_turn_end out || any is_turn_end es)
unfolding compact_events
compact_events-ends hm out [] = ground arith
compact_events-ends hm out (e ∷ es) =
    ground (arith, compact_events-ends hm (compact_event hm out e) es, compact_event-ends hm out e)

compact_events-append :
    (hm : Bool) (out xs ys : Events)
    → compact_events hm out (xs ++ ys) ≡ compact_events hm (compact_events hm out xs) ys
unfolding compact_events
compact_events-append hm out [] ys = refl
compact_events-append hm out (x ∷ xs) ys = compact_events-append hm (compact_event hm out x) xs ys

-- The end of a turn stays its last event.
pub compact_segment-end :
    (current : Events) (body : String)
    → compact_segment (current ++ turn_end body ∷ [])
      ≡ compact_segment current ++ turn_end body ∷ []
unfolding compact_segment compact_events
compact_segment-end current body =
    let hm = any is_message current in
    let same : any is_message (current ++ turn_end body ∷ []) ≡ hm =
      ground (arith, any-append is_message current (turn_end body ∷ [])) in
    rw same (compact_events-append hm [] current (turn_end body ∷ []))

pub segments_from-open :
    (xs ys current : Events)
    → any is_turn_end xs ≡ false
    → segments_from current (xs ++ ys) ≡ segments_from (current ++ xs) ys
unfolding segments_from
segments_from-open [] ys current e = rw (append-nil current) refl
segments_from-open (x ∷ xs) ys current e =
    let open_here : is_turn_end x ≡ false = ground (arith, e) in
    let open_rest : any is_turn_end xs ≡ false = ground (arith, e) in
    rw (open_here, segments_from)
      (segments_from-open xs ys (current ++ x ∷ []) open_rest
        ∙ ap (λ (c : Events). segments_from c ys) (append_assoc current (x ∷ []) xs))

abbrev pub is_nil : Events → Bool
is_nil [] = true
is_nil (e ∷ es) = false

append-is_nil : (xs ys : Events) → is_nil (xs ++ ys) ≡ (is_nil xs && is_nil ys)
append-is_nil [] ys = refl
append-is_nil (x ∷ xs) ys = refl

append_text-is_nil : (u x : String) (out : Events) → is_nil (append_text u x out) ≡ is_nil out
append_text-is_nil u x [] = refl
append_text-is_nil u x (chunk seq c ∷ out) = ground arith
append_text-is_nil u x (message body ∷ out) = refl
append_text-is_nil u x (turn_end body ∷ out) = refl
append_text-is_nil u x (other_event kind body ∷ out) = refl

compact_event-is_nil :
    (hm : Bool) (out : Events) (e : HistoryEvent)
    → (is_nil out && hm) ≡ false
    → is_nil (compact_event hm out e) ≡ false
compact_event-is_nil hm out (chunk seq c) p = ground (
  arith,
  p,
  append_text-is_nil (chunk_type c) (chunk_text c) out,
  append-is_nil out (copy seq (chunk_type c) (chunk_text c) ∷ []),
)
compact_event-is_nil hm out (message body) p = ground (arith, append-is_nil out (message body ∷ []))
compact_event-is_nil hm out (turn_end body) p =
    ground (arith, append-is_nil out (turn_end body ∷ []))
compact_event-is_nil hm out (other_event kind body) p =
    ground (arith, append-is_nil out (other_event kind body ∷ []))

compact_events-is_nil :
    (hm : Bool) (out es : Events) → is_nil out ≡ false → is_nil (compact_events hm out es) ≡ false
unfolding compact_events
compact_events-is_nil hm out [] p = p
compact_events-is_nil hm out (e ∷ es) p =
    compact_events-is_nil hm (compact_event hm out e) es
      (compact_event-is_nil hm out e (ground (arith, p)))

message-plain : (es : Events) → any is_message es ≡ true → is_nil (plain es) ≡ false
message-plain [] p = cc
message-plain (chunk seq c ∷ es) p = message-plain es p
message-plain (message body ∷ es) p = refl
message-plain (turn_end body ∷ es) p = refl
message-plain (other_event kind body ∷ es) p = refl

plain-is_nil : (es : Events) → is_nil (plain es) ≡ false → is_nil es ≡ false
plain-is_nil [] p = cc
plain-is_nil (e ∷ es) p = refl

pub compact_segment-is_nil :
    (e : HistoryEvent) (es : Events) → is_nil (compact_segment (e ∷ es)) ≡ false
unfolding compact_segment
compact_segment-is_nil e es = elim (Bool-cases (any is_message (e ∷ es))) [
  | inl p ↦
      plain-is_nil (compact_events (any is_message (e ∷ es)) [] (e ∷ es))
        (rw (plain-compact_events (any is_message (e ∷ es)) [] (e ∷ es)) (message-plain (e ∷ es) p))
  | inr p ↦
      let hm = any is_message (e ∷ es) in
      unfold compact_events in
      compact_events-is_nil hm (compact_event hm [] e) es (compact_event-is_nil hm [] e p)
]

pub compact_segment-ends : (es : Events) → any is_turn_end (compact_segment es) ≡ any is_turn_end es
unfolding compact_segment
compact_segment-ends es = compact_events-ends (any is_message es) [] es

pub last_segment-of : (es : Events) → is_nil es ≡ false → last_segment es ≡ es ∷ []
last_segment-of [] p = cc
last_segment-of (e ∷ es) p = refl
