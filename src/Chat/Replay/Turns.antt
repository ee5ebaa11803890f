-- ===== src/Chat/Replay/Turns.antt =====
-- src/chat/replay.ts: the turns of a compacted history.
use mathlib.Core.List.{append_assoc}
use hellodac.Prelude.{◌≡◌, refl, sym, ap, ◌∙◌, arith, false, List, [], ◌∷◌, ◌++◌, map, any}
use hellodac.Chat.Replay.{
  chunk, message, turn_end, other_event, is_turn_end, compact_segment, compact_history, segments,
  segments_from, flat_map,
}
use hellodac.Chat.Replay.Shape.{
  Events, any-append, compact_segment-ends, compact_segment-end, compact_segment-is_nil,
  last_segment-of, segments_from-open,
}

turns :
    (es current : Events)
    → any is_turn_end current ≡ false
    → segments (flat_map compact_segment (segments_from current es))
      ≡ map compact_segment (segments_from current es)
unfolding segments_from
turns [] [] p = refl
turns [] (e ∷ current) p =
    segments_from-open (compact_segment (e ∷ current)) [] []
      (compact_segment-ends (e ∷ current) ∙ p)
    ∙ last_segment-of (compact_segment (e ∷ current)) (compact_segment-is_nil e current)
turns (turn_end body ∷ es) current p =
    let rest = flat_map compact_segment (segments_from [] es) in
    ap (λ (xs : Events). segments (xs ++ rest)) (compact_segment-end current body)
    ∙ ap segments (append_assoc (compact_segment current) (turn_end body ∷ []) rest)
    ∙ segments_from-open (compact_segment current) (turn_end body ∷ rest) []
        (compact_segment-ends current ∙ p)
    ∙ ap (λ (xss : List Events). (compact_segment current ++ turn_end body ∷ []) ∷ xss)
        (turns es [] refl)
    ∙ ap (λ (xs : Events). xs ∷ map compact_segment (segments_from [] es))
        (sym (compact_segment-end current body))
turns (chunk seq c ∷ es) current p =
    turns es (current ++ chunk seq c ∷ [])
      (ground (arith, p, any-append is_turn_end current (chunk seq c ∷ [])))
turns (message body ∷ es) current p =
    turns es (current ++ message body ∷ [])
      (ground (arith, p, any-append is_turn_end current (message body ∷ [])))
turns (other_event kind body ∷ es) current p =
    turns es (current ++ other_event kind body ∷ [])
      (ground (arith, p, any-append is_turn_end current (other_event kind body ∷ [])))

-- The turns of a compacted history are the compacted turns of the history, one for one.
pub compact_history_turns :
    (es : Events) → segments (compact_history es) ≡ map compact_segment (segments es)
unfolding compact_history
compact_history_turns es = turns es [] refl
