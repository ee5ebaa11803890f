-- ===== src/Chat/Replay/Tests.antt =====
-- A turn that was cut off, and one with its message.
use hellodac.Prelude.{
  ◌≡◌, ◌≤◌, String, List, [], ◌∷◌, map, some, none, if◌then◌else◌, any, ◌&&◌, ◌is◌,
}
use hellodac.Chat.Replay.{
  HistoryEvent, chunk, message, turn_end, other_event, Chunk, is_message, compact_segment,
  compact_history, segments,
}
use hellodac.Chat.Replay.Chunks.{text_of, count_of, plain}
use hellodac.Chat.Replay.Texts.{compact_segment_keeps}
use hellodac.Chat.Replay.Turns.{compact_history_turns}

abbrev delta : String → String → Chunk
delta type text = record { type = some type; text = some text; others = "" }

abbrev cut_off : List HistoryEvent
cut_off =
    chunk 1 (some (delta "text-delta" "Hel"))
    ∷ chunk 2 (some (delta "reasoning-delta" "hm"))
    ∷ other_event "tool_call" "{}"
    ∷ chunk 3 (some (delta "text-delta" "lo"))
    ∷ chunk 4 none
    ∷ turn_end "aborted"
    ∷ []

abbrev history : List HistoryEvent
history =
    chunk 1 (some (delta "text-delta" "Hel"))
    ∷ turn_end "aborted"
    ∷ chunk 3 (some (delta "text-delta" "lo"))
    ∷ message "lo"
    ∷ turn_end "completed"
    ∷ chunk 4 none
    ∷ []

compact_segment_keeps_example :
    (plain (compact_segment cut_off) ≡ plain cut_off)
    × (count_of "text-delta" (compact_segment cut_off) ≤ 1)
    × (text_of "text-delta" (compact_segment cut_off) ≡ (
        if "text-delta" is "text-delta" && any is_message cut_off
        then ""
        else text_of "text-delta" cut_off))
compact_segment_keeps_example = compact_segment_keeps "text-delta" cut_off

compact_history_turns_example :
    segments (compact_history history) ≡ map compact_segment (segments history)
compact_history_turns_example = compact_history_turns history
