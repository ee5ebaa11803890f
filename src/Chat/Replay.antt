-- ===== src/Chat/Replay.antt =====
-- src/chat/replay.ts: the history of a chat without the chunks that say nothing more. The merged chunk
-- of a type is an object that the output and the map share; here it is found in the output.
pub mod Chunks
pub mod Texts
pub mod Shape
pub mod Turns
pub mod Again
mod Tests
use Prim.Native.String.{◌++◌ as join}
use hellodac.Prelude.{
  ℕ, ◌+◌, String, Bool, true, false, not, ◌&&◌, ◌||◌, Option, none, some, List, [], ◌∷◌, ◌++◌, map,
  if◌then◌else◌, ◌is◌, any, or_default,
}

-- A chunk, with its `type` and `text` where they are texts, and the JSON text of its other fields.
pub record Chunk : Type 0 where
  pub type : Option String
  pub text : Option String
  pub others : String

-- `none` stands for a chunk that is no object.
pub data HistoryEvent : Type 0 where
  chunk : (seq : ℕ) → Option Chunk → HistoryEvent
  message turn_end : (body : String) → HistoryEvent
  other_event : (kind body : String) → HistoryEvent

abbrev pub is_chunk : HistoryEvent → Bool
is_chunk (chunk seq c) = true
is_chunk (message body) = false
is_chunk (turn_end body) = false
is_chunk (other_event kind body) = false

abbrev pub is_message : HistoryEvent → Bool
is_message (message body) = true
is_message (chunk seq c) = false
is_message (turn_end body) = false
is_message (other_event kind body) = false

abbrev pub is_turn_end : HistoryEvent → Bool
is_turn_end (turn_end body) = true
is_turn_end (chunk seq c) = false
is_turn_end (message body) = false
is_turn_end (other_event kind body) = false

abbrev pub chunk_type : Option Chunk → String
chunk_type none = ""
chunk_type (some c) = or_default c.type ""

abbrev pub chunk_text : Option Chunk → String
chunk_text none = ""
chunk_text (some c) = or_default c.text ""

-- The turns: each ends with its `turn_end`, but for the last, which may still run.
abbrev pub last_segment : List HistoryEvent → List (List HistoryEvent)
last_segment [] = []
last_segment (e ∷ current) = (e ∷ current) ∷ []

unfoldable pub segments_from : List HistoryEvent → List HistoryEvent → List (List HistoryEvent)
segments_from current [] = last_segment current
segments_from current (e ∷ events) = elim (is_turn_end e) [
  | true ↦ (current ++ e ∷ []) ∷ segments_from [] events
  | false ↦ segments_from (current ++ e ∷ []) events
]

abbrev pub segments : List HistoryEvent → List (List HistoryEvent)
segments events = segments_from [] events

-- A chunk of a type.
abbrev pub has_type : String → HistoryEvent → Bool
has_type t (chunk seq c) = chunk_type c is t
has_type t (message body) = false
has_type t (turn_end body) = false
has_type t (other_event kind body) = false

-- `{ ...event, chunk: { type, text } }`.
abbrev pub copy : ℕ → String → String → HistoryEvent
copy seq type text = chunk seq (some (record { type = some type; text = some text; others = "" }))

-- `chunk.text += text` on the chunk of a type that was put out.
abbrev pub append_text : String → String → List HistoryEvent → List HistoryEvent
append_text type text [] = []
append_text type text (chunk seq c ∷ out) =
    if chunk_type c is type
    then copy seq type (join (chunk_text c) text) ∷ out
    else chunk seq c ∷ append_text type text out
append_text type text (message body ∷ out) = message body ∷ append_text type text out
append_text type text (turn_end body ∷ out) = turn_end body ∷ append_text type text out
append_text type text (other_event kind body ∷ out) =
    other_event kind body ∷ append_text type text out

abbrev pub merge : ℕ → String → String → List HistoryEvent → List HistoryEvent
merge seq type text out =
    if any (has_type type) out then append_text type text out else out ++ copy seq type text ∷ []

abbrev pub compact_event : Bool → List HistoryEvent → HistoryEvent → List HistoryEvent
compact_event has_message out (chunk seq c) =
    if chunk_type c is "text-delta" && has_message
    then out
    else merge seq (chunk_type c) (chunk_text c) out
compact_event has_message out (message body) = out ++ message body ∷ []
compact_event has_message out (turn_end body) = out ++ turn_end body ∷ []
compact_event has_message out (other_event kind body) = out ++ other_event kind body ∷ []

unfoldable pub compact_events : Bool → List HistoryEvent → List HistoryEvent → List HistoryEvent
compact_events has_message out [] = out
compact_events has_message out (e ∷ events) =
    compact_events has_message (compact_event has_message out e) events

unfoldable pub compact_segment : List HistoryEvent → List HistoryEvent
unfolding compact_events
compact_segment segment = compact_events (any is_message segment) [] segment

-- `flatMap`.
abbrev pub flat_map :
    (List HistoryEvent → List HistoryEvent) → List (List HistoryEvent) → List HistoryEvent
flat_map f [] = []
flat_map f (xs ∷ xss) = f xs ++ flat_map f xss

unfoldable pub compact_history : List HistoryEvent → List HistoryEvent
unfolding compact_segment segments_from
compact_history events = flat_map compact_segment (segments events)
