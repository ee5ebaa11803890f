-- ===== src/Chat/Replay/Texts.antt =====
-- src/chat/replay.ts: what is left of one turn.
use Prim.Native.String.{◌++◌ as join}
use text.Mathlib.TextLemmas.{
  append_assoc as join_assoc, append-nil as join-nil, nil-append as nil-join,
}
use mathlib.Core.List.{append_assoc, append-nil}
use hellodac.Prelude.{
  ◌≤◌, ◌≡◌, sym, ap, ◌∙◌, arith, String, Bool, ◌&&◌, List, [], ◌∷◌, ◌++◌, if◌then◌else◌, ◌is◌, any,
  eq_iff, Bool-cases, inl, inr,
}
use hellodac.Chat.Replay.{
  HistoryEvent, chunk, message, turn_end, other_event, is_message, chunk_type, chunk_text,
  compact_event, compact_events, compact_segment,
}
use hellodac.Chat.Replay.Chunks.{
  text_of, count_of, plain, text_of-append, count_of-append, plain-append, text_of-merge,
  count_of-merge, plain-merge,
}

-- The text of a type that a turn keeps: a message makes the streamed text superfluous.
abbrev pub kept_text : Bool → String → List HistoryEvent → String
kept_text has_message t events = if t is "text-delta" && has_message then "" else text_of t events

text_of-compact_event :
    (hm : Bool) (t : String) (out : List HistoryEvent) (e : HistoryEvent)
    → ((u : String) → count_of u out ≤ 1)
    → text_of t (compact_event hm out e) ≡ join (text_of t out) (kept_text hm t (e ∷ []))
text_of-compact_event hm t out (chunk seq c) l = ground (
  arith,
  text_of-merge t (chunk_type c) (chunk_text c) seq out (l (chunk_type c)),
  eq_iff (chunk_type c) t,
  eq_iff (chunk_type c) "text-delta",
  eq_iff t "text-delta",
  join-nil (text_of t out),
  join-nil (chunk_text c),
)
text_of-compact_event hm t out (message body) l =
    ground (arith, text_of-append t out (message body ∷ []), join-nil (text_of t out))
text_of-compact_event hm t out (turn_end body) l =
    ground (arith, text_of-append t out (turn_end body ∷ []), join-nil (text_of t out))
text_of-compact_event hm t out (other_event kind body) l =
    ground (arith, text_of-append t out (other_event kind body ∷ []), join-nil (text_of t out))

pub count_of-compact_event :
    (hm : Bool) (t : String) (out : List HistoryEvent) (e : HistoryEvent)
    → count_of t out ≤ 1
    → count_of t (compact_event hm out e) ≤ 1
count_of-compact_event hm t out (chunk seq c) l =
    ground (arith, l, count_of-merge t (chunk_type c) (chunk_text c) seq out l)
count_of-compact_event hm t out (message body) l =
    ground (arith, l, count_of-append t out (message body ∷ []))
count_of-compact_event hm t out (turn_end body) l =
    ground (arith, l, count_of-append t out (turn_end body ∷ []))
count_of-compact_event hm t out (other_event kind body) l =
    ground (arith, l, count_of-append t out (other_event kind body ∷ []))

pub plain-compact_event :
    (hm : Bool) (out : List HistoryEvent) (e : HistoryEvent)
    → plain (compact_event hm out e) ≡ plain out ++ plain (e ∷ [])
plain-compact_event hm out (chunk seq c) =
    ground (arith, plain-merge (chunk_type c) (chunk_text c) seq out, append-nil (plain out))
plain-compact_event hm out (message body) = plain-append out (message body ∷ [])
plain-compact_event hm out (turn_end body) = plain-append out (turn_end body ∷ [])
plain-compact_event hm out (other_event kind body) = plain-append out (other_event kind body ∷ [])

kept_text-cons :
    (hm : Bool) (t : String) (e : HistoryEvent) (es : List HistoryEvent)
    → join (kept_text hm t (e ∷ [])) (kept_text hm t es) ≡ kept_text hm t (e ∷ es)
kept_text-cons hm t e es = elim (Bool-cases (t is "text-delta" && hm)) [
  | inl p ↦ rw p (nil-join "")
  | inr p ↦ rw p (sym (text_of-append t (e ∷ []) es))
]

text_of-compact_events :
    (hm : Bool) (t : String) (out es : List HistoryEvent)
    → ((u : String) → count_of u out ≤ 1)
    → text_of t (compact_events hm out es) ≡ join (text_of t out) (kept_text hm t es)
unfolding compact_events
text_of-compact_events hm t out [] l = ground (arith, join-nil (text_of t out))
text_of-compact_events hm t out (e ∷ es) l =
    text_of-compact_events hm t (compact_event hm out e) es
      (λ (u : String). count_of-compact_event hm u out e (l u))
    ∙ ap (λ (s : String). join s (kept_text hm t es)) (text_of-compact_event hm t out e l)
    ∙ join_assoc (text_of t out) (kept_text hm t (e ∷ [])) (kept_text hm t es)
    ∙ ap (λ (s : String). join (text_of t out) s) (kept_text-cons hm t e es)

pub count_of-compact_events :
    (hm : Bool) (t : String) (out es : List HistoryEvent)
    → count_of t out ≤ 1
    → count_of t (compact_events hm out es) ≤ 1
unfolding compact_events
count_of-compact_events hm t out [] l = l
count_of-compact_events hm t out (e ∷ es) l =
    count_of-compact_events hm t (compact_event hm out e) es (count_of-compact_event hm t out e l)

pub plain-compact_events :
    (hm : Bool) (out es : List HistoryEvent)
    → plain (compact_events hm out es) ≡ plain out ++ plain es
unfolding compact_events
plain-compact_events hm out [] = sym (append-nil (plain out))
plain-compact_events hm out (e ∷ es) =
    plain-compact_events hm (compact_event hm out e) es
    ∙ ap (λ (xs : List HistoryEvent). xs ++ plain es) (plain-compact_event hm out e)
    ∙ append_assoc (plain out) (plain (e ∷ [])) (plain es)
    ∙ ap (λ (xs : List HistoryEvent). plain out ++ xs) (sym (plain-append (e ∷ []) es))

-- A compacted turn: the events that are no chunks are all there, in their order; of each type there is
-- at most one chunk; and the chunks of a type make up the same text as before, but for the streamed
-- reply of a turn with a message, which is gone.
pub compact_segment_keeps :
    (t : String) (segment : List HistoryEvent)
    → (plain (compact_segment segment) ≡ plain segment)
      × (count_of t (compact_segment segment) ≤ 1)
      × (text_of t (compact_segment segment)
          ≡ (if t is "text-delta" && any is_message segment then "" else text_of t segment))
unfolding compact_segment
compact_segment_keeps t segment =
    let hm = any is_message segment in
    (
      plain-compact_events hm [] segment,
      count_of-compact_events hm t [] segment (omega arith),
      text_of-compact_events hm t [] segment (λ (u : String). omega arith)
          ∙ nil-join (kept_text hm t segment),
    )
