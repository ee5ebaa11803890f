-- ===== src/Chat/Replay/Again.antt =====
-- src/chat/replay.ts: a second compaction.
use mathlib.Core.List.{append_assoc, append-nil}
use hellodac.Prelude.{
  ℕ, ◌≤◌, ◌≡◌, refl, sym, ap, ◌∙◌, arith, String, Bool, false, ◌&&◌, List, [], ◌∷◌, ◌++◌, map, ◌is◌,
  any, eq_refl, Bool-cases, inl, inr, All, All-append,
}
use hellodac.Chat.Replay.{
  HistoryEvent, chunk, message, turn_end, other_event, is_message, chunk_type, chunk_text, has_type,
  copy, append_text, merge, compact_event, compact_events, compact_segment, compact_history,
  segments, flat_map,
}
use hellodac.Chat.Replay.Chunks.{count_of, plain, count_of-append}
use hellodac.Chat.Replay.Texts.{plain-compact_events, count_of-compact_events}
use hellodac.Chat.Replay.Shape.{Events}
use hellodac.Chat.Replay.Turns.{compact_history_turns}

-- A chunk as the compaction writes it, and not of the text that a message repeats.
abbrev pub IsMerged : Bool → HistoryEvent → Type 0
IsMerged hm (chunk seq c) =
    (chunk seq c ≡ copy seq (chunk_type c) (chunk_text c))
    × ((chunk_type c is "text-delta" && hm) ≡ false)
IsMerged hm (message body) = Unit
IsMerged hm (turn_end body) = Unit
IsMerged hm (other_event kind body) = Unit

append_text-IsMerged :
    (hm : Bool) (u x : String) (out : Events)
    → (u is "text-delta" && hm) ≡ false
    → All (IsMerged hm) out
    → All (IsMerged hm) (append_text u x out)
append_text-IsMerged hm u x [] p m = m
append_text-IsMerged hm u x (chunk seq c ∷ out) p (e, m) = elim (Bool-cases (chunk_type c is u)) [
  | inl q ↦ rw q ((refl, p), m)
  | inr q ↦ rw q (e, append_text-IsMerged hm u x out p m)
]
append_text-IsMerged hm u x (message body ∷ out) p (e, m) = (e, append_text-IsMerged hm u x out p m)
append_text-IsMerged hm u x (turn_end body ∷ out) p (e, m) =
    (e, append_text-IsMerged hm u x out p m)
append_text-IsMerged hm u x (other_event kind body ∷ out) p (e, m) =
    (e, append_text-IsMerged hm u x out p m)

merge-IsMerged :
    (hm : Bool) (seq : ℕ) (u x : String) (out : Events)
    → (u is "text-delta" && hm) ≡ false
    → All (IsMerged hm) out
    → All (IsMerged hm) (merge seq u x out)
merge-IsMerged hm seq u x out p m = elim (Bool-cases (any (has_type u) out)) [
  | inl q ↦ rw q (append_text-IsMerged hm u x out p m)
  | inr q ↦ rw q (All-append (IsMerged hm) out (copy seq u x ∷ []) m ((refl, p), tt))
]

compact_event-IsMerged :
    (hm : Bool) (out : Events) (e : HistoryEvent)
    → All (IsMerged hm) out
    → All (IsMerged hm) (compact_event hm out e)
compact_event-IsMerged hm out (chunk seq c) m =
    elim (Bool-cases (chunk_type c is "text-delta" && hm)) [
      | inl q ↦ rw q m
      | inr q ↦ rw q (merge-IsMerged hm seq (chunk_type c) (chunk_text c) out q m)
    ]
compact_event-IsMerged hm out (message body) m =
    All-append (IsMerged hm) out (message body ∷ []) m (tt, tt)
compact_event-IsMerged hm out (turn_end body) m =
    All-append (IsMerged hm) out (turn_end body ∷ []) m (tt, tt)
compact_event-IsMerged hm out (other_event kind body) m =
    All-append (IsMerged hm) out (other_event kind body ∷ []) m (tt, tt)

compact_events-IsMerged :
    (hm : Bool) (out es : Events)
    → All (IsMerged hm) out
    → All (IsMerged hm) (compact_events hm out es)
unfolding compact_events
compact_events-IsMerged hm out [] m = m
compact_events-IsMerged hm out (e ∷ es) m =
    compact_events-IsMerged hm (compact_event hm out e) es (compact_event-IsMerged hm out e m)

count_of-any : (t : String) (es : Events) → count_of t es ≡ 0 → any (has_type t) es ≡ false
count_of-any t [] e = refl
count_of-any t (x ∷ es) e = ground (arith, e, count_of-any t es)

-- A merged event of a type that is not yet there is put out as it is.
compact_event-fixed :
    (hm : Bool) (out : Events) (e : HistoryEvent)
    → IsMerged hm e
    → ((t : String) → count_of t (out ++ e ∷ []) ≤ 1)
    → compact_event hm out e ≡ out ++ e ∷ []
compact_event-fixed hm out (chunk seq c) m l =
    let u = chunk_type c in
    let absent : any (has_type u) out ≡ false =
      count_of-any u out
        (ground (arith, l u, count_of-append u out (chunk seq c ∷ []), eq_refl u)) in
    ground (arith, absent, m)
compact_event-fixed hm out (message body) m l = refl
compact_event-fixed hm out (turn_end body) m l = refl
compact_event-fixed hm out (other_event kind body) m l = refl

compact_events-fixed :
    (hm : Bool) (out es : Events)
    → All (IsMerged hm) es
    → ((t : String) → count_of t (out ++ es) ≤ 1)
    → compact_events hm out es ≡ out ++ es
unfolding compact_events
compact_events-fixed hm out [] m l = sym (append-nil out)
compact_events-fixed hm out (e ∷ es) (me, m) l =
    let here : (t : String) → count_of t (out ++ e ∷ []) ≤ 1 =
      λ t. ground (arith, l t, count_of-append t out (e ∷ es), count_of-append t out (e ∷ [])) in
    let there : (t : String) → count_of t ((out ++ e ∷ []) ++ es) ≤ 1 =
      λ t. rw (append_assoc out (e ∷ []) es) (l t) in
    ap (λ (xs : Events). compact_events hm xs es) (compact_event-fixed hm out e me here)
    ∙ compact_events-fixed hm (out ++ e ∷ []) es m there
    ∙ append_assoc out (e ∷ []) es

-- A message stays, so a turn has one before if it has one after.
any-plain : (es : Events) → any is_message (plain es) ≡ any is_message es
any-plain [] = refl
any-plain (chunk seq c ∷ es) = any-plain es
any-plain (message body ∷ es) = refl
any-plain (turn_end body ∷ es) = any-plain es
any-plain (other_event kind body ∷ es) = any-plain es

compact_segment_again : (es : Events) → compact_segment (compact_segment es) ≡ compact_segment es
unfolding compact_segment
compact_segment_again es =
    let hm = any is_message es in
    let out = compact_events hm [] es in
    let same : any is_message out ≡ hm =
      sym (any-plain out)
      ∙ ap (λ (xs : Events). any is_message xs) (plain-compact_events hm [] es)
      ∙ any-plain es in
    rw same (
      compact_events-fixed hm [] out (compact_events-IsMerged hm [] es tt)
        (λ (t : String). count_of-compact_events hm t [] es (omega arith)))

flat_map_again :
    (xss : List Events)
    → flat_map compact_segment (map compact_segment xss) ≡ flat_map compact_segment xss
flat_map_again [] = refl
flat_map_again (xs ∷ xss) = rw (compact_segment_again xs, flat_map_again xss) refl

-- To compact a history a second time changes nothing.
compact_history_again : (es : Events) → compact_history (compact_history es) ≡ compact_history es
unfolding compact_history
compact_history_again es =
    ap (flat_map compact_segment) (compact_history_turns es) ∙ flat_map_again (segments es)
