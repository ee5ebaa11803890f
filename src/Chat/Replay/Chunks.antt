-- ===== src/Chat/Replay/Chunks.antt =====
-- src/chat/replay.ts: the merged chunks of a turn, one for each type.
use Prim.Native.String.{◌++◌ as join}
use text.Mathlib.TextLemmas.{
  append_assoc as join_assoc, append-nil as join-nil, nil-append as nil-join,
}
use hellodac.Prelude.{
  ℕ, ◌+◌, ◌≤◌, ◌≡◌, refl, sym, ap, arith, String, true, false, not, List, [], ◌∷◌, ◌++◌,
  if◌then◌else◌, ◌is◌, any, count_if, keep_if, eq_iff, Bool-cases, inl, inr,
}
use mathlib.Core.List.{append-nil}
use hellodac.Chat.Replay.{
  HistoryEvent, chunk, message, turn_end, other_event, is_chunk, chunk_type, chunk_text, has_type,
  copy, append_text, merge,
}

-- The text that the chunks of a type make up.
abbrev pub text_of : String → List HistoryEvent → String
text_of t [] = ""
text_of t (chunk seq c ∷ es) =
    if chunk_type c is t then join (chunk_text c) (text_of t es) else text_of t es
text_of t (message body ∷ es) = text_of t es
text_of t (turn_end body ∷ es) = text_of t es
text_of t (other_event kind body ∷ es) = text_of t es

abbrev pub count_of : String → List HistoryEvent → ℕ
count_of t es = count_if (has_type t) es

-- The events that are no chunks.
abbrev pub plain : List HistoryEvent → List HistoryEvent
plain es = keep_if (λ e. not (is_chunk e)) es

pub text_of-append :
    (t : String) (xs ys : List HistoryEvent)
    → text_of t (xs ++ ys) ≡ join (text_of t xs) (text_of t ys)
text_of-append t [] ys = sym (nil-join (text_of t ys))
text_of-append t (chunk seq c ∷ xs) ys =
    ground (arith, text_of-append t xs ys, join_assoc (chunk_text c) (text_of t xs) (text_of t ys))
text_of-append t (message body ∷ xs) ys = text_of-append t xs ys
text_of-append t (turn_end body ∷ xs) ys = text_of-append t xs ys
text_of-append t (other_event kind body ∷ xs) ys = text_of-append t xs ys

pub count_of-append :
    (t : String) (xs ys : List HistoryEvent) → count_of t (xs ++ ys) ≡ count_of t xs + count_of t ys
count_of-append t [] ys = omega arith
count_of-append t (x ∷ xs) ys = ground (arith, count_of-append t xs ys)

pub plain-append : (xs ys : List HistoryEvent) → plain (xs ++ ys) ≡ plain xs ++ plain ys
plain-append [] ys = refl
plain-append (x ∷ xs) ys = ground (arith, plain-append xs ys)

count_of-zero : (t : String) (es : List HistoryEvent) → count_of t es ≡ 0 → text_of t es ≡ ""
count_of-zero t [] e = refl
count_of-zero t (chunk seq c ∷ es) e = ground (arith, e, count_of-zero t es)
count_of-zero t (message body ∷ es) e = count_of-zero t es e
count_of-zero t (turn_end body ∷ es) e = count_of-zero t es e
count_of-zero t (other_event kind body ∷ es) e = count_of-zero t es e

any-count_of :
    (t : String) (es : List HistoryEvent) → any (has_type t) es ≡ false → count_of t es ≡ 0
any-count_of t [] e = refl
any-count_of t (x ∷ es) e = ground (arith, e, any-count_of t es)

pub count_of-append_text :
    (t u x : String) (out : List HistoryEvent) → count_of t (append_text u x out) ≡ count_of t out
count_of-append_text t u x [] = refl
count_of-append_text t u x (chunk seq c ∷ out) =
    ground (arith, count_of-append_text t u x out, eq_iff (chunk_type c) u)
count_of-append_text t u x (message body ∷ out) = count_of-append_text t u x out
count_of-append_text t u x (turn_end body ∷ out) = count_of-append_text t u x out
count_of-append_text t u x (other_event kind body ∷ out) = count_of-append_text t u x out

pub plain-append_text :
    (u x : String) (out : List HistoryEvent) → plain (append_text u x out) ≡ plain out
plain-append_text u x [] = refl
plain-append_text u x (chunk seq c ∷ out) = ground (arith, plain-append_text u x out)
plain-append_text u x (message body ∷ out) =
    ap (λ (es : List HistoryEvent). message body ∷ es) (plain-append_text u x out)
plain-append_text u x (turn_end body ∷ out) =
    ap (λ (es : List HistoryEvent). turn_end body ∷ es) (plain-append_text u x out)
plain-append_text u x (other_event kind body ∷ out) =
    ap (λ (es : List HistoryEvent). other_event kind body ∷ es) (plain-append_text u x out)

text_of-append_text :
    (t u x : String) (out : List HistoryEvent)
    → count_of u out ≤ 1
    → any (has_type u) out ≡ true
    → text_of t (append_text u x out) ≡ (if u is t then join (text_of t out) x else text_of t out)
text_of-append_text t u x [] l e = cc
text_of-append_text t u x (chunk seq c ∷ out) l e = ground (
  arith,
  l,
  e,
  text_of-append_text t u x out,
  count_of-zero u out,
  eq_iff (chunk_type c) u,
  eq_iff u t,
  eq_iff (chunk_type c) t,
  join_assoc (chunk_text c) (text_of t out) x,
  join-nil (chunk_text c),
  join-nil (join (chunk_text c) x),
)
text_of-append_text t u x (message body ∷ out) l e = text_of-append_text t u x out l e
text_of-append_text t u x (turn_end body ∷ out) l e = text_of-append_text t u x out l e
text_of-append_text t u x (other_event kind body ∷ out) l e = text_of-append_text t u x out l e

-- A merge adds its text to that of its type, and never makes a second chunk of a type.
pub text_of-merge :
    (t u x : String) (seq : ℕ) (out : List HistoryEvent)
    → count_of u out ≤ 1
    → text_of t (merge seq u x out) ≡ (if u is t then join (text_of t out) x else text_of t out)
text_of-merge t u x seq out l = elim (Bool-cases (any (has_type u) out)) [
  | inl e ↦ ground (arith, e, text_of-append_text t u x out l e)
  | inr e ↦ ground (
    arith,
    e,
    text_of-append t out (copy seq u x ∷ []),
    eq_iff u t,
    join-nil x,
    join-nil (text_of t out),
  )
]

pub count_of-merge :
    (t u x : String) (seq : ℕ) (out : List HistoryEvent)
    → count_of t out ≤ 1
    → count_of t (merge seq u x out) ≤ 1
count_of-merge t u x seq out l = ground (
  arith,
  l,
  count_of-append_text t u x out,
  count_of-append t out (copy seq u x ∷ []),
  eq_iff u t,
  any-count_of u out,
)

pub plain-merge :
    (u x : String) (seq : ℕ) (out : List HistoryEvent) → plain (merge seq u x out) ≡ plain out
plain-merge u x seq out =
    ground (
      arith,
      plain-append_text u x out,
      plain-append out (copy seq u x ∷ []),
      append-nil (plain out),
    )
