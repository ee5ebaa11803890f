-- ===== src/Chat/Queue/Serial.antt =====
-- src/chat/queue.ts: how many turns of a chat run at a time.
use hellodac.Prelude.{
  ℕ, ◌+◌, ◌≡◌, ◌<◌, refl, arith, String, Bool, true, false, List, [], ◌∷◌, ◌is◌, eq_iff, eq_refl,
  includes, if◌then◌else◌, count_if, any, Bool-cases, inl, inr, ◌&&◌, Option-cases, dict_get,
  dict_set,
}
use hellodac.Chat.Queue.{
  QueuedTurn, Queues, empty_queues, queued, enqueue_turn, drain_next, drain_chat_queue, without,
  end_one, turn_ends, cancel_queued_turn, cancel_queued_turns, close_queues,
}

-- How many turns of a chat run.
abbrev pub running_of : String → List (String × QueuedTurn) → ℕ
running_of chat es = count_if (λ e. e.0 is chat) es

-- Whether that turn of the chat runs.
abbrev pub running_turn : String → String → List (String × QueuedTurn) → Bool
running_turn chat turn es = any (λ e. e.0 is chat && e.1.id is turn) es

abbrev pub IsSerial : Queues → Type 0
IsSerial s =
    (chat : String) → running_of chat s.running ≡ (if includes s.draining chat then 1 else 0)

-- The calls of the module, and the ends of turns that run.
pub data Step : Queues → Queues → Type 0 where
  enqueued : {s : Queues} (chat : String) (turn : QueuedTurn) → Step s (enqueue_turn chat turn s).0
  drained : {s : Queues} (chat : String) → Step s (drain_chat_queue chat s)
  ended :
      {s : Queues} (chat turn : String)
      → running_turn chat turn s.running ≡ true
      → Step s (turn_ends chat turn s)
  cancelled : {s : Queues} (chat turn : String) → Step s (cancel_queued_turn chat turn s)
  cancelled_all : {s : Queues} (chat : String) → Step s (cancel_queued_turns chat s)

pub data Reach : Queues → Type 0 where
  opened : Reach empty_queues
  next : {s t : Queues} → Reach s → Step s t → Reach t

drain_next-IsSerial :
    (chat : String) (q : List QueuedTurn) (s : Queues)
    → includes s.draining chat ≡ false
    → IsSerial s
    → IsSerial (drain_next chat q s)
drain_next-IsSerial chat [] s e v other = v other
drain_next-IsSerial chat (turn ∷ rest) s e v other = ground (arith, e, v other, eq_iff chat other)

drain-IsSerial : (chat : String) (s : Queues) → IsSerial s → IsSerial (drain_chat_queue chat s)
unfolding drain_chat_queue
drain-IsSerial chat s v other = elim (Bool-cases (includes s.draining chat)) [
  | inl e ↦ ground (arith, e, v other)
  | inr e ↦ ground (arith, e, drain_next-IsSerial chat (queued chat s) s e v other)
]

running-end_one :
    (chat turn : String) (es : List (String × QueuedTurn)) (other : String)
    → running_turn chat turn es ≡ true
    → running_of other es
      ≡ running_of other (end_one chat turn es) + (if chat is other then 1 else 0)
running-end_one chat turn [] other r = ground arith
running-end_one chat turn (e ∷ es) other r = ground (
  arith,
  running-end_one chat turn es other,
  eq_iff e.0 chat,
  eq_iff e.0 other,
  eq_iff chat other,
)

pub includes-without :
    (xs : List String) (x y : String)
    → includes (without xs x) y ≡ (if x is y then false else includes xs y)
includes-without [] x y = ground arith
includes-without (z ∷ zs) x y =
    ground (arith, includes-without zs x y, eq_iff z x, eq_iff z y, eq_iff x y)

running_pos :
    (chat turn : String) (es : List (String × QueuedTurn))
    → running_turn chat turn es ≡ true
    → 0 < running_of chat es
running_pos chat turn [] r = ground arith
running_pos chat turn (e ∷ es) r = ground (arith, running_pos chat turn es)

turn_ends-IsSerial :
    (chat turn : String) (s : Queues)
    → running_turn chat turn s.running ≡ true
    → IsSerial s
    → IsSerial (turn_ends chat turn s)
unfolding turn_ends
turn_ends-IsSerial chat turn s r v =
    drain-IsSerial chat
      (record s { draining = without s.draining chat; running = end_one chat turn s.running })
      (λ other. ground (
        arith,
        v other,
        v chat,
        running-end_one chat turn s.running other r,
        running_pos chat turn s.running r,
        includes-without s.draining chat other,
        eq_iff chat other,
      ))

Step-IsSerial : {s t : Queues} → Step s t → IsSerial s → IsSerial t
unfolding enqueue_turn cancel_queued_turn cancel_queued_turns
Step-IsSerial (enqueued chat turn) v = v
Step-IsSerial {s} (drained chat) v = drain-IsSerial chat s v
Step-IsSerial {s} (ended chat turn r) v = turn_ends-IsSerial chat turn s r v
Step-IsSerial {s} (cancelled chat turn) v = λ other. elim (Option-cases (dict_get s.queues chat)) [
  | inl e ↦ ground (arith, e, v other)
  | inr (q, e) ↦ ground (arith, e, v other)
]
Step-IsSerial (cancelled_all chat) v = v

-- In every state that the calls but `closeQueues` reach, a chat has one running turn if it is being
-- drained and none otherwise: the turns of one chat never overlap.
pub Reach-IsSerial : {s : Queues} → Reach s → IsSerial s
Reach-IsSerial opened = λ chat. refl
Reach-IsSerial (next r step) = Step-IsSerial step (Reach-IsSerial r)

-- When `closeQueues` is called while a turn of a chat runs, a turn that is then queued for the chat
-- and drained starts beside it.
close_queues_overlaps :
    (s : Queues) (chat : String) (turn : QueuedTurn)
    → 0 < running_of chat s.running
    → 1
      < running_of chat (drain_chat_queue chat (enqueue_turn chat turn (close_queues s)).0).running
unfolding drain_chat_queue enqueue_turn close_queues dict_get dict_set
close_queues_overlaps s chat turn p = ground (arith, eq_refl chat)
