-- ===== src/Chat/Queue.antt =====
-- src/chat/queue.ts: the queues of turns. The module's maps are a record; a turn that runs is kept in
-- a list from its `execute` to the end that the event `turn_ends` stands for.
pub mod Serial
pub mod Order
mod Tests
use hellodac.Prelude.{
  ℕ, suc, ◌+◌, String, Bool, true, false, not, ◌&&◌, Option, none, some, List, [], ◌∷◌, ◌++◌, ◌is◌,
  includes, if◌then◌else◌, length, keep_if, ◌==◌, Dict, dict_get, dict_set, dict_delete, or_default,
}

-- A turn; its `execute` is known by the id.
pub record QueuedTurn : Type 0 where
  pub id : String
  pub chat_id : String

pub record Queues : Type 0 where
  pub queues : Dict (List QueuedTurn)
  pub draining : List String
  pub running : List (String × QueuedTurn)

abbrev pub empty_queues : Queues
empty_queues = record { queues = []; draining = []; running = [] }

abbrev pub queued : String → Queues → List QueuedTurn
queued chat s = or_default (dict_get s.queues chat) []

abbrev pub queued_turns_for : String → Queues → ℕ
queued_turns_for chat s = length (queued chat s)

unfoldable pub enqueue_turn : String → QueuedTurn → Queues → Queues × ℕ
enqueue_turn chat turn s =
    let q = queued chat s ++ turn ∷ [] in (record s { queues = dict_set s.queues chat q }, length q)

-- `draining.add`, and the call of `execute`.
abbrev pub begin_turn : String → QueuedTurn → List QueuedTurn → Queues → Queues
begin_turn chat turn rest s = record s {
  queues = dict_set s.queues chat rest;
  draining = chat ∷ s.draining;
  running = (chat, turn) ∷ s.running;
}

abbrev pub drain_next : String → List QueuedTurn → Queues → Queues
drain_next chat [] s = record s { queues = dict_delete s.queues chat }
drain_next chat (turn ∷ rest) s = begin_turn chat turn rest s

unfoldable pub drain_chat_queue : String → Queues → Queues
drain_chat_queue chat s = if includes s.draining chat then s else drain_next chat (queued chat s) s

-- A set's `delete`.
abbrev pub without : List String → String → List String
without xs x = keep_if (λ y. not (y is x)) xs

-- One turn of a chat is no longer running.
abbrev pub end_one : String → String → List (String × QueuedTurn) → List (String × QueuedTurn)
end_one chat turn [] = []
end_one chat turn (e ∷ es) =
    let rest = end_one chat turn es in if e.0 is chat && e.1.id is turn then es else e ∷ rest

-- The `finally` of a turn's `execute`.
unfoldable pub turn_ends : String → String → Queues → Queues
unfolding drain_chat_queue
turn_ends chat turn s =
    drain_chat_queue chat
      (record s { draining = without s.draining chat; running = end_one chat turn s.running })

unfoldable pub cancel_queued_turn : String → String → Queues → Queues
cancel_queued_turn chat turn s = elim (dict_get s.queues chat) [
  | none ↦ s
  | some q ↦
      let kept = keep_if (λ t. not (t.id is turn)) q in
      if length kept == 0
      then record s { queues = dict_delete s.queues chat }
      else record s { queues = dict_set s.queues chat kept }
]

unfoldable pub cancel_queued_turns : String → Queues → Queues
cancel_queued_turns chat s = record s { queues = dict_delete s.queues chat }

-- The turns that run are not stopped.
unfoldable pub close_queues : Queues → Queues
close_queues s = record s { queues = []; draining = [] }
