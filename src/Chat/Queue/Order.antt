-- ===== src/Chat/Queue/Order.antt =====
-- src/chat/queue.ts: the order in which the turns of a chat run.
use hellodac.Prelude.{
  ◌≡◌, refl, arith, String, false, some, List, [], ◌∷◌, eq_refl, includes, dict_get-dict_set,
  dict_get-dict_delete, head?,
}
use hellodac.Chat.Queue.{
  QueuedTurn, Queues, queued, begin_turn, drain_chat_queue, turn_ends, without, end_one,
}
use hellodac.Chat.Queue.Serial.{includes-without}

-- The turn that started last is the first one of the list, and after its end the rest follows; at
-- the end of the list the chat has nothing queued and is not being drained.
abbrev pub RunsInOrder : String → List QueuedTurn → Queues → Type 0
RunsInOrder chat [] s = (queued chat s ≡ []) × (includes s.draining chat ≡ false)
RunsInOrder chat (turn ∷ ts) s =
    (head? s.running ≡ some (chat, turn)) × RunsInOrder chat ts (turn_ends chat turn.id s)

drain-RunsInOrder :
    (chat : String) (q : List QueuedTurn) (s : Queues)
    → queued chat s ≡ q
    → includes s.draining chat ≡ false
    → RunsInOrder chat q (drain_chat_queue chat s)
unfolding turn_ends drain_chat_queue
drain-RunsInOrder chat [] s e free =
    rw (free, e) (ground (arith, dict_get-dict_delete s.queues chat chat, eq_refl chat), free)
drain-RunsInOrder chat (turn ∷ rest) s e free =
    let s1 = begin_turn chat turn rest s in
    let s2 = record s1 {
      draining = without s1.draining chat;
      running = end_one chat turn.id s1.running;
    } in
    rw (free, e)
      (
        refl,
        drain-RunsInOrder chat rest s2
            (ground (arith, dict_get-dict_set s.queues chat chat rest, eq_refl chat))
            (ground (arith, includes-without s1.draining chat chat, eq_refl chat)),
      )

-- When a chat with nothing running is drained and its queue is not touched meanwhile, its turns run
-- one by one in the order of the queue, and after the last one its queue is empty and the chat is
-- free for the next drain.
pub drain_chat_queue_order :
    (chat : String) (s : Queues)
    → includes s.draining chat ≡ false
    → RunsInOrder chat (queued chat s) (drain_chat_queue chat s)
drain_chat_queue_order chat s free = drain-RunsInOrder chat (queued chat s) s refl free
