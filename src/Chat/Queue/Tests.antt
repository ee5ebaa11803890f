-- ===== src/Chat/Queue/Tests.antt =====
-- Two chats with a few turns.
use hellodac.Prelude.{◌≡◌, refl, String, [], ◌∷◌, dict_get, dict_set, dict_delete}
use hellodac.Chat.Queue.{
  QueuedTurn, Queues, empty_queues, queued, queued_turns_for, enqueue_turn, drain_chat_queue,
  turn_ends, cancel_queued_turn,
}
use hellodac.Chat.Queue.Serial.{IsSerial, Reach-IsSerial, opened, next, enqueued, drained, ended}
use hellodac.Chat.Queue.Order.{RunsInOrder, drain_chat_queue_order}

abbrev turn : String → String → QueuedTurn
turn chat id = record { id = id; chat_id = chat }

two : Queues
unfolding enqueue_turn dict_get dict_set
two = (enqueue_turn "a" (turn "a" "2") (enqueue_turn "a" (turn "a" "1") empty_queues).0).0

busy : Queues
unfolding two drain_chat_queue dict_get dict_set
busy = drain_chat_queue "a" two

positions : (enqueue_turn "a" (turn "a" "3") two).1 ≡ 3
unfolding two enqueue_turn dict_get
positions = refl

waits : busy.running ≡ ("a", turn "a" "1") ∷ []
unfolding busy
waits = refl

cancelled : queued_turns_for "a" (cancel_queued_turn "a" "2" busy) ≡ 0
unfolding busy cancel_queued_turn dict_get dict_delete
cancelled = refl

Reach-IsSerial_example :
    IsSerial
      (turn_ends "a" "1" (drain_chat_queue "a" (enqueue_turn "a" (turn "a" "1") empty_queues).0))
unfolding drain_chat_queue enqueue_turn dict_get dict_set
Reach-IsSerial_example =
    Reach-IsSerial
      (next (next (next opened (enqueued "a" (turn "a" "1"))) (drained "a")) (ended "a" "1" refl))

drain_chat_queue_order_example : RunsInOrder "a" (queued "a" two) (drain_chat_queue "a" two)
unfolding two
drain_chat_queue_order_example = drain_chat_queue_order "a" two refl
