-- ===== src/Upstream/Mux/Steps.antt =====
-- src/upstream/mux.ts: what can happen to the connections, in any order.
use hellodac.Prelude.{ℕ, Bool, true, not, ◌&&◌, List, [], ◌∷◌, String, ltb, if◌then◌else◌}
use hellodac.Upstream.Mux.State.{Mux}
use hellodac.Upstream.Mux.Wire.{WireMessage, on_message}
use hellodac.Upstream.Mux.Sockets.{on_open, on_close, timer_fires}
use hellodac.Upstream.Mux.Subscriptions.{Subscription, subscribe, unsubscribe, close_all_mux}

pub data Event : Type 0 where
  opens closes : (socket : ℕ) → Event
  receives : (socket : ℕ) → WireMessage → Event
  fires : (conn : ℕ) → Event
  subscribes : (base session_id : String) (listener : ℕ) → Event
  unsubscribes : Subscription → Event
  closes_all : Event

-- A socket that reports nothing more is gone, and a timer fires only while it is armed.
abbrev pub can_happen : Event → Mux → Bool
can_happen (opens s) m = ltb s m.next_socket && not (m.sockets s).ended
can_happen (closes s) m = ltb s m.next_socket && not (m.sockets s).ended
can_happen (receives s message) m = ltb s m.next_socket && not (m.sockets s).ended
can_happen (fires c) m = ltb c m.next_conn && (m.conns c).reconnect_timer
can_happen (subscribes base session l) m = true
can_happen (unsubscribes sub) m = true
can_happen closes_all m = true

abbrev pub effect : Event → Mux → Mux
effect (opens s) m = (on_open s m).0
effect (closes s) m = on_close s m
effect (receives s message) m = (on_message s message m).0
effect (fires c) m = timer_fires c m
effect (subscribes base session l) m = (subscribe base session l m).0
effect (unsubscribes sub) m = unsubscribe sub m
effect closes_all m = close_all_mux m

-- An event that cannot happen is left out.
abbrev pub step : Event → Mux → Mux
step event m = if can_happen event m then effect event m else m

unfoldable pub run : List Event → Mux → Mux
run [] m = m
run (event ∷ events) m = run events (step event m)
