-- ===== src/Upstream/Mux/Runs.antt =====
-- src/upstream/mux.ts: the connections through any series of events.
use hellodac.Prelude.{◌≡◌, arith, true, List, [], ◌∷◌, dict_get, Bool-cases, inl, inr}
use hellodac.Upstream.Mux.State.{Mux, new_mux}
use hellodac.Upstream.Mux.Steps.{
  Event, opens, closes, receives, fires, subscribes, unsubscribes, closes_all, step, run, effect,
  can_happen,
}
use hellodac.Upstream.Mux.Attached.{
  Attached, on_open-Attached, on_close-Attached, timer_fires-Attached, on_message-Attached,
}
use hellodac.Upstream.Mux.Listening.{unsubscribe-Attached, close_all-Attached, subscribe-Attached}

pub step-Attached : (event : Event) (m : Mux) → Attached m → Attached (step event m)
step-Attached event m a = elim (Bool-cases (can_happen event m)) [
  | inl e ↦ rw e (happen event m e a)
  | inr e ↦ rw e a
]
  where
    happen :
        (event : Event) (m : Mux)
        → can_happen event m ≡ true
        → Attached m
        → Attached (effect event m)
    happen (opens s) m e a = on_open-Attached s m (ground (arith, e)) a
    happen (closes s) m e a = on_close-Attached s m (ground (arith, e)) (ground (arith, e)) a
    happen (receives s message) m e a = on_message-Attached s message m a
    happen (fires c) m e a = timer_fires-Attached c m (ground (arith, e)) (ground (arith, e)) a
    happen (subscribes base session l) m e a = subscribe-Attached base session l m a
    happen (unsubscribes sub) m e a = unsubscribe-Attached sub m a
    happen closes_all m e a = close_all-Attached m a

-- From a state in which it holds, as at the start, the following holds after any series of opens,
-- messages, closes, timers, subscriptions, unsubscriptions (repeated ones too) and shutdowns: an open
-- connection has listeners and either a live socket or an armed reconnect; it has at most one live
-- socket, the one that it holds, and never both a live socket and a reconnect.
pub run-Attached : (events : List Event) (m : Mux) → Attached m → Attached (run events m)
unfolding run
run-Attached [] m a = a
run-Attached (event ∷ events) m a = run-Attached events (step event m) (step-Attached event m a)

pub new_mux-Attached : Attached new_mux
unfolding dict_get
new_mux-Attached = record {
  allocated = λ s l. omega (arith, l);
  mapped = λ b c g. cc;
  stored = λ c k set l g. omega (arith, l);
  current = λ s l e o. ground (arith, l);
  served = λ c l o. ground (arith, l);
}
