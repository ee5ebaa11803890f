-- ===== src/Upstream/Tests.antt =====
-- A host with two sessions, whose stream breaks once.
use hellodac.Prelude.{
  ◌≡◌, refl, arith, true, false, ◌||◌, none, some, List, [], ◌∷◌, String, dict_get, dict_set,
  dict_delete, In,
}
use hellodac.Upstream.Frames.{
  MuxFrame, session_event, question_requested, approval_requested, approval_resolved, event_frame,
  approval_pending_frame, approval_resolved_frame,
}
use hellodac.Upstream.Mux.State.{new_mux, emit}
use hellodac.Upstream.Mux.Wire.{server_request, on_message, dispatch}
use hellodac.Upstream.Mux.Sockets.{attach, on_open, on_close, timer_fires}
use hellodac.Upstream.Mux.Subscriptions.{connect, subscribe, Subscription, unsubscribe}
use hellodac.Upstream.Mux.Attached.{Attached, is_live}
use hellodac.Upstream.Mux.Runs.{run-Attached, new_mux-Attached}
use hellodac.Upstream.Mux.Delivery.{subscription_delivers, unsubscribe_again_detaches}
use hellodac.Upstream.Mux.Approvals.{dispatch_all, decision_of, approval_round_trip}
use hellodac.Upstream.Mux.Steps.{Event, opens, closes, fires, subscribes, unsubscribes, run}

abbrev old_subscription : Subscription
old_subscription = record {
  conn = 0;
  base = "http://h/api";
  set = 0;
  session_id = "s1";
  listener = 7;
}

abbrev broken_once : List Event
broken_once = opens 0 ∷ subscribes "http://h/api" "s2" 8 ∷ closes 0 ∷ fires 0 ∷ opens 1 ∷ []

run-Attached_example : Attached (run (subscribes "http://h/api" "s1" 7 ∷ broken_once) new_mux)
run-Attached_example =
    run-Attached (subscribes "http://h/api" "s1" 7 ∷ broken_once) new_mux new_mux-Attached

subscription_delivers_example :
    let r = subscribe "http://h/api" "s1" 7 new_mux in
    let n = run broken_once r.0 in
    ((n.conns r.1.conn).closed ≡ false)
    × (((n.conns r.1.conn).reconnect_timer || is_live (n.conns r.1.conn).ws r.1.conn n) ≡ true)
    × In
        (record {
          listener = r.1.listener;
          session_id = r.1.session_id;
          frame = event_frame "hello";
        })
        (on_message 1
          (server_request "rpc" (some (session_event r.1.session_id (some "hello"))))
          n).1
unfolding run subscribe connect attach on_open on_close timer_fires dict_get dict_set
subscription_delivers_example =
    subscription_delivers "http://h/api" "s1" 7 new_mux broken_once 1 "rpc" "hello" new_mux-Attached
      (refl, (refl, (refl, (refl, (refl, tt))))) refl

abbrev two_lives : List Event
two_lives =
    subscribes "http://h/api" "s1" 7
    ∷ unsubscribes old_subscription
    ∷ subscribes "http://h/api" "s2" 8
    ∷ []

unsubscribe_again_detaches_example :
    let after = unsubscribe old_subscription (run two_lives new_mux) in
    (dict_get after.connections "http://h/api" ≡ none)
    × (after.conns 1 ≡ (run two_lives new_mux).conns 1)
    × ((subscribe "http://h/api" "s3" 9 after).1.conn ≡ (run two_lives new_mux).next_conn)
unfolding run subscribe connect attach unsubscribe dict_get dict_set dict_delete
unsubscribe_again_detaches_example =
    unsubscribe_again_detaches old_subscription 1 "s3" 9 (run two_lives new_mux) refl refl
      (omega arith)

abbrev between : List (String × MuxFrame)
between =
    ("rpc2", approval_requested "s1" "a2" "write" none)
    ∷ ("rpc3", question_requested "s1" "[]")
    ∷ ("", approval_resolved "s1" "a2" "rejected")
    ∷ []

approval_round_trip_example :
    let asked = dispatch 0 "rpc1" (approval_requested "s1" "a1" "bash" none) new_mux in
    let waited = dispatch_all 0 between asked.0 in
    let decided = dispatch 0 "rpc4" (approval_resolved "s1" "a1" "allowed-once") waited in
    (asked.1 ≡ emit 0 "s1" (approval_pending_frame "rpc1" "a1" "bash" none) new_mux)
    × (decided.1 ≡ emit 0 "s1" (approval_resolved_frame (some "rpc1") "a1" "allowed-once") waited)
    × (decision_of 0 "a1" decided.0 ≡ none)
approval_round_trip_example =
    approval_round_trip 0 "rpc1" "rpc4" "s1" "s1" "a1" "bash" "allowed-once" none between new_mux
      (refl, (refl, (refl, tt)))
