-- ===== src/Upstream/Mux/Delivery.antt =====
-- src/upstream/mux.ts: the frames that reach a subscriber, and a subscription that is ended twice.
use hellodac.Prelude.{
  ℕ, ◌<◌, ◌≡◌, ◌≢◌, ap, ◌∙◌, arith, true, false, ◌||◌, none, some, List, [], ◌∷◌, String, ◌==◌,
  dict_get, dict_set, dict_delete, dict_get-dict_set, dict_get-dict_delete, Bool-cases,
  Option-cases, inl, inr, All, In, eq_refl,
}
use hellodac.Upstream.Frames.{session_event, GatewayFrame, event_frame}
use hellodac.Upstream.Mux.State.{Mux, emit_set, emit}
use hellodac.Upstream.Mux.Wire.{server_request, on_message, dispatch}
use hellodac.Upstream.Mux.Sockets.{attach, open_connection}
use hellodac.Upstream.Mux.Subscriptions.{
  connect, reusable, subscribe, listen, Subscription, unsubscribe, drop_session, delete, add,
}
use hellodac.Upstream.Mux.Attached.{Attached, is_live}
use hellodac.Upstream.Mux.Listening.{subscribe-Attached}
use hellodac.Upstream.Mux.Runs.{run-Attached}
use hellodac.Upstream.Mux.Held.{Held, run-Held, spares, has, has_added}
use hellodac.Upstream.Mux.Steps.{Event, run}

has-of_added : (ls : List ℕ) (l : ℕ) → has (add ls l) l ≡ true
has-of_added ls l = ground (arith, has_added ls l)

module _ (base session : String) (l : ℕ) (m : Mux) (a : Attached m) where
  listen_holds :
      (c : ℕ)
      → c < m.next_conn
      → (m.conns c).closed ≡ false
      → let r = listen c base session l m in Held r.1 r.0
  listen_holds c lt o = elim (Option-cases (dict_get (m.conns c).listeners session)) [
    | inl e ↦
        rw (e, listen)
          (ground (
            arith,
            lt,
            o,
            dict_get-dict_set (m.conns c).listeners session session m.next_set,
            eq_refl session,
          ))
    | inr (set, e) ↦ rw (e, listen) (ground (arith, lt, o, e, has-of_added (m.sets set) l))
  ]

  listen_new_holds :
      let opened = open_connection base m in
      let r = listen opened.1 base session l opened.0 in Held r.1 r.0
  unfolding attach dict_get dict_set
  listen_new_holds = ground (arith, eq_refl session)

  subscribe_holds : let r = subscribe base session l m in Held r.1 r.0
  unfolding subscribe connect
  subscribe_holds = elim (Option-cases (reusable (dict_get m.connections base) m)) [
    | inl e ↦ rw (e, connect) listen_new_holds
    | inr (c, e) ↦
        rw (e, connect) (listen_holds c (ground (arith, e, a.mapped base c)) (ground (arith, e)))
  ]

emit_set-In :
    (ls : List ℕ) (l : ℕ) (session : String) (frame : GatewayFrame)
    → has ls l ≡ true
    → In (record { listener = l; session_id = session; frame = frame }) (emit_set ls session frame)
emit_set-In [] l session frame e = cc
emit_set-In (x ∷ ls) l session frame e = elim (Bool-cases (x == l)) [
  | inl p ↦ inl (
      ap (λ (k : ℕ). record { listener = k; session_id = session; frame = frame })
        (ground (arith, p)))
  | inr p ↦ inr (emit_set-In ls l session frame (ground (arith, e, p)))
]

Held-emit :
    (sub : Subscription) (m : Mux) (frame : GatewayFrame)
    → Held sub m
    → In
        (record { listener = sub.listener; session_id = sub.session_id; frame = frame })
        (emit sub.conn sub.session_id frame m)
unfolding emit
Held-emit sub m frame h =
    rw (h.listed, emit) (emit_set-In (m.sets sub.set) sub.listener sub.session_id frame h.included)

-- After a subscription, whatever happens but its own end and a shutdown (closes and reconnects, the
-- ends of other and of older subscriptions, also repeated ones): its connection is open and has a live
-- socket or an armed reconnect, and an event of its session on a socket of the connection reaches its
-- listener.
pub subscription_delivers :
    (base session : String) (l : ℕ) (m : Mux) (events : List Event) (s : ℕ) (rpc event : String)
    → Attached m
    → let r = subscribe base session l m in
      let n = run events r.0 in
      All (λ e. spares r.1 e ≡ true) events
      → (n.sockets s).conn ≡ r.1.conn
      → ((n.conns r.1.conn).closed ≡ false)
        × (((n.conns r.1.conn).reconnect_timer || is_live (n.conns r.1.conn).ws r.1.conn n) ≡ true)
        × In
            (record {
              listener = r.1.listener;
              session_id = r.1.session_id;
              frame = event_frame event;
            })
            (on_message s
              (server_request rpc (some (session_event r.1.session_id (some event))))
              n).1
unfolding on_message dispatch
subscription_delivers base session l m events s rpc event a spared e =
    let r = subscribe base session l m in
    let n = run events r.0 in
    let ra = subscribe-Attached base session l m a in
    let h = run-Held r.1 events r.0 spared ra (subscribe_holds base session l m a) in
    let na = run-Attached events r.0 ra in
    (
      h.still_open,
      (na.served r.1.conn h.known h.still_open).1,
      rw e (Held-emit r.1 n (event_frame event) h),
    )

subscribe_opens :
    (base session : String) (l : ℕ) (m : Mux)
    → dict_get m.connections base ≡ none
    → (subscribe base session l m).1.conn ≡ m.next_conn
unfolding subscribe connect attach dict_get
subscribe_opens base session l m e = rw (e, connect) ground arith

dropped_nil :
    (sub : Subscription) (m : Mux)
    → (m.conns sub.conn).listeners ≡ []
    → drop_session sub (delete (m.sets sub.set) sub.listener) (m.conns sub.conn).listeners ≡ []
unfolding dict_delete
dropped_nil sub m e = ground (arith, e)

-- The function that `subscribe` returned, called again after its connection was closed for want of
-- listeners: it takes the connection that was opened since for the same endpoint off the map, though
-- that one stays open; the next subscription opens one more connection.
pub unsubscribe_again_detaches :
    (sub : Subscription) (c : ℕ) (session : String) (l : ℕ) (m : Mux)
    → (m.conns sub.conn).listeners ≡ []
    → dict_get m.connections sub.base ≡ some c
    → c ≢ sub.conn
    → let after = unsubscribe sub m in
      (dict_get after.connections sub.base ≡ none)
      × (after.conns c ≡ m.conns c)
      × ((subscribe sub.base session l after).1.conn ≡ m.next_conn)
unfolding unsubscribe
unsubscribe_again_detaches sub c session l m e g ne =
    let dropped = dict_get-dict_delete m.connections sub.base sub.base in
    let gone : dict_get (unsubscribe sub m).connections sub.base ≡ none =
      ground (arith, e, dropped, eq_refl sub.base, dropped_nil sub m e) in
    (
      gone,
      ground (arith, e, ne),
      subscribe_opens sub.base session l (unsubscribe sub m) gone ∙ ground (arith, e),
    )
