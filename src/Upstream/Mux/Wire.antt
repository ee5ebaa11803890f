-- ===== src/Upstream/Mux/Wire.antt =====
-- src/upstream/mux.ts: the messages of a socket.
use hellodac.Prelude.{
  ℕ, Option, none, some, List, [], String, dict_get, dict_set, dict_delete, Dict, Option-cases, inl,
  inr,
}
use hellodac.Upstream.Frames.{
  MuxFrame, session_event, session_projection, question_requested, question_resolved,
  approval_requested, approval_resolved, GatewayFrame, event_frame, question_asked_frame,
  question_resolved_frame, approval_pending_frame, approval_resolved_frame, goal_projection_frame,
}
use hellodac.Upstream.Mux.State.{Mux, write_conn, Delivery, emit}

-- A message of a socket as the parser leaves it: no envelope, a failure of the host, or a request,
-- whose frame may have the wrong shape.
pub data WireMessage : Type 0 where
  no_envelope stream_error : WireMessage
  server_request : (rpc_id : String) (payload : Option MuxFrame) → WireMessage

abbrev pub emit_option : ℕ → String → Option GatewayFrame → Mux → List Delivery
emit_option c session none m = []
emit_option c session (some frame) m = emit c session frame m

abbrev pub forget_approval : ℕ → String → Option String → Mux → Mux
forget_approval c approval none m = m
forget_approval c approval (some decision) m =
    write_conn c
      (record (m.conns c) { approval_rpc_ids = dict_delete (m.conns c).approval_rpc_ids approval })
      m

unfoldable pub dispatch : ℕ → String → MuxFrame → Mux → Mux × List Delivery
dispatch c rpc (session_event session event) m = elim event [
  | none ↦ (m, [])
  | some e ↦ (m, emit c session (event_frame e) m)
]
dispatch c rpc (question_requested session questions) m =
    (m, emit c session (question_asked_frame rpc questions) m)
dispatch c rpc (question_resolved session question outcome) m =
    (m, emit c session (question_resolved_frame question outcome) m)
dispatch c rpc (approval_requested session approval tool reason) m =
    let after =
      write_conn c
        (record (m.conns c) {
          approval_rpc_ids = dict_set (m.conns c).approval_rpc_ids approval rpc;
        })
        m in
    (after, emit c session (approval_pending_frame rpc approval tool reason) after)
dispatch c rpc (approval_resolved session approval outcome) m =
    let decision = dict_get (m.conns c).approval_rpc_ids approval in
    let after = forget_approval c approval decision m in
    (after, emit c session (approval_resolved_frame decision approval outcome) after)
dispatch c rpc (session_projection session key seq goal) m =
    (m, emit_option c session (goal_projection_frame key seq goal) m)

-- The host closes after a `stream/error`, so the socket is closed by `on_close` later.
unfoldable pub on_message : ℕ → WireMessage → Mux → Mux × List Delivery
on_message s no_envelope m = (m, [])
on_message s stream_error m = (m, [])
on_message s (server_request rpc none) m = (m, [])
on_message s (server_request rpc (some frame)) m = dispatch (m.sockets s).conn rpc frame m

module _ (P : Mux → Type 0)
    (keeps : (c : ℕ) (ids : Dict String) (m : Mux)
      → P m
      → P (write_conn c (record (m.conns c) { approval_rpc_ids = ids }) m)) where
  dispatch_keeps :
      (c : ℕ) (rpc : String) (frame : MuxFrame) (m : Mux) → P m → P (dispatch c rpc frame m).0
  unfolding dispatch
  dispatch_keeps c rpc (session_event session none) m a = a
  dispatch_keeps c rpc (session_event session (some e)) m a = a
  dispatch_keeps c rpc (session_projection session key seq goal) m a = a
  dispatch_keeps c rpc (question_requested session questions) m a = a
  dispatch_keeps c rpc (question_resolved session question outcome) m a = a
  dispatch_keeps c rpc (approval_requested session approval tool reason) m a =
      keeps c (dict_set (m.conns c).approval_rpc_ids approval rpc) m a
  dispatch_keeps c rpc (approval_resolved session approval outcome) m a =
      elim (Option-cases (dict_get (m.conns c).approval_rpc_ids approval)) [
        | inl e ↦ rw e a
        | inr (d, e) ↦ rw e (keeps c (dict_delete (m.conns c).approval_rpc_ids approval) m a)
      ]

  -- A message changes a connection only in its map of approvals.
  pub on_message_keeps :
      (s : ℕ) (message : WireMessage) (m : Mux) → P m → P (on_message s message m).0
  unfolding on_message
  on_message_keeps s no_envelope m a = a
  on_message_keeps s stream_error m a = a
  on_message_keeps s (server_request rpc none) m a = a
  on_message_keeps s (server_request rpc (some frame)) m a =
      dispatch_keeps (m.sockets s).conn rpc frame m a
