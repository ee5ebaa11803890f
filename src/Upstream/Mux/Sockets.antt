-- ===== src/Upstream/Mux/Sockets.antt =====
-- src/upstream/mux.ts, `attach`: the life of a socket and the reconnect. The constructor of a WebSocket
-- throws only for an address that is no URL, and here it returns a socket.
use hellodac.Prelude.{
  ℕ, suc, Bool, true, false, ◌||◌, some, List, [], ◌∷◌, ◌++◌, String, if◌then◌else◌, Dict, dict_set,
  dict_delete,
}
use hellodac.Upstream.Frames.{stream_reconnected_frame}
use hellodac.Upstream.Mux.State.{
  MuxConnection, Mux, put, new_connection, write_conn, Delivery, emit,
}

-- A new socket, which the connection holds from now on.
unfoldable pub attach : ℕ → Mux → Mux
attach c m = record m {
  sockets = put m.sockets m.next_socket (record { conn = c; opened = false; ended = false });
  next_socket = suc m.next_socket;
  conns = put m.conns c (record (m.conns c) { ws = some m.next_socket });
}

-- The sessions in the order of the map.
abbrev pub emit_all : ℕ → Dict ℕ → Mux → List Delivery
emit_all c [] m = []
emit_all c ((session, set) ∷ ls) m = emit c session stream_reconnected_frame m ++ emit_all c ls m

unfoldable pub on_open : ℕ → Mux → Mux × List Delivery
on_open s m =
    let c = (m.sockets s).conn in
    let after = record m {
      sockets = put m.sockets s (record (m.sockets s) { opened = true });
      conns = put m.conns c (record (m.conns c) { reconnect_attempt = 0 });
    } in
    (after, if (m.conns c).was_connected then emit_all c (m.conns c).listeners after else [])

abbrev pub is_nil : {A : Type 0} → List A → Bool
is_nil [] = true
is_nil (x ∷ xs) = false

-- A connection after its socket was lost: a timer is armed, unless one is.
abbrev pub arm_reconnect : MuxConnection → MuxConnection
arm_reconnect v =
    if v.reconnect_timer
    then v
    else record v { reconnect_timer = true; reconnect_attempt = suc v.reconnect_attempt }

-- The close of a socket of a connection that is not closed.
abbrev pub lost : ℕ → Bool → Mux → Mux
lost c opened m =
    let seen = record (m.conns c) { was_connected = opened || (m.conns c).was_connected } in
    if is_nil seen.listeners
    then record (write_conn c seen m) { connections = dict_delete m.connections seen.base }
    else record (write_conn c (arm_reconnect seen) m) { reconnect_count = suc m.reconnect_count }

unfoldable pub on_close : ℕ → Mux → Mux
on_close s m =
    let after = record m { sockets = put m.sockets s (record (m.sockets s) { ended = true }) } in
    let c = (m.sockets s).conn in
    if (m.conns c).closed then after else lost c (m.sockets s).opened after

unfoldable pub timer_fires : ℕ → Mux → Mux
unfolding attach
timer_fires c m =
    let after = write_conn c (record (m.conns c) { reconnect_timer = false }) m in
    if (m.conns c).closed then after else attach c after

-- A fresh connection of an endpoint, with its socket.
abbrev pub open_connection : String → Mux → Mux × ℕ
unfolding attach
open_connection base m =
    let c = m.next_conn in
    (
      attach c (record m {
        conns = put m.conns c (new_connection base);
        next_conn = suc c;
        connections = dict_set m.connections base c;
      }),
      c,
    )
