-- ===== src/Upstream/Mux/Attached.antt =====
-- src/upstream/mux.ts: the connections, their sockets and their timers.
use hellodac.Prelude.{
  ℕ, ◌<◌, ◌≡◌, arith, Bool, true, false, not, ◌&&◌, ◌||◌, Option, none, some, String, ltb, ◌==◌,
  Dict, dict_get,
}
use hellodac.Upstream.Mux.State.{Mux, write_conn}
use hellodac.Upstream.Mux.Wire.{on_message_keeps, WireMessage, on_message}
use hellodac.Upstream.Mux.Sockets.{is_nil, attach, on_open, on_close, timer_fires}

-- The connection's own socket is there and has not reported its close.
abbrev pub is_live : Option ℕ → ℕ → Mux → Bool
is_live none c m = false
is_live (some s) c m = ltb s m.next_socket && not (m.sockets s).ended && (m.sockets s).conn == c

-- An open connection has listeners, and a socket or an armed timer; its only live socket is the one
-- that it holds, and then no timer is armed.
pub record Attached (m : Mux) : Type 0 where
  pub allocated : (s : ℕ) → s < m.next_socket → (m.sockets s).conn < m.next_conn
  pub mapped : (base : String) (c : ℕ) → dict_get m.connections base ≡ some c → c < m.next_conn
  pub stored :
      (c : ℕ) (session : String) (set : ℕ)
      → c < m.next_conn
      → dict_get (m.conns c).listeners session ≡ some set
      → set < m.next_set
  pub current :
      (s : ℕ)
      → s < m.next_socket
      → (m.sockets s).ended ≡ false
      → (m.conns (m.sockets s).conn).closed ≡ false
      → ((m.conns (m.sockets s).conn).ws ≡ some s)
        × ((m.conns (m.sockets s).conn).reconnect_timer ≡ false)
  pub served :
      (c : ℕ)
      → c < m.next_conn
      → (m.conns c).closed ≡ false
      → (is_nil (m.conns c).listeners ≡ false)
        × (((m.conns c).reconnect_timer || is_live (m.conns c).ws c m) ≡ true)

pub on_open-Attached : (s : ℕ) (m : Mux) → s < m.next_socket → Attached m → Attached (on_open s m).0
unfolding on_open
on_open-Attached s m l a = record {
  allocated = λ t lt. ground (arith, a.allocated t);
  mapped = a.mapped;
  stored = λ d k set lt g. ground (arith, a.stored d k set);
  current = λ t lt e o. ground (arith, a.current t);
  served = λ c lt o. ground (arith, a.served c);
}

pub on_close-Attached :
    (s : ℕ) (m : Mux)
    → s < m.next_socket
    → (m.sockets s).ended ≡ false
    → Attached m
    → Attached (on_close s m)
unfolding on_close
on_close-Attached s m l e a = record {
  allocated = λ t lt. ground (arith, a.allocated t);
  mapped = λ b c g. ground (arith, a.mapped b c, a.served (m.sockets s).conn, a.allocated s);
  stored = λ d k set lt g. ground (arith, a.stored d k set);
  current = λ t lt h o. ground (arith, a.current t, a.current s);
  served = λ c lt o. ground (arith, a.served c, a.current s);
}

pub timer_fires-Attached :
    (c : ℕ) (m : Mux)
    → c < m.next_conn
    → (m.conns c).reconnect_timer ≡ true
    → Attached m
    → Attached (timer_fires c m)
unfolding timer_fires attach
timer_fires-Attached c m l e a = record {
  allocated = λ t lt. ground (arith, a.allocated t);
  mapped = λ b d g. ground (arith, a.mapped b d);
  stored = λ d k set lt g. ground (arith, a.stored d k set);
  current = λ t lt h o. ground (arith, a.current t);
  served = λ d lt o. ground (arith, a.served d);
}

approvals-Attached :
    (c : ℕ) (ids : Dict String) (m : Mux)
    → Attached m
    → Attached (write_conn c (record (m.conns c) { approval_rpc_ids = ids }) m)
approvals-Attached c ids m a = record {
  allocated = λ t lt. ground (arith, a.allocated t);
  mapped = a.mapped;
  stored = λ d k set lt g. ground (arith, a.stored d k set);
  current = λ t lt h o. ground (arith, a.current t);
  served = λ d lt o. ground (arith, a.served d);
}

pub on_message-Attached :
    (s : ℕ) (message : WireMessage) (m : Mux) → Attached m → Attached (on_message s message m).0
on_message-Attached s message m a = on_message_keeps Attached approvals-Attached s message m a
