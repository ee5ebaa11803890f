-- ===== src/Upstream/Mux/State.antt =====
-- src/upstream/mux.ts: the connections with the stores of their objects, and `emit`.
use hellodac.Prelude.{
  ℕ, Bool, true, false, Option, none, some, List, [], map, String, ◌==◌, if◌then◌else◌, Dict,
  dict_get,
}
use hellodac.Upstream.Frames.{GatewayFrame}

pub record MuxConnection : Type 0 where
  pub base : String
  pub ws : Option ℕ
  pub listeners : Dict ℕ
  pub closed : Bool
  pub reconnect_timer : Bool
  pub approval_rpc_ids : Dict String
  pub was_connected : Bool
  pub reconnect_attempt : ℕ

-- A socket with the variable `opened` of its handlers; `ended` once its close was reported.
pub record Socket : Type 0 where
  pub conn : ℕ
  pub opened : Bool
  pub ended : Bool

-- The module's variables and the stores of the objects; an object is there below the next number.
pub record Mux : Type 0 where
  pub connections : Dict ℕ
  pub conns : ℕ → MuxConnection
  pub next_conn : ℕ
  pub sets : ℕ → List ℕ
  pub next_set : ℕ
  pub sockets : ℕ → Socket
  pub next_socket : ℕ
  pub reconnect_count : ℕ

-- A store with one object changed.
abbrev pub put : {A : Type 0} → (ℕ → A) → ℕ → A → ℕ → A
put store k v n = if n == k then v else store n

abbrev pub new_connection : String → MuxConnection
new_connection base = record {
  base = base;
  ws = none;
  listeners = [];
  closed = false;
  reconnect_timer = false;
  approval_rpc_ids = [];
  was_connected = false;
  reconnect_attempt = 0;
}

abbrev pub new_mux : Mux
new_mux = record {
  connections = [];
  conns = λ n. new_connection "";
  next_conn = 0;
  sets = λ n. [];
  next_set = 0;
  sockets = λ n. record { conn = 0; opened = false; ended = true };
  next_socket = 0;
  reconnect_count = 0;
}

abbrev pub write_conn : ℕ → MuxConnection → Mux → Mux
write_conn c v m = record m { conns = put m.conns c v }

-- A frame handed to a listener.
pub record Delivery : Type 0 where
  pub listener : ℕ
  pub session_id : String
  pub frame : GatewayFrame

abbrev pub emit_set : List ℕ → String → GatewayFrame → List Delivery
emit_set ls session frame =
    map (λ (l : ℕ). record { listener = l; session_id = session; frame = frame }) ls

unfoldable pub emit : ℕ → String → GatewayFrame → Mux → List Delivery
emit c session frame m = elim (dict_get (m.conns c).listeners session) [
  | none ↦ []
  | some set ↦ emit_set (m.sets set) session frame
]
