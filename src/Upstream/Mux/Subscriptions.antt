-- ===== src/Upstream/Mux/Subscriptions.antt =====
-- src/upstream/mux.ts: `connect`, `subscribe`, the function that it returns, and `closeAllMux`.
use hellodac.Prelude.{
  ℕ, suc, Bool, true, false, not, ◌&&◌, Option, none, some, List, [], ◌∷◌, ◌++◌, String, ◌==◌,
  if◌then◌else◌, any, keep_if, Dict, dict_get, dict_set, dict_delete,
}
use hellodac.Upstream.Mux.State.{MuxConnection, Mux, put}
use hellodac.Upstream.Mux.Sockets.{is_nil, open_connection, attach}

-- An open connection of the map.
abbrev pub reusable : Option ℕ → Mux → Option ℕ
reusable none m = none
reusable (some c) m = if (m.conns c).closed then none else some c

unfoldable pub connect : String → Mux → Mux × ℕ
unfolding attach
connect base m = elim (reusable (dict_get m.connections base) m) [
  | none ↦ open_connection base m
  | some c ↦ (m, c)
]

-- What the function that `subscribe` returns holds on to.
pub record Subscription : Type 0 where
  pub conn : ℕ
  pub base : String
  pub set : ℕ
  pub session_id : String
  pub listener : ℕ

-- `Set.add` and `Set.delete`.
abbrev pub add : List ℕ → ℕ → List ℕ
add ls l = if any (λ x. x == l) ls then ls else ls ++ l ∷ []

abbrev pub delete : List ℕ → ℕ → List ℕ
delete ls l = keep_if (λ x. not (x == l)) ls

abbrev pub subscription : ℕ → String → ℕ → String → ℕ → Subscription
subscription c base set session l = record {
  conn = c;
  base = base;
  set = set;
  session_id = session;
  listener = l;
}

-- The listener in its session's set, which is made if there is none.
abbrev pub listen : ℕ → String → String → ℕ → Mux → Mux × Subscription
listen c base session l m = elim (dict_get (m.conns c).listeners session) [
  | some set ↦
      (record m { sets = put m.sets set (add (m.sets set) l) }, subscription c base set session l)
  | none ↦ (
    record m {
      sets = put m.sets m.next_set (l ∷ []);
      next_set = suc m.next_set;
      conns =
          put m.conns c
            (record (m.conns c) { listeners = dict_set (m.conns c).listeners session m.next_set });
    },
    subscription c base m.next_set session l,
  )
]

unfoldable pub subscribe : String → String → ℕ → Mux → Mux × Subscription
unfolding connect
subscribe base session l m = let opened = connect base m in listen opened.1 base session l opened.0

abbrev pub is_number : Option ℕ → ℕ → Bool
is_number none n = false
is_number (some k) n = k == n

abbrev pub maybe_close : ℕ → String → Mux → Mux
maybe_close c base m =
    if is_nil (m.conns c).listeners
    then record m {
      conns = put m.conns c (record (m.conns c) { closed = true });
      connections = dict_delete m.connections base;
    }
    else m

-- The map of a connection without the session, if the set is empty and still the session's.
abbrev pub drop_session : Subscription → List ℕ → Dict ℕ → Dict ℕ
drop_session sub left listeners =
    if is_nil left && is_number (dict_get listeners sub.session_id) sub.set
    then dict_delete listeners sub.session_id
    else listeners

unfoldable pub unsubscribe : Subscription → Mux → Mux
unsubscribe sub m =
    let left = delete (m.sets sub.set) sub.listener in
    maybe_close sub.conn sub.base (record m {
      sets = put m.sets sub.set left;
      conns = put m.conns sub.conn (record (m.conns sub.conn) {
        listeners = drop_session sub left (m.conns sub.conn).listeners;
      });
    })

-- Every connection of the map is closed.
abbrev pub close_each : Dict ℕ → (ℕ → MuxConnection) → ℕ → MuxConnection
close_each [] conns = conns
close_each ((base, c) ∷ rest) conns =
    close_each rest (put conns c (record (conns c) { closed = true }))

unfoldable pub close_all_mux : Mux → Mux
close_all_mux m = record m { conns = close_each m.connections m.conns; connections = [] }
