-- ===== src/Upstream/Mux/Held.antt =====
-- src/upstream/mux.ts: what a subscription gets while it is held.
use hellodac.Prelude.{
  ℕ, ◌<◌, ◌≡◌, refl, arith, Bool, true, false, not, ◌&&◌, some, List, [], ◌∷◌, ◌++◌, String, ◌==◌,
  Dict, dict_get, dict_set, dict_delete, dict_get-dict_set, dict_get-dict_delete, Bool-cases,
  Option-cases, inl, inr, any, All, eq_iff,
}
use hellodac.Upstream.Mux.State.{Mux, write_conn}
use hellodac.Upstream.Mux.Wire.{on_message_keeps, WireMessage, on_message}
use hellodac.Upstream.Mux.Sockets.{is_nil, attach, on_open, on_close, timer_fires, open_connection}
use hellodac.Upstream.Mux.Subscriptions.{
  connect, reusable, subscribe, listen, Subscription, unsubscribe, delete,
}
use hellodac.Upstream.Mux.Attached.{Attached}
use hellodac.Upstream.Mux.Runs.{step-Attached}
use hellodac.Upstream.Mux.Steps.{
  Event, opens, closes, receives, fires, subscribes, unsubscribes, closes_all, step, run, effect,
  can_happen,
}

abbrev pub has : List ℕ → ℕ → Bool
has ls l = any (λ x. x == l) ls

-- The connection is open, and the listener is in the set of its session.
pub record Held (sub : Subscription) (m : Mux) : Type 0 where
  pub known : sub.conn < m.next_conn
  pub still_open : (m.conns sub.conn).closed ≡ false
  pub listed : dict_get (m.conns sub.conn).listeners sub.session_id ≡ some sub.set
  pub included : has (m.sets sub.set) sub.listener ≡ true

-- Neither the end of this subscription nor a shutdown.
abbrev pub spares : Subscription → Event → Bool
spares sub (unsubscribes other) = not (other.set == sub.set && other.listener == sub.listener)
spares sub closes_all = false
spares sub _ = true

has-delete : (ls : List ℕ) (l k : ℕ) → (k == l) ≡ false → has (delete ls k) l ≡ has ls l
has-delete [] l k e = refl
has-delete (x ∷ ls) l k e = ground (arith, has-delete ls l k e)

has-add : (ls : List ℕ) (l k : ℕ) → has ls l ≡ true → has (ls ++ k ∷ []) l ≡ true
has-add [] l k e = ground arith
has-add (x ∷ ls) l k e = ground (arith, has-add ls l k)

pub has_added : (ls : List ℕ) (l : ℕ) → has (ls ++ l ∷ []) l ≡ true
has_added [] l = ground arith
has_added (x ∷ ls) l = ground (arith, has_added ls l)

has-is_nil : (ls : List ℕ) (l : ℕ) → has ls l ≡ true → is_nil ls ≡ false
has-is_nil [] l e = cc
has-is_nil (x ∷ ls) l e = refl

dict_get-is_nil : (d : Dict ℕ) (key : String) (v : ℕ) → dict_get d key ≡ some v → is_nil d ≡ false
unfolding dict_get
dict_get-is_nil [] key v e = cc
dict_get-is_nil (x ∷ d) key v e = refl

on_open-Held : (sub : Subscription) (s : ℕ) (m : Mux) → Held sub m → Held sub (on_open s m).0
unfolding on_open
on_open-Held sub s m h = ground (arith, h.known, h.still_open, h.listed, h.included)

on_close-Held : (sub : Subscription) (s : ℕ) (m : Mux) → Held sub m → Held sub (on_close s m)
unfolding on_close
on_close-Held sub s m h = ground (arith, h.known, h.still_open, h.listed, h.included)

timer_fires-Held : (sub : Subscription) (c : ℕ) (m : Mux) → Held sub m → Held sub (timer_fires c m)
unfolding timer_fires attach
timer_fires-Held sub c m h = ground (arith, h.known, h.still_open, h.listed, h.included)

approvals-Held :
    (sub : Subscription) (c : ℕ) (ids : Dict String) (m : Mux)
    → Held sub m
    → Held sub (write_conn c (record (m.conns c) { approval_rpc_ids = ids }) m)
approvals-Held sub c ids m h = ground (arith, h.known, h.still_open, h.listed, h.included)

on_message-Held :
    (sub : Subscription) (s : ℕ) (message : WireMessage) (m : Mux)
    → Held sub m
    → Held sub (on_message s message m).0
on_message-Held sub s message m h = on_message_keeps (Held sub) (approvals-Held sub) s message m h

unsubscribe-Held :
    (sub other : Subscription) (m : Mux)
    → spares sub (unsubscribes other) ≡ true
    → Held sub m
    → Held sub (unsubscribe other m)
unfolding unsubscribe
unsubscribe-Held sub other m e h = ground (
  arith,
  e,
  h.known,
  h.still_open,
  h.listed,
  h.included,
  has-delete (m.sets sub.set) sub.listener other.listener,
  has-is_nil (delete (m.sets sub.set) other.listener) sub.listener,
  dict_get-is_nil (m.conns sub.conn).listeners sub.session_id sub.set,
  dict_get-is_nil (dict_delete (m.conns sub.conn).listeners other.session_id) sub.session_id
      sub.set,
  dict_get-dict_delete (m.conns sub.conn).listeners other.session_id sub.session_id,
  eq_iff other.session_id sub.session_id,
)

module _ (sub : Subscription) (base session : String) (l : ℕ) (m : Mux) (a : Attached m)
    (h : Held sub m) where
  listen-Held : (c : ℕ) → Held sub (listen c base session l m).0
  listen-Held c = elim (Option-cases (dict_get (m.conns c).listeners session)) [
    | inl e ↦
        rw (e, listen)
          (ground (
            arith,
            e,
            h.known,
            h.still_open,
            h.listed,
            h.included,
            a.stored sub.conn sub.session_id sub.set,
            dict_get-dict_set (m.conns c).listeners session sub.session_id m.next_set,
            eq_iff session sub.session_id,
          ))
    | inr (set, e) ↦
        rw (e, listen)
          (ground (
            arith,
            h.known,
            h.still_open,
            h.listed,
            h.included,
            has-add (m.sets sub.set) sub.listener l,
          ))
  ]

  listen_new-Held :
      let opened = open_connection base m in Held sub (listen opened.1 base session l opened.0).0
  unfolding attach dict_get dict_set
  listen_new-Held =
      ground (
        arith,
        h.known,
        h.still_open,
        h.listed,
        h.included,
        a.stored sub.conn sub.session_id sub.set,
      )

  subscribe-Held : Held sub (subscribe base session l m).0
  unfolding subscribe connect
  subscribe-Held = elim (Option-cases (reusable (dict_get m.connections base) m)) [
    | inl e ↦ rw (e, connect) listen_new-Held
    | inr (c, e) ↦ rw (e, connect) (listen-Held c)
  ]

step-Held :
    (sub : Subscription) (event : Event) (m : Mux)
    → spares sub event ≡ true
    → Attached m
    → Held sub m
    → Held sub (step event m)
step-Held sub event m e a h = elim (Bool-cases (can_happen event m)) [
  | inl p ↦ rw p (happen sub event m e a h)
  | inr p ↦ rw p h
]
  where
    happen :
        (sub : Subscription) (event : Event) (m : Mux)
        → spares sub event ≡ true
        → Attached m
        → Held sub m
        → Held sub (effect event m)
    happen sub (opens s) m e a h = on_open-Held sub s m h
    happen sub (closes s) m e a h = on_close-Held sub s m h
    happen sub (receives s message) m e a h = on_message-Held sub s message m h
    happen sub (fires c) m e a h = timer_fires-Held sub c m h
    happen sub (subscribes base session l) m e a h = subscribe-Held sub base session l m a h
    happen sub (unsubscribes other) m e a h = unsubscribe-Held sub other m e h
    happen sub closes_all m e a h = cc

pub run-Held :
    (sub : Subscription) (events : List Event) (m : Mux)
    → All (λ event. spares sub event ≡ true) events
    → Attached m
    → Held sub m
    → Held sub (run events m)
unfolding run
run-Held sub [] m all a h = h
run-Held sub (event ∷ events) m (e, all) a h =
    run-Held sub events (step event m) all (step-Attached event m a) (step-Held sub event m e a h)
