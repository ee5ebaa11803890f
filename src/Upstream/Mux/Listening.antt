-- ===== src/Upstream/Mux/Listening.antt =====
-- src/upstream/mux.ts: the connections that somebody listens on.
use hellodac.Prelude.{
  ℕ, ◌≡◌, refl, sym, ap, ◌∙◌, arith, true, false, [], ◌∷◌, String, Dict, dict_get, dict_set,
  dict_get-dict_set, dict_get-dict_delete, Option-cases, inl, inr,
}
use hellodac.Upstream.Mux.State.{MuxConnection, Mux, put}
use hellodac.Upstream.Mux.Sockets.{is_nil, attach, open_connection}
use hellodac.Upstream.Mux.Subscriptions.{
  connect, reusable, subscribe, listen, Subscription, unsubscribe, close_all_mux, close_each,
}
use hellodac.Upstream.Mux.Attached.{Attached}

pub unsubscribe-Attached :
    (sub : Subscription) (m : Mux) → Attached m → Attached (unsubscribe sub m)
unfolding unsubscribe
unsubscribe-Attached sub m a = record {
  allocated = λ t lt. ground (arith, a.allocated t);
  mapped = λ b c g. ground (arith, a.mapped b c, dict_get-dict_delete m.connections sub.base b);
  stored = λ d k set lt g.
      ground (arith, a.stored d k set, dict_get-dict_delete (m.conns d).listeners sub.session_id k);
  current = λ t lt h o. ground (arith, a.current t);
  served = λ c lt o. ground (arith, a.served c);
}

-- Closing changes nothing of a connection but that it is closed.
close_each_keeps :
    (l : Dict ℕ) (conns : ℕ → MuxConnection) (n : ℕ)
    → (close_each l conns n).closed ≡ false
    → close_each l conns n ≡ conns n
close_each_keeps [] conns n o = refl
close_each_keeps ((b, c) ∷ l) conns n o =
    let kept = close_each_keeps l (put conns c (record (conns c) { closed = true })) n o in
    ground (arith, kept, o)

close_each_listeners :
    (l : Dict ℕ) (conns : ℕ → MuxConnection) (n : ℕ)
    → (close_each l conns n).listeners ≡ (conns n).listeners
close_each_listeners [] conns n = refl
close_each_listeners ((b, c) ∷ l) conns n =
    let kept = close_each_listeners l (put conns c (record (conns c) { closed = true })) n in
    ground (arith, kept)

pub close_all-Attached : (m : Mux) → Attached m → Attached (close_all_mux m)
unfolding close_all_mux dict_get
close_all-Attached m a = record {
  allocated = a.allocated;
  mapped = λ b c g. cc;
  stored = λ d k set lt g. a.stored d k set lt (
      sym (ap (λ (ls : Dict ℕ). dict_get ls k) (close_each_listeners m.connections m.conns d)) ∙ g);
  current = λ t lt h o. rw (close_each_keeps m.connections m.conns (m.sockets t).conn o) (
      a.current t lt h (
        sym (
          ap (λ (v : MuxConnection). v.closed)
            (close_each_keeps m.connections m.conns (m.sockets t).conn o))
        ∙ o));
  served = λ c lt o.
      let kept = close_each_keeps m.connections m.conns c o in
      ground (arith, kept, ap (λ (v : MuxConnection). v.closed) kept, o, a.served c);
}

listen_new-Attached :
    (base session : String) (l : ℕ) (m : Mux)
    → Attached m
    → let opened = open_connection base m in Attached (listen opened.1 base session l opened.0).0
unfolding attach dict_get dict_set
listen_new-Attached base session l m a = record {
  allocated = λ t lt. ground (arith, a.allocated t);
  mapped =
      λ b c g. ground (arith, a.mapped b c, dict_get-dict_set m.connections base b m.next_conn);
  stored = λ d k set lt g. ground (arith, a.stored d k set, a.served d);
  current = λ t lt h o. ground (arith, a.current t, a.allocated t);
  served = λ c lt o. ground (arith, a.served c);
}

is_nil-dict_set : (d : Dict ℕ) (key : String) (v : ℕ) → is_nil (dict_set d key v) ≡ false
unfolding dict_set
is_nil-dict_set [] key v = refl
is_nil-dict_set (entry ∷ rest) key v = ground arith

listen-Attached :
    (c : ℕ) (base session : String) (l : ℕ) (m : Mux)
    → Attached m
    → Attached (listen c base session l m).0
listen-Attached c base session l m a =
    elim (Option-cases (dict_get (m.conns c).listeners session)) [
      | inl e ↦
          rw (e, listen)
            (record {
              allocated = λ t lt. ground (arith, a.allocated t);
              mapped = a.mapped;
              stored = λ d k set lt g. ground (
                arith,
                a.stored d k set,
                dict_get-dict_set (m.conns c).listeners session k m.next_set,
              );
              current = λ t lt h o. ground (arith, a.current t);
              served = λ d lt o.
                  ground
                    (arith, a.served d, is_nil-dict_set (m.conns c).listeners session m.next_set);
            })
      | inr (set, e) ↦
          rw (e, listen)
            (record {
              allocated = a.allocated;
              mapped = a.mapped;
              stored = a.stored;
              current = a.current;
              served = λ d lt o. ground (arith, a.served d);
            })
    ]

pub subscribe-Attached :
    (base session : String) (l : ℕ) (m : Mux) → Attached m → Attached (subscribe base session l m).0
unfolding subscribe connect
subscribe-Attached base session l m a =
    elim (Option-cases (reusable (dict_get m.connections base) m)) [
      | inl e ↦ rw (e, connect) (listen_new-Attached base session l m a)
      | inr (c, e) ↦ rw (e, connect) (listen-Attached c base session l m a)
    ]
