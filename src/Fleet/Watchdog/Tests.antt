-- ===== src/Fleet/Watchdog/Tests.antt =====
-- A machine and a node that go down and come back.
use hellodac.Prelude.{
  ◌+◌, ◌≡◌, ◌≤◌, refl, String, Bool, true, false, none, some, [], ◌∷◌, length, dict_get, dict_set,
}
use hellodac.Fleet.Watchdog.{FleetAgent, FleetNode, Watch, offline, watch_agent, watch_node, tick}
use hellodac.Fleet.Watchdog.Edges.{watch_series, watch_series_edges}

abbrev never : String → String → Bool
never a b = false

abbrev machine : Bool → FleetAgent
machine o = record { id = "m1"; hostname = "box"; online = o }

abbrev node : FleetNode
node = record { id = "n1"; state = offline; by_agent = true; host = some "m1"; last_error = none }

abbrev fresh : Watch
fresh = record { last = []; notifications = []; alerts = 0 }

two_alerts : (tick never (machine false ∷ []) (node ∷ []) fresh).alerts ≡ 2
unfolding tick watch_agent watch_node dict_get dict_set
two_alerts = refl

told_once :
    (tick never
      (machine false ∷ [])
      (node ∷ [])
      (tick never (machine false ∷ []) (node ∷ []) fresh)).alerts
    ≡ 0
unfolding tick watch_agent watch_node dict_get dict_set
told_once = refl

watch_series_edges_example :
    ((watch_series never (machine true) (false ∷ false ∷ true ∷ []) fresh).alerts ≤ 0 + 2)
    × (length (watch_series never (machine true) (false ∷ false ∷ true ∷ []) fresh).notifications
          + 0
        ≡ 0 + (watch_series never (machine true) (false ∷ false ∷ true ∷ []) fresh).alerts)
unfolding dict_get
watch_series_edges_example =
    watch_series_edges never (machine true) (false ∷ false ∷ true ∷ []) fresh
