-- ===== src/Fleet/Watchdog/Edges.antt =====
-- src/fleet/watchdog.ts: the alerts about one machine.
use Prim.Native.String.{◌++◌ as join}
use hellodac.Prelude.{
  ℕ, suc, ◌+◌, ◌≡◌, ◌≤◌, refl, arith, String, Bool, true, false, not, List, [], ◌∷◌, if◌then◌else◌,
  dict_get, dict_get-dict_set, eq_refl, length, Bool-cases, inl, inr,
}
use hellodac.Fleet.Watchdog.{
  FleetAgent, Watch, was_down, watch_agent, is_down, is_up, has_unread_alert, is_agent_alert,
}

-- The observations of one machine, in calls that follow each other.
abbrev pub observed : FleetAgent → Bool → FleetAgent
observed a online = record a { online = online }

pub watch_series : (String → String → Bool) → FleetAgent → List Bool → Watch → Watch
watch_series contains a [] s = s
watch_series contains a (o ∷ os) s =
    watch_series contains a os (watch_agent contains (observed a o) s)

-- How often a machine that was down, or not, goes down or comes back.
abbrev pub changes : Bool → List Bool → ℕ
changes down [] = 0
changes true (o ∷ os) = if o then suc (changes false os) else changes true os
changes false (o ∷ os) = if o then changes false os else suc (changes true os)

abbrev pub down_before : FleetAgent → Watch → Bool
down_before a s = was_down (dict_get s.last (join "agent:" a.id))

watch_agent-alerts :
    (contains : String → String → Bool) (a : FleetAgent) (o : Bool) (s : Watch)
    → let t = watch_agent contains (observed a o) s in
      (down_before a t ≡ not o)
      × (t.alerts
          ≤ s.alerts + (if down_before a s then (if o then 1 else 0) else (if o then 0 else 1)))
      × (length t.notifications + s.alerts ≡ length s.notifications + t.alerts)
unfolding watch_agent
watch_agent-alerts contains a true s =
    let key = join "agent:" a.id in
    let told = dict_get-dict_set s.last key key is_up in
    elim (Bool-cases (was_down (dict_get s.last key))) [
      | inl e ↦ rw e (ground (arith, told, eq_refl key), omega arith, omega arith)
      | inr e ↦ rw e (ground (arith, told, eq_refl key), omega arith, refl)
    ]
watch_agent-alerts contains a false s =
    let key = join "agent:" a.id in
    let told = dict_get-dict_set s.last key key is_down in
    elim (Bool-cases (was_down (dict_get s.last key))) [
      | inl e ↦ rw e (ground (arith, told, eq_refl key), omega arith, refl)
      | inr e ↦
          elim (Bool-cases
            (has_unread_alert contains is_agent_alert (join "（" (join a.id "）")) s.notifications)) [
              | inl f ↦ rw (e, f) (ground (arith, told, eq_refl key), omega arith, refl)
              | inr f ↦ rw (e, f) (ground (arith, told, eq_refl key), omega arith, omega arith)
            ]
    ]

-- Over any series of observations of a machine, the watch raises at most one alert for each change
-- between online and offline, where a machine not seen before counts as online, and each alert is
-- one notification.
pub watch_series_edges :
    (contains : String → String → Bool) (a : FleetAgent) (os : List Bool) (s : Watch)
    → let t = watch_series contains a os s in
      (t.alerts ≤ s.alerts + changes (down_before a s) os)
      × (length t.notifications + s.alerts ≡ length s.notifications + t.alerts)
unfolding watch_series
watch_series_edges contains a [] s = (omega arith, refl)
watch_series_edges contains a (o ∷ os) s =
    let t = watch_agent contains (observed a o) s in
    ground (arith, watch_agent-alerts contains a o s, watch_series_edges contains a os t)
