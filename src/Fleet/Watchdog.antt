-- ===== src/Fleet/Watchdog.antt =====
-- src/fleet/watchdog.ts: the alerts about machines and nodes that go offline and come back. The rows
-- of the table `notification` are a list; of `String.includes` only the name is used, as an argument.
pub mod Edges
mod Tests
use Prim.Native.String.{◌++◌ as join}
use hellodac.Prelude.{
  ℕ, zero, suc, ◌+◌, ◌≡◌, ◌≤◌, refl, arith, String, Bool, true, false, not, ◌&&◌, ◌||◌, Option,
  none, some, List, [], ◌∷◌, if◌then◌else◌, Dict, dict_get, dict_set, dict_get-dict_set, any,
  eq_refl, Option-cases, length, or_default, Bool-cases, inl, inr,
}

pub data Kind : Type 0 where
  agent_offline agent_recovered node_offline node_recovered : Kind

pub record Notification : Type 0 where
  pub kind : Kind
  pub title : String
  pub body : String
  pub read : Bool

pub record FleetAgent : Type 0 where
  pub id : String
  pub hostname : String
  pub online : Bool

pub data NodeState : Type 0 where
  cold starting live offline restarting : NodeState

pub record FleetNode : Type 0 where
  pub id : String
  pub state : NodeState
  pub by_agent : Bool
  pub host : Option String
  pub last_error : Option String

-- The values of the map `last`.
pub data Verdict : Type 0 where
  is_up is_down : Verdict

pub record Watch : Type 0 where
  pub last : Dict Verdict
  pub notifications : List Notification
  pub alerts : ℕ

abbrev pub is_agent_alert : Kind → Bool
is_agent_alert agent_offline = true
is_agent_alert _ = false

abbrev pub is_node_alert : Kind → Bool
is_node_alert node_offline = true
is_node_alert _ = false

-- `hasUnreadAlert`, with the test of the kind and of the text.
abbrev pub has_unread_alert :
    (String → String → Bool) → (Kind → Bool) → String → List Notification → Bool
has_unread_alert contains of_kind needle ns =
    any (λ n. of_kind n.kind && (not n.read && contains n.body needle)) ns

abbrev pub was_down : Option Verdict → Bool
was_down (some is_down) = true
was_down _ = false

abbrev pub notify : Kind → String → String → Watch → Watch
notify kind title body s = record s {
  notifications =
      record { kind = kind; title = title; body = body; read = false } ∷ s.notifications;
  alerts = suc s.alerts;
}

abbrev pub remember : String → Verdict → Watch → Watch
remember key v s = record s { last = dict_set s.last key v }

-- A text that starts with the machine, and with its id in parentheses.
abbrev pub machine_title : FleetAgent → String → String
machine_title a rest = join "machine " (join a.hostname rest)

abbrev pub machine_text : FleetAgent → String → String
machine_text a rest = machine_title a (join " (" (join a.id (join ")" rest)))

-- The body of the loop over the machines.
unfoldable pub watch_agent : (String → String → Bool) → FleetAgent → Watch → Watch
watch_agent contains a s =
    let key = join "agent:" a.id in
    let prev = was_down (dict_get s.last key) in
    let known =
      has_unread_alert contains is_agent_alert (join "（" (join a.id "）")) s.notifications in
    if not a.online
    then remember key is_down (
        if not prev && not known
        then notify agent_offline (machine_title a " went offline")
            (machine_text a
              " has not sent a heartbeat for over 90s — commands for nodes on it cannot be delivered")
            s
        else s)
    else remember key is_up (
        if prev
        then notify agent_recovered (machine_title a " recovered")
            (machine_text a " is sending heartbeats again") s
        else s)

abbrev pub host_text : Option String → String
host_text none = ""
host_text (some h) = join " (agent " (join h ")")

abbrev pub node_text : FleetNode → String
node_text n = join "node " (
    join n.id (
      join " is down"
        (join (host_text n.host) (join ": " (or_default n.last_error "probe failed")))))

-- The body of the loop over the nodes; a state in between keeps the verdict.
unfoldable pub watch_node : (String → String → Bool) → FleetNode → Watch → Watch
watch_node contains n s =
    let key = join "node:" n.id in
    let prev = was_down (dict_get s.last key) in
    let known = has_unread_alert contains is_node_alert (join "node " n.id) s.notifications in
    if not n.by_agent then s else (elim n.state [
      | offline ↦ remember key is_down (
          if not prev && not known
          then notify node_offline (join "node " (join n.id " is abnormal")) (node_text n) s
          else s)
      | live ↦ remember key is_up (
          if prev
          then notify node_recovered (join "node " (join n.id " recovered"))
              (join "node " (join n.id " is online again")) s
          else s)
      | _ ↦ s
    ])

unfoldable pub watch_agents : (String → String → Bool) → List FleetAgent → Watch → Watch
watch_agents contains [] s = s
watch_agents contains (a ∷ as') s = watch_agents contains as' (watch_agent contains a s)

unfoldable pub watch_nodes : (String → String → Bool) → List FleetNode → Watch → Watch
watch_nodes contains [] s = s
watch_nodes contains (n ∷ ns) s = watch_nodes contains ns (watch_node contains n s)

-- One call of the function that `createFleetWatchdog` returns.
unfoldable pub tick : (String → String → Bool) → List FleetAgent → List FleetNode → Watch → Watch
unfolding watch_agents watch_nodes
tick contains agents nodes s =
    watch_nodes contains nodes (watch_agents contains agents (record s { alerts = zero }))
