-- ===== src/Reconcile/Tests.antt =====
-- Two agents, of which one is new, beside one that left the configuration; and a node that fails its probes.
use hellodac.Prelude.{◌+◌, ◌≡◌, refl, String, true, false, none, some, List, [], ◌∷◌, length}
use hellodac.Nodes.Supervisor.State.{SpawnSpec, process, Supervisor, Deps, new, live}
use hellodac.Nodes.Supervisor.Commands.{stop}
use hellodac.Nodes.Supervisor.Launch.{Env, throws_nowhere}
use hellodac.Reconcile.Registry.{AgentRowFace, AgentRow, row_of, mirror_agents}
use hellodac.Reconcile.Mirror.{lookup, agent_of, wanted, mirror_agents_mirrors}
use hellodac.Reconcile.Heal.{Answers}

abbrev face : String → AgentRowFace
face id = record {
  id = id;
  name = id;
  workspace_path = "/ws";
  endpoint = "local";
  preset = none;
  git_remote = none;
  public = false;
}

abbrev declared : List AgentRowFace
declared = face "a" ∷ face "b" ∷ []

abbrev table : List AgentRow
table = row_of (face "a") 5 ∷ row_of (face "gone") 6 ∷ []

mirror_agents_mirrors_example :
    let first = mirror_agents 10 true declared table in
    (lookup first.0 "a" ≡ wanted 10 true (agent_of declared "a") (lookup table "a"))
    × (lookup (mirror_agents 20 true declared first.0).0 "a" ≡ lookup first.0 "a")
    × ((first.1).inserted + (first.1).updated ≡ length declared)
mirror_agents_mirrors_example =
    mirror_agents_mirrors 10 20 true declared table "a" (refl, (refl, tt))

abbrev deps : Deps
deps = record { docker_wired = false; agent_wired = false }

abbrev env : Env
env = record { now = 100; spawned_pid = some 41; throws = throws_nowhere }

abbrev spec : SpawnSpec
spec = record {
  runner = process;
  docker_image = none;
  host = none;
  log_file = none;
  ready_timeout_ms = 5000;
  max_attempts = 2;
  base_delay_ms = 10;
  max_delay_ms = 50;
}

-- A live node with two failed probes counted, which is stopped while the third is under way.
weak : Supervisor
unfolding new
weak = record (new 0) { status = record ((new 0).status) { state = live }; live_probe_failures = 2 }

abbrev stopped_meanwhile : Answers
stopped_meanwhile = record {
  probe = some "refused";
  docker = none;
  meanwhile = λ s. stop deps env s;
}
