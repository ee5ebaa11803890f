-- ===== src/Services/Placement/Fixtures.antt =====
-- src/services/placement.ts: scores by natural numbers and plain machines, for the tests.
use Prim.Native.Nat.{min}
use Prim.Native.String.{len}
use hellodac.Prelude.{ℕ, ◌+◌, ◌-◌, ◌*◌, ◌/◌, compare, true, false, none, List, String}
use hellodac.Prelude.Sort.{by_key-IsComparator}
use hellodac.Services.Placement.{Scores, MachineFacts}

abbrev pub plain : Scores
plain = record {
  Num = ℕ;
  of_ℕ = λ n. n;
  add = λ a b. a + b;
  sub = λ a b. a - b;
  mul = λ a b. a * b;
  div = λ a b. a / b;
  least = λ a b. min a b;
  round = λ a. a;
  compare_num = λ a b. compare a b;
  compare_num-IsComparator = by_key-IsComparator (λ n. n);
  locale_compare = λ a b. compare (len a) (len b);
  locale_compare-IsComparator = by_key-IsComparator len;
}

abbrev pub machine : String → ℕ → List String → MachineFacts
machine name agents services = record {
  id = name;
  online = true;
  agent_count = agents;
  services = services;
  has_private_agents = false;
  sessions = 0;
  cpu_free_percent = none;
  mem_free_bytes = none;
  disk_free_bytes = none;
  knowledge_affinity = none;
}
