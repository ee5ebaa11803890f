-- ===== src/PublicApi/Tables.antt =====
-- src/public-api: the rows of the tables `chat` and `run` that the public API reads, with the
-- columns that it uses.
use hellodac.Prelude.{ℕ, String, Bool, true, false, Option, none, some, List, ◌is◌}

pub data RunState : Type 0 where
  pending is_running is_done is_failed is_missed : RunState

pub record Run : Type 0 where
  pub agent_id : String
  pub api_key_id : Option String
  pub state : RunState
  pub started_at : ℕ
  pub ended_at : Option ℕ

pub record Chat : Type 0 where
  pub agent_id : String
  pub api_key_id : Option String
  pub removed_at : Option ℕ

pub record Db : Type 0 where
  pub runs : List Run
  pub chats : List Chat

-- `inArray(schema.run.state, ['pending', 'running'])`.
abbrev pub is_open : RunState → Bool
is_open pending = true
is_open is_running = true
is_open is_done = false
is_open is_failed = false
is_open is_missed = false

abbrev pub is_finished : RunState → Bool
is_finished is_done = true
is_finished _ = false

-- A column that may be NULL equals a text; NULL equals none.
abbrev pub has_text : Option String → String → Bool
has_text none k = false
has_text (some t) k = t is k
