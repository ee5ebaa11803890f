-- ===== src/Services/Plan/Endpoint.antt =====
-- src/services/agents-plan.ts, `parseAgentEndpoint`: the service and the ordinal of an endpoint. The
-- first group of its pattern is greedy and the second has no dash, so the split is at the last dash.
use Prim.Native.Char.{code}
use Prim.Native.String.{String}
use hellodac.Prelude.{
  ℕ, ◌+◌, ◌-◌, ◌*◌, Bool, true, false, not, ◌&&◌, ◌||◌, Option, none, some, leb, ◌==◌,
  if◌then◌else◌,
}

pub record ServiceAgent : Type 0 where
  pub service_id : String
  pub ordinal : ℕ

-- A text without a prefix that it begins with.
unfoldable pub strip_prefix : String → String → Option String
strip_prefix String.[] s = some s
strip_prefix (String.◌∷◌ p ps) String.[] = none
strip_prefix (String.◌∷◌ p ps) (String.◌∷◌ c s) =
    if code p == code c then strip_prefix ps s else none

abbrev pub is_dash : ℕ → Bool
is_dash c = c == 45

-- The texts before and after the last dash.
unfoldable pub split_last : String → Option (String × String)
split_last String.[] = none
split_last (String.◌∷◌ c s) = elim (split_last s) [
  | some (a, b) ↦ some (String.◌∷◌ c a, b)
  | none ↦ if is_dash (code c) then some ("", s) else none
]

-- `\d*` with the number that it spells after some digits.
unfoldable pub digits_after : ℕ → String → Option ℕ
digits_after value String.[] = some value
digits_after value (String.◌∷◌ c s) =
    let rest = digits_after (value * 10 + (code c - 48)) s in
    if leb 48 (code c) && leb (code c) 57 then rest else none

-- `[1-9]\d*`
unfoldable pub ordinal_of : String → Option ℕ
unfolding digits_after
ordinal_of String.[] = none
ordinal_of (String.◌∷◌ c s) =
    if leb 49 (code c) && leb (code c) 57 then digits_after (code c - 48) s else none

-- What `.` matches: everything but a line terminator.
abbrev pub is_terminator : ℕ → Bool
is_terminator c = c == 10 || c == 13 || c == 8232 || c == 8233

unfoldable pub is_one_line : String → Bool
is_one_line String.[] = true
is_one_line (String.◌∷◌ c s) = not (is_terminator (code c)) && is_one_line s

abbrev pub is_some_line : String → Bool
is_some_line String.[] = false
is_some_line (String.◌∷◌ c s) = is_one_line (String.◌∷◌ c s)

abbrev pub with_ordinal : String → Option ℕ → Option ServiceAgent
with_ordinal service none = none
with_ordinal service (some n) =
    if is_some_line service then some (record { service_id = service; ordinal = n }) else none

abbrev pub parse_split : Option (String × String) → Option ServiceAgent
parse_split none = none
parse_split (some (a, b)) = with_ordinal a (ordinal_of b)

abbrev pub parse_rest : Option String → Option ServiceAgent
parse_rest none = none
parse_rest (some s) = parse_split (split_last s)

unfoldable pub parse_agent_endpoint : String → Option ServiceAgent
unfolding strip_prefix split_last ordinal_of is_one_line
parse_agent_endpoint endpoint = parse_rest (strip_prefix "svc-" endpoint)
