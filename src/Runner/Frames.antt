-- ===== src/Runner/Frames.antt =====
-- src/frames.ts: the token counts of a message and their sum over a turn. A field that is no finite
-- number is `none`.
use hellodac.Prelude.{
  ℕ, ◌+◌, ◌≡◌, true, false, Option, none, some, arith, or_default, is_some, ◌||◌,
}

pub record RawUsage : Type 0 where
  pub input_tokens : Option ℕ
  pub output_tokens : Option ℕ
  pub cache_read_tokens : Option ℕ
  pub cache_write_tokens : Option ℕ
  pub reasoning_tokens : Option ℕ

pub record TokenUsage : Type 0 where
  pub input_tokens : ℕ
  pub output_tokens : ℕ
  pub cache_read_tokens : Option ℕ
  pub cache_write_tokens : Option ℕ
  pub reasoning_tokens : Option ℕ

abbrev pub normalize_object : RawUsage → Option TokenUsage
normalize_object raw = elim (is_some raw.input_tokens || is_some raw.output_tokens) [
  | false ↦ none
  | true ↦ some (record {
    input_tokens = or_default raw.input_tokens 0;
    output_tokens = or_default raw.output_tokens 0;
    cache_read_tokens = raw.cache_read_tokens;
    cache_write_tokens = raw.cache_write_tokens;
    reasoning_tokens = raw.reasoning_tokens;
  })
]

-- `none` is `null`, or a value that is no object.
unfoldable pub normalize_usage : Option RawUsage → Option TokenUsage
normalize_usage none = none
normalize_usage (some raw) = normalize_object raw

-- A key that neither has stays absent.
abbrev pub sum_optional : Option ℕ → Option ℕ → Option ℕ
sum_optional none none = none
sum_optional none (some b) = some b
sum_optional (some a) none = some a
sum_optional (some a) (some b) = some (a + b)

unfoldable pub sum_usage : Option TokenUsage → Option TokenUsage → Option TokenUsage
sum_usage total none = total
sum_usage none (some step) = some step
sum_usage (some total) (some step) = some (record {
  input_tokens = total.input_tokens + step.input_tokens;
  output_tokens = total.output_tokens + step.output_tokens;
  cache_read_tokens = sum_optional total.cache_read_tokens step.cache_read_tokens;
  cache_write_tokens = sum_optional total.cache_write_tokens step.cache_write_tokens;
  reasoning_tokens = sum_optional total.reasoning_tokens step.reasoning_tokens;
})

-- What a count contributes, an absent one nothing.
abbrev pub counted : (TokenUsage → ℕ) → Option TokenUsage → ℕ
counted f none = 0
counted f (some u) = f u

abbrev pub input_of : Option TokenUsage → ℕ
input_of = counted λ u. u.input_tokens

abbrev pub output_of : Option TokenUsage → ℕ
output_of = counted λ u. u.output_tokens

abbrev pub cache_read_of : Option TokenUsage → ℕ
cache_read_of = counted λ u. or_default u.cache_read_tokens 0

-- The sum has each count of the parts, and is there if one of them is.
pub sum_usage_counts :
    (a b : Option TokenUsage)
    → (input_of (sum_usage a b) ≡ input_of a + input_of b)
      × (output_of (sum_usage a b) ≡ output_of a + output_of b)
      × (cache_read_of (sum_usage a b) ≡ cache_read_of a + cache_read_of b)
      × (is_some (sum_usage a b) ≡ (is_some a || is_some b))
unfolding sum_usage
sum_usage_counts a b = ground arith
