-- ===== src/Runner/Summary.antt =====
-- src/runner/turn.ts, `truncate` and the summary that `finish` stores. A text is a sequence of code
-- points here, where the source counts UTF-16 units.
use Prim.Native.Char.{code}
use Prim.Native.String.{String, ◌++◌ as join}
use hellodac.Prelude.{
  ℕ, zero, suc, ◌-◌, Bool, ◌&&◌, ◌||◌, List, [], ◌∷◌, leb, ◌==◌, if◌then◌else◌, ◌is◌,
}
use hellodac.Services.Plan.{decimal}

abbrev pub summary_limit : ℕ
summary_limit = 4000

abbrev pub text_length : String → ℕ
text_length String.[] = 0
text_length (String.◌∷◌ c s) = suc (text_length s)

-- `slice(0, n)`.
abbrev pub slice_to : ℕ → String → String
slice_to zero s = ""
slice_to (suc n) String.[] = ""
slice_to (suc n) (String.◌∷◌ c s) = String.◌∷◌ c (slice_to n s)

-- The white space of ECMAScript.
abbrev pub is_space : ℕ → Bool
is_space c =
    leb 9 c && leb c 13
    || (c == 32 || c == 160 || c == 5760 || leb 8192 c && leb c 8202)
    || (c == 8232 || c == 8233 || c == 8239 || c == 8287)
    || (c == 12288 || c == 65279)

unfoldable pub trim_start : String → String
trim_start String.[] = ""
trim_start (String.◌∷◌ c s) = if is_space (code c) then trim_start s else String.◌∷◌ c s

unfoldable pub trim_end : String → String
trim_end String.[] = ""
trim_end (String.◌∷◌ c s) =
    let rest = trim_end s in if is_space (code c) && rest is "" then "" else String.◌∷◌ c rest

-- `texts.join('\n')`.
unfoldable pub join_lines : List String → String
join_lines [] = ""
join_lines (t ∷ []) = t
join_lines (t ∷ u ∷ ts) = join t (join "\n" (join_lines (u ∷ ts)))

unfoldable pub truncate : ℕ → String → String
unfolding decimal
truncate limit s =
    if leb (text_length s) limit
    then s
    else join (slice_to limit s)
        (join "\n[truncated " (join (decimal (text_length s - limit)) " chars]"))

unfoldable pub summary_of : List String → String
unfolding trim_start trim_end join_lines truncate
summary_of texts = truncate summary_limit (trim_end (trim_start (join_lines texts)))
