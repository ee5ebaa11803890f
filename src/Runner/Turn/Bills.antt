-- ===== src/Runner/Turn/Bills.antt =====
-- src/runner/turn.ts: the sums over the frames of a turn.
use hellodac.Prelude.{
  ℕ, suc, ◌+◌, ◌≡◌, refl, arith, String, Bool, true, false, not, ◌&&◌, ◌||◌, Option, none, some,
  List, [], ◌∷◌, if◌then◌else◌, is_some, sum_by, any, Option-cases, inl, inr,
}
use hellodac.Runner.Frames.{
  TokenUsage, normalize_usage, sum_usage, sum_usage_counts, input_of, output_of,
}
use hellodac.Runner.Pricing.{Doubles, PricingTable, CostBreakdown, compute_cost}
use hellodac.Runner.Turn.{
  TurnState, Frame, message, tool_call, stream_reconnected, turn_end, other_frame, FrameResult,
  continue, ended, handle_turn_frame, handle_message, bill, push_text, cost_of, peak_cost_of,
  end_from_turn_end, new_turn_state,
}

-- A frame and the time at which it arrives.
abbrev pub Timed : Type 0
Timed = ℕ × Frame

-- The counts of the messages before the end of the turn.
abbrev pub usages : List Timed → List (ℕ × TokenUsage)
usages [] = []
usages ((now, message raw text) ∷ fs) = elim (normalize_usage raw) [
  | none ↦ usages fs
  | some u ↦ (now, u) ∷ usages fs
]
usages ((now, turn_end reason detail cause) ∷ fs) = []
usages ((now, tool_call) ∷ fs) = usages fs
usages ((now, stream_reconnected) ∷ fs) = usages fs
usages ((now, other_frame kind) ∷ fs) = usages fs

abbrev pub is_tool_call : Frame → Bool
is_tool_call tool_call = true
is_tool_call _ = false

abbrev pub tool_calls : List Timed → ℕ
tool_calls [] = 0
tool_calls ((now, turn_end reason detail cause) ∷ fs) = 0
tool_calls ((now, tool_call) ∷ fs) = suc (tool_calls fs)
tool_calls ((now, message raw text) ∷ fs) = tool_calls fs
tool_calls ((now, stream_reconnected) ∷ fs) = tool_calls fs
tool_calls ((now, other_frame kind) ∷ fs) = tool_calls fs

abbrev pub is_empty {ℓ} : {A : Type ℓ} → List A → Bool
is_empty [] = true
is_empty (x ∷ xs) = false

abbrev pub turn_of : Option String → Option String → TurnState
turn_of provider model = record new_turn_state { provider = provider; model = model }

module _ (doubles : Doubles) (is_weekend : ℕ → String → Bool) (table : PricingTable doubles) where
  -- The loop over the frames, up to the end of the turn.
  unfoldable pub run_frames : List Timed → TurnState → TurnState × FrameResult
  run_frames [] s = (s, continue)
  run_frames ((now, frame) ∷ fs) s =
      let out = handle_turn_frame doubles is_weekend table now frame s in
      elim out.1 [ ended state error ↦ out | continue ↦ run_frames fs out.0 ]

  -- The price of each response, where its model has a rate.
  abbrev pub charge_of :
      Option String → Option String → ℕ × TokenUsage → Option (CostBreakdown doubles)
  charge_of provider model (now, u) =
      compute_cost doubles is_weekend (some u) provider model now table

  abbrev pub micro : Option (CostBreakdown doubles) → ℕ
  micro none = 0
  micro (some c) = c.micro_usd

  abbrev pub peak_micro : Option (CostBreakdown doubles) → ℕ
  peak_micro none = 0
  peak_micro (some c) = if c.peak then c.micro_usd else 0

  abbrev pub is_unpriced : Option String → Option String → ℕ × TokenUsage → Bool
  is_unpriced provider model u = not (is_some (charge_of provider model u))

  -- What the turn costs: nothing is known of it without a response, or with one that has no rate.
  abbrev pub total :
      (Option (CostBreakdown doubles) → ℕ)
      → Option String
      → Option String
      → List (ℕ × TokenUsage)
      → Option ℕ
  total part provider model us =
      if is_empty us || any (is_unpriced provider model) us
      then none
      else some (sum_by (λ u. part (charge_of provider model u)) us)

  module _ (provider model : Option String) where
    -- The state of a turn after a stretch of it, against its state before.
    record Adds (s t : TurnState) (us : List (ℕ × TokenUsage)) (n : ℕ) : Type 0 where
      same_provider : t.provider ≡ provider
      same_model : t.model ≡ model
      input : input_of t.usage ≡ input_of s.usage + sum_by (λ u. u.1.input_tokens) us
      output : output_of t.usage ≡ output_of s.usage + sum_by (λ u. u.1.output_tokens) us
      used : is_some t.usage ≡ (is_some s.usage || not (is_empty us))
      known : t.cost_known ≡ (s.cost_known && not (any (is_unpriced provider model) us))
      cost : t.accrued_cost ≡ s.accrued_cost + sum_by (λ u. micro (charge_of provider model u)) us
      peak_cost :
          t.accrued_peak_cost
          ≡ s.accrued_peak_cost + sum_by (λ u. peak_micro (charge_of provider model u)) us
      calls : t.tool_calls ≡ s.tool_calls + n

    Adds-trans :
        (s t v : TurnState) (u : ℕ × TokenUsage) (us : List (ℕ × TokenUsage)) (n : ℕ)
        → Adds s t (u ∷ []) 0
        → Adds t v us n
        → Adds s v (u ∷ us) n
    Adds-trans s t v u us n a b = ground arith

    Adds-none :
        (s t v : TurnState) (us : List (ℕ × TokenUsage)) (m n k : ℕ)
        → k ≡ m + n
        → Adds s t [] m
        → Adds t v us n
        → Adds s v us k
    Adds-none s t v us m n k e a b = ground arith

    push_text-Adds :
        (text : Option String) (s t : TurnState) (us : List (ℕ × TokenUsage))
        → Adds s t us 0
        → Adds s (push_text text t) us 0
    push_text-Adds text s t us a = ground arith

    bill-Adds :
        (now : ℕ) (u : TokenUsage) (s : TurnState)
        → s.provider ≡ provider
        → s.model ≡ model
        → Adds s
            (bill doubles is_weekend table now
              (some u)
              (record s { usage = sum_usage s.usage (some u) }))
            ((now, u) ∷ [])
            0
    bill-Adds now u s p m = ground (arith, sum_usage_counts s.usage (some u))

    run_frames-Adds :
        (fs : List Timed) (s : TurnState)
        → s.provider ≡ provider
        → s.model ≡ model
        → Adds s (run_frames fs s).0 (usages fs) (tool_calls fs)
    unfolding run_frames handle_turn_frame end_from_turn_end
    run_frames-Adds [] s p m = ground arith
    run_frames-Adds ((now, tool_call) ∷ fs) s p m =
        let t = record s { tool_calls = suc s.tool_calls } in
        Adds-none s t (run_frames fs t).0 (usages fs) 1 (tool_calls fs) (suc (tool_calls fs))
          (omega arith) (ground arith) (run_frames-Adds fs t p m)
    run_frames-Adds ((now, stream_reconnected) ∷ fs) s p m = run_frames-Adds fs s p m
    run_frames-Adds ((now, other_frame kind) ∷ fs) s p m = run_frames-Adds fs s p m
    run_frames-Adds ((now, turn_end reason detail cause) ∷ fs) s p m = ground arith
    run_frames-Adds ((now, message raw text) ∷ fs) s p m =
        elim (Option-cases (normalize_usage raw)) [
          | inl e ↦
              let t = push_text text (record s { usage = sum_usage s.usage none }) in
              let first : Adds s t [] 0 = ground (arith, sum_usage_counts s.usage none) in
              rw (e, usages, handle_message, bill)
                (Adds-none s t (run_frames fs t).0 (usages fs) 0 (tool_calls fs) (tool_calls fs)
                  (omega arith) first (run_frames-Adds fs t first.same_provider first.same_model))
          | inr (u, e) ↦
              let billed =
                bill doubles is_weekend table now (some u)
                  (record s { usage = sum_usage s.usage (some u) }) in
              let t = push_text text billed in
              let first = push_text-Adds text s billed ((now, u) ∷ []) (bill-Adds now u s p m) in
              rw (e, usages, handle_message, bill)
                (Adds-trans s t (run_frames fs t).0 (now, u) (usages fs) (tool_calls fs) first
                  (run_frames-Adds fs t first.same_provider first.same_model))
        ]

  -- Over the frames of a turn up to its end: the cost and the peak cost are the sums of the prices of
  -- the responses at their times, and unknown if there was no response or one had no rate; the tokens
  -- are the sums of the responses'; and the tool calls are counted.
  pub turn_bills :
      (provider model : Option String) (fs : List Timed)
      → let t = (run_frames fs (turn_of provider model)).0 in
        (cost_of t ≡ total micro provider model (usages fs))
        × (peak_cost_of t ≡ total peak_micro provider model (usages fs))
        × (is_some t.usage ≡ not (is_empty (usages fs)))
        × (input_of t.usage ≡ sum_by (λ u. u.1.input_tokens) (usages fs))
        × (output_of t.usage ≡ sum_by (λ u. u.1.output_tokens) (usages fs))
        × (t.tool_calls ≡ tool_calls fs)
  turn_bills provider model fs =
      ground (arith, run_frames-Adds provider model fs (turn_of provider model) refl refl)
