-- ===== src/Runner/Pricing.antt =====
-- src/pricing.ts: what a response costs at the time it arrives. The arithmetic of the rates is on
-- doubles and is a parameter, as is the weekday in a time zone, which `Intl` tells.
use Prim.Native.String.{◌++◌ as join}
use hellodac.Prelude.{
  ℕ, ◌+◌, ◌-◌, ◌/◌, ◌%◌, ◌<◌, ◌≡◌, ◌↔◌, arith, String, Bool, true, false, not, ◌&&◌, ◌||◌, Option,
  none, some, List, ltb, leb, if◌then◌else◌, or_default, any, ◌is◌, Dict, dict_get,
}
use hellodac.Runner.Frames.{TokenUsage}

-- The doubles, with `Math.round` of a positive one.
pub record Doubles : Type 1 where
  pub Num : Type 0
  pub of_ℕ : ℕ → Num
  pub add : Num → Num → Num
  pub mul : Num → Num → Num
  pub div : Num → Num → Num
  pub round : Num → ℕ

pub record PeakWindow : Type 0 where
  pub start_minute_utc : ℕ
  pub end_minute_utc : ℕ

abbrev pub day_minutes : ℕ
day_minutes = 1440

abbrev pub per_million : ℕ
per_million = 1000000

-- `getUTCHours() * 60 + getUTCMinutes()`.
abbrev pub minute_of : ℕ → ℕ
minute_of at = at / 60000 % day_minutes

abbrev pub in_window : ℕ → PeakWindow → Bool
in_window minute w =
    if leb w.start_minute_utc w.end_minute_utc
    then leb w.start_minute_utc minute && ltb minute w.end_minute_utc
    else leb w.start_minute_utc minute || ltb minute w.end_minute_utc

unfoldable pub is_peak : ℕ → List PeakWindow → Bool
is_peak at windows = any (in_window (minute_of at)) windows

module _ (doubles : Doubles) where
  open doubles use {Num, of_ℕ, add, mul, div, round}

  pub record Rate : Type 0 where
    pub input : Num
    pub output : Num
    pub cache_read : Option Num
    pub cache_write : Option Num

  pub record ModelPricing : Type 0 where
    pub off_peak : Rate
    pub peak : Option Rate

  pub record PricingTable : Type 0 where
    pub rates : Dict ModelPricing
    pub peak_windows : List PeakWindow
    pub weekends_off_peak : Bool
    pub pricing_time_zone : String

  pub record CostBreakdown : Type 0 where
    pub micro_usd : ℕ
    pub peak : Bool

  abbrev pub is_text : Option String → Bool
  is_text none = false
  is_text (some s) = not (s is "")

  -- The exact key `provider/model`, where there is a provider.
  abbrev pub find_exact : Option String → String → Dict ModelPricing → Option ModelPricing
  find_exact none model rates = none
  find_exact (some provider) model rates =
      if provider is "" then none else dict_get rates (join provider (join "/" model))

  unfoldable pub find_pricing :
      Option String → Option String → Dict ModelPricing → Option ModelPricing
  find_pricing provider none rates = none
  find_pricing provider (some model) rates =
      if model is "" then none else elim (find_exact provider model rates) [
        | some exact ↦ some exact
        | none ↦ dict_get rates model
      ]

  abbrev pub priced : ℕ → Num → Num
  priced tokens rate = div (mul (of_ℕ tokens) rate) (of_ℕ per_million)

  unfoldable pub usd : TokenUsage → Rate → Num
  usd u r =
      add
        (add (add (priced u.input_tokens r.input) (priced u.output_tokens r.output))
          (priced (or_default u.cache_read_tokens 0) (or_default r.cache_read r.input)))
        (priced (or_default u.cache_write_tokens 0) (or_default r.cache_write r.input))

  abbrev pub charge : TokenUsage → Bool → Rate → CostBreakdown
  charge u peak r = record { micro_usd = round (mul (usd u r) (of_ℕ per_million)); peak = peak }

  -- Whether the peak windows apply at a time.
  abbrev pub is_peak_time : (ℕ → String → Bool) → ℕ → PricingTable → Bool
  is_peak_time is_weekend at table =
      is_peak at table.peak_windows
      && not (table.weekends_off_peak && is_weekend at table.pricing_time_zone)

  abbrev pub charge_model : TokenUsage → Bool → ModelPricing → CostBreakdown
  charge_model u peak_time p = elim p.peak [
    | none ↦ charge u false p.off_peak
    | some peak_rate ↦ if peak_time then charge u true peak_rate else charge u false p.off_peak
  ]

  unfoldable pub compute_cost :
      (ℕ → String → Bool)
      → Option TokenUsage
      → Option String
      → Option String
      → ℕ
      → PricingTable
      → Option CostBreakdown
  compute_cost is_weekend none provider model at table = none
  compute_cost is_weekend (some u) provider model at table =
      elim (find_pricing provider model table.rates) [
        | none ↦ none
        | some p ↦ some (charge_model u (is_peak_time is_weekend at table) p)
      ]

-- A window is the stretch of minutes from its start to its end round the clock: a minute lies in it
-- exactly if it is fewer minutes after the start than the end is, counted modulo a day.
in_window_clock :
    (minute start end : ℕ)
    → minute < day_minutes
    → start < day_minutes
    → end < day_minutes
    → (in_window minute (record { start_minute_utc = start; end_minute_utc = end }) ≡ true)
      ↔ ((minute + day_minutes - start) % day_minutes < (end + day_minutes - start) % day_minutes)
in_window_clock minute start end m s e = ground arith
