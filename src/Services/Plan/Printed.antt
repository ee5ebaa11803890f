-- ===== src/Services/Plan/Printed.antt =====
-- src/services/agents-plan.ts: the endpoint name that is built, read back.
use Prim.Native.Char.{Char, code}
use Prim.Native.String.{String, ◌++◌ as join}
use text.Mathlib.TextLemmas.{nil-append as nil-join, cons-append as cons-join}
use hellodac.Prelude.{
  ℕ, zero, suc, ◌+◌, ◌-◌, ◌*◌, ◌/◌, ◌%◌, ◌<◌, ◌≤◌, ◌≡◌, refl, ap, ◌∙◌, arith, true, none, some, ltb,
  Bool-cases, inl, inr,
}
use hellodac.Services.Plan.{decimal, decimal_from, digit_text, agent_names}
use hellodac.Services.Plan.Endpoint.{
  strip_prefix, split_last, is_dash, digits_after, ordinal_of, is_some_line, with_ordinal,
  parse_split, parse_rest, parse_agent_endpoint,
}

strip_prefix-join : (p s : String) → strip_prefix p (join p s) ≡ some s
unfolding strip_prefix
strip_prefix-join String.[] s = ap some (nil-join s)
strip_prefix-join (String.◌∷◌ c p) s = rw (cons-join c p s) (ground (arith, strip_prefix-join p s))

-- The number that a text of digits spells after others, so that it has no dash.
digits-no_dash : (s : String) (value n : ℕ) → digits_after value s ≡ some n → split_last s ≡ none
unfolding digits_after split_last
digits-no_dash String.[] value n e = refl
digits-no_dash (String.◌∷◌ c s) value n e =
    let rest = digits_after (value * 10 + (code c - 48)) s in
    ground (arith, e, digits-no_dash s (value * 10 + (code c - 48)) n)

ordinal-no_dash : (s : String) (n : ℕ) → ordinal_of s ≡ some n → split_last s ≡ none
unfolding ordinal_of split_last
ordinal-no_dash String.[] n e = cc
ordinal-no_dash (String.◌∷◌ c s) n e = ground (arith, e, digits-no_dash s (code c - 48) n)

after_dash :
    (c : Char) (b : String)
    → is_dash (code c) ≡ true
    → split_last b ≡ none
    → split_last (join (String.◌∷◌ c "") b) ≡ some ("", b)
unfolding split_last
after_dash c b d e = rw (cons-join c "" b, nil-join b) (ground (arith, d, e))

split_last-join :
    (a b : String) → split_last b ≡ none → split_last (join a (join "-" b)) ≡ some (a, b)
unfolding split_last
split_last-join String.[] b e = rw (nil-join (join "-" b)) (after_dash _ b refl e)
split_last-join (String.◌∷◌ c a) b e =
    rw (cons-join c a (join "-" b)) (ground (arith, split_last-join a b e))

digits_after-join :
    (s t : String) (value n : ℕ)
    → digits_after value s ≡ some n
    → digits_after value (join s t) ≡ digits_after n t
unfolding digits_after
digits_after-join String.[] t value n e = rw (nil-join t) (ground (arith, e))
digits_after-join (String.◌∷◌ c s) t value n e =
    rw (cons-join c s t) (ground (arith, e, digits_after-join s t (value * 10 + (code c - 48)) n))

ordinal_of-join :
    (s t : String) (n : ℕ) → ordinal_of s ≡ some n → ordinal_of (join s t) ≡ digits_after n t
unfolding ordinal_of
ordinal_of-join String.[] t n e = cc
ordinal_of-join (String.◌∷◌ c s) t n e =
    rw (cons-join c s t) (ground (arith, e, digits_after-join s t (code c - 48) n))

beyond : (d : ℕ) → suc (suc (suc (suc (suc (suc (suc (suc (suc (suc d))))))))) < 10 → ⊥
beyond d q = omega (arith, q)

-- A property of the digits, one by one.
below_ten :
    (P : ℕ → Type 0)
    → P 0
    → P 1
    → P 2
    → P 3
    → P 4
    → P 5
    → P 6
    → P 7
    → P 8
    → P 9
    → (d : ℕ) → d < 10
    → P d
below_ten P p0 p1 p2 p3 p4 p5 p6 p7 p8 p9 zero q = p0
below_ten P p0 p1 p2 p3 p4 p5 p6 p7 p8 p9 (suc zero) q = p1
below_ten P p0 p1 p2 p3 p4 p5 p6 p7 p8 p9 (suc (suc zero)) q = p2
below_ten P p0 p1 p2 p3 p4 p5 p6 p7 p8 p9 (suc (suc (suc zero))) q = p3
below_ten P p0 p1 p2 p3 p4 p5 p6 p7 p8 p9 (suc (suc (suc (suc zero)))) q = p4
below_ten P p0 p1 p2 p3 p4 p5 p6 p7 p8 p9 (suc (suc (suc (suc (suc zero))))) q = p5
below_ten P p0 p1 p2 p3 p4 p5 p6 p7 p8 p9 (suc (suc (suc (suc (suc (suc zero)))))) q = p6
below_ten P p0 p1 p2 p3 p4 p5 p6 p7 p8 p9 (suc (suc (suc (suc (suc (suc (suc zero))))))) q = p7
below_ten P p0 p1 p2 p3 p4 p5 p6 p7 p8 p9 (suc (suc (suc (suc (suc (suc (suc (suc zero)))))))) q =
    p8
below_ten P p0 p1 p2 p3 p4 p5 p6 p7 p8 p9 (suc (suc (suc (suc (suc (suc (suc (suc (suc zero)))))))))
      q =
    p9
below_ten P p0 p1 p2 p3 p4 p5 p6 p7 p8 p9
      (suc (suc (suc (suc (suc (suc (suc (suc (suc (suc d)))))))))) q =
    elim (beyond d q) [ ]

digit_text-digit :
    (value d : ℕ) → d < 10 → digits_after value (digit_text d) ≡ some (value * 10 + d)
unfolding digits_after
digit_text-digit value =
    below_ten (λ d. digits_after value (digit_text d) ≡ some (value * 10 + d)) refl refl refl refl
      refl refl refl refl refl refl

digit_text-ordinal : (d : ℕ) → d < 10 → 0 < d → ordinal_of (digit_text d) ≡ some d
unfolding ordinal_of digits_after
digit_text-ordinal =
    below_ten (λ d. 0 < d → ordinal_of (digit_text d) ≡ some d) (λ p. ground (arith, p)) (λ p. refl)
      (λ p. refl) (λ p. refl) (λ p. refl) (λ p. refl) (λ p. refl) (λ p. refl) (λ p. refl)
      (λ p. refl)

decimal_from-ordinal : (fuel n : ℕ) → n < fuel → 0 < n → ordinal_of (decimal_from fuel n) ≡ some n
unfolding decimal_from
decimal_from-ordinal zero n l p = ground (arith, l)
decimal_from-ordinal (suc fuel) n l p = elim (Bool-cases (ltb n 10)) [
  | inl e ↦ rw e (digit_text-ordinal n (ground (arith, e)) p)
  | inr e ↦
      let front = decimal_from fuel (n / 10) in
      let big : 10 ≤ n = ground (arith, e) in
      let ih = decimal_from-ordinal fuel (n / 10) (omega (arith, l, big)) (omega (arith, big)) in
      rw e (
        ordinal_of-join front (digit_text (n % 10)) (n / 10) ih
        ∙ digit_text-digit (n / 10) (n % 10) (omega arith)
        ∙ ap some (omega arith))
]

decimal-ordinal : (n : ℕ) → 0 < n → ordinal_of (decimal n) ≡ some n
unfolding decimal
decimal-ordinal n p = decimal_from-ordinal (suc n) n (omega arith) p

-- The endpoint of an agent names its service and its ordinal: parsing it gives them back, for every
-- service whose name is not empty and has no line break, dashes included, and every ordinal from 1 on.
pub parse_agent_endpoint-agent_names :
    (service : String) (ordinal : ℕ)
    → is_some_line service ≡ true
    → 0 < ordinal
    → parse_agent_endpoint (agent_names service ordinal).endpoint_id
      ≡ some (record { service_id = service; ordinal = ordinal })
unfolding parse_agent_endpoint agent_names
parse_agent_endpoint-agent_names service ordinal l p =
    let digits = decimal ordinal in
    let o = decimal-ordinal ordinal p in
    ap parse_rest (strip_prefix-join "svc-" (join service (join "-" digits)))
    ∙ ap parse_split (split_last-join service digits (ordinal-no_dash digits ordinal o))
    ∙ ap (with_ordinal service) o
    ∙ rw l refl
