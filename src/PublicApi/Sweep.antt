-- ===== src/PublicApi/Sweep.antt =====
-- src/public-api/idle-sweep.ts: outward conversations that are idle past the window of their service
-- are archived. The rows are those of the table `chat`, with the columns that the sweep uses.
use hellodac.Prelude.{
  ℕ, suc, ◌+◌, ◌*◌, ◌≡◌, refl, arith, String, Bool, true, false, not, ◌&&◌, Option, some, List, [],
  ◌∷◌, ltb, leb, any, map, eq_refl, if◌then◌else◌, or_default, is_some, ◌is◌, eq_iff, Dict,
  dict_get, dict_set, count_if, keep_if, ◌∙◌, sym, Bool-cases, inl, inr, All, All-imp,
}

abbrev pub default_session_idle_hours : ℕ
default_session_idle_hours = 24

abbrev pub hour_ms : ℕ
hour_ms = 3600000

pub record Service : Type 0 where
  pub id : String
  pub session_idle_hours : Option ℕ

pub record Talk : Type 0 where
  pub id : String
  pub service_id : Option String
  pub last_active_at : ℕ
  pub removed_at : Option ℕ

unfoldable pub windows : Dict ℕ → List Service → Dict ℕ
windows d [] = d
windows d (s ∷ ss) =
    windows (dict_set d s.id (or_default s.session_idle_hours default_session_idle_hours * hour_ms))
      ss

abbrev pub window_of : Dict ℕ → Talk → ℕ
window_of d t =
    or_default (dict_get d (or_default t.service_id "")) (default_session_idle_hours * hour_ms)

abbrev pub is_outward : Talk → Bool
is_outward t = not (is_some t.removed_at) && is_some t.service_id

-- `now - lastActiveAt < window`, where a time after now makes the difference negative.
abbrev pub is_fresh : Dict ℕ → ℕ → Talk → Bool
is_fresh d now t = ltb now (t.last_active_at + window_of d t)

unfoldable pub archive : String → ℕ → List Talk → List Talk
archive id now [] = []
archive id now (t ∷ ts) =
    if t.id is id
    then record t { removed_at = some now } ∷ archive id now ts
    else t ∷ archive id now ts

-- The loop over the selected rows, with the table and the count.
unfoldable pub sweep_rows : Dict ℕ → ℕ → List Talk → List Talk → List Talk × ℕ
sweep_rows d now [] table = (table, 0)
sweep_rows d now (t ∷ ts) table =
    let kept = sweep_rows d now ts table in
    let swept = sweep_rows d now ts (archive t.id now table) in
    if is_fresh d now t then kept else (swept.0, suc swept.1)

unfoldable pub sweep_idle_conversations : List Service → ℕ → List Talk → List Talk × ℕ
unfolding sweep_rows windows
sweep_idle_conversations services now table =
    sweep_rows (windows [] services) now (keep_if is_outward table) table

-- An outward conversation that is not removed and is idle past its window.
abbrev pub is_due : Dict ℕ → ℕ → Talk → Bool
is_due d now t = is_outward t && leb (t.last_active_at + window_of d t) now

rows_count :
    (d : Dict ℕ) (now : ℕ) (todo table : List Talk)
    → (sweep_rows d now todo table).1 ≡ count_if (λ t. not (is_fresh d now t)) todo
unfolding sweep_rows
rows_count d now [] table = refl
rows_count d now (t ∷ ts) table =
    ground (arith, rows_count d now ts table, rows_count d now ts (archive t.id now table))

count-keep_if :
    (p q : Talk → Bool) (ts : List Talk) → count_if q (keep_if p ts) ≡ count_if (λ t. p t && q t) ts
count-keep_if p q [] = refl
count-keep_if p q (t ∷ ts) = ground (arith, count-keep_if p q ts)

count-due :
    (d : Dict ℕ) (now : ℕ) (ts : List Talk)
    → count_if (λ t. is_outward t && not (is_fresh d now t)) ts ≡ count_if (is_due d now) ts
count-due d now [] = refl
count-due d now (t ∷ ts) = ground (arith, count-due d now ts)

-- What a sweep should make of a row.
abbrev pub swept : Dict ℕ → ℕ → Talk → Talk
swept d now t = if is_due d now t then record t { removed_at = some now } else t

-- The ids are the keys of the table.
abbrev pub DistinctIds : List Talk → Type 0
DistinctIds [] = Unit
DistinctIds (t ∷ ts) = All (λ (q : Talk). (q.id is t.id) ≡ false) ts × DistinctIds ts

-- A row of the walk that has this id is not fresh.
abbrev hits : Dict ℕ → ℕ → List Talk → Talk → Bool
hits d now todo t = any (λ r. (t.id is r.id) && not (is_fresh d now r)) todo

abbrev hit : Dict ℕ → ℕ → List Talk → Talk → Talk
hit d now todo t = if hits d now todo t then record t { removed_at = some now } else t

map-All : (f g : Talk → Talk) (ts : List Talk) → All (λ t. f t ≡ g t) ts → map f ts ≡ map g ts
map-All f g [] h = refl
map-All f g (t ∷ ts) h = ground (arith, h.0, map-All f g ts h.1)

map-same : (ts : List Talk) → map (λ t. t) ts ≡ ts
map-same [] = refl
map-same (t ∷ ts) = ground (arith, map-same ts)

archive-map :
    (d : Dict ℕ) (now : ℕ) (r : Talk) (todo ts : List Talk)
    → is_fresh d now r ≡ false
    → map (hit d now todo) (archive r.id now ts) ≡ map (hit d now (r ∷ todo)) ts
unfolding archive
archive-map d now r todo [] f = refl
archive-map d now r todo (t ∷ ts) f = ground (arith, f, archive-map d now r todo ts f)

fresh-map :
    (d : Dict ℕ) (now : ℕ) (r : Talk) (todo ts : List Talk)
    → is_fresh d now r ≡ true
    → map (hit d now todo) ts ≡ map (hit d now (r ∷ todo)) ts
fresh-map d now r todo [] f = refl
fresh-map d now r todo (t ∷ ts) f = ground (arith, f, fresh-map d now r todo ts f)

rows_table :
    (d : Dict ℕ) (now : ℕ) (todo table : List Talk)
    → (sweep_rows d now todo table).0 ≡ map (hit d now todo) table
unfolding sweep_rows
rows_table d now [] table = sym (map-same table)
rows_table d now (r ∷ todo) table = elim (Bool-cases (is_fresh d now r)) [
  | inl f ↦ rw f (rows_table d now todo table ∙ fresh-map d now r todo table f)
  | inr f ↦ rw f (rows_table d now todo (archive r.id now table) ∙ archive-map d now r todo table f)
]

hits-other :
    (d : Dict ℕ) (now : ℕ) (t : Talk) (ts : List Talk)
    → All (λ (q : Talk). (q.id is t.id) ≡ false) ts
    → hits d now (keep_if is_outward ts) t ≡ false
hits-other d now t [] h = refl
hits-other d now t (x ∷ ts) h =
    ground (arith, h.0, eq_iff x.id t.id, eq_iff t.id x.id, hits-other d now t ts h.1)

hits-later :
    (d : Dict ℕ) (now : ℕ) (x : Talk) (ts rest : List Talk)
    → All (λ (q : Talk). (q.id is x.id) ≡ false) rest
    → All (λ t. hits d now (keep_if is_outward ts) t ≡ is_due d now t) rest
    → All (λ t. hits d now (keep_if is_outward (x ∷ ts)) t ≡ is_due d now t) rest
hits-later d now x ts [] h k = tt
hits-later d now x ts (t ∷ rest) h k =
    (ground (arith, h.0, k.0), hits-later d now x ts rest h.1 k.1)

hits-due :
    (d : Dict ℕ) (now : ℕ) (ts : List Talk)
    → DistinctIds ts
    → All (λ t. hits d now (keep_if is_outward ts) t ≡ is_due d now t) ts
hits-due d now [] h = tt
hits-due d now (x ∷ ts) h = (
  ground (arith, eq_refl x.id, hits-other d now x ts h.0),
  hits-later d now x ts ts h.0 (hits-due d now ts h.1),
)

-- In a table whose ids are distinct, a sweep archives the outward conversations that are not removed
-- and are idle past the window of their service, now, and keeps every other row and the order as they
-- are; it returns how many it archived.
pub sweep_settles :
    (services : List Service) (now : ℕ) (table : List Talk)
    → DistinctIds table
    → let d = windows [] services in
      let out = sweep_idle_conversations services now table in
      (out.0 ≡ map (swept d now) table) × (out.1 ≡ count_if (is_due d now) table)
unfolding sweep_idle_conversations
sweep_settles services now table distinct =
    let d = windows [] services in
    let todo = keep_if is_outward table in
    (
      rows_table d now todo table
          ∙ map-All (hit d now todo) (swept d now) table (
              All-imp (λ t. hits d now todo t ≡ is_due d now t)
                (λ t. hit d now todo t ≡ swept d now t) (λ t e. rw e refl) table
                (hits-due d now table distinct)),
      rows_count d now todo table
          ∙ count-keep_if is_outward (λ t. not (is_fresh d now t)) table
          ∙ count-due d now table,
    )
