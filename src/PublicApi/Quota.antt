-- ===== src/PublicApi/Quota.antt =====
-- src/public-api/quota.ts: the check of a key before a dispatch, and what it shows of its usage. The
-- local midnight before a time is an argument.
use hellodac.Prelude.{
  inl, inr, ℕ, suc, ◌+◌, ◌-◌, ◌≡◌, ◌≤◌, arith, String, Bool, true, false, ◌&&◌, Option, none, some,
  ◌∷◌, leb, if◌then◌else◌, count_if, eq_refl, Option-cases,
}
use hellodac.PublicApi.Tables.{Run, Db, is_open, has_text}

abbrev pub day_ms : ℕ
day_ms = 86400000

pub record ApiKey : Type 0 where
  pub id : String
  pub quota_runs_day : Option ℕ
  pub max_concurrency : ℕ

unfoldable pub runs_used_today : Db → String → ℕ → ℕ
runs_used_today db key midnight =
    count_if (λ r. has_text r.api_key_id key && leb midnight r.started_at) db.runs

unfoldable pub active_runs_for_key : Db → String → ℕ
active_runs_for_key db key = count_if (λ r. has_text r.api_key_id key && is_open r.state) db.runs

pub data QuotaVerdict : Type 0 where
  admitted : (used : ℕ) (limit remaining : Option ℕ) (active : ℕ) → QuotaVerdict
  quota_exceeded : (used limit resets_at : ℕ) → QuotaVerdict
  concurrency_exceeded : (active limit : ℕ) → QuotaVerdict

abbrev pub remaining_of : Option ℕ → ℕ → Option ℕ
remaining_of none used = none
remaining_of (some limit) used = some (limit - used)

abbrev pub is_used_up : Option ℕ → ℕ → Bool
is_used_up none used = false
is_used_up (some limit) used = leb limit used

-- The end of `checkRunQuota`, under the daily quota.
abbrev pub check_concurrency : Db → ApiKey → ℕ → QuotaVerdict
check_concurrency db key used =
    let active = active_runs_for_key db key.id in
    if leb key.max_concurrency active
    then concurrency_exceeded active key.max_concurrency
    else admitted used key.quota_runs_day (remaining_of key.quota_runs_day used) active

unfoldable pub check_run_quota : Db → ApiKey → ℕ → QuotaVerdict
check_run_quota db key midnight =
    let used = runs_used_today db key.id midnight in
    elim key.quota_runs_day [
      | none ↦ check_concurrency db key used
      | some limit ↦
          if leb limit used
          then quota_exceeded used limit (midnight + day_ms)
          else check_concurrency db key used
    ]

pub record QuotaSnapshot : Type 0 where
  pub used : ℕ
  pub limit : Option ℕ
  pub remaining : Option ℕ
  pub active : ℕ
  pub resets_at : ℕ

unfoldable pub quota_snapshot : Db → ApiKey → ℕ → QuotaSnapshot
quota_snapshot db key midnight =
    let used = runs_used_today db key.id midnight in
    record {
      used = used;
      limit = key.quota_runs_day;
      remaining = remaining_of key.quota_runs_day used;
      active = active_runs_for_key db key.id;
      resets_at = midnight + day_ms;
    }

-- The row of a dispatch that was admitted.
abbrev pub IsDispatch : ApiKey → ℕ → Run → Type 0
IsDispatch key midnight r =
    (r.api_key_id ≡ some key.id) × (midnight ≤ r.started_at) × (is_open r.state ≡ true)

-- A count under a limit, where there is one.
abbrev pub IsWithin : Option ℕ → ℕ → Type 0
IsWithin none n = Unit
IsWithin (some limit) n = n ≤ limit

counted :
    (db : Db) (key : ApiKey) (midnight : ℕ) (r : Run)
    → IsDispatch key midnight r
    → (runs_used_today (record db { runs = r ∷ db.runs }) key.id midnight
        ≡ suc (runs_used_today db key.id midnight))
      × (active_runs_for_key (record db { runs = r ∷ db.runs }) key.id
          ≡ suc (active_runs_for_key db key.id))
unfolding runs_used_today active_runs_for_key
counted db key midnight r d = ground (arith, eq_refl key.id)

-- After an admitted dispatch of today is written to the ledger, the key is still within its daily
-- quota and within its number of concurrent runs, and what the verdict said to remain is one more
-- than what remains now.
pub check_run_quota_admits :
    (db : Db) (key : ApiKey) (midnight used active : ℕ) (limit remaining : Option ℕ) (r : Run)
    → check_run_quota db key midnight ≡ admitted used limit remaining active
    → IsDispatch key midnight r
    → let later : Db = record db { runs = r ∷ db.runs } in
      IsWithin key.quota_runs_day (runs_used_today later key.id midnight)
      × (active_runs_for_key later key.id ≤ key.max_concurrency)
      × ((quota_snapshot later key midnight).used ≡ used + 1)
      × (remaining ≡ (elim (quota_snapshot later key midnight).remaining [
        | none ↦ none
        | some n ↦ some (n + 1)
      ]))
unfolding check_run_quota quota_snapshot
check_run_quota_admits db key midnight used active limit remaining r e d =
    elim (Option-cases key.quota_runs_day) [
      | inl q ↦ ground (arith, q, e, counted db key midnight r d)
      | inr (n, q) ↦ ground (arith, q, e, counted db key midnight r d)
    ]
