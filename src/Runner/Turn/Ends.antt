-- ===== src/Runner/Turn/Ends.antt =====
-- src/runner/turn.ts: repeated calls of `finish`.
use hellodac.Prelude.{
  ◌≡◌, refl, arith, String, true, Option, none, some, List, [], ◌∷◌, ◌++◌, map, ap,
}
use hellodac.Usage.Store.{UsageRecord}
use hellodac.Runner.Turn.{
  TurnState, RunState, failed, RunOutcome, Finish, FinishEnv, Transaction, commits, fails, finish,
  accounting_error,
}

-- The arguments of a call, with the state at its time.
pub record Call : Type 0 where
  pub env : FinishEnv
  pub turn : TurnState
  pub state : RunState
  pub error : Option String

abbrev pub call : Call → Finish → Finish × RunOutcome
call c f = finish c.env c.turn c.state c.error f

-- Calls one after another, with what each returns.
unfoldable pub call_all : List Call → Finish → Finish × List RunOutcome
call_all [] f = (f, [])
call_all (c ∷ cs) f =
    let first = call c f in let rest = call_all cs first.0 in (rest.0, first.1 ∷ rest.1)

-- The ledger row for the usage that an outcome shows.
abbrev pub ledger_rows : FinishEnv → RunOutcome → List UsageRecord
ledger_rows env out = elim out.usage [
  | none ↦ []
  | some u ↦
      record {
        run_id = env.run_id;
        provider = out.provider;
        model = out.model;
        input_tokens = u.input_tokens;
        output_tokens = u.output_tokens;
        cache_read = u.cache_read_tokens;
        cost = out.cost_micro_usd;
        peak_cost = out.peak_cost_micro_usd;
        at = env.now;
      }
      ∷ []
]

-- The state and the error that a call's transaction leads to.
abbrev pub settled : Transaction → RunState → Option String → RunState × Option String
settled commits state error = (state, error)
settled (fails why) state error = (failed, some (accounting_error error why))

pub finish_again :
    (c : Call) (f : Finish) (out : RunOutcome) → f.finished_outcome ≡ some out → call c f ≡ (f, out)
unfolding finish
finish_again c f out e = ground (arith, e)

later_calls :
    (cs : List Call) (f : Finish) (out : RunOutcome)
    → f.finished_outcome ≡ some out
    → call_all cs f ≡ (f, map (λ c. out) cs)
unfolding call_all
later_calls [] f out e = refl
later_calls (c ∷ cs) f out e =
    rw (finish_again c f out e)
      (ap (λ (r : Finish × List RunOutcome). (r.0, out ∷ r.1)) (later_calls cs f out e))

pub first_kept :
    (c : Call) (f : Finish)
    → f.finished_outcome ≡ none
    → (call c f).0.finished_outcome ≡ some (call c f).1
unfolding finish
first_kept c f e = ground (arith, e)

first_decides :
    (c : Call) (cs : List Call) (f : Finish)
    → f.finished_outcome ≡ none
    → call_all (c ∷ cs) f ≡ ((call c f).0, map (λ k. (call c f).1) (c ∷ cs))
unfolding call_all
first_decides c cs f e =
    let first = call c f in
    ap (λ (r : Finish × List RunOutcome). (r.0, first.1 ∷ r.1))
      (later_calls cs first.0 first.1 (first_kept c f e))

-- Of the calls of `finish` for a run the first decides: all return its outcome, and the later ones
-- change nothing. The row of the run gets the outcome's state, error and session, which are failed and
-- an accounting error where the transaction fails. The ledger gets one row for the usage that the
-- outcome shows, at the outcome's costs, or none where it shows none; and the timers are cleared.
pub finish_once :
    (c : Call) (cs : List Call) (f : Finish)
    → f.finished_outcome ≡ none
    → let first = call c f in
      (call_all (c ∷ cs) f ≡ (first.0, map (λ k. first.1) (c ∷ cs)))
      × (first.1.state ≡ (settled c.env.transaction c.state c.error).0)
      × (first.1.error ≡ (settled c.env.transaction c.state c.error).1)
      × (first.0.row.state ≡ first.1.state)
      × (first.0.row.error ≡ first.1.error)
      × (first.0.row.dsh_session_id ≡ first.1.session_id)
      × (first.0.usage_records ≡ ledger_rows c.env first.1 ++ f.usage_records)
      × (first.0.timers_cleared ≡ true)
unfolding finish
finish_once c cs f e = ground (arith, e, first_decides c cs f e)
