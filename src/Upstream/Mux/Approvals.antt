-- ===== src/Upstream/Mux/Approvals.antt =====
-- src/upstream/mux.ts: the request of an approval and its resolution name one decision.
use hellodac.Prelude.{
  ℕ, ◌≡◌, refl, ◌∙◌, arith, Bool, true, not, Option, none, some, List, [], ◌∷◌, String, dict_get,
  dict_get-dict_set, dict_get-dict_delete, ◌is◌, All, eq_refl,
}
use hellodac.Upstream.Frames.{
  MuxFrame, session_event, session_projection, question_requested, question_resolved,
  approval_requested, approval_resolved, approval_pending_frame, approval_resolved_frame,
}
use hellodac.Upstream.Mux.State.{Mux, emit}
use hellodac.Upstream.Mux.Wire.{dispatch}

-- A frame that is about another approval, or none.
abbrev pub leaves : String → MuxFrame → Bool
leaves approval (approval_requested s a t r) = not (a is approval)
leaves approval (approval_resolved s a o) = not (a is approval)
leaves approval _ = true

-- Frames of one connection, each with its RPC identifier.
unfoldable pub dispatch_all : ℕ → List (String × MuxFrame) → Mux → Mux
dispatch_all c [] m = m
dispatch_all c ((rpc, frame) ∷ frames) m = dispatch_all c frames (dispatch c rpc frame m).0

abbrev pub decision_of : ℕ → String → Mux → Option String
decision_of c approval m = dict_get (m.conns c).approval_rpc_ids approval

dispatch-leaves :
    (c : ℕ) (approval rpc : String) (frame : MuxFrame) (m : Mux)
    → leaves approval frame ≡ true
    → decision_of c approval (dispatch c rpc frame m).0 ≡ decision_of c approval m
unfolding dispatch
dispatch-leaves c approval rpc (session_event session none) m e = refl
dispatch-leaves c approval rpc (session_event session (some event)) m e = refl
dispatch-leaves c approval rpc (session_projection session key seq goal) m e = refl
dispatch-leaves c approval rpc (question_requested session questions) m e = refl
dispatch-leaves c approval rpc (question_resolved session question outcome) m e = refl
dispatch-leaves c approval rpc (approval_requested session other tool reason) m e =
    ground (arith, e, dict_get-dict_set (m.conns c).approval_rpc_ids other approval rpc)
dispatch-leaves c approval rpc (approval_resolved session other outcome) m e =
    ground (arith, e, dict_get-dict_delete (m.conns c).approval_rpc_ids other approval)

dispatch_all-leaves :
    (c : ℕ) (approval : String) (frames : List (String × MuxFrame)) (m : Mux)
    → All (λ f. leaves approval f.1 ≡ true) frames
    → decision_of c approval (dispatch_all c frames m) ≡ decision_of c approval m
unfolding dispatch_all
dispatch_all-leaves c approval [] m all = refl
dispatch_all-leaves c approval ((rpc, frame) ∷ frames) m (e, all) =
    dispatch_all-leaves c approval frames (dispatch c rpc frame m).0 all
    ∙ dispatch-leaves c approval rpc frame m e

asked_decision :
    (c : ℕ) (rpc s approval tool : String) (reason : Option String) (m : Mux)
    → decision_of c approval (dispatch c rpc (approval_requested s approval tool reason) m).0
      ≡ some rpc
unfolding dispatch
asked_decision c rpc s approval tool reason m =
    ground (
      arith,
      eq_refl approval,
      dict_get-dict_set (m.conns c).approval_rpc_ids approval approval rpc,
    )

resolved_decision :
    (c : ℕ) (rpc late t approval outcome : String) (m : Mux)
    → decision_of c approval m ≡ some rpc
    → let decided = dispatch c late (approval_resolved t approval outcome) m in
      (decided.1 ≡ emit c t (approval_resolved_frame (some rpc) approval outcome) m)
      × (decision_of c approval decided.0 ≡ none)
unfolding dispatch emit
resolved_decision c rpc late t approval outcome m e = ground (
  arith,
  e,
  eq_refl approval,
  dict_get-dict_delete (m.conns c).approval_rpc_ids approval approval,
)

asked_frame :
    (c : ℕ) (rpc s approval tool : String) (reason : Option String) (m : Mux)
    → (dispatch c rpc (approval_requested s approval tool reason) m).1
      ≡ emit c s (approval_pending_frame rpc approval tool reason) m
unfolding dispatch emit
asked_frame c rpc s approval tool reason m = ground arith

-- The request of an approval is handed out under its RPC identifier, and so is its resolution, whatever
-- frames about other approvals lie between; afterwards the connection has forgotten the approval, so
-- that a second resolution names no decision.
pub approval_round_trip :
    (c : ℕ) (rpc late s t approval tool outcome : String) (reason : Option String)
    (frames : List (String × MuxFrame)) (m : Mux)
    → All (λ f. leaves approval f.1 ≡ true) frames
    → let asked = dispatch c rpc (approval_requested s approval tool reason) m in
      let waited = dispatch_all c frames asked.0 in
      let decided = dispatch c late (approval_resolved t approval outcome) waited in
      (asked.1 ≡ emit c s (approval_pending_frame rpc approval tool reason) m)
      × (decided.1 ≡ emit c t (approval_resolved_frame (some rpc) approval outcome) waited)
      × (decision_of c approval decided.0 ≡ none)
approval_round_trip c rpc late s t approval tool outcome reason frames m all =
    let asked = dispatch c rpc (approval_requested s approval tool reason) m in
    let waited = dispatch_all c frames asked.0 in
    let found =
      dispatch_all-leaves c approval frames asked.0 all
      ∙ asked_decision c rpc s approval tool reason m in
    let decided = resolved_decision c rpc late t approval outcome waited found in
    (asked_frame c rpc s approval tool reason m, decided.0, decided.1)
