-- ===== src/Auth/Tests.antt =====
-- One user with one fresh session, beside that of another.
use hellodac.Prelude.{◌+◌, ◌≡◌, refl, arith, String, some, none, List, [], ◌∷◌, eq_iff}
use hellodac.Auth.Session.{ttl_ms, UserRow, Db, session_user, resolve_session}
use hellodac.Auth.Rows.{row_in}
use hellodac.Auth.Lifetime.{Op, issues, resolves, revokes, prunes, revokes_all, run, effect, issued}
use hellodac.Auth.Revoked.{session_stands}

abbrev plain_digest : String → String
plain_digest token = token

abbrev alice : UserRow
alice = record { id = 1; username = "alice"; must_change_password = 0 }

abbrev db : Db
db = record {
  sessions = record { id = "old"; user_id = 2; expires_at = 7; created_at = 1 } ∷ [];
  users = alice ∷ [];
}

abbrev day : List Op
day =
    resolves 20 (some "tok")
    ∷ revokes (some "old")
    ∷ issues 30 "other" 2
    ∷ prunes 40
    ∷ revokes_all 2
    ∷ []

session_stands_example :
    let after = run plain_digest day (issued plain_digest 10 "tok" 1 db) in
    let revoked =
      run plain_digest
        (issues 60 "new" 1 ∷ [])
        (effect plain_digest (revokes (some "tok")) after) in
    (resolve_session plain_digest 50 (some "tok") after ≡ (after, some (session_user alice)))
    × ((resolve_session plain_digest (10 + ttl_ms) (some "tok") after).1 ≡ none)
    × (row_in "tok" (resolve_session plain_digest (10 + ttl_ms) (some "tok") after).0.sessions
        ≡ none)
    × (resolve_session plain_digest 70 (some "tok") revoked ≡ (revoked, none))
session_stands_example =
    session_stands plain_digest (λ (a : String) (b : String) (e : a ≡ b). e) 10 "tok" 1 alice day
      (issues 60 "new" 1 ∷ []) (revokes (some "tok")) 50 (10 + ttl_ms) 70 db
      (ground (arith, eq_iff "tok" "")) refl refl (refl, (refl, (refl, (refl, (refl, tt))))) refl
      (refl, tt) (omega arith) (omega arith)
