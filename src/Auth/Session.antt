-- ===== src/Auth/Session.antt =====
-- src/auth/session.ts: the sessions of browsers. The digest of a token (SHA-256) is a parameter, and
-- the drawn token is an argument.
use hellodac.Prelude.{
  ℕ, ◌+◌, String, Bool, not, Option, none, some, List, [], ◌∷◌, ◌++◌, if◌then◌else◌, ◌is◌, ltb, leb,
  ◌==◌, keep_if, count_if, find_if,
}

-- 30 * 24 * 60 * 60 * 1000
abbrev pub ttl_ms : ℕ
ttl_ms = 2592000000

pub record SessionRow : Type 0 where
  pub id : String
  pub user_id : ℕ
  pub expires_at : ℕ
  pub created_at : ℕ

pub record UserRow : Type 0 where
  pub id : ℕ
  pub username : String
  pub must_change_password : ℕ

pub record SessionUser : Type 0 where
  pub id : ℕ
  pub username : String
  pub must_change_password : Bool

pub record Db : Type 0 where
  pub sessions : List SessionRow
  pub users : List UserRow

abbrev pub is_session : String → SessionRow → Bool
is_session id r = r.id is id

abbrev pub user_of : List UserRow → ℕ → Option UserRow
user_of users id = find_if (λ u. u.id == id) users

-- The first row of the inner join.
unfoldable pub joined : String → List UserRow → List SessionRow → Option (SessionRow × UserRow)
joined id users [] = none
joined id users (r ∷ rows) =
    let rest = joined id users rows in
    if is_session id r
    then elim (user_of users r.user_id) [ none ↦ rest | some u ↦ some (r, u) ]
    else rest

abbrev pub delete_session : String → Db → Db
delete_session id db = record db { sessions = keep_if (λ r. not (is_session id r)) db.sessions }

abbrev pub session_user : UserRow → SessionUser
session_user u = record {
  id = u.id;
  username = u.username;
  must_change_password = u.must_change_password == 1;
}

-- The user of a row, unless it has expired; then the row is deleted.
abbrev pub checked : ℕ → String → Option (SessionRow × UserRow) → Db → Db × Option SessionUser
checked now id none db = (db, none)
checked now id (some (r, u)) db =
    if leb r.expires_at now then (delete_session id db, none) else (db, some (session_user u))

-- A token that is absent or empty.
abbrev pub token_text : Option String → Option String
token_text none = none
token_text (some t) = if t is "" then none else some t

module _ (digest : String → String) where
  unfoldable pub issue_session : ℕ → String → ℕ → Db → Db
  issue_session now token user_id db = record db {
    sessions =
        db.sessions
        ++ record {
          id = digest token;
          user_id = user_id;
          expires_at = now + ttl_ms;
          created_at = now;
        }
          ∷ [];
  }

  unfoldable pub resolve_session : ℕ → Option String → Db → Db × Option SessionUser
  unfolding joined
  resolve_session now token db = elim (token_text token) [
    | none ↦ (db, none)
    | some t ↦ checked now (digest t) (joined (digest t) db.users db.sessions) db
  ]

  unfoldable pub revoke_session : Option String → Db → Db
  revoke_session token db = elim (token_text token) [
    | none ↦ db
    | some t ↦ delete_session (digest t) db
  ]

unfoldable pub prune_expired_sessions : ℕ → Db → Db × ℕ
prune_expired_sessions now db = (
  record db { sessions = keep_if (λ r. not (ltb r.expires_at now)) db.sessions },
  count_if (λ r. ltb r.expires_at now) db.sessions,
)

unfoldable pub revoke_all_for_user : ℕ → Db → Db
revoke_all_for_user user_id db = record db {
  sessions = keep_if (λ r. not (r.user_id == user_id)) db.sessions;
}
