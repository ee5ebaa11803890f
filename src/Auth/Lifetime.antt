-- ===== src/Auth/Lifetime.antt =====
-- src/auth/session.ts: how long a token stands for its user.
use hellodac.Prelude.{
  ℕ, ◌+◌, ◌<◌, ◌≤◌, ◌≡◌, ◌≢◌, refl, ap, ◌∙◌, arith, String, Bool, true, false, not, Option, none,
  some, List, [], ◌∷◌, ◌is◌, ltb, leb, ◌==◌, keep_if, All, eq_iff, eq_refl, Option-cases,
  Bool-cases, inl, inr,
}
use hellodac.Auth.Session.{
  ttl_ms, SessionRow, UserRow, Db, is_session, user_of, joined, session_user, checked, token_text,
  issue_session, resolve_session, revoke_session, prune_expired_sessions, revoke_all_for_user,
}
use hellodac.Auth.Rows.{
  row_in, row_in-append, row_in-keep_if, row_in-fresh, row_in-delete, joined-row_in,
}

pub data Op : Type 0 where
  issues : (now : ℕ) (token : String) (user_id : ℕ) → Op
  resolves : (now : ℕ) (token : Option String) → Op
  revokes : (token : Option String) → Op
  prunes : (now : ℕ) → Op
  revokes_all : (user_id : ℕ) → Op

-- An operation that neither ends the session of the token nor draws its token again, and comes before
-- its expiry.
abbrev pub spares : String → ℕ → ℕ → Op → Bool
spares token user expires (issues now other u) = not (other is token)
spares token user expires (resolves now other) = ltb now expires
spares token user expires (revokes none) = true
spares token user expires (revokes (some other)) = not (other is token)
spares token user expires (prunes now) = leb now expires
spares token user expires (revokes_all u) = not (u == user)

module _ (digest : String → String) where
  abbrev pub effect : Op → Db → Db
  effect (issues now token user) db = issue_session digest now token user db
  effect (resolves now token) db = (resolve_session digest now token db).0
  effect (revokes token) db = revoke_session digest token db
  effect (prunes now) db = (prune_expired_sessions now db).0
  effect (revokes_all user) db = revoke_all_for_user user db

  unfoldable pub run : List Op → Db → Db
  run [] db = db
  run (op ∷ ops) db = run ops (effect op db)

  abbrev pub issued_row : ℕ → String → ℕ → SessionRow
  issued_row at token user = record {
    id = digest token;
    user_id = user;
    expires_at = at + ttl_ms;
    created_at = at;
  }

  -- The row of the token is there, and so is its user.
  record Valid (at : ℕ) (token : String) (user : ℕ) (u : UserRow) (db : Db) : Type 0 where
    stored : row_in (digest token) db.sessions ≡ some (issued_row at token user)
    known : user_of db.users user ≡ some u

  abbrev pub issued : ℕ → String → ℕ → Db → Db
  issued at token user db = issue_session digest at token user db

  module _ (injective : (a b : String) → digest a ≡ digest b → a ≡ b) where
    other_digest : (a b : String) → (a is b) ≡ false → (digest a is digest b) ≡ false
    other_digest a b e = ground (arith, e, eq_iff a b, eq_iff (digest a) (digest b), injective a b)

    module _ (at : ℕ) (token : String) (user : ℕ) (u : UserRow) where
      keep-Valid :
          (p : SessionRow → Bool) (db : Db)
          → p (issued_row at token user) ≡ true
          → Valid at token user u db
          → Valid at token user u (record db { sessions = keep_if p db.sessions })
      keep-Valid p db k v = record {
        stored = row_in-keep_if (digest token) p db.sessions (issued_row at token user) v.stored k;
        known = v.known;
      }

      checked-Valid :
          (now : ℕ) (id : String) (found : Option (SessionRow × UserRow)) (db : Db)
          → (digest token is id) ≡ false
          → Valid at token user u db
          → Valid at token user u (checked now id found db).0
      checked-Valid now id none db e v = v
      checked-Valid now id (some (r, w)) db e v = elim (Bool-cases (leb r.expires_at now)) [
        | inl q ↦ rw q (keep-Valid (λ (s : SessionRow). not (is_session id s)) db (ap not e) v)
        | inr q ↦ rw q v
      ]

      resolve-Valid :
          (now : ℕ) (other : Option String) (db : Db)
          → now < at + ttl_ms
          → Valid at token user u db
          → Valid at token user u (resolve_session digest now other db).0
      unfolding resolve_session
      resolve-Valid now other db l v = elim (Option-cases (token_text other)) [
        | inl e ↦ rw (e, resolve_session) v
        | inr (t, e) ↦ elim (Bool-cases (digest token is digest t)) [
          | inl q ↦
              let same : digest t ≡ digest token =
                ground (arith, q, eq_iff (digest token) (digest t)) in
              let found =
                joined-row_in (digest token) db.users db.sessions (issued_row at token user) u
                  v.stored v.known in
              let early : leb (at + ttl_ms) now ≡ false = ground (arith, l) in
              rw (e, resolve_session, same, found, early) v
          | inr q ↦
              rw (e, resolve_session)
                (checked-Valid now (digest t) (joined (digest t) db.users db.sessions) db q v)
        ]
      ]

      revoke-Valid :
          (other : Option String) (db : Db)
          → spares token user (at + ttl_ms) (revokes other) ≡ true
          → Valid at token user u db
          → Valid at token user u (revoke_session digest other db)
      unfolding revoke_session
      revoke-Valid none db s v = v
      revoke-Valid (some t) db s v = elim (Bool-cases (t is "")) [
        | inl e ↦ rw (e, revoke_session) v
        | inr e ↦
            rw (e, revoke_session)
              (keep-Valid (λ (r : SessionRow). not (is_session (digest t) r)) db
                (ap not (other_digest token t (ground (arith, s, eq_iff t token, eq_iff token t))))
                v)
      ]

      effect-Valid :
          (op : Op) (db : Db)
          → spares token user (at + ttl_ms) op ≡ true
          → Valid at token user u db
          → Valid at token user u (effect op db)
      unfolding issue_session prune_expired_sessions revoke_all_for_user
      effect-Valid (issues now other w) db s v = record {
        stored =
            row_in-append (digest token) db.sessions (issued_row now other w)
              (other_digest other token (ground (arith, s)))
            ∙ v.stored;
        known = v.known;
      }
      effect-Valid (resolves now other) db s v = resolve-Valid now other db (ground (arith, s)) v
      effect-Valid (revokes other) db s v = revoke-Valid other db s v
      effect-Valid (prunes now) db s v =
          keep-Valid (λ (r : SessionRow). not (ltb r.expires_at now)) db (ground (arith, s)) v
      effect-Valid (revokes_all w) db s v =
          keep-Valid (λ (r : SessionRow). not (r.user_id == w)) db (ground (arith, s)) v

      run-Valid :
          (ops : List Op) (db : Db)
          → All (λ op. spares token user (at + ttl_ms) op ≡ true) ops
          → Valid at token user u db
          → Valid at token user u (run ops db)
      unfolding run
      run-Valid [] db s v = v
      run-Valid (op ∷ ops) db (s, all) v = run-Valid ops (effect op db) all (effect-Valid op db s v)

      issued-Valid :
          (db : Db)
          → row_in (digest token) db.sessions ≡ none
          → user_of db.users user ≡ some u
          → Valid at token user u (issued at token user db)
      unfolding issue_session
      issued-Valid db fresh k = record {
        stored =
            row_in-fresh (digest token) db.sessions (issued_row at token user) fresh
              (eq_refl (digest token));
        known = k;
      }

      -- A fresh token that is issued to a user who exists, with a digest that no two tokens share, after
      -- any operations that neither revoke it or all of its user, nor draw it again, nor come after its
      -- expiry: it stands for that user before its expiry, and the database is unchanged by the question;
      -- from its expiry on it stands for nobody, and its row is gone.
      pub session_lives :
          (ops : List Op) (now late : ℕ) (db : Db)
          → token ≢ ""
          → row_in (digest token) db.sessions ≡ none
          → user_of db.users user ≡ some u
          → All (λ op. spares token user (at + ttl_ms) op ≡ true) ops
          → now < at + ttl_ms
          → at + ttl_ms ≤ late
          → let after = run ops (issued at token user db) in
            (resolve_session digest now (some token) after ≡ (after, some (session_user u)))
            × ((resolve_session digest late (some token) after).1 ≡ none)
            × (row_in (digest token) (resolve_session digest late (some token) after).0.sessions
                ≡ none)
      unfolding resolve_session
      session_lives ops now late db ne fresh k all l g =
          let after = run ops (issued at token user db) in
          let v = run-Valid ops (issued at token user db) all (issued-Valid db fresh k) in
          let found =
            joined-row_in (digest token) after.users after.sessions (issued_row at token user) u
              v.stored v.known in
          let text : (token is "") ≡ false = ground (arith, ne, eq_iff token "") in
          let early : leb (at + ttl_ms) now ≡ false = ground (arith, l) in
          let over : leb (at + ttl_ms) late ≡ true = ground (arith, g) in
          (
            rw (text, resolve_session, found, early) refl,
            rw (text, resolve_session, found, over) refl,
            rw (text, resolve_session, found, over) (row_in-delete (digest token) after.sessions),
          )
