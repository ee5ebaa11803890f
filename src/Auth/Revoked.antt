-- ===== src/Auth/Revoked.antt =====
-- src/auth/session.ts: a token before and after its session is revoked.
use mathlib.Core.Path.{subst}
use hellodac.Prelude.{
  ℕ, ◌+◌, ◌<◌, ◌≤◌, ◌≡◌, ◌≢◌, refl, arith, String, Bool, true, false, not, Option, none, some, List,
  [], ◌∷◌, ◌++◌, ◌is◌, ltb, leb, ◌==◌, keep_if, All, eq_iff, Option-cases, Bool-cases, inl, inr,
}
use hellodac.Auth.Session.{
  ttl_ms, SessionRow, UserRow, Db, is_session, user_of, joined, session_user, checked, token_text,
  issue_session, resolve_session, revoke_session, prune_expired_sessions, revoke_all_for_user,
}
use hellodac.Auth.Rows.{row_in, row_in-append, row_in-delete}
use hellodac.Auth.Lifetime.{
  Op, issues, resolves, revokes, prunes, revokes_all, spares, effect, run, issued, session_lives,
}

-- An operation that ends the session of the token, and one that draws the token.
abbrev pub ends_session : String → ℕ → Op → Bool
ends_session token user (revokes (some other)) = other is token
ends_session token user (revokes_all u) = u == user
ends_session token user op = false

abbrev pub draws : String → Op → Bool
draws token (issues now other u) = other is token
draws token op = false

row_in-keep_none :
    (id : String) (p : SessionRow → Bool) (rows : List SessionRow)
    → row_in id rows ≡ none
    → row_in id (keep_if p rows) ≡ none
row_in-keep_none id p [] e = refl
row_in-keep_none id p (x ∷ rows) e = ground (arith, e, row_in-keep_none id p rows)

joined-none :
    (id : String) (users : List UserRow) (rows : List SessionRow)
    → row_in id rows ≡ none
    → joined id users rows ≡ none
unfolding joined
joined-none id users [] e = refl
joined-none id users (x ∷ rows) e = ground (arith, e, joined-none id users rows)

-- Every row with this id is of this user.
Owned : String → ℕ → List SessionRow → Type 0
Owned id user rows =
    All (λ (r : SessionRow). is_session id r ≡ true → (r.user_id == user) ≡ true) rows

absent-Owned :
    (id : String) (user : ℕ) (rows : List SessionRow) → row_in id rows ≡ none → Owned id user rows
unfolding Owned
absent-Owned id user [] e = tt
absent-Owned id user (x ∷ rows) e =
    ((λ k. ground (arith, e, k)), absent-Owned id user rows (ground (arith, e)))

keep_if-Owned :
    (id : String) (user : ℕ) (p : SessionRow → Bool) (rows : List SessionRow)
    → Owned id user rows
    → Owned id user (keep_if p rows)
unfolding Owned
keep_if-Owned id user p [] h = tt
keep_if-Owned id user p (x ∷ rows) h = elim (Bool-cases (p x)) [
  | inl e ↦ rw e (h.0, keep_if-Owned id user p rows h.1)
  | inr e ↦ rw e (keep_if-Owned id user p rows h.1)
]

append-Owned :
    (id : String) (user : ℕ) (rows : List SessionRow) (r : SessionRow)
    → (is_session id r ≡ true → (r.user_id == user) ≡ true)
    → Owned id user rows
    → Owned id user (rows ++ r ∷ [])
unfolding Owned
append-Owned id user [] r k h = (k, tt)
append-Owned id user (x ∷ rows) r k h = (h.0, append-Owned id user rows r k h.1)

revoked-Owned :
    (id : String) (user : ℕ) (rows : List SessionRow)
    → Owned id user rows
    → row_in id (keep_if (λ r. not (r.user_id == user)) rows) ≡ none
unfolding Owned
revoked-Owned id user [] h = refl
revoked-Owned id user (x ∷ rows) h = elim (Bool-cases (is_session id x)) [
  | inl e ↦ rw (h.0 e) (revoked-Owned id user rows h.1)
  | inr e ↦ elim (Bool-cases (x.user_id == user)) [
    | inl q ↦ rw q (revoked-Owned id user rows h.1)
    | inr q ↦ rw (q, e) (revoked-Owned id user rows h.1)
  ]
]

module _ (digest : String → String) (injective : (a b : String) → digest a ≡ digest b → a ≡ b) where
  other_digest : (a b : String) → (a is b) ≡ false → (digest a is digest b) ≡ false
  other_digest a b e = ground (arith, e, eq_iff a b, eq_iff (digest a) (digest b), injective a b)

  -- The rows after a question are those before it, or those that a filter keeps.
  module _ (P : List SessionRow → Type 0)
      (kept : (p : SessionRow → Bool) (rows : List SessionRow) → P rows → P (keep_if p rows)) where
    checked-kept :
        (now : ℕ) (id : String) (found : Option (SessionRow × UserRow)) (db : Db)
        → P db.sessions
        → P (checked now id found db).0.sessions
    checked-kept now id none db v = v
    checked-kept now id (some (r, u)) db v = elim (Bool-cases (leb r.expires_at now)) [
      | inl e ↦ rw e (kept (λ s. not (is_session id s)) db.sessions v)
      | inr e ↦ rw e v
    ]

    resolve-kept :
        (now : ℕ) (token : Option String) (db : Db)
        → P db.sessions
        → P (resolve_session digest now token db).0.sessions
    unfolding resolve_session
    resolve-kept now token db v = elim (Option-cases (token_text token)) [
      | inl e ↦ rw (e, resolve_session) v
      | inr (t, e) ↦
          rw (e, resolve_session)
            (checked-kept now (digest t) (joined (digest t) db.users db.sessions) db v)
    ]

    revoke-kept :
        (token : Option String) (db : Db)
        → P db.sessions
        → P (revoke_session digest token db).sessions
    unfolding revoke_session
    revoke-kept token db v = elim (Option-cases (token_text token)) [
      | inl e ↦ rw (e, revoke_session) v
      | inr (t, e) ↦
          rw (e, revoke_session) (kept (λ s. not (is_session (digest t) s)) db.sessions v)
    ]

    effect-kept :
        (op : Op) (db : Db)
        → ((now : ℕ) (t : String) (u : ℕ)
            → op ≡ issues now t u
            → P (issue_session digest now t u db).sessions)
        → P db.sessions
        → P (effect digest op db).sessions
    unfolding prune_expired_sessions revoke_all_for_user
    effect-kept (issues now t u) db i v = i now t u refl
    effect-kept (resolves now t) db i v = resolve-kept now t db v
    effect-kept (revokes t) db i v = revoke-kept t db v
    effect-kept (prunes now) db i v = kept (λ r. not (ltb r.expires_at now)) db.sessions v
    effect-kept (revokes_all u) db i v = kept (λ r. not (r.user_id == u)) db.sessions v

  module _ (at : ℕ) (token : String) (user : ℕ) (u : UserRow) where
    run-Owned :
        (ops : List Op) (db : Db)
        → All (λ op. spares token user (at + ttl_ms) op ≡ true) ops
        → Owned (digest token) user db.sessions
        → Owned (digest token) user (run digest ops db).sessions
    unfolding run issue_session
    run-Owned [] db s v = v
    run-Owned (op ∷ ops) db s v = run-Owned ops (effect digest op db) s.1 (
        effect-kept (λ rows. Owned (digest token) user rows)
          (λ p rows h. keep_if-Owned (digest token) user p rows h) op db
          (λ now t w e.
            append-Owned (digest token) user db.sessions
              (record { id = digest t; user_id = w; expires_at = now + ttl_ms; created_at = now })
              (λ k. ground (
                arith,
                k,
                other_digest t token
                    (ground (arith, subst (λ o. spares token user (at + ttl_ms) o ≡ true) e s.0)),
              ))
              v)
          v)

    run-gone :
        (ops : List Op) (db : Db)
        → All (λ op. draws token op ≡ false) ops
        → row_in (digest token) db.sessions ≡ none
        → row_in (digest token) (run digest ops db).sessions ≡ none
    unfolding run issue_session
    run-gone [] db s v = v
    run-gone (op ∷ ops) db s v = run-gone ops (effect digest op db) s.1 (
        effect-kept (λ rows. row_in (digest token) rows ≡ none)
          (λ p rows h. row_in-keep_none (digest token) p rows h) op db
          (λ now t w e. ground (
            arith,
            v,
            row_in-append (digest token) db.sessions
                (record { id = digest t; user_id = w; expires_at = now + ttl_ms; created_at = now })
                (other_digest t token (subst (λ o. draws token o ≡ false) e s.0)),
          ))
          v)

    ends-gone :
        (op : Op) (db : Db)
        → token ≢ ""
        → ends_session token user op ≡ true
        → Owned (digest token) user db.sessions
        → row_in (digest token) (effect digest op db).sessions ≡ none
    unfolding revoke_session revoke_all_for_user
    ends-gone (issues now t w) db ne e v = ground (arith, e)
    ends-gone (resolves now t) db ne e v = ground (arith, e)
    ends-gone (revokes none) db ne e v = ground (arith, e)
    ends-gone (revokes (some t)) db ne e v =
        let same : t ≡ token = ground (arith, e, eq_iff t token) in
        let text : (token is "") ≡ false = ground (arith, ne, eq_iff token "") in
        rw (same, text, revoke_session) (row_in-delete (digest token) db.sessions)
    ends-gone (prunes now) db ne e v = ground (arith, e)
    ends-gone (revokes_all w) db ne e v =
        let same : w ≡ user = ground (arith, e) in
        rw same (revoked-Owned (digest token) user db.sessions v)

    resolve-gone :
        (now : ℕ) (db : Db)
        → token ≢ ""
        → row_in (digest token) db.sessions ≡ none
        → resolve_session digest now (some token) db ≡ (db, none)
    unfolding resolve_session
    resolve-gone now db ne e =
        let text : (token is "") ≡ false = ground (arith, ne, eq_iff token "") in
        rw (text, resolve_session, joined-none (digest token) db.users db.sessions e) refl

    issued-Owned :
        (db : Db)
        → row_in (digest token) db.sessions ≡ none
        → Owned (digest token) user (issued digest at token user db).sessions
    unfolding issue_session
    issued-Owned db fresh =
        append-Owned (digest token) user db.sessions
          (record { id = digest token; user_id = user; expires_at = at + ttl_ms; created_at = at })
          (λ e. ground arith) (absent-Owned (digest token) user db.sessions fresh)

    -- A fresh token that is issued to a user who exists, with a digest that no two tokens share, after
    -- any operations that neither revoke it or all of its user, nor draw it again, nor come after its
    -- expiry: it stands for that user before its expiry, and the database is unchanged by the question;
    -- from its expiry on it stands for nobody, and its row is gone. Once it is revoked, or all sessions of
    -- its user are, it stands for nobody at any time, after any operations that do not draw it again.
    pub session_stands :
        (ops later : List Op) (revocation : Op) (now late ever : ℕ) (db : Db)
        → token ≢ ""
        → row_in (digest token) db.sessions ≡ none
        → user_of db.users user ≡ some u
        → All (λ op. spares token user (at + ttl_ms) op ≡ true) ops
        → ends_session token user revocation ≡ true
        → All (λ op. draws token op ≡ false) later
        → now < at + ttl_ms
        → at + ttl_ms ≤ late
        → let after = run digest ops (issued digest at token user db) in
          let revoked = run digest later (effect digest revocation after) in
          (resolve_session digest now (some token) after ≡ (after, some (session_user u)))
          × ((resolve_session digest late (some token) after).1 ≡ none)
          × (row_in (digest token) (resolve_session digest late (some token) after).0.sessions
              ≡ none)
          × (resolve_session digest ever (some token) revoked ≡ (revoked, none))
    session_stands ops later revocation now late ever db ne fresh k all ends none_drawn l g =
        let after = run digest ops (issued digest at token user db) in
        let lives =
          session_lives digest injective at token user u ops now late db ne fresh k all l g in
        let owned = run-Owned ops (issued digest at token user db) all (issued-Owned db fresh) in
        let gone =
          run-gone later (effect digest revocation after) none_drawn
            (ends-gone revocation after ne ends owned) in
        (
          lives.0,
          lives.1,
          lives.2,
          resolve-gone ever (run digest later (effect digest revocation after)) ne gone,
        )
