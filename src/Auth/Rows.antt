-- ===== src/Auth/Rows.antt =====
-- src/auth/session.ts: the row of a digest in the table of sessions.
use hellodac.Prelude.{
  ◌≡◌, refl, ap, ◌∙◌, arith, String, Bool, true, false, not, Option, none, some, List, [], ◌∷◌,
  ◌++◌, keep_if, find_if, Bool-cases, inl, inr,
}
use hellodac.Auth.Session.{SessionRow, UserRow, is_session, user_of, joined}

abbrev pub row_in : String → List SessionRow → Option SessionRow
row_in id rows = find_if (is_session id) rows

pub row_in-append :
    (id : String) (rows : List SessionRow) (r : SessionRow)
    → is_session id r ≡ false
    → row_in id (rows ++ r ∷ []) ≡ row_in id rows
row_in-append id [] r e = ground (arith, e)
row_in-append id (x ∷ rows) r e = ground (arith, row_in-append id rows r e)

pub row_in-keep_if :
    (id : String) (p : SessionRow → Bool) (rows : List SessionRow) (r : SessionRow)
    → row_in id rows ≡ some r
    → p r ≡ true
    → row_in id (keep_if p rows) ≡ some r
row_in-keep_if id p [] r e k = cc
row_in-keep_if id p (x ∷ rows) r e k = elim (Bool-cases (is_session id x)) [
  | inl q ↦
      let same : x ≡ r = ground (arith, e, q) in
      let kept : p x ≡ true = ap p same ∙ k in ground (arith, e, q, kept)
  | inr q ↦
      let found : row_in id rows ≡ some r = ground (arith, e, q) in
      ground (arith, q, row_in-keep_if id p rows r found k)
]

pub row_in-fresh :
    (id : String) (rows : List SessionRow) (r : SessionRow)
    → row_in id rows ≡ none
    → is_session id r ≡ true
    → row_in id (rows ++ r ∷ []) ≡ some r
row_in-fresh id [] r e k = ground (arith, k)
row_in-fresh id (x ∷ rows) r e k = ground (arith, e, row_in-fresh id rows r, k)

pub row_in-delete :
    (id : String) (rows : List SessionRow)
    → row_in id (keep_if (λ r. not (is_session id r)) rows) ≡ none
row_in-delete id [] = refl
row_in-delete id (x ∷ rows) = ground (arith, row_in-delete id rows)

pub joined-row_in :
    (id : String) (users : List UserRow) (rows : List SessionRow) (r : SessionRow) (u : UserRow)
    → row_in id rows ≡ some r
    → user_of users r.user_id ≡ some u
    → joined id users rows ≡ some (r, u)
unfolding joined
joined-row_in id users [] r u e k = cc
joined-row_in id users (x ∷ rows) r u e k = elim (Bool-cases (is_session id x)) [
  | inl q ↦
      let same : x ≡ r = ground (arith, e, q) in
      rw (q, ap (λ (s : SessionRow). user_of users s.user_id) same ∙ k)
        (ap (λ (s : SessionRow). some (s, u)) same)
  | inr q ↦
      let found : row_in id rows ≡ some r = ground (arith, e, q) in
      rw q (joined-row_in id users rows r u found k)
]
