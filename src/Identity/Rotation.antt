-- ===== src/Identity/Rotation.antt =====
-- Proofs about `Refresh` of services/identity/internal/app/service.go.
use bank_core.Prelude.{
  ℕ, zero, suc, ◌≤◌, ◌≡◌, ◌≢◌, refl, arith, inl, inr, String, str_eq, str_eq_iff, Bool, true, false,
  ◌||◌, ◌∷◌, none, some, All, Bool-cases, Option-cases,
}
use bank_core.Prelude.Results.{ok, err, Result-cases}
use bank_core.Apperr.{code_unauthenticated}
use bank_core.Ledger.Store.{find_row, update_rows, is_some}
use bank_core.Identity.Rules.{RefreshDecision, decide_refresh, rotate, reuse, denied, expired}
use bank_core.Identity.Tables.{
  coded, User, SessionRow, IdentityDb, commit, create_session, get_roles, live_id, count_rows,
  mark_rotated, revoke_family,
}
use bank_core.Identity.Service.{
  Crypto, Request, TokenPair, to_domain_session, new_session, unauthenticated, new_refresh_token,
  finish_rotation, rotate_tx, decided, act_on,
}
use bank_core.Identity.Families.{
  live_count, revoked, rotated, revoked_count, revoked_none, rotated_count, IsInFamily,
  rotated_fewer,
}

-- The row that a rotation of a session inserts.
abbrev pub successor : Crypto → SessionRow → String → String → Request → SessionRow
successor crypto sess id buf req =
    new_session id sess.user_id sess.family_id (crypto.sha256 buf) (some sess.id) req

abbrev pub clashes : SessionRow → SessionRow → Bool
clashes s r = str_eq r.id s.id || str_eq r.refresh_hash s.refresh_hash

create_session-ok :
    (s : SessionRow) (db db' : IdentityDb)
    → create_session s db ≡ ok (tt, db')
    → (db'.sessions ≡ s ∷ db.sessions) × (find_row (clashes s) db.sessions ≡ none)
unfolding create_session
create_session-ok s db db' h = ground (arith, h)

module _ (crypto : Crypto) where
  finish_rotation-ok :
      (sess : SessionRow) (raw : String) (now n : ℕ) (db db' : IdentityDb) (pair : TokenPair)
      → finish_rotation crypto sess raw now n db ≡ ok (pair, db')
      → (1 ≤ n) × (db' ≡ db)
  unfolding finish_rotation unauthenticated
  finish_rotation-ok sess raw now zero db db' pair h = absurd (ground arith)
  finish_rotation-ok sess raw now (suc n) db db' pair h =
      elim (Option-cases
        (crypto.sign_access sess.user_id sess.family_id (get_roles sess.user_id db))) [
          | inl failed ↦ absurd (ground (arith, failed, h))
          | inr (access, signed) ↦ (omega arith, ground (arith, signed, h))
        ]

  -- A rotation that is committed marked a row that was live.
  pub rotate_tx-ok :
      (sess : SessionRow) (id buf : String) (req : Request) (db db' : IdentityDb) (pair : TokenPair)
      → rotate_tx crypto sess id buf req db ≡ ok (pair, db')
      → (1 ≤ count_rows (live_id sess.id) (successor crypto sess id buf req ∷ db.sessions))
        × (db'.sessions
            ≡ update_rows
                (live_id sess.id)
                (rotated req.now id)
                (successor crypto sess id buf req ∷ db.sessions))
        × (find_row (clashes (successor crypto sess id buf req)) db.sessions ≡ none)
  unfolding rotate_tx new_refresh_token mark_rotated unauthenticated
  rotate_tx-ok sess id buf req db db' pair h =
      elim (Result-cases (create_session (successor crypto sess id buf req) db)) [
        | inr (e, refused) ↦ absurd (ground (arith, refused, h))
        | inl ((_, db₁), made) ↦
            let (rows, free) = create_session-ok (successor crypto sess id buf req) db db₁ made in
            let (n, db₂) = mark_rotated sess.id id req.now db₁ in
            let (some_row, same) =
              finish_rotation-ok sess (crypto.base64_encode buf) req.now n db₂ db' pair
                (ground (arith, made, h)) in
            (ground (arith, rows, some_row), ground (arith, rows, same), free)
      ]

  decided_live :
      (d : RefreshDecision) (sess : SessionRow) (id buf family : String) (req : Request)
      (db : IdentityDb)
      → All (IsInFamily sess.id sess.family_id) db.sessions
      → live_count family (decided crypto d sess id buf req db).1 ≤ live_count family db
  unfolding decided revoke_family commit
  decided_live denied sess id buf family req db one_family = omega arith
  decided_live expired sess id buf family req db one_family = omega arith
  decided_live reuse sess id buf family req db one_family =
      revoked_count family sess.family_id req.now db.sessions
  decided_live rotate sess id buf family req db one_family =
      elim (Result-cases (rotate_tx crypto sess id buf req db)) [
        | inr (e, refused) ↦ ground (arith, refused)
        | inl ((pair, db'), done) ↦
            let (some_row, rows, _) = rotate_tx-ok sess id buf req db db' pair done in
            let next = successor crypto sess id buf req in
            elim (Bool-cases (str_eq sess.family_id family)) [
              | inl same ↦
                  let fewer =
                    rotated_fewer sess.family_id sess.id id req.now (next ∷ db.sessions)
                      ((λ _. (str_eq_iff sess.family_id sess.family_id).1 refl), one_family)
                      some_row in
                  ground (arith, done, rows, fewer, same, (str_eq_iff sess.family_id family).0 same)
              | inr other ↦
                  let kept = rotated_count family sess.id id req.now (next ∷ db.sessions) in
                  ground (arith, done, rows, kept, other)
            ]
      ]

  -- Refresh for a session as it was read, in tables that may have changed since, where each row with the
  -- session's id is of its family: in no family are there more live sessions afterwards than before.
  pub act_on_live :
      (sess : SessionRow) (id buf family : String) (req : Request) (db : IdentityDb)
      → All (IsInFamily sess.id sess.family_id) db.sessions
      → live_count family (act_on crypto sess id buf req db).1 ≤ live_count family db
  act_on_live sess id buf family req =
      decided_live (decide_refresh (to_domain_session sess) req.now) sess id buf family req

  -- A session that was live when it was read, and that another Refresh has rotated since: the caller is
  -- refused, but no table changes, so the family that RevokeSessionFamily was called for stays live.
  pub act_on_race :
      (sess : SessionRow) (id buf : String) (req : Request) (db : IdentityDb)
      → decide_refresh (to_domain_session sess) req.now ≡ rotate
      → count_rows (live_id sess.id) db.sessions ≡ 0
      → str_eq id sess.id ≡ false
      → find_row (clashes (successor crypto sess id buf req)) db.sessions ≡ none
      → is_some (find_row (λ (u : User). str_eq u.id sess.user_id) db.users) ≡ true
      → act_on crypto sess id buf req db ≡ (err (coded code_unauthenticated), db)
  unfolding decided commit rotate_tx create_session mark_rotated finish_rotation unauthenticated
      new_refresh_token
  act_on_race sess id buf req db live gone other free known =
      ground (arith, live, gone, other, free, known)

  -- A session that was rotated: the caller is refused and its family has no live session any more.
  pub act_on_reuse :
      (sess : SessionRow) (id buf next : String) (at : ℕ) (req : Request) (db : IdentityDb)
      → sess.revoked_at ≡ some at
      → sess.rotated_to ≡ some next
      → next ≢ ""
      → ((act_on crypto sess id buf req db).0 ≡ err (coded code_unauthenticated))
        × (live_count sess.family_id (act_on crypto sess id buf req db).1 ≡ 0)
  unfolding decided decide_refresh to_domain_session revoke_family unauthenticated
  act_on_reuse sess id buf next at req db revoked to given =
      let none_left = revoked_none sess.family_id req.now db.sessions in
      ground (arith, revoked, to, given, none_left)
