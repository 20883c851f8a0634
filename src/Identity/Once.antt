-- ===== src/Identity/Once.antt =====
-- Proofs about a refresh token that is presented again to `Refresh` of
-- services/identity/internal/app/service.go.
use bank_core.Prelude.{
  ℕ, ◌≡◌, ◌≢◌, refl, arith, inl, inr, String, str_eq, str_eq_iff, Bool, true, false, List, [], ◌∷◌,
  none, some, Bool-cases, Option-cases,
}
use bank_core.Prelude.Results.{ok, err, Result-cases}
use bank_core.Apperr.{code_unauthenticated}
use bank_core.Ledger.Store.{find_row, update_rows}
use bank_core.Identity.Rules.{RefreshDecision, decide_refresh, rotate, reuse, denied, expired}
use bank_core.Identity.Tables.{coded, SessionRow, IdentityDb, commit, get_session_by_hash, live_id}
use bank_core.Identity.Service.{
  Crypto, Request, TokenPair, to_domain_session, unauthenticated, hash_refresh_token, rotate_tx,
  decided, refresh,
}
use bank_core.Identity.Families.{live_count, rotated}
use bank_core.Identity.Rotation.{successor, clashes, rotate_tx-ok, act_on_reuse}

abbrev with_hash : String → SessionRow → Bool
with_hash hash s = str_eq s.refresh_hash hash

-- The row that a hash leads to, after a rotation.
find_row-rotated :
    (hash id to : String) (now : ℕ) (rows : List SessionRow) (s : SessionRow)
    → find_row (with_hash hash) rows ≡ some s
    → live_id id s ≡ true
    → find_row (with_hash hash) (update_rows (live_id id) (rotated now to) rows)
      ≡ some (rotated now to s)
find_row-rotated hash id to now [] s found live = absurd (ground arith)
find_row-rotated hash id to now (r ∷ rows) s found live = elim (Bool-cases (with_hash hash r)) [
  | inl hit ↦
      let same : (r ≡ s) = ground arith in
      let live' : (live_id id r ≡ true) = ground (arith, same, live) in
      ground (arith, live', hit, same)
  | inr miss ↦
      let ih = find_row-rotated hash id to now rows s (ground arith) live in
      elim (Bool-cases (live_id id r)) [
        | inl marked ↦ ground (arith, miss, marked, ih)
        | inr kept ↦ ground (arith, miss, kept, ih)
      ]
]

-- A new hash is not one that is there.
clashes-fresh :
    (next s : SessionRow) (hash : String) (rows : List SessionRow)
    → find_row (clashes next) rows ≡ none
    → find_row (with_hash hash) rows ≡ some s
    → with_hash hash next ≡ false
clashes-fresh next s hash [] free found = absurd (ground arith)
clashes-fresh next s hash (r ∷ rows) free found = elim (Bool-cases (clashes next r)) [
  | inl clash ↦ absurd (ground arith)
  | inr other ↦ elim (Bool-cases (with_hash hash r)) [
    | inr miss ↦ clashes-fresh next s hash rows (ground arith) (ground arith)
    | inl hit ↦ elim (Bool-cases (with_hash hash next)) [
      | inr differs ↦ differs
      | inl equal ↦ absurd (
          ground (
            arith,
            other,
            (str_eq_iff r.refresh_hash hash).0 hit,
            (str_eq_iff next.refresh_hash hash).0 equal,
            (str_eq_iff r.refresh_hash next.refresh_hash).1,
          ))
    ]
  ]
]

module _ (crypto : Crypto) where
  -- A decision that issues tokens is to rotate, in a transaction that is committed.
  decided-ok :
      (d : RefreshDecision) (sess : SessionRow) (id buf : String) (req : Request)
      (db db' : IdentityDb) (pair : TokenPair)
      → decided crypto d sess id buf req db ≡ (ok pair, db')
      → (d ≡ rotate) × (rotate_tx crypto sess id buf req db ≡ ok (pair, db'))
  unfolding decided unauthenticated commit
  decided-ok reuse sess id buf req db db' pair h = absurd (ground arith)
  decided-ok denied sess id buf req db db' pair h = absurd (ground arith)
  decided-ok expired sess id buf req db db' pair h = absurd (ground arith)
  decided-ok rotate sess id buf req db db' pair h =
      elim (Result-cases (rotate_tx crypto sess id buf req db)) [
        | inr (e, refused) ↦ absurd (ground (arith, h, refused))
        | inl ((p, db₁), done) ↦ (refl, ground (arith, h, done))
      ]

  rotate-live :
      (sess : SessionRow) (now : ℕ)
      → decide_refresh (to_domain_session sess) now ≡ rotate
      → live_id sess.id sess ≡ true
  unfolding decide_refresh to_domain_session
  rotate-live sess now h = elim (Option-cases sess.revoked_at) [
    | inl live ↦ ground (arith, live, (str_eq_iff sess.id sess.id).1 refl)
    | inr (at, revoked) ↦
        absurd (elim (Bool-cases (str_eq (to_domain_session sess).rotated_to "")) [
          | inl bare ↦ ground (arith, revoked, bare, h)
          | inr moved ↦ ground (arith, revoked, moved, h)
        ])
  ]

  -- A refresh token works once. Refresh has issued tokens for it; then whoever presents it again, at any
  -- time, is refused, and the session's family has no live session afterwards.
  pub refresh_once :
      (raw id id' buf buf' : String) (req req' : Request) (db db' : IdentityDb) (pair : TokenPair)
      → id ≢ ""
      → refresh crypto raw id buf req db ≡ (ok pair, db')
      → (sess : SessionRow) × (get_session_by_hash (hash_refresh_token crypto raw) db ≡ ok sess)
        × ((refresh crypto raw id' buf' req' db').0 ≡ err (coded code_unauthenticated))
        × (live_count sess.family_id (refresh crypto raw id' buf' req' db').1 ≡ 0)
  unfolding refresh unauthenticated get_session_by_hash
  refresh_once raw id id' buf buf' req req' db db' pair given h =
      let hash = hash_refresh_token crypto raw in
      elim (Option-cases (find_row (with_hash hash) db.sessions)) [
        | inl missing ↦ absurd (ground (arith, missing, h))
        | inr (sess, found) ↦
            let (decision, done) =
              decided-ok (decide_refresh (to_domain_session sess) req.now) sess id buf req db db'
                pair (ground (arith, found, h)) in
            let (_, rows, free) = rotate_tx-ok crypto sess id buf req db db' pair done in
            let next = successor crypto sess id buf req in
            let fresh = clashes-fresh next sess hash db.sessions free found in
            let moved =
              find_row-rotated hash sess.id id req.now (next ∷ db.sessions) sess
                (ground (arith, fresh, found)) (rotate-live sess req.now decision) in
            let again : (find_row (with_hash hash) db'.sessions ≡ some (rotated req.now id sess)) =
              ground (arith, rows, moved) in
            let (refused, dead) =
              act_on_reuse crypto (rotated req.now id sess) id' buf' id req.now req' db' refl refl
                given in
            (
              sess,
              ground (arith, found),
              ground (arith, again, refused),
              ground (arith, again, dead),
            )
      ]
