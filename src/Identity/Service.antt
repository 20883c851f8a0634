-- ===== src/Identity/Service.antt =====
-- services/identity/internal/app/service.go: the operations. Argon2, SHA-256, base64 and the signer are
-- parameters; what is drawn (ids, the bytes of a token) is an argument.
use bank_core.Prelude.{
  ℕ, zero, suc, ◌+◌, String, str_eq, Bool, true, if◌then◌else◌, List, [], ◌∷◌, ◌++◌, Option, none,
  some,
}
use bank_core.Prelude.Results.{Result, ok, err}
use bank_core.Apperr.{
  code_unauthenticated, code_invalid_argument, code_internal, code_already_exists, code_not_found,
  code_forbidden,
}
use bank_core.Identity.Rules.{
  Session, RefreshDecision, decide_refresh, rotate, reuse, denied, expired, role_customer,
  validate_registration,
}
use bank_core.Identity.Tables.{
  IdentityError, no_rows, unique_violation, signer_error, coded, User, SessionRow, IdentityDb,
  IdentityTx, commit, create_user, add_role, get_user_by_email, get_user_by_id, get_roles,
  create_session, get_session_by_hash, get_session_by_id, mark_rotated, revoke_family,
  active_sessions,
}

-- What the service takes from elsewhere. A failure is none.
pub record Crypto : Type 0 where
  pub normalize : String → String
  pub parse_address : String → Bool
  pub hash_password : String → Option String
  pub verify_password : String → String → Option Bool
  pub sha256 : String → String
  pub base64_encode : String → String
  pub base64_decode : String → Option String
  pub sign_access : String → String → List String → Option String

-- The times of a session and the texts that a request brings.
pub record Request : Type 0 where
  pub ip : String
  pub user_agent : String
  pub now : ℕ
  pub refresh_ttl : ℕ

pub record UserView : Type 0 where
  pub id : String
  pub email : String
  pub name : String
  pub phone : String
  pub roles : List String
  pub created_at : ℕ

pub record TokenPair : Type 0 where
  pub access_token : String
  pub refresh_token : String
  pub user : Option UserView

-- `toDomainSession`
unfoldable pub to_domain_session : SessionRow → Session
to_domain_session s = record {
  id = s.id;
  user_id = s.user_id;
  family_id = s.family_id;
  rotated_to = elim s.rotated_to [ some id ↦ id | none ↦ "" ];
  expires_at = s.expires_at;
  revoked_at = s.revoked_at;
}

-- The row that Login and Refresh insert.
abbrev pub new_session : String → String → String → String → Option String → Request → SessionRow
new_session id user_id family hash from req = record {
  id = id;
  user_id = user_id;
  family_id = family;
  refresh_hash = hash;
  rotated_from = from;
  rotated_to = none;
  expires_at = req.now + req.refresh_ttl;
  revoked_at = none;
  ip = req.ip;
  user_agent = req.user_agent;
  created_at = req.now;
}

abbrev pub view : User → List String → UserView
view u roles = record {
  id = u.id;
  email = u.email;
  name = u.name;
  phone = u.phone;
  roles = roles;
  created_at = u.created_at;
}

unfoldable pub unauthenticated : {A : Type 0} → Result IdentityError A
unauthenticated = err (coded code_unauthenticated)

module _ (crypto : Crypto) where
  -- `hashRefreshToken`: what is no base64 is hashed as it is.
  unfoldable pub hash_refresh_token : String → String
  hash_refresh_token raw = elim (crypto.base64_decode raw) [
    | some buf ↦ crypto.sha256 buf
    | none ↦ crypto.sha256 raw
  ]

  -- `newRefreshToken` on the drawn bytes.
  unfoldable pub new_refresh_token : String → String × String
  new_refresh_token buf = (crypto.base64_encode buf, crypto.sha256 buf)

  -- The transaction of Register.
  unfoldable pub register_tx : User → IdentityTx UserView
  register_tx u db = elim (create_user u db) [
    | err unique_violation ↦ err (coded code_already_exists)
    | err e ↦ err e
    | ok (_, db₁) ↦ elim (add_role u.id role_customer db₁) [
      | err e ↦ err e
      | ok (_, db₂) ↦ ok (
        view u (role_customer ∷ []),
        record db₂ {
          outbox = db₂.outbox ++ record { user_id = u.id; email = u.email; name = u.name } ∷ [];
        },
      )
    ]
  ]

  -- `Register`
  unfoldable pub register :
      String
      → String
      → String
      → String
      → String
      → ℕ
      → IdentityDb
      → Result IdentityError UserView × IdentityDb
  register id email password name phone now db =
      let email' = crypto.normalize email in
      elim (validate_registration crypto.parse_address email' password name) [
        | err _ ↦ (err (coded code_invalid_argument), db)
        | ok _ ↦ elim (crypto.hash_password password) [
          | none ↦ (err (coded code_internal), db)
          | some hash ↦
              commit
                (register_tx (record {
                  id = id;
                  email = email';
                  password_hash = hash;
                  name = name;
                  phone = phone;
                  created_at = now;
                }))
                db
        ]
      ]

  -- The tokens of Login.
  unfoldable pub sign_pair : User → String → String → List String → Result IdentityError TokenPair
  sign_pair u family raw roles = elim (crypto.sign_access u.id family roles) [
    | none ↦ err (coded code_internal)
    | some access ↦
        ok (record { access_token = access; refresh_token = raw; user = some (view u roles) })
  ]

  -- Login after the password: the session is stored before the token is signed.
  unfoldable pub open_session :
      User
      → String
      → String
      → String
      → Request
      → IdentityDb
      → Result IdentityError TokenPair × IdentityDb
  open_session u id family buf req db =
      let (raw, hash) = new_refresh_token buf in
      let (r, db') = commit (create_session (new_session id u.id family hash none req)) db in
      (elim r [ err e ↦ err e | ok _ ↦ sign_pair u family raw (get_roles u.id db) ], db')

  -- `Login`
  unfoldable pub login :
      String
      → String
      → String
      → String
      → String
      → Request
      → IdentityDb
      → Result IdentityError TokenPair × IdentityDb
  login email password id family buf req db = elim (get_user_by_email (crypto.normalize email) db) [
    | err no_rows ↦ (unauthenticated, db)
    | err e ↦ (err e, db)
    | ok u ↦ elim (crypto.verify_password password u.password_hash) [
      | some true ↦ open_session u id family buf req db
      | _ ↦ (unauthenticated, db)
    ]
  ]

  -- The end of the transaction of Refresh, for the number of rows that were marked.
  unfoldable pub finish_rotation : SessionRow → String → ℕ → ℕ → IdentityTx TokenPair
  finish_rotation sess raw now zero db =
      let revoked : IdentityDb = revoke_family sess.family_id now db in unauthenticated
  finish_rotation sess raw now (suc _) db =
      elim (crypto.sign_access sess.user_id sess.family_id (get_roles sess.user_id db)) [
        | none ↦ err signer_error
        | some access ↦ ok (record { access_token = access; refresh_token = raw; user = none }, db)
      ]

  -- The transaction of Refresh, for a session as it was read.
  unfoldable pub rotate_tx : SessionRow → String → String → Request → IdentityTx TokenPair
  rotate_tx sess id buf req db =
      let (raw, hash) = new_refresh_token buf in
      elim (create_session (new_session id sess.user_id sess.family_id hash (some sess.id) req)
        db) [
          | err e ↦ err e
          | ok (_, db₁) ↦
              let (n, db₂) = mark_rotated sess.id id req.now db₁ in
              finish_rotation sess raw req.now n db₂
        ]

  -- Refresh on a decision, for a session as it was read; the tables may have changed since.
  unfoldable pub decided :
      RefreshDecision
      → SessionRow
      → String
      → String
      → Request
      → IdentityDb
      → Result IdentityError TokenPair × IdentityDb
  decided reuse sess id buf req db = (unauthenticated, revoke_family sess.family_id req.now db)
  decided denied sess id buf req db = (unauthenticated, db)
  decided expired sess id buf req db = (unauthenticated, db)
  decided rotate sess id buf req db = commit (rotate_tx sess id buf req) db

  abbrev pub act_on :
      SessionRow
      → String
      → String
      → Request
      → IdentityDb
      → Result IdentityError TokenPair × IdentityDb
  act_on sess id buf req = decided (decide_refresh (to_domain_session sess) req.now) sess id buf req

  -- `Refresh`
  unfoldable pub refresh :
      String → String → String → Request → IdentityDb → Result IdentityError TokenPair × IdentityDb
  refresh raw id buf req db = elim (get_session_by_hash (hash_refresh_token raw) db) [
    | err no_rows ↦ (unauthenticated, db)
    | err e ↦ (err e, db)
    | ok sess ↦ act_on sess id buf req db
  ]

  -- `Logout`
  unfoldable pub logout : String → ℕ → IdentityDb → Result IdentityError (Unit {0}) × IdentityDb
  logout raw now db = elim (get_session_by_hash (hash_refresh_token raw) db) [
    | err no_rows ↦ (ok tt, db)
    | err e ↦ (err e, db)
    | ok sess ↦ (ok tt, revoke_family sess.family_id now db)
  ]

-- `GetMe`
unfoldable pub get_me : String → IdentityDb → Result IdentityError UserView
get_me user_id db =
    if str_eq user_id "" then unauthenticated else elim (get_user_by_id user_id db) [
      | err no_rows ↦ err (coded code_not_found)
      | err e ↦ err e
      | ok u ↦ ok (view u (get_roles u.id db))
    ]

-- `ListSessions`
abbrev pub list_sessions : String → ℕ → IdentityDb → List SessionRow
list_sessions user_id now db = active_sessions user_id now db.sessions

-- `RevokeSession`
unfoldable pub revoke_session :
    String → String → ℕ → IdentityDb → Result IdentityError (Unit {0}) × IdentityDb
revoke_session caller id now db = elim (get_session_by_id id db) [
  | err no_rows ↦ (err (coded code_not_found), db)
  | err e ↦ (err e, db)
  | ok sess ↦
      if str_eq sess.user_id caller
      then (ok tt, revoke_family sess.family_id now db)
      else (err (coded code_forbidden), db)
]
