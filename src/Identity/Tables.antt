-- ===== src/Identity/Tables.antt =====
-- services/identity/internal/adapters/postgres/db/queries.sql.go: each statement on the tables of
-- services/identity/migrations/000001_init.up.sql. Times are microseconds; the hash of a refresh token is
-- a text here.
use bank_core.Prelude.{
  ℕ, ◌+◌, String, str_eq, Bool, true, false, ◌&&◌, ◌||◌, ltb, leb, if◌then◌else◌, List, [], ◌∷◌,
  Option, none, some,
}
use bank_core.Prelude.Sort.{sort}
use bank_core.Prelude.Results.{Result, ok, err}
use bank_core.Apperr.{Code}
use bank_core.Ledger.Store.{find_row, update_rows, is_some}

-- An error of the service: with a code, the signer's as it is, or any other of the database.
pub data IdentityError : Type 0 where
  no_rows unique_violation db_error signer_error : IdentityError
  coded : Code → IdentityError

pub record User : Type 0 where
  pub id : String
  pub email : String
  pub password_hash : String
  pub name : String
  pub phone : String
  pub created_at : ℕ

pub record Role : Type 0 where
  pub user_id : String
  pub role : String

pub record SessionRow : Type 0 where
  pub id : String
  pub user_id : String
  pub family_id : String
  pub refresh_hash : String
  pub rotated_from : Option String
  pub rotated_to : Option String
  pub expires_at : ℕ
  pub revoked_at : Option ℕ
  pub ip : String
  pub user_agent : String
  pub created_at : ℕ

-- The payload of an outbox row.
pub record CustomerRegistered : Type 0 where
  pub user_id : String
  pub email : String
  pub name : String

pub record IdentityDb : Type 0 where
  pub users : List User
  pub roles : List Role
  pub sessions : List SessionRow
  pub outbox : List CustomerRegistered

-- A statement or a transaction: where it fails, the tables stay.
abbrev pub IdentityTx : Type 0 → Type 0
IdentityTx A = IdentityDb → Result IdentityError (A × IdentityDb)

-- `WithTx`
unfoldable pub commit :
    {A : Type 0} → IdentityTx A → IdentityDb → Result IdentityError A × IdentityDb
commit m db = elim (m db) [ ok (a, db') ↦ (ok a, db') | err e ↦ (err e, db) ]

-- A `:one` query.
abbrev pub one : {A : Type 0} → Option A → Result IdentityError A
one (some a) = ok a
one none = err no_rows

-- `CreateUser`: the id and the email are unique.
unfoldable pub create_user : User → IdentityTx (Unit {0})
create_user u db =
    if is_some (find_row (λ v. str_eq v.id u.id || str_eq v.email u.email) db.users)
    then err unique_violation
    else ok (tt, record db { users = u ∷ db.users })

-- `AddRole`
unfoldable pub add_role : String → String → IdentityTx (Unit {0})
add_role user_id role db =
    if is_some (find_row (λ r. str_eq r.user_id user_id && str_eq r.role role) db.roles)
    then ok (tt, db)
    else ok (tt, record db { roles = record { user_id = user_id; role = role } ∷ db.roles })

-- `GetUserByEmail`
unfoldable pub get_user_by_email : String → IdentityDb → Result IdentityError User
get_user_by_email email db = one (find_row (λ u. str_eq u.email email) db.users)

-- `GetUserByID`
unfoldable pub get_user_by_id : String → IdentityDb → Result IdentityError User
get_user_by_id id db = one (find_row (λ u. str_eq u.id id) db.users)

abbrev pub roles_of : String → List Role → List String
roles_of user_id [] = []
roles_of user_id (r ∷ rs) =
    let rest = roles_of user_id rs in if str_eq r.user_id user_id then r.role ∷ rest else rest

-- `GetRoles`
unfoldable pub get_roles : String → IdentityDb → List String
get_roles user_id db = sort (roles_of user_id db.roles)

-- `CreateSession`: the id and the hash are unique, and the user exists.
unfoldable pub create_session : SessionRow → IdentityTx (Unit {0})
create_session s db =
    if is_some
      (find_row (λ r. str_eq r.id s.id || str_eq r.refresh_hash s.refresh_hash) db.sessions)
    then err unique_violation
    else if is_some (find_row (λ (u : User). str_eq u.id s.user_id) db.users)
    then ok (tt, record db { sessions = s ∷ db.sessions })
    else err db_error

-- `GetSessionByRefreshHash`
unfoldable pub get_session_by_hash : String → IdentityDb → Result IdentityError SessionRow
get_session_by_hash hash db = one (find_row (λ s. str_eq s.refresh_hash hash) db.sessions)

-- `GetSessionByID`
unfoldable pub get_session_by_id : String → IdentityDb → Result IdentityError SessionRow
get_session_by_id id db = one (find_row (λ (s : SessionRow). str_eq s.id id) db.sessions)

-- `revoked_at IS NULL`
abbrev pub is_live : SessionRow → Bool
is_live s = elim s.revoked_at [ none ↦ true | some _ ↦ false ]

-- `id = $1 AND revoked_at IS NULL`
abbrev pub live_id : String → SessionRow → Bool
live_id id s = str_eq s.id id && is_live s

abbrev pub count_rows : {A : Type 0} → (A → Bool) → List A → ℕ
count_rows p [] = 0
count_rows p (x ∷ xs) = (if p x then 1 else 0) + count_rows p xs

-- `MarkSessionRotated`: the number of rows it changed.
unfoldable pub mark_rotated : String → String → ℕ → IdentityDb → ℕ × IdentityDb
mark_rotated id to now db = (
  count_rows (live_id id) db.sessions,
  record db {
    sessions =
        update_rows (live_id id) (λ s. record s { revoked_at = some now; rotated_to = some to })
          db.sessions;
  },
)

-- `family_id = $1 AND revoked_at IS NULL`
abbrev pub live_in : String → SessionRow → Bool
live_in family s = str_eq s.family_id family && is_live s

-- `RevokeSessionFamily`
unfoldable pub revoke_family : String → ℕ → IdentityDb → IdentityDb
revoke_family family now db = record db {
  sessions = update_rows (live_in family) (λ s. record s { revoked_at = some now }) db.sessions;
}

abbrev pub insert_newest : SessionRow → List SessionRow → List SessionRow
insert_newest s [] = s ∷ []
insert_newest s (t ∷ ts) =
    let rest = insert_newest s ts in if leb t.created_at s.created_at then s ∷ t ∷ ts else t ∷ rest

-- `ListActiveSessions`, the newest first.
unfoldable pub active_sessions : String → ℕ → List SessionRow → List SessionRow
active_sessions user_id now [] = []
active_sessions user_id now (s ∷ ss) =
    let rest = active_sessions user_id now ss in
    if str_eq s.user_id user_id && (is_live s && ltb now s.expires_at)
    then insert_newest s rest
    else rest
