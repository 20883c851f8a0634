-- ===== src/Identity/Tests.antt =====
-- Instances of the theorems on sessions.
use bank_core.Prelude.{◌≡◌, ◌≤◌, refl, true, [], ◌∷◌, none, some, string_discrete, ne_of_test}
use bank_core.Prelude.Results.{ok, err}
use bank_core.Apperr.{code_unauthenticated}
use bank_core.Identity.Rules.{rotate, decide_refresh}
use bank_core.Identity.Tables.{
  User, SessionRow, IdentityDb, coded, get_session_by_hash, create_session, mark_rotated, commit,
}
use bank_core.Identity.Service.{
  Crypto, Request, TokenPair, to_domain_session, hash_refresh_token, new_refresh_token,
  finish_rotation, rotate_tx, decided, act_on, refresh,
}
use bank_core.Identity.Families.{live_count}
use bank_core.Identity.Rotation.{act_on_live, act_on_race}
use bank_core.Identity.Once.{refresh_once}

-- Texts as they are in place of hashes and signatures.
abbrev plain : Crypto
plain = record {
  normalize = λ s. s;
  parse_address = λ s. true;
  hash_password = λ s. some s;
  verify_password = λ s h. some true;
  sha256 = λ s. s;
  base64_encode = λ s. s;
  base64_decode = λ s. some s;
  sign_access = λ user family roles. some user;
}

abbrev request : Request
request = record { ip = "::1"; user_agent = "go"; now = 20; refresh_ttl = 100 }

abbrev session : SessionRow
session = record {
  id = "s1";
  user_id = "u1";
  family_id = "f1";
  refresh_hash = "token1";
  rotated_from = none;
  rotated_to = none;
  expires_at = 110;
  revoked_at = none;
  ip = "::1";
  user_agent = "go";
  created_at = 10;
}

abbrev alice : User
alice = record {
  id = "u1";
  email = "a@b.kz";
  password_hash = "x";
  name = "Alice";
  phone = "";
  created_at = 1;
}

abbrev signed_in : IdentityDb
signed_in = record { users = alice ∷ []; roles = []; sessions = session ∷ []; outbox = [] }

abbrev next_session : SessionRow
next_session = record {
  id = "s2";
  user_id = "u1";
  family_id = "f1";
  refresh_hash = "token2";
  rotated_from = some "s1";
  rotated_to = none;
  expires_at = 120;
  revoked_at = none;
  ip = "::1";
  user_agent = "go";
  created_at = 20;
}

-- After a rotation of the session.
abbrev after : IdentityDb
after = record signed_in {
  sessions = next_session ∷ record session { revoked_at = some 20; rotated_to = some "s2" } ∷ [];
}

abbrev pair : TokenPair
pair = record { access_token = "u1"; refresh_token = "token2"; user = none }

refreshed : refresh plain "token1" "s2" "token2" request signed_in ≡ (ok pair, after)
unfolding refresh hash_refresh_token get_session_by_hash to_domain_session decide_refresh decided
    commit rotate_tx new_refresh_token create_session mark_rotated finish_rotation string_discrete
refreshed = refl

act_on_live_example :
    live_count "f1" (act_on plain session "s2" "token2" request signed_in).1
    ≤ live_count "f1" signed_in
unfolding string_discrete
act_on_live_example =
    act_on_live plain session "s2" "token2" "f1" request signed_in ((λ _. refl), tt)

rotates : decide_refresh (to_domain_session session) 20 ≡ rotate
unfolding decide_refresh to_domain_session
rotates = refl

act_on_race_example :
    act_on plain session "s3" "token3" request after ≡ (err (coded code_unauthenticated), after)
unfolding string_discrete
act_on_race_example =
    act_on_race plain session "s3" "token3" request after rotates refl refl refl refl

refresh_once_example :
    (sess : SessionRow) × (get_session_by_hash (hash_refresh_token plain "token1") signed_in
      ≡ ok sess)
    × ((refresh plain "token1" "s4" "token4" request after).0 ≡ err (coded code_unauthenticated))
    × (live_count sess.family_id (refresh plain "token1" "s4" "token4" request after).1 ≡ 0)
refresh_once_example =
    refresh_once plain "token1" "s2" "s4" "token2" "token4" request request signed_in after pair
      (ne_of_test "s2" "" (unfold string_discrete in refl)) refreshed
