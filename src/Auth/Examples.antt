-- ===== src/Auth/Examples.antt =====
-- The authorization store on a concrete app.
use nim_connect.Base.{
  ◌&&◌, ◌≤◌, ◌≡◌, refl, Bool, true, false, none, some, [], ◌∷◌, Text, codes, text_eq, ok, err, find,
  exists, every, select, count, arith,
}
use nim_connect.Base.Rows.{update_where}
use nim_connect.Address.{compact_address}
use nim_connect.Market.Handlers.{Response}
use nim_connect.Sessions.{is_audience}
use nim_connect.Auth.{
  AppRow, AuthTables, AuthError, ChallengeRow, SessionRow, insert_scope, canonical_scopes, is_app,
  is_enabled, declares, has_token_hash, has_challenge_id, validate_scopes, get_challenge,
  consume_challenge, new_session, issue_session, resolve_session, revoke_where, revoke_session,
}
use nim_connect.Auth.Apps.{
  entries, AppRecord, equal_strings, upsert_row, replace_entries, revoke_changed, upsert_app,
}
use nim_connect.Auth.Calls.{AuthCall, run_calls}
use nim_connect.Auth.Revoked.{revoked_for_ever, changed_app_ends_sessions}
use nim_connect.Auth.Actors.{scoped_actor_allowed}
use nim_connect.Auth.Exchange.{challenge_used_once, exchange_signed}
use nim_connect.Auth.Handlers.{
  AuthActor, ExchangeRequest, create_auth_session_handler, resolve_scoped_actor,
}

abbrev same : Text → Text
same t = t

abbrev accepts : Text → Text → Text → Text → Bool
accepts address public_key signature message = true

abbrev shop : Text
shop = codes "shop"

abbrev friends_read : Text
friends_read = codes "friends:read"

abbrev shop_app : AppRow
shop_app = record {
  audience = shop;
  display_name = codes "Shop";
  icon_url = [];
  verified = true;
  owner_id = codes "bob";
  enabled = true;
  api_key_hash = none;
}

abbrev challenge : ChallengeRow
challenge = record {
  id = codes "c1";
  nonce_hash = codes "n1";
  address = codes "NQAA";
  audience = shop;
  scopes = friends_read ∷ [];
  message = codes "m";
  created_at = 10;
  expires_at = 300000010;
  consumed_at = none;
}

abbrev start : AuthTables
start = record {
  apps = shop_app ∷ [];
  app_scopes = record { audience = shop; entry = friends_read } ∷ [];
  app_origins = [];
  challenges = challenge ∷ [];
  sessions = [];
}

abbrev session : SessionRow
session = new_session (codes "t1") (codes "NQAA") shop (friends_read ∷ []) 21

abbrev started : AuthTables
started = record start {
  challenges = record challenge { consumed_at = some 20 } ∷ [];
  sessions = session ∷ [];
}

abbrev exchange : ExchangeRequest
exchange = record { challenge_id = codes "c1"; public_key = codes "pk"; signature = codes "sig" }

exchanged :
    create_auth_session_handler same accepts (some (codes "t1")) 19 20 21 (some exchange) start
    ≡ (Response.answered (codes "t1", session), started)
unfolding create_auth_session_handler get_challenge consume_challenge issue_session validate_scopes
    canonical_scopes insert_scope text_eq find exists every update_where compact_address
exchanged = refl

one_challenge : count (has_challenge_id (codes "c1")) start.challenges ≤ 1
unfolding count text_eq
one_challenge = omega arith

not_empty : text_eq (codes "c1") [] ≡ false
unfolding text_eq
not_empty = refl

challenge_used_once_example :
    (create_auth_session_handler same accepts
      (some (codes "t2"))
      30
      31
      32
      (some exchange)
      (run_calls same (AuthCall.touches (codes "t1") 25 ∷ []) started)).0
    ≡ Response.unauthorized
challenge_used_once_example =
    challenge_used_once same accepts (some (codes "t1")) (some (codes "t2")) 19 20 21 30 31 32
      exchange exchange start started (codes "t1", session) (AuthCall.touches (codes "t1") 25 ∷ [])
      one_challenge exchanged not_empty refl

token_not_empty : text_eq (codes "t1") [] ≡ false
unfolding text_eq
token_not_empty = refl

exchange_signed_example :
    (c : ChallengeRow) × (get_challenge (codes "c1") 19 start ≡ ok c)
    × (accepts c.address (codes "pk") (codes "sig") c.message ≡ true)
    × (session ≡ new_session (codes "t1") c.address c.audience (canonical_scopes c.scopes) 21)
    × (resolve_session same (codes "t1") 40 started ≡ ok session)
exchange_signed_example =
    exchange_signed same accepts (some (codes "t1")) 19 20 21 40 exchange start started (codes "t1")
      session one_challenge exchanged token_not_empty (omega arith)

ended : (revoke_session same (codes "t1") 30 started).0 ≡ ok tt
unfolding revoke_session revoke_where text_eq exists count
ended = refl

revoked_for_ever_example :
    resolve_session same (codes "t1") 50 (
      run_calls same
        (AuthCall.touches (codes "t1") 40 ∷ [])
        (revoke_session same (codes "t1") 30 started).1)
    ≡ err AuthError.session_unavailable
revoked_for_ever_example =
    revoked_for_ever same (codes "t1") 30 50 started (AuthCall.touches (codes "t1") 40 ∷ []) ended

-- The app with another owner.
abbrev sold : AppRecord
sold = record {
  audience = shop;
  display_name = codes "Shop";
  icon_url = [];
  verified = true;
  owner_id = codes "eve";
  enabled = true;
  scopes = friends_read ∷ [];
  origins = [];
}

abbrev after_sale : AuthTables
after_sale = record started {
  apps = record shop_app { owner_id = codes "eve" } ∷ [];
  sessions = record session { revoked_at = some 35 } ∷ [];
}

sale : upsert_app sold 35 started ≡ ok (1, after_sale)
unfolding upsert_app is_audience revoke_changed revoke_where upsert_row replace_entries
    equal_strings canonical_scopes insert_scope text_eq find exists every select count update_where
sale = refl

is_sold :
    (text_eq (codes "bob") (codes "eve")
      && equal_strings (entries shop started.app_scopes) (canonical_scopes (friends_read ∷ [])))
    ≡ false
unfolding text_eq
is_sold = refl

is_listed : find (is_app shop) started.apps ≡ some shop_app
unfolding text_eq find
is_listed = refl

resolved : resolve_session same (codes "t1") 30 started ≡ ok session
unfolding resolve_session text_eq find exists
resolved = refl

one_session : count (has_token_hash (codes "t1")) started.sessions ≤ 1
unfolding count text_eq
one_session = omega arith

changed_app_ends_sessions_example :
    resolve_session same
      (codes "t1")
      40
      (run_calls same (AuthCall.touches (codes "t1") 38 ∷ []) after_sale)
    ≡ err AuthError.session_unavailable
changed_app_ends_sessions_example =
    changed_app_ends_sessions same (codes "t1") 30 35 40 1 sold shop_app started after_sale session
      (AuthCall.touches (codes "t1") 38 ∷ []) one_session resolved refl is_listed is_sold sale

abbrev issue_call : AuthCall
issue_call = AuthCall.issues (some (codes "t1")) 21 (codes "nq aa") shop (friends_read ∷ []) start

abbrev shop_actor : AuthActor
shop_actor = record {
  session_id = codes "t1";
  address = codes "NQAA";
  audience = shop;
  scopes = friends_read ∷ [];
}

let_through :
    (resolve_scoped_actor same
      (codes "t1")
      friends_read
      30
      31
      (run_calls same (issue_call ∷ []) start)).0
    ≡ some shop_actor
unfolding resolve_scoped_actor run_calls issue_session validate_scopes canonical_scopes insert_scope
    resolve_session text_eq find exists every compact_address
let_through = refl

scoped_actor_allowed_example :
    (exists (is_enabled shop) (run_calls same (issue_call ∷ []) start).apps ≡ true)
    × (declares shop (run_calls same (issue_call ∷ []) start) friends_read ≡ true)
    × (exists (λ s. text_eq s friends_read) (friends_read ∷ []) ≡ true)
unfolding run_calls
scoped_actor_allowed_example =
    scoped_actor_allowed same (issue_call ∷ []) start (codes "t1") friends_read 30 31 shop_actor
      refl (refl, tt) let_through

-- The app's scope is taken from it between the check and the insertion.
abbrev undeclared : AuthTables
undeclared = record start { app_scopes = [] }

stale_check :
    ((resolve_scoped_actor same
        (codes "t1")
        friends_read
        30
        31
        (run_calls same (issue_call ∷ []) undeclared)).0
      ≡ some shop_actor)
    × (declares shop (run_calls same (issue_call ∷ []) undeclared) friends_read ≡ false)
unfolding resolve_scoped_actor run_calls issue_session validate_scopes canonical_scopes insert_scope
    resolve_session text_eq find exists every compact_address
stale_check = (refl, refl)
