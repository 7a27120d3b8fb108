-- ===== src/Auth/Calls.antt =====
-- Runs of the authorization store's calls. One that the database does not commit changes nothing, and is
-- left out.
use nim_connect.Base.{ℕ, true, List, [], ◌∷◌, Option, Text}
use nim_connect.Base.Storage.{after}
use nim_connect.Auth.{
  AuthTables, create_challenge, consume_challenge, issue_session, touch_session, revoke_session,
  revoke_all_sessions,
}
use nim_connect.Auth.Apps.{AppRecord, upsert_app, issue_app_api_key}

-- The tables of `creates` and `issues` are those that the check of the scopes read, which may be older
-- than those of the insertion.
pub data AuthCall : Type 0 where
  creates :
      Option Text
      → Option Text
      → ℕ
      → Text
      → Text
      → List Text
      → (Text → ℕ → Text)
      → AuthTables
      → AuthCall
  consumes : Text → ℕ → AuthCall
  issues : Option Text → ℕ → Text → Text → List Text → AuthTables → AuthCall
  touches : Text → ℕ → AuthCall
  revokes : Text → ℕ → AuthCall
  revokes_all : Text → ℕ → AuthCall
  mirrors : AppRecord → ℕ → AuthCall
  gives_key : Option Text → Text → AuthCall

abbrev pub effect : (hash : Text → Text) → AuthCall → AuthTables → AuthTables
effect hash (AuthCall.creates id nonce now address audience scopes build checked) db =
    after true (create_challenge hash id nonce now address audience scopes build checked db) db
effect hash (AuthCall.consumes id db_now) db = after true (consume_challenge id db_now db) db
effect hash (AuthCall.issues token now address audience scopes checked) db =
    after true (issue_session hash token now address audience scopes checked db) db
effect hash (AuthCall.touches token now) db = (touch_session hash token now db).1
effect hash (AuthCall.revokes token now) db = (revoke_session hash token now db).1
effect hash (AuthCall.revokes_all address now) db =
    after true (revoke_all_sessions address now db) db
effect hash (AuthCall.mirrors rec db_now) db = after true (upsert_app rec db_now db) db
effect hash (AuthCall.gives_key key audience) db =
    after true (issue_app_api_key hash key audience db) db

-- The calls that follow a state, the last one first.
unfoldable pub run_calls : (hash : Text → Text) → List AuthCall → AuthTables → AuthTables
run_calls hash [] db = db
run_calls hash (c ∷ cs) db = effect hash c (run_calls hash cs db)
