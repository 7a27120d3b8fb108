-- ===== src/Auth/Handlers.antt =====
-- backend/auth_handlers.go, auth_middleware.go and app_registry_handlers.go. A body is none where it is
-- no JSON. `verify_signed` stands for `verifySignedMessage`, `format_time` for the text of a time, and
-- `hash` for SHA-256.
use nim_connect.Base.{
  ℕ, Bool, true, false, not, ◌||◌, Option, none, some, List, [], map, Text, codes, text_eq, Result,
  ok, err, if◌then◌else◌, exists, length, take, drop, ltb,
}
use nim_connect.Hex.{trim_space}
use nim_connect.Address.{to_upper}
use nim_connect.Address.Iban.{is_valid_nimiq_address}
use nim_connect.Market.Handlers.{Response}
use nim_connect.Sessions.{UserSessions, is_audience, address_for}
use nim_connect.Sessions.Admin.{AdminSessions, valid}
use nim_connect.Auth.{
  AuthTables, AuthError, ChallengeRow, SessionRow, origin_allowed, create_challenge, get_challenge,
  consume_challenge, issue_session, resolve_session, touch_session, revoke_session,
  revoke_all_sessions, list_grants,
}
use nim_connect.Auth.Scopes.{validate_authorization_scopes, build_authorization_message}
use nim_connect.Auth.Apps.{AppRecord, get_app, upsert_app, issue_app_api_key}

pub record AuthActor : Type 0 where
  pub session_id : Text
  pub address : Text
  pub audience : Text
  pub scopes : List Text

abbrev pub grant_has_scope : SessionRow → Text → Bool
grant_has_scope grant required = exists (λ s. text_eq s required) grant.scopes

abbrev pub actor_of : SessionRow → AuthActor
actor_of grant = record {
  session_id = grant.token_hash;
  address = grant.address;
  audience = grant.audience;
  scopes = grant.scopes;
}

-- The second reading of the clock is that of `TouchSession`, whose error is dropped.
unfoldable pub resolve_scoped_actor :
    (hash : Text → Text) → Text → Text → ℕ → ℕ → AuthTables → Option AuthActor × AuthTables
resolve_scoped_actor hash token required now touched db = elim (resolve_session hash token now db) [
  | err e ↦ (none, db)
  | ok grant ↦
      if grant_has_scope grant required
      then (some (actor_of grant), (touch_session hash token touched db).1)
      else (none, db)
]

-- strings.EqualFold of the header's first seven bytes, which are ASCII where it holds
unfoldable pub bearer_token : Text → Text
bearer_token header =
    if ltb (length header) 8 || not (text_eq (map to_upper (take 7 header)) (codes "BEARER "))
    then []
    else trim_space (drop 7 header)

pub record CreateChallengeRequest : Type 0 where
  pub address : Text
  pub audience : Text
  pub scopes : List Text

pub record ExchangeRequest : Type 0 where
  pub challenge_id : Text
  pub public_key : Text
  pub signature : Text

-- `message` of what `buildAuthorizationMessage` answers; it is empty with an error.
abbrev pub message_of : {E : Type 0} → Result E (Text × List Text) → Text
message_of (ok (message, scopes)) = message
message_of (err e) = []

module _ (hash : Text → Text) (format_time : ℕ → Text) where
  abbrev pub challenge_reply :
      Result AuthError (ChallengeRow × AuthTables) → AuthTables → Response ChallengeRow × AuthTables
  challenge_reply (ok (c, db')) db = (Response.answered c, db')
  challenge_reply (err AuthError.scope_not_allowed) db = (Response.forbidden, db)
  challenge_reply (err _) db = (Response.internal_error, db)

  unfoldable pub challenge_with :
      {E : Type 0}
      → Option Text
      → Option Text
      → ℕ
      → Text
      → CreateChallengeRequest
      → Result E (List Text)
      → AuthTables
      → Response ChallengeRow × AuthTables
  challenge_with id nonce_text now origin req (err e) db = (Response.bad_request, db)
  challenge_with id nonce_text now origin req (ok canonical) db =
      if not (origin_allowed req.audience origin db)
      then (Response.forbidden, db)
      else challenge_reply
          (create_challenge hash id nonce_text now req.address req.audience canonical
            (λ n expires_at. message_of (
              build_authorization_message format_time req.address req.audience canonical expires_at
                n))
            db db)
          db

  unfoldable pub create_auth_challenge_handler :
      Option Text
      → Option Text
      → ℕ
      → Text
      → Option CreateChallengeRequest
      → AuthTables
      → Response ChallengeRow × AuthTables
  create_auth_challenge_handler id nonce_text now origin none db = (Response.bad_request, db)
  create_auth_challenge_handler id nonce_text now origin (some req) db =
      if not (is_valid_nimiq_address req.address) || not (is_audience req.audience)
      then (Response.bad_request, db)
      else challenge_with id nonce_text now origin req (validate_authorization_scopes req.scopes) db

module _ (hash : Text → Text) (verify_signed : Text → Text → Text → Text → Bool) where
  abbrev pub issue_reply :
      Result AuthError ((Text × SessionRow) × AuthTables)
      → AuthTables
      → Response (Text × SessionRow) × AuthTables
  issue_reply (ok (a, db')) db = (Response.answered a, db')
  issue_reply (err e) db = (Response.internal_error, db)

  abbrev pub exchange_consumed :
      Option Text
      → ℕ
      → Result AuthError (ChallengeRow × AuthTables)
      → AuthTables
      → Response (Text × SessionRow) × AuthTables
  exchange_consumed token issued (err e) db = (Response.unauthorized, db)
  exchange_consumed token issued (ok (c, db')) db =
      issue_reply (issue_session hash token issued c.address c.audience c.scopes db' db') db'

  abbrev pub exchange_found :
      Option Text
      → ℕ
      → ℕ
      → ExchangeRequest
      → Result AuthError ChallengeRow
      → AuthTables
      → Response (Text × SessionRow) × AuthTables
  exchange_found token db_now issued req (err e) db = (Response.unauthorized, db)
  exchange_found token db_now issued req (ok c) db =
      if not (verify_signed c.address req.public_key req.signature c.message)
      then (Response.unauthorized, db)
      else exchange_consumed token issued (consume_challenge req.challenge_id db_now db) db

  -- The readings of the clocks: of `GetChallenge`, of the database, of `IssueSession`.
  unfoldable pub create_auth_session_handler :
      Option Text
      → ℕ
      → ℕ
      → ℕ
      → Option ExchangeRequest
      → AuthTables
      → Response (Text × SessionRow) × AuthTables
  create_auth_session_handler token now db_now issued none db = (Response.bad_request, db)
  create_auth_session_handler token now db_now issued (some req) db =
      if text_eq req.challenge_id []
      then (Response.bad_request, db)
      else exchange_found token db_now issued req (get_challenge req.challenge_id now db) db

module _ (hash : Text → Text) where
  abbrev pub auth_session_info_handler : Text → ℕ → AuthTables → Response SessionRow
  auth_session_info_handler header now db =
      elim (resolve_session hash (bearer_token header) now db) [
        | err e ↦ Response.unauthorized
        | ok grant ↦ Response.answered grant
      ]

  abbrev revoke_reply : Result AuthError (Unit {0}) × AuthTables → Response (Unit {0}) × AuthTables
  revoke_reply (ok u, db) = (Response.answered u, db)
  revoke_reply (err e, db) = (Response.unauthorized, db)

  unfoldable pub auth_session_revoke_handler :
      Text → ℕ → ℕ → AuthTables → Response (Unit {0}) × AuthTables
  auth_session_revoke_handler header now revoked_at db =
      elim (resolve_session hash (bearer_token header) now db) [
        | err e ↦ (Response.unauthorized, db)
        | ok grant ↦ revoke_reply (revoke_session hash (bearer_token header) revoked_at db)
      ]

  abbrev revoke_all_reply :
      Result AuthError (ℕ × AuthTables) → AuthTables → Response (Unit {0}) × AuthTables
  revoke_all_reply (ok (n, db')) db = (Response.answered tt, db')
  revoke_all_reply (err e) db = (Response.internal_error, db)

  unfoldable pub auth_sessions_revoke_all_handler :
      Text → ℕ → ℕ → AuthTables → Response (Unit {0}) × AuthTables
  auth_sessions_revoke_all_handler header now revoked_at db =
      elim (resolve_session hash (bearer_token header) now db) [
        | err e ↦ (Response.unauthorized, db)
        | ok grant ↦ revoke_all_reply (revoke_all_sessions grant.address revoked_at db) db
      ]

abbrev pub app_get_handler : Text → AuthTables → Response AppRecord
app_get_handler audience db = elim (get_app audience db) [
  | ok rec ↦ Response.answered rec
  | err AuthError.app_not_found ↦ Response.not_found
  | err _ ↦ Response.internal_error
]

abbrev mirror_reply :
    Result AuthError (ℕ × AuthTables) → AuthTables → Response (Unit {0}) × AuthTables
mirror_reply (ok (n, db')) db = (Response.answered tt, db')
mirror_reply (err e) db = (Response.bad_request, db)

abbrev mirror_body : Bool → ℕ → Option AppRecord → AuthTables → Response (Unit {0}) × AuthTables
mirror_body commits db_now none db = (Response.bad_request, db)
mirror_body commits db_now (some rec) db =
    if text_eq rec.display_name [] || not commits
    then (Response.bad_request, db)
    else mirror_reply (upsert_app rec db_now db) db

-- `if !sessions.Valid(…)`, with what `Valid` answers and leaves behind.
abbrev pub admin_only :
    {A : Type 0}
    → Bool × AdminSessions
    → AuthTables
    → Response A × AuthTables
    → Response A × AuthTables × AdminSessions
admin_only (false, s) db done = (Response.unauthorized, db, s)
admin_only (true, s) db (reply, db') = (reply, db', s)

-- `commits` is false where the database refuses the transaction.
unfoldable pub admin_apps_mirror_handler :
    ℕ
    → Text
    → Bool
    → ℕ
    → Option AppRecord
    → AdminSessions
    → AuthTables
    → Response (Unit {0}) × AuthTables × AdminSessions
admin_apps_mirror_handler swept admin_token commits db_now body s db =
    admin_only (valid swept admin_token s) db (mirror_body commits db_now body db)

abbrev key_reply : Result AuthError (Text × AuthTables) → AuthTables → Response Text × AuthTables
key_reply (ok (key, db')) db = (Response.answered key, db')
key_reply (err AuthError.app_not_found) db = (Response.not_found, db)
key_reply (err _) db = (Response.internal_error, db)

unfoldable pub admin_app_api_key_issue_handler :
    (hash : Text → Text)
    → ℕ
    → Text
    → Option Text
    → Text
    → AdminSessions
    → AuthTables
    → Response Text × AuthTables × AdminSessions
admin_app_api_key_issue_handler hash swept admin_token new_key audience s db =
    admin_only (valid swept admin_token s) db
      (key_reply (issue_app_api_key hash new_key audience db) db)

-- backend/authorizations_handlers.go; each grant is the session's row.
unfoldable pub authorizations_list_handler :
    ℕ → Text → ℕ → UserSessions → AuthTables → Response (List SessionRow) × UserSessions
authorizations_list_handler swept token now s db =
    let (address, s') = address_for swept token s in
    elim address [
      | none ↦ (Response.unauthorized, s')
      | some a ↦ (Response.answered (list_grants a now db), s')
    ]
