-- ===== src/Auth.antt =====
-- backend/auth_store.go and backend/app_registry.go: the tables of apps, challenges and sessions, and the
-- store's statements and transactions, with the constraints of migrations/002. Times are in
-- microseconds, the tables' unit. `hash` stands for SHA-256; the random texts, none where the source
-- fails, and the readings of the clocks, the process's `now` and the database's, are arguments.
pub mod Scopes
pub mod Apps
pub mod Calls
pub mod Dead
pub mod Revoked
pub mod Declared
pub mod Allowed
pub mod Actors
pub mod Spent
pub mod Exchange
pub mod Handlers
mod Examples
use nim_connect.Base.{
  ℕ, ◌+◌, ◌*◌, Bool, true, false, not, ◌&&◌, ◌||◌, Option, none, some, List, [], ◌∷◌, map, Text,
  codes, text_eq, Result, ok, err, ◌>>=◌, ◌>>◌, guard, or_fail, if◌then◌else◌, find, select, exists,
  every, count, ltb, leb, ◌==◌,
}
use nim_connect.Base.Rows.{update_where}
use nim_connect.Address.{compact_address}

pub record AppRow : Type 0 where
  pub audience : Text
  pub display_name : Text
  pub icon_url : Text
  pub verified : Bool
  pub owner_id : Text
  pub enabled : Bool
  pub api_key_hash : Option Text

-- A row of `auth_app_scopes`, or of `auth_app_origins`.
pub record AppEntry : Type 0 where
  pub audience : Text
  pub entry : Text

pub record ChallengeRow : Type 0 where
  pub id : Text
  pub nonce_hash : Text
  pub address : Text
  pub audience : Text
  pub scopes : List Text
  pub message : Text
  pub created_at : ℕ
  pub expires_at : ℕ
  pub consumed_at : Option ℕ

pub record SessionRow : Type 0 where
  pub token_hash : Text
  pub address : Text
  pub audience : Text
  pub scopes : List Text
  pub created_at : ℕ
  pub expires_at : ℕ
  pub last_used_at : ℕ
  pub revoked_at : Option ℕ

pub record AuthTables : Type 0 where
  pub apps : List AppRow
  pub app_scopes : List AppEntry
  pub app_origins : List AppEntry
  pub challenges : List ChallengeRow
  pub sessions : List SessionRow

pub data AuthError : Type 0 where
  scope_not_allowed challenge_unavailable session_unavailable app_not_found invalid_app failed :
      AuthError

abbrev pub AuthTx : Type 0 → Type 0
AuthTx A = AuthTables → Result AuthError (A × AuthTables)

abbrev pub auth_challenge_ttl : ℕ
auth_challenge_ttl = 5 * 60 * 1000000

abbrev pub auth_session_ttl : ℕ
auth_session_ttl = 7 * 24 * 60 * 60 * 1000000

-- The order of strings, by bytes.
unfoldable pub text_less : Text → Text → Bool
text_less [] [] = false
text_less [] (y ∷ ys) = true
text_less (x ∷ xs) [] = false
text_less (x ∷ xs) (y ∷ ys) = let rest = text_less xs ys in ltb x y || ((x == y) && rest)

-- A set of strings as its sorted list.
unfoldable pub insert_scope : Text → List Text → List Text
insert_scope s [] = s ∷ []
insert_scope s (t ∷ ts) =
    let rest = insert_scope s ts in
    if text_eq s t then t ∷ ts else if text_less s t then s ∷ t ∷ ts else t ∷ rest

unfoldable pub canonical_scopes : List Text → List Text
canonical_scopes [] = []
canonical_scopes (s ∷ ss) = insert_scope s (canonical_scopes ss)

abbrev pub is_app : Text → AppRow → Bool
is_app audience a = text_eq a.audience audience

abbrev pub is_enabled : Text → AppRow → Bool
is_enabled audience a = is_app audience a && a.enabled

abbrev pub is_entry : Text → Text → AppEntry → Bool
is_entry audience entry r = text_eq r.audience audience && text_eq r.entry entry

abbrev pub is_empty : List Text → Bool
is_empty [] = true
is_empty (x ∷ xs) = false

abbrev pub declares : Text → AuthTables → Text → Bool
declares audience db scope = exists (is_entry audience scope) db.app_scopes

unfoldable pub validate_scopes : Text → List Text → AuthTables → Result AuthError (List Text)
validate_scopes audience requested db =
    let canonical = canonical_scopes requested in
    do
      guard (not (is_empty canonical)) AuthError.scope_not_allowed
      guard (every (λ s. exists (is_enabled audience) db.apps && declares audience db s) canonical)
          AuthError.scope_not_allowed
      ok canonical

unfoldable pub origin_allowed : Text → Text → AuthTables → Bool
origin_allowed audience origin db =
    text_eq origin []
    || (exists (is_entry audience origin) db.app_origins && exists (is_enabled audience) db.apps)

unfoldable pub origin_registered : Text → AuthTables → Bool
origin_registered origin db =
    not (text_eq origin [])
    && exists (λ r. text_eq r.entry origin && exists (is_enabled r.audience) db.apps) db.app_origins

abbrev pub has_challenge_id : Text → ChallengeRow → Bool
has_challenge_id id c = text_eq c.id id

abbrev pub has_nonce_hash : Text → ChallengeRow → Bool
has_nonce_hash h c = text_eq c.nonce_hash h

abbrev pub has_token_hash : Text → SessionRow → Bool
has_token_hash h r = text_eq r.token_hash h

abbrev pub is_unset : Option ℕ → Bool
is_unset none = true
is_unset (some t) = false

abbrev pub new_challenge : Text → Text → Text → Text → List Text → Text → ℕ → ChallengeRow
new_challenge id nonce_hash address audience scopes message now = record {
  id = id;
  nonce_hash = nonce_hash;
  address = compact_address address;
  audience = audience;
  scopes = scopes;
  message = message;
  created_at = now;
  expires_at = now + auth_challenge_ttl;
  consumed_at = none;
}

-- Two statements, as those of `issue_session`.
unfoldable pub create_challenge :
    (hash : Text → Text)
    → Option Text
    → Option Text
    → ℕ
    → Text
    → Text
    → List Text
    → (Text → ℕ → Text)
    → AuthTables
    → AuthTx ChallengeRow
create_challenge hash new_id new_nonce now address audience scopes build_message checked db = do
  canonical ← validate_scopes audience scopes checked
  id ← or_fail new_id AuthError.failed
  nonce ← or_fail new_nonce AuthError.failed
  guard (exists (is_app audience) db.apps) AuthError.failed
  guard (not (exists (has_challenge_id id) db.challenges)) AuthError.failed
  guard (not (exists (has_nonce_hash (hash nonce)) db.challenges)) AuthError.failed
  let c =
        new_challenge id (hash nonce) address audience canonical
          (build_message nonce (now + auth_challenge_ttl)) now in
      ok (c, record db { challenges = c ∷ db.challenges })

abbrev pub is_open : Text → ℕ → ChallengeRow → Bool
is_open id now c = has_challenge_id id c && (is_unset c.consumed_at && ltb now c.expires_at)

-- A time of consumption before that of creation breaks the table's constraint.
unfoldable pub consume_challenge : Text → ℕ → AuthTx ChallengeRow
consume_challenge id db_now db = do
  c ← or_fail (find (is_open id db_now) db.challenges) AuthError.challenge_unavailable
  guard (leb c.created_at db_now) AuthError.failed
  ok (
    c,
    record db {
      challenges =
          update_where (is_open id db_now) (λ x. record x { consumed_at = some db_now })
            db.challenges;
    },
  )

unfoldable pub get_challenge : Text → ℕ → AuthTables → Result AuthError ChallengeRow
get_challenge id now db =
    or_fail (find (is_open id now) db.challenges) AuthError.challenge_unavailable

abbrev pub new_session : Text → Text → Text → List Text → ℕ → SessionRow
new_session token_hash address audience scopes now = record {
  token_hash = token_hash;
  address = compact_address address;
  audience = audience;
  scopes = scopes;
  created_at = now;
  expires_at = now + auth_session_ttl;
  last_used_at = now;
  revoked_at = none;
}

-- Two statements and no transaction: `checked` is the tables that the check of the scopes reads, and the
-- row is inserted later, where the audience need only be that of an app. The answer is the token and the
-- row, whose hash is the grant's id.
unfoldable pub issue_session :
    (hash : Text → Text)
    → Option Text
    → ℕ
    → Text
    → Text
    → List Text
    → AuthTables
    → AuthTx (Text × SessionRow)
issue_session hash new_token now address audience scopes checked db = do
  canonical ← validate_scopes audience scopes checked
  token ← or_fail new_token AuthError.failed
  guard (exists (is_app audience) db.apps) AuthError.failed
  guard (not (exists (has_token_hash (hash token)) db.sessions)) AuthError.failed
  let r = new_session (hash token) address audience canonical now in
      ok ((token, r), record db { sessions = r ∷ db.sessions })

abbrev pub is_valid_session : AuthTables → ℕ → SessionRow → Bool
is_valid_session db now r =
    is_unset r.revoked_at && (ltb now r.expires_at && exists (is_enabled r.audience) db.apps)

abbrev pub is_session : (hash : Text → Text) → Text → AuthTables → ℕ → SessionRow → Bool
is_session hash token db now r = has_token_hash (hash token) r && is_valid_session db now r

unfoldable pub resolve_session :
    (hash : Text → Text) → Text → ℕ → AuthTables → Result AuthError SessionRow
resolve_session hash token now db = do
  guard (not (text_eq token [])) AuthError.session_unavailable
  or_fail (find (is_session hash token db now) db.sessions) AuthError.session_unavailable

unfoldable pub touch_session :
    (hash : Text → Text) → Text → ℕ → AuthTables → Result AuthError (Unit {0}) × AuthTables
touch_session hash token now db =
    if text_eq token [] then (err AuthError.session_unavailable, db) else (
      (if count (is_session hash token db now) db.sessions == 1
          then ok tt
          else err AuthError.session_unavailable),
      record db {
        sessions =
            update_where (is_session hash token db now) (λ r. record r { last_used_at = now })
              db.sessions;
      },
    )

abbrev pub revoked : ℕ → SessionRow → SessionRow
revoked now r = record r { revoked_at = some now }

-- UPDATE auth_sessions SET revoked_at = now WHERE test: it fails where a row would be revoked before it
-- was created, and else answers how many rows it changed.
unfoldable pub revoke_where : (SessionRow → Bool) → ℕ → AuthTx ℕ
revoke_where test now db = do
  guard (not (exists (λ r. test r && ltb now r.created_at) db.sessions)) AuthError.failed
  ok (count test db.sessions, record db { sessions = update_where test (revoked now) db.sessions })

abbrev pub is_unrevoked_token : Text → SessionRow → Bool
is_unrevoked_token h r = has_token_hash h r && is_unset r.revoked_at

-- The change stays where the number of rows is not 1, which is answered with an error.
unfoldable pub revoke_session :
    (hash : Text → Text) → Text → ℕ → AuthTables → Result AuthError (Unit {0}) × AuthTables
revoke_session hash token now db =
    if text_eq token []
    then (err AuthError.session_unavailable, db)
    else elim (revoke_where (is_unrevoked_token (hash token)) now db) [
      | err e ↦ (err e, db)
      | ok (n, db') ↦ ((if n == 1 then ok tt else err AuthError.session_unavailable), db')
    ]

abbrev pub is_unrevoked_of : Text → SessionRow → Bool
is_unrevoked_of address r = text_eq r.address address && is_unset r.revoked_at

abbrev pub revoke_all_sessions : Text → ℕ → AuthTx ℕ
revoke_all_sessions address now = revoke_where (is_unrevoked_of (compact_address address)) now

-- The live grants of a wallet, each with its app's row; their order does not matter here.
unfoldable pub list_grants : Text → ℕ → AuthTables → List SessionRow
list_grants address now db =
    select (λ r. text_eq r.address (compact_address address) && is_valid_session db now r)
      db.sessions
