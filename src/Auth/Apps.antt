-- ===== src/Auth/Apps.antt =====
-- backend/app_registry.go: the mirror of the catalog's apps, and the credentials of apps.
use nim_connect.Base.{
  ℕ, Bool, true, false, not, ◌&&◌, ◌||◌, Option, none, some, List, [], ◌∷◌, ◌++◌, map, Text,
  text_eq, Result, ok, ◌>>=◌, ◌>>◌, guard, or_fail, if◌then◌else◌, find, select, exists, every,
  count, ◌==◌,
}
use nim_connect.Base.Rows.{update_where}
use nim_connect.Sessions.{is_audience}
use nim_connect.Auth.{
  AppRow, AppEntry, AuthTables, AuthError, AuthTx, SessionRow, is_app, is_unset, canonical_scopes,
  revoke_where,
}
use nim_connect.Auth.Scopes.{is_known_scope}

pub record AppRecord : Type 0 where
  pub audience : Text
  pub display_name : Text
  pub icon_url : Text
  pub verified : Bool
  pub owner_id : Text
  pub enabled : Bool
  pub scopes : List Text
  pub origins : List Text

abbrev pub entry_of : AppEntry → Text
entry_of r = r.entry

abbrev pub is_of_app : Text → AppEntry → Bool
is_of_app audience r = text_eq r.audience audience

-- SELECT … WHERE audience = audience ORDER BY …; the two columns are a key.
abbrev pub entries : Text → List AppEntry → List Text
entries audience rows = canonical_scopes (map entry_of (select (is_of_app audience) rows))

unfoldable pub get_app : Text → AuthTables → Result AuthError AppRecord
get_app audience db = do
  a ← or_fail (find (is_app audience) db.apps) AuthError.app_not_found
  ok (record {
    audience = audience;
    display_name = a.display_name;
    icon_url = a.icon_url;
    verified = a.verified;
    owner_id = a.owner_id;
    enabled = a.enabled;
    scopes = entries audience db.app_scopes;
    origins = entries audience db.app_origins;
  })

abbrev pub is_some_text : Text → Bool
is_some_text s = not (text_eq s [])

-- `uniqueSorted`
abbrev pub unique_sorted : List Text → List Text
unique_sorted values = canonical_scopes (select is_some_text values)

unfoldable pub equal_strings : List Text → List Text → Bool
equal_strings [] [] = true
equal_strings (x ∷ xs) (y ∷ ys) = text_eq x y && equal_strings xs ys
equal_strings _ _ = false

abbrev pub new_app : AppRecord → AppRow
new_app rec = record {
  audience = rec.audience;
  display_name = rec.display_name;
  icon_url = rec.icon_url;
  verified = rec.verified;
  owner_id = rec.owner_id;
  enabled = true;
  api_key_hash = none;
}

abbrev pub mirrored : AppRecord → AppRow → AppRow
mirrored rec a = record a {
  display_name = rec.display_name;
  icon_url = rec.icon_url;
  verified = rec.verified;
  owner_id = rec.owner_id;
}

unfoldable pub upsert_row : AppRecord → List AppRow → List AppRow
upsert_row rec apps =
    if exists (is_app rec.audience) apps
    then update_where (is_app rec.audience) (mirrored rec) apps
    else new_app rec ∷ apps

abbrev pub entry_row : Text → Text → AppEntry
entry_row audience entry = record { audience = audience; entry = entry }

-- DELETE and INSERT of an app's rows
unfoldable pub replace_entries : Text → List Text → List AppEntry → List AppEntry
replace_entries audience values rows =
    map (entry_row audience) values ++ select (λ r. not (is_of_app audience r)) rows

-- The owner or the declared scopes of an app that existed are others than before.
abbrev pub app_changed : AppRecord → List Text → Option AppRow → AuthTables → Bool
app_changed rec scopes none db = false
app_changed rec scopes (some prior) db =
    not (equal_strings (entries rec.audience db.app_scopes) scopes)
    || not (text_eq prior.owner_id rec.owner_id)

abbrev pub mirror_tables : AppRecord → List Text → AuthTables → AuthTables
mirror_tables rec scopes db = record db {
  apps = upsert_row rec db.apps;
  app_scopes = replace_entries rec.audience scopes db.app_scopes;
  app_origins = replace_entries rec.audience (unique_sorted rec.origins) db.app_origins;
}

abbrev pub is_unrevoked_for : Text → SessionRow → Bool
is_unrevoked_for audience r = text_eq r.audience audience && is_unset r.revoked_at

unfoldable pub revoke_changed : Bool → Text → ℕ → AuthTx ℕ
revoke_changed changed audience db_now db =
    if changed then revoke_where (is_unrevoked_for audience) db_now db else ok (0, db)

unfoldable pub upsert_app : AppRecord → ℕ → AuthTx ℕ
upsert_app rec db_now db =
    let scopes = canonical_scopes rec.scopes in
    do
      guard (is_audience rec.audience) AuthError.invalid_app
      guard (every is_known_scope scopes) AuthError.invalid_app
      revoke_changed (app_changed rec scopes (find (is_app rec.audience) db.apps) db) rec.audience
          db_now (mirror_tables rec scopes db)

-- `none` for the random key is its error.
unfoldable pub issue_app_api_key : (hash : Text → Text) → Option Text → Text → AuthTx Text
issue_app_api_key hash new_key audience db = do
  key ← or_fail new_key AuthError.failed
  guard (count (is_app audience) db.apps == 1) AuthError.app_not_found
  ok (
    key,
    record db {
      apps =
          update_where (is_app audience) (λ a. record a { api_key_hash = some (hash key) }) db.apps;
    },
  )

abbrev pub is_hash : Option Text → Text → Bool
is_hash none h = false
is_hash (some k) h = text_eq k h

unfoldable pub resolve_app_by_api_key :
    (hash : Text → Text) → Text → AuthTables → Result AuthError Text
resolve_app_by_api_key hash key db = do
  guard (not (text_eq key [])) AuthError.app_not_found
  a ←
      or_fail (find (λ a. is_hash a.api_key_hash (hash key) && a.enabled) db.apps)
        AuthError.app_not_found
  ok a.audience
