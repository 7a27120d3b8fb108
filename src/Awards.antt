-- ===== src/Awards.antt =====
-- backend/awards.go and backend/awards_handlers.go. The table `awards` is the list of its rows, with its
-- key of app, achievement and address. `valid_json` stands for `json.Valid`; the progress is none where
-- the request has none.
pub mod Granted
mod Examples
use nim_connect.Base.{
  ℕ, Bool, true, false, not, ◌&&◌, ◌||◌, Option, none, some, List, [], ◌∷◌, map, Text, codes,
  text_eq, length, Result, ok, err, ◌>>=◌, ◌>>◌, guard, or_fail, if◌then◌else◌, find, select,
  exists, leb,
}
use nim_connect.Address.{compact_address, normalize_address}
use nim_connect.Address.Iban.{is_valid_nimiq_address}
use nim_connect.Market.Handlers.{Response}
use nim_connect.Auth.{AuthTables, AuthError}
use nim_connect.Auth.Apps.{resolve_app_by_api_key}
use nim_connect.Auth.Handlers.{AuthActor, bearer_token, resolve_scoped_actor}

pub record Award : Type 0 where
  pub app_id : Text
  pub achievement_id : Text
  pub address : Text
  pub title : Text
  pub description : Text
  pub rarity : Text
  pub progress : Option Text
  pub visibility : Text
  pub granted_at : ℕ

pub data AwardError : Type 0 where
  bad_request unavailable : AwardError

abbrev pub is_progress : (valid_json : Text → Bool) → Option Text → Bool
is_progress valid_json none = true
is_progress valid_json (some p) = leb (length p) 1024 && valid_json p

abbrev pub is_visibility : Text → Bool
is_visibility v = text_eq v [] || (text_eq v (codes "public") || text_eq v (codes "private"))

unfoldable pub validate_award : (valid_json : Text → Bool) → Award → Bool
validate_award valid_json a =
    is_valid_nimiq_address a.address
    && ((not (text_eq a.achievement_id []) && leb (length a.achievement_id) 128)
        && ((not (text_eq a.title []) && leb (length a.title) 128)
            && (leb (length a.description) 500
                && (leb (length a.rarity) 32
                    && (is_progress valid_json a.progress && is_visibility a.visibility)))))

abbrev pub is_award : Text → Text → Text → Award → Bool
is_award app_id achievement_id address a =
    text_eq a.app_id app_id
    && (text_eq a.achievement_id achievement_id && text_eq a.address address)

-- The row that is inserted, at the database's time.
abbrev pub award_row : ℕ → Award → Award
award_row db_now a = record a {
  address = compact_address a.address;
  visibility = if text_eq a.visibility [] then codes "public" else a.visibility;
  granted_at = db_now;
}

-- INSERT … ON CONFLICT DO NOTHING
unfoldable pub insert_award : Award → List Award → List Award
insert_award a rows =
    if exists (is_award a.app_id a.achievement_id a.address) rows then rows else a ∷ rows

abbrev pub shown_award : Award → Award
shown_award a = record a { address = normalize_address a.address }

unfoldable pub get_award : Text → Text → Text → List Award → Result AwardError Award
get_award app_id achievement_id address rows = do
  a ← or_fail (find (is_award app_id achievement_id address) rows) AwardError.unavailable
  ok (shown_award a)

unfoldable pub grant :
    (valid_json : Text → Bool) → ℕ → Award → List Award → Result AwardError (Award × List Award)
grant valid_json db_now a rows =
    let rows' = insert_award (award_row db_now a) rows in
    do
      guard (validate_award valid_json a) AwardError.bad_request
      stored ← get_award a.app_id a.achievement_id (compact_address a.address) rows'
      ok (stored, rows')

abbrev pub is_listed : Text → Bool → Award → Bool
is_listed address include_private a =
    text_eq a.address address && (include_private || text_eq a.visibility (codes "public"))

-- The rows stand with the last one granted first.
unfoldable pub list_for_address : Text → Bool → List Award → Result AwardError (List Award)
list_for_address address include_private rows = do
  guard (is_valid_nimiq_address address) AwardError.bad_request
  ok (map shown_award (select (is_listed (compact_address address) include_private) rows))

abbrev pub grant_reply :
    Result AwardError (Award × List Award) → List Award → Response Award × List Award
grant_reply (ok (a, rows')) rows = (Response.answered a, rows')
grant_reply (err AwardError.bad_request) rows = (Response.bad_request, rows)
grant_reply (err AwardError.unavailable) rows = (Response.internal_error, rows)

module _ (hash : Text → Text) (valid_json : Text → Bool) where
  abbrev pub create_for :
      Result AuthError Text → ℕ → Option Award → List Award → Response Award × List Award
  create_for (err e) db_now body rows = (Response.unauthorized, rows)
  create_for (ok app_id) db_now none rows = (Response.bad_request, rows)
  create_for (ok app_id) db_now (some a) rows =
      grant_reply (grant valid_json db_now (record a { app_id = app_id }) rows) rows

  -- The body's award comes without the app, which is the key's.
  unfoldable pub awards_create_handler :
      Text → ℕ → Option Award → AuthTables → List Award → Response Award × List Award
  awards_create_handler header db_now body db rows =
      create_for (resolve_app_by_api_key hash (bearer_token header) db) db_now body rows

abbrev pub is_own : Option AuthActor → Text → Bool
is_own none address = false
is_own (some actor) address = text_eq (compact_address actor.address) (compact_address address)

abbrev pub awards_reply : Result AwardError (List Award) → Response (List Award)
awards_reply (ok awards) = Response.answered awards
awards_reply (err AwardError.bad_request) = Response.bad_request
awards_reply (err AwardError.unavailable) = Response.internal_error

unfoldable pub achievements_list_handler :
    (hash : Text → Text)
    → Text
    → ℕ
    → ℕ
    → Text
    → AuthTables
    → List Award
    → Response (List Award) × AuthTables
achievements_list_handler hash header now touched address db rows =
    let token = bearer_token header in
    let (actor, db') = resolve_scoped_actor hash token (codes "achievements:read") now touched db in
    if text_eq token []
    then (awards_reply (list_for_address address false rows), db)
    else (awards_reply (list_for_address address (is_own actor address) rows), db')
