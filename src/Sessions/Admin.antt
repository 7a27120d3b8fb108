-- ===== src/Sessions/Admin.antt =====
-- backend/admin.go: the sessions of administrators. Clocks are readings in nanoseconds since 1970; the
-- map of tokens is the list of its entries.
use nim_connect.Base.{
  ℕ, ◌+◌, ◌*◌, ◌/◌, ◌≡◌, refl, ◌∙◌, Bool, true, false, not, ◌&&◌, ◌||◌, Option, none, some, List,
  [], ◌∷◌, ◌++◌, map, Text, codes, text_eq, exists, select, if◌then◌else◌, ltb, arith,
}
use nim_connect.Base.Int.{ℤ}
use nim_connect.Address.{compact_address}
use nim_connect.Market.Intents.{format_int}
use nim_connect.Market.Handlers.{Response}
use nim_connect.Sessions.{minute}
use nim_connect.Sessions.Window.{is_fresh, second}

abbrev pub admin_session_ttl : ℕ
admin_session_ttl = 24 * 60 * minute

abbrev pub admin_login_window : ℕ
admin_login_window = 5 * minute

pub record AdminToken : Type 0 where
  pub token : Text
  pub expires_at : ℕ

pub record AdminSessions : Type 0 where
  pub whitelist : List Text
  pub tokens : List AdminToken

unfoldable pub new_admin_sessions : List Text → AdminSessions
new_admin_sessions addresses = record { whitelist = map compact_address addresses; tokens = [] }

unfoldable pub is_admin : Text → AdminSessions → Bool
is_admin address s = exists (text_eq (compact_address address)) s.whitelist

abbrev pub is_unexpired : ℕ → AdminToken → Bool
is_unexpired now t = ltb now t.expires_at

abbrev pub is_token : Text → AdminToken → Bool
is_token token t = text_eq t.token token

unfoldable pub sweep : ℕ → AdminSessions → AdminSessions
sweep now s = record s { tokens = select (is_unexpired now) s.tokens }

-- `none` for the random token is its error.
unfoldable pub admin_issue : Option Text → ℕ → ℕ → AdminSessions → Option AdminToken × AdminSessions
admin_issue none swept now s = (none, s)
admin_issue (some token) swept now s =
    let s' = sweep swept s in
    let t : AdminToken = record { token = token; expires_at = now + admin_session_ttl } in
    (some t, record s' { tokens = t ∷ select (λ x. not (is_token token x)) s'.tokens })

unfoldable pub valid : ℕ → Text → AdminSessions → Bool × AdminSessions
valid swept token s =
    let s' = sweep swept s in
    if text_eq token [] then (false, s) else (exists (is_token token) s'.tokens, s')

unfoldable pub admin_login_challenge : Text → ℤ → Text
admin_login_challenge address timestamp =
    codes "nimconnect-admin-login:v1:" ++ (compact_address address ++ (b':' ∷ format_int timestamp))

pub record AdminLoginRequest : Type 0 where
  pub address : Text
  pub public_key : Text
  pub signature : Text
  pub timestamp : ℤ

pub record AdminCircumstances : Type 0 where
  pub arrived : ℕ
  pub swept : ℕ
  pub issued : ℕ
  pub token : Option Text

-- The token, and when it expires, in seconds.
abbrev pub admin_reply : Option AdminToken × AdminSessions → Response (Text × ℕ) × AdminSessions
admin_reply (none, s) = (Response.internal_error, s)
admin_reply (some t, s) = (Response.answered (t.token, t.expires_at / second), s)

module _ (verify_signed : Text → Text → Text → Text → Bool) where
  unfoldable pub admin_login_handler :
      AdminCircumstances
      → Option AdminLoginRequest
      → AdminSessions
      → Response (Text × ℕ) × AdminSessions
  admin_login_handler at none s = (Response.bad_request, s)
  admin_login_handler at (some req) s =
      if not (is_fresh admin_login_window at.arrived req.timestamp)
      then (Response.unauthorized, s)
      else if not (is_admin req.address s)
      then (Response.unauthorized, s)
      else if not (
          verify_signed req.address req.public_key req.signature
            (admin_login_challenge req.address req.timestamp))
      then (Response.unauthorized, s)
      else admin_reply (admin_issue at.token at.swept at.issued s)

-- A request for a login, or a check of a token.
pub data AdminCall : Type 0 where
  logs_in : AdminCircumstances → AdminLoginRequest → AdminCall
  checks : ℕ → Text → AdminCall

abbrev is_live : ℕ → Text → List AdminToken → Bool
is_live now token ts = exists (λ t. is_token token t && is_unexpired now t) ts

live-select :
    (p : AdminToken → Bool) (now : ℕ) (token : Text) (ts : List AdminToken)
    → is_live now token (select p ts) ≡ true
    → is_live now token ts ≡ true
unfolding exists select
live-select p now token [] h = h
live-select p now token (t ∷ ts) h = ground (arith, live-select p now token ts)

valid_live :
    (now : ℕ) (token : Text) (ts : List AdminToken)
    → exists (is_token token) (select (is_unexpired now) ts) ≡ true
    → is_live now token ts ≡ true
unfolding exists select
valid_live now token [] h = h
valid_live now token (t ∷ ts) h = ground (arith, valid_live now token ts)

module _ (verify_signed : Text → Text → Text → Text → Bool) (admins : List Text) where
  abbrev pub perform : AdminCall → AdminSessions → AdminSessions
  perform (AdminCall.logs_in at req) s = (admin_login_handler verify_signed at (some req) s).1
  perform (AdminCall.checks swept token) s = (valid swept token s).1

  -- The sessions after calls from the start, the last call first.
  unfoldable pub run : List AdminCall → AdminSessions
  run [] = new_admin_sessions admins
  run (c ∷ cs) = perform c (run cs)

  abbrev gives : Option Text → Text → Bool
  gives none token = false
  gives (some t) token = text_eq t token

  -- The call is a login that gives the token, for 24 hours that are not over, to one of the
  -- administrators, who signed the challenge in time.
  abbrev pub is_login_of : ℕ → Text → AdminCall → Bool
  is_login_of now token (AdminCall.checks swept t) = false
  is_login_of now token (AdminCall.logs_in at req) =
      gives at.token token
      && (ltb now (at.issued + admin_session_ttl)
          && (is_fresh admin_login_window at.arrived req.timestamp
              && (exists (text_eq (compact_address req.address)) (map compact_address admins)
                  && verify_signed req.address req.public_key req.signature
                      (admin_login_challenge req.address req.timestamp))))

  same_list : (c : AdminCall) (s : AdminSessions) → (perform c s).whitelist ≡ s.whitelist
  unfolding admin_login_handler admin_issue valid sweep
  same_list (AdminCall.logs_in at req) s = ground arith
  same_list (AdminCall.checks swept token) s = ground arith

  run_list : (cs : List AdminCall) → (run cs).whitelist ≡ map compact_address admins
  unfolding run new_admin_sessions
  run_list [] = refl
  run_list (c ∷ cs) = same_list c (run cs) ∙ run_list cs

  live-issued :
      (token : Option Text) (swept issued now : ℕ) (t : Text) (s : AdminSessions)
      → is_live now t (admin_reply (admin_issue token swept issued s)).1.tokens ≡ true
      → ((gives token t && ltb now (issued + admin_session_ttl)) || is_live now t s.tokens) ≡ true
  unfolding admin_issue sweep exists
  live-issued none swept issued now t s h = h
  live-issued (some x) swept issued now t s h = ground (
    arith,
    h,
    live-select (λ y. not (is_token x y)) now t (select (is_unexpired swept) s.tokens),
    live-select (is_unexpired swept) now t s.tokens,
  )

  live-perform :
      (now : ℕ) (token : Text) (c : AdminCall) (s : AdminSessions)
      → s.whitelist ≡ map compact_address admins
      → is_live now token (perform c s).tokens ≡ true
      → (is_login_of now token c || is_live now token s.tokens) ≡ true
  unfolding admin_login_handler valid sweep is_admin
  live-perform now token (AdminCall.logs_in at req) s e h =
      ground (arith, h, e, live-issued at.token at.swept at.issued now token s)
  live-perform now token (AdminCall.checks swept t) s e h =
      ground (arith, h, live-select (is_unexpired swept) now token s.tokens)

  live-run :
      (now : ℕ) (token : Text) (cs : List AdminCall)
      → is_live now token (run cs).tokens ≡ true
      → exists (is_login_of now token) cs ≡ true
  unfolding run new_admin_sessions exists
  live-run now token [] h = h
  live-run now token (c ∷ cs) h =
      ground (arith, live-perform now token c (run cs) (run_list cs) h, live-run now token cs)

-- Whatever logins are tried and tokens checked from the start: a token that is valid was given, less
-- than 24 hours before, by a login of one of the configured administrators whose timestamp passed the
-- clock test and who signed the challenge for this address and timestamp.
pub admin_token_from_login :
    (verify_signed : Text → Text → Text → Text → Bool) (admins : List Text) (now : ℕ) (token : Text)
    (cs : List AdminCall)
    → (valid now token (run verify_signed admins cs)).0 ≡ true
    → exists (is_login_of verify_signed admins now token) cs ≡ true
unfolding valid sweep
admin_token_from_login verify_signed admins now token cs h =
    live-run verify_signed admins now token cs
      (ground (arith, h, valid_live now token (run verify_signed admins cs).tokens))
