-- ===== src/Sessions.antt =====
-- backend/user_session.go. Clocks are readings in nanoseconds since 1970. The map of tokens is the list
-- of its entries, and so is the map of spent signatures; a call takes each reading of the clock that it
-- makes, the random token, and, for `hash`, the hex text of SHA-256.
pub mod Window
pub mod History
pub mod Replay
pub mod Handlers
pub mod Admin
mod Examples
use nim_connect.Base.{
  ℕ, ◌+◌, ◌*◌, Bool, true, false, not, ◌&&◌, ◌||◌, Option, none, some, List, [], ◌∷◌, ◌++◌, Text,
  codes, text_eq, length, find, select, exists, every, if◌then◌else◌, ltb, leb, ◌==◌,
}
use nim_connect.Base.Int.{ℤ}
use nim_connect.Address.{compact_address}
use nim_connect.Market.Intents.{format_int}

abbrev pub minute : ℕ
minute = 60 * 1000000000

abbrev pub user_session_ttl : ℕ
user_session_ttl = 24 * 60 * minute

abbrev pub login_window : ℕ
login_window = 5 * minute

abbrev pub default_audience : Text
default_audience = codes "nimconnect"

abbrev pub is_lower_alnum : ℕ → Bool
is_lower_alnum c = (leb b'a' c && leb c b'z') || (leb b'0' c && leb c b'9')

abbrev pub is_audience_char : ℕ → Bool
is_audience_char c = is_lower_alnum c || (c == b'_' || c == b'-')

-- ^[a-z0-9][a-z0-9_-]{1,31}$
unfoldable pub is_audience : Text → Bool
is_audience [] = false
is_audience (c ∷ cs) =
    is_lower_alnum c && (every is_audience_char cs && (leb 1 (length cs) && leb (length cs) 31))

unfoldable pub user_session_challenge_v1 : Text → ℤ → Text
user_session_challenge_v1 address timestamp =
    codes "nimconnect-session:v1:" ++ (compact_address address ++ (b':' ∷ format_int timestamp))

unfoldable pub user_session_challenge : Text → ℤ → Text → Text
user_session_challenge address timestamp audience =
    codes "nimconnect-session:v2:"
    ++ (compact_address address ++ (b':' ∷ (format_int timestamp ++ (b':' ∷ audience))))

pub record TokenEntry : Type 0 where
  pub token : Text
  pub address : Text
  pub audience : Text
  pub expires_at : ℕ

pub record UsedEntry : Type 0 where
  pub key : Text
  pub used_at : ℕ

pub record UserSessions : Type 0 where
  pub tokens : List TokenEntry
  pub used : List UsedEntry

abbrev pub has_token : Text → TokenEntry → Bool
has_token token e = text_eq e.token token

abbrev pub is_live : ℕ → TokenEntry → Bool
is_live now e = ltb now e.expires_at

abbrev pub is_kept : ℕ → UsedEntry → Bool
is_kept now u = leb now (u.used_at + login_window)

abbrev pub has_key : Text → UsedEntry → Bool
has_key key u = text_eq u.key key

unfoldable pub sweep_locked : ℕ → UserSessions → UserSessions
sweep_locked now s = record {
  tokens = select (is_live now) s.tokens;
  used = select (is_kept now) s.used;
}

-- The sweep's reading of the clock comes first, and then that of the entry.
unfoldable pub consume_signature :
    (hash : Text → Text) → ℕ → ℕ → Text → UserSessions → Bool × UserSessions
consume_signature hash swept now signature s =
    let s' = sweep_locked swept s in
    if exists (has_key (hash signature)) s'.used
    then (false, s')
    else (true, record s' { used = record { key = hash signature; used_at = now } ∷ s'.used })

unfoldable pub put_token : TokenEntry → List TokenEntry → List TokenEntry
put_token e es = e ∷ select (λ x. not (has_token e.token x)) es

-- `none` for the random token is its error.
unfoldable pub issue :
    Option Text → ℕ → ℕ → Text → Text → UserSessions → Option TokenEntry × UserSessions
issue none now swept address audience s = (none, s)
issue (some token) now swept address audience s =
    let s' = sweep_locked swept s in
    let e : TokenEntry = record {
      token = token;
      address = compact_address address;
      audience = audience;
      expires_at = now + user_session_ttl;
    } in
    (some e, record s' { tokens = put_token e s'.tokens })

abbrev pub session_of : Option TokenEntry → Option (Text × Text)
session_of none = none
session_of (some e) = some (e.address, e.audience)

unfoldable pub session_for : ℕ → Text → UserSessions → Option (Text × Text) × UserSessions
session_for swept token s =
    let s' = sweep_locked swept s in
    if text_eq token [] then (none, s) else (session_of (find (has_token token) s'.tokens), s')

abbrev pub address_of : Option (Text × Text) → Option Text
address_of none = none
address_of (some (address, audience)) = some address

abbrev pub address_for : ℕ → Text → UserSessions → Option Text × UserSessions
address_for swept token s = let (r, s') = session_for swept token s in (address_of r, s')

unfoldable pub revoke : Text → UserSessions → UserSessions
revoke token s = record s { tokens = select (λ x. not (has_token token x)) s.tokens }
