-- ===== src/Sessions/Handlers.antt =====
-- backend/user_session_handlers.go. A body is none where it is no JSON. `verify_signed` stands for
-- `verifySignedMessage`, `hash` for the hex text of SHA-256.
use nim_connect.Base.{
  ℕ, ◌+◌, ◌/◌, ◌<◌, ◌≡◌, refl, Bool, true, false, not, Option, none, some, [], Text, text_eq,
  text_eq_refl, find, select, if◌then◌else◌, arith,
}
use nim_connect.Base.Int.{ℤ}
use nim_connect.Address.{compact_address}
use nim_connect.Market.Handlers.{Response}
use nim_connect.Sessions.{
  TokenEntry, UserSessions, user_session_ttl, login_window, default_audience, is_audience,
  user_session_challenge_v1, user_session_challenge, consume_signature, issue, put_token,
  sweep_locked, session_for, address_for, revoke,
}
use nim_connect.Sessions.Window.{is_fresh, second}

pub record LoginRequest : Type 0 where
  pub address : Text
  pub public_key : Text
  pub signature : Text
  pub timestamp : ℤ
  pub audience : Text

pub record LoginAnswer : Type 0 where
  pub token : Text
  pub expires_at : ℕ
  pub audience : Text

-- The readings of the clock in the order in which a login makes them, and the random token.
pub record LoginCircumstances : Type 0 where
  pub arrived : ℕ
  pub swept : ℕ
  pub spent : ℕ
  pub issued : ℕ
  pub swept_again : ℕ
  pub token : Option Text

-- The audience of a login; none where it is invalid.
unfoldable pub login_audience : Text → Option Text
login_audience audience =
    if text_eq audience []
    then some default_audience
    else if is_audience audience
    then some audience
    else none

unfoldable pub login_challenge : LoginRequest → Text → Text
login_challenge req audience =
    if text_eq req.audience []
    then user_session_challenge_v1 req.address req.timestamp
    else user_session_challenge req.address req.timestamp audience

abbrev pub login_reply :
    Text → Option TokenEntry × UserSessions → Response LoginAnswer × UserSessions
login_reply audience (none, s) = (Response.internal_error, s)
login_reply audience (some e, s) = (
  Response.answered
      (record { token = e.token; expires_at = e.expires_at / second; audience = audience }),
  s,
)

module _ (verify_signed : Text → Text → Text → Text → Bool) (hash : Text → Text) where
  unfoldable pub login_with :
      LoginCircumstances
      → LoginRequest
      → Option Text
      → UserSessions
      → Response LoginAnswer × UserSessions
  login_with at req none s = (Response.bad_request, s)
  login_with at req (some audience) s =
      let (first, s') = consume_signature hash at.swept at.spent req.signature s in
      if not (is_fresh login_window at.arrived req.timestamp)
      then (Response.unauthorized, s)
      else if not
          (verify_signed req.address req.public_key req.signature (login_challenge req audience))
      then (Response.unauthorized, s)
      else if not first
      then (Response.unauthorized, s')
      else login_reply audience (issue at.token at.issued at.swept_again req.address audience s')

  abbrev pub user_session_login_handler :
      LoginCircumstances → Option LoginRequest → UserSessions → Response LoginAnswer × UserSessions
  user_session_login_handler at none s = (Response.bad_request, s)
  user_session_login_handler at (some req) s = login_with at req (login_audience req.audience) s

-- The sweep's reading of the clock, and the header's token, empty without one.
unfoldable pub user_session_logout_handler :
    ℕ → Text → UserSessions → Response (Unit {0}) × UserSessions
user_session_logout_handler swept token s =
    if text_eq token []
    then (Response.unauthorized, s)
    else let (address, s') = address_for swept token s in
      elim address [
        | none ↦ (Response.unauthorized, s')
        | some a ↦ (Response.answered tt, revoke token s')
      ]

-- `requireUserSessionScope`: what `resolveScopedActor` answers to a bearer token, where there is one.
abbrev pub require_user_session_scope :
    Option (Option Text) → ℕ → Text → UserSessions → Option Text × UserSessions
require_user_session_scope (some resolved) swept token s = (resolved, s)
require_user_session_scope none swept token s = address_for swept token s

module _ (verify_signed : Text → Text → Text → Text → Bool) (hash : Text → Text) where
  issued_session :
      (token : Option Text) (now swept at : ℕ) (address audience : Text) (s : UserSessions)
      (a : LoginAnswer)
      → (login_reply audience (issue token now swept address audience s)).0 ≡ Response.answered a
      → at < now + user_session_ttl
      → text_eq a.token [] ≡ false
      → (a.audience ≡ audience)
        × ((session_for at a.token
              (login_reply audience (issue token now swept address audience s)).1).0
            ≡ some (compact_address address, audience))
  unfolding issue session_for sweep_locked put_token find select
  issued_session none now swept at address audience s a h le ne = cc
  issued_session (some t) now swept at address audience s a h le ne =
      (ground arith, ground (arith, text_eq_refl t))

  answer_of_login :
      (at : LoginCircumstances) (req : LoginRequest) (audience : Option Text) (s : UserSessions)
      (later : ℕ) (a : LoginAnswer)
      → (login_with verify_signed hash at req audience s).0 ≡ Response.answered a
      → later < at.issued + user_session_ttl
      → text_eq a.token [] ≡ false
      → (audience ≡ some a.audience)
        × (is_fresh login_window at.arrived req.timestamp ≡ true)
        × (verify_signed req.address req.public_key req.signature (login_challenge req a.audience)
            ≡ true)
        × ((consume_signature hash at.swept at.spent req.signature s).0 ≡ true)
        × ((session_for later a.token (login_with verify_signed hash at req audience s).1).0
            ≡ some (compact_address req.address, a.audience))
  unfolding login_with
  answer_of_login at req none s later a h le ne = cc
  answer_of_login at req (some audience) s later a h le ne =
      let fresh : is_fresh login_window at.arrived req.timestamp ≡ true = ground (arith, h) in
      let signed : verify_signed req.address req.public_key req.signature
            (login_challenge req audience)
          ≡ true =
        ground (arith, h, fresh) in
      let first : (consume_signature hash at.swept at.spent req.signature s).0 ≡ true =
        ground (arith, h, fresh, signed) in
      let h' = rw (fresh, signed, first) at h in
      let (same, session) =
        issued_session at.token at.issued at.swept_again later req.address audience
          (consume_signature hash at.swept at.spent req.signature s).1 a h' le ne in
      rw same (refl, fresh, signed, first, rw (fresh, signed, first) session)

  -- A login is answered only if its audience is the default or a valid one, its timestamp passes the
  -- clock test, its signature of the challenge for this address, timestamp and audience verifies, and
  -- the signature is not among the spent ones. From then on, for less than 24 hours, the token that is
  -- answered, where it is not empty, stands for the address and the audience.
  pub login_answered :
      (at : LoginCircumstances) (req : LoginRequest) (s : UserSessions) (later : ℕ)
      (a : LoginAnswer)
      → (user_session_login_handler verify_signed hash at (some req) s).0 ≡ Response.answered a
      → later < at.issued + user_session_ttl
      → text_eq a.token [] ≡ false
      → (login_audience req.audience ≡ some a.audience)
        × (is_fresh login_window at.arrived req.timestamp ≡ true)
        × (verify_signed req.address req.public_key req.signature (login_challenge req a.audience)
            ≡ true)
        × ((consume_signature hash at.swept at.spent req.signature s).0 ≡ true)
        × ((session_for later a.token
              (user_session_login_handler verify_signed hash at (some req) s).1).0
            ≡ some (compact_address req.address, a.audience))
  login_answered at req s later a h le ne =
      answer_of_login at req (login_audience req.audience) s later a h le ne
