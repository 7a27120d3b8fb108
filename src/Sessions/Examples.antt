-- ===== src/Sessions/Examples.antt =====
-- Sessions on concrete logins.
use nim_connect.Base.{
  ℕ, ◌+◌, ◌*◌, ◌≡◌, refl, Bool, true, false, some, List, [], ◌∷◌, Text, codes, arith, exists,
  select, text_eq, every,
}
use nim_connect.Base.Int.{pos}
use nim_connect.Address.{compact_address}
use nim_connect.Market.Handlers.{Response}
use nim_connect.Sessions.{
  login_window, sweep_locked, consume_signature, issue, session_for, is_audience,
}
use nim_connect.Sessions.Window.{is_fresh, second}
use nim_connect.Sessions.History.{
  SessionCall, no_sessions, run_calls, live_session, session_for-run_calls,
}
use nim_connect.Sessions.Replay.{replay_refused}
use nim_connect.Sessions.Handlers.{
  LoginRequest, LoginAnswer, LoginCircumstances, login_audience, login_challenge, login_with,
  user_session_login_handler, login_answered,
}
use nim_connect.Sessions.Admin.{
  AdminCall, AdminLoginRequest, admin_login_handler, admin_issue, is_admin, sweep, valid,
  new_admin_sessions, run, is_login_of, admin_token_from_login,
}

abbrev same : Text → Text
same t = t

abbrev accepts : Text → Text → Text → Text → Bool
accepts address public_key signature message = true

abbrev alice_calls : List SessionCall
alice_calls =
    SessionCall.asks (codes "t2") 30
    ∷ SessionCall.revokes (codes "t2")
    ∷ SessionCall.issues (some (codes "t2")) (codes "nq aa") (codes "shop") 20 21
    ∷ SessionCall.issues (some (codes "t1")) (codes "nq aa") (codes "nimconnect") 10 11
    ∷ []

alice_live : live_session 50 (codes "t1") alice_calls ≡ some (codes "NQAA", codes "nimconnect")
unfolding live_session text_eq compact_address
alice_live = refl

session_for-run_calls_example :
    (session_for 50 (codes "t1") (run_calls same alice_calls no_sessions)).0
    ≡ live_session 50 (codes "t1") alice_calls
unfolding text_eq
session_for-run_calls_example =
    session_for-run_calls same 50 (codes "t1") alice_calls
      (omega arith, (tt, (omega arith, (omega arith, tt))))

first_use : (consume_signature same 10 11 (codes "sig") no_sessions).0 ≡ true
unfolding consume_signature sweep_locked exists select
first_use = refl

replay_refused_example :
    (consume_signature same 200 201 (codes "sig") (
      run_calls same
        (SessionCall.asks (codes "t1") 100 ∷ [])
        (consume_signature same 10 11 (codes "sig") no_sessions).1)).0
    ≡ false
replay_refused_example =
    replay_refused same (codes "sig") 10 11 200 201 no_sessions
      (SessionCall.asks (codes "t1") 100 ∷ []) first_use (omega arith, tt) (omega arith)

abbrev login_request : LoginRequest
login_request = record {
  address = codes "nq aa";
  public_key = codes "pk";
  signature = codes "sig";
  timestamp = pos 1300;
  audience = codes "shop";
}

abbrev login_at : ℕ → Text → LoginCircumstances
login_at now token = record {
  arrived = now;
  swept = now;
  spent = now;
  issued = now;
  swept_again = now;
  token = some token;
}

abbrev login_reply : LoginAnswer
login_reply = record {
  token = codes "t1";
  expires_at = 1000 + 24 * 60 * 60;
  audience = codes "shop";
}

logged_in :
    (user_session_login_handler accepts same
      (login_at (1000 * second) (codes "t1"))
      (some login_request)
      no_sessions).0
    ≡ Response.answered login_reply
unfolding login_with login_audience is_audience text_eq every is_fresh consume_signature
    sweep_locked exists select issue
logged_in = refl

login_answered_example :
    (login_audience (codes "shop") ≡ some (codes "shop"))
    × (is_fresh login_window (1000 * second) (pos 1300) ≡ true)
    × (accepts
          (codes "nq aa")
          (codes "pk")
          (codes "sig")
          (login_challenge login_request (codes "shop"))
        ≡ true)
    × ((consume_signature same (1000 * second) (1000 * second) (codes "sig") no_sessions).0 ≡ true)
    × ((session_for
          (2000 * second)
          (codes "t1")
          (user_session_login_handler accepts same
            (login_at (1000 * second) (codes "t1"))
            (some login_request)
            no_sessions).1).0
        ≡ some (codes "NQAA", codes "shop"))
unfolding text_eq compact_address
login_answered_example =
    login_answered accepts same (login_at (1000 * second) (codes "t1")) login_request no_sessions
      (2000 * second) login_reply logged_in (omega arith) refl

-- The timestamp of this request is five minutes ahead of its first use. Seven minutes later it still
-- passes the clock test, and its spent signature is forgotten: it gives a second token.
logged_in_again :
    (user_session_login_handler accepts same
      (login_at (1420 * second) (codes "t2"))
      (some login_request)
      (user_session_login_handler accepts same
        (login_at (1000 * second) (codes "t1"))
        (some login_request)
        no_sessions).1).0
    ≡ Response.answered
        (record { token = codes "t2"; expires_at = 1420 + 24 * 60 * 60; audience = codes "shop" })
unfolding login_with login_audience is_audience text_eq every is_fresh consume_signature
    sweep_locked exists select issue
logged_in_again = refl

abbrev admin_request : AdminLoginRequest
admin_request = record {
  address = codes "nq aa";
  public_key = codes "pk";
  signature = codes "sig";
  timestamp = pos 1000;
}

abbrev admin_calls : List AdminCall
admin_calls =
    AdminCall.logs_in
      (record {
        arrived = 1000 * second;
        swept = 1000 * second;
        issued = 1000 * second;
        token = some (codes "t1");
      })
      admin_request
    ∷ []

admin_valid :
    (valid (2000 * second) (codes "t1") (run accepts (codes "NQ AA" ∷ []) admin_calls)).0 ≡ true
unfolding valid sweep run new_admin_sessions admin_login_handler admin_issue is_admin is_fresh
    text_eq exists select compact_address
admin_valid = refl

admin_token_from_login_example :
    exists (is_login_of accepts (codes "NQ AA" ∷ []) (2000 * second) (codes "t1")) admin_calls
    ≡ true
admin_token_from_login_example =
    admin_token_from_login accepts (codes "NQ AA" ∷ []) (2000 * second) (codes "t1") admin_calls
      admin_valid
