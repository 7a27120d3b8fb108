-- ===== src/Sessions/History.antt =====
-- The sessions after any calls, against what the calls themselves say of a token.
use nim_connect.Base.{
  ℕ, ◌+◌, ◌≤◌, ◌≡◌, refl, not, Option, none, some, List, [], ◌∷◌, Text, text_eq, text_eq_iff, find,
  select, if◌then◌else◌, ltb, arith, All,
}
use nim_connect.Address.{compact_address}
use nim_connect.Sessions.{
  TokenEntry, UserSessions, user_session_ttl, has_token, is_live, sweep_locked, consume_signature,
  put_token, issue, session_of, session_for, revoke,
}

-- A call, with its readings of the clock; the last one is the sweep's.
pub data SessionCall : Type 0 where
  consumes : Text → ℕ → ℕ → SessionCall
  issues : Option Text → Text → Text → ℕ → ℕ → SessionCall
  asks : Text → ℕ → SessionCall
  revokes : Text → SessionCall

abbrev pub no_sessions : UserSessions
no_sessions = record { tokens = []; used = [] }

abbrev pub call : (hash : Text → Text) → SessionCall → UserSessions → UserSessions
call hash (SessionCall.consumes signature now swept) s =
    (consume_signature hash swept now signature s).1
call hash (SessionCall.issues token address audience now swept) s =
    (issue token now swept address audience s).1
call hash (SessionCall.asks token swept) s = (session_for swept token s).1
call hash (SessionCall.revokes token) s = revoke token s

-- The calls that follow a state, the last one first.
unfoldable pub run_calls : (hash : Text → Text) → List SessionCall → UserSessions → UserSessions
run_calls hash [] s = s
run_calls hash (c ∷ cs) s = call hash c (run_calls hash cs s)

-- What the last issue or revocation of a token says of it at a time.
unfoldable pub live_session : ℕ → Text → List SessionCall → Option (Text × Text)
live_session at token [] = none
live_session at token (SessionCall.issues (some t) address audience now swept ∷ cs) =
    let before = live_session at token cs in
    if text_eq t token
    then (if ltb at (now + user_session_ttl)
        then some (compact_address address, audience)
        else none)
    else before
live_session at token (SessionCall.revokes t ∷ cs) =
    let before = live_session at token cs in if text_eq t token then none else before
live_session at token (_ ∷ cs) = live_session at token cs

abbrev pub IsSweptBy : ℕ → SessionCall → Type 0
IsSweptBy at (SessionCall.consumes signature now swept) = swept ≤ at
IsSweptBy at (SessionCall.issues token address audience now swept) = swept ≤ at
IsSweptBy at (SessionCall.asks token swept) = swept ≤ at
IsSweptBy at (SessionCall.revokes token) = Unit

abbrev live_at : ℕ → Text → List TokenEntry → Option (Text × Text)
live_at at token es = session_of (find (has_token token) (select (is_live at) es))

-- A sweep at an earlier time takes nothing that is live later.
live-sweep :
    (at swept : ℕ) (token : Text) (es : List TokenEntry)
    → swept ≤ at
    → live_at at token (select (is_live swept) es) ≡ live_at at token es
unfolding select find
live-sweep at swept token [] h = refl
live-sweep at swept token (e ∷ es) h = ground (arith, live-sweep at swept token es h)

live-removed :
    (at : ℕ) (t token : Text) (es : List TokenEntry)
    → live_at at token (select (λ x. not (has_token t x)) es)
      ≡ (if text_eq t token then none else live_at at token es)
unfolding select find
live-removed at t token [] = ground arith
live-removed at t token (e ∷ es) = ground (
  arith,
  live-removed at t token es,
  text_eq_iff e.token t,
  text_eq_iff e.token token,
  text_eq_iff t token,
)

live-put :
    (at : ℕ) (token : Text) (e : TokenEntry) (es : List TokenEntry)
    → live_at at token (put_token e es) ≡ (
        if text_eq e.token token
        then (if ltb at e.expires_at then some (e.address, e.audience) else none)
        else live_at at token es)
unfolding put_token select find
live-put at token e es = ground (arith, live-removed at e.token token es)

live-call :
    (hash : Text → Text) (at : ℕ) (token : Text) (c : SessionCall) (cs : List SessionCall)
    (s : UserSessions)
    → IsSweptBy at c
    → live_at at token s.tokens ≡ live_session at token cs
    → live_at at token (call hash c s).tokens ≡ live_session at token (c ∷ cs)
unfolding consume_signature sweep_locked issue session_for revoke live_session
live-call hash at token (SessionCall.consumes signature now swept) cs s le h =
    ground (arith, live-sweep at swept token s.tokens le, h)
live-call hash at token (SessionCall.issues none address audience now swept) cs s le h = h
live-call hash at token (SessionCall.issues (some t) address audience now swept) cs s le h =
    rw (live-put, live-sweep at swept token s.tokens le, h) refl
live-call hash at token (SessionCall.asks t swept) cs s le h =
    ground (arith, live-sweep at swept token s.tokens le, h)
live-call hash at token (SessionCall.revokes t) cs s le h =
    rw (live-removed at t token s.tokens, h) refl

live-run :
    (hash : Text → Text) (at : ℕ) (token : Text) (cs : List SessionCall)
    → All (IsSweptBy at) cs
    → live_at at token (run_calls hash cs no_sessions).tokens ≡ live_session at token cs
unfolding run_calls live_session select find
live-run hash at token [] a = refl
live-run hash at token (c ∷ cs) a =
    live-call hash at token c cs (run_calls hash cs no_sessions) a.0 (live-run hash at token cs a.1)

-- After any calls, none of which swept at a later time than this one: a token that is not empty is
-- answered with an address and an audience exactly where it was issued to them and, since its last
-- issue, neither revoked nor 24 hours old; an empty token has no session.
pub session_for-run_calls :
    (hash : Text → Text) (at : ℕ) (token : Text) (cs : List SessionCall)
    → All (IsSweptBy at) cs
    → (session_for at token (run_calls hash cs no_sessions)).0
      ≡ (if text_eq token [] then none else live_session at token cs)
unfolding session_for sweep_locked
session_for-run_calls hash at token cs a = ground (arith, live-run hash at token cs a)
