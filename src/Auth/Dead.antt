-- ===== src/Auth/Dead.antt =====
-- A session that was revoked, and a challenge that was consumed, stay so.
use nim_connect.Base.{
  ℕ, ◌≡◌, refl, Bool, true, false, not, ◌&&◌, ◌||◌, Option, some, List, [], ◌∷◌, Text, text_eq,
  text_eq_iff, ok, find, exists, every, arith, Bool-cases, Result-cases, inl, inr,
}
use nim_connect.Base.Storage.{after_kept}
use nim_connect.Base.Rows.{update_where}
use nim_connect.Base.Scans.{every-update_where, exists-update_where}
use nim_connect.Address.{compact_address}
use nim_connect.Auth.{
  AuthTables, validate_scopes, new_session, canonical_scopes, is_app, revoke_all_sessions,
  SessionRow, ChallengeRow, has_token_hash, is_unset, is_session, revoked, revoke_where,
  is_unrevoked_token, is_unrevoked_of, create_challenge, consume_challenge, issue_session,
  touch_session, revoke_session,
}
use nim_connect.Auth.Apps.{
  AppRecord, upsert_app, revoke_changed, app_changed, mirror_tables, is_unrevoked_for,
  issue_app_api_key,
}
use nim_connect.Auth.Calls.{AuthCall, effect, run_calls}

-- There is a session of the hash, and each is revoked.
abbrev pub is_dead_row : Text → SessionRow → Bool
is_dead_row h r = not (has_token_hash h r) || not (is_unset r.revoked_at)

abbrev pub is_dead : Text → List SessionRow → Bool
is_dead h rs = exists (has_token_hash h) rs && every (is_dead_row h) rs

updated_dead :
    (h : Text) (key : SessionRow → Bool) (change : SessionRow → SessionRow) (rs : List SessionRow)
    → ((r : SessionRow) → (change r).token_hash ≡ r.token_hash)
    → ((r : SessionRow) → is_unset r.revoked_at ≡ false → is_unset (change r).revoked_at ≡ false)
    → is_dead h rs ≡ true
    → is_dead h (update_where key change rs) ≡ true
updated_dead h key change rs same keeps d = ground (
  arith,
  d,
  exists-update_where (has_token_hash h) key change rs (λ r. rw (same r) refl),
  every-update_where (is_dead_row h) key change rs (λ r e. ground (arith, e, same r, keeps r)),
)

-- What a call does to the sessions: nothing, or it inserts one of another hash, or updates some.
revoked_dead :
    (h : Text) (test : SessionRow → Bool) (now n : ℕ) (db db' : AuthTables)
    → is_dead h db.sessions ≡ true
    → revoke_where test now db ≡ ok (n, db')
    → is_dead h db'.sessions ≡ true
unfolding revoke_where
revoked_dead h test now n db db' d e =
    let wrote : db'.sessions ≡ update_where test (revoked now) db.sessions = ground (arith, e) in
    rw wrote (updated_dead h test (revoked now) db.sessions (λ r. refl) (λ r u. refl) d)

create_challenge_sessions :
    (hash : Text → Text) (id new_nonce : Option Text) (now : ℕ) (address audience : Text)
    (scopes : List Text) (build : Text → ℕ → Text) (checked db db' : AuthTables) (c : ChallengeRow)
    → create_challenge hash id new_nonce now address audience scopes build checked db ≡ ok (c, db')
    → db'.sessions ≡ db.sessions
unfolding create_challenge
create_challenge_sessions hash id new_nonce now address audience scopes build checked db db' c e =
    ground (arith, e)

consume_challenge_sessions :
    (id : Text) (now : ℕ) (db db' : AuthTables) (c : ChallengeRow)
    → consume_challenge id now db ≡ ok (c, db')
    → db'.sessions ≡ db.sessions
unfolding consume_challenge
consume_challenge_sessions id now db db' c e = ground (arith, e)

issue_app_api_key_sessions :
    (hash : Text → Text) (key : Option Text) (audience : Text) (db db' : AuthTables) (k : Text)
    → issue_app_api_key hash key audience db ≡ ok (k, db')
    → db'.sessions ≡ db.sessions
unfolding issue_app_api_key
issue_app_api_key_sessions hash key audience db db' k e = ground (arith, e)

pub issue_session_ok :
    (hash : Text → Text) (token : Option Text) (now : ℕ) (address audience : Text)
    (scopes : List Text) (checked db db' : AuthTables) (a : Text × SessionRow)
    → issue_session hash token now address audience scopes checked db ≡ ok (a, db')
    → (canonical : List Text) × (validate_scopes audience scopes checked ≡ ok canonical)
      × (token ≡ some a.0)
      × (exists (has_token_hash (hash a.0)) db.sessions ≡ false)
      × (a.1 ≡ new_session (hash a.0) address audience canonical now)
      × (db' ≡ record db { sessions = a.1 ∷ db.sessions })
unfolding issue_session
issue_session_ok hash token now address audience scopes checked db db' a e =
    elim (Result-cases (validate_scopes audience scopes checked)) [
      | inl (f, v) ↦ cc (rw v at e)
      | inr (canonical, v) ↦
          let e' = rw v at e in
          (
            canonical,
            v,
            ground (arith, e'),
            ground (arith, e'),
            ground (arith, e'),
            ground (arith, e'),
          )
    ]

issued_dead :
    (hash : Text → Text) (h : Text) (token : Option Text) (now : ℕ) (address audience : Text)
    (scopes : List Text) (checked db db' : AuthTables) (a : Text × SessionRow)
    → is_dead h db.sessions ≡ true
    → issue_session hash token now address audience scopes checked db ≡ ok (a, db')
    → is_dead h db'.sessions ≡ true
unfolding exists every
issued_dead hash h token now address audience scopes checked db db' a d e =
    let (canonical, v, t, free, row, wrote) =
      issue_session_ok hash token now address audience scopes checked db db' a e in
    let same = text_eq_iff (hash a.0) h in
    elim (Bool-cases (text_eq (hash a.0) h)) [
      | inl is ↦
          let here : exists (has_token_hash h) db.sessions ≡ false = rw (← same.0 is) free in
          ground (arith, d, here)
      | inr other ↦ rw (wrote, row, other) d
    ]

-- A change of an app revokes the sessions of its audience; else they are as they were.
pub upsert_app_ok :
    (rec : AppRecord) (now n : ℕ) (db db' : AuthTables)
    → upsert_app rec now db ≡ ok (n, db')
    → revoke_changed
        (app_changed rec (canonical_scopes rec.scopes) (find (is_app rec.audience) db.apps) db)
        rec.audience
        now
        (mirror_tables rec (canonical_scopes rec.scopes) db)
      ≡ ok (n, db')
unfolding upsert_app
upsert_app_ok rec now n db db' e = ground (arith, e)

changed_dead :
    (h : Text) (changed : Bool) (audience : Text) (now n : ℕ) (db db' : AuthTables)
    → is_dead h db.sessions ≡ true
    → revoke_changed changed audience now db ≡ ok (n, db')
    → is_dead h db'.sessions ≡ true
unfolding revoke_changed
changed_dead h true audience now n db db' d e =
    revoked_dead h (is_unrevoked_for audience) now n db db' d e
changed_dead h false audience now n db db' d e = ground (arith, d, e)

module _ (hash : Text → Text) (h : Text) where
  abbrev IsDead : AuthTables → Type 0
  IsDead db = is_dead h db.sessions ≡ true

  touched-IsDead :
      (token : Text) (now : ℕ) (db : AuthTables)
      → IsDead db
      → IsDead (touch_session hash token now db).1
  unfolding touch_session
  touched-IsDead token now db d = elim (Bool-cases (text_eq token [])) [
    | inl e ↦ rw e d
    | inr e ↦ rw e (
        updated_dead h (is_session hash token db now) (λ r. record r { last_used_at = now })
          db.sessions (λ r. refl) (λ r u. u) d)
  ]

  revoked-IsDead :
      (token : Text) (now : ℕ) (db : AuthTables)
      → IsDead db
      → IsDead (revoke_session hash token now db).1
  unfolding revoke_session
  revoked-IsDead token now db d = elim (Bool-cases (text_eq token [])) [
    | inl e ↦ rw e d
    | inr e ↦ elim (Result-cases (revoke_where (is_unrevoked_token (hash token)) now db)) [
      | inl (f, r) ↦ rw (e, r) d
      | inr ((n, db'), r) ↦
          rw (e, r) (revoked_dead h (is_unrevoked_token (hash token)) now n db db' d r)
    ]
  ]

  effect-IsDead : (c : AuthCall) (db : AuthTables) → IsDead db → IsDead (effect hash c db)
  effect-IsDead (AuthCall.creates id new_nonce now address audience scopes build checked) db d =
      after_kept IsDead true
        (create_challenge hash id new_nonce now address audience scopes build checked db) db d
        λ c db' e.
          rw
            (create_challenge_sessions hash id new_nonce now address audience scopes build checked
              db db' c e)
            d
  effect-IsDead (AuthCall.consumes id now) db d =
      after_kept IsDead true (consume_challenge id now db) db d
        λ c db' e. rw (consume_challenge_sessions id now db db' c e) d
  effect-IsDead (AuthCall.issues token now address audience scopes checked) db d =
      after_kept IsDead true (issue_session hash token now address audience scopes checked db) db d
        λ a db' e. issued_dead hash h token now address audience scopes checked db db' a d e
  effect-IsDead (AuthCall.touches token now) db d = touched-IsDead token now db d
  effect-IsDead (AuthCall.revokes token now) db d = revoked-IsDead token now db d
  effect-IsDead (AuthCall.revokes_all address now) db d =
      after_kept IsDead true (revoke_all_sessions address now db) db d
        λ n db' e. revoked_dead h (is_unrevoked_of (compact_address address)) now n db db' d e
  effect-IsDead (AuthCall.mirrors rec now) db d =
      after_kept IsDead true (upsert_app rec now db) db d λ n db' e.
        changed_dead h
          (app_changed rec (canonical_scopes rec.scopes) (find (is_app rec.audience) db.apps) db)
          rec.audience now n (mirror_tables rec (canonical_scopes rec.scopes) db) db' d
          (upsert_app_ok rec now n db db' e)
  effect-IsDead (AuthCall.gives_key key audience) db d =
      after_kept IsDead true (issue_app_api_key hash key audience db) db d
        λ k db' e. rw (issue_app_api_key_sessions hash key audience db db' k e) d

  pub run-IsDead :
      (cs : List AuthCall) (db : AuthTables) → IsDead db → IsDead (run_calls hash cs db)
  unfolding run_calls
  run-IsDead [] db d = d
  run-IsDead (c ∷ cs) db d = effect-IsDead c (run_calls hash cs db) (run-IsDead cs db d)
