-- ===== src/Auth/Allowed.antt =====
-- The scopes of a session that is not revoked are those that its app declares.
use nim_connect.Base.{
  ℕ, ◌≡◌, refl, ◌∙◌, Bool, true, false, not, ◌&&◌, ◌||◌, Option, some, List, [], ◌∷◌, Text, text_eq,
  text_eq_iff, ok, find, exists, every, arith, Bool-cases, Option-cases, Result-cases, inl, inr,
}
use nim_connect.Base.Storage.{after_kept}
use nim_connect.Base.Rows.{update_where}
use nim_connect.Base.Scans.{every-update_where, exists-update_where, every_mono, exists_of_unfound}
use nim_connect.Address.{compact_address}
use nim_connect.Auth.{
  AppRow, AuthTables, ChallengeRow, SessionRow, is_app, is_enabled, is_empty, declares, is_unset,
  canonical_scopes, revoked, revoke_where, is_unrevoked_token, is_unrevoked_of, is_session,
  validate_scopes, create_challenge, consume_challenge, issue_session, touch_session,
  revoke_session, revoke_all_sessions,
}
use nim_connect.Auth.Apps.{
  AppRecord, entries, app_changed, mirror_tables, is_unrevoked_for, revoke_changed, upsert_app,
  issue_app_api_key,
}
use nim_connect.Auth.Calls.{AuthCall, effect, run_calls}
use nim_connect.Auth.Declared.{
  apps_kept, declares_other, declares_own, among-entries, equal_strings_eq,
}
use nim_connect.Auth.Dead.{issue_session_ok, upsert_app_ok}

abbrev pub is_allowed_row : AuthTables → SessionRow → Bool
is_allowed_row db r =
    not (is_unset r.revoked_at)
    || (exists (is_app r.audience) db.apps && every (declares r.audience db) r.scopes)

abbrev pub is_allowed : AuthTables → Bool
is_allowed db = every (is_allowed_row db) db.sessions

-- An issue's check of the scopes still has the same answer when the row is inserted.
abbrev pub IsUpToDate : AuthCall → AuthTables → Type 0
IsUpToDate (AuthCall.issues token now address audience scopes checked) db =
    validate_scopes audience scopes checked ≡ validate_scopes audience scopes db
IsUpToDate _ db = Unit {0}

abbrev pub AreUpToDate : (hash : Text → Text) → List AuthCall → AuthTables → Type 0
AreUpToDate hash [] db = Unit {0}
AreUpToDate hash (c ∷ cs) db = IsUpToDate c (run_calls hash cs db) × AreUpToDate hash cs db

-- The mirror keeps what holds of another app's session.
kept_of_other :
    (rec : AppRecord) (scopes : List Text) (db : AuthTables) (r : SessionRow)
    → text_eq r.audience rec.audience ≡ false
    → is_allowed_row db r ≡ true
    → is_allowed_row (mirror_tables rec scopes db) r ≡ true
kept_of_other rec scopes db r other h =
    let apps = apps_kept rec r.audience db.apps in
    let declared =
      every_mono (declares r.audience db) (declares r.audience (mirror_tables rec scopes db))
        r.scopes (λ s d. declares_other r.audience rec.audience s scopes db.app_scopes other ∙ d) in
    ground (arith, h, apps, declared)

same_declared :
    (rec : AppRecord) (scopes : List Text) (db : AuthTables) (s : Text)
    → entries rec.audience db.app_scopes ≡ scopes
    → declares rec.audience (mirror_tables rec scopes db) s ≡ declares rec.audience db s
same_declared rec scopes db s e =
    declares_own rec.audience s scopes db.app_scopes
    ∙ (rw (← e) (among-entries rec.audience s db.app_scopes))

-- It keeps what holds of its own sessions where the scopes are the same.
kept_of_same :
    (rec : AppRecord) (scopes : List Text) (db : AuthTables) (r : SessionRow)
    → text_eq r.audience rec.audience ≡ true
    → entries rec.audience db.app_scopes ≡ scopes
    → is_allowed_row db r ≡ true
    → is_allowed_row (mirror_tables rec scopes db) r ≡ true
kept_of_same rec scopes db r mine e h =
    let is : r.audience ≡ rec.audience = (text_eq_iff r.audience rec.audience).0 mine in
    let apps = apps_kept rec r.audience db.apps in
    let declared =
      every_mono (declares r.audience db) (declares r.audience (mirror_tables rec scopes db))
        r.scopes (λ s d. rw is (same_declared rec scopes db s e) ∙ d) in
    ground (arith, h, apps, declared)

-- An app that has a session and is not changed has the same scopes as before.
same_scopes :
    (rec : AppRecord) (scopes : List Text) (db : AuthTables)
    → app_changed rec scopes (find (is_app rec.audience) db.apps) db ≡ false
    → exists (is_app rec.audience) db.apps ≡ true
    → entries rec.audience db.app_scopes ≡ scopes
same_scopes rec scopes db h there = elim (Option-cases (find (is_app rec.audience) db.apps)) [
  | inl e ↦ cc (there, exists_of_unfound (is_app rec.audience) db.apps e)
  | inr (a, e) ↦
      let h' = rw e at h in
      equal_strings_eq (entries rec.audience db.app_scopes) scopes (ground (arith, h'))
]

unchanged_row :
    (rec : AppRecord) (scopes : List Text) (db : AuthTables) (r : SessionRow)
    → app_changed rec scopes (find (is_app rec.audience) db.apps) db ≡ false
    → is_allowed_row db r ≡ true
    → is_allowed_row (mirror_tables rec scopes db) r ≡ true
unchanged_row rec scopes db r h a = elim (Bool-cases (text_eq r.audience rec.audience)) [
  | inr other ↦ kept_of_other rec scopes db r other a
  | inl mine ↦ elim (Bool-cases (is_unset r.revoked_at)) [
    | inr gone ↦ rw gone refl
    | inl live ↦
        let is : r.audience ≡ rec.audience = (text_eq_iff r.audience rec.audience).0 mine in
        let there : exists (is_app r.audience) db.apps ≡ true = ground (arith, a, live) in
        kept_of_same rec scopes db r mine (same_scopes rec scopes db h (rw (← is) there)) a
  ]
]

-- Of a changed app, no session is left that is not revoked.
changed_rows :
    (rec : AppRecord) (scopes : List Text) (db : AuthTables) (now : ℕ) (rs : List SessionRow)
    → every (is_allowed_row db) rs ≡ true
    → every
        (is_allowed_row (mirror_tables rec scopes db))
        (update_where (is_unrevoked_for rec.audience) (revoked now) rs)
      ≡ true
unfolding every update_where
changed_rows rec scopes db now [] h = refl
changed_rows rec scopes db now (r ∷ rs) h =
    ground (arith, h, changed_rows rec scopes db now rs, kept_of_other rec scopes db r)

mirrored_allowed :
    (rec : AppRecord) (scopes : List Text) (changed : Bool) (now n : ℕ) (db db' : AuthTables)
    → app_changed rec scopes (find (is_app rec.audience) db.apps) db ≡ changed
    → is_allowed db ≡ true
    → revoke_changed changed rec.audience now (mirror_tables rec scopes db) ≡ ok (n, db')
    → is_allowed db' ≡ true
unfolding revoke_changed revoke_where
mirrored_allowed rec scopes true now n db db' c a e =
    let wrote : db' ≡ record (mirror_tables rec scopes db) {
      sessions = update_where (is_unrevoked_for rec.audience) (revoked now) db.sessions;
    } =
      ground (arith, e) in
    rw wrote (changed_rows rec scopes db now db.sessions a)
mirrored_allowed rec scopes false now n db db' c a e =
    let wrote : db' ≡ mirror_tables rec scopes db = ground (arith, e) in
    rw wrote (
      every_mono (is_allowed_row db) (is_allowed_row (mirror_tables rec scopes db)) db.sessions
        (λ r h. unchanged_row rec scopes db r c h) a)

-- An update of the sessions that keeps their audience and scopes, and unsets no revocation.
updated_allowed :
    (key : SessionRow → Bool) (change : SessionRow → SessionRow) (db : AuthTables)
    → ((r : SessionRow) → is_allowed_row db r ≡ true → is_allowed_row db (change r) ≡ true)
    → is_allowed db ≡ true
    → is_allowed (record db { sessions = update_where key change db.sessions }) ≡ true
updated_allowed key change db keeps a =
    every-update_where (is_allowed_row db) key change db.sessions keeps a

revoked_allowed :
    (test : SessionRow → Bool) (now n : ℕ) (db db' : AuthTables)
    → is_allowed db ≡ true
    → revoke_where test now db ≡ ok (n, db')
    → is_allowed db' ≡ true
unfolding revoke_where
revoked_allowed test now n db db' a e =
    let wrote : db' ≡ record db { sessions = update_where test (revoked now) db.sessions } =
      ground (arith, e) in
    rw wrote (updated_allowed test (revoked now) db (λ r h. refl) a)

every_both :
    (b : Bool) (p : Text → Bool) (xs : List Text)
    → is_empty xs ≡ false
    → every (λ x. b && p x) xs ≡ true
    → (b && every p xs) ≡ true
unfolding every
every_both true p xs ne h = h
every_both false p [] ne h = cc
every_both false p (x ∷ xs) ne h = h

pub validated :
    (audience : Text) (scopes canonical : List Text) (db : AuthTables)
    → validate_scopes audience scopes db ≡ ok canonical
    → (exists (is_enabled audience) db.apps && every (declares audience db) canonical) ≡ true
unfolding validate_scopes
validated audience scopes canonical db h = ground (
  arith,
  h,
  every_both (exists (is_enabled audience) db.apps) (declares audience db)
      (canonical_scopes scopes),
)

every_cons :
    {A : Type 0} (p : A → Bool) (x : A) (xs : List A)
    → p x ≡ true
    → every p xs ≡ true
    → every p (x ∷ xs) ≡ true
unfolding every
every_cons p x xs h hs = rw h hs

enabled_app :
    (audience : Text) (apps : List AppRow)
    → exists (is_enabled audience) apps ≡ true
    → exists (is_app audience) apps ≡ true
unfolding exists
enabled_app audience [] h = h
enabled_app audience (a ∷ apps) h = ground (arith, h, enabled_app audience apps)

issued_allowed :
    (hash : Text → Text) (token : Option Text) (now : ℕ) (address audience : Text)
    (scopes : List Text) (checked db db' : AuthTables) (a : Text × SessionRow)
    → validate_scopes audience scopes checked ≡ validate_scopes audience scopes db
    → is_allowed db ≡ true
    → issue_session hash token now address audience scopes checked db ≡ ok (a, db')
    → is_allowed db' ≡ true
issued_allowed hash token now address audience scopes checked db db' a same h e =
    let (canonical, v, t, free, row, wrote) =
      issue_session_ok hash token now address audience scopes checked db db' a e in
    let ok_scopes = validated audience scopes canonical db (rw same at v) in
    let first : is_allowed_row db a.1 ≡ true =
      rw row (ground (arith, ok_scopes, enabled_app audience db.apps)) in
    rw wrote (every_cons (is_allowed_row db) a.1 db.sessions first h)

create_challenge_db :
    (hash : Text → Text) (id new_nonce : Option Text) (now : ℕ) (address audience : Text)
    (scopes : List Text) (build : Text → ℕ → Text) (checked db db' : AuthTables) (c : ChallengeRow)
    → create_challenge hash id new_nonce now address audience scopes build checked db ≡ ok (c, db')
    → db' ≡ record db { challenges = db'.challenges }
unfolding create_challenge
create_challenge_db hash id new_nonce now address audience scopes build checked db db' c e =
    ground (arith, e)

consume_challenge_db :
    (id : Text) (now : ℕ) (db db' : AuthTables) (c : ChallengeRow)
    → consume_challenge id now db ≡ ok (c, db')
    → db' ≡ record db { challenges = db'.challenges }
unfolding consume_challenge
consume_challenge_db id now db db' c e = ground (arith, e)

keyed_allowed :
    (hash : Text → Text) (key : Option Text) (audience : Text) (db db' : AuthTables) (k : Text)
    → is_allowed db ≡ true
    → issue_app_api_key hash key audience db ≡ ok (k, db')
    → is_allowed db' ≡ true
unfolding issue_app_api_key
keyed_allowed hash key audience db db' k a e =
    let wrote : db' ≡ record db {
      apps =
          update_where (is_app audience) (λ x. record x { api_key_hash = some (hash k) }) db.apps;
    } =
      ground (arith, e) in
    rw wrote (
      every_mono (is_allowed_row db)
        (is_allowed_row (record db {
          apps =
              update_where (is_app audience) (λ x. record x { api_key_hash = some (hash k) })
                db.apps;
        }))
        db.sessions
        (λ r h. ground (
          arith,
          h,
          exists-update_where (is_app r.audience) (is_app audience)
              (λ x. record x { api_key_hash = some (hash k) }) db.apps (λ x. refl),
        ))
        a)

module _ (hash : Text → Text) where
  abbrev IsAllowed : AuthTables → Type 0
  IsAllowed db = is_allowed db ≡ true

  touched-IsAllowed :
      (token : Text) (now : ℕ) (db : AuthTables)
      → IsAllowed db
      → IsAllowed (touch_session hash token now db).1
  unfolding touch_session
  touched-IsAllowed token now db a = elim (Bool-cases (text_eq token [])) [
    | inl e ↦ rw e a
    | inr e ↦ rw e (
        updated_allowed (is_session hash token db now) (λ r. record r { last_used_at = now }) db
          (λ r h. h) a)
  ]

  revoked-IsAllowed :
      (token : Text) (now : ℕ) (db : AuthTables)
      → IsAllowed db
      → IsAllowed (revoke_session hash token now db).1
  unfolding revoke_session
  revoked-IsAllowed token now db a = elim (Bool-cases (text_eq token [])) [
    | inl e ↦ rw e a
    | inr e ↦ elim (Result-cases (revoke_where (is_unrevoked_token (hash token)) now db)) [
      | inl (f, r) ↦ rw (e, r) a
      | inr ((n, db'), r) ↦
          rw (e, r) (revoked_allowed (is_unrevoked_token (hash token)) now n db db' a r)
    ]
  ]

  effect-IsAllowed :
      (c : AuthCall) (db : AuthTables)
      → IsUpToDate c db
      → IsAllowed db
      → IsAllowed (effect hash c db)
  effect-IsAllowed (AuthCall.creates id new_nonce now address audience scopes build checked) db u
        a =
      after_kept IsAllowed true
        (create_challenge hash id new_nonce now address audience scopes build checked db) db a
        λ c db' e.
          rw
            (create_challenge_db hash id new_nonce now address audience scopes build checked db db'
              c e)
            a
  effect-IsAllowed (AuthCall.consumes id now) db u a =
      after_kept IsAllowed true (consume_challenge id now db) db a
        λ c db' e. rw (consume_challenge_db id now db db' c e) a
  effect-IsAllowed (AuthCall.issues token now address audience scopes checked) db u a =
      after_kept IsAllowed true (issue_session hash token now address audience scopes checked db) db
        a λ x db' e. issued_allowed hash token now address audience scopes checked db db' x u a e
  effect-IsAllowed (AuthCall.touches token now) db u a = touched-IsAllowed token now db a
  effect-IsAllowed (AuthCall.revokes token now) db u a = revoked-IsAllowed token now db a
  effect-IsAllowed (AuthCall.revokes_all address now) db u a =
      after_kept IsAllowed true (revoke_all_sessions address now db) db a
        λ n db' e. revoked_allowed (is_unrevoked_of (compact_address address)) now n db db' a e
  effect-IsAllowed (AuthCall.mirrors rec now) db u a =
      after_kept IsAllowed true (upsert_app rec now db) db a λ n db' e.
        mirrored_allowed rec (canonical_scopes rec.scopes)
          (app_changed rec (canonical_scopes rec.scopes) (find (is_app rec.audience) db.apps) db)
          now n db db' refl a (upsert_app_ok rec now n db db' e)
  effect-IsAllowed (AuthCall.gives_key key audience) db u a =
      after_kept IsAllowed true (issue_app_api_key hash key audience db) db a
        λ k db' e. keyed_allowed hash key audience db db' k a e

  pub run-IsAllowed :
      (cs : List AuthCall) (db : AuthTables)
      → AreUpToDate hash cs db
      → IsAllowed db
      → IsAllowed (run_calls hash cs db)
  unfolding run_calls
  run-IsAllowed [] db u a = a
  run-IsAllowed (c ∷ cs) db u a =
      effect-IsAllowed c (run_calls hash cs db) u.0 (run-IsAllowed cs db u.1 a)
