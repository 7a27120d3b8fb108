-- ===== src/Auth/Spent.antt =====
-- A challenge that was consumed stays so.
use nim_connect.Base.{
  ℕ, ◌≤◌, ◌≡◌, refl, Bool, true, not, ◌&&◌, ◌||◌, Option, none, some, List, [], ◌∷◌, Text,
  text_eq_iff, ok, err, find, exists, every, count, ltb, arith, Option-cases, inl, inr,
}
use nim_connect.Base.Counts.{find_holds}
use nim_connect.Base.Storage.{after_kept}
use nim_connect.Base.Rows.{update_where}
use nim_connect.Base.Scans.{
  every-update_where, exists-update_where, every_found, every_of_one, exists_of_find_both,
}
use nim_connect.Address.{compact_address}
use nim_connect.Auth.{
  AuthTables, AuthError, ChallengeRow, SessionRow, is_unset, has_challenge_id, is_open,
  canonical_scopes, is_app, revoke_where, create_challenge, get_challenge, consume_challenge,
  issue_session, touch_session, revoke_session, revoke_all_sessions, is_unrevoked_of,
}
use nim_connect.Auth.Apps.{
  upsert_app, app_changed, mirror_tables, revoke_changed, issue_app_api_key,
}
use nim_connect.Auth.Calls.{AuthCall, effect, run_calls}
use nim_connect.Auth.Dead.{issue_session_ok, upsert_app_ok}

abbrev pub is_spent_row : Text → ChallengeRow → Bool
is_spent_row id c = not (has_challenge_id id c) || not (is_unset c.consumed_at)

abbrev pub is_spent : Text → List ChallengeRow → Bool
is_spent id cs = exists (has_challenge_id id) cs && every (is_spent_row id) cs

created_spent :
    (hash : Text → Text) (id : Text) (new_id new_nonce : Option Text) (now : ℕ)
    (address audience : Text) (scopes : List Text) (build : Text → ℕ → Text)
    (checked db db' : AuthTables) (c : ChallengeRow)
    → is_spent id db.challenges ≡ true
    → create_challenge hash new_id new_nonce now address audience scopes build checked db
      ≡ ok (c, db')
    → is_spent id db'.challenges ≡ true
unfolding create_challenge exists every
created_spent hash id none new_nonce now address audience scopes build checked db db' c s e =
    ground (arith, e)
created_spent hash id (some i) new_nonce now address audience scopes build checked db db' c s e =
    ground (arith, s, e, text_eq_iff i id)

consumed_spent :
    (id other : Text) (now : ℕ) (db db' : AuthTables) (c : ChallengeRow)
    → is_spent id db.challenges ≡ true
    → consume_challenge other now db ≡ ok (c, db')
    → is_spent id db'.challenges ≡ true
unfolding consume_challenge
consumed_spent id other now db db' c s e =
    let wrote : db'.challenges
        ≡ update_where (is_open other now) (λ x. record x { consumed_at = some now })
            db.challenges =
      ground (arith, e) in
    let kept =
      exists-update_where (has_challenge_id id) (is_open other now)
        (λ x. record x { consumed_at = some now }) db.challenges (λ x. refl) in
    let all =
      every-update_where (is_spent_row id) (is_open other now)
        (λ x. record x { consumed_at = some now }) db.challenges (λ x h. ground arith) in
    rw wrote (ground (arith, s, kept, all))

revoked_challenges :
    (test : SessionRow → Bool) (now n : ℕ) (db db' : AuthTables)
    → revoke_where test now db ≡ ok (n, db')
    → db'.challenges ≡ db.challenges
unfolding revoke_where
revoked_challenges test now n db db' e = ground (arith, e)

changed_challenges :
    (changed : Bool) (audience : Text) (now n : ℕ) (db db' : AuthTables)
    → revoke_changed changed audience now db ≡ ok (n, db')
    → db'.challenges ≡ db.challenges
unfolding revoke_changed revoke_where
changed_challenges changed audience now n db db' e = ground (arith, e)

keyed_challenges :
    (hash : Text → Text) (key : Option Text) (audience : Text) (db db' : AuthTables) (k : Text)
    → issue_app_api_key hash key audience db ≡ ok (k, db')
    → db'.challenges ≡ db.challenges
unfolding issue_app_api_key
keyed_challenges hash key audience db db' k e = ground (arith, e)

module _ (hash : Text → Text) (id : Text) where
  abbrev IsSpent : AuthTables → Type 0
  IsSpent db = is_spent id db.challenges ≡ true

  touched_challenges :
      (token : Text) (now : ℕ) (db : AuthTables)
      → (touch_session hash token now db).1.challenges ≡ db.challenges
  unfolding touch_session
  touched_challenges token now db = ground arith

  revoked_session_challenges :
      (token : Text) (now : ℕ) (db : AuthTables)
      → (revoke_session hash token now db).1.challenges ≡ db.challenges
  unfolding revoke_session revoke_where
  revoked_session_challenges token now db = ground arith

  effect-IsSpent : (c : AuthCall) (db : AuthTables) → IsSpent db → IsSpent (effect hash c db)
  effect-IsSpent (AuthCall.creates i n now address audience scopes build checked) db s =
      after_kept IsSpent true
        (create_challenge hash i n now address audience scopes build checked db) db s
        λ c db' e. created_spent hash id i n now address audience scopes build checked db db' c s e
  effect-IsSpent (AuthCall.consumes other now) db s =
      after_kept IsSpent true (consume_challenge other now db) db s
        λ c db' e. consumed_spent id other now db db' c s e
  effect-IsSpent (AuthCall.issues token now address audience scopes checked) db s =
      after_kept IsSpent true (issue_session hash token now address audience scopes checked db) db s
        λ a db' e.
          let (canonical, v, t, free, row, wrote) =
            issue_session_ok hash token now address audience scopes checked db db' a e in
          rw wrote s
  effect-IsSpent (AuthCall.touches token now) db s = rw (touched_challenges token now db) s
  effect-IsSpent (AuthCall.revokes token now) db s = rw (revoked_session_challenges token now db) s
  effect-IsSpent (AuthCall.revokes_all address now) db s =
      after_kept IsSpent true (revoke_all_sessions address now db) db s λ n db' e.
        rw (revoked_challenges (is_unrevoked_of (compact_address address)) now n db db' e) s
  effect-IsSpent (AuthCall.mirrors rec now) db s =
      after_kept IsSpent true (upsert_app rec now db) db s λ n db' e.
        rw
          (changed_challenges
            (app_changed rec (canonical_scopes rec.scopes) (find (is_app rec.audience) db.apps) db)
            rec.audience now n (mirror_tables rec (canonical_scopes rec.scopes) db) db'
            (upsert_app_ok rec now n db db' e))
          s
  effect-IsSpent (AuthCall.gives_key key audience) db s =
      after_kept IsSpent true (issue_app_api_key hash key audience db) db s
        λ k db' e. rw (keyed_challenges hash key audience db db' k e) s

  pub run-IsSpent :
      (cs : List AuthCall) (db : AuthTables) → IsSpent db → IsSpent (run_calls hash cs db)
  unfolding run_calls
  run-IsSpent [] db s = s
  run-IsSpent (c ∷ cs) db s = effect-IsSpent c (run_calls hash cs db) (run-IsSpent cs db s)

-- A spent challenge is not found.
pub spent_unavailable :
    (id : Text) (now : ℕ) (db : AuthTables)
    → is_spent id db.challenges ≡ true
    → get_challenge id now db ≡ err AuthError.challenge_unavailable
unfolding get_challenge
spent_unavailable id now db s = elim (Option-cases (find (is_open id now) db.challenges)) [
  | inl e ↦ rw e refl
  | inr (c, e) ↦
      let holds = find_holds (is_open id now) db.challenges {x = c} e in
      let spent = every_found (is_spent_row id) (is_open id now) db.challenges {x = c} in
      ground (arith, s, holds, spent, e)
]

-- Where the id is a key, consuming a challenge spends it.
all_consumed :
    (id : Text) (now : ℕ) (cs : List ChallengeRow)
    → every
        (λ c. not (has_challenge_id id c) || (is_unset c.consumed_at && ltb now c.expires_at))
        cs
      ≡ true
    → every
        (is_spent_row id)
        (update_where (is_open id now) (λ x. record x { consumed_at = some now }) cs)
      ≡ true
unfolding every update_where
all_consumed id now [] h = refl
all_consumed id now (c ∷ cs) h = ground (arith, h, all_consumed id now cs)

pub consume_spends :
    (id : Text) (now : ℕ) (db db' : AuthTables) (c : ChallengeRow)
    → count (has_challenge_id id) db.challenges ≤ 1
    → consume_challenge id now db ≡ ok (c, db')
    → is_spent id db'.challenges ≡ true
unfolding consume_challenge
consume_spends id now db db' c one e =
    let found : find (is_open id now) db.challenges ≡ some c = ground (arith, e) in
    let holds = find_holds (is_open id now) db.challenges {x = c} found in
    let still : (is_unset c.consumed_at && ltb now c.expires_at) ≡ true = ground (arith, holds) in
    let all =
      every_of_one (has_challenge_id id) (λ x. is_unset x.consumed_at && ltb now x.expires_at)
        (λ x. is_unset x.consumed_at && ltb now x.expires_at) db.challenges {x = c} one found
        still in
    let there =
      exists_of_find_both (has_challenge_id id)
        (λ x. is_unset x.consumed_at && ltb now x.expires_at) db.challenges {x = c} found in
    let wrote : db'.challenges
        ≡ update_where (is_open id now) (λ x. record x { consumed_at = some now }) db.challenges =
      ground (arith, e) in
    let kept =
      exists-update_where (has_challenge_id id) (is_open id now)
        (λ x. record x { consumed_at = some now }) db.challenges (λ x. refl) in
    rw wrote (ground (arith, there, kept, all_consumed id now db.challenges all))
