-- ===== src/Auth/Revoked.antt =====
-- What ends a session for good: its revocation, and a change of its app.
use nim_connect.Base.{
  ◌&&◌, false, ℕ, ◌≤◌, ◌≡◌, refl, true, not, ◌||◌, some, List, [], ◌∷◌, Text, text_eq, text_eq_iff,
  ok, err, find, exists, every, count, arith, Option-cases, inl, inr,
}
use nim_connect.Base.Counts.{find_holds}
use nim_connect.Base.Rows.{update_where}
use nim_connect.Base.Scans.{
  exists-update_where, every_found, every_of_one, exists_of_find_both, exists_of_count_pos,
}
use nim_connect.Auth.{
  AppRow, AuthTables, AuthError, SessionRow, has_token_hash, is_unset, is_valid_session, is_session,
  revoked, revoke_where, is_unrevoked_token, revoke_session, resolve_session, canonical_scopes,
  is_app,
}
use nim_connect.Auth.Apps.{
  entries, equal_strings, AppRecord, upsert_app, revoke_changed, app_changed, mirror_tables,
  is_unrevoked_for,
}
use nim_connect.Auth.Calls.{AuthCall, run_calls}
use nim_connect.Auth.Dead.{is_dead_row, is_dead, run-IsDead, upsert_app_ok}

-- A dead session is not resolved.
unresolved :
    (hash : Text → Text) (token : Text) (now : ℕ) (db : AuthTables)
    → is_dead (hash token) db.sessions ≡ true
    → resolve_session hash token now db ≡ err AuthError.session_unavailable
unfolding resolve_session
unresolved hash token now db d =
    elim (Option-cases (find (is_session hash token db now) db.sessions)) [
      | inl e ↦ rw e (ground arith)
      | inr (r, e) ↦
          let holds = find_holds (is_session hash token db now) db.sessions {x = r} e in
          let dead =
            every_found (is_dead_row (hash token)) (is_session hash token db now) db.sessions
              {x = r} in
          ground (arith, d, holds, dead, e)
    ]

all_revoked :
    (h : Text) (now : ℕ) (rs : List SessionRow)
    → every (is_dead_row h) (update_where (is_unrevoked_token h) (revoked now) rs) ≡ true
unfolding every update_where
all_revoked h now [] = refl
all_revoked h now (r ∷ rs) = ground (arith, all_revoked h now rs)

revoke_session_dead :
    (hash : Text → Text) (token : Text) (now : ℕ) (db : AuthTables)
    → (revoke_session hash token now db).0 ≡ ok tt
    → is_dead (hash token) (revoke_session hash token now db).1.sessions ≡ true
unfolding revoke_session revoke_where
revoke_session_dead hash token now db h =
    let there =
      exists_of_count_pos (has_token_hash (hash token)) (λ r. is_unset r.revoked_at) db.sessions in
    let kept =
      exists-update_where (has_token_hash (hash token)) (is_unrevoked_token (hash token))
        (revoked now) db.sessions (λ r. refl) in
    ground (arith, h, there, kept, all_revoked (hash token) now db.sessions)

-- Once a session is revoked, its token is refused for ever, whatever calls follow and whatever the
-- clock says.
pub revoked_for_ever :
    (hash : Text → Text) (token : Text) (now later : ℕ) (db : AuthTables) (cs : List AuthCall)
    → (revoke_session hash token now db).0 ≡ ok tt
    → resolve_session hash token later (run_calls hash cs (revoke_session hash token now db).1)
      ≡ err AuthError.session_unavailable
revoked_for_ever hash token now later db cs h =
    unresolved hash token later (run_calls hash cs (revoke_session hash token now db).1) (
      run-IsDead hash (hash token) cs (revoke_session hash token now db).1
        (revoke_session_dead hash token now db h))

-- Where each row of the hash is of the audience, revoking the audience's rows revokes them.
audience_revoked :
    (h audience : Text) (now : ℕ) (rs : List SessionRow)
    → every (λ r. not (has_token_hash h r) || text_eq r.audience audience) rs ≡ true
    → every (is_dead_row h) (update_where (is_unrevoked_for audience) (revoked now) rs) ≡ true
unfolding every update_where
audience_revoked h audience now [] e = refl
audience_revoked h audience now (r ∷ rs) e = ground (arith, e, audience_revoked h audience now rs)

revoked_changed_dead :
    (h audience : Text) (now n : ℕ) (db db' : AuthTables)
    → exists (has_token_hash h) db.sessions ≡ true
    → every (λ r. not (has_token_hash h r) || text_eq r.audience audience) db.sessions ≡ true
    → revoke_changed true audience now db ≡ ok (n, db')
    → is_dead h db'.sessions ≡ true
unfolding revoke_changed revoke_where
revoked_changed_dead h audience now n db db' there all e =
    let kept =
      exists-update_where (has_token_hash h) (is_unrevoked_for audience) (revoked now) db.sessions
        (λ r. refl) in
    ground (arith, e, there, kept, audience_revoked h audience now db.sessions all)

-- Where one row at most has a token's hash: if the mirror of an app that existed comes with another
-- owner, or with scopes that are not those declared before, then a token that was resolved before to a session of this app is refused for ever after,
-- whatever calls follow.
pub changed_app_ends_sessions :
    (hash : Text → Text) (token : Text) (before now later n : ℕ) (rec : AppRecord) (prior : AppRow)
    (db db' : AuthTables) (g : SessionRow) (cs : List AuthCall)
    → count (has_token_hash (hash token)) db.sessions ≤ 1
    → resolve_session hash token before db ≡ ok g
    → g.audience ≡ rec.audience
    → find (is_app rec.audience) db.apps ≡ some prior
    → (text_eq prior.owner_id rec.owner_id
        && equal_strings (entries rec.audience db.app_scopes) (canonical_scopes rec.scopes))
      ≡ false
    → upsert_app rec now db ≡ ok (n, db')
    → resolve_session hash token later (run_calls hash cs db') ≡ err AuthError.session_unavailable
unfolding resolve_session
changed_app_ends_sessions hash token before now later n rec prior db db' g cs one r a existed
      differs e =
    let found : find (is_session hash token db before) db.sessions ≡ some g = ground (arith, r) in
    let all =
      every_of_one (has_token_hash (hash token)) (is_valid_session db before)
        (λ x. text_eq x.audience rec.audience) db.sessions {x = g} one found
        ((text_eq_iff g.audience rec.audience).1 a) in
    let there =
      exists_of_find_both (has_token_hash (hash token)) (is_valid_session db before) db.sessions
        {x = g} found in
    let changed : app_changed rec (canonical_scopes rec.scopes) (find (is_app rec.audience) db.apps)
          db
        ≡ true =
      rw existed (ground (arith, differs)) in
    let e' = rw changed at (upsert_app_ok rec now n db db' e) in
    unresolved hash token later (run_calls hash cs db') (
      run-IsDead hash (hash token) cs db' (
        revoked_changed_dead (hash token) rec.audience now n
          (mirror_tables rec (canonical_scopes rec.scopes) db) db' there all e'))
