-- ===== src/Auth/Actors.antt =====
-- What a request may do with a token's scope.
use nim_connect.Base.{
  ℕ, ◌≡◌, refl, Bool, true, some, List, [], ◌∷◌, Text, text_eq, text_eq_iff, ok, find, exists,
  every, arith, Bool-cases, Result-cases, inl, inr,
}
use nim_connect.Base.Counts.{find_holds}
use nim_connect.Base.Scans.{every_found}
use nim_connect.Auth.{AuthTables, SessionRow, is_enabled, declares, is_session, resolve_session}
use nim_connect.Auth.Calls.{AuthCall, run_calls}
use nim_connect.Auth.Handlers.{AuthActor, grant_has_scope, actor_of, resolve_scoped_actor}
use nim_connect.Auth.Allowed.{is_allowed_row, is_allowed, AreUpToDate, run-IsAllowed}

every_member :
    (p : Text → Bool) (s : Text) (ss : List Text)
    → every p ss ≡ true
    → exists (λ t. text_eq t s) ss ≡ true
    → p s ≡ true
unfolding every exists
every_member p s [] h m = cc
every_member p s (t ∷ ss) h m = elim (Bool-cases (text_eq t s)) [
  | inl e ↦ let is : t ≡ s = (text_eq_iff t s).0 e in rw (← is) (ground (arith, h))
  | inr e ↦ every_member p s ss (ground (arith, h)) (ground (arith, m, e))
]

resolved_allowed :
    (hash : Text → Text) (token : Text) (now : ℕ) (db : AuthTables) (g : SessionRow)
    → is_allowed db ≡ true
    → resolve_session hash token now db ≡ ok g
    → (exists (is_enabled g.audience) db.apps ≡ true)
      × (every (declares g.audience db) g.scopes ≡ true)
unfolding resolve_session
resolved_allowed hash token now db g a r =
    let found : find (is_session hash token db now) db.sessions ≡ some g = ground (arith, r) in
    let holds = find_holds (is_session hash token db now) db.sessions {x = g} found in
    let allowed =
      every_found (is_allowed_row db) (is_session hash token db now) db.sessions {x = g} a found in
    (ground (arith, holds), ground (arith, holds, allowed))

no_sessions_allowed : (db : AuthTables) → db.sessions ≡ [] → is_allowed db ≡ true
unfolding every
no_sessions_allowed db e = rw e refl

-- Whatever calls follow tables without sessions, if each issue's check of the scopes still has the same
-- answer when its row is inserted: an actor that a token's request is let through as, for
-- a scope, is of an app that is enabled then and that declares this scope then; and the actor's scopes
-- contain it.
pub scoped_actor_allowed :
    (hash : Text → Text) (cs : List AuthCall) (start : AuthTables) (token required : Text)
    (now touched : ℕ) (actor : AuthActor)
    → start.sessions ≡ []
    → AreUpToDate hash cs start
    → (resolve_scoped_actor hash token required now touched (run_calls hash cs start)).0
      ≡ some actor
    → (exists (is_enabled actor.audience) (run_calls hash cs start).apps ≡ true)
      × (declares actor.audience (run_calls hash cs start) required ≡ true)
      × (exists (λ s. text_eq s required) actor.scopes ≡ true)
unfolding resolve_scoped_actor
scoped_actor_allowed hash cs start token required now touched actor none_yet current h =
    let empty : is_allowed start ≡ true = no_sessions_allowed start none_yet in
    let a = run-IsAllowed hash cs start current empty in
    elim (Result-cases (resolve_session hash token now (run_calls hash cs start))) [
      | inl (e, r) ↦ cc (rw (resolve_scoped_actor, r) at h)
      | inr (g, r) ↦
          let h' = rw (resolve_scoped_actor, r) at h in
          let (enabled, declared) =
            resolved_allowed hash token now (run_calls hash cs start) g a r in
          let has : grant_has_scope g required ≡ true = ground (arith, h') in
          let is : actor ≡ actor_of g = ground (arith, h', has) in
          rw is (
            enabled,
            every_member (declares g.audience (run_calls hash cs start)) required g.scopes declared
                has,
            has,
          )
    ]
