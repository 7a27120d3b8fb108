-- ===== src/Sessions/Replay.antt =====
-- What is remembered of the signatures that were spent.
use nim_connect.Base.{
  ℕ, ◌+◌, ◌≤◌, ◌≡◌, refl, Bool, true, false, ◌&&◌, none, some, List, [], ◌∷◌, Text, text_eq_refl,
  exists, select, leb, arith, All,
}
use nim_connect.Sessions.{
  UsedEntry, UserSessions, login_window, has_key, is_kept, sweep_locked, consume_signature, issue,
  session_for, revoke,
}
use nim_connect.Sessions.History.{SessionCall, call, run_calls, IsSweptBy}

-- The key was spent at this time or later.
abbrev is_spent : Text → ℕ → List UsedEntry → Bool
is_spent key since us = exists (λ u. has_key key u && leb since u.used_at) us

spent-sweep :
    (key : Text) (since swept : ℕ) (us : List UsedEntry)
    → swept ≤ since + login_window
    → is_spent key since us ≡ true
    → is_spent key since (select (is_kept swept) us) ≡ true
unfolding exists select
spent-sweep key since swept [] le h = h
spent-sweep key since swept (u ∷ us) le h = ground (arith, spent-sweep key since swept us le)

spent-call :
    (hash : Text → Text) (key : Text) (since : ℕ) (c : SessionCall) (s : UserSessions)
    → IsSweptBy (since + login_window) c
    → is_spent key since s.used ≡ true
    → is_spent key since (call hash c s).used ≡ true
unfolding consume_signature sweep_locked issue session_for revoke exists
spent-call hash key since (SessionCall.consumes signature now swept) s le h =
    ground (arith, spent-sweep key since swept s.used le h)
spent-call hash key since (SessionCall.issues none address audience now swept) s le h = h
spent-call hash key since (SessionCall.issues (some t) address audience now swept) s le h =
    spent-sweep key since swept s.used le h
spent-call hash key since (SessionCall.asks t swept) s le h =
    ground (arith, spent-sweep key since swept s.used le h)
spent-call hash key since (SessionCall.revokes t) s le h = h

spent-run :
    (hash : Text → Text) (key : Text) (since : ℕ) (cs : List SessionCall) (s : UserSessions)
    → All (IsSweptBy (since + login_window)) cs
    → is_spent key since s.used ≡ true
    → is_spent key since (run_calls hash cs s).used ≡ true
unfolding run_calls
spent-run hash key since [] s a h = h
spent-run hash key since (c ∷ cs) s a h =
    spent-call hash key since c (run_calls hash cs s) a.0 (spent-run hash key since cs s a.1 h)

spent_key :
    (key : Text) (since : ℕ) (us : List UsedEntry)
    → is_spent key since us ≡ true
    → exists (has_key key) us ≡ true
unfolding exists
spent_key key since [] h = h
spent_key key since (u ∷ us) h = ground (arith, spent_key key since us)

spent_after :
    (hash : Text → Text) (signature : Text) (swept now : ℕ) (s : UserSessions)
    → (consume_signature hash swept now signature s).0 ≡ true
    → is_spent (hash signature) now (consume_signature hash swept now signature s).1.used ≡ true
unfolding consume_signature exists
spent_after hash signature swept now s h = ground (arith, h, text_eq_refl (hash signature))

refused_where_spent :
    (hash : Text → Text) (signature : Text) (since swept now : ℕ) (s : UserSessions)
    → swept ≤ since + login_window
    → is_spent (hash signature) since s.used ≡ true
    → (consume_signature hash swept now signature s).0 ≡ false
unfolding consume_signature sweep_locked
refused_where_spent hash signature since swept now s le h =
    let kept = spent-sweep (hash signature) since swept s.used le h in
    rw (spent_key (hash signature) since (select (is_kept swept) s.used) kept) refl

-- A signature that was spent is refused again, whatever calls come between, as long as no clock reading
-- of theirs, nor of the second attempt, is more than five minutes later than that of the first.
pub replay_refused :
    (hash : Text → Text) (signature : Text) (swept now again later : ℕ) (s : UserSessions)
    (cs : List SessionCall)
    → (consume_signature hash swept now signature s).0 ≡ true
    → All (IsSweptBy (now + login_window)) cs
    → again ≤ now + login_window
    → (consume_signature hash again later signature
        (run_calls hash cs (consume_signature hash swept now signature s).1)).0
      ≡ false
replay_refused hash signature swept now again later s cs h a le =
    refused_where_spent hash signature now again later _ le
      (spent-run hash (hash signature) now cs _ a (spent_after hash signature swept now s h))
