-- ===== src/Auth/Exchange.antt =====
-- A challenge is signed, and exchanged for one session at most.
use nim_connect.Base.{
  ℕ, ◌+◌, ◌≤◌, ◌<◌, ◌≡◌, refl, Bool, true, false, Option, some, List, [], ◌∷◌, Text, text_eq,
  text_eq_refl, ok, find, exists, count, arith, Result-cases, inl, inr,
}
use nim_connect.Base.Counts.{find_holds}
use nim_connect.Base.Rows.{In_of_find, find_of_In}
use nim_connect.Market.Handlers.{Response}
use nim_connect.Auth.{
  AuthTables, ChallengeRow, SessionRow, is_enabled, auth_session_ttl, resolve_session,
  has_challenge_id, is_open, validate_scopes, new_session, canonical_scopes, get_challenge,
  consume_challenge, issue_session,
}
use nim_connect.Auth.Calls.{AuthCall, run_calls}
use nim_connect.Auth.Dead.{issue_session_ok}
use nim_connect.Auth.Allowed.{validated}
use nim_connect.Auth.Spent.{is_spent, run-IsSpent, spent_unavailable, consume_spends}
use nim_connect.Auth.Handlers.{ExchangeRequest, create_auth_session_handler}

-- What an exchange that is answered went through.
record IsExchange (hash : Text → Text) (verify_signed : Text → Text → Text → Text → Bool)
    (token : Option Text) (now db_now issued : ℕ) (req : ExchangeRequest) (db db' : AuthTables)
    (a : Text × SessionRow) : Type 0 where
  pub challenge : ChallengeRow
  pub consumed : ChallengeRow
  pub middle : AuthTables
  pub got : get_challenge req.challenge_id now db ≡ ok challenge
  pub signed : verify_signed challenge.address req.public_key req.signature challenge.message ≡ true
  pub took : consume_challenge req.challenge_id db_now db ≡ ok (consumed, middle)
  pub gave :
      issue_session hash token issued consumed.address consumed.audience consumed.scopes middle
        middle
      ≡ ok (a, db')

module _ (hash : Text → Text) (verify_signed : Text → Text → Text → Text → Bool) where
  answered-IsExchange :
      (token : Option Text) (now db_now issued : ℕ) (req : ExchangeRequest) (db db' : AuthTables)
      (a : Text × SessionRow)
      → create_auth_session_handler hash verify_signed token now db_now issued (some req) db
        ≡ (Response.answered a, db')
      → IsExchange hash verify_signed token now db_now issued req db db' a
  unfolding create_auth_session_handler
  answered-IsExchange token now db_now issued req db db' a h =
      elim (Result-cases (get_challenge req.challenge_id now db)) [
        | inl (e, g) ↦ let no : ⊥ = ground (arith, h, g) in elim no [ ]
        | inr (c, g) ↦ elim (Result-cases (consume_challenge req.challenge_id db_now db)) [
          | inl (e, k) ↦ let no : ⊥ = ground (arith, h, g, k) in elim no [ ]
          | inr ((d, middle), k) ↦ record {
            challenge = c;
            consumed = d;
            middle = middle;
            got = g;
            signed = ground (arith, h, g);
            took = k;
            gave = ground (arith, h, g, k);
          }
        ]
      ]

  -- The id of a challenge is a key. An exchange that is answered uses its challenge up: whatever calls
  -- follow, another exchange of the same challenge, with whatever signature, is answered with 401.
  pub challenge_used_once :
      (token again : Option Text) (now db_now issued now' db_now' issued' : ℕ)
      (req req' : ExchangeRequest) (db db' : AuthTables) (a : Text × SessionRow)
      (cs : List AuthCall)
      → count (has_challenge_id req.challenge_id) db.challenges ≤ 1
      → create_auth_session_handler hash verify_signed token now db_now issued (some req) db
        ≡ (Response.answered a, db')
      → text_eq req.challenge_id [] ≡ false
      → req'.challenge_id ≡ req.challenge_id
      → (create_auth_session_handler hash verify_signed again now' db_now' issued'
          (some req')
          (run_calls hash cs db')).0
        ≡ Response.unauthorized
  unfolding create_auth_session_handler
  challenge_used_once token again now db_now issued now' db_now' issued' req req' db db' a cs one h
        ne same =
      let x = answered-IsExchange token now db_now issued req db db' a h in
      let (canonical, v, t, free, row, wrote) =
        issue_session_ok hash token issued x.consumed.address x.consumed.audience x.consumed.scopes
          x.middle x.middle db' a x.gave in
      let spent : is_spent req.challenge_id db'.challenges ≡ true =
        rw wrote (consume_spends req.challenge_id db_now db x.middle x.consumed one x.took) in
      let gone =
        spent_unavailable req.challenge_id now' (run_calls hash cs db')
          (run-IsSpent hash req.challenge_id cs db' spent) in
      rw (create_auth_session_handler, same, ne, gone) refl

same_challenge :
    (id : Text) (now now' : ℕ) (cs : List ChallengeRow) (c d : ChallengeRow)
    → count (has_challenge_id id) cs ≤ 1
    → find (is_open id now) cs ≡ some c
    → find (is_open id now') cs ≡ some d
    → c ≡ d
same_challenge id now now' cs c d one f g =
    let holds = find_holds (is_open id now) cs {x = c} f in
    let holds' = find_holds (is_open id now') cs {x = d} g in
    let here =
      find_of_In (has_challenge_id id) cs c (In_of_find (is_open id now) cs c f)
        (ground (arith, holds)) one in
    let there =
      find_of_In (has_challenge_id id) cs d (In_of_find (is_open id now') cs d g)
        (ground (arith, holds')) one in
    cc (here, there)

found_challenge :
    (id : Text) (now : ℕ) (db : AuthTables) (c : ChallengeRow)
    → get_challenge id now db ≡ ok c
    → find (is_open id now) db.challenges ≡ some c
unfolding get_challenge
found_challenge id now db c h = ground (arith, h)

consume_db :
    (id : Text) (now : ℕ) (db db' : AuthTables) (c : ChallengeRow)
    → consume_challenge id now db ≡ ok (c, db')
    → (find (is_open id now) db.challenges ≡ some c) × (db'.apps ≡ db.apps)
unfolding consume_challenge
consume_db id now db db' c h = (ground (arith, h), ground (arith, h))

validated_enabled :
    (audience : Text) (scopes canonical : List Text) (db : AuthTables)
    → validate_scopes audience scopes db ≡ ok canonical
    → (canonical ≡ canonical_scopes scopes) × (exists (is_enabled audience) db.apps ≡ true)
unfolding validate_scopes
validated_enabled audience scopes canonical db h =
    (ground (arith, h), ground (arith, validated audience scopes canonical db h))

resolves_first :
    (hash : Text → Text) (token : Text) (later : ℕ) (address audience : Text) (scopes : List Text)
    (issued : ℕ) (db : AuthTables) (rs : List SessionRow)
    → text_eq token [] ≡ false
    → later < issued + auth_session_ttl
    → exists (is_enabled audience) db.apps ≡ true
    → resolve_session hash token later
        (record db { sessions = new_session (hash token) address audience scopes issued ∷ rs })
      ≡ ok (new_session (hash token) address audience scopes issued)
unfolding resolve_session find
resolves_first hash token later address audience scopes issued db rs ne le on =
    ground (arith, ne, on, text_eq_refl (hash token))

-- The id of a challenge is a key. An exchange is answered only for a challenge that is open at its time
-- and whose message the wallet of its address has signed. The session is of this address, audience and
-- scopes, and the token, where it is not empty, is resolved to it for the next seven days.
pub exchange_signed :
    (hash : Text → Text) (verify_signed : Text → Text → Text → Text → Bool) (token : Option Text)
    (now db_now issued later : ℕ) (req : ExchangeRequest) (db db' : AuthTables) (t : Text)
    (r : SessionRow)
    → count (has_challenge_id req.challenge_id) db.challenges ≤ 1
    → create_auth_session_handler hash verify_signed token now db_now issued (some req) db
      ≡ (Response.answered (t, r), db')
    → text_eq t [] ≡ false
    → later < issued + auth_session_ttl
    → (c : ChallengeRow) × (get_challenge req.challenge_id now db ≡ ok c)
      × (verify_signed c.address req.public_key req.signature c.message ≡ true)
      × (r ≡ new_session (hash t) c.address c.audience (canonical_scopes c.scopes) issued)
      × (resolve_session hash t later db' ≡ ok r)
exchange_signed hash verify_signed token now db_now issued later req db db' t r one h ne le =
    let x = answered-IsExchange hash verify_signed token now db_now issued req db db' (t, r) h in
    let c = x.challenge in
    let (taken, apps) = consume_db req.challenge_id db_now db x.middle x.consumed x.took in
    let same : x.consumed ≡ c =
      same_challenge req.challenge_id db_now now db.challenges x.consumed c one taken
        (found_challenge req.challenge_id now db c x.got) in
    let (canonical, v, to, free, row, wrote) =
      issue_session_ok hash token issued x.consumed.address x.consumed.audience x.consumed.scopes
        x.middle x.middle db' (t, r) x.gave in
    let (is, on) = validated_enabled x.consumed.audience x.consumed.scopes canonical x.middle v in
    (
      c,
      x.got,
      x.signed,
      rw (row, is, same) refl,
      rw (wrote, row)
          (resolves_first hash t later x.consumed.address x.consumed.audience canonical issued
            x.middle x.middle.sessions ne le on),
    )
