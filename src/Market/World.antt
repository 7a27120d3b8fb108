-- ===== src/Market/World.antt =====
-- What the workers of the marketplace act on: the tables, and a script of what the world around
-- them answers. A worker is an action: it returns a result or an error, with the new world; what a
-- failing action did before its error stays done.
use nim_connect.Base.{
  ◌≡◌, refl, ◌⊎◌, inl, inr, ℕ, ◌+◌, Option, none, some, List, [], ◌∷◌, Text, Result, ok, err,
}
use nim_connect.Market.Tables.{Tables}
use nim_connect.Market.Store.{MarketError, db_error, signer_error, Tx}

-- How a database call ends. A `lost` call takes effect, and the connection fails before its answer.
pub data Outcome : Type 0 where
  passes fails lost : Outcome

-- A call of `SendBasicTransactionWithData`: the signing node may have sent it, whatever it answers.
pub record Payment : Type 0 where
  pub sender : Text
  pub recipient : Text
  pub value_luna : ℕ

pub record World : Type 0 where
  pub tables : Tables
  -- of the database calls to come; all pass when the script has ended
  pub outcomes : List Outcome
  -- `time.Now().Unix()`, and how much later each next reading is
  pub clock : ℕ
  pub delays : List ℕ
  -- the signing node's answers: a transaction hash, or none for an error
  pub replies : List (Option Text)
  -- the payments that the signing node was asked for, newest first
  pub sent : List Payment

abbrev pub M : Type 0 → Type 0
M A = World → Result MarketError A × World

module _ {A : Type 0} where
  unfoldable pub pure : A → M A
  pure a w = (ok a, w)

  -- A result that needs no world, as an action.
  unfoldable pub lift : Result MarketError A → M A
  lift r w = (r, w)

module _ {A B : Type 0} where
  abbrev pub continue : Result MarketError A → (A → M B) → M B
  continue (ok a) f w = f a w
  continue (err e) f w = (err e, w)

  infixl 5 ◌>>=◌ ◌>>◌
  unfoldable pub ◌>>=◌ : M A → (A → M B) → M B
  unfolding pure lift
  ◌>>=◌ m f w = let (r, w') = m w in continue r f w'

  abbrev pub ◌>>◌ : M A → M B → M B
  m >> n = m >>= λ _. n

abbrev pub head_outcome : List Outcome → Outcome
head_outcome [] = passes
head_outcome (o ∷ os) = o

abbrev pub rest_of {ℓ} : {A : Type ℓ} → List A → List A
rest_of [] = []
rest_of (x ∷ xs) = xs

abbrev pub head_delay : List ℕ → ℕ
head_delay [] = 0
head_delay (d ∷ ds) = d

abbrev pub head_reply : List (Option Text) → Option Text
head_reply [] = none
head_reply (r ∷ rs) = r

unfoldable pub read_clock : M ℕ
read_clock w =
    (ok w.clock, record w { clock = w.clock + head_delay w.delays; delays = rest_of w.delays })

module _ {A : Type 0} where
  -- A transaction whose statements and commit end as told. An error rolls it back.
  abbrev pub committed :
      Outcome → Result MarketError (A × Tables) → Tables → Result MarketError A × Tables
  committed fails r db = (err db_error, db)
  committed o (err e) db = (err e, db)
  committed passes (ok (a, db')) db = (ok a, db')
  committed lost (ok (a, db')) db = (err db_error, db')

  unfoldable pub transact : Tx A → M A
  transact body w =
      let (r, db) = committed (head_outcome w.outcomes) (body w.tables) w.tables in
      (r, record w { tables = db; outcomes = rest_of w.outcomes })

  -- A query whose failure the caller takes for `missing`.
  abbrev pub answer : Outcome → A → A → A
  answer passes a missing = a
  answer _ a missing = missing

  unfoldable pub query : (Tables → A) → A → M A
  query ask missing w = (
    ok (answer (head_outcome w.outcomes) (ask w.tables) missing),
    record w { outcomes = rest_of w.outcomes },
  )

abbrev pub hash_of : Option Text → Result MarketError Text
hash_of none = err signer_error
hash_of (some hash) = ok hash

unfoldable pub send_payment : Payment → M Text
send_payment p w =
    (hash_of (head_reply w.replies), record w { replies = rest_of w.replies; sent = p ∷ w.sent })

committed_cases :
    {A : Type 0} (o : Outcome) (r : Result MarketError (A × Tables)) (w : World)
    → ((e : MarketError) × ((committed o r w.tables).0 ≡ err e))
      ⊎ ((a : A) × (db : Tables) × (r ≡ ok (a, db)) × (committed o r w.tables ≡ (ok a, db)))
committed_cases fails r w = inl (db_error, refl)
committed_cases passes (err e) w = inl (e, refl)
committed_cases passes (ok (a, db)) w = inr (a, db, refl, refl)
committed_cases lost (err e) w = inl (e, refl)
committed_cases lost (ok (a, db)) w = inl (db_error, refl)

-- How a transaction ends: it fails, or it commits and its result is known.
pub transact_cases :
    {A : Type 0} (body : Tx A) (w : World)
    → ((e : MarketError) × ((transact body w).0 ≡ err e))
      ⊎ ((a : A) × (db : Tables) × (body w.tables ≡ ok (a, db))
          × (transact body w ≡ (ok a, record w { tables = db; outcomes = rest_of w.outcomes })))
unfolding transact
transact_cases body w = elim (committed_cases (head_outcome w.outcomes) (body w.tables) w) [
  | inl (e, h) ↦ inl (e, h)
  | inr (a, db, h, c) ↦ inr (a, db, h, rw c)
]

-- The two ways that a bind goes on.
pub bind_err :
    {A B : Type 0} (m : M A) (f : A → M B) (w : World) {e : MarketError}
    → (m w).0 ≡ err e
    → (m >>= f) w ≡ (err e, (m w).1)
unfolding ◌>>=◌
bind_err m f w h = rw h

pub bind_ok :
    {A B : Type 0} (m : M A) (f : A → M B) {w w' : World} {a : A}
    → m w ≡ (ok a, w')
    → (m >>= f) w ≡ f a w'
unfolding ◌>>=◌
bind_ok m f h = rw h
