-- ===== src/Market/Settlement/Silent.antt =====
-- Actions that ask the signing node for nothing.
use nim_connect.Base.{
  guard, ◌⊎◌, inl, inr, some, none, ℕ, refl, ◌≡◌, ◌∙◌, Bool, true, false, Option, Text, Result, ok,
  err, if◌then◌else◌,
}
use nim_connect.Base.Int.{ℤ}
use nim_connect.Market.State.{TradeState, Trade}
use nim_connect.Market.Tables.{find_trade, Tables, LedgerEntryType}
use nim_connect.Market.Store.{MarketError, no_trade, Tx, resolve}
use nim_connect.Market.World.{
  World, M, pure, lift, ◌>>=◌, ◌>>◌, rest_of, head_outcome, answer, Outcome, passes, fails, lost,
  continue, read_clock, transact, query,
}
use nim_connect.Market.Settlement.{append, resolve_trade, move}

pub record IsSilent {A : Type 0} (m : M A) : Type 0 where
  pub at : (w : World) → (m w).1.sent ≡ w.sent

module _ {A : Type 0} where
  pub IsSilent-pure : (a : A) → IsSilent (pure a)
  unfolding pure
  IsSilent-pure a = record { at = λ w. refl }

  pub IsSilent-lift : (r : Result MarketError A) → IsSilent (lift r)
  unfolding lift
  IsSilent-lift r = record { at = λ w. refl }

  pub IsSilent-query : (ask : Tables → A) (missing : A) → IsSilent (query ask missing)
  unfolding query
  IsSilent-query ask missing = record { at = λ w. refl }

  pub IsSilent-transact : (body : Tx A) → IsSilent (transact body)
  unfolding transact
  IsSilent-transact body = record { at = λ w. refl }

  pub IsSilent-if : (b : Bool) (m n : M A) → IsSilent m → IsSilent n → IsSilent (if b then m else n)
  IsSilent-if true m n sm sn = sm
  IsSilent-if false m n sm sn = sn

pub IsSilent-read_clock : IsSilent read_clock
unfolding read_clock
IsSilent-read_clock = record { at = λ w. refl }

module _ {A B : Type 0} where
  pub continue_silent :
      (r : Result MarketError A) (f : A → M B) (w : World)
      → ((a : A) → IsSilent (f a))
      → (continue r f w).1.sent ≡ w.sent
  continue_silent (ok a) f w s = (s a).at w
  continue_silent (err e) f w s = refl

  pub IsSilent-bind :
      (m : M A) (f : A → M B) → IsSilent m → ((a : A) → IsSilent (f a)) → IsSilent (m >>= f)
  unfolding ◌>>=◌
  IsSilent-bind m f sm sf = record {
    at = λ w. let (r, w') = m w in continue_silent r f w' sf ∙ sm.at w;
  }

pub ruleset silent_rules = (
  IsSilent-pure, IsSilent-lift, IsSilent-query, IsSilent-transact, IsSilent-if, IsSilent-read_clock,
  IsSilent-bind,
)

pub append-IsSilent :
    (i : Text) (type : LedgerEntryType) (amount : ℤ) (hash : Text) (at : ℕ)
    → IsSilent (append i type amount hash at)
unfolding append
append-IsSilent i type amount hash at = search silent_rules

pub move-IsSilent :
    (i : Text) (from to : TradeState) (mutate : Option (Trade → Trade))
    → IsSilent (move i from to mutate)
unfolding move
move-IsSilent i from to mutate = search silent_rules

pub resolve_trade-IsSilent : (i : Text) → IsSilent (resolve_trade i)
unfolding resolve_trade
resolve_trade-IsSilent i = search silent_rules

answered :
    (o : Outcome) (found : Option Trade)
    → (answer o found none ≡ none)
      ⊎ ((t : Trade) × (found ≡ some t) × (answer o found none ≡ some t))
answered passes none = inl refl
answered passes (some t) = inr (t, refl, refl)
answered fails found = inl refl
answered lost found = inl refl

-- `Resolve` fails, or finds the trade.
pub resolve_cases :
    (i : Text) (w : World)
    → ((e : MarketError) × ((resolve_trade i w).0 ≡ err e))
      ⊎ ((t : Trade) × (find_trade i w.tables.trades ≡ some t)
          × (resolve_trade i w ≡ (ok t, record w { outcomes = rest_of w.outcomes })))
unfolding resolve_trade ◌>>=◌ query resolve
resolve_cases i w = elim (answered (head_outcome w.outcomes) (find_trade i w.tables.trades)) [
  | inl h ↦ inl (no_trade, rw h)
  | inr (t, found, h) ↦ inr (t, found, rw h)
]

module _ {ℓ} {A : Type 0} (P : World → Type ℓ) (w : World) (still : P w) where
  -- A test that stands before an action: the action is reached only if the test lets it.
  pub guarded :
      (b : Bool) (e : MarketError) (m : M A)
      → (b ≡ true → P (m w).1)
      → P ((lift (guard b e) >> m) w).1
  unfolding ◌>>=◌
  guarded true e m h = h refl
  guarded false e m h = still

  pub unless :
      (b : Bool) (a : A) (m : M A) → (b ≡ false → P (m w).1) → P ((if b then pure a else m) w).1
  unfolding pure
  unless true a m h = still
  unless false a m h = h refl
