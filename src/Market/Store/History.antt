-- ===== src/Market/Store/History.antt =====
-- What becomes of one trade under every transaction.
use mathlib.Core.Path.{subst}
use nim_connect.Base.{
  List, ℕ, ◌≡◌, refl, sym, ap, ◌∙◌, ◌≢◌, true, Option, some, Text, text_eq, text_eq_iff, arith,
  find, ok, Bool-cases, inl, inr,
}
use nim_connect.Base.Counts.{find_holds, count_of_exists, count_pos_of_find}
use nim_connect.Market.State.{TradeState, Trade, state_eq_iff, can_transition_to}
use nim_connect.Market.State.Graph.{can_transition_refl}
use nim_connect.Market.Tables.{Tables, find_trade, write_trade, has_id}
use nim_connect.Market.Tables.Rows.{find_trade-write_trade}
use nim_connect.Market.Store.{
  mutated, touched, reserve_listing, release_unpaid_reservation, transition, mark_payout_attempt,
  mark_refund_attempt,
}
use nim_connect.Market.Store.Updates.{
  IsGentle, transition_ok, mark_payout_ok, mark_refund_ok, release_ok,
}

-- The states that the transition table leads to.
pub data Reaches (s : TradeState) : TradeState → Type 0 where
  here : Reaches s s
  next : {t u : TradeState} → Reaches s t → can_transition_to t u ≡ true → Reaches s u

pub Reaches-trans : {s t u : TradeState} → Reaches s t → Reaches t u → Reaches s u
Reaches-trans r here = r
Reaches-trans r (next q h) = next (Reaches-trans r q) h

-- The trade `t` has become `t'`: on the same terms, along the table, and a marker of an attempt that
-- was set has not moved.
pub record IsLater (t t' : Trade) : Type 0 where
  pub same_id : t'.id ≡ t.id
  pub same_reference : t'.reference ≡ t.reference
  pub same_handle : t'.handle ≡ t.handle
  pub same_buyer : t'.buyer ≡ t.buyer
  pub same_seller : t'.seller ≡ t.seller
  pub same_price : t'.price_luna ≡ t.price_luna
  pub same_fee : t'.fee_luna ≡ t.fee_luna
  pub along : Reaches t.state t'.state
  pub payout_kept : t.payout_attempted_at ≢ 0 → t'.payout_attempted_at ≡ t.payout_attempted_at
  pub refund_kept : t.refund_attempted_at ≢ 0 → t'.refund_attempted_at ≡ t.refund_attempted_at

pub IsLater-refl : (t : Trade) → IsLater t t
IsLater-refl t = record {
  same_id = refl;
  same_reference = refl;
  same_handle = refl;
  same_buyer = refl;
  same_seller = refl;
  same_price = refl;
  same_fee = refl;
  along = here;
  payout_kept = λ h. refl;
  refund_kept = λ h. refl;
}

pub IsLater-trans : {t u v : Trade} → IsLater t u → IsLater u v → IsLater t v
IsLater-trans {t} {u} {v} a b = record {
  same_id = b.same_id ∙ a.same_id;
  same_reference = b.same_reference ∙ a.same_reference;
  same_handle = b.same_handle ∙ a.same_handle;
  same_buyer = b.same_buyer ∙ a.same_buyer;
  same_seller = b.same_seller ∙ a.same_seller;
  same_price = b.same_price ∙ a.same_price;
  same_fee = b.same_fee ∙ a.same_fee;
  along = Reaches-trans a.along b.along;
  payout_kept = λ h. b.payout_kept (λ e. h (sym (a.payout_kept h) ∙ e)) ∙ a.payout_kept h;
  refund_kept = λ h. b.refund_kept (λ e. h (sym (a.refund_kept h) ∙ e)) ∙ a.refund_kept h;
}

-- No trade is lost, and each has at most moved on.
pub record Evolves (db db' : Tables) : Type 0 where
  pub trade :
      (i : Text) (t : Trade)
      → find_trade i db.trades ≡ some t
      → (t' : Trade) × (find_trade i db'.trades ≡ some t') × IsLater t t'

pub Evolves-refl : (db : Tables) → Evolves db db
Evolves-refl db = record { trade = λ i t f. (t, f, IsLater-refl t) }

pub Evolves-trans : {a b c : Tables} → Evolves a b → Evolves b c → Evolves a c
Evolves-trans p q = record {
  trade = λ i t f.
      let (u, g, l) = p.trade i t f in let (v, h, m) = q.trade i u g in (v, h, IsLater-trans l m);
}

-- `created_at` plays no part.
IsLater_created :
    (t new : Trade) (c : ℕ) → IsLater t new → IsLater t (record new { created_at = c })
IsLater_created t new c l = record {
  same_id = l.same_id;
  same_reference = l.same_reference;
  same_handle = l.same_handle;
  same_buyer = l.same_buyer;
  same_seller = l.same_seller;
  same_price = l.same_price;
  same_fee = l.same_fee;
  along = l.along;
  payout_kept = l.payout_kept;
  refund_kept = l.refund_kept;
}

module _ (i : Text) (old new : Trade) (db : Tables) (found : find_trade i db.trades ≡ some old)
    (l : IsLater old new) where
  is_row : (j : Text) (t : Trade) → find_trade j db.trades ≡ some t → new.id ≡ j → old ≡ t
  unfolding find_trade
  is_row j t f e =
      let same : old.id ≡ i = (text_eq_iff old.id i).0 (find_holds (has_id i) db.trades found) in
      let row : find_trade i db.trades ≡ find_trade j db.trades =
        ap (λ k. find_trade k db.trades) (sym same ∙ sym l.same_id ∙ e) in
      cc (found, row, f)

  written :
      (j : Text) (t : Trade)
      → find_trade j db.trades ≡ some t
      → (t' : Trade) × (find_trade j (write_trade new db.trades) ≡ some t') × IsLater t t'
  written j t f = elim (Bool-cases (text_eq new.id j)) [
    | inl e ↦ (
      record new { created_at = t.created_at },
      rw (find_trade-write_trade j new db.trades, e, f) refl,
      subst (λ x. IsLater x (record new { created_at = t.created_at }))
          (is_row j t f ((text_eq_iff new.id j).0 e)) (IsLater_created old new t.created_at l),
    )
    | inr e ↦ (t, rw (find_trade-write_trade j new db.trades, e) f, IsLater-refl t)
  ]

  write-Evolves : Evolves db (record db { trades = write_trade new db.trades })
  write-Evolves = record { trade = written }

touched-IsLater :
    (t u : Trade) (to : TradeState) (now : ℕ)
    → can_transition_to t.state to ≡ true
    → IsLater t (record u { state = t.state })
    → IsLater t (touched u to now)
touched-IsLater t u to now c l = record {
  same_id = l.same_id;
  same_reference = l.same_reference;
  same_handle = l.same_handle;
  same_buyer = l.same_buyer;
  same_seller = l.same_seller;
  same_price = l.same_price;
  same_fee = l.same_fee;
  along = next here c;
  payout_kept = l.payout_kept;
  refund_kept = l.refund_kept;
}

gentle-IsLater :
    (mutate : Trade → Trade) (t : Trade)
    → IsGentle mutate
    → IsLater t (record (mutate t) { state = t.state })
gentle-IsLater mutate t g = record {
  same_id = g.same_id t;
  same_reference = g.same_reference t;
  same_handle = g.same_handle t;
  same_buyer = g.same_buyer t;
  same_seller = g.same_seller t;
  same_price = g.same_price t;
  same_fee = g.same_fee t;
  along = here;
  payout_kept = λ h. g.same_payout_mark t;
  refund_kept = λ h. g.same_refund_mark t;
}

pub transition-Evolves :
    (i : Text) (from to : TradeState) (mutate : Option (Trade → Trade)) (now : ℕ) (db db' : Tables)
    → IsGentle (mutated mutate)
    → transition i from to mutate now db ≡ ok (tt, db')
    → Evolves db db'
transition-Evolves i from to mutate now db db' g done =
    let (t, found, at, allowed, wrote) = transition_ok i from to mutate now db db' done in
    rw wrote (
      write-Evolves i t (touched (mutated mutate t) to now) db found (
        touched-IsLater t (mutated mutate t) to now (rw ((state_eq_iff t.state from).0 at) allowed)
          (gentle-IsLater (mutated mutate) t g)))

marked-IsLater :
    (t : Trade) (payout refund : ℕ)
    → (t.payout_attempted_at ≢ 0 → payout ≡ t.payout_attempted_at)
    → (t.refund_attempted_at ≢ 0 → refund ≡ t.refund_attempted_at)
    → IsLater t (record t { payout_attempted_at = payout; refund_attempted_at = refund })
marked-IsLater t payout refund p r = record {
  same_id = refl;
  same_reference = refl;
  same_handle = refl;
  same_buyer = refl;
  same_seller = refl;
  same_price = refl;
  same_fee = refl;
  along = here;
  payout_kept = p;
  refund_kept = r;
}

-- A marker is set only where there is none.
pub mark_payout_attempt-Evolves :
    (i : Text) (at now : ℕ) (db db' : Tables) (marked : Trade)
    → mark_payout_attempt i at now db ≡ ok (marked, db')
    → Evolves db db'
mark_payout_attempt-Evolves i at now db db' marked done =
    let (t, found, pending, first, is, wrote) = mark_payout_ok i at now db db' marked done in
    rw (wrote, is)
      (write-Evolves i t _ db found (
        touched-IsLater t (record t { payout_attempted_at = at }) t.state now
          (can_transition_refl t.state)
          (marked-IsLater t at t.refund_attempted_at (λ h. absurd (h first)) (λ h. refl))))

pub mark_refund_attempt-Evolves :
    (i : Text) (at now : ℕ) (db db' : Tables) (marked : Trade)
    → mark_refund_attempt i at now db ≡ ok (marked, db')
    → Evolves db db'
mark_refund_attempt-Evolves i at now db db' marked done =
    let (t, found, pending, first, is, wrote) = mark_refund_ok i at now db db' marked done in
    rw (wrote, is)
      (write-Evolves i t _ db found (
        touched-IsLater t (record t { refund_attempted_at = at }) t.state now
          (can_transition_refl t.state)
          (marked-IsLater t t.payout_attempted_at at (λ h. refl) (λ h. absurd (h first)))))

pub release-Evolves :
    (i : Text) (to : TradeState) (now : ℕ) (db db' : Tables)
    → release_unpaid_reservation i to now db ≡ ok (tt, db')
    → Evolves db db'
release-Evolves i to now db db' done =
    let (t, found, unpaid, allowed, wrote) = release_ok i to now db db' done in
    rw wrote (record {
      trade =
          written i t (touched t to now) db found
            (touched-IsLater t t to now allowed (IsLater-refl t));
    })

-- A new trade has a new id, so that no trade is hidden by it.
reserved_find :
    (handle trade_id reference buyer : Text) (now : ℕ) (counted : List Trade) (db db' : Tables)
    (trade : Trade)
    → reserve_listing handle trade_id reference buyer now counted db ≡ ok (trade, db')
    → (i : Text) (t : Trade) → find_trade i db.trades ≡ some t
    → find_trade i db'.trades ≡ some t
unfolding reserve_listing find_trade find
reserved_find handle trade_id reference buyer now counted db db' trade done i t f = ground (
  arith,
  count_of_exists (has_id trade_id) db.trades,
  count_pos_of_find (has_id i) db.trades {x = t} f,
  text_eq_iff trade_id i,
)

pub reserve_listing-Evolves :
    (handle trade_id reference buyer : Text) (now : ℕ) (counted : List Trade) (db db' : Tables)
    (trade : Trade)
    → reserve_listing handle trade_id reference buyer now counted db ≡ ok (trade, db')
    → Evolves db db'
reserve_listing-Evolves handle trade_id reference buyer now counted db db' trade done = record {
  trade = λ i t f. (
    t,
    reserved_find handle trade_id reference buyer now counted db db' trade done i t f,
    IsLater-refl t,
  );
}

-- A transaction that leaves the trades alone.
pub same_trades-Evolves : (db db' : Tables) → db'.trades ≡ db.trades → Evolves db db'
same_trades-Evolves db db' e = record { trade = λ i t f. (t, rw e f, IsLater-refl t) }
