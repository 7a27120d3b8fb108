-- ===== src/Friends/Limiter.antt =====
-- backend/friends_handlers.go: `friendRequestLimiter`, for one address. Times are in nanoseconds.
use nim_connect.Base.{
  ℕ, ◌+◌, ◌≤◌, ◌<◌, ◌≡◌, refl, Bool, true, false, List, [], ◌∷◌, ◌++◌, arith, Bool-cases, inl, inr,
  ◌⊎◌, if◌then◌else◌, select, count, length, ltb, leb, ◌==◌, All,
}

pub record Limiter : Type 0 where
  pub window : ℕ
  pub limit : ℕ
  -- the times of the requests that were let through, of one address, oldest first
  pub hits : List ℕ

-- `t.After(now.Add(-window))`
abbrev pub is_recent : ℕ → ℕ → ℕ → Bool
is_recent window now t = ltb now (t + window)

-- A limit of 0 lets everything through and keeps no record.
unfoldable pub allow : ℕ → Limiter → Bool × Limiter
allow now l =
    let kept = select (is_recent l.window now) l.hits in
    if l.limit == 0
    then (true, l)
    else if leb l.limit (length kept)
    then (false, record l { hits = kept })
    else (true, record l { hits = kept ++ (now ∷ []) })

-- The limiter after requests at the given times, and the times of those that it let through, newest
-- first.
unfoldable pub allow_all : List ℕ → Limiter → List ℕ → List ℕ × Limiter
allow_all [] l passed = (passed, l)
allow_all (t ∷ ts) l passed =
    let (passes, l') = allow t l in allow_all ts l' (if passes then t ∷ passed else passed)

-- The clock does not go back.
abbrev pub IsClock : ℕ → List ℕ → Type 0
IsClock now [] = Unit
IsClock now (t ∷ ts) = (now ≤ t) × IsClock t ts

count-recent :
    (window now u : ℕ) (xs : List ℕ)
    → now ≤ u
    → count (is_recent window u) (select (is_recent window now) xs) ≡ count (is_recent window u) xs
unfolding count select
count-recent window now u [] h = refl
count-recent window now u (x ∷ xs) h = ground (arith, count-recent window now u xs h)

count_last :
    (window u now : ℕ) (xs : List ℕ)
    → count (is_recent window u) (xs ++ (now ∷ [])) ≡ count (is_recent window u) (now ∷ xs)
unfolding count
count_last window u now [] = refl
count_last window u now (x ∷ xs) = ground (arith, count_last window u now xs)

count-le-length : (window u : ℕ) (xs : List ℕ) → count (is_recent window u) xs ≤ length xs
unfolding count
count-le-length window u [] = omega arith
count-le-length window u (x ∷ xs) = ground (arith, count-le-length window u xs)

module _ (w n : ℕ) (pos : 0 < n) where
  abbrev limiter : List ℕ → Limiter
  limiter hits = record { window = w; limit = n; hits = hits }

  allow_cases :
      (now : ℕ) (hits : List ℕ)
      → (allow now (limiter hits) ≡ (false, limiter (select (is_recent w now) hits)))
        ⊎ ((allow now (limiter hits)
              ≡ (true, limiter (select (is_recent w now) hits ++ (now ∷ []))))
            × (length (select (is_recent w now) hits) < n))
  unfolding allow
  allow_cases now hits = elim (Bool-cases (leb n (length (select (is_recent w now) hits)))) [
    | inl e ↦ let no : (n == 0) ≡ false = ground arith in inl (rw (no, e) refl)
    | inr e ↦ let no : (n == 0) ≡ false = ground arith in inr (rw (no, e) refl, ground (arith, e))
  ]

  -- The record holds all that was let through and may still count, and no window holds too much.
  record IsTrue (now : ℕ) (hits passed : List ℕ) : Type 0 where
    recorded : (u : ℕ) → now ≤ u → count (is_recent w u) passed ≤ count (is_recent w u) hits
    bounded : (u : ℕ) → now ≤ u → count (is_recent w u) passed ≤ n

  kept-IsTrue :
      (last now : ℕ) (hits passed : List ℕ)
      → last ≤ now
      → IsTrue last hits passed
      → IsTrue now (select (is_recent w now) hits) passed
  kept-IsTrue last now hits passed h t = record {
    recorded = λ u le. omega (arith, t.recorded u, h, le, count-recent w now u hits le);
    bounded = λ u le. omega (arith, t.bounded u, h, le);
  }

  passed-IsTrue :
      (now : ℕ) (kept passed : List ℕ)
      → length kept < n
      → IsTrue now kept passed
      → IsTrue now (kept ++ (now ∷ [])) (now ∷ passed)
  unfolding count
  passed-IsTrue now kept passed small t = record {
    recorded = λ u le. ground (arith, t.recorded u le, count_last w u now kept);
    bounded = λ u le. ground (arith, t.recorded u le, count-le-length w u kept);
  }

  never_over_limit :
      (last : ℕ) (ts hits passed : List ℕ)
      → IsClock last ts
      → IsTrue last hits passed
      → (u : ℕ) → All (λ t. t ≤ u) (last ∷ ts)
      → count (is_recent w u) (allow_all ts (limiter hits) passed).0 ≤ n
  unfolding allow_all
  never_over_limit last [] hits passed c t u le = t.bounded u le.0
  never_over_limit last (now ∷ ts) hits passed c t u le =
      let kept = kept-IsTrue last now hits passed c.0 t in
      elim (allow_cases now hits) [
        | inl e ↦ rw (allow_all, e) (never_over_limit now ts _ passed c.1 kept u le.1)
        | inr (e, small) ↦
            rw (allow_all, e)
              (never_over_limit now ts _ (now ∷ passed) c.1 (passed-IsTrue now _ passed small kept)
                u le.1)
      ]

-- However often and whenever the requests come, while the clock does not go back: of a new limiter's
-- requests no more than the limit, which is above 0, are let through in any window of time that ends
-- at their last or later.
pub allow-le-limit :
    (w n : ℕ) (ts : List ℕ) (u : ℕ)
    → 0 < n
    → IsClock 0 ts
    → All (λ t. t ≤ u) ts
    → count (is_recent w u) (allow_all ts (record { window = w; limit = n; hits = [] }) []).0 ≤ n
unfolding count
allow-le-limit w n ts u pos c le =
    never_over_limit w n pos 0 ts [] [] c
      (record { recorded = λ v h. omega arith; bounded = λ v h. omega arith }) u (omega arith, le)
