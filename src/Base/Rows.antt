-- ===== src/Base/Rows.antt =====
-- A table as the list of its rows: the rows of a key, and an UPDATE of them.
use Prim.Native.Nat.{◌+◌, ◌≤◌, ◌<◌}
use mathlib.Core.Path.{◌≡◌, refl}
use mathlib.Core.Logic.{◌⊎◌, inl, inr}
use mathlib.Core.Bool.{Bool, true, false, not, ◌&&◌}
use mathlib.Core.List.{List, [], ◌∷◌}
use mathlib.Core.Option.{some}
use native.Mathlib.Omega.{arith}
use nim_connect.Base.Tests.{if◌then◌else◌, Bool-cases}
use nim_connect.Base.Lists.{find, count, exists, select, All}
use nim_connect.Base.Counts.{bit}

module _ {A : Type 0} where
  -- UPDATE … SET change WHERE key
  unfoldable pub update_where : (A → Bool) → (A → A) → List A → List A
  update_where key change [] = []
  update_where key change (x ∷ xs) = (if key x then change x else x) ∷ update_where key change xs

  -- The row is one of the table's.
  abbrev pub In : A → List A → Type 0
  In x [] = ⊥
  In x (y ∷ ys) = (x ≡ y) ⊎ In x ys

  pub count_ext : (p q : A → Bool) (xs : List A) → ((x : A) → p x ≡ q x) → count p xs ≡ count q xs
  unfolding count
  count_ext p q [] h = refl
  count_ext p q (x ∷ xs) h = ground (arith, h x, count_ext p q xs h)

  pub count_le :
      (p q : A → Bool) (xs : List A)
      → ((x : A) → In x xs → p x ≡ true → q x ≡ true)
      → count p xs ≤ count q xs
  unfolding count
  count_le p q [] h = omega arith
  count_le p q (x ∷ xs) h = ground (arith, h x (inl refl), count_le p q xs (λ y m. h y (inr m)))

  pub count-select-le : (p q : A → Bool) (xs : List A) → count p (select q xs) ≤ count p xs
  unfolding count select
  count-select-le p q [] = omega arith
  count-select-le p q (x ∷ xs) = ground (arith, count-select-le p q xs)

  pub count_pos_of_In : (p : A → Bool) (xs : List A) (x : A) → In x xs → p x ≡ true → 0 < count p xs
  unfolding count
  count_pos_of_In p [] x m h = elim m [ ]
  count_pos_of_In p (y ∷ ys) x (inl e) h = let z : p y ≡ true = rw (← e) h in ground (arith, z)
  count_pos_of_In p (y ∷ ys) x (inr m) h = ground (arith, count_pos_of_In p ys x m h)

  -- Where a key has one row, it is the row that a search finds.
  pub find_of_In :
      (key : A → Bool) (xs : List A) (x : A)
      → In x xs
      → key x ≡ true
      → count key xs ≤ 1
      → find key xs ≡ some x
  unfolding find count
  find_of_In key [] x m h one = elim m [ ]
  find_of_In key (y ∷ ys) x (inl e) h one = rw (← e, h) refl
  find_of_In key (y ∷ ys) x (inr m) h one =
      ground (arith, count_pos_of_In key ys x m h, find_of_In key ys x m h)

  pub update_where_absent :
      (key : A → Bool) (change : A → A) (xs : List A)
      → count key xs ≡ 0
      → update_where key change xs ≡ xs
  unfolding update_where count
  update_where_absent key change [] h = refl
  update_where_absent key change (x ∷ xs) h = ground (arith, update_where_absent key change xs)

  -- An UPDATE of one row changes a count by that row's part.
  pub count-update_where :
      (p key : A → Bool) (change : A → A) (xs : List A) {x : A}
      → find key xs ≡ some x
      → count key xs ≤ 1
      → count p (update_where key change xs) + bit (p x) ≡ count p xs + bit (p (change x))
  unfolding update_where count find
  count-update_where p key change [] f one = cc
  count-update_where p key change (y ∷ ys) {x} f one =
      ground (arith, count-update_where p key change ys {x = x}, update_where_absent key change ys)

  pub In_of_find : (p : A → Bool) (xs : List A) (x : A) → find p xs ≡ some x → In x xs
  unfolding find
  In_of_find p [] x h = cc
  In_of_find p (y ∷ ys) x h = elim (Bool-cases (p y)) [
    | inl e ↦ inl (cc (rw e at h))
    | inr e ↦ inr (In_of_find p ys x (rw e at h))
  ]

  pub All_of_In {κ} : (P : A → Type κ) (xs : List A) (x : A) → All P xs → In x xs → P x
  All_of_In P [] x a m = elim m [ ]
  All_of_In P (y ∷ ys) x a (inl e) = rw e a.0
  All_of_In P (y ∷ ys) x a (inr m) = All_of_In P ys x a.1 m

  pub All-update_where {κ} :
      (P : A → Type κ) (key : A → Bool) (change : A → A) (xs : List A)
      → ((x : A) → key x ≡ true → In x xs → P (change x))
      → All P xs
      → All P (update_where key change xs)
  unfolding update_where
  All-update_where P key change [] c a = tt
  All-update_where P key change (x ∷ xs) c a = elim (Bool-cases (key x)) [
    | inl e ↦ rw e (c x e (inl refl), All-update_where P key change xs (λ y k m. c y k (inr m)) a.1)
    | inr e ↦ rw e (a.0, All-update_where P key change xs (λ y k m. c y k (inr m)) a.1)
  ]

  pub All-select {κ} :
      (P : A → Type κ) (q : A → Bool) (xs : List A) → All P xs → All P (select q xs)
  unfolding select
  All-select P q [] a = tt
  All-select P q (x ∷ xs) a = elim (Bool-cases (q x)) [
    | inl e ↦ rw e (a.0, All-select P q xs a.1)
    | inr e ↦ rw e (All-select P q xs a.1)
  ]

  pub All_mono {κ μ} :
      (P : A → Type κ) (Q : A → Type μ) (xs : List A) → ((x : A) → P x → Q x) → All P xs → All Q xs
  All_mono P Q [] h a = tt
  All_mono P Q (x ∷ xs) h a = (h x a.0, All_mono P Q xs h a.1)

  pub In-update_where :
      (key : A → Bool) (change : A → A) (xs : List A) (x : A)
      → In x xs
      → key x ≡ true
      → In (change x) (update_where key change xs)
  unfolding update_where
  In-update_where key change [] x m h = elim m [ ]
  In-update_where key change (y ∷ ys) x (inl e) h = inl (rw (← e, h) refl)
  In-update_where key change (y ∷ ys) x (inr m) h = inr (In-update_where key change ys x m h)

  pub In-select : (q : A → Bool) (xs : List A) (x : A) → In x xs → q x ≡ true → In x (select q xs)
  unfolding select
  In-select q [] x m h = elim m [ ]
  In-select q (y ∷ ys) x (inl e) h = rw (← e, h) (inl refl)
  In-select q (y ∷ ys) x (inr m) h = elim (Bool-cases (q y)) [
    | inl e ↦ rw e (inr (In-select q ys x m h))
    | inr e ↦ rw e (In-select q ys x m h)
  ]

  pub exists_of_count : (p : A → Bool) (xs : List A) → count p xs ≡ 0 → exists p xs ≡ false
  unfolding count exists
  exists_of_count p [] h = refl
  exists_of_count p (x ∷ xs) h = ground (arith, exists_of_count p xs)

  exists_other :
      (key p : A → Bool) (xs : List A)
      → exists p xs ≡ false
      → exists (λ x. not (key x) && p x) xs ≡ false
  unfolding exists
  exists_other key p [] h = refl
  exists_other key p (x ∷ xs) h = ground (arith, exists_other key p xs)

  -- Where one row at most passes a test, the other rows than one that passes it do not.
  pub no_other :
      (key p : A → Bool) (xs : List A) (x : A)
      → In x xs
      → key x ≡ true
      → p x ≡ true
      → count p xs ≤ 1
      → exists (λ y. not (key y) && p y) xs ≡ false
  unfolding count exists
  no_other key p [] x m k h one = elim m [ ]
  no_other key p (y ∷ ys) x (inl e) k h one =
      let py : p y ≡ true = rw (← e) h in
      let ky : key y ≡ true = rw (← e) k in
      let zero : count p ys ≡ 0 = ground (arith, py) in
      ground (arith, ky, exists_other key p ys (exists_of_count p ys zero))
  no_other key p (y ∷ ys) x (inr m) k h one =
      ground (arith, count_pos_of_In p ys x m h, no_other key p ys x m k h)
