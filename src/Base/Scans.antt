-- ===== src/Base/Scans.antt =====
-- Tests over all rows of a table, or of some row, and the rows of a key.
use Prim.Native.Nat.{◌≤◌, ◌<◌}
use mathlib.Core.Path.{◌≡◌, refl}
use mathlib.Core.Bool.{Bool, true, false, not, ◌&&◌, ◌||◌}
use mathlib.Core.List.{List, [], ◌∷◌}
use mathlib.Core.Option.{none, some}
use native.Mathlib.Omega.{arith}
use nim_connect.Base.Lists.{find, count, exists, every}
use nim_connect.Base.Rows.{update_where}

module _ {A : Type 0} where
  -- A test that the change keeps true.
  pub every-update_where :
      (p key : A → Bool) (change : A → A) (xs : List A)
      → ((x : A) → p x ≡ true → p (change x) ≡ true)
      → every p xs ≡ true
      → every p (update_where key change xs) ≡ true
  unfolding every update_where
  every-update_where p key change [] c h = refl
  every-update_where p key change (x ∷ xs) c h =
      ground (arith, h, c x, every-update_where p key change xs c)

  -- A test that the change does not touch.
  pub exists-update_where :
      (p key : A → Bool) (change : A → A) (xs : List A)
      → ((x : A) → p (change x) ≡ p x)
      → exists p (update_where key change xs) ≡ exists p xs
  unfolding exists update_where
  exists-update_where p key change [] c = refl
  exists-update_where p key change (x ∷ xs) c =
      ground (arith, c x, exists-update_where p key change xs c)

  pub every_mono :
      (p q : A → Bool) (xs : List A)
      → ((x : A) → p x ≡ true → q x ≡ true)
      → every p xs ≡ true
      → every q xs ≡ true
  unfolding every
  every_mono p q [] m h = refl
  every_mono p q (x ∷ xs) m h = ground (arith, h, m x, every_mono p q xs m)

  pub every_found :
      (p key : A → Bool) (xs : List A) {x : A}
      → every p xs ≡ true
      → find key xs ≡ some x
      → p x ≡ true
  unfolding every find
  every_found p key [] h f = cc
  every_found p key (y ∷ ys) {x} h f = ground (arith, h, f, every_found p key ys {x = x})

  every_of_count :
      (key p : A → Bool) (xs : List A)
      → count key xs ≡ 0
      → every (λ x. not (key x) || p x) xs ≡ true
  unfolding count every
  every_of_count key p [] h = refl
  every_of_count key p (x ∷ xs) h = ground (arith, every_of_count key p xs)

  count_of_find_both :
      (key q : A → Bool) (xs : List A) {x : A}
      → find (λ y. key y && q y) xs ≡ some x
      → 0 < count key xs
  unfolding count find
  count_of_find_both key q [] f = cc
  count_of_find_both key q (y ∷ ys) {x} f = ground (arith, f, count_of_find_both key q ys {x = x})

  -- Where one row at most has the key, what holds of the row that is found holds of each with the key.
  pub every_of_one :
      (key q p : A → Bool) (xs : List A) {x : A}
      → count key xs ≤ 1
      → find (λ y. key y && q y) xs ≡ some x
      → p x ≡ true
      → every (λ y. not (key y) || p y) xs ≡ true
  unfolding count find every
  every_of_one key q p [] one f h = cc
  every_of_one key q p (y ∷ ys) {x} one f h = ground (
    arith,
    one,
    f,
    h,
    every_of_count key p ys,
    count_of_find_both key q ys {x = x},
    every_of_one key q p ys {x = x},
  )

  pub exists_of_find_both :
      (key q : A → Bool) (xs : List A) {x : A}
      → find (λ y. key y && q y) xs ≡ some x
      → exists key xs ≡ true
  unfolding find exists
  exists_of_find_both key q [] f = cc
  exists_of_find_both key q (y ∷ ys) {x} f = ground (arith, f, exists_of_find_both key q ys {x = x})

  pub exists_of_count_pos :
      (key q : A → Bool) (xs : List A) → 0 < count (λ y. key y && q y) xs → exists key xs ≡ true
  unfolding count exists
  exists_of_count_pos key q [] h = ground (arith, h)
  exists_of_count_pos key q (x ∷ xs) h = ground (arith, h, exists_of_count_pos key q xs)

  pub exists_of_find :
      (p : A → Bool) (xs : List A) {x : A} → find p xs ≡ some x → exists p xs ≡ true
  unfolding find exists
  exists_of_find p [] f = cc
  exists_of_find p (y ∷ ys) {x} f = ground (arith, f, exists_of_find p ys {x = x})

  pub exists_of_unfound : (p : A → Bool) (xs : List A) → find p xs ≡ none → exists p xs ≡ false
  unfolding find exists
  exists_of_unfound p [] h = refl
  exists_of_unfound p (x ∷ xs) h = ground (arith, h, exists_of_unfound p xs)
