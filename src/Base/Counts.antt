-- ===== src/Base/Counts.antt =====
-- How the searches of a list and the counts of its entries fit together.
use Prim.Native.Nat.{ℕ, ◌<◌}
use mathlib.Core.Path.{◌≡◌, refl}
use mathlib.Core.Bool.{Bool, true, false}
use mathlib.Core.List.{List, [], ◌∷◌}
use mathlib.Core.Option.{none, some}
use native.Mathlib.Omega.{arith}
use nim_connect.Base.Lists.{find, count, exists, select, All, length}

abbrev pub bit : Bool → ℕ
bit true = 1
bit false = 0

module _ {ℓ} {A : Type ℓ} where
  pub count_of_exists : (p : A → Bool) (xs : List A) → exists p xs ≡ false → count p xs ≡ 0
  unfolding exists count
  count_of_exists p [] h = refl
  count_of_exists p (x ∷ xs) h = ground (arith, count_of_exists p xs)

  pub count_of_find : (p : A → Bool) (xs : List A) → find p xs ≡ none → count p xs ≡ 0
  unfolding find count
  count_of_find p [] h = refl
  count_of_find p (x ∷ xs) h = ground (arith, count_of_find p xs)

  pub find_holds : (p : A → Bool) (xs : List A) {x : A} → find p xs ≡ some x → p x ≡ true
  unfolding find
  find_holds p [] h = cc
  find_holds p (y ∷ xs) {x} h = ground (arith, find_holds p xs {x = x})

  pub count_pos_of_find : (p : A → Bool) (xs : List A) {x : A} → find p xs ≡ some x → 0 < count p xs
  unfolding find count
  count_pos_of_find p [] h = cc
  count_pos_of_find p (y ∷ xs) {x} h = ground (arith, count_pos_of_find p xs {x = x})

  pub length-select : (p : A → Bool) (xs : List A) → length (select p xs) ≡ count p xs
  unfolding select count
  length-select p [] = refl
  length-select p (x ∷ xs) = ground (arith, length-select p xs)

  pub select_holds : (p : A → Bool) (xs : List A) → All (λ x. p x ≡ true) (select p xs)
  unfolding select
  select_holds p [] = tt
  select_holds p (x ∷ xs) = ground (arith, select_holds p xs)
