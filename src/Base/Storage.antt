-- ===== src/Base/Storage.antt =====
-- A table that one statement or transaction at a time changes.
use mathlib.Core.Path.{◌≡◌, refl}
use mathlib.Core.Bool.{Bool, true, false}
use nim_connect.Base.Results.{Result, ok, err}

module _ {ℓ} {E A : Type 0} {S : Type ℓ} where
  -- What a call leaves behind: it commits, or it is rolled back by its own error or by the database.
  abbrev pub after : Bool → Result E (A × S) → S → S
  after true (ok (a, s')) s = s'
  after true (err e) s = s
  after false r s = s

  -- What holds before the call, and after it where it succeeds, holds of what it leaves behind.
  pub after_kept {κ} :
      (P : S → Type κ) (b : Bool) (r : Result E (A × S)) (s : S)
      → P s
      → ((a : A) (s' : S) → r ≡ ok (a, s') → P s')
      → P (after b r s)
  after_kept P true (ok (a, s')) s h k = k a s' refl
  after_kept P true (err e) s h k = h
  after_kept P false r s h k = h
