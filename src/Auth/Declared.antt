-- ===== src/Auth/Declared.antt =====
-- What an app declares, before and after its mirror is written.
use nim_connect.Base.{
  ◌≡◌, refl, ◌∙◌, Bool, true, false, not, ◌||◌, List, [], ◌∷◌, map, Text, text_eq, text_eq_iff,
  select, exists, arith,
}
use nim_connect.Base.Scans.{exists-update_where}
use nim_connect.Auth.{AppRow, AppEntry, is_app, is_entry, canonical_scopes, insert_scope}
use nim_connect.Auth.Apps.{
  AppRecord, entry_of, is_of_app, entries, equal_strings, mirrored, upsert_row, replace_entries,
}

-- The mirror of an app keeps all apps.
pub apps_kept :
    (rec : AppRecord) (audience : Text) (apps : List AppRow)
    → exists (is_app audience) apps ≡ true
    → exists (is_app audience) (upsert_row rec apps) ≡ true
unfolding upsert_row exists
apps_kept rec audience apps h = ground (
  arith,
  h,
  exists-update_where (is_app audience) (is_app rec.audience) (mirrored rec) apps (λ a. refl),
)

other_entries :
    (audience mine s : Text) (rows : List AppEntry)
    → text_eq audience mine ≡ false
    → exists (is_entry audience s) (select (λ r. not (is_of_app mine r)) rows)
      ≡ exists (is_entry audience s) rows
unfolding select exists
other_entries audience mine s [] h = refl
other_entries audience mine s (r ∷ rows) h = ground (
  arith,
  h,
  other_entries audience mine s rows h,
  text_eq_iff r.audience mine,
  text_eq_iff r.audience audience,
  text_eq_iff audience mine,
)

pub declares_other :
    (audience mine s : Text) (values : List Text) (rows : List AppEntry)
    → text_eq audience mine ≡ false
    → exists (is_entry audience s) (replace_entries mine values rows)
      ≡ exists (is_entry audience s) rows
unfolding replace_entries exists
declares_other audience mine s [] rows h = other_entries audience mine s rows h
declares_other audience mine s (v ∷ values) rows h = ground (
  arith,
  h,
  declares_other audience mine s values rows h,
  text_eq_iff mine audience,
  text_eq_iff audience mine,
)

none_left :
    (mine s : Text) (rows : List AppEntry)
    → exists (is_entry mine s) (select (λ r. not (is_of_app mine r)) rows) ≡ false
unfolding select exists
none_left mine s [] = refl
none_left mine s (r ∷ rows) = ground (arith, none_left mine s rows)

abbrev pub is_among : Text → List Text → Bool
is_among s values = exists (λ t. text_eq t s) values

pub declares_own :
    (mine s : Text) (values : List Text) (rows : List AppEntry)
    → exists (is_entry mine s) (replace_entries mine values rows) ≡ is_among s values
unfolding replace_entries exists
declares_own mine s [] rows = none_left mine s rows
declares_own mine s (v ∷ values) rows =
    ground (arith, declares_own mine s values rows, text_eq_iff mine mine)

among-insert_scope :
    (s t : Text) (ts : List Text) → is_among s (insert_scope t ts) ≡ (text_eq t s || is_among s ts)
unfolding insert_scope exists
among-insert_scope s t [] = refl
among-insert_scope s t (u ∷ ts) = ground (arith, among-insert_scope s t ts, text_eq_iff t u)

among-canonical_scopes :
    (s : Text) (ts : List Text) → is_among s (canonical_scopes ts) ≡ is_among s ts
unfolding canonical_scopes exists
among-canonical_scopes s [] = refl
among-canonical_scopes s (t ∷ ts) =
    rw (among-insert_scope s t (canonical_scopes ts), among-canonical_scopes s ts) refl

among-rows :
    (audience s : Text) (rows : List AppEntry)
    → is_among s (map entry_of (select (is_of_app audience) rows))
      ≡ exists (is_entry audience s) rows
unfolding select exists
among-rows audience s [] = refl
among-rows audience s (r ∷ rows) = ground (arith, among-rows audience s rows)

pub among-entries :
    (audience s : Text) (rows : List AppEntry)
    → is_among s (entries audience rows) ≡ exists (is_entry audience s) rows
among-entries audience s rows =
    among-canonical_scopes s (map entry_of (select (is_of_app audience) rows))
    ∙ among-rows audience s rows

pub equal_strings_eq : (xs ys : List Text) → equal_strings xs ys ≡ true → xs ≡ ys
unfolding equal_strings
equal_strings_eq [] [] h = refl
equal_strings_eq [] (y ∷ ys) h = cc
equal_strings_eq (x ∷ xs) [] h = cc
equal_strings_eq (x ∷ xs) (y ∷ ys) h = ground (arith, h, text_eq_iff x y, equal_strings_eq xs ys)
