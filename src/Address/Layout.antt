-- ===== src/Address/Layout.antt =====
-- What the two spellings of an address have to do with one another.
use nim_connect.Base.{
  ℕ, ◌+◌, ◌≡◌, refl, ap, ◌∙◌, [], ◌∷◌, map, Text, arith, Bool-cases, inl, inr, ◌==◌,
}
use nim_connect.Address.{to_upper, drop_spaces, compact_address, spaced_from, normalize_address}

to_upper-to_upper : (c : ℕ) → to_upper (to_upper c) ≡ to_upper c
unfolding to_upper
to_upper-to_upper c = ground arith

to_upper_space : (c : ℕ) → (to_upper c == b' ') ≡ (c == b' ')
unfolding to_upper
to_upper_space c = ground arith

drop_spaces-map : (a : Text) → drop_spaces (map to_upper a) ≡ map to_upper (drop_spaces a)
unfolding drop_spaces
drop_spaces-map [] = refl
drop_spaces-map (c ∷ cs) = elim (Bool-cases (c == b' ')) [
  | inl e ↦ rw (to_upper_space c, e) (drop_spaces-map cs)
  | inr e ↦ rw (to_upper_space c, e) (ap (λ r. to_upper c ∷ r) (drop_spaces-map cs))
]

drop_spaces-drop_spaces : (a : Text) → drop_spaces (drop_spaces a) ≡ drop_spaces a
unfolding drop_spaces
drop_spaces-drop_spaces [] = refl
drop_spaces-drop_spaces (c ∷ cs) = ground (arith, drop_spaces-drop_spaces cs)

map-to_upper : (a : Text) → map to_upper (map to_upper a) ≡ map to_upper a
map-to_upper [] = refl
map-to_upper (c ∷ cs) = ground (arith, to_upper-to_upper c, map-to_upper cs)

-- The compact spelling is canonical: compacting it again changes nothing.
pub compact_address_idem : (a : Text) → compact_address (compact_address a) ≡ compact_address a
unfolding compact_address
compact_address_idem a =
    rw (drop_spaces-map (drop_spaces a), drop_spaces-drop_spaces a) (map-to_upper (drop_spaces a))

drop_spaces-spaced_from : (i : ℕ) (a : Text) → drop_spaces (spaced_from i a) ≡ drop_spaces a
unfolding drop_spaces spaced_from
drop_spaces-spaced_from i [] = refl
drop_spaces-spaced_from i (c ∷ cs) = ground (arith, drop_spaces-spaced_from (i + 1) cs)

-- Spacing an address out and compacting it gives its compact spelling.
pub compact-normalize : (a : Text) → compact_address (normalize_address a) ≡ compact_address a
compact-normalize a =
    unfold normalize_address in
    ap (map to_upper) (drop_spaces-spaced_from 0 (compact_address a)) ∙ compact_address_idem a

-- Two addresses have one normal spelling exactly when they have one compact spelling.
pub normalize_eq_of_compact :
    (a b : Text) → compact_address a ≡ compact_address b → normalize_address a ≡ normalize_address b
unfolding normalize_address
normalize_eq_of_compact a b h = ap (spaced_from 0) h

-- The normal spelling is canonical too.
pub normalize-normalize : (a : Text) → normalize_address (normalize_address a) ≡ normalize_address a
normalize-normalize a = normalize_eq_of_compact (normalize_address a) a (compact-normalize a)
