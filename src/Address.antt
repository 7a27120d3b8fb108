-- ===== src/Address.antt =====
-- backend/address.go: the two spellings of an address. (The check digits are in Address/Iban.) A text
-- is its ASCII bytes, so that Go's `strings.ToUpper` shifts the letters a to z and nothing else.
pub mod Iban
pub mod Layout
use nim_connect.Base.{ℕ, ◌+◌, ◌-◌, ◌%◌, ◌&&◌, [], ◌∷◌, map, Text, ltb, leb, ◌==◌, if◌then◌else◌}

pub to_upper : ℕ → ℕ
to_upper c = if leb b'a' c && leb c b'z' then c - 32 else c

-- strings.ReplaceAll(s, " ", "")
pub drop_spaces : Text → Text
drop_spaces [] = []
drop_spaces (c ∷ cs) = let rest = drop_spaces cs in if c == b' ' then rest else c ∷ rest

unfoldable pub compact_address : Text → Text
unfolding to_upper drop_spaces
compact_address address = map to_upper (drop_spaces address)

-- The loop of `normalizeAddress` from index `i` on: a space before each fourth character.
pub spaced_from : ℕ → Text → Text
spaced_from i [] = []
spaced_from i (c ∷ cs) =
    let rest = spaced_from (i + 1) cs in
    if ltb 0 i && (i % 4) == 0 then b' ' ∷ c ∷ rest else c ∷ rest

unfoldable pub normalize_address : Text → Text
unfolding spaced_from compact_address
normalize_address address = spaced_from 0 (compact_address address)
