-- ===== src/Hex.antt =====
-- Go's encoding/hex as the program uses it, on bytes.
use mathlib.Core.List.{reverse}
use nim_connect.Base.{
  ℕ, ◌+◌, ◌-◌, ◌*◌, ◌/◌, ◌%◌, Bool, ◌&&◌, ◌||◌, Option, none, some, List, [], ◌∷◌, Text, codes,
  starts_with, drop, length, if◌then◌else◌, ltb, leb, ◌==◌,
}

-- The value of a hex digit of either case.
unfoldable pub nibble : ℕ → Option ℕ
nibble c =
    if leb b'0' c && leb c b'9'
    then some (c - b'0')
    else if leb b'a' c && leb c b'f'
    then some (c - b'a' + 10)
    else if leb b'A' c && leb c b'F'
    then some (c - b'A' + 10)
    else none

unfoldable pub hex_digit : ℕ → ℕ
hex_digit n = if ltb n 10 then b'0' + n else b'a' + (n - 10)

-- hex.EncodeToString
unfoldable pub hex_encode : List ℕ → Text
unfolding hex_digit
hex_encode [] = []
hex_encode (b ∷ bs) = hex_digit (b / 16) ∷ hex_digit (b % 16) ∷ hex_encode bs

abbrev join_byte : Option ℕ → Option ℕ → Option (List ℕ) → Option (List ℕ)
join_byte (some hi) (some lo) (some rest) = some ((hi * 16 + lo) ∷ rest)
join_byte _ _ _ = none

-- hex.DecodeString; `none` is its error.
unfoldable pub hex_decode : Text → Option (List ℕ)
unfolding nibble
hex_decode [] = some []
hex_decode (h ∷ []) = none
hex_decode (h ∷ l ∷ rest) = join_byte (nibble h) (nibble l) (hex_decode rest)

-- White space of ASCII.
abbrev pub is_space : ℕ → Bool
is_space c = c == b' ' || (leb 9 c && leb c 13)

unfoldable pub trim_left : Text → Text
trim_left [] = []
trim_left (c ∷ cs) = let rest = trim_left cs in if is_space c then rest else c ∷ cs

-- strings.TrimSpace
unfoldable pub trim_space : Text → Text
unfolding trim_left
trim_space s = reverse (trim_left (reverse (trim_left s)))

-- strings.TrimPrefix(s, prefix)
unfoldable pub trim_prefix : Text → Text → Text
unfolding starts_with
trim_prefix prefix s = if starts_with prefix s then drop (length prefix) s else s

-- hex.DecodeString(strings.TrimPrefix(strings.TrimSpace(s), "0x"))
unfoldable pub decode_data : Text → Option (List ℕ)
unfolding hex_decode trim_prefix trim_space
decode_data s = hex_decode (trim_prefix (codes "0x") (trim_space s))
