-- ===== src/Address/Iban.antt =====
-- backend/address.go and isValidNimiqAddress of backend/inbox.go: the check digits of an address.
use Prim.Native.Nat.{bit_or}
use nim_connect.Base.{
  ℕ, zero, suc, ◌+◌, ◌-◌, ◌*◌, ◌/◌, ◌%◌, ◌^◌, Bool, true, false, ◌&&◌, ◌||◌, Option, none, some,
  List, [], ◌∷◌, ◌++◌, Text, codes, starts_with, length, take, drop, get_or, exists, every,
  if◌then◌else◌, ltb, leb, ◌==◌, ◌≡◌, refl,
}
use nim_connect.Base.Int.{ℤ, pos, negsuc, sub_ℕ}
use nim_connect.Address.{compact_address, normalize_address, to_upper}

abbrev pub nimiq_alphabet : Text
nimiq_alphabet = codes "0123456789ABCDEFGHJKLMNPQRSTUVXY"

abbrev pub is_digit : ℕ → Bool
is_digit c = leb b'0' c && leb c b'9'

-- The decimal text of a number below 100; the program prints no other here.
abbrev pub decimal : ℕ → Text
decimal n = if ltb n 10 then (b'0' + n) ∷ [] else (b'0' + n / 10) ∷ (b'0' + n % 10) ∷ []

-- fmt.Sprintf("%d", n)
abbrev pub show_int : ℤ → Text
show_int (pos n) = decimal n
show_int (negsuc n) = b'-' ∷ decimal (n + 1)

pub scan_digits : ℕ → Text → ℕ
scan_digits acc [] = acc
scan_digits acc (c ∷ cs) =
    let rest = scan_digits (acc * 10 + (c - b'0')) cs in if is_digit c then rest else acc

-- fmt.Sscanf(s, "%d", &n), where n is 0 at first: a sign, and digits up to the first other byte.
unfoldable pub scan_int : Text → ℤ
unfolding scan_digits
scan_int [] = pos 0
scan_int (c ∷ cs) =
    if c == b'-'
    then sub_ℕ 0 (scan_digits 0 cs)
    else pos (if c == b'+' then scan_digits 0 cs else scan_digits 0 (c ∷ cs))

-- Go's `n % 97` has the sign of n.
abbrev pub rem_97 : ℤ → ℤ
rem_97 (pos n) = pos (n % 97)
rem_97 (negsuc n) = sub_ℕ 0 ((n + 1) % 97)

-- The text that the first loop of `ibanCheck` writes for one character.
pub iban_digits : ℕ → Text
iban_digits c = if is_digit c then c ∷ [] else show_int (sub_ℕ c 55)

pub expand : Text → Text
expand [] = []
expand (c ∷ cs) = iban_digits (to_upper c) ++ expand cs

-- The second loop, with the rounds that are left, `tmp`, and the digits not read yet.
pub iban_loop : ℕ → Text → Text → Text
iban_loop zero tmp rest = tmp
iban_loop (suc rounds) tmp rest =
    iban_loop rounds (show_int (rem_97 (scan_int (tmp ++ take 6 rest)))) (drop 6 rest)

unfoldable pub iban_check : Text → ℤ
unfolding iban_digits expand iban_loop scan_int to_upper
iban_check str = let n = expand str in scan_int (iban_loop ((length n + 5) / 6) [] n)

-- strconv.Atoi accepts the two bytes: two digits, or a sign and a digit.
abbrev pub is_number : Text → Bool
is_number (a ∷ b ∷ []) = (is_digit a || a == b'+' || a == b'-') && is_digit b
is_number _ = false

abbrev pub is_one : ℤ → Bool
is_one (pos n) = n == 1
is_one (negsuc n) = false

unfoldable pub is_valid_nimiq_address : Text → Bool
unfolding iban_check compact_address starts_with exists every
is_valid_nimiq_address address =
    let c = compact_address address in
    (length c == 36)
    && starts_with (codes "NQ") c
    && is_number (take 2 (drop 2 c))
    && every (λ r. exists (λ a. a == r) nimiq_alphabet) (drop 4 c)
    && is_one (iban_check (drop 4 c ++ take 4 c))

-- One step of `toBase32`: `shift` and `carry` are its variables; x & 0x1f is x % 32.
abbrev pub symbol_of : ℕ → ℕ
symbol_of n = get_or nimiq_alphabet (n % 32) 0

pub base32_from : ℕ → ℕ → List ℕ → Text
base32_from shift carry [] = if shift == 3 then [] else symbol_of carry ∷ []
base32_from shift carry (b ∷ bs) =
    let first = symbol_of (bit_or carry (b / 2 ^ shift)) in
    let low = if ltb 5 shift then shift - 5 else shift in
    let second = if ltb 5 shift then symbol_of (b / 2 ^ low) ∷ [] else [] in
    let up = 5 - low in first ∷ (second ++ base32_from (8 - up) (b * 2 ^ up) bs)

unfoldable pub to_base32 : List ℕ → Text
unfolding base32_from
to_base32 buf = base32_from 3 0 buf

-- fmt.Sprintf("%02d", n) of a number below 100
abbrev pub two_digits : ℕ → Text
two_digits n = (b'0' + n / 10) ∷ (b'0' + n % 10) ∷ []

-- 98 - n; the text is read with no sign here, so n is not negative.
abbrev pub check_digits : ℤ → Text
check_digits (pos n) = two_digits (98 - n)
check_digits (negsuc n) = two_digits (98 + n + 1)

-- `none` is the error "invalid address bytes".
unfoldable pub user_friendly_address : List ℕ → Option Text
unfolding to_base32 iban_check normalize_address
user_friendly_address bytes =
    let base32 = to_base32 bytes in
    let check = check_digits (iban_check (base32 ++ codes "NQ00")) in
    if length bytes == 20 then some (normalize_address (codes "NQ" ++ (check ++ base32))) else none

-- The address of twenty zero bytes.
abbrev zero_address : Text
zero_address = codes "NQ07 0000 0000 0000 0000 0000 0000 0000 0000"

zero_address_valid : is_valid_nimiq_address zero_address ≡ true
unfolding is_valid_nimiq_address
zero_address_valid = refl

abbrev zero_bytes : List ℕ
zero_bytes = 0 ∷ 0 ∷ 0 ∷ 0 ∷ 0 ∷ 0 ∷ 0 ∷ 0 ∷ 0 ∷ 0 ∷ 0 ∷ 0 ∷ 0 ∷ 0 ∷ 0 ∷ 0 ∷ 0 ∷ 0 ∷ 0 ∷ 0 ∷ []

zero_address_lem : user_friendly_address (zero_bytes) ≡ some zero_address
unfolding user_friendly_address
zero_address_lem = refl
