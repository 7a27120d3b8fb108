-- ===== src/Handles.antt =====
-- backend/handles.go: the payloads that claim and release a handle. The file of reserved handles
-- is given by what it decodes to.
pub mod Registry
pub mod Sync
pub mod Payloads
mod Examples
use mathlib.Core.List.{map}
use nim_connect.Base.{
  ℕ, ◌+◌, ◌%◌, Bool, true, false, ◌&&◌, ◌||◌, Option, none, some, List, [], ◌∷◌, ◌++◌, Text, codes,
  text_eq, starts_with, take, drop, length, every, exists, if◌then◌else◌, leb, ltb, ◌==◌,
}
use nim_connect.Hex.{hex_encode, hex_decode, decode_data, trim_space, trim_prefix}
use nim_connect.Address.Iban.{user_friendly_address}
use nim_connect.Chain.{RpcTx, tx_sender}

abbrev pub claim_magic : Text
claim_magic = 0x4e ∷ 0x46 ∷ []

abbrev pub claim_version : ℕ
claim_version = 0x01

abbrev pub claim_type_profile : ℕ
claim_type_profile = 0x01

abbrev pub claim_type_release : ℕ
claim_type_release = 0x07

abbrev pub claim_text_prefix : Text
claim_text_prefix = codes "NFH:"

-- [a-z0-9_]
abbrev pub is_handle_char : ℕ → Bool
is_handle_char c = (leb b'a' c && leb c b'z') || (leb b'0' c && leb c b'9') || c == b'_'

-- ^[a-z0-9_]{3,31}$
unfoldable pub is_valid_handle : Text → Bool
unfolding every
is_valid_handle h = leb 3 (length h) && leb (length h) 31 && every is_handle_char h

pub record ClaimAction : Type 0 where
  pub handle : Text
  pub is_release : Bool

unfoldable pub make_claim_payload : Text → Text
unfolding hex_encode
make_claim_payload handle =
    claim_text_prefix
    ++ hex_encode (claim_magic ++ (claim_version ∷ claim_type_profile ∷ []) ++ handle)

unfoldable pub make_release_payload : Text → Text
unfolding hex_encode
make_release_payload handle =
    claim_text_prefix
    ++ hex_encode (claim_magic ++ (claim_version ∷ claim_type_release ∷ []) ++ handle)

-- The bytes before the first zero, or all of them.
unfoldable pub until_zero : List ℕ → List ℕ
until_zero [] = []
until_zero (b ∷ bs) = if b == 0 then [] else b ∷ until_zero bs

-- The switch on `payload[3]`.
abbrev pub release_kind : ℕ → Option Bool
release_kind kind =
    if kind == claim_type_profile
    then some false
    else if kind == claim_type_release
    then some true
    else none

unfoldable pub named_action : Text → Option Bool → Option ClaimAction
named_action handle none = none
named_action handle (some is_release) =
    if is_valid_handle handle
    then some (record { handle = handle; is_release = is_release })
    else none

unfoldable pub parse_claim_payload : List ℕ → Option ClaimAction
unfolding until_zero
parse_claim_payload (m ∷ n ∷ version ∷ kind ∷ rest) =
    if m == 0x4e && n == 0x46 && version == claim_version
    then named_action (until_zero rest) (release_kind kind)
    else none
parse_claim_payload _ = none

abbrev pub parse_decoded : (List ℕ → Option ClaimAction) → Option (List ℕ) → Option ClaimAction
parse_decoded parse none = none
parse_decoded parse (some inner) = parse inner

unfoldable pub parse_claim_data_from_raw : List ℕ → Option ClaimAction
unfolding starts_with trim_prefix trim_space hex_decode
parse_claim_data_from_raw raw =
    if starts_with claim_text_prefix raw
    then parse_decoded parse_claim_payload
        (hex_decode (trim_space (trim_prefix claim_text_prefix raw)))
    else parse_claim_payload raw

abbrev is_hex_digit : ℕ → Bool
is_hex_digit c =
    (leb b'0' c && leb c b'9') || (leb b'a' c && leb c b'f') || (leb b'A' c && leb c b'F')

-- Over runes as over bytes: a byte above 127 is no digit either way.
unfoldable pub is_hex_digits : Text → Bool
unfolding every
is_hex_digits s = ltb 0 (length s) && ((length s % 2) == 0) && every is_hex_digit s

-- The second form that is tried when the first gave no action.
unfoldable pub parse_double_hex : List ℕ → Option ClaimAction
unfolding is_hex_digits hex_decode
parse_double_hex raw =
    if is_hex_digits raw then parse_decoded parse_claim_data_from_raw (hex_decode raw) else none

abbrev pub or_else : Option ClaimAction → Option ClaimAction → Option ClaimAction
or_else (some action) other = some action
or_else none other = other

unfoldable pub parse_claim_data : Text → Option ClaimAction
unfolding decode_data
parse_claim_data data_hex =
    parse_decoded (λ raw. or_else (parse_claim_data_from_raw raw) (parse_double_hex raw))
      (decode_data data_hex)

abbrev pub htlc_sender_type : ℕ
htlc_sender_type = 2

-- The creator that is found, or the sender where none is.
abbrev creator_or : Text → Text → Text
creator_or [] sender = sender
creator_or (c ∷ cs) sender = c ∷ cs

-- A nil `htlcCreator` is the one that finds none.
unfoldable pub claimant_address : RpcTx → (Text → Text) → Text
claimant_address tx htlc_creator =
    if tx.from_type == htlc_sender_type
    then creator_or (htlc_creator (tx_sender tx)) (tx_sender tx)
    else tx_sender tx

abbrev owner_of_bytes : Option (List ℕ) → Text
owner_of_bytes none = []
owner_of_bytes (some raw) =
    if ltb (length raw) 40
    then []
    else elim (user_friendly_address (take 20 raw)) [ none ↦ [] | some address ↦ address ]

unfoldable pub htlc_owner_from_creation_data : Text → Text
unfolding decode_data
htlc_owner_from_creation_data data_hex = owner_of_bytes (decode_data data_hex)

abbrev pub builtin_reserved : List Text
builtin_reserved = map codes (
    "nimiq" ∷ "nimconnect" ∷ "nimpay" ∷ "nimfeed" ∷ "admin" ∷ "administrator" ∷ "support" ∷ "help"
    ∷ "official" ∷ "team" ∷ "security" ∷ "wallet" ∷ "pay" ∷ "root" ∷ [])

-- strings.ToLower, on ASCII
abbrev to_lower : ℕ → ℕ
to_lower c = if leb b'A' c && leb c b'Z' then c + 32 else c

-- The list of the file, which is none for a missing, unreadable or malformed one.
unfoldable pub load_reserved_handles : Option (List Text) → List Text
load_reserved_handles (some (h ∷ hs)) = map (map to_lower) (h ∷ hs)
load_reserved_handles _ = map (map to_lower) builtin_reserved
