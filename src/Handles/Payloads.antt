-- ===== src/Handles/Payloads.antt =====
-- The payloads that the program makes are the ones that it reads.
use mathlib.Core.List.{reverse, reverse_aux, reverse-reverse}
use nim_connect.Base.{
  ℕ, ◌/◌, ◌%◌, ◌<◌, ◌≡◌, refl, ap, Bool, true, false, some, none, Option, List, [], ◌∷◌, ◌++◌, Text,
  codes, arith, All, Bool-cases, inl, inr, every, starts_with, text_eq,
}
use nim_connect.Hex.{
  nibble, hex_digit, hex_encode, hex_decode, trim_left, is_space, trim_space, trim_prefix,
  decode_data,
}
use nim_connect.Handles.{
  parse_decoded, parse_double_hex, is_hex_digits, or_else, ClaimAction, release_kind,
  is_valid_handle, is_handle_char, make_claim_payload, make_release_payload, until_zero,
  named_action, parse_claim_payload, parse_claim_data_from_raw, parse_claim_data, claim_text_prefix,
}

abbrev pub IsBytes : List ℕ → Type 0
IsBytes = All (λ b. b < 256)

nibble-hex_digit : (n : ℕ) → n < 16 → nibble (hex_digit n) ≡ some n
unfolding nibble hex_digit
nibble-hex_digit n h = ground arith

-- Decoding gives back the bytes that were encoded.
pub hex_decode-hex_encode : (bs : List ℕ) → IsBytes bs → hex_decode (hex_encode bs) ≡ some bs
unfolding hex_decode hex_encode
hex_decode-hex_encode [] h = refl
hex_decode-hex_encode (b ∷ bs) h =
    rw
      (
        nibble-hex_digit (b / 16) (omega (arith, h.0)),
        nibble-hex_digit (b % 16) (omega arith),
        hex_decode-hex_encode bs h.1,
      )
      (ap (λ x. some (x ∷ bs)) (omega arith))

hex_digit_space : (n : ℕ) → is_space (hex_digit n) ≡ false
unfolding hex_digit
hex_digit_space n = ground arith

-- No byte of the text is white space.
abbrev Solid : Text → Type 0
Solid = All (λ c. is_space c ≡ false)

Solid-hex_encode : (bs : List ℕ) → Solid (hex_encode bs)
unfolding hex_encode
Solid-hex_encode [] = tt
Solid-hex_encode (b ∷ bs) =
    (hex_digit_space (b / 16), (hex_digit_space (b % 16), Solid-hex_encode bs))

Solid-reverse_aux : (s r : Text) → Solid s → Solid r → Solid (reverse_aux s r)
Solid-reverse_aux [] r hs hr = hr
Solid-reverse_aux (c ∷ cs) r hs hr = Solid-reverse_aux cs (c ∷ r) hs.1 (hs.0, hr)

trim_left-Solid : (s : Text) → Solid s → trim_left s ≡ s
unfolding trim_left
trim_left-Solid [] h = refl
trim_left-Solid (c ∷ cs) h = rw h.0 refl

trim_space-Solid : (s : Text) → Solid s → trim_space s ≡ s
unfolding trim_space
trim_space-Solid s h =
    rw (trim_left-Solid s h, trim_left-Solid (reverse s) (Solid-reverse_aux s [] h tt))
      (reverse-reverse s)

hex_not_prefixed : (bs : List ℕ) → starts_with (codes "0x") (hex_encode bs) ≡ false
unfolding starts_with hex_encode hex_digit text_eq
hex_not_prefixed [] = refl
hex_not_prefixed (b ∷ bs) = ground arith

-- The data field of a transaction is read as the bytes that it encodes.
decode_data-hex_encode : (bs : List ℕ) → IsBytes bs → decode_data (hex_encode bs) ≡ some bs
unfolding decode_data trim_prefix
decode_data-hex_encode bs h =
    rw (trim_space-Solid (hex_encode bs) (Solid-hex_encode bs), hex_not_prefixed bs)
      (hex_decode-hex_encode bs h)

-- A handle's characters are bytes, and none of them is zero.
handle-IsBytes : (h : Text) → every is_handle_char h ≡ true → IsBytes h
unfolding every
handle-IsBytes [] v = tt
handle-IsBytes (c ∷ cs) v = (ground arith, handle-IsBytes cs (ground arith))

until_zero_handle : (h : Text) → every is_handle_char h ≡ true → until_zero h ≡ h
unfolding every until_zero
until_zero_handle [] v = refl
until_zero_handle (c ∷ cs) v = ground (arith, until_zero_handle cs)

handle_chars : (h : Text) → is_valid_handle h ≡ true → every is_handle_char h ≡ true
unfolding is_valid_handle
handle_chars h v = ground arith

hex_digit_byte : (n : ℕ) → n < 16 → hex_digit n < 256
unfolding hex_digit
hex_digit_byte n h = ground arith

hex_encode-IsBytes : (bs : List ℕ) → IsBytes bs → IsBytes (hex_encode bs)
unfolding hex_encode
hex_encode-IsBytes [] h = tt
hex_encode-IsBytes (b ∷ bs) h = (
  hex_digit_byte (b / 16) (omega (arith, h.0)),
  (hex_digit_byte (b % 16) (omega arith), hex_encode-IsBytes bs h.1),
)

-- The binary payload of a kind, which is 1 for a claim and 7 for a release.
abbrev binary : ℕ → Text → List ℕ
binary kind h = 0x4e ∷ 0x46 ∷ 0x01 ∷ kind ∷ h

module _ (kind : ℕ) (released : Bool) (known : release_kind kind ≡ some released)
    (small : kind < 256) (h : Text) (v : is_valid_handle h ≡ true) where
  action : ClaimAction
  action = record { handle = h; is_release = released }

  parse_binary : parse_claim_payload (binary kind h) ≡ some action
  unfolding parse_claim_payload named_action action
  parse_binary = rw (until_zero_handle h (handle_chars h v), known, v) refl

  binary-IsBytes : IsBytes (binary kind h)
  binary-IsBytes =
      (omega arith, (omega arith, (omega arith, (small, handle-IsBytes h (handle_chars h v)))))

  enveloped : List ℕ
  enveloped = claim_text_prefix ++ hex_encode (binary kind h)

  parse_envelope : parse_claim_data_from_raw enveloped ≡ some action
  unfolding parse_claim_data_from_raw enveloped starts_with trim_prefix text_eq hex_encode action
  parse_envelope =
      rw
        (
          trim_space-Solid (hex_encode (binary kind h)) (Solid-hex_encode (binary kind h)),
          hex_decode-hex_encode (binary kind h) binary-IsBytes,
        )
        parse_binary

  enveloped-IsBytes : IsBytes enveloped
  unfolding enveloped
  enveloped-IsBytes = (
    omega arith,
    (omega arith, (omega arith, (omega arith, hex_encode-IsBytes (binary kind h) binary-IsBytes))),
  )

  -- As the Hub sends it: the binary payload.
  parse_hub : parse_claim_data (hex_encode (binary kind h)) ≡ some action
  unfolding parse_claim_data parse_claim_data_from_raw starts_with
  parse_hub = rw (decode_data-hex_encode (binary kind h) binary-IsBytes, parse_binary) refl

  -- As Nimiq Pay sends it: the text envelope.
  parse_pay : parse_claim_data (hex_encode enveloped) ≡ some action
  unfolding parse_claim_data
  parse_pay = rw (decode_data-hex_encode enveloped enveloped-IsBytes, parse_envelope) refl

-- A valid handle's claim and its release, as Nimiq Pay sends them, are read as what they are: with
-- the handle, and the one not for the other.
pub payload_roundtrip :
    (h : Text)
    → is_valid_handle h ≡ true
    → (parse_claim_data (hex_encode (make_claim_payload h))
        ≡ some (record { handle = h; is_release = false }))
      × (parse_claim_data (hex_encode (make_release_payload h))
          ≡ some (record { handle = h; is_release = true }))
unfolding make_claim_payload make_release_payload enveloped action
payload_roundtrip h v =
    (parse_pay 1 false refl (omega arith) h v, parse_pay 7 true refl (omega arith) h v)

-- The same holds of the binary payloads that the Hub sends.
pub binary_roundtrip :
    (h : Text)
    → is_valid_handle h ≡ true
    → (parse_claim_data (hex_encode (0x4e ∷ 0x46 ∷ 0x01 ∷ 0x01 ∷ h))
        ≡ some (record { handle = h; is_release = false }))
      × (parse_claim_data (hex_encode (0x4e ∷ 0x46 ∷ 0x01 ∷ 0x07 ∷ h))
          ≡ some (record { handle = h; is_release = true }))
unfolding action
binary_roundtrip h v =
    (parse_hub 1 false refl (omega arith) h v, parse_hub 7 true refl (omega arith) h v)

payload_valid :
    (bs : List ℕ) (a : ClaimAction)
    → parse_claim_payload bs ≡ some a
    → is_valid_handle a.handle ≡ true
unfolding parse_claim_payload named_action
payload_valid (m ∷ n ∷ u ∷ k ∷ rest) a h = ground arith
payload_valid [] a h = cc
payload_valid (m ∷ []) a h = cc
payload_valid (m ∷ n ∷ []) a h = cc
payload_valid (m ∷ n ∷ u ∷ []) a h = cc

decoded_valid :
    (parse : List ℕ → Option ClaimAction)
    → ((bs : List ℕ) (a : ClaimAction) → parse bs ≡ some a → is_valid_handle a.handle ≡ true)
    → (o : Option (List ℕ)) (a : ClaimAction) → parse_decoded parse o ≡ some a
    → is_valid_handle a.handle ≡ true
decoded_valid parse v none a h = cc
decoded_valid parse v (some bs) a h = v bs a h

raw_valid :
    (raw : List ℕ) (a : ClaimAction)
    → parse_claim_data_from_raw raw ≡ some a
    → is_valid_handle a.handle ≡ true
unfolding parse_claim_data_from_raw
raw_valid raw a h = elim (Bool-cases (starts_with claim_text_prefix raw)) [
  | inl e ↦ decoded_valid parse_claim_payload payload_valid _ a (rw e at h)
  | inr e ↦ payload_valid raw a (rw e at h)
]

double_valid :
    (raw : List ℕ) (a : ClaimAction)
    → parse_double_hex raw ≡ some a
    → is_valid_handle a.handle ≡ true
unfolding parse_double_hex
double_valid raw a h = elim (Bool-cases (is_hex_digits raw)) [
  | inl e ↦ decoded_valid parse_claim_data_from_raw raw_valid _ a (rw e at h)
  | inr e ↦ cc (rw e at h)
]

either_valid :
    (x y : Option ClaimAction) (a : ClaimAction)
    → (x ≡ some a → is_valid_handle a.handle ≡ true)
    → (y ≡ some a → is_valid_handle a.handle ≡ true)
    → or_else x y ≡ some a
    → is_valid_handle a.handle ≡ true
either_valid (some x) y a p q h = p h
either_valid none y a p q h = q h

-- Whatever a transaction carries, an action that is read from it names a valid handle.
pub parsed_valid :
    (data_hex : Text) (a : ClaimAction)
    → parse_claim_data data_hex ≡ some a
    → is_valid_handle a.handle ≡ true
unfolding parse_claim_data
parsed_valid data_hex a h =
    decoded_valid (λ raw. or_else (parse_claim_data_from_raw raw) (parse_double_hex raw))
      (λ raw b e.
        either_valid (parse_claim_data_from_raw raw) (parse_double_hex raw) b (raw_valid raw b)
          (double_valid raw b) e)
      (decode_data data_hex) a h
