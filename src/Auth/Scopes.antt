-- ===== src/Auth/Scopes.antt =====
-- backend/auth_protocol.go: the scopes an app may ask for, and the message that a wallet signs. The
-- text of a time, in RFC 3339, is an argument.
use nim_connect.Base.{
  ℕ, ◌≡◌, refl, Bool, false, not, ◌&&◌, ◌||◌, List, [], ◌∷◌, ◌++◌, Text, codes, text_eq,
  text_eq_iff, Result, ok, ◌>>=◌, ◌>>◌, guard, exists, every, arith, Bool-cases, inl, inr,
}
use nim_connect.Address.{compact_address}
use nim_connect.Sessions.{is_audience}
use nim_connect.Auth.{insert_scope, canonical_scopes, is_empty}

abbrev pub authorization_scopes : List Text
authorization_scopes =
    codes "friends:read"
    ∷ codes "friends:write"
    ∷ codes "inbox:read"
    ∷ codes "inbox:send"
    ∷ codes "inbox:delete"
    ∷ codes "profile:write"
    ∷ codes "backup:read"
    ∷ codes "backup:write"
    ∷ codes "marketplace:read"
    ∷ codes "marketplace:trade"
    ∷ codes "achievements:read"
    ∷ []

abbrev pub is_known_scope : Text → Bool
is_known_scope s = exists (text_eq s) authorization_scopes

unfoldable pub has_duplicate : List Text → Bool
has_duplicate [] = false
has_duplicate (s ∷ ss) = exists (text_eq s) ss || has_duplicate ss

pub data ScopesError : Type 0 where
  no_scope unknown_or_duplicate_scope invalid_audience no_nonce : ScopesError

-- Without duplicates, sorting is what `canonicalScopes` does.
unfoldable pub validate_authorization_scopes : List Text → Result ScopesError (List Text)
validate_authorization_scopes scopes = do
  guard (not (is_empty scopes)) ScopesError.no_scope
  guard (every is_known_scope scopes && not (has_duplicate scopes))
      ScopesError.unknown_or_duplicate_scope
  ok (canonical_scopes scopes)

unfoldable pub join : Text → List Text → Text
join separator [] = []
join separator (s ∷ []) = s
join separator (s ∷ t ∷ ts) = s ++ (separator ++ join separator (t ∷ ts))

abbrev message_line : Text → Text → Text
message_line name value = 10 ∷ (name ++ value)

unfoldable pub build_authorization_message :
    (format_time : ℕ → Text)
    → Text
    → Text
    → List Text
    → ℕ
    → Text
    → Result ScopesError (Text × List Text)
build_authorization_message format_time address audience scopes expires_at nonce = do
  guard (is_audience audience) ScopesError.invalid_audience
  canonical ← validate_authorization_scopes scopes
  guard (not (text_eq nonce [])) ScopesError.no_nonce
  ok (
    codes "NimConnect authorization v3"
        ++ (message_line (codes "App: ") audience
            ++ (message_line (codes "Address: ") (compact_address address)
                ++ (message_line (codes "Access: ") (join (codes ", ") canonical)
                    ++ (message_line (codes "Expires: ") (format_time expires_at)
                        ++ message_line (codes "Nonce: ") nonce)))),
    canonical,
  )

every-insert_scope :
    (p : Text → Bool) (s : Text) (ts : List Text)
    → every p (insert_scope s ts) ≡ (p s && every p ts)
unfolding every insert_scope
every-insert_scope p s [] = refl
every-insert_scope p s (t ∷ ts) = elim (Bool-cases (text_eq s t)) [
  | inl e ↦ let same : s ≡ t = (text_eq_iff s t).0 e in rw (e, same) (ground arith)
  | inr e ↦ rw e (ground (arith, every-insert_scope p s ts))
]

-- The canonical list has the same scopes.
pub every-canonical_scopes :
    (p : Text → Bool) (ss : List Text) → every p (canonical_scopes ss) ≡ every p ss
unfolding every canonical_scopes
every-canonical_scopes p [] = refl
every-canonical_scopes p (s ∷ ss) =
    rw (every-insert_scope p s (canonical_scopes ss), every-canonical_scopes p ss) refl
