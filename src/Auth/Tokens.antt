-- ===== src/Auth/Tokens.antt =====
-- packages/auth/tokens.py: `TokenAuthenticator`. SHA-256 is a parameter: a text's lowercase hexadecimal
-- digest, which stands for the digest's bytes. A text is the list of its code points.
pub mod Accepts
use mytradingsystem.Base.{
  Bool, ℕ, List, [], ◌∷◌, ◌++◌, map, Option, none, some, is_some, String, str_eq, codes, contains,
  DateTime, is_naive, instant, Result, ok, err, ◌>>=◌, ◌>>◌, raise_if, true, false, not, ◌&&◌, ◌||◌,
  if◌then◌else◌, leb, ◌==◌, any, length, is_empty, ◌+◌,
}

pub data Role : Type 0 where
  viewer operator : Role

pub record Principal : Type 0 where
  pub subject : String
  pub role : Role
  pub credential_sha256 : String

-- `f"api:{role.value}"`
abbrev pub subject_of : Role → String
subject_of viewer = "api:viewer"
subject_of operator = "api:operator"

abbrev pub principal_of : Role → String → Principal
principal_of role digest = record {
  subject = subject_of role;
  role = role;
  credential_sha256 = digest;
}

pub data AuthError : Type 0 where
  naive_expiry missing_expiry repeated_tokens bad_revoked_digest : AuthError
  unavailable authorization_required authorization_invalid : AuthError
  role_required : Role → AuthError

abbrev pub Text : Type 0
Text = List ℕ

-- One of `_digests`.
pub record Credential : Type 0 where
  pub role : Role
  pub digest : String
  pub expires_at : Option ℕ

pub record Authenticator : Type 0 where
  pub digests : List Credential
  pub revoked : List String

abbrev pub has_repeat : List String → Bool
has_repeat [] = false
has_repeat (d ∷ ds) = contains d ds || has_repeat ds

-- "0123456789abcdef"
abbrev pub is_hex : ℕ → Bool
is_hex c = (leb 48 c && leb c 57) || (leb 97 c && leb c 102)

abbrev pub not_hex : ℕ → Bool
not_hex c = not (is_hex c)

unfoldable pub is_bad_digest : String → Bool
is_bad_digest d = not (length (codes d) == 64) || any not_hex (codes d)

abbrev pub expiry_is_naive : Option DateTime → Bool
expiry_is_naive none = false
expiry_is_naive (some t) = is_naive t

abbrev pub expiry_instant : Option DateTime → Option ℕ
expiry_instant none = none
expiry_instant (some t) = some (instant t)

pub record TokenConfig : Type 0 where
  pub viewer_token : Option Text
  pub operator_token : Option Text
  pub previous_viewer_token : Option Text
  pub previous_operator_token : Option Text
  pub previous_tokens_expire_at : Option DateTime
  pub revoked_token_sha256 : List String

-- `"bearer"`, and the ASCII part of `str.lower`: no other character is lowered to a letter of it.
abbrev pub bearer : Text
bearer = 98 ∷ 101 ∷ 97 ∷ 114 ∷ 101 ∷ 114 ∷ []

abbrev pub lower : ℕ → ℕ
lower c = if leb 65 c && leb c 90 then c + 32 else c

abbrev pub same_text : Text → Text → Bool
same_text [] [] = true
same_text (a ∷ s) (b ∷ t) = a == b && same_text s t
same_text _ _ = false

-- `partition(" ")`: what stands before the first blank, and what follows it, if there is one.
abbrev pub partition : Text → Text × Option Text
partition [] = ([], none)
partition (c ∷ cs) =
    let (before, after) = partition cs in if c == 32 then ([], some cs) else (c ∷ before, after)

-- The tests of the header's scheme and token.
abbrev pub token_of : Text × Option Text → Option Text
token_of (scheme, none) = none
token_of (scheme, some token) =
    if not (same_text (map lower scheme) bearer) || is_empty token || any (λ c. c == 32) token
    then none
    else some token

unfoldable pub bearer_token : Text → Option Text
bearer_token header = token_of (partition header)

-- The last of the credentials that a digest matches, as the loop over all of them leaves it.
unfoldable pub matched : String → List Credential → Option Credential
matched candidate [] = none
matched candidate (c ∷ cs) = elim (matched candidate cs) [
  | some m ↦ some m
  | none ↦ if str_eq candidate c.digest then some c else none
]

abbrev pub is_expired : ℕ → Option ℕ → Bool
is_expired now none = false
is_expired now (some expiry) = leb expiry now

abbrev pub accept : ℕ → List String → String → Option Credential → Result AuthError Principal
accept now revoked candidate none = err authorization_invalid
accept now revoked candidate (some c) =
    if is_expired now c.expires_at || contains candidate revoked
    then err authorization_invalid
    else ok (principal_of c.role candidate)

module _ (sha256 : Text → String) where
  abbrev pub credential_of : Role → Option ℕ → Option Text → List Credential
  credential_of role expires none = []
  credential_of role expires (some token) =
      record { role = role; digest = sha256 token; expires_at = expires } ∷ []

  abbrev pub credentials : TokenConfig → List Credential
  credentials t =
      let expires = expiry_instant t.previous_tokens_expire_at in
      credential_of viewer none t.viewer_token
      ++ (credential_of operator none t.operator_token
          ++ (credential_of viewer expires t.previous_viewer_token
              ++ credential_of operator expires t.previous_operator_token))

  -- `TokenAuthenticator(...)`
  unfoldable pub token_authenticator : TokenConfig → Result AuthError Authenticator
  token_authenticator t = do
    raise_if (expiry_is_naive t.previous_tokens_expire_at) naive_expiry
    raise_if
        ((is_some t.previous_viewer_token || is_some t.previous_operator_token)
          && not (is_some t.previous_tokens_expire_at))
        missing_expiry
    raise_if (has_repeat (map (λ c. c.digest) (credentials t))) repeated_tokens
    raise_if (has_repeat t.revoked_token_sha256 || any is_bad_digest t.revoked_token_sha256)
        bad_revoked_digest
    ok (record { digests = credentials t; revoked = t.revoked_token_sha256 })

  abbrev pub authenticate_token : Authenticator → ℕ → Option Text → Result AuthError Principal
  authenticate_token a now none = err authorization_invalid
  authenticate_token a now (some token) =
      accept now a.revoked (sha256 token) (matched (sha256 token) a.digests)

  -- `authenticate`; the clock is read once, and only where a credential expires.
  unfoldable pub authenticate : Authenticator → ℕ → Option Text → Result AuthError Principal
  authenticate a now authorization =
      if is_empty a.digests then err unavailable else elim authorization [
        | none ↦ err authorization_required
        | some header ↦ authenticate_token a now (bearer_token header)
      ]

abbrev pub same_role : Role → Role → Bool
same_role viewer viewer = true
same_role operator operator = true
same_role _ _ = false

-- `require`
unfoldable pub require : Principal → Role → Result AuthError Principal
require p role =
    if same_role p.role operator || same_role p.role role then ok p else err (role_required role)
