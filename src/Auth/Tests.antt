-- ===== src/Auth/Tests.antt =====
-- Two tokens under a toy digest, one revocation, and the theorems at them.
use mytradingsystem.Base.{
  [], ◌∷◌, String, none, some, ok, err, ◌≡◌, ◌==◌, length, if◌then◌else◌, refl, aware, lookup,
  text_keys, contains, is_blank, leb, ◌↔◌,
}
use mytradingsystem.Auth.Tokens.{
  viewer, operator, principal_of, authorization_invalid, role_required, Text, Credential,
  Authenticator, TokenConfig, token_authenticator, credentials, authenticate, bearer_token, matched,
  require, is_bad_digest,
}
use mytradingsystem.Auth.Tokens.Accepts.{Matches, authenticate_iff_Matches}
use mytradingsystem.Auth.Revocation.{
  Revoked, Tables, revoke, is_revoked, check_evidence, write_revocation,
}
use mytradingsystem.Auth.Revocation.Permanence.{RevokeCall, after_calls, revocation_permanent}

abbrev first_digest : String
first_digest = "aaaaaaaaaaaaaaaaaaaaaaaaaaaaaaaaaaaaaaaaaaaaaaaaaaaaaaaaaaaaaaaa"

abbrev other_digest : String
other_digest = "bbbbbbbbbbbbbbbbbbbbbbbbbbbbbbbbbbbbbbbbbbbbbbbbbbbbbbbbbbbbbbbb"

abbrev toy_sha : Text → String
toy_sha t = if length t == 3 then first_digest else other_digest

-- "abc" for viewers; "abcd" for operators, to be given up at time 100.
abbrev config : TokenConfig
config = record {
  viewer_token = some (97 ∷ 98 ∷ 99 ∷ []);
  operator_token = none;
  previous_viewer_token = none;
  previous_operator_token = some (97 ∷ 98 ∷ 99 ∷ 100 ∷ []);
  previous_tokens_expire_at = some (aware 100);
  revoked_token_sha256 = [];
}

abbrev gate : Authenticator
gate = record { digests = credentials toy_sha config; revoked = [] }

gate_built : token_authenticator toy_sha config ≡ ok gate
unfolding token_authenticator contains
gate_built = refl

-- "BEARER abcd"
abbrev header : Text
header = 66 ∷ 69 ∷ 65 ∷ 82 ∷ 69 ∷ 82 ∷ 32 ∷ 97 ∷ 98 ∷ 99 ∷ 100 ∷ []

enters : authenticate toy_sha gate 99 (some header) ≡ ok (principal_of operator other_digest)
unfolding authenticate bearer_token matched contains
enters = refl

expires : authenticate toy_sha gate 100 (some header) ≡ err authorization_invalid
unfolding authenticate bearer_token matched contains
expires = refl

viewer_only : require (principal_of viewer first_digest) operator ≡ err (role_required operator)
unfolding require
viewer_only = refl

abbrev previous : Credential
previous = record { role = operator; digest = other_digest; expires_at = some 100 }

header-Matches : Matches toy_sha gate 99 header previous
unfolding bearer_token contains
header-Matches = record {
  token = 97 ∷ 98 ∷ 99 ∷ 100 ∷ [];
  presented = refl;
  place = 1;
  configured = refl;
  same_digest = refl;
  live = refl;
  not_revoked = refl;
}

authenticate_iff_Matches_example :
    (authenticate toy_sha gate 99 (some header) ≡ ok (principal_of operator other_digest)) ↔ (
      (c : Credential) × Matches toy_sha gate 99 header c
      × (principal_of operator other_digest ≡ principal_of c.role c.digest))
authenticate_iff_Matches_example =
    authenticate_iff_Matches toy_sha config gate 99 header (principal_of operator other_digest)
      gate_built

abbrev no_tokens : Tables
no_tokens = record { revoked_tokens = []; audit_events = [] }

abbrev lost : Revoked
lost = record {
  token_sha256 = first_digest;
  revoked_at = 50;
  actor_id = "ops";
  reason = "lost";
  correlation_id = "c1";
}

abbrev after_revoke : Tables
after_revoke = write_revocation lost no_tokens

lost_revoked : revoke first_digest (aware 50) "ops" "lost" "c1" no_tokens ≡ (ok lost, after_revoke)
unfolding revoke check_evidence is_bad_digest is_blank lookup
lost_revoked = refl

abbrev again : RevokeCall
again = record {
  digest = first_digest;
  at = aware 10;
  actor = "x";
  reason = "y";
  correlation = "z";
}

revocation_permanent_example :
    is_revoked first_digest (aware 49) (after_calls (again ∷ []) after_revoke) ≡ ok (leb 50 49)
revocation_permanent_example =
    revocation_permanent first_digest (aware 50) "ops" "lost" "c1" 49 (again ∷ []) no_tokens
      lost_revoked
