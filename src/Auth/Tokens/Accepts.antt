-- ===== src/Auth/Tokens/Accepts.antt =====
-- Whom the authenticator accepts.
use mytradingsystem.Base.{
  ℕ, List, [], ◌∷◌, map, Option, none, some, String, eq_iff, str_eq_refl, contains, ok, true, false,
  ◌≡◌, inl, inr, Option-cases, arith, refl, is_empty, get_elem?, zero, suc, ap, sym, ◌∙◌, ◌↔◌,
}
use mytradingsystem.Auth.Tokens.{
  Principal, principal_of, Text, Credential, Authenticator, TokenConfig, has_repeat, bearer_token,
  matched, is_expired, token_authenticator, accept, authenticate_token, authenticate,
}

-- A credential by which a text authenticates now.
pub record Matches (sha256 : Text → String) (a : Authenticator) (now : ℕ) (header : Text)
    (c : Credential) : Type 0 where
  pub token : Text
  pub presented : bearer_token header ≡ some token
  pub place : ℕ
  pub configured : get_elem? a.digests place ≡ some c
  pub same_digest : c.digest ≡ sha256 token
  pub live : is_expired now c.expires_at ≡ false
  pub not_revoked : contains c.digest a.revoked ≡ false

matched-configured :
    (d : String) (cs : List Credential) {c : Credential}
    → matched d cs ≡ some c
    → (i : ℕ) × (get_elem? cs i ≡ some c) × (c.digest ≡ d)
unfolding matched
matched-configured d [] h = absurd (ground arith)
matched-configured d (k ∷ cs) h = elim (Option-cases (matched d cs)) [
  | inr (m, q) ↦
      let (i, at, same) = matched-configured d cs q in
      (suc i, ground (arith, at), ground (arith, same))
  | inl q ↦ (zero, ground arith, ground (arith, eq_iff d k.digest))
]

accept-ok :
    (now : ℕ) (revoked : List String) (d : String) (m : Option Credential) {p : Principal}
    → accept now revoked d m ≡ ok p
    → (c : Credential) × (m ≡ some c)
      × (is_expired now c.expires_at ≡ false)
      × (contains d revoked ≡ false)
      × (p ≡ principal_of c.role d)
accept-ok now revoked d none h = absurd (ground arith)
accept-ok now revoked d (some c) h = (c, refl, ground arith, ground arith, ground arith)

token-ok :
    (sha256 : Text → String) (a : Authenticator) (now : ℕ) (o : Option Text) {p : Principal}
    → authenticate_token sha256 a now o ≡ ok p
    → (token : Text) × (o ≡ some token)
      × (accept now a.revoked (sha256 token) (matched (sha256 token) a.digests) ≡ ok p)
token-ok sha256 a now none h = absurd (ground arith)
token-ok sha256 a now (some token) h = (token, refl, h)

-- Whoever is authenticated presented, in a well-formed header, the token of a configured credential
-- that has not expired and is not revoked, and gets that credential's role.
authenticate-Matches :
    (sha256 : Text → String) (a : Authenticator) (now : ℕ) (header : Text) {p : Principal}
    → authenticate sha256 a now (some header) ≡ ok p
    → (c : Credential) × Matches sha256 a now header c × (p ≡ principal_of c.role c.digest)
unfolding authenticate
authenticate-Matches sha256 a now header {p} h =
    let (token, presented, accepted) = token-ok sha256 a now (bearer_token header) (ground arith) in
    let (c, m, live, free, is) =
      accept-ok now a.revoked (sha256 token) (matched (sha256 token) a.digests) accepted in
    let (i, at, same) = matched-configured (sha256 token) a.digests m in
    (
      c,
      record {
        token = token;
        presented = presented;
        place = i;
        configured = at;
        same_digest = same;
        live = live;
        not_revoked = ap (λ d. contains d a.revoked) same ∙ free;
      },
      is ∙ ap (principal_of c.role) (sym same),
    )

filled-get :
    (cs : List Credential) (i : ℕ) {c : Credential} → get_elem? cs i ≡ some c → is_empty cs ≡ false
filled-get [] i h = absurd (ground arith)
filled-get (k ∷ cs) i h = refl

-- In credentials with distinct digests a digest matches its own credential.
not_among :
    (d : String) (cs : List Credential)
    → contains d (map (λ c. c.digest) cs) ≡ false
    → matched d cs ≡ none
unfolding matched contains
not_among d [] h = refl
not_among d (c ∷ cs) h = ground (arith, not_among d cs)

among :
    (cs : List Credential) (i : ℕ) {c : Credential}
    → get_elem? cs i ≡ some c
    → contains c.digest (map (λ k. k.digest) cs) ≡ true
unfolding contains
among [] i h = absurd (ground arith)
among (k ∷ cs) zero {c} h = ground (arith, str_eq_refl c.digest)
among (k ∷ cs) (suc i) h = ground (arith, among cs i h)

matched-distinct :
    (cs : List Credential) (i : ℕ) {c : Credential}
    → has_repeat (map (λ k. k.digest) cs) ≡ false
    → get_elem? cs i ≡ some c
    → matched c.digest cs ≡ some c
unfolding matched
matched-distinct [] i new h = absurd (ground arith)
matched-distinct (k ∷ cs) zero {c} new h =
    let same : k ≡ c = ground arith in
    let absent : contains c.digest (map (λ x. x.digest) cs) ≡ false = ground arith in
    ground (arith, not_among c.digest cs absent, same, str_eq_refl c.digest)
matched-distinct (k ∷ cs) (suc i) new h = ground (arith, matched-distinct cs i (ground arith) h)

-- In an authenticator that was built, every configured credential that has not expired and is not
-- revoked authenticates its token, with its own role.
Matches-authenticate :
    (sha256 : Text → String) (t : TokenConfig) (a : Authenticator) (now : ℕ) (header : Text)
    (c : Credential)
    → token_authenticator sha256 t ≡ ok a
    → Matches sha256 a now header c
    → authenticate sha256 a now (some header) ≡ ok (principal_of c.role c.digest)
unfolding authenticate token_authenticator
Matches-authenticate sha256 t a now header c built m =
    let distinct : has_repeat (map (λ k. k.digest) a.digests) ≡ false = ground arith in
    let own = matched-distinct a.digests m.place distinct m.configured in
    let given : matched (sha256 m.token) a.digests ≡ some c =
      ap (λ d. matched d a.digests) (sym m.same_digest) ∙ own in
    let free : contains (sha256 m.token) a.revoked ≡ false =
      ap (λ d. contains d a.revoked) (sym m.same_digest) ∙ m.not_revoked in
    let some_digests : is_empty a.digests ≡ false = filled-get a.digests m.place m.configured in
    ground (arith, m.presented, given, free, m.live, m.same_digest, some_digests)

-- In an authenticator that was built, a header authenticates a principal exactly when it is well
-- formed and presents the token of a configured credential that has not expired and is not revoked,
-- and the principal is that credential's.
pub authenticate_iff_Matches :
    (sha256 : Text → String) (t : TokenConfig) (a : Authenticator) (now : ℕ) (header : Text)
    (p : Principal)
    → token_authenticator sha256 t ≡ ok a
    → (authenticate sha256 a now (some header) ≡ ok p)
      ↔ ((c : Credential) × Matches sha256 a now header c × (p ≡ principal_of c.role c.digest))
authenticate_iff_Matches sha256 t a now header p built = (
  λ h. authenticate-Matches sha256 a now header h,
  λ h. let (c, m, is) = h in Matches-authenticate sha256 t a now header c built m ∙ ap ok (sym is),
)
