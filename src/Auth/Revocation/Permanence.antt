-- ===== src/Auth/Revocation/Permanence.antt =====
-- A revocation is permanent and holds from its own time on.
use mytradingsystem.Base.{
  ℕ, String, DateTime, aware, instant, some, ok, false, ◌≡◌, inl, inr, Option-cases, Result-cases,
  arith, lookup, lookup-insert, lookup-insert_self, text_keys, eq_iff, leb, List, [], ◌∷◌,
}
use mytradingsystem.Auth.Tokens.{is_bad_digest}
use mytradingsystem.Auth.Revocation.{
  Revoked, Tables, check_evidence, write_revocation, revoke, is_revoked,
}

revoke-found :
    (d : String) (at : DateTime) (actor reason correlation : String) (db : Tables) {r : Revoked}
    {db' : Tables}
    → revoke d at actor reason correlation db ≡ (ok r, db')
    → (lookup d db'.revoked_tokens ≡ some r) × (is_bad_digest d ≡ false)
unfolding revoke check_evidence write_revocation
revoke-found d at actor reason correlation db {r} {db'} h =
    elim (Option-cases (lookup d db.revoked_tokens)) [
      | inr (old, q) ↦ (ground arith, ground arith)
      | inl q ↦
          let new : Revoked = record {
            token_sha256 = d;
            revoked_at = instant at;
            actor_id = actor;
            reason = reason;
            correlation_id = correlation;
          } in
          (ground (arith, lookup-insert_self d new db.revoked_tokens), ground arith)
    ]

revoke-keeps :
    (d e : String) (at : DateTime) (actor reason correlation : String) (db : Tables) {r : Revoked}
    → lookup d db.revoked_tokens ≡ some r
    → lookup d (revoke e at actor reason correlation db).1.revoked_tokens ≡ some r
unfolding revoke write_revocation
revoke-keeps d e at actor reason correlation db {r} h =
    elim (Result-cases (check_evidence e at actor reason correlation)) [
      | inr (x, c) ↦ ground (arith, c)
      | inl (u, c) ↦ elim (Option-cases (lookup e db.revoked_tokens)) [
        | inr (old, q) ↦ ground (arith, c, q)
        | inl q ↦
            let new : Revoked = record {
              token_sha256 = e;
              revoked_at = instant at;
              actor_id = actor;
              reason = reason;
              correlation_id = correlation;
            } in
            ground (arith, c, q, lookup-insert d e new db.revoked_tokens, eq_iff d e)
      ]
    ]

pub record RevokeCall : Type 0 where
  pub digest : String
  pub at : DateTime
  pub actor : String
  pub reason : String
  pub correlation : String

-- The tables after a sequence of calls, whether they return or raise.
abbrev pub after_calls : List RevokeCall → Tables → Tables
after_calls [] db = db
after_calls (c ∷ cs) db = after_calls cs (revoke c.digest c.at c.actor c.reason c.correlation db).1

calls_keep :
    (d : String) (cs : List RevokeCall) (db : Tables) {r : Revoked}
    → lookup d db.revoked_tokens ≡ some r
    → lookup d (after_calls cs db).revoked_tokens ≡ some r
calls_keep d [] db h = h
calls_keep d (c ∷ cs) db h =
    calls_keep d cs (revoke c.digest c.at c.actor c.reason c.correlation db).1
      (revoke-keeps d c.digest c.at c.actor c.reason c.correlation db h)

-- After a call that returned, and after whatever further calls for whatever tokens, the token is
-- revoked at each time from the one that the call returned on, and at no time before it.
pub revocation_permanent :
    (d : String) (at : DateTime) (actor reason correlation : String) (t : ℕ) (cs : List RevokeCall)
    (db : Tables) {r : Revoked} {db' : Tables}
    → revoke d at actor reason correlation db ≡ (ok r, db')
    → is_revoked d (aware t) (after_calls cs db') ≡ ok (leb r.revoked_at t)
unfolding is_revoked
revocation_permanent d at actor reason correlation t cs db {r} {db'} h =
    let (found, good) = revoke-found d at actor reason correlation db h in
    ground (arith, calls_keep d cs db' found, good)
