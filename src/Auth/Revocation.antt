-- ===== src/Auth/Revocation.antt =====
-- packages/auth/persistence.py: the table of revoked tokens and its audit events.
pub mod Permanence
use mytradingsystem.Auth.Tokens.{is_bad_digest}
use mytradingsystem.Base.{
  Bool, ℕ, List, [], ◌∷◌, Option, none, some, is_some, String, str_eq, is_blank, Dict, lookup,
  insert, text_keys, DateTime, is_naive, instant, Result, ok, err, ◌>>=◌, ◌>>◌, raise_if, true,
  false, not, ◌&&◌, ◌||◌, if◌then◌else◌, leb,
}

pub data RevocationError : Type 0 where
  bad_token_digest naive_time missing_evidence conflicting_evidence : RevocationError

pub record Revoked : Type 0 where
  pub token_sha256 : String
  pub revoked_at : ℕ
  pub actor_id : String
  pub reason : String
  pub correlation_id : String

-- `AuditEventRecord`, as this store writes it: the action, the resource type and the outcome are fixed.
pub record AuditEvent : Type 0 where
  pub occurred_at : ℕ
  pub audit_actor_id : String
  pub resource_id : String
  pub audit_correlation_id : String
  pub details_reason : String

-- The digest is a unique column.
pub record Tables : Type 0 where
  pub revoked_tokens : Dict String Revoked
  pub audit_events : List AuditEvent

abbrev pub conflicts : Revoked → String → String → String → Bool
conflicts r actor reason correlation =
    not (str_eq r.actor_id actor)
    || not (str_eq r.reason reason)
    || not (str_eq r.correlation_id correlation)

-- The tests at the start of `revoke`.
unfoldable pub check_evidence :
    String → DateTime → String → String → String → Result RevocationError (Unit {0})
check_evidence digest at actor reason correlation = do
  raise_if (is_bad_digest digest) bad_token_digest
  raise_if (is_naive at) naive_time
  raise_if (is_blank actor || is_blank reason || is_blank correlation) missing_evidence

unfoldable pub write_revocation : Revoked → Tables → Tables
write_revocation r db = record {
  revoked_tokens = insert r.token_sha256 r db.revoked_tokens;
  audit_events =
      record {
        occurred_at = r.revoked_at;
        audit_actor_id = r.actor_id;
        resource_id = r.token_sha256;
        audit_correlation_id = r.correlation_id;
        details_reason = r.reason;
      }
      ∷ db.audit_events;
}

unfoldable pub revoke :
    String → DateTime → String → String → String → Tables → Result RevocationError Revoked × Tables
revoke digest at actor reason correlation db =
    elim (check_evidence digest at actor reason correlation) [
      | err x ↦ (err x, db)
      | ok _ ↦ elim (lookup digest db.revoked_tokens) [
        | some r ↦
            if conflicts r actor reason correlation
            then (err conflicting_evidence, db)
            else (ok r, db)
        | none ↦
            let r : Revoked = record {
              token_sha256 = digest;
              revoked_at = instant at;
              actor_id = actor;
              reason = reason;
              correlation_id = correlation;
            } in
            (ok r, write_revocation r db)
      ]
    ]

abbrev pub revoked_by : ℕ → Option Revoked → Bool
revoked_by as_of none = false
revoked_by as_of (some r) = leb r.revoked_at as_of

unfoldable pub is_revoked : String → DateTime → Tables → Result RevocationError Bool
is_revoked digest as_of db = do
  raise_if (is_bad_digest digest) bad_token_digest
  raise_if (is_naive as_of) naive_time
  ok (revoked_by (instant as_of) (lookup digest db.revoked_tokens))
