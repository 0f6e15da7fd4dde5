-- ===== src/Central/Enrollment.antt =====
-- Enrollment and agent credentials: backend/app/services/enrollment_service.py, the tokens of
-- backend/app/repositories/agent_repository.py, and `require_agent` of backend/app/security/auth.py.
-- `hash_token` is a parameter, and each drawn token is an argument. The constraints on `token_hash`
-- refuse a row whose hash another row has.
pub mod Tokens
pub mod Credentials
use port_forge.Prelude.{
  ℕ, ◌+◌, String, Option, none, some, List, [], ◌∷◌, ◌++◌, Bool, true, false, not, ◌&&◌, ltb, any,
  find?, select, update_first, is_some, str_eq, if◌then◌else◌,
}
use port_forge.Prelude.Result.{Result, ok, err, ◌>>=◌}
use port_forge.Central.Tables.{Host, AgentCredential, EnrollmentToken, Db}
use port_forge.Central.Probes.{host_by_id}
use port_forge.Central.Reservations.{Scalar, nothing, single, multiple, scalar_one_or_none}
use port_forge.Central.Lifecycle.{is_live_credential, revoke_active}
use port_forge.Central.Hosts.{HostFacts, upsert, is_decommissioned_host}

pub data EnrollmentError : Type 0 where
  token_invalid token_expired token_consumed host_decommissioned : EnrollmentError
  integrity_error multiple_results : EnrollmentError

abbrev pub has_hash : String → EnrollmentToken → Bool
has_hash h t = str_eq t.token_hash h

abbrev pub expiry : ℕ → Option ℕ → Option ℕ
expiry now none = none
expiry now (some ttl) = some (now + ttl)

-- `create_enrollment_token`, as `mint_enrollment_token` calls it, of a drawn token; `ttl` is None or a
-- time span.
unfoldable pub mint_enrollment_token :
    (String → String) → ℕ → ℕ → Option ℕ → Option String → String → Db → Result EnrollmentError Db
mint_enrollment_token hash_token now id ttl label raw db =
    if any (has_hash (hash_token raw)) db.enrollment_tokens
    then err integrity_error
    else ok (record db {
      enrollment_tokens =
          db.enrollment_tokens
          ++ record {
            id = id;
            token_hash = hash_token raw;
            label = label;
            created_at = now;
            expires_at = expiry now ttl;
            consumed_at = none;
            consumed_by_host_id = none;
          }
            ∷ [];
    })

-- `get_enrollment_token_by_hash`; the hash is unique.
abbrev pub get_enrollment_token_by_hash : String → List EnrollmentToken → Option EnrollmentToken
get_enrollment_token_by_hash h tokens = find? (has_hash h) tokens

abbrev pub is_expired : ℕ → EnrollmentToken → Bool
is_expired now t = elim t.expires_at [ none ↦ false | some e ↦ ltb e now ]

abbrev pub as_consumed : ℕ → ℕ → EnrollmentToken → EnrollmentToken
as_consumed host_id now t = record t { consumed_at = some now; consumed_by_host_id = some host_id }

-- `consume_enrollment_token`, of the row that was found
abbrev pub consume_enrollment_token : String → ℕ → ℕ → List EnrollmentToken → List EnrollmentToken
consume_enrollment_token h host_id now tokens =
    update_first (has_hash h) (as_consumed host_id now) tokens

abbrev pub credential_for : ℕ → String → ℕ → AgentCredential
credential_for host_id h now = record {
  host_id = host_id;
  token_hash = h;
  created_at = now;
  revoked_at = none;
}

-- The new row of `replace_credential_for_host`
unfoldable pub add_credential :
    AgentCredential → List AgentCredential → Result EnrollmentError (List AgentCredential)
add_credential c rows =
    if any (λ r. str_eq r.token_hash c.token_hash) rows
    then err integrity_error
    else ok (rows ++ c ∷ [])

-- The host's live credential is read by `scalar_one_or_none`, which raises on several.
unfoldable pub replace_over :
    ℕ
    → String
    → ℕ
    → List AgentCredential
    → Scalar AgentCredential
    → Result EnrollmentError (List AgentCredential)
unfolding add_credential
replace_over host_id h now rows nothing = add_credential (credential_for host_id h now) rows
replace_over host_id h now rows (single c) =
    add_credential (credential_for host_id h now) (revoke_active host_id now rows)
replace_over host_id h now rows multiple = err multiple_results

-- `replace_credential_for_host`
unfoldable pub replace_credential_for_host :
    ℕ → String → ℕ → List AgentCredential → Result EnrollmentError (List AgentCredential)
unfolding replace_over
replace_credential_for_host host_id h now rows =
    replace_over host_id h now rows (scalar_one_or_none (select (is_live_credential host_id) rows))

-- What an enrolling agent sends, with the token that is drawn for it.
pub record Enrollment : Type 0 where
  pub raw_enrollment_token : String
  pub host_id : ℕ
  pub facts : HostFacts
  pub now : ℕ
  pub raw_agent_token : String

unfoldable pub enroll_with : (String → String) → Enrollment → Db → Result EnrollmentError Db
unfolding replace_credential_for_host upsert
enroll_with hash_token e db =
    replace_credential_for_host e.host_id (hash_token e.raw_agent_token) e.now db.credentials
    >>= λ credentials. ok (record db {
      hosts = upsert e.host_id e.facts e.now db.hosts;
      credentials = credentials;
      enrollment_tokens =
          consume_enrollment_token (hash_token e.raw_enrollment_token) e.host_id e.now
            db.enrollment_tokens;
    })

unfoldable pub enroll_token :
    (String → String) → Enrollment → Option EnrollmentToken → Db → Result EnrollmentError Db
unfolding enroll_with
enroll_token hash_token e none db = err token_invalid
enroll_token hash_token e (some token) db =
    if is_some token.consumed_at
    then err token_consumed
    else if is_expired e.now token
    then err token_expired
    else if is_decommissioned_host (host_by_id e.host_id db.hosts)
    then err host_decommissioned
    else enroll_with hash_token e db

unfoldable pub enroll_host : (String → String) → Enrollment → Db → Result EnrollmentError Db
unfolding enroll_token
enroll_host hash_token e db =
    enroll_token hash_token e
      (get_enrollment_token_by_hash (hash_token e.raw_enrollment_token) db.enrollment_tokens) db

-- `require_agent`: the host of a bearer token, if a live credential has its hash.
unfoldable pub require_agent : (String → String) → String → Db → Option ℕ
require_agent hash_token raw db =
    elim (find? (λ c. str_eq c.token_hash (hash_token raw) && not (is_some c.revoked_at))
      db.credentials) [ none ↦ none | some c ↦ some c.host_id ]
