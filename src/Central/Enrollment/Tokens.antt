-- ===== src/Central/Enrollment/Tokens.antt =====
-- The use of an enrollment token, over every sequence of later requests.
use port_forge.Prelude.{
  ℕ, String, Option, none, some, List, [], ◌∷◌, ◌++◌, Bool, true, false, ◌≡◌, refl, sym, ap, ◌∙◌,
  arith, any, find?, update, is_some, Bool-cases, if◌then◌else◌,
}
use port_forge.Prelude.Result.{Result, ok, err, >>=-eq-ok}
use port_forge.Central.Tables.{Host, EnrollmentToken, Settings, Db}
use port_forge.Central.Probes.{host_by_id}
use port_forge.Central.Hosts.{
  HostFacts, host_decommissioned, is_decommissioned_host, heartbeat_over, purged_if, purged,
  record_heartbeat, delete_host, without_consumer, consumed_by,
}
use port_forge.Central.Enrollment.{
  expiry, Enrollment, EnrollmentError, token_consumed, integrity_error, has_hash,
  mint_enrollment_token, consume_enrollment_token, enroll_with, enroll_token, enroll_host,
  replace_credential_for_host,
}

-- The requests that touch tokens or hosts.
pub data Request : Type 0 where
  mint : ℕ → ℕ → Option ℕ → Option String → String → Request
  enroll : Enrollment → Request
  heartbeat : Settings → ℕ → HostFacts → ℕ → Request
  remove : ℕ → Request

-- A refused request is rolled back.
abbrev pub committed_or {ℓ} : {E A : Type ℓ} → A → Result E A → A
committed_or old (ok new) = new
committed_or old (err e) = old

unfoldable pub answer : (String → String) → Request → Db → Db
answer hash_token (mint now id ttl label raw) db =
    committed_or db (mint_enrollment_token hash_token now id ttl label raw db)
answer hash_token (enroll e) db = committed_or db (enroll_host hash_token e db)
answer hash_token (heartbeat settings host_id facts timestamp) db =
    committed_or db (record_heartbeat settings host_id facts timestamp db)
answer hash_token (remove host_id) db = (delete_host host_id db).1

unfoldable pub answer_all : (String → String) → List Request → Db → Db
unfolding answer
answer_all hash_token [] db = db
answer_all hash_token (r ∷ rs) db = answer_all hash_token rs (answer hash_token r db)

-- The token with this hash has been used.
abbrev is_spent : String → List EnrollmentToken → Bool
is_spent h tokens = elim (find? (has_hash h) tokens) [
  | none ↦ false
  | some t ↦ is_some t.consumed_at
]

is_spent-append :
    (h : String) (tokens : List EnrollmentToken) (t : EnrollmentToken)
    → is_spent h tokens ≡ true
    → is_spent h (tokens ++ t ∷ []) ≡ true
is_spent-append h [] t s = absurd (cc s)
is_spent-append h (x ∷ tokens) t s =
    ground (arith, s, is_spent-append h tokens t, Bool-cases (has_hash h x))

is_spent-consume :
    (h other : String) (host_id now : ℕ) (tokens : List EnrollmentToken)
    → is_spent h tokens ≡ true
    → is_spent h (consume_enrollment_token other host_id now tokens) ≡ true
is_spent-consume h other host_id now [] s = s
is_spent-consume h other host_id now (x ∷ tokens) s = ground (
  arith,
  s,
  is_spent-consume h other host_id now tokens,
  Bool-cases (has_hash h x),
  Bool-cases (has_hash other x),
)

is_spent-update :
    (h : String) (p : EnrollmentToken → Bool) (tokens : List EnrollmentToken)
    → is_spent h (update p without_consumer tokens) ≡ is_spent h tokens
is_spent-update h p [] = refl
is_spent-update h p (x ∷ tokens) =
    ground (arith, is_spent-update h p tokens, Bool-cases (has_hash h x), Bool-cases (p x))

-- What has been found is used once it is consumed.
is_spent-found :
    (h : String) (host_id now : ℕ) (tokens : List EnrollmentToken)
    → is_some (find? (has_hash h) tokens) ≡ true
    → is_spent h (consume_enrollment_token h host_id now tokens) ≡ true
is_spent-found h host_id now [] f = absurd (cc f)
is_spent-found h host_id now (x ∷ tokens) f =
    ground (arith, f, is_spent-found h host_id now tokens, Bool-cases (has_hash h x))

module _ (hash_token : String → String) where
  enroll_with-tokens :
      (e : Enrollment) (db : Db) {db' : Db}
      → enroll_with hash_token e db ≡ ok db'
      → db'.enrollment_tokens
        ≡ consume_enrollment_token
            (hash_token e.raw_enrollment_token)
            e.host_id
            e.now
            db.enrollment_tokens
  unfolding enroll_with
  enroll_with-tokens e db {db'} h =
      let x =
        >>=-eq-ok
          (replace_credential_for_host e.host_id (hash_token e.raw_agent_token) e.now
            db.credentials)
          _ h in
      sym (ap (λ r. (committed_or db r).enrollment_tokens) x.2)

  -- An enrollment that succeeds has found a token that is not used, and goes through.
  pub enroll_host-ok :
      (e : Enrollment) (db : Db) {db' : Db}
      → enroll_host hash_token e db ≡ ok db'
      → (is_some (find? (has_hash (hash_token e.raw_enrollment_token)) db.enrollment_tokens) ≡ true)
        × (enroll_with hash_token e db ≡ ok db')
  unfolding enroll_host enroll_token
  enroll_host-ok e db {db'} h =
      from_token (find? (has_hash (hash_token e.raw_enrollment_token)) db.enrollment_tokens) h
    where
      from_token :
          (t : Option EnrollmentToken)
          → enroll_token hash_token e t db ≡ ok db'
          → (is_some t ≡ true) × (enroll_with hash_token e db ≡ ok db')
      from_token none k = absurd (cc k)
      from_token (some t) k = (refl, ground (arith, k))

  is_spent-answer :
      (h : String) (r : Request) (db : Db)
      → is_spent h db.enrollment_tokens ≡ true
      → is_spent h (answer hash_token r db).enrollment_tokens ≡ true
  unfolding answer mint_enrollment_token record_heartbeat heartbeat_over delete_host purged_if
      purged
  is_spent-answer h (mint now id ttl label raw) db s =
      for_mint (any (has_hash (hash_token raw)) db.enrollment_tokens)
    where
      for_mint :
          (b : Bool)
          → is_spent h
              (committed_or db (
                if b
                then err integrity_error
                else ok (record db {
                  enrollment_tokens =
                      db.enrollment_tokens
                      ++ record {
                        id = id;
                        token_hash = hash_token raw;
                        label = label;
                        created_at = now;
                        expires_at = expiry now ttl;
                        consumed_at = none;
                        consumed_by_host_id = none;
                      }
                        ∷ [];
                }))).enrollment_tokens
            ≡ true
      for_mint true = s
      for_mint false = is_spent-append h db.enrollment_tokens _ s
  is_spent-answer h (enroll e) db s = for_result (enroll_host hash_token e db) refl
    where
      for_result :
          (x : Result EnrollmentError Db)
          → enroll_host hash_token e db ≡ x
          → is_spent h (committed_or db x).enrollment_tokens ≡ true
      for_result (err e') k = s
      for_result (ok db') k =
          ap (is_spent h) (enroll_with-tokens e db (enroll_host-ok e db k).1)
          ∙ is_spent-consume h (hash_token e.raw_enrollment_token) e.host_id e.now
              db.enrollment_tokens s
  is_spent-answer h (heartbeat settings host_id facts timestamp) db s =
      for_state (is_decommissioned_host (host_by_id host_id db.hosts))
    where
      for_state :
          (b : Bool)
          → is_spent h
              (committed_or db (
                if b
                then err host_decommissioned
                else ok (
                    heartbeat_over settings host_id facts timestamp
                      (host_by_id host_id db.hosts)
                      db))).enrollment_tokens
            ≡ true
      for_state true = s
      for_state false = s
  is_spent-answer h (remove host_id) db s = for_host (host_by_id host_id db.hosts)
    where
      for_host : (o : Option Host) → is_spent h (purged_if host_id db o).1.enrollment_tokens ≡ true
      for_host none = s
      for_host (some host) = is_spent-update h (consumed_by host_id) db.enrollment_tokens ∙ s

  is_spent-answer_all :
      (h : String) (rs : List Request) (db : Db)
      → is_spent h db.enrollment_tokens ≡ true
      → is_spent h (answer_all hash_token rs db).enrollment_tokens ≡ true
  unfolding answer_all
  is_spent-answer_all h [] db s = s
  is_spent-answer_all h (r ∷ rs) db s =
      is_spent-answer_all h rs (answer hash_token r db) (is_spent-answer h r db s)

  is_spent-refused :
      (e : Enrollment) (db : Db)
      → is_spent (hash_token e.raw_enrollment_token) db.enrollment_tokens ≡ true
      → enroll_host hash_token e db ≡ err token_consumed
  unfolding enroll_host enroll_token
  is_spent-refused e db s =
      from_token (find? (has_hash (hash_token e.raw_enrollment_token)) db.enrollment_tokens) s
    where
      from_token :
          (t : Option EnrollmentToken)
          → (elim t [ none ↦ false | some t' ↦ is_some t'.consumed_at ]) ≡ true
          → enroll_token hash_token e t db ≡ err token_consumed
      from_token none k = absurd (cc k)
      from_token (some t) k = ground (arith, k)

-- An enrollment token enrolls once: after an enrollment with it has succeeded, and any sequence of
-- minted tokens, enrollments, heartbeats and removals of host records since, a further enrollment
-- with a token of the same hash, of any host at any time, is refused as consumed.
pub enroll_host_once :
    (hash_token : String → String) (e again : Enrollment) (db : Db) {db' : Db} (rs : List Request)
    → enroll_host hash_token e db ≡ ok db'
    → hash_token again.raw_enrollment_token ≡ hash_token e.raw_enrollment_token
    → enroll_host hash_token again (answer_all hash_token rs db') ≡ err token_consumed
enroll_host_once hash_token e again db {db'} rs done same =
    let k = enroll_host-ok hash_token e db done in
    let h = hash_token e.raw_enrollment_token in
    is_spent-refused hash_token again (answer_all hash_token rs db') (
      ap (λ x. is_spent x (answer_all hash_token rs db').enrollment_tokens) same
      ∙ is_spent-answer_all hash_token h rs db' (
          ap (is_spent h) (enroll_with-tokens hash_token e db k.1)
          ∙ is_spent-found h e.host_id e.now db.enrollment_tokens k.0))
