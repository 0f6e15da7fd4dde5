-- ===== src/Central/Enrollment/Credentials.antt =====
-- The credentials of a host after an enrollment: the new one authenticates, and it alone.
use mathlib.Core.Path.{subst}
use port_forge.Prelude.{
  ℕ, ◌+◌, String, Option, none, some, List, [], ◌∷◌, ◌++◌, Bool, true, false, not, ◌&&◌, ◌==◌, ◌≡◌,
  refl, sym, ap, ◌∙◌, ◌⊎◌, arith, any, find?, select, length, length-append, select-append, is_some,
  str_eq, eq_iff, ==_iff, Bool-cases, inl, inr, Option-cases, if◌then◌else◌,
}
use port_forge.Prelude.Result.{ok, err, >>=-eq-ok}
use port_forge.Central.Tables.{AgentCredential, Db}
use port_forge.Central.Reservations.{Scalar, nothing, single, multiple, scalar_one_or_none}
use port_forge.Central.Lifecycle.{is_live_credential, revoke_active}
use port_forge.Central.Lifecycle.Decommission.{none_live, one_live}
use port_forge.Central.Enrollment.{
  integrity_error, Enrollment, credential_for, add_credential, replace_over,
  replace_credential_for_host, enroll_with, enroll_host, require_agent,
}
use port_forge.Central.Enrollment.Tokens.{committed_or, enroll_host-ok}

-- The rows of a credential table in which the host has no live one and no row has the hash, with a
-- live row of the hash added.
record IsReplaced (host_id : ℕ) (h : String) (now : ℕ) (before after : List AgentCredential)
    : Type 0 where
  pub kept : List AgentCredential
  pub dead : any (is_live_credential host_id) kept ≡ false
  pub new : any (λ r. str_eq r.token_hash h) kept ≡ false
  pub others :
      (i : ℕ)
      → (i == host_id) ≡ false
      → length (select (is_live_credential i) kept) ≡ length (select (is_live_credential i) before)
  pub eq : after ≡ kept ++ credential_for host_id h now ∷ []

revoke_active-others :
    (host_id now i : ℕ) (rows : List AgentCredential)
    → (i == host_id) ≡ false
    → length (select (is_live_credential i) (revoke_active host_id now rows))
      ≡ length (select (is_live_credential i) rows)
revoke_active-others host_id now i [] e = refl
revoke_active-others host_id now i (c ∷ rows) e = ground (
  arith,
  e,
  ==_iff c.host_id i,
  ==_iff c.host_id host_id,
  ==_iff i host_id,
  revoke_active-others host_id now i rows,
)

add_credential-ok :
    (c : AgentCredential) (rows : List AgentCredential) {after : List AgentCredential}
    → add_credential c rows ≡ ok after
    → (any (λ r. str_eq r.token_hash c.token_hash) rows ≡ false) × (after ≡ rows ++ c ∷ [])
unfolding add_credential
add_credential-ok c rows {after} h = from_test (any (λ r. str_eq r.token_hash c.token_hash) rows) h
  where
    from_test :
        (b : Bool)
        → (if b then err integrity_error else ok (rows ++ c ∷ [])) ≡ ok after
        → (b ≡ false) × (after ≡ rows ++ c ∷ [])
    from_test true k = absurd (cc k)
    from_test false k = (refl, sym (ap (committed_or rows) k))

replace_over-IsReplaced :
    (host_id : ℕ) (h : String) (now : ℕ) (rows : List AgentCredential) (o : Scalar AgentCredential)
    {after : List AgentCredential}
    → scalar_one_or_none (select (is_live_credential host_id) rows) ≡ o
    → replace_over host_id h now rows o ≡ ok after
    → IsReplaced host_id h now rows after
unfolding replace_over
replace_over-IsReplaced host_id h now rows nothing e k =
    let a = add_credential-ok (credential_for host_id h now) rows k in
    record {
      kept = rows;
      dead = none_live host_id rows e;
      new = a.0;
      others = λ i n. refl;
      eq = a.1;
    }
replace_over-IsReplaced host_id h now rows (single c) e k =
    let a = add_credential-ok (credential_for host_id h now) (revoke_active host_id now rows) k in
    record {
      kept = revoke_active host_id now rows;
      dead = one_live host_id now rows e;
      new = a.0;
      others = λ i n. revoke_active-others host_id now i rows n;
      eq = a.1;
    }
replace_over-IsReplaced host_id h now rows multiple e k = absurd (cc k)

-- A lookup after a row was added, for the row's own hash and for another one.
abbrev bearer : String → AgentCredential → Bool
bearer h c = str_eq c.token_hash h && not (is_some c.revoked_at)

find?-added :
    (host_id : ℕ) (h : String) (now : ℕ) (kept : List AgentCredential)
    → any (λ r. str_eq r.token_hash h) kept ≡ false
    → find? (bearer h) (kept ++ credential_for host_id h now ∷ [])
      ≡ some (credential_for host_id h now)
find?-added host_id h now [] n = ground (arith, eq_iff h h)
find?-added host_id h now (r ∷ kept) n = ground (arith, n, find?-added host_id h now kept)

-- Whoever is found by another hash is not of a host without live rows.
find?-other :
    (host_id : ℕ) (h other : String) (now : ℕ) (kept : List AgentCredential) (c : AgentCredential)
    → str_eq h other ≡ false
    → any (is_live_credential host_id) kept ≡ false
    → find? (bearer other) (kept ++ credential_for host_id h now ∷ []) ≡ some c
    → (c.host_id == host_id) ≡ false
find?-other host_id h other now [] c n d f = absurd (ground (arith, n, f))
find?-other host_id h other now (r ∷ kept) c n d f = elim (Bool-cases (bearer other r)) [
  | inl b ↦
      let same : r ≡ c = ground (arith, b, f) in
      ap (λ x. x.host_id == host_id) (sym same) ∙ ground (arith, b, d)
  | inr b ↦ find?-other host_id h other now kept c n (ground (arith, d)) (ground (arith, b, f))
]

length-select-never_any {ℓ} :
    {A : Type ℓ} (p : A → Bool) (xs : List A) → any p xs ≡ false → length (select p xs) ≡ 0
length-select-never_any p [] h = refl
length-select-never_any p (x ∷ xs) h = ground (arith, h, length-select-never_any p xs)

enroll_with-credentials :
    (hash_token : String → String) (e : Enrollment) (db : Db) {db' : Db}
    → enroll_with hash_token e db ≡ ok db'
    → IsReplaced e.host_id (hash_token e.raw_agent_token) e.now db.credentials db'.credentials
unfolding enroll_with replace_credential_for_host
enroll_with-credentials hash_token e db {db'} h =
    let x =
      >>=-eq-ok
        (replace_credential_for_host e.host_id (hash_token e.raw_agent_token) e.now db.credentials)
        _ h in
    let r =
      replace_over-IsReplaced e.host_id (hash_token e.raw_agent_token) e.now db.credentials
        (scalar_one_or_none (select (is_live_credential e.host_id) db.credentials)) refl x.1 in
    subst (λ l. IsReplaced e.host_id (hash_token e.raw_agent_token) e.now db.credentials l)
      (ap (λ d. (committed_or db d).credentials) x.2) r

module _ (hash_token : String → String) (e : Enrollment) (db : Db) {db' : Db} where
  -- After a successful enrollment the host has exactly one live credential and every other host as
  -- many as before; the drawn token authenticates as the host, and no token with another hash does.
  pub enroll_host-credentials :
      enroll_host hash_token e db ≡ ok db'
      → (length (select (is_live_credential e.host_id) db'.credentials) ≡ 1)
        × ((i : ℕ)
            → (i == e.host_id) ≡ false
            → length (select (is_live_credential i) db'.credentials)
              ≡ length (select (is_live_credential i) db.credentials))
        × (require_agent hash_token e.raw_agent_token db' ≡ some e.host_id)
        × ((raw : String)
            → require_agent hash_token raw db' ≡ some e.host_id
            → hash_token raw ≡ hash_token e.raw_agent_token)
  unfolding require_agent
  enroll_host-credentials h =
      let r = enroll_with-credentials hash_token e db (enroll_host-ok hash_token e db h).1 in
      let c = credential_for e.host_id (hash_token e.raw_agent_token) e.now in
      (
        ap (λ l. length (select (is_live_credential e.host_id) l)) r.eq
            ∙ added e.host_id r.kept
            ∙ ground (arith, length-select-never_any (is_live_credential e.host_id) r.kept r.dead),
        λ i n.
            ap (λ l. length (select (is_live_credential i) l)) r.eq
            ∙ added i r.kept
            ∙ ground (arith, r.others i n, ==_iff e.host_id i, ==_iff i e.host_id, n),
        ap (λ l. host_of (find? (bearer (hash_token e.raw_agent_token)) l)) r.eq
            ∙ ap host_of (find?-added e.host_id (hash_token e.raw_agent_token) e.now r.kept r.new),
        λ raw a. only raw r (Option-cases (find? (bearer (hash_token raw)) db'.credentials)) a,
      )
    where
      host_of : Option AgentCredential → Option ℕ
      host_of o = elim o [ none ↦ none | some x ↦ some x.host_id ]

      added :
          (i : ℕ) (kept : List AgentCredential)
          → length (
              select
                (is_live_credential i)
                (kept ++ credential_for e.host_id (hash_token e.raw_agent_token) e.now ∷ []))
            ≡ length (select (is_live_credential i) kept) + (if e.host_id == i then 1 else 0)
      added i kept =
          ap length (
            select-append (is_live_credential i) kept
              (credential_for e.host_id (hash_token e.raw_agent_token) e.now ∷ []))
          ∙ length-append (select (is_live_credential i) kept) (
              select (is_live_credential i)
                (credential_for e.host_id (hash_token e.raw_agent_token) e.now ∷ []))
          ∙ ground arith

      only :
          (raw : String)
          → IsReplaced e.host_id (hash_token e.raw_agent_token) e.now db.credentials db'.credentials
          → (find? (bearer (hash_token raw)) db'.credentials ≡ none)
            ⊎ ((x : AgentCredential) × (find? (bearer (hash_token raw)) db'.credentials ≡ some x))
          → host_of (find? (bearer (hash_token raw)) db'.credentials) ≡ some e.host_id
          → hash_token raw ≡ hash_token e.raw_agent_token
      only raw r (inl n) a = absurd (ground (arith, n, a))
      only raw r (inr f) a =
          elim (Bool-cases (str_eq (hash_token e.raw_agent_token) (hash_token raw))) [
            | inl same ↦ sym ((eq_iff (hash_token e.raw_agent_token) (hash_token raw)).0 same)
            | inr apart ↦
                let other =
                  find?-other e.host_id (hash_token e.raw_agent_token) (hash_token raw) e.now r.kept
                    f.0 apart r.dead (sym (ap (find? (bearer (hash_token raw))) r.eq) ∙ f.1) in
                absurd (ground (arith, other, f.1, a, ==_iff f.0.host_id e.host_id))
          ]
