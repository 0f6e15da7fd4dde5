-- ===== src/Central/Allocations/Replay.antt =====
-- Idempotency: what a later request with a key that has been used gets.
use port_forge.Prelude.{
  ℕ, Option, none, some, List, [], ◌∷◌, ◌++◌, Bool, true, false, ◌≡◌, refl, ap, ◌∙◌, inl, inr,
  arith, opt_str_eq, is_truthy, find?, ==-refl, Option-cases, opt_str_eq_iff,
}
use port_forge.Prelude.Result.{Result, ok, err, >>=-eq-ok}
use port_forge.Central.Tables.{Allocation, Db, Env, Host}
use port_forge.Central.Probes.{host_by_id}
use port_forge.Central.Search.Candidates.{FitsLimit}
use port_forge.Central.Allocations.{
  AllocationIn, AllocationError, AllocationOut, Canonical, create_allocation, by_request_id,
  idempotency_conflict, hash_payload, hash_eq, validate_purposes, replay, create_keyed,
  build_allocation_out, host_of,
}
use port_forge.Central.Allocations.Bundle.{create_allocation-Outcome, Outcome, IsAllocated}
use port_forge.Central.Allocations.Exclusive.{IsAllocated-Added}

-- A row that is appended is found where no row was found before.
find?-append {ℓ} :
    {A : Type ℓ} (p : A → Bool) (xs : List A) (x : A)
    → find? p xs ≡ none
    → p x ≡ true
    → find? p (xs ++ x ∷ []) ≡ some x
find?-append p [] x h e = ground arith
find?-append p (y ∷ xs) x h e = ground (arith, find?-append p xs x)

-- The key of a request has been used for the allocation `a`, with the same payload.
record IsUsed (digest : Canonical → ℕ) (p : AllocationIn) (a : Allocation) (db : Db) : Type 0 where
  pub found : by_request_id p.request_id db.allocations ≡ some a
  pub same : hash_eq a.request_payload_hash (hash_payload digest p) ≡ true
  pub host : Host
  pub known : host_by_id a.host_id db.hosts ≡ some host

module _ (digest : Canonical → ℕ) (env : Env) (p : AllocationIn) (db : Db) {out : AllocationOut}
    {db' : Db} (fits : FitsLimit p.host_id db.reservations) (keyed : is_truthy p.request_id ≡ true)
    (h : create_allocation digest env p db ≡ ok (out, db')) where
  allocated-IsUsed :
      by_request_id p.request_id db.allocations ≡ none
      → IsAllocated digest env p db out db'
      → IsUsed digest p out.allocation db'
  allocated-IsUsed unused k =
      let added = IsAllocated-Added digest env p db {out = out} {db' = db'} fits k in
      record {
        found =
            rw (added.allocations, keyed)
              (find?-append (λ a. opt_str_eq a.request_id p.request_id) db.allocations
                out.allocation (ground arith)
                (rw k.allocation_is ((opt_str_eq_iff p.request_id p.request_id).1 refl)));
        same = rw (k.allocation_is, keyed) (==-refl (hash_payload digest p));
        host = k.host;
        known = rw (k.allocation_is, added.hosts) k.known;
      }

  replayed-IsUsed :
      (a : Allocation)
      → by_request_id p.request_id db.allocations ≡ some a
      → Outcome digest env p db out db' (some a)
      → create_keyed digest env p db (some a) ≡ ok (out, db')
      → IsUsed digest p out.allocation db'
  unfolding create_keyed replay
  replayed-IsUsed a used (same, _, e) k =
      let matching : hash_eq a.request_payload_hash (hash_payload digest p) ≡ true = ground arith in
      elim (Option-cases (host_by_id a.host_id db.hosts)) [
        | inl gone ↦ absurd (ground arith)
        | inr (host, known) ↦
            rw (e, same) (record { found = used; same = matching; host = host; known = known })
      ]

  used : IsUsed digest p out.allocation db'
  unfolding create_allocation
  used =
      by_key (by_request_id p.request_id db.allocations) refl
        (create_allocation-Outcome digest env p db h)
        (>>=-eq-ok (validate_purposes p.requests)
          (λ _. create_keyed digest env p db (by_request_id p.request_id db.allocations)) h).2
    where
      by_key :
          (o : Option Allocation)
          → by_request_id p.request_id db.allocations ≡ o
          → Outcome digest env p db out db' o
          → create_keyed digest env p db o ≡ ok (out, db')
          → IsUsed digest p out.allocation db'
      by_key none e k c = allocated-IsUsed e k.0
      by_key (some a) e k c = replayed-IsUsed a e k c

-- What a request whose key is in use gets: the allocation of that key again, marked as a replay,
-- and no change, if the payloads hash alike, and else the conflict error.
abbrev pub Retried : Bool → Allocation → Db → Result AllocationError (AllocationOut × Db) → Type 0
Retried true a db (ok (out, db')) =
    (out.allocation ≡ a) × (out.idempotent_replay ≡ true) × (db' ≡ db)
Retried true a db (err e) = ⊥
Retried false a db r = r ≡ err idempotency_conflict

host_of-some :
    (id : ℕ) (db : Db) (host : Host) → host_by_id id db.hosts ≡ some host → host_of id db ≡ ok host
host_of-some id db host h = ground arith

create_keyed-Retried :
    (digest : Canonical → ℕ) (env : Env) (q : AllocationIn) (a : Allocation) (db : Db) (host : Host)
    (b : Bool)
    → host_by_id a.host_id db.hosts ≡ some host
    → hash_eq a.request_payload_hash (hash_payload digest q) ≡ b
    → Retried b a db (create_keyed digest env q db (some a))
unfolding create_keyed replay build_allocation_out
create_keyed-Retried digest env q a db host true known same =
    rw (same, replay, host_of-some a.host_id db host known) (refl, refl, refl)
create_keyed-Retried digest env q a db host false known other = rw (other, replay) refl

-- After a request with a key has succeeded, a later request with that key and known purposes gets
-- the same allocation, marked as a replay, and changes nothing, if its payload has the hash of the
-- one stored; if not, it gets the conflict error. (For hosts whose reservations stay within the
-- 10,000 rows that the queries read.)
pub create_allocation-Retried :
    (digest : Canonical → ℕ) (env env' : Env) (p q : AllocationIn) (db : Db) {out : AllocationOut}
    {db' : Db}
    → FitsLimit p.host_id db.reservations
    → is_truthy p.request_id ≡ true
    → create_allocation digest env p db ≡ ok (out, db')
    → q.request_id ≡ p.request_id
    → validate_purposes q.requests ≡ ok tt
    → Retried
        (hash_eq out.allocation.request_payload_hash (hash_payload digest q))
        out.allocation
        db'
        (create_allocation digest env' q db')
unfolding create_allocation
create_allocation-Retried digest env env' p q db {out} {db'} fits keyed h key valid =
    let u = used digest env p db fits keyed h in
    let found : by_request_id q.request_id db'.allocations ≡ some out.allocation =
      ap (λ k. by_request_id k db'.allocations) key ∙ u.found in
    rw (valid, found)
      (create_keyed-Retried digest env' q out.allocation db' u.host
        (hash_eq out.allocation.request_payload_hash (hash_payload digest q)) u.known refl)

-- Repeating a request with a key, with the same payload, returns the first allocation as a replay
-- and changes nothing. (For hosts whose reservations stay within the 10,000 rows that the queries
-- read.)
pub create_allocation_idempotent :
    (digest : Canonical → ℕ) (env env' : Env) (p : AllocationIn) (db : Db) {out : AllocationOut}
    {db' : Db}
    → FitsLimit p.host_id db.reservations
    → is_truthy p.request_id ≡ true
    → create_allocation digest env p db ≡ ok (out, db')
    → Retried true out.allocation db' (create_allocation digest env' p db')
unfolding create_allocation
create_allocation_idempotent digest env env' p db {out} {db'} fits keyed h =
    let u = used digest env p db fits keyed h in
    let (_, valid, _) =
      >>=-eq-ok (validate_purposes p.requests)
        (λ _. create_keyed digest env p db (by_request_id p.request_id db.allocations)) h in
    rw (valid, u.found)
      (create_keyed-Retried digest env' p out.allocation db' u.host true u.known u.same)
