-- ===== src/Central/Allocations/Bundle.antt =====
-- `create_allocation`: what a successful call adds to the tables, and what a repeated call returns.
use mathlib.Core.List.{append-nil, append_assoc}
use port_forge.Prelude.{
  ℕ, Option, none, some, List, [], ◌∷◌, ◌++◌, map, true, false, ◌≡◌, refl, ap, sym, ◌∙◌, inl, inr,
  arith, Option-cases, length,
}
use port_forge.Prelude.Result.{Result, ok, >>=-eq-ok}
use port_forge.Central.Tables.{Host, CentralReservation, Allocation, Db, Env}
use port_forge.Central.Reservations.{with_row}
use port_forge.Central.Reservations.Unique.{insert_reservation-null_address}
use port_forge.Central.Probes.{not_remote_capable, host_by_id}
use port_forge.Central.Search.{member}
use port_forge.Central.Search.Candidates.{is_taken}
use port_forge.Central.Allocations.{
  AllocationRequestItem, AllocationIn, AllocationError, AllocationOut, Resolution, Canonical,
  resolve_all, insert_all, allocated_row, add_allocation, allocate, create_keyed, commit_bundle,
  allocate_on, allocate_fresh, replay, create_allocation, new_allocation, by_request_id,
  validate_purposes, ensure_host_allocatable, host_of, build_allocation_out,
}
use port_forge.Central.Allocations.Candidates.{AreFresh}

-- The rows that serve the resolved items of a bundle, one for each item, in order.
abbrev pub AreRowsOf :
    AllocationIn → ℕ → List (AllocationRequestItem × ℕ) → List CentralReservation → Type 0
AreRowsOf p id [] [] = Unit
AreRowsOf p id [] (_ ∷ _) = ⊥
AreRowsOf p id (_ ∷ _) [] = ⊥
AreRowsOf p id ((item, port) ∷ rest) (r ∷ rows) =
    (((n : ℕ) × (r ≡ allocated_row n p id item port))) × AreRowsOf p id rest rows

-- What `insert_all` does: it never fails, and adds the rows.
pub record Inserted (p : AllocationIn) (id : ℕ) (rs : List (AllocationRequestItem × ℕ)) (db : Db)
    (o : Option Db) : Type 0 where
  pub after : Db
  pub succeeds : o ≡ some after
  pub rows : List CentralReservation
  pub added : after.reservations ≡ db.reservations ++ rows
  pub serve : AreRowsOf p id rs rows
  pub allocations : after.allocations ≡ db.allocations
  pub hosts : after.hosts ≡ db.hosts

pub insert_all-Inserted :
    (env : Env) (p : AllocationIn) (id : ℕ) (rs : List (AllocationRequestItem × ℕ)) (db : Db)
    → Inserted p id rs db (insert_all env p id rs db)
unfolding insert_all
insert_all-Inserted env p id [] db = record {
  after = db;
  succeeds = refl;
  rows = [];
  added = sym (append-nil db.reservations);
  serve = tt;
  allocations = refl;
  hosts = refl;
}
insert_all-Inserted env p id ((item, port) ∷ rest) db =
    let n = env.uuid (length db.reservations) in
    let row = allocated_row n p id item port in
    let ih = insert_all-Inserted env p id rest (with_row env.now row db) in
    record {
      after = ih.after;
      succeeds = rw (insert_reservation-null_address env.now row db refl, insert_all) ih.succeeds;
      rows = row ∷ ih.rows;
      added = ih.added ∙ append_assoc db.reservations (row ∷ []) ih.rows;
      serve = ((n, refl), ih.serve);
      allocations = ih.allocations;
      hosts = ih.hosts;
    }

-- Rows of one bundle: each on the host and with a port that was free there, and no port twice.
abbrev pub AreExclusive : ℕ → Db → List ℕ → List CentralReservation → Type 0
AreExclusive host_id db claimed [] = Unit
AreExclusive host_id db claimed (r ∷ rows) =
    (r.host_id ≡ host_id)
    × (is_taken host_id r.port r.protocol db ≡ false)
    × (member r.port claimed ≡ false)
    × AreExclusive host_id db (r.port ∷ claimed) rows

-- One row for each requested item, in order, with what the item asked for.
abbrev pub Serves : AllocationIn → ℕ → List AllocationRequestItem → List CentralReservation → Type 0
Serves p id [] [] = Unit
Serves p id [] (_ ∷ _) = ⊥
Serves p id (_ ∷ _) [] = ⊥
Serves p id (item ∷ items) (r ∷ rows) =
    (r.request_name ≡ some item.name)
    × (r.protocol ≡ item.protocol)
    × (r.purpose ≡ some item.purpose)
    × (r.project ≡ p.project)
    × (r.allocation_id ≡ some id)
    × (r.bind_address ≡ none)
    × Serves p id items rows

pub AreRowsOf-AreExclusive :
    (p : AllocationIn) (id : ℕ) (db : Db) (claimed : List ℕ) (rs : List (AllocationRequestItem × ℕ))
    (rows : List CentralReservation)
    → AreRowsOf p id rs rows
    → AreFresh p.host_id db claimed rs
    → AreExclusive p.host_id db claimed rows × Serves p id (map (λ x. x.0) rs) rows
AreRowsOf-AreExclusive p id db claimed [] [] h f = (tt, tt)
AreRowsOf-AreExclusive p id db claimed [] (_ ∷ _) h f = absurd h
AreRowsOf-AreExclusive p id db claimed (_ ∷ _) [] h f = absurd h
AreRowsOf-AreExclusive p id db claimed ((item, port) ∷ rs) (r ∷ rows) ((n, e), h) (free, new, f) =
    let ih = AreRowsOf-AreExclusive p id db (port ∷ claimed) rs rows h f in
    rw e ((refl, free, new, ih.0), (refl, refl, refl, refl, refl, refl, ih.1))

host_of-ok :
    (id : ℕ) (db : Db) (host : Host) → host_of id db ≡ ok host → host_by_id id db.hosts ≡ some host
host_of-ok id db host h = ground arith

module _ (digest : Canonical → ℕ) (env : Env) (p : AllocationIn) (db : Db) where
  -- A successful call, taken apart: a replay, or a bundle that was allocated.
  pub record IsAllocated (out : AllocationOut) (db' : Db) : Type 0 where
    pub host : Host
    pub known : host_by_id p.host_id db.hosts ≡ some host
    pub resolution : Resolution
    pub resolves : resolve_all env p.host_id p.requests [] not_remote_capable db ≡ ok resolution
    pub allocation_is :
        out.allocation ≡ new_allocation digest (env.uuid (length resolution.db.allocations)) p
    pub inserts :
        insert_all env p out.allocation.id resolution.resolved
          (add_allocation out.allocation resolution.db)
        ≡ some db'

  allocate-IsAllocated :
      (host : Host) {out : AllocationOut} {db' : Db}
      → host_by_id p.host_id db.hosts ≡ some host
      → allocate digest env p host db ≡ ok (out, db')
      → IsAllocated out db' × (out.idempotent_replay ≡ false)
  unfolding allocate commit_bundle build_allocation_out
  allocate-IsAllocated host {out} {db'} known h =
      let (r, resolves, rest) =
        >>=-eq-ok (resolve_all env p.host_id p.requests [] not_remote_capable db)
          (commit_bundle digest env p host) h in
      let a = new_allocation digest (env.uuid (length r.db.allocations)) p in
      let done = insert_all-Inserted env p a.id r.resolved (add_allocation a r.db) in
      let result : Result AllocationError (AllocationOut × Db) =
        ok (build_allocation_out env done.after a host r.bind_probe p.requests, done.after) in
      let e : result ≡ ok (out, db') = rw (done.succeeds, commit_bundle) at rest in
      let e_out : out ≡ build_allocation_out env done.after a host r.bind_probe p.requests = cc e in
      let e_db : done.after ≡ db' = cc e in
      (
        record {
          host = host;
          known = known;
          resolution = r;
          resolves = resolves;
          allocation_is = ap (λ (o : AllocationOut). o.allocation) e_out;
          inserts = rw e_out (done.succeeds ∙ ap some e_db);
        },
        ap (λ (o : AllocationOut). o.idempotent_replay) e_out,
      )

  -- How a successful call ended, by what the request's key was used for before.
  abbrev pub Outcome : AllocationOut → Db → Option Allocation → Type 0
  Outcome out db' none = IsAllocated out db' × (out.idempotent_replay ≡ false)
  Outcome out db' (some a) = (db' ≡ db) × (out.idempotent_replay ≡ true) × (out.allocation ≡ a)

  create_keyed-Outcome :
      {out : AllocationOut} {db' : Db} (o : Option Allocation)
      → create_keyed digest env p db o ≡ ok (out, db')
      → Outcome out db' o
  unfolding create_keyed replay allocate_fresh allocate_on build_allocation_out
  create_keyed-Outcome {out} {db'} (some a) h =
      elim (Option-cases (host_by_id a.host_id db.hosts)) [
        | inl gone ↦ ground arith
        | inr (host, known) ↦ ground arith
      ]
  create_keyed-Outcome {out} {db'} none h =
      let (host, found, rest) = >>=-eq-ok (host_of p.host_id db) (allocate_on digest env p db) h in
      let (_, _, allocated) =
        >>=-eq-ok (ensure_host_allocatable env host) (λ _. allocate digest env p host db) rest in
      allocate-IsAllocated host (host_of-ok p.host_id db host found) allocated

  pub create_allocation-Outcome :
      {out : AllocationOut} {db' : Db}
      → create_allocation digest env p db ≡ ok (out, db')
      → Outcome out db' (by_request_id p.request_id db.allocations)
  unfolding create_allocation
  create_allocation-Outcome {out} {db'} h =
      let (_, _, rest) =
        >>=-eq-ok (validate_purposes p.requests)
          (λ _. create_keyed digest env p db (by_request_id p.request_id db.allocations)) h in
      create_keyed-Outcome (by_request_id p.request_id db.allocations) rest
