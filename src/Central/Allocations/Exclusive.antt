-- ===== src/Central/Allocations/Exclusive.antt =====
-- No bundle takes a port that is taken, and every requested item gets one reservation.
use mathlib.Core.List.{append-nil, append_assoc}
use port_forge.Prelude.{
  ℕ, Option, none, some, List, [], ◌∷◌, ◌++◌, Bool, true, false, ◌&&◌, ◌==◌, ◌≡◌, refl, ap, sym,
  ◌∙◌, arith, any, any-append, select, length,
}
use port_forge.Prelude.Result.{ok}
use port_forge.Central.Tables.{CentralReservation, Allocation, Db, Env}
use port_forge.Central.Reservations.{binding_of, binding_eq}
use port_forge.Central.Reservations.Unique.{HasUniqueBindings, append-HasUniqueBindings}
use port_forge.Central.Search.{member, is_reserved}
use port_forge.Central.Search.Candidates.{FitsLimit, is_taken}
use port_forge.Central.Allocations.{
  AllocationIn, AllocationOut, Canonical, create_allocation, add_allocation, by_request_id,
}
use port_forge.Central.Allocations.Candidates.{resolve_all-IsResolved}
use port_forge.Central.Allocations.Bundle.{
  AreExclusive, Serves, AreRowsOf-AreExclusive, IsAllocated, insert_all-Inserted,
  create_allocation-Outcome, Outcome,
}

module _ (digest : Canonical → ℕ) (env : Env) (p : AllocationIn) (db : Db) where
  -- What an allocated bundle has added to the database.
  pub record Added (out : AllocationOut) (db' : Db) : Type 0 where
    pub rows : List CentralReservation
    pub reservations : db'.reservations ≡ db.reservations ++ rows
    pub exclusive : AreExclusive p.host_id db [] rows
    pub serves : Serves p out.allocation.id p.requests rows
    pub allocations : db'.allocations ≡ db.allocations ++ out.allocation ∷ []
    pub hosts : db'.hosts ≡ db.hosts

  pub IsAllocated-Added :
      {out : AllocationOut} {db' : Db}
      → FitsLimit p.host_id db.reservations
      → IsAllocated digest env p db out db'
      → Added out db'
  unfolding add_allocation
  IsAllocated-Added {out} {db'} fits h =
      let r = h.resolution in
      let good = resolve_all-IsResolved env p.host_id p.requests [] _ db {r = r} fits h.resolves in
      let done =
        insert_all-Inserted env p out.allocation.id r.resolved
          (add_allocation out.allocation r.db) in
      let e : done.after ≡ db' = cc (sym done.succeeds ∙ h.inserts) in
      let both =
        AreRowsOf-AreExclusive p out.allocation.id db [] r.resolved done.rows done.serve
          good.fresh in
      record {
        rows = done.rows;
        reservations =
            sym (ap (λ (d : Db). d.reservations) e)
            ∙ done.added
            ∙ ap (λ old. old ++ done.rows) good.frame.reservations;
        exclusive = both.0;
        serves = rw good.items_kept at both.1;
        allocations =
            sym (ap (λ (d : Db). d.allocations) e)
            ∙ done.allocations
            ∙ ap (λ old. old ++ out.allocation ∷ []) good.frame.allocations;
        hosts = sym (ap (λ (d : Db). d.hosts) e) ∙ done.hosts ∙ good.frame.hosts;
      }

  -- A bundle that is allocated, and not replayed, adds exactly one reservation for each requested
  -- item, in order, on the requested host, each for the item's name, purpose and protocol and
  -- bound to the new allocation. The port of each was neither observed in use nor reserved with
  -- that protocol on the host before, and no two of them are equal. This holds for a host whose
  -- reservations stay within the 10,000 rows that the queries read.
  pub create_allocation-Added :
      {out : AllocationOut} {db' : Db}
      → FitsLimit p.host_id db.reservations
      → create_allocation digest env p db ≡ ok (out, db')
      → out.idempotent_replay ≡ false
      → Added out db'
  create_allocation-Added {out} {db'} fits h new =
      by_key (by_request_id p.request_id db.allocations)
        (create_allocation-Outcome digest env p db h)
    where
      by_key : (o : Option Allocation) → Outcome digest env p db out db' o → Added out db'
      by_key none k = IsAllocated-Added fits k.0
      by_key (some a) k = absurd (cc (k.1, new))

-- A table in which a test finds no row has no row that passes a stronger one.
none_selected {ℓ} :
    {A : Type ℓ} (p q : A → Bool) (xs : List A)
    → ((x : A) → p x ≡ true → q x ≡ true)
    → any q xs ≡ false
    → length (select p xs) ≡ 0
none_selected p q [] imp h = refl
none_selected p q (x ∷ xs) imp h = ground (arith, imp x, none_selected p q xs imp)

module _ (host_id : ℕ) (db : Db) where
  -- What is free in the database and not claimed is held by no row of the table.
  IsUpToDate : List ℕ → List CentralReservation → Type 0
  IsUpToDate claimed table =
      (r : CentralReservation)
      → r.host_id ≡ host_id
      → is_taken host_id r.port r.protocol db ≡ false
      → member r.port claimed ≡ false
      → any (λ x. x.host_id == host_id && is_reserved r.port r.protocol x) table ≡ false

  IsUpToDate-append :
      (claimed : List ℕ) (table : List CentralReservation) (new : CentralReservation)
      → IsUpToDate claimed table
      → IsUpToDate (new.port ∷ claimed) (table ++ new ∷ [])
  unfolding IsUpToDate
  IsUpToDate-append claimed table new h r own free unclaimed = ground (
    arith,
    any-append (λ (x : CentralReservation). x.host_id == host_id && is_reserved r.port r.protocol x)
        table (new ∷ []),
    h r own free,
  )

  AreExclusive-HasUniqueBindings :
      (claimed : List ℕ) (table rows : List CentralReservation)
      → HasUniqueBindings table
      → IsUpToDate claimed table
      → AreExclusive host_id db claimed rows
      → HasUniqueBindings (table ++ rows)
  AreExclusive-HasUniqueBindings claimed table [] u h e = rw append-nil u
  AreExclusive-HasUniqueBindings claimed table (r ∷ rows) u h (own, free, new, e) =
      rw (← append_assoc table (r ∷ []) rows) (
        AreExclusive-HasUniqueBindings (r.port ∷ claimed) (table ++ r ∷ []) rows
          (append-HasUniqueBindings table r u (
            none_selected (λ x. binding_eq (binding_of x) (binding_of r))
              (λ x. x.host_id == host_id && is_reserved r.port r.protocol x) table
              (λ x same. ground arith) (unfold IsUpToDate in h r own free new)))
          (IsUpToDate-append claimed table r h) e)

IsUpToDate-refl : (host_id : ℕ) (db : Db) → IsUpToDate host_id db [] db.reservations
unfolding IsUpToDate
IsUpToDate-refl host_id db r own free unclaimed = ground arith

-- `create_allocation` keeps every binding, that is host, port, protocol and bind address, reserved
-- at most once, on a host whose reservations stay within the 10,000 rows that the queries read.
pub create_allocation-HasUniqueBindings :
    (digest : Canonical → ℕ) (env : Env) (p : AllocationIn) (db : Db) {out : AllocationOut}
    {db' : Db}
    → FitsLimit p.host_id db.reservations
    → HasUniqueBindings db.reservations
    → create_allocation digest env p db ≡ ok (out, db')
    → HasUniqueBindings db'.reservations
create_allocation-HasUniqueBindings digest env p db {out} {db'} fits u h =
    by_key (by_request_id p.request_id db.allocations) (create_allocation-Outcome digest env p db h)
  where
    by_key :
        (o : Option Allocation)
        → Outcome digest env p db out db' o
        → HasUniqueBindings db'.reservations
    by_key none k =
        let added = IsAllocated-Added digest env p db {out = out} {db' = db'} fits k.0 in
        rw added.reservations (
          AreExclusive-HasUniqueBindings p.host_id db [] db.reservations added.rows u
            (IsUpToDate-refl p.host_id db) added.exclusive)
    by_key (some a) k = rw k.0 u
