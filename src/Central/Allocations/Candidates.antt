-- ===== src/Central/Allocations/Candidates.antt =====
-- `_resolve_candidate` and the loop over a bundle's items: the ports that are chosen are free, and
-- pairwise different.
use mathlib.Core.List.{append-nil}
use port_forge.Prelude.{
  ℕ, String, Option, none, some, List, [], ◌∷◌, ◌++◌, map, Bool, true, false, ◌&&◌, ◌||◌, ◌==◌, ◌≡◌,
  refl, ap, sym, ◌∙◌, inl, inr, arith, any-append, any-select, Option-cases, Bool-cases, ap,
  if◌then◌else◌,
}
use port_forge.Prelude.Result.{ok, >>=-eq-ok}
use port_forge.Central.Vocabulary.{Protocol, protocol_eq}
use port_forge.Central.Tables.{CurrentPort, Db, Env}
use port_forge.Central.Probes.{BindProbe, not_remote_capable, any_address, get_probe_evidence}
use port_forge.Central.Probes.Queue.{SameButProbes, SameButProbes-refl, queue_probe-SameButProbes}
use port_forge.Central.Search.{member, row_limit, is_reserved, find_available_port, range_of}
use port_forge.Central.Search.Candidates.{
  FitsLimit, is_taken, IsLeastFree, any-list_for_host, find_available_port-IsLeastFree,
  find_available_port-no_range,
}
use port_forge.Central.Search.Resolve.{resolve-IsSound}
use port_forge.Central.Allocations.{
  AllocationRequestItem, Candidate, Resolution, with_first, stronger, port_is_free, take_preferred,
  search_candidate, resolve_candidate, resolve_all,
}

-- A port, if any, that is not taken on the host and not claimed by the bundle.
abbrev pub IsFreePort : ℕ → Protocol → List ℕ → Db → Option ℕ → Type 0
IsFreePort host_id protocol claimed db none = Unit
IsFreePort host_id protocol claimed db (some p) =
    (is_taken host_id p protocol db ≡ false) × (member p claimed ≡ false)

gate :
    (a b c d : Bool)
    → (if a then false else if b then false else if c then false else d) ≡ true
    → (a ≡ false) × (b ≡ false) × (c ≡ false)
gate a b c d h = ground arith

or_false : (a b : Bool) → a ≡ false → b ≡ false → (a || b) ≡ false
or_false a b h k = ground arith

module _ (host_id : ℕ) (protocol : Protocol) (claimed : List ℕ) (db : Db) where
  IsLeastFree-IsFreePort :
      (extra : List ℕ) (range : ℕ × ℕ) (o : Option ℕ)
      → IsLeastFree host_id protocol (claimed ++ extra) range db o
      → IsFreePort host_id protocol claimed db o
  IsLeastFree-IsFreePort extra range none h = tt
  IsLeastFree-IsFreePort extra range (some p) h =
      (h.2, ground (arith, h.3, any-append (λ m. m == p) claimed extra))

  find_available_port-IsFreePort :
      (service_type : String) (requested : Option (ℕ × ℕ)) (extra : List ℕ)
      → FitsLimit host_id db.reservations
      → IsFreePort host_id protocol claimed db
          (find_available_port host_id service_type protocol (claimed ++ extra) requested db).port
  find_available_port-IsFreePort service_type requested extra fits =
      elim (Option-cases (range_of service_type requested)) [
        | inl e ↦
            rw
              (find_available_port-no_range host_id service_type protocol (claimed ++ extra)
                requested db e)
              tt
        | inr (range, e) ↦
            IsLeastFree-IsFreePort extra range
              (find_available_port host_id service_type protocol (claimed ++ extra) requested
                db).port
              (find_available_port-IsLeastFree host_id service_type protocol (claimed ++ extra)
                requested range db fits e)
      ]

  port_is_free-IsFreePort :
      (env : Env) (p : ℕ)
      → FitsLimit host_id db.reservations
      → port_is_free env host_id p protocol claimed db ≡ true
      → IsFreePort host_id protocol claimed db (some p)
  unfolding port_is_free
  port_is_free-IsFreePort env p fits h =
      let (unclaimed, unobserved, unreserved) = gate _ _ _ _ h in
      (
        or_false _ _
            (sym (
                any-select
                  (λ (row : CurrentPort). row.port == p && protocol_eq row.protocol protocol)
                  (λ row. row.host_id == host_id) db.ports)
              ∙ unobserved)
            (sym (any-list_for_host (is_reserved p protocol) host_id row_limit db.reservations fits)
              ∙ unreserved),
        unclaimed,
      )

-- Of what a candidate says: its port is free, and only probes were written.
pub record IsGoodCandidate (host_id : ℕ) (protocol : Protocol) (claimed : List ℕ) (db : Db)
    (c : Candidate) : Type 0 where
  pub free : IsFreePort host_id protocol claimed db c.0
  pub frame : SameButProbes db c.2

module _ (env : Env) (host_id : ℕ) (claimed : List ℕ) (db : Db) where
  take_preferred-IsGoodCandidate :
      (protocol : Protocol) (p : ℕ) (b : BindProbe)
      → IsFreePort host_id protocol claimed db (some p)
      → IsGoodCandidate host_id protocol claimed db (take_preferred env host_id protocol p db b)
  unfolding take_preferred
  take_preferred-IsGoodCandidate protocol p not_remote_capable h = record {
    free = h;
    frame = queue_probe-SameButProbes env host_id p protocol any_address db;
  }
  take_preferred-IsGoodCandidate protocol p _ h = record { free = h; frame = SameButProbes-refl db }

  search_candidate-IsGoodCandidate :
      (item : AllocationRequestItem)
      → FitsLimit host_id db.reservations
      → IsGoodCandidate host_id item.protocol claimed db
          (search_candidate env host_id item claimed db)
  unfolding search_candidate
  search_candidate-IsGoodCandidate item fits =
      let sound =
        resolve-IsSound env host_id item.protocol
          (find_available_port host_id item.purpose item.protocol claimed item.requested_range db)
          (λ exclude.
            find_available_port host_id item.purpose item.protocol (claimed ++ exclude)
              item.requested_range db)
          db (IsFreePort host_id item.protocol claimed db)
          (rw append-nil at (
            find_available_port-IsFreePort host_id item.protocol claimed db item.purpose
              item.requested_range [] fits))
          (λ exclude.
            find_available_port-IsFreePort host_id item.protocol claimed db item.purpose
              item.requested_range exclude fits) in
      record { free = sound.port; frame = sound.frame }

  -- The port that an item resolves to is free on the host, and no earlier item of the bundle has
  -- it.
  pub resolve_candidate-IsGoodCandidate :
      (item : AllocationRequestItem)
      → FitsLimit host_id db.reservations
      → IsGoodCandidate host_id item.protocol claimed db
          (resolve_candidate env host_id item claimed db)
  unfolding resolve_candidate
  resolve_candidate-IsGoodCandidate item fits = elim (Option-cases item.preferred_port) [
    | inl e ↦ rw (e, resolve_candidate) (search_candidate-IsGoodCandidate item fits)
    | inr (p, e) ↦ elim (Bool-cases (port_is_free env host_id p item.protocol claimed db)) [
      | inl good ↦
          rw (e, resolve_candidate, good)
            (take_preferred-IsGoodCandidate item.protocol p
              (get_probe_evidence env host_id p item.protocol any_address db)
              (port_is_free-IsFreePort host_id item.protocol claimed db env p fits good))
      | inr bad ↦ rw (e, resolve_candidate, bad) (search_candidate-IsGoodCandidate item fits)
    ]
  ]

-- The ports of a bundle in order: each is free on the host, and none has been claimed before it.
abbrev pub AreFresh : ℕ → Db → List ℕ → List (AllocationRequestItem × ℕ) → Type 0
AreFresh host_id db claimed [] = Unit
AreFresh host_id db claimed ((item, p) ∷ rest) =
    (is_taken host_id p item.protocol db ≡ false)
    × (member p claimed ≡ false)
    × AreFresh host_id db (p ∷ claimed) rest

pub is_taken-SameButProbes :
    (host_id p : ℕ) (protocol : Protocol) (old new : Db)
    → SameButProbes old new
    → is_taken host_id p protocol new ≡ is_taken host_id p protocol old
is_taken-SameButProbes host_id p protocol old new f = rw (f.ports, f.reservations)

AreFresh-SameButProbes :
    (host_id : ℕ) (old new : Db) (claimed : List ℕ) (rs : List (AllocationRequestItem × ℕ))
    → SameButProbes old new
    → AreFresh host_id new claimed rs
    → AreFresh host_id old claimed rs
AreFresh-SameButProbes host_id old new claimed [] f h = tt
AreFresh-SameButProbes host_id old new claimed ((item, p) ∷ rest) f h = (
  sym (is_taken-SameButProbes host_id p item.protocol old new f) ∙ h.0,
  h.1,
  AreFresh-SameButProbes host_id old new (p ∷ claimed) rest f h.2,
)

SameButProbes-trans : (a b c : Db) → SameButProbes a b → SameButProbes b c → SameButProbes a c
SameButProbes-trans a b c f g = record {
  hosts = g.hosts ∙ f.hosts;
  reservations = g.reservations ∙ f.reservations;
  allocations = g.allocations ∙ f.allocations;
  ports = g.ports ∙ f.ports;
  activity = g.activity ∙ f.activity;
  upgrades = g.upgrades ∙ f.upgrades;
}

-- A bundle that resolves: every item has its port, in order, and the ports are fresh.
pub record IsResolved (host_id : ℕ) (db : Db) (claimed : List ℕ)
    (items : List AllocationRequestItem) (r : Resolution) : Type 0 where
  pub items_kept : map (λ (x : AllocationRequestItem × ℕ). x.0) r.resolved ≡ items
  pub fresh : AreFresh host_id db claimed r.resolved
  pub frame : SameButProbes db r.db

module _ (env : Env) (host_id : ℕ) where
  pub resolve_all-IsResolved :
      (items : List AllocationRequestItem) (claimed : List ℕ) (b : BindProbe) (db : Db)
      {r : Resolution}
      → FitsLimit host_id db.reservations
      → resolve_all env host_id items claimed b db ≡ ok r
      → IsResolved host_id db claimed items r
  unfolding resolve_all
  resolve_all-IsResolved [] claimed b db {r} fits h =
      let e : r ≡ record { resolved = []; bind_probe = b; db = db } = cc in
      rw e (record { items_kept = refl; fresh = tt; frame = SameButProbes-refl db })
  resolve_all-IsResolved (item ∷ items) claimed b db {r} fits h =
      let (o, b', db') = resolve_candidate env host_id item claimed db in
      let good = resolve_candidate-IsGoodCandidate env host_id claimed db item fits in
      elim (Option-cases o) [
        | inl e ↦ absurd (cc (e, h))
        | inr (p, e) ↦
            let free : IsFreePort host_id item.protocol claimed db (some p) = rw e at good.free in
            let (r', resolves, same) =
              >>=-eq-ok (resolve_all env host_id items (p ∷ claimed) (stronger b' b) db')
                (λ rest. ok (with_first (item, p) rest)) (rw (e, resolve_all) at h) in
            let ih =
              resolve_all-IsResolved items (p ∷ claimed) (stronger b' b) db' {r = r'}
                (rw good.frame.reservations fits) resolves in
            let whole : r ≡ with_first (item, p) r' = cc same in
            rw whole (record {
              items_kept = ap (◌∷◌ item) ih.items_kept;
              fresh = (
                free.0,
                free.1,
                AreFresh-SameButProbes host_id db db' (p ∷ claimed) r'.resolved good.frame ih.fresh,
              );
              frame = SameButProbes-trans db db' r'.db good.frame ih.frame;
            })
      ]
