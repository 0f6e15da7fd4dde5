-- ===== src/Central/Tests/Allocating.antt =====
-- The theorems on allocations, the search and reservations at concrete inputs.
use port_forge.Prelude.{
  ◌≤◌, none, some, [], true, false, refl, ◌≡◌, arith, any, select, length, find?, is_truthy, not,
  ◌==◌, ◌&&◌,
}
use port_forge.Prelude.Result.{Result, ok, is_ok, value, eq-value}
use port_forge.Central.Vocabulary.{tcp, AllocationStatus}
use port_forge.Central.Tables.{Db, Allocation}
use port_forge.Central.Allocations.{
  create_allocation, AllocationOut, AllocationError, hash_payload, release_allocation, as_released,
  hash_eq, AllocationIn, validate_purposes, belongs_to,
}
use port_forge.Central.Allocations.Exclusive.{
  Added, create_allocation-Added, create_allocation-HasUniqueBindings,
}
use port_forge.Central.Allocations.Replay.{Retried, create_allocation-Retried}
use port_forge.Central.Allocations.Release.{release_allocation_active}
use port_forge.Central.Search.{find_available_port, range_of, default_range}
use port_forge.Central.Search.Candidates.{FitsLimit, IsLeastFree, find_available_port-IsLeastFree}
use port_forge.Central.Reservations.{create_reservation}
use port_forge.Central.Reservations.Unique.{HasUniqueBindings, create_reservation-HasUniqueBindings}
use port_forge.Central.Samples.{env, db, digest, request, reservation_in}

abbrev first_call : Result AllocationError (AllocationOut × Db)
unfolding create_allocation
first_call = create_allocation digest env request db

allocated : is_ok (create_allocation digest env request db) ≡ true
unfolding create_allocation
allocated = refl

abbrev result : AllocationOut × Db
result = value (create_allocation digest env request db) allocated

not_replayed : result.0.idempotent_replay ≡ false
unfolding create_allocation allocated
not_replayed = refl

fits : FitsLimit 1 db.reservations
fits = ground arith

unique : HasUniqueBindings db.reservations
unique b = ground arith

create_allocation-Added_example : Added digest env request db result.0 result.1
create_allocation-Added_example =
    create_allocation-Added digest env request db {out = result.0} {db' = result.1} fits
      (eq-value (create_allocation digest env request db) allocated) not_replayed

create_allocation-HasUniqueBindings_example : HasUniqueBindings result.1.reservations
create_allocation-HasUniqueBindings_example =
    create_allocation-HasUniqueBindings digest env request db {out = result.0} {db' = result.1} fits
      unique (eq-value (create_allocation digest env request db) allocated)

keyed : is_truthy request.request_id ≡ true
keyed = ground arith

-- The request again, for another project.
abbrev other : AllocationIn
other = record request { project = "blog" }

valid : validate_purposes other.requests ≡ ok tt
unfolding validate_purposes default_range
valid = refl

in_redis : range_of "redis" none ≡ some (6379, 6399)
unfolding default_range
in_redis = refl

create_allocation-Retried_example :
    Retried
      (hash_eq result.0.allocation.request_payload_hash (hash_payload digest other))
      result.0.allocation
      result.1
      (create_allocation digest env other result.1)
create_allocation-Retried_example =
    create_allocation-Retried digest env env request other db {out = result.0} {db' = result.1} fits
      keyed (eq-value (create_allocation digest env request db) allocated) refl valid

find_available_port-IsLeastFree_example :
    IsLeastFree 1 tcp [] (6379, 6399) db (find_available_port 1 "redis" tcp [] none db).port
find_available_port-IsLeastFree_example =
    find_available_port-IsLeastFree 1 "redis" tcp [] none (6379, 6399) db fits in_redis

-- The allocation that the first call made, released.
abbrev bundle : Allocation
bundle = result.0.allocation

released : is_ok (release_allocation env bundle.id result.1) ≡ true
unfolding release_allocation allocated
released = refl

abbrev after_release : AllocationOut × Db
after_release = value (release_allocation env bundle.id result.1) released

bundle_found : find? (λ b. b.id == bundle.id) result.1.allocations ≡ some bundle
unfolding create_allocation allocated
bundle_found = refl

bundle_active : bundle.status ≡ AllocationStatus.active
unfolding create_allocation allocated
bundle_active = refl

bundle_fits : length (select (λ r. r.host_id == bundle.host_id) result.1.reservations) ≤ 1000
unfolding create_allocation allocated
bundle_fits = ground arith

release_allocation_active_example :
    (find? (λ b. b.id == bundle.id) after_release.1.allocations ≡ some (as_released env.now bundle))
    × (any (λ r. r.host_id == bundle.host_id && belongs_to bundle.id r) after_release.1.reservations
        ≡ false)
    × (after_release.1.reservations
        ≡ select
            (λ x. not (
              any
                (λ r. (r.host_id == bundle.host_id && belongs_to bundle.id r) && r.id == x.id)
                result.1.reservations))
            result.1.reservations)
release_allocation_active_example =
    release_allocation_active env bundle.id result.1 bundle {out = after_release.0}
      {db' = after_release.1} bundle_found bundle_active bundle_fits
      (eq-value (release_allocation env bundle.id result.1) released)

reserved : is_ok (create_reservation env reservation_in db) ≡ true
unfolding create_reservation
reserved = refl

create_reservation-HasUniqueBindings_example :
    HasUniqueBindings (value (create_reservation env reservation_in db) reserved).1.reservations
create_reservation-HasUniqueBindings_example =
    create_reservation-HasUniqueBindings env reservation_in db unique
      (eq-value (create_reservation env reservation_in db) reserved)
