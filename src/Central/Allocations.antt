-- ===== src/Central/Allocations.antt =====
-- Atomic multi-port allocation bundles: backend/app/services/allocation_service.py over
-- backend/app/repositories/allocation_repository.py. An error carries no database: the transaction
-- is rolled back, and the caller goes on with the one it had. The advisory lock of the host makes
-- a call one step. SHA-256 over the canonical JSON text is the parameter `digest`. The schema has
-- parsed and checked `requested_range`, which stands here as its two bounds, with its text for the
-- payload's hash.
pub mod Candidates
pub mod Bundle
pub mod Exclusive
pub mod Replay
pub mod Release
use port_forge.Prelude.{
  ℕ, zero, suc, ◌+◌, String, Option, none, some, List, [], ◌∷◌, ◌++◌, map, Bool, true, false, not,
  ◌&&◌, ◌||◌, ◌==◌, leb, ltb, any, find?, select, update, take, length, is_some, str_eq, is_truthy,
  opt_str_eq, codes, or_default, if◌then◌else◌,
}
use port_forge.Prelude.Result.{Result, ok, err, ◌>>=◌}
use port_forge.Central.Vocabulary.{
  Protocol, protocol_eq, LifecycleState, AllocationStatus, EventType,
}
use port_forge.Central.Tables.{Host, CentralReservation, Allocation, Db, Env, ActivityEvent}
use port_forge.Central.Health.{
  ℤ, HostHealthState, healthy, stale, offline, derive_health_state, host_health, age_seconds,
}
use port_forge.Central.Reservations.{list_for_host, insert_reservation, delete_row}
use port_forge.Central.Probes.{
  BindProbe, not_remote_capable, verified_free, verified_occupied, expired, unavailable,
  any_address, get_probe_evidence, queue_probe, host_by_id,
}
use port_forge.Central.Search.{
  default_range, member, row_limit, is_reserved, find_available_port, resolve_with_probe_awareness,
}

pub record AllocationRequestItem : Type 0 where
  pub name : String
  pub purpose : String
  pub protocol : Protocol
  pub preferred_port : Option ℕ
  pub requested_range : Option (ℕ × ℕ)
  pub range_text : Option String

pub record AllocationIn : Type 0 where
  pub project : String
  pub host_id : ℕ
  pub requests : List AllocationRequestItem
  pub request_id : Option String

pub data AllocationError : Type 0 where
  invalid_request : List String → AllocationError
  idempotency_conflict host_not_found host_decommissioned host_offline host_stale : AllocationError
  allocation_unavailable : Option String → AllocationError
  allocation_not_found : AllocationError

-- The order of texts, by code points.
abbrev pub codes_le : List ℕ → List ℕ → Bool
codes_le [] _ = true
codes_le (_ ∷ _) [] = false
codes_le (a ∷ as') (b ∷ bs) = ltb a b || (a == b && codes_le as' bs)

abbrev pub insert_by_name :
    AllocationRequestItem → List AllocationRequestItem → List AllocationRequestItem
insert_by_name x [] = x ∷ []
insert_by_name x (y ∷ ys) =
    let rest = insert_by_name x ys in
    if codes_le (codes x.name) (codes y.name) then x ∷ y ∷ ys else y ∷ rest

abbrev pub sort_by_name : List AllocationRequestItem → List AllocationRequestItem
sort_by_name [] = []
sort_by_name (x ∷ xs) = insert_by_name x (sort_by_name xs)

-- What `_hash_payload` hashes: the request, its items in the order of their names.
pub record Canonical : Type 0 where
  pub project : String
  pub host_id : ℕ
  pub requests : List AllocationRequestItem

unfoldable pub hash_payload : (Canonical → ℕ) → AllocationIn → ℕ
hash_payload digest p =
    digest (record { project = p.project; host_id = p.host_id; requests = sort_by_name p.requests })

pub record AllocationValidation : Type 0 where
  pub snapshot_age_seconds : ℤ
  pub host_health_state : HostHealthState
  pub bind_probe : BindProbe

unfoldable pub build_validation : Env → Host → BindProbe → AllocationValidation
unfolding host_health
build_validation env host bind_probe = record {
  snapshot_age_seconds = age_seconds host.last_seen env.now;
  host_health_state = host_health env.settings host env.now;
  bind_probe = bind_probe;
}

abbrev health_error : HostHealthState → Result AllocationError Unit
health_error healthy = ok tt
health_error offline = err host_offline
health_error stale = err host_stale

unfoldable pub ensure_host_allocatable : Env → Host → Result AllocationError Unit
unfolding host_health
ensure_host_allocatable env host = elim host.lifecycle_state [
  | LifecycleState.decommissioned ↦ err host_decommissioned
  | LifecycleState.active ↦ health_error (host_health env.settings host env.now)
]

pub record AllocationEntry : Type 0 where
  pub name : String
  pub purpose : String
  pub protocol : Protocol
  pub port : ℕ
  pub reservation_id : ℕ
  pub bind_address : Option String
  pub bind_probe : BindProbe
  pub requested_range : Option (ℕ × ℕ)

pub record AllocationOut : Type 0 where
  pub idempotent_replay : Bool
  pub allocation : Allocation
  pub hostname : String
  pub entries : List AllocationEntry
  pub validation : AllocationValidation

abbrev pub own_row_limit : ℕ
own_row_limit = 1000

abbrev pub belongs_to : ℕ → CentralReservation → Bool
belongs_to id r = elim r.allocation_id [ none ↦ false | some a ↦ a == id ]

-- `[r for r in rows if r.allocation_id == allocation.id]`, of the first 1000 rows of the host.
unfoldable pub own_rows : Allocation → Db → List CentralReservation
unfolding list_for_host
own_rows a db = select (belongs_to a.id) (list_for_host a.host_id own_row_limit db.reservations)

-- `r.bind_address or "0.0.0.0"`
abbrev pub address_or_any : Option String → String
address_or_any none = any_address
address_or_any (some a) = if str_eq a "" then any_address else a

abbrev range_by_name : Option String → List AllocationRequestItem → Option (ℕ × ℕ)
range_by_name none requests = none
range_by_name (some name) requests =
    elim (find? (λ (i : AllocationRequestItem). str_eq i.name name) requests) [
      | none ↦ none
      | some item ↦ item.requested_range
    ]

entry_of : Env → Db → Allocation → List AllocationRequestItem → CentralReservation → AllocationEntry
unfolding get_probe_evidence
entry_of env db a requests r = record {
  name = or_default r.request_name "";
  purpose = or_default r.purpose "";
  protocol = r.protocol;
  port = r.port;
  reservation_id = r.id;
  bind_address = r.bind_address;
  bind_probe =
      get_probe_evidence env a.host_id r.port r.protocol (address_or_any r.bind_address) db;
  requested_range = range_by_name r.request_name requests;
}

-- `_build_allocation_out`, for the host row of the allocation.
unfoldable pub build_allocation_out :
    Env → Db → Allocation → Host → BindProbe → List AllocationRequestItem → AllocationOut
unfolding entry_of build_validation own_rows
build_allocation_out env db a host bind_probe requests = record {
  idempotent_replay = false;
  allocation = a;
  hostname = host.hostname;
  entries = map (entry_of env db a requests) (own_rows a db);
  validation = build_validation env host bind_probe;
}

-- The names of the requests whose purpose is unknown.
abbrev pub unknown_purposes : List AllocationRequestItem → List String
unknown_purposes items =
    map (λ i. i.name) (select (λ i. not (is_some (default_range i.purpose))) items)

unfoldable pub validate_purposes : List AllocationRequestItem → Result AllocationError Unit
validate_purposes items = elim (unknown_purposes items) [
  | [] ↦ ok tt
  | name ∷ rest ↦ err (invalid_request (name ∷ rest))
]

abbrev is_occupied : BindProbe → Bool
is_occupied verified_occupied = true
is_occupied verified_free = false
is_occupied not_remote_capable = false
is_occupied expired = false
is_occupied unavailable = false

-- `_port_is_free`
unfoldable pub port_is_free : Env → ℕ → ℕ → Protocol → List ℕ → Db → Bool
unfolding list_for_host get_probe_evidence
port_is_free env host_id port protocol claimed db =
    if member port claimed
    then false
    else if any (λ row. row.port == port && protocol_eq row.protocol protocol)
        (select (λ row. row.host_id == host_id) db.ports)
    then false
    else if any (is_reserved port protocol) (list_for_host host_id row_limit db.reservations)
    then false
    else not (is_occupied (get_probe_evidence env host_id port protocol any_address db))

-- What a request resolves to: a port, perhaps, the evidence used, and the database with a probe
-- that was perhaps queued.
abbrev pub Candidate : Type 0
Candidate = Option ℕ × BindProbe × Db

-- The preferred port, when it is free.
take_preferred : Env → ℕ → Protocol → ℕ → Db → BindProbe → Candidate
take_preferred env host_id protocol port db verified_free = (some port, verified_free, db)
take_preferred env host_id protocol port db not_remote_capable =
    (some port, not_remote_capable, (queue_probe env host_id port protocol any_address db).1)
take_preferred env host_id protocol port db verified_occupied = (some port, not_remote_capable, db)
take_preferred env host_id protocol port db expired = (some port, not_remote_capable, db)
take_preferred env host_id protocol port db unavailable = (some port, not_remote_capable, db)

search_candidate : Env → ℕ → AllocationRequestItem → List ℕ → Db → Candidate
unfolding resolve_with_probe_awareness find_available_port
search_candidate env host_id item claimed db =
    let (result, bind_probe, db') =
      resolve_with_probe_awareness env host_id item.protocol
        (find_available_port host_id item.purpose item.protocol claimed item.requested_range db)
        (λ exclude.
          find_available_port host_id item.purpose item.protocol (claimed ++ exclude)
            item.requested_range db)
        db in
    (result.port, bind_probe, db')

-- `_resolve_candidate`
unfoldable pub resolve_candidate : Env → ℕ → AllocationRequestItem → List ℕ → Db → Candidate
unfolding take_preferred search_candidate port_is_free
resolve_candidate env host_id item claimed db = elim item.preferred_port [
  | none ↦ search_candidate env host_id item claimed db
  | some port ↦
      if port_is_free env host_id port item.protocol claimed db
      then take_preferred env host_id item.protocol port db
          (get_probe_evidence env host_id port item.protocol any_address db)
      else search_candidate env host_id item claimed db
]

abbrev stronger : BindProbe → BindProbe → BindProbe
stronger verified_free seen = verified_free
stronger not_remote_capable seen = seen
stronger verified_occupied seen = seen
stronger expired seen = seen
stronger unavailable seen = seen

pub record Resolution : Type 0 where
  pub resolved : List (AllocationRequestItem × ℕ)
  pub bind_probe : BindProbe
  pub db : Db

abbrev pub with_first : AllocationRequestItem × ℕ → Resolution → Resolution
with_first first r = record r { resolved = first ∷ r.resolved }

-- The loop that resolves the items in order, over the ports claimed so far.
unfoldable pub resolve_all :
    Env
    → ℕ
    → List AllocationRequestItem
    → List ℕ
    → BindProbe
    → Db
    → Result AllocationError Resolution
unfolding resolve_candidate
resolve_all env host_id [] claimed bind_probe db =
    ok (record { resolved = []; bind_probe = bind_probe; db = db })
resolve_all env host_id (item ∷ items) claimed bind_probe db =
    let (port, item_bind_probe, db') = resolve_candidate env host_id item claimed db in
    elim port [
      | none ↦ err (allocation_unavailable (some item.name))
      | some p ↦
          resolve_all env host_id items (p ∷ claimed) (stronger item_bind_probe bind_probe) db'
          >>= λ r. ok (with_first (item, p) r)
    ]

abbrev pub allocated_row : ℕ → AllocationIn → ℕ → AllocationRequestItem → ℕ → CentralReservation
allocated_row id payload allocation_id item port = record {
  id = id;
  host_id = payload.host_id;
  port = port;
  protocol = item.protocol;
  bind_address = none;
  project = payload.project;
  service = none;
  purpose = some item.purpose;
  notes = none;
  local_reservation_id = none;
  allocation_id = some allocation_id;
  request_name = some item.name;
}

-- The loop that inserts the reservations; `none` is an IntegrityError.
unfoldable pub insert_all :
    Env → AllocationIn → ℕ → List (AllocationRequestItem × ℕ) → Db → Option Db
unfolding insert_reservation
insert_all env payload allocation_id [] db = some db
insert_all env payload allocation_id ((item, port) ∷ rest) db =
    elim (insert_reservation env.now
      (allocated_row (env.uuid (length db.reservations)) payload allocation_id item port) db) [
        | none ↦ none
        | some db' ↦ insert_all env payload allocation_id rest db'
      ]

abbrev pub by_request_id : Option String → List Allocation → Option Allocation
by_request_id request_id allocations =
    if is_truthy request_id
    then find? (λ a. opt_str_eq a.request_id request_id) allocations
    else none

abbrev pub new_allocation : (Canonical → ℕ) → ℕ → AllocationIn → Allocation
new_allocation digest id p = record {
  id = id;
  host_id = p.host_id;
  project = p.project;
  status = AllocationStatus.active;
  released_at = none;
  request_id = p.request_id;
  request_payload_hash = if is_truthy p.request_id then some (hash_payload digest p) else none;
}

abbrev pub hash_eq : Option ℕ → ℕ → Bool
hash_eq none h = false
hash_eq (some g) h = g == h

-- An allocation stands in the table with its host's row: the foreign key holds.
abbrev host_of : ℕ → Db → Result AllocationError Host
host_of id db = elim (host_by_id id db.hosts) [ none ↦ err host_not_found | some h ↦ ok h ]

replay :
    (Canonical → ℕ)
    → Env
    → AllocationIn
    → Allocation
    → Db
    → Result AllocationError (AllocationOut × Db)
unfolding hash_payload build_allocation_out
replay digest env p a db =
    if hash_eq a.request_payload_hash (hash_payload digest p)
    then host_of a.host_id db >>= (λ host. ok (
      record (build_allocation_out env db a host not_remote_capable p.requests) {
        idempotent_replay = true;
      },
      db,
    ))
    else err idempotency_conflict

unfoldable pub add_allocation : Allocation → Db → Db
add_allocation a db = record db { allocations = db.allocations ++ a ∷ [] }

-- After every item has been resolved: add the allocation, insert every row, commit.
commit_bundle :
    (Canonical → ℕ)
    → Env
    → AllocationIn
    → Host
    → Resolution
    → Result AllocationError (AllocationOut × Db)
unfolding insert_all add_allocation build_allocation_out
commit_bundle digest env p host r =
    let a = new_allocation digest (env.uuid (length r.db.allocations)) p in
    elim (insert_all env p a.id r.resolved (add_allocation a r.db)) [
      | none ↦ err (allocation_unavailable none)
      | some db' ↦ ok (build_allocation_out env db' a host r.bind_probe p.requests, db')
    ]

-- The part after the checks.
allocate :
    (Canonical → ℕ) → Env → AllocationIn → Host → Db → Result AllocationError (AllocationOut × Db)
unfolding resolve_all commit_bundle
allocate digest env p host db =
    resolve_all env p.host_id p.requests [] not_remote_capable db
    >>= commit_bundle digest env p host

allocate_on :
    (Canonical → ℕ) → Env → AllocationIn → Db → Host → Result AllocationError (AllocationOut × Db)
unfolding allocate ensure_host_allocatable
allocate_on digest env p db host =
    ensure_host_allocatable env host >>= λ _. allocate digest env p host db

-- A request that is no replay.
allocate_fresh :
    (Canonical → ℕ) → Env → AllocationIn → Db → Result AllocationError (AllocationOut × Db)
unfolding allocate_on
allocate_fresh digest env p db = host_of p.host_id db >>= allocate_on digest env p db

-- By the allocation, if any, that the request's key has been used for.
create_keyed :
    (Canonical → ℕ)
    → Env
    → AllocationIn
    → Db
    → Option Allocation
    → Result AllocationError (AllocationOut × Db)
unfolding allocate_fresh replay
create_keyed digest env p db none = allocate_fresh digest env p db
create_keyed digest env p db (some a) = replay digest env p a db

unfoldable pub create_allocation :
    (Canonical → ℕ) → Env → AllocationIn → Db → Result AllocationError (AllocationOut × Db)
unfolding create_keyed validate_purposes
create_allocation digest env p db = validate_purposes p.requests >>= λ _.
    create_keyed digest env p db (by_request_id p.request_id db.allocations)

abbrev allocation_by_id : ℕ → Db → Result AllocationError Allocation
allocation_by_id id db = elim (find? (λ (a : Allocation). a.id == id) db.allocations) [
  | none ↦ err allocation_not_found
  | some a ↦ ok a
]

unfoldable pub get_allocation : Env → ℕ → Db → Result AllocationError AllocationOut
unfolding build_allocation_out
get_allocation env id db = allocation_by_id id db >>= λ a.
    host_of a.host_id db >>= λ host. ok (build_allocation_out env db a host not_remote_capable [])

-- The loop that deletes an allocation's rows, each with its activity event.
unfoldable pub delete_rows : ℕ → ℕ → List CentralReservation → Db → Db
unfolding delete_row
delete_rows now host_id [] db = db
delete_rows now host_id (r ∷ rs) db = delete_rows now host_id rs (delete_row now host_id r db)

abbrev pub as_released : ℕ → Allocation → Allocation
as_released now a = record a { status = AllocationStatus.released; released_at = some now }

-- `allocation.status = "released"`
unfoldable pub mark_released : ℕ → Allocation → Db → Db
mark_released now a db = record db {
  allocations = update (λ b. b.id == a.id) (as_released now) db.allocations;
}

release_active : Env → Allocation → Host → Db → AllocationOut × Db
unfolding delete_rows mark_released own_rows build_allocation_out
release_active env a host db =
    let db' = mark_released env.now a (delete_rows env.now a.host_id (own_rows a db) db) in
    (build_allocation_out env db' (as_released env.now a) host not_remote_capable [], db')

-- By the status of the allocation: releasing again is no error.
release_in :
    Env → Db → Allocation → Host → AllocationStatus → Result AllocationError (AllocationOut × Db)
unfolding release_active
release_in env db a host AllocationStatus.released =
    ok (build_allocation_out env db a host not_remote_capable [], db)
release_in env db a host AllocationStatus.active = ok (release_active env a host db)

release_found : Env → Db → Allocation → Result AllocationError (AllocationOut × Db)
unfolding release_in
release_found env db a = host_of a.host_id db >>= λ host. release_in env db a host a.status

unfoldable pub release_allocation : Env → ℕ → Db → Result AllocationError (AllocationOut × Db)
unfolding release_found
release_allocation env id db = allocation_by_id id db >>= release_found env db
