-- ===== src/Central/Lifecycle.antt =====
-- The lifecycle of a host: backend/app/services/host_lifecycle_service.py, with the revocation of
-- credentials of backend/app/repositories/agent_repository.py.
pub mod Decommission
use Prim.Native.String.{String}
use Prim.Native.Char.{code}
use port_forge.Prelude.{
  ℕ, zero, suc, Option, none, some, List, [], ◌∷◌, ◌++◌, Bool, true, false, not, ◌&&◌, ◌==◌, str_eq,
  is_some, is_space, find?, select, take, update_first, if◌then◌else◌,
}
use port_forge.Prelude.Result.{Result, ok, err, ◌>>=◌}
use port_forge.Central.Vocabulary.{LifecycleState, AllocationStatus, EventType}
use port_forge.Central.Tables.{
  Host, Allocation, CentralReservation, AgentCredential, ActivityEvent, Db,
}
use port_forge.Central.Reservations.{
  list_for_host, Scalar, nothing, single, multiple, scalar_one_or_none,
}
use port_forge.Central.Probes.{host_by_id}
use port_forge.Central.Allocations.{belongs_to, delete_rows, mark_released, own_row_limit}
use port_forge.Central.Upgrades.{fail_active_for_host}

pub data HostLifecycleError : Type 0 where
  host_not_found host_already_active multiple_credentials : HostLifecycleError

-- `strip`
strip_left : String → String
strip_left String.[] = String.[]
strip_left (String.◌∷◌ c s) =
    let rest = strip_left s in if is_space (code c) then rest else String.◌∷◌ c s

onto : String → String → String
onto String.[] t = t
onto (String.◌∷◌ c s) t = onto s (String.◌∷◌ c t)

strip : String → String
unfolding strip_left onto
strip s = onto (strip_left (onto (strip_left s) String.[])) String.[]

-- `reason.strip() if reason and reason.strip() else None`
cleaned_reason : Option String → Option String
unfolding strip
cleaned_reason none = none
cleaned_reason (some r) = if str_eq (strip r) "" then none else some (strip r)

abbrev pub is_live_credential : ℕ → AgentCredential → Bool
is_live_credential host_id c = c.host_id == host_id && not (is_some c.revoked_at)

-- `revoke_active_credential_for_host`
abbrev pub revoke_active : ℕ → ℕ → List AgentCredential → List AgentCredential
revoke_active host_id now rows =
    update_first (is_live_credential host_id) (λ c. record c { revoked_at = some now }) rows

abbrev is_active_status : AllocationStatus → Bool
is_active_status AllocationStatus.active = true
is_active_status AllocationStatus.released = false

abbrev pub is_active_of : ℕ → Allocation → Bool
is_active_of host_id a = a.host_id == host_id && is_active_status a.status

-- ORDER BY created_at DESC
abbrev pub newest_first : List Allocation → List Allocation
newest_first [] = []
newest_first (a ∷ rows) = newest_first rows ++ a ∷ []

-- `alloc_repo.list(host_id=host_id, status="active", limit=1000)`
abbrev pub active_allocations : ℕ → List Allocation → List Allocation
active_allocations host_id rows =
    take own_row_limit (newest_first (select (is_active_of host_id) rows))

-- The loop over the allocations; `rows` are the reservations read before it.
unfoldable pub release_each : ℕ → ℕ → List CentralReservation → List Allocation → Db → Db
unfolding delete_rows mark_released
release_each now host_id rows [] db = db
release_each now host_id rows (a ∷ rest) db =
    release_each now host_id rows rest
      (mark_released now a (delete_rows now host_id (select (belongs_to a.id) rows) db))

-- `_release_active_allocations_flush_only`
unfoldable pub release_active_allocations : ℕ → ℕ → Db → Db
unfolding release_each list_for_host
release_active_allocations now host_id db =
    release_each now host_id (list_for_host host_id own_row_limit db.reservations)
      (active_allocations host_id db.allocations) db

abbrev pub lifecycle_event : EventType → ℕ → Host → ActivityEvent
lifecycle_event event now host = record {
  host_id = host.id;
  timestamp = now;
  event_type = event;
  port = none;
  protocol = none;
  bind_address = none;
  source = none;
  identity_context = host.hostname;
  reservation_id = none;
}

abbrev add_activity : ActivityEvent → Db → Db
add_activity e db = record db { activity = db.activity ++ e ∷ [] }

abbrev pub as_decommissioned : ℕ → Option String → Host → Host
as_decommissioned now reason host = record host {
  lifecycle_state = LifecycleState.decommissioned;
  decommissioned_at = some now;
  decommission_reason = reason;
}

abbrev pub as_active : Host → Host
as_active host = record host {
  lifecycle_state = LifecycleState.active;
  decommissioned_at = none;
  decommission_reason = none;
}

abbrev change_host : ℕ → (Host → Host) → Db → Db
change_host host_id f db = record db { hosts = update_first (λ h. h.id == host_id) f db.hosts }

-- The credential is read by `scalar_one_or_none`, which raises on several.
revoke_over : ℕ → ℕ → Db → Scalar AgentCredential → Result HostLifecycleError Db
revoke_over host_id now db nothing = ok db
revoke_over host_id now db (single c) =
    ok (record db { credentials = revoke_active host_id now db.credentials })
revoke_over host_id now db multiple = err multiple_credentials

revoke : ℕ → ℕ → Db → Result HostLifecycleError Db
unfolding revoke_over
revoke host_id now db =
    revoke_over host_id now db
      (scalar_one_or_none (select (is_live_credential host_id) db.credentials))

after_revocation : ℕ → ℕ → Host → Db → Db
unfolding release_active_allocations fail_active_for_host
after_revocation now host_id host db =
    add_activity (lifecycle_event EventType.host_decommissioned now host) (
      fail_active_for_host now host_id "host_decommissioned"
        (release_active_allocations now host_id db))

decommission_active : ℕ → ℕ → Option String → Host → Db → Result HostLifecycleError (Host × Db)
unfolding cleaned_reason revoke after_revocation
decommission_active now host_id reason host db =
    revoke host_id now (change_host host_id (as_decommissioned now (cleaned_reason reason)) db)
    >>= λ revoked. ok (
      as_decommissioned now (cleaned_reason reason) host,
      after_revocation now host_id host revoked,
    )

decommission_in :
    ℕ → ℕ → Option String → Host → Db → LifecycleState → Result HostLifecycleError (Host × Db)
unfolding decommission_active
decommission_in now host_id reason host db LifecycleState.decommissioned = ok (host, db)
decommission_in now host_id reason host db LifecycleState.active =
    decommission_active now host_id reason host db

decommission_found :
    ℕ → ℕ → Option String → Db → Option Host → Result HostLifecycleError (Host × Db)
unfolding decommission_in
decommission_found now host_id reason db none = err host_not_found
decommission_found now host_id reason db (some host) =
    decommission_in now host_id reason host db host.lifecycle_state

unfoldable pub decommission_host :
    ℕ → ℕ → Option String → Db → Result HostLifecycleError (Host × Db)
unfolding decommission_found
decommission_host now host_id reason db =
    decommission_found now host_id reason db (host_by_id host_id db.hosts)

reactivate_in : ℕ → ℕ → Host → Db → LifecycleState → Result HostLifecycleError (Host × Db)
reactivate_in now host_id host db LifecycleState.active = err host_already_active
reactivate_in now host_id host db LifecycleState.decommissioned = ok (
  as_active host,
  add_activity (lifecycle_event EventType.host_reactivated now host)
      (change_host host_id as_active db),
)

reactivate_found : ℕ → ℕ → Db → Option Host → Result HostLifecycleError (Host × Db)
unfolding reactivate_in
reactivate_found now host_id db none = err host_not_found
reactivate_found now host_id db (some host) = reactivate_in now host_id host db host.lifecycle_state

unfoldable pub reactivate_host : ℕ → ℕ → Db → Result HostLifecycleError (Host × Db)
unfolding reactivate_found
reactivate_host now host_id db = reactivate_found now host_id db (host_by_id host_id db.hosts)
