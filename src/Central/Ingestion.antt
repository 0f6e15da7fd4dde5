-- ===== src/Central/Ingestion.antt =====
-- The ingestion of a host's snapshot: `ingest_snapshot` in backend/app/services/ingestion_service.py,
-- with the rows of backend/app/repositories/port_repository.py. A row of `current_port_observations`
-- is the one of its host and binding (`uq_current_port_binding`).
pub mod Lookup
pub mod Mirror
pub mod Described
pub mod Snapshots
pub mod Delivery
pub mod Repeats
pub mod History
pub mod Rows
use port_forge.Prelude.{
  ℕ, suc, String, Option, none, some, List, [], ◌∷◌, ◌++◌, Bool, true, false, not, ◌&&◌, ◌==◌, leb,
  ltb, find?, any, select, length, update_first, is_some, is_truthy, or_default, opt_str_eq, str_eq,
  if◌then◌else◌,
}
use port_forge.Prelude.Result.{Result, ok, err}
use port_forge.Central.Vocabulary.{Protocol, ChangeType, EventType}
use port_forge.Central.Tables.{Host, Observation, CurrentPort, PortEvent, ActivityEvent, Scan, Db}
use port_forge.Central.Probes.{host_by_id}
use port_forge.Central.Canonical.{has_key, same_key, canonicalize_observations}

pub data SnapshotRejectedError : Type 0 where
  batch_too_large unknown_host stale_snapshot : SnapshotRejectedError

-- What a request submits.
pub record Snapshot : Type 0 where
  pub host_id : ℕ
  pub scan_id : ℕ
  pub observed_at : ℕ
  pub observations : List Observation

pub record IngestionResult : Type 0 where
  pub scan_id : ℕ
  pub accepted : Bool
  pub reason : Option String
  pub observations_processed : ℕ
  pub appeared : ℕ
  pub changed : ℕ
  pub disappeared : ℕ
  pub duplicates_merged : ℕ

-- `_meaningfully_changed`, over `_CHANGE_FIELDS`
unfoldable pub meaningfully_changed : Observation → Observation → Bool
meaningfully_changed current incoming = not (
    str_eq current.state incoming.state
    && (opt_str_eq current.process_name incoming.process_name
        && (opt_str_eq current.container_id incoming.container_id
            && (opt_str_eq current.project_name incoming.project_name
                && opt_str_eq current.purpose incoming.purpose))))

-- The row is that of this host and binding.
unfoldable pub is_row : ℕ → ℕ → Protocol → String → CurrentPort → Bool
is_row host_id port protocol address row =
    row.host_id == host_id && has_key port protocol address row.observed

abbrev pub is_row_for : ℕ → Observation → CurrentPort → Bool
is_row_for host_id o row = is_row host_id o.port o.protocol o.bind_address row

abbrev pub list_current_for_host : ℕ → List CurrentPort → List CurrentPort
list_current_for_host host_id rows = select (λ r. r.host_id == host_id) rows

-- `current_rows.get(key)`
abbrev pub current_row : Observation → List CurrentPort → Option CurrentPort
current_row o rows = find? (λ r. same_key o r.observed) rows

abbrev pub fresh_row : Snapshot → Observation → CurrentPort
fresh_row s o = record {
  host_id = s.host_id;
  observed = o;
  observed_at = s.observed_at;
  scan_id = s.scan_id;
}

-- The assignments to an existing row: all but the binding and `first_seen`.
unfoldable pub refresh_row : Snapshot → Observation → CurrentPort → CurrentPort
refresh_row s o row = record row {
  observed = record o {
    port = row.observed.port;
    protocol = row.observed.protocol;
    bind_address = row.observed.bind_address;
    first_seen = row.observed.first_seen;
  };
  observed_at = s.observed_at;
  scan_id = s.scan_id;
}

abbrev pub port_event : Snapshot → ChangeType → Observation → PortEvent
port_event s event o = record {
  host_id = s.host_id;
  port = o.port;
  protocol = o.protocol;
  bind_address = o.bind_address;
  event_type = event;
  state = o.state;
  process_name = o.process_name;
  project_name = o.project_name;
  purpose = o.purpose;
  scan_id = s.scan_id;
  occurred_at = s.observed_at;
}

-- `process_name or container_name or project_name or "unknown"`
abbrev identity_of : Observation → String
identity_of o =
    if is_truthy o.process_name
    then or_default o.process_name ""
    else if is_truthy o.container_name
    then or_default o.container_name ""
    else if is_truthy o.project_name
    then or_default o.project_name ""
    else "unknown"

abbrev port_activity : Snapshot → EventType → Observation → ActivityEvent
port_activity s event o = record {
  host_id = s.host_id;
  timestamp = s.observed_at;
  event_type = event;
  port = some o.port;
  protocol = some o.protocol;
  bind_address = some o.bind_address;
  source = some o.source;
  identity_context = identity_of o;
  reservation_id = none;
}

-- What the two loops change: the tables and the counts.
pub record Progress : Type 0 where
  pub ports : List CurrentPort
  pub events : List PortEvent
  pub activity : List ActivityEvent
  pub appeared : ℕ
  pub changed : ℕ
  pub disappeared : ℕ

abbrev add_event : PortEvent → Progress → Progress
add_event e p = record p { events = p.events ++ e ∷ [] }

abbrev log_activity : Bool → ActivityEvent → Progress → Progress
log_activity wanted e p = record p {
  activity = if wanted then p.activity ++ e ∷ [] else p.activity;
}

appear : Snapshot → Bool → Observation → Progress → Progress
appear s is_baseline o p =
    let recorded =
      log_activity (not is_baseline) (port_activity s EventType.port_appeared o)
        (add_event (port_event s ChangeType.appeared o) p) in
    record recorded { ports = p.ports ++ fresh_row s o ∷ []; appeared = suc p.appeared }

refresh_existing : Snapshot → Observation → Bool → Progress → Progress
unfolding refresh_row
refresh_existing s o differs p = record p {
  ports = update_first (is_row_for s.host_id o) (refresh_row s o) p.ports;
  events = if differs then p.events ++ port_event s ChangeType.changed o ∷ [] else p.events;
  changed = if differs then suc p.changed else p.changed;
}

unfoldable pub observe_against :
    Snapshot → Bool → Observation → Option CurrentPort → Progress → Progress
unfolding appear refresh_existing meaningfully_changed
observe_against s is_baseline o none p = appear s is_baseline o p
observe_against s is_baseline o (some existing) p =
    refresh_existing s o (meaningfully_changed existing.observed o) p

-- The loop over the canonical observations; `rows` are the host's rows that were read before it.
unfoldable pub observe_each :
    Snapshot → Bool → List CurrentPort → List Observation → Progress → Progress
unfolding observe_against
observe_each s is_baseline rows [] p = p
observe_each s is_baseline rows (o ∷ os) p =
    observe_each s is_baseline rows os (observe_against s is_baseline o (current_row o rows) p)

unfoldable pub disappear : Snapshot → CurrentPort → Progress → Progress
disappear s row p =
    let recorded =
      log_activity true (port_activity s EventType.port_disappeared row.observed)
        (add_event (port_event s ChangeType.disappeared row.observed) p) in
    record recorded {
      ports = select (λ r. not (is_row_for s.host_id row.observed r)) p.ports;
      disappeared = suc p.disappeared;
    }

-- The loop over the rows that were read, for those that the snapshot does not have.
unfoldable pub remove_absent : Snapshot → List Observation → List CurrentPort → Progress → Progress
unfolding disappear
remove_absent s canonical [] p = p
remove_absent s canonical (row ∷ rows) p =
    remove_absent s canonical rows
      (if any (same_key row.observed) canonical then p else disappear s row p)

-- `host.last_scan_observed_at = observed_at` and `host.last_seen = observed_at`
abbrev pub scanned : ℕ → Host → Host
scanned observed_at host = record host {
  last_scan_observed_at = some observed_at;
  last_seen = observed_at;
}

unfoldable pub start : Db → Progress
start db = record {
  ports = db.ports;
  events = db.port_events;
  activity = db.activity;
  appeared = 0;
  changed = 0;
  disappeared = 0;
}

-- Both loops over the snapshot.
unfoldable pub diffed : Snapshot → Bool → Db → Progress
unfolding observe_each remove_absent canonicalize_observations start
diffed s is_baseline db =
    let canonical = (canonicalize_observations s.observations).0 in
    let rows = list_current_for_host s.host_id db.ports in
    remove_absent s canonical rows (observe_each s is_baseline rows canonical (start db))

unfoldable pub scan_of : Snapshot → Scan
scan_of s = record {
  id = s.scan_id;
  host_id = s.host_id;
  observed_at = s.observed_at;
  observation_count = length s.observations;
}

unfoldable pub committed : Snapshot → Progress → Db → Db
unfolding scan_of
committed s p db = record db {
  hosts = update_first (λ h. h.id == s.host_id) (scanned s.observed_at) db.hosts;
  ports = p.ports;
  port_events = p.events;
  activity = p.activity;
  scans = db.scans ++ scan_of s ∷ [];
}

unfoldable pub result_of : Snapshot → Progress → IngestionResult
unfolding canonicalize_observations
result_of s p = record {
  scan_id = s.scan_id;
  accepted = true;
  reason = none;
  observations_processed = length s.observations;
  appeared = p.appeared;
  changed = p.changed;
  disappeared = p.disappeared;
  duplicates_merged = (canonicalize_observations s.observations).1;
}

unfoldable pub repeated : Snapshot → IngestionResult
repeated s = record {
  scan_id = s.scan_id;
  accepted = true;
  reason = some "duplicate scan_id (already processed)";
  observations_processed = 0;
  appeared = 0;
  changed = 0;
  disappeared = 0;
  duplicates_merged = 0;
}

abbrev pub is_stale : ℕ → Option ℕ → Bool
is_stale observed_at none = false
is_stale observed_at (some last) = leb observed_at last

abbrev pub is_scanned : ℕ → Db → Bool
is_scanned scan_id db = any (λ c. c.id == scan_id) db.scans

unfoldable pub ingest_fresh : Snapshot → Bool → Db → IngestionResult × Db
unfolding diffed committed result_of
ingest_fresh s is_baseline db = let p = diffed s is_baseline db in (result_of s p, committed s p db)

unfoldable pub ingest_on :
    Snapshot → Option Host → Db → Result SnapshotRejectedError (IngestionResult × Db)
unfolding ingest_fresh
ingest_on s none db = err unknown_host
ingest_on s (some host) db =
    if is_stale s.observed_at host.last_scan_observed_at
    then err stale_snapshot
    else ok (ingest_fresh s (not (is_some host.last_scan_observed_at)) db)

unfoldable pub ingest_snapshot :
    ℕ → Snapshot → Db → Result SnapshotRejectedError (IngestionResult × Db)
unfolding ingest_on repeated
ingest_snapshot max_batch_size s db =
    if ltb max_batch_size (length s.observations)
    then err batch_too_large
    else if is_scanned s.scan_id db
    then ok (repeated s, db)
    else ingest_on s (host_by_id s.host_id db.hosts) db
