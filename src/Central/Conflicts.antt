-- ===== src/Central/Conflicts.antt =====
-- Conflicts between reservations and observed ports: backend/app/services/conflict_service.py.
-- The text of `reason` is kept as the owner that it names.
pub mod Agreement
use port_forge.Prelude.{
  ℕ, String, Option, none, some, List, [], ◌∷◌, Bool, true, false, ◌==◌, find?, select, take,
  order_by, or_default, is_truthy, str_eq, normalize, codes_eq, if◌then◌else◌,
}
use port_forge.Central.Vocabulary.{Protocol}
use port_forge.Central.Tables.{Host, CentralReservation, Observation, CurrentPort, Db}
use port_forge.Central.Probes.{host_by_id}
use port_forge.Central.Reservations.{list_for_host}
use port_forge.Central.Ingestion.{is_row}

-- `_project_matches`
unfoldable pub same_owner : Option String → String → Bool
same_owner none reserved = false
same_owner (some observed) reserved =
    if str_eq observed "" then false else codes_eq (normalize observed) (normalize reserved)

pub record ConflictOut : Type 0 where
  pub host_id : ℕ
  pub hostname : String
  pub port : ℕ
  pub protocol : Protocol
  pub reserved_for_project : String
  pub reserved_for_service : Option String
  pub actual_project : Option String
  pub actual_process_name : Option String
  pub actual_container_name : Option String
  pub owner : String

-- `get_current`; the constraint `uq_current_port_binding` leaves at most one row.
abbrev pub get_current : ℕ → ℕ → Protocol → String → List CurrentPort → Option CurrentPort
get_current host_id port protocol bind_address rows =
    find? (is_row host_id port protocol bind_address) rows

-- `bind_address or "0.0.0.0"`
abbrev pub address_or_wildcard : Option String → String
address_or_wildcard address = if is_truthy address then or_default address "0.0.0.0" else "0.0.0.0"

abbrev owner_text : Observation → String
owner_text o =
    if is_truthy o.project_name
    then or_default o.project_name ""
    else if is_truthy o.container_name
    then or_default o.container_name ""
    else if is_truthy o.process_name
    then or_default o.process_name ""
    else "an unrecognized owner"

abbrev pub conflict_out : Host → CentralReservation → CurrentPort → ConflictOut
conflict_out host c current = record {
  host_id = host.id;
  hostname = host.hostname;
  port = c.port;
  protocol = c.protocol;
  reserved_for_project = c.project;
  reserved_for_service = c.service;
  actual_project = current.observed.project_name;
  actual_process_name = current.observed.process_name;
  actual_container_name = current.observed.container_name;
  owner = owner_text current.observed;
}

unfoldable pub conflict_on :
    CentralReservation → Option Host → Option CurrentPort → Option ConflictOut
unfolding same_owner
conflict_on c none _ = none
conflict_on c (some host) none = none
conflict_on c (some host) (some current) =
    if same_owner current.observed.project_name c.project
    then none
    else some (conflict_out host c current)

-- One turn of the loop.
unfoldable pub conflict_of : Db → CentralReservation → Option ConflictOut
unfolding conflict_on
conflict_of db c =
    conflict_on c (host_by_id c.host_id db.hosts)
      (get_current c.host_id c.port c.protocol (address_or_wildcard c.bind_address) db.ports)

abbrev pub with_conflict : Option ConflictOut → List ConflictOut → List ConflictOut
with_conflict none rest = rest
with_conflict (some out) rest = out ∷ rest

unfoldable pub conflicts_over : Db → List CentralReservation → List ConflictOut
unfolding conflict_of
conflicts_over db [] = []
conflicts_over db (c ∷ cs) = with_conflict (conflict_of db c) (conflicts_over db cs)

abbrev pub listed_limit : ℕ
listed_limit = 10000

-- `list(host_id=host_id, limit=10_000)`
unfoldable pub listed : Option ℕ → List CentralReservation → List CentralReservation
unfolding list_for_host
listed none rows = take listed_limit (order_by (λ r. r.port) rows)
listed (some host_id) rows = list_for_host host_id listed_limit rows

unfoldable pub list_conflicts : Option ℕ → Db → List ConflictOut
unfolding conflicts_over listed
list_conflicts host_id db = conflicts_over db (listed host_id db.reservations)
