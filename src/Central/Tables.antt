-- ===== src/Central/Tables.antt =====
-- The rows of the central database (backend/app/models) and the environment of one request.
-- Identifiers (UUIDs) are numbers that are only compared; times are microseconds since the epoch.
use port_forge.Prelude.{ℕ, String, Option, List, Bool}
use port_forge.Central.Vocabulary.{
  Protocol, LifecycleState, AllocationStatus, ProbeStatus, UpgradeState, EventType, ChangeType,
}

pub record Host : Type 0 where
  pub id : ℕ
  pub hostname : String
  pub operating_system : String
  pub os_version : Option String
  pub architecture : Option String
  pub agent_version : Option String
  pub docker_available : Bool
  pub protocol_version : Option ℕ
  pub contract_version : Option ℕ
  pub python_version : Option String
  pub first_seen : ℕ
  pub last_seen : ℕ
  pub status : String
  pub lifecycle_state : LifecycleState
  pub decommissioned_at : Option ℕ
  pub decommission_reason : Option String
  pub last_scan_observed_at : Option ℕ
  pub last_error : Option String

pub record CentralReservation : Type 0 where
  pub id : ℕ
  pub host_id : ℕ
  pub port : ℕ
  pub protocol : Protocol
  pub bind_address : Option String
  pub project : String
  pub service : Option String
  pub purpose : Option String
  pub notes : Option String
  pub local_reservation_id : Option String
  pub allocation_id : Option ℕ
  pub request_name : Option String

pub record Allocation : Type 0 where
  pub id : ℕ
  pub host_id : ℕ
  pub project : String
  pub status : AllocationStatus
  pub released_at : Option ℕ
  pub request_id : Option String
  pub request_payload_hash : Option ℕ

pub record HostProbe : Type 0 where
  pub id : ℕ
  pub host_id : ℕ
  pub port : ℕ
  pub protocol : Protocol
  pub bind_address : String
  pub status : ProbeStatus
  pub result_available : Option Bool
  pub result_reason : Option String
  pub delivered_at : Option ℕ
  pub completed_at : Option ℕ
  pub expires_at : ℕ
  pub created_at : ℕ

pub record HostUpgrade : Type 0 where
  pub id : ℕ
  pub host_id : ℕ
  pub request_id : Option String
  pub state : UpgradeState
  pub target_version : String
  pub artifact_url : String
  pub artifact_sha256 : String
  pub artifact_filename : Option String
  pub previous_version : Option String
  pub previous_artifact_url : Option String
  pub previous_artifact_sha256 : Option String
  pub failure_reason : Option String
  pub approved_at : Option ℕ
  pub claimed_at : Option ℕ
  pub completed_at : Option ℕ
  pub created_by : String

-- One observation of a binding: the fields that a snapshot carries (`ObservationIn`).
pub record Observation : Type 0 where
  pub port : ℕ
  pub protocol : Protocol
  pub bind_address : String
  pub state : String
  pub source : String
  pub pid : Option ℕ
  pub process_name : Option String
  pub process_path : Option String
  pub working_directory : Option String
  pub container_id : Option String
  pub container_name : Option String
  pub container_image : Option String
  pub container_port : Option ℕ
  pub docker_compose_project : Option String
  pub service_name : Option String
  pub project_name : Option String
  pub purpose : Option String
  pub category : Option String
  pub detection_confidence : Option String
  pub first_seen : ℕ
  pub last_seen : ℕ

-- A row of `current_port_observations`: the observed fields and the row's own.
pub record CurrentPort : Type 0 where
  pub host_id : ℕ
  pub observed : Observation
  pub open observed use *
  pub observed_at : ℕ
  pub scan_id : ℕ

pub record PortEvent : Type 0 where
  pub host_id : ℕ
  pub port : ℕ
  pub protocol : Protocol
  pub bind_address : String
  pub event_type : ChangeType
  pub state : String
  pub process_name : Option String
  pub project_name : Option String
  pub purpose : Option String
  pub scan_id : ℕ
  pub occurred_at : ℕ

-- The `summary` and `metadata_json` texts, for people to read, are left out.
pub record ActivityEvent : Type 0 where
  pub host_id : ℕ
  pub timestamp : ℕ
  pub event_type : EventType
  pub port : Option ℕ
  pub protocol : Option Protocol
  pub bind_address : Option String
  pub source : Option String
  pub identity_context : String
  pub reservation_id : Option ℕ

pub record Scan : Type 0 where
  pub id : ℕ
  pub host_id : ℕ
  pub observed_at : ℕ
  pub observation_count : ℕ

pub record AgentCredential : Type 0 where
  pub host_id : ℕ
  pub token_hash : String
  pub created_at : ℕ
  pub revoked_at : Option ℕ

pub record EnrollmentToken : Type 0 where
  pub id : ℕ
  pub token_hash : String
  pub label : Option String
  pub created_at : ℕ
  pub expires_at : Option ℕ
  pub consumed_at : Option ℕ
  pub consumed_by_host_id : Option ℕ

-- The whole database, as a transaction sees it. Rows stand in the order of insertion.
pub record Db : Type 0 where
  pub hosts : List Host
  pub reservations : List CentralReservation
  pub allocations : List Allocation
  pub probes : List HostProbe
  pub upgrades : List HostUpgrade
  pub ports : List CurrentPort
  pub port_events : List PortEvent
  pub activity : List ActivityEvent
  pub scans : List Scan
  pub credentials : List AgentCredential
  pub enrollment_tokens : List EnrollmentToken

-- backend/app/config.py, the settings that the modelled services read.
pub record Settings : Type 0 where
  pub host_stale_after_seconds : ℕ
  pub host_offline_after_seconds : ℕ
  pub remote_probe_ttl_seconds : ℕ
  pub max_pending_probes_per_host : ℕ
  pub max_probes_delivered_per_heartbeat : ℕ
  pub update_target_version : Option String
  pub update_artifact_url : Option String
  pub update_artifact_sha256 : Option String

-- What one request takes from outside: the clock's reading, and the identifier that `uuid4` yields
-- for each row it adds, by the number of rows that stand before it in its table.
pub record Env : Type 0 where
  pub now : ℕ
  pub uuid : ℕ → ℕ
  pub settings : Settings
