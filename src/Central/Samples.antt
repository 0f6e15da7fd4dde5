-- ===== src/Central/Samples.antt =====
-- The data of the tests: two hosts, one of them up, and small tables.
use port_forge.Prelude.{ℕ, ◌+◌, Option, none, some, [], ◌∷◌, true}
use port_forge.Central.Vocabulary.{tcp, LifecycleState}
use port_forge.Central.Tables.{Host, CentralReservation, Db, Env, Settings}
use port_forge.Central.Allocations.{AllocationIn, AllocationRequestItem, Canonical}
use port_forge.Central.Reservations.{ReservationIn}

abbrev pub settings : Settings
settings = record {
  host_stale_after_seconds = 60;
  host_offline_after_seconds = 300;
  remote_probe_ttl_seconds = 120;
  max_pending_probes_per_host = 2;
  max_probes_delivered_per_heartbeat = 5;
  update_target_version = none;
  update_artifact_url = none;
  update_artifact_sha256 = none;
}

abbrev pub second : ℕ
second = 1000000

abbrev pub env : Env
env = record { now = 1000000000; uuid = λ n. n + 100; settings = settings }

abbrev pub host : Host
host = record {
  id = 1;
  hostname = "build-01";
  operating_system = "linux";
  os_version = none;
  architecture = some "x86_64";
  agent_version = some "1.0.0";
  docker_available = true;
  protocol_version = some 1;
  contract_version = none;
  python_version = none;
  first_seen = 900000000;
  last_seen = 1000000000;
  status = "online";
  lifecycle_state = LifecycleState.active;
  decommissioned_at = none;
  decommission_reason = none;
  last_scan_observed_at = none;
  last_error = none;
}

abbrev pub row : ℕ → ℕ → Option ℕ → CentralReservation
row id port allocation = record {
  id = id;
  host_id = 1;
  port = port;
  protocol = tcp;
  bind_address = none;
  project = "shop";
  service = none;
  purpose = none;
  notes = none;
  local_reservation_id = none;
  allocation_id = allocation;
  request_name = none;
}

abbrev pub empty : Db
empty = record {
  hosts = host ∷ [];
  reservations = [];
  allocations = [];
  probes = [];
  upgrades = [];
  ports = [];
  port_events = [];
  activity = [];
  scans = [];
  credentials = [];
  enrollment_tokens = [];
}

-- The first port of the range for redis is reserved.
abbrev pub db : Db
db = record empty { reservations = row 7 6379 none ∷ [] }

abbrev pub digest : Canonical → ℕ
digest c = 5

abbrev pub item : AllocationRequestItem
item = record {
  name = "cache";
  purpose = "redis";
  protocol = tcp;
  preferred_port = none;
  requested_range = none;
  range_text = none;
}

abbrev pub request : AllocationIn
request = record { project = "shop"; host_id = 1; requests = item ∷ []; request_id = some "k1" }

abbrev pub reservation_in : ReservationIn
reservation_in = record {
  binding = record { host_id = 1; port = 8080; protocol = tcp; bind_address = some "127.0.0.1" };
  project = "shop";
  service = none;
  purpose = none;
  notes = none;
  local_reservation_id = none;
}
