-- ===== src/Central/Hosts.antt =====
-- The rows of hosts: backend/app/repositories/host_repository.py, and the heartbeat of
-- backend/app/services/host_service.py.
use port_forge.Prelude.{
  ℕ, String, Option, none, some, List, [], ◌∷◌, ◌++◌, Bool, true, false, not, ◌||◌, ◌==◌, select,
  update, update_first, str_eq, or_else, if◌then◌else◌,
}
use port_forge.Prelude.Result.{Result, ok, err}
use port_forge.Central.Vocabulary.{LifecycleState, EventType}
use port_forge.Central.Tables.{Host, EnrollmentToken, ActivityEvent, Settings, Db}
use port_forge.Central.Probes.{host_by_id}
use port_forge.Central.Health.{HostHealthState, healthy, stale, offline, host_health}

-- What an agent reports of its host, on enrollment and with each heartbeat.
pub record HostFacts : Type 0 where
  pub hostname : String
  pub operating_system : String
  pub os_version : Option String
  pub architecture : Option String
  pub agent_version : Option String
  pub docker_available : Bool
  pub protocol_version : Option ℕ
  pub contract_version : Option ℕ
  pub python_version : Option String

abbrev pub fresh_host : ℕ → HostFacts → ℕ → Host
fresh_host host_id facts now = record {
  id = host_id;
  hostname = facts.hostname;
  operating_system = facts.operating_system;
  os_version = facts.os_version;
  architecture = facts.architecture;
  agent_version = facts.agent_version;
  docker_available = facts.docker_available;
  protocol_version = facts.protocol_version;
  contract_version = facts.contract_version;
  python_version = facts.python_version;
  first_seen = now;
  last_seen = now;
  status = "online";
  lifecycle_state = LifecycleState.active;
  decommissioned_at = none;
  decommission_reason = none;
  last_scan_observed_at = none;
  last_error = none;
}

-- A value that is not reported does not erase a known one.
abbrev pub with_facts : HostFacts → ℕ → Host → Host
with_facts facts now host = record host {
  hostname = facts.hostname;
  operating_system = facts.operating_system;
  os_version = facts.os_version;
  architecture = facts.architecture;
  agent_version = facts.agent_version;
  docker_available = facts.docker_available;
  last_seen = now;
  status = "online";
  protocol_version = or_else facts.protocol_version host.protocol_version;
  contract_version = or_else facts.contract_version host.contract_version;
  python_version = or_else facts.python_version host.python_version;
}

upsert_over : ℕ → HostFacts → ℕ → Option Host → List Host → List Host
upsert_over host_id facts now none hosts = hosts ++ fresh_host host_id facts now ∷ []
upsert_over host_id facts now (some _) hosts =
    update_first (λ h. h.id == host_id) (with_facts facts now) hosts

-- `upsert`
unfoldable pub upsert : ℕ → HostFacts → ℕ → List Host → List Host
unfolding upsert_over
upsert host_id facts now hosts = upsert_over host_id facts now (host_by_id host_id hosts) hosts

abbrev pub is_decommissioned_host : Option Host → Bool
is_decommissioned_host none = false
is_decommissioned_host (some host) = elim host.lifecycle_state [
  | LifecycleState.active ↦ false
  | LifecycleState.decommissioned ↦ true
]

abbrev is_offline : HostHealthState → Bool
is_offline offline = true
is_offline healthy = false
is_offline stale = false

-- `was_offline`
abbrev was_offline : Settings → ℕ → Option Host → Bool
was_offline settings timestamp none = true
was_offline settings timestamp (some host) =
    is_offline (host_health settings host timestamp) || not (str_eq host.status "online")

abbrev online_event : ℕ → HostFacts → ℕ → ActivityEvent
online_event host_id facts timestamp = record {
  host_id = host_id;
  timestamp = timestamp;
  event_type = EventType.host_online;
  port = none;
  protocol = none;
  bind_address = none;
  source = none;
  identity_context = facts.hostname;
  reservation_id = none;
}

pub data HeartbeatError : Type 0 where
  host_decommissioned : HeartbeatError

unfoldable pub heartbeat_over : Settings → ℕ → HostFacts → ℕ → Option Host → Db → Db
unfolding upsert
heartbeat_over settings host_id facts timestamp existing db = record db {
  hosts = upsert host_id facts timestamp db.hosts;
  activity =
      if was_offline settings timestamp existing
      then db.activity ++ online_event host_id facts timestamp ∷ []
      else db.activity;
}

unfoldable pub record_heartbeat : Settings → ℕ → HostFacts → ℕ → Db → Result HeartbeatError Db
unfolding heartbeat_over
record_heartbeat settings host_id facts timestamp db =
    let existing = host_by_id host_id db.hosts in
    if is_decommissioned_host existing
    then err host_decommissioned
    else ok (heartbeat_over settings host_id facts timestamp existing db)

abbrev pub consumed_by : ℕ → EnrollmentToken → Bool
consumed_by host_id t = elim t.consumed_by_host_id [ none ↦ false | some i ↦ i == host_id ]

abbrev pub without_consumer : EnrollmentToken → EnrollmentToken
without_consumer t = record t { consumed_by_host_id = none }

unfoldable pub purged : ℕ → Db → Db
purged host_id db = record db {
  hosts = select (λ h. not (h.id == host_id)) db.hosts;
  reservations = select (λ r. not (r.host_id == host_id)) db.reservations;
  allocations = select (λ a. not (a.host_id == host_id)) db.allocations;
  probes = select (λ p. not (p.host_id == host_id)) db.probes;
  upgrades = select (λ u. not (u.host_id == host_id)) db.upgrades;
  ports = select (λ r. not (r.host_id == host_id)) db.ports;
  port_events = select (λ e. not (e.host_id == host_id)) db.port_events;
  activity = select (λ e. not (e.host_id == host_id)) db.activity;
  scans = select (λ s. not (s.host_id == host_id)) db.scans;
  credentials = select (λ c. not (c.host_id == host_id)) db.credentials;
  enrollment_tokens = update (consumed_by host_id) without_consumer db.enrollment_tokens;
}

unfoldable pub purged_if : ℕ → Db → Option Host → Bool × Db
unfolding purged
purged_if host_id db none = (false, db)
purged_if host_id db (some _) = (true, purged host_id db)

-- `delete`: whether there was such a host, and what is left.
unfoldable pub delete_host : ℕ → Db → Bool × Db
unfolding purged_if
delete_host host_id db = purged_if host_id db (host_by_id host_id db.hosts)
