-- ===== src/Central/Probes.antt =====
-- Remote bind probes: backend/app/services/probe_service.py and the queries of
-- backend/app/repositories/probe_repository.py.

pub mod Queue
pub mod Evidence
use port_forge.Prelude.{
  ℕ, zero, suc, ◌+◌, ◌*◌, String, Option, none, some, List, [], ◌∷◌, ◌++◌, map, Bool, true, false,
  not, ◌&&◌, ◌||◌, ◌==◌, ltb, leb, any, find?, select, update, take, order_by, length, str_eq,
  if◌then◌else◌,
}
use port_forge.Prelude.Result.{Result, ok, err}
use port_forge.Central.Vocabulary.{
  Protocol, protocol_eq, ProbeStatus, pending, delivered, completed, failed,
}
use port_forge.Central.Tables.{Host, HostProbe, Db, Env}
use port_forge.Central.Health.{HostHealthState, healthy, host_health}

-- The five values of `bind_probe`.
pub data BindProbe : Type 0 where
  not_remote_capable verified_free verified_occupied expired unavailable : BindProbe

abbrev pub max_probe_skip_attempts : ℕ
max_probe_skip_attempts = 5

-- The default of every `bind_address` argument.
abbrev pub any_address : String
any_address = "0.0.0.0"

-- status in ("PENDING", "DELIVERED")
abbrev pub is_open : ProbeStatus → Bool
is_open pending = true
is_open delivered = true
is_open completed = false
is_open failed = false

abbrev pub is_pending : ProbeStatus → Bool
is_pending pending = true
is_pending delivered = false
is_pending completed = false
is_pending failed = false

abbrev pub is_healthy : HostHealthState → Bool
is_healthy healthy = true
is_healthy HostHealthState.stale = false
is_healthy HostHealthState.offline = false

abbrev pub host_by_id : ℕ → List Host → Option Host
host_by_id host_id hosts = find? (λ h. h.id == host_id) hosts

-- `count_active_for_host`: open probes of a host that have not expired.
abbrev pub is_active_for : ℕ → ℕ → HostProbe → Bool
is_active_for host_id now p = p.host_id == host_id && is_open p.status && leb now p.expires_at

abbrev pub count_active_for_host : ℕ → ℕ → List HostProbe → ℕ
count_active_for_host host_id now probes = length (select (is_active_for host_id now) probes)

-- `list_pending_for_host`: the oldest pending probes that have not expired, up to a limit.
abbrev pub is_deliverable : ℕ → ℕ → HostProbe → Bool
is_deliverable host_id now p = p.host_id == host_id && is_pending p.status && leb now p.expires_at

unfoldable pub list_pending_for_host : ℕ → ℕ → ℕ → List HostProbe → List HostProbe
list_pending_for_host host_id now limit probes =
    take limit (order_by (λ p. p.created_at) (select (is_deliverable host_id now) probes))

-- ORDER BY created_at DESC LIMIT 1; of two rows created at one time, the later row.
abbrev pub newer : HostProbe → Option HostProbe → Option HostProbe
newer p none = some p
newer p (some q) = if ltb q.created_at p.created_at then some p else some q

abbrev pub latest : List HostProbe → Option HostProbe
latest [] = none
latest (p ∷ ps) = newer p (latest ps)

abbrev pub is_probe_of : ℕ → ℕ → Protocol → String → HostProbe → Bool
is_probe_of host_id port protocol bind_address p =
    p.host_id == host_id
    && p.port == port
    && protocol_eq p.protocol protocol
    && str_eq p.bind_address bind_address

unfoldable pub find_latest_for_binding :
    ℕ → ℕ → Protocol → String → List HostProbe → Option HostProbe
find_latest_for_binding host_id port protocol bind_address probes =
    latest (select (is_probe_of host_id port protocol bind_address) probes)

new_probe : Env → ℕ → ℕ → ℕ → Protocol → String → HostProbe
new_probe env id host_id port protocol bind_address = record {
  id = id;
  host_id = host_id;
  port = port;
  protocol = protocol;
  bind_address = bind_address;
  status = pending;
  result_available = none;
  result_reason = none;
  delivered_at = none;
  completed_at = none;
  expires_at = env.now + env.settings.remote_probe_ttl_seconds * 1000000;
  created_at = env.now;
}

-- The open and unexpired probe of a binding, if the latest one is such.
abbrev pub still_open : ℕ → Option HostProbe → Option HostProbe
still_open now none = none
still_open now (some p) = if is_open p.status && leb now p.expires_at then some p else none

queue_unless_open : Env → ℕ → ℕ → Protocol → String → Option HostProbe → Db → Option HostProbe × Db
unfolding new_probe
queue_unless_open env host_id port protocol bind_address (some p) db = (some p, db)
queue_unless_open env host_id port protocol bind_address none db =
    let probe = new_probe env (env.uuid (length db.probes)) host_id port protocol bind_address in
    if leb env.settings.max_pending_probes_per_host
      (count_active_for_host host_id env.now db.probes)
    then (none, db)
    else (some probe, record db { probes = db.probes ++ probe ∷ [] })

queue_for_host : Env → ℕ → ℕ → Protocol → String → Option Host → Db → Option HostProbe × Db
unfolding queue_unless_open find_latest_for_binding
queue_for_host env host_id port protocol bind_address none db = (none, db)
queue_for_host env host_id port protocol bind_address (some host) db =
    if is_healthy (host_health env.settings host env.now)
    then queue_unless_open env host_id port protocol bind_address
        (still_open env.now (find_latest_for_binding host_id port protocol bind_address db.probes))
        db
    else (none, db)

-- `queue_probe`: it flushes and never commits, so the caller's transaction covers the row.
unfoldable pub queue_probe : Env → ℕ → ℕ → Protocol → String → Db → Option HostProbe × Db
unfolding queue_for_host
queue_probe env host_id port protocol bind_address db =
    queue_for_host env host_id port protocol bind_address (host_by_id host_id db.hosts) db

abbrev pub deliver : ℕ → HostProbe → HostProbe
deliver now p = record p { status = delivered; delivered_at = some now }

abbrev pub has_id_in : List HostProbe → HostProbe → Bool
has_id_in claimed p = any (λ q. q.id == p.id) claimed

-- `claim_pending_probes`, called once for each heartbeat.
unfoldable pub claim_pending_probes : Env → ℕ → Db → List HostProbe × Db
unfolding list_pending_for_host
claim_pending_probes env host_id db =
    let claimed =
      list_pending_for_host host_id env.now env.settings.max_probes_delivered_per_heartbeat
        db.probes in
    (
      map (deliver env.now) claimed,
      record db { probes = update (has_id_in claimed) (deliver env.now) db.probes },
    )

pub data ProbeError : Type 0 where
  lookup_error ownership_error : ProbeError

-- The agent's own attempt failed, or it found the port available or not.
abbrev pub with_result : ℕ → Option Bool → Option String → HostProbe → HostProbe
with_result now none reason p = record p {
  status = failed;
  result_available = none;
  result_reason = reason;
  completed_at = some now;
}
with_result now (some available) reason p = record p {
  status = completed;
  result_available = some available;
  result_reason = reason;
  completed_at = some now;
}

submit_found :
    Env
    → ℕ
    → Option Bool
    → Option String
    → Option HostProbe
    → Db
    → Result ProbeError (HostProbe × Db)
submit_found env host_id available reason none db = err lookup_error
submit_found env host_id available reason (some p) db =
    if not (p.host_id == host_id)
    then err ownership_error
    else if not (is_open p.status)
    then ok (p, db)
    else ok (
      with_result env.now available reason p,
      record db {
        probes = update (λ q. q.id == p.id) (with_result env.now available reason) db.probes;
      },
    )

unfoldable pub submit_result :
    Env → ℕ → ℕ → Option Bool → Option String → Db → Result ProbeError (HostProbe × Db)
unfolding submit_found
submit_result env authenticated_host_id probe_id available reason db =
    submit_found env authenticated_host_id available reason
      (find? (λ p. p.id == probe_id) db.probes) db

-- `classify_bind_probe`: `expires_at` is looked at before a result is trusted.
abbrev pub classify_fresh : ProbeStatus → Option Bool → BindProbe
classify_fresh pending r = not_remote_capable
classify_fresh delivered r = not_remote_capable
classify_fresh completed (some true) = verified_free
classify_fresh completed (some false) = verified_occupied
classify_fresh completed none = verified_occupied
classify_fresh failed r = unavailable

abbrev pub classify_expired : ProbeStatus → BindProbe
classify_expired pending = not_remote_capable
classify_expired delivered = not_remote_capable
classify_expired completed = expired
classify_expired failed = unavailable

unfoldable pub classify_bind_probe : Option HostProbe → ℕ → BindProbe
classify_bind_probe none now = not_remote_capable
classify_bind_probe (some p) now =
    if ltb p.expires_at now
    then classify_expired p.status
    else classify_fresh p.status p.result_available

-- `get_probe_evidence(...).bind_probe`
unfoldable pub get_probe_evidence : Env → ℕ → ℕ → Protocol → String → Db → BindProbe
unfolding find_latest_for_binding classify_bind_probe
get_probe_evidence env host_id port protocol bind_address db =
    classify_bind_probe (find_latest_for_binding host_id port protocol bind_address db.probes)
      env.now
