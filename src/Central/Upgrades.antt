-- ===== src/Central/Upgrades.antt =====
-- Agent upgrades: backend/app/services/upgrade_service.py and the queries of
-- backend/app/repositories/upgrade_repository.py. A text that is no known state is refused like a
-- state that an agent may not set, so a reported state is an `UpgradeState`. The file name of a
-- URL (`urlparse`, `PurePosixPath`) is the parameter `url_file_name`.
pub mod Progress
pub mod Rows
pub mod Single
use port_forge.Prelude.{
  ℕ, zero, suc, String, Option, none, some, List, [], ◌∷◌, ◌++◌, map, Bool, true, false, not, ◌&&◌,
  ◌||◌, ◌==◌, ltb, leb, any, is_some, find?, select, update, update_first, length, is_truthy,
  opt_str_eq, str_eq, or_default, or_else, if◌then◌else◌,
}
use port_forge.Prelude.Result.{Result, ok, err, ◌>>=◌}
use port_forge.Central.Vocabulary.{
  UpgradeState, approved, waiting_for_agent, downloading, verifying, installing, restarting,
  verifying_health, succeeded, failed, rolled_back, LifecycleState,
}
use port_forge.Central.Tables.{Host, HostUpgrade, Db, Env, Settings}
use port_forge.Central.Health.{HostHealthState, healthy, stale, offline, host_health}
use port_forge.Central.Probes.{host_by_id}
use port_forge.Central.Versions.{Versions, Comparison, less, same, greater, compare_versions}

-- `TERMINAL_STATES`
abbrev pub is_terminal : UpgradeState → Bool
is_terminal succeeded = true
is_terminal failed = true
is_terminal rolled_back = true
is_terminal _ = false

-- The position in `_AGENT_STATES_ORDER`, from 1; 0 for a state that is not in it.
abbrev pub order_of : UpgradeState → ℕ
order_of approved = 1
order_of waiting_for_agent = 2
order_of downloading = 3
order_of verifying = 4
order_of installing = 5
order_of restarting = 6
order_of verifying_health = 7
order_of succeeded = 8
order_of failed = 0
order_of rolled_back = 0

-- `_AGENT_SETTABLE`
abbrev pub is_agent_settable : UpgradeState → Bool
is_agent_settable downloading = true
is_agent_settable verifying = true
is_agent_settable installing = true
is_agent_settable restarting = true
is_agent_settable verifying_health = true
is_agent_settable succeeded = true
is_agent_settable failed = true
is_agent_settable approved = false
is_agent_settable waiting_for_agent = false
is_agent_settable rolled_back = false

pub data UpgradeError : Type 0 where
  host_not_found upgrade_not_found not_owner host_decommissioned downgrade artifact_mismatch :
      UpgradeError
  upgrade_pending already_terminal not_settable not_forward version_unconfirmed : UpgradeError
  no_previous_version no_previous_artifact integrity_error : UpgradeError

abbrev pub is_active_for : ℕ → HostUpgrade → Bool
is_active_for host_id u = u.host_id == host_id && not (is_terminal u.state)

-- `get_non_terminal_for_host`
abbrev pub non_terminal_for_host : ℕ → List HostUpgrade → Option HostUpgrade
non_terminal_for_host host_id rows = find? (is_active_for host_id) rows

abbrev pub upgrade_by_id : ℕ → List HostUpgrade → Option HostUpgrade
upgrade_by_id id rows = find? (λ u. u.id == id) rows

-- `get_by_request_id_for_host`, which the caller asks only for a key that is not empty.
abbrev pub upgrade_by_request : ℕ → Option String → List HostUpgrade → Option HostUpgrade
upgrade_by_request host_id request_id rows =
    if is_truthy request_id
    then find? (λ u. u.host_id == host_id && opt_str_eq u.request_id request_id) rows
    else none

pub record UpgradeIn : Type 0 where
  pub host_id : ℕ
  pub target_version : String
  pub artifact_url : String
  pub artifact_sha256 : String
  pub artifact_filename : Option String
  pub request_id : Option String
  pub created_by : String
  pub previous_artifact_url : Option String
  pub previous_artifact_sha256 : Option String

abbrev is_less : Comparison → Bool
is_less less = true
is_less same = false
is_less greater = false

-- `version_compare(target, agent_version) < 0`, for an agent whose version is known.
unfoldable pub is_downgrade : Versions → String → Option String → Bool
unfolding compare_versions
is_downgrade v target none = false
is_downgrade v target (some current) =
    if str_eq current "" then false else is_less (compare_versions v target current)

-- The configured artifact, where all three settings are set and the version is the configured one.
unfoldable pub artifact_matches : Settings → UpgradeIn → Bool
artifact_matches s u =
    if is_truthy s.update_target_version
      && (is_truthy s.update_artifact_url
          && (is_truthy s.update_artifact_sha256
              && opt_str_eq s.update_target_version (some u.target_version)))
    then opt_str_eq s.update_artifact_url (some u.artifact_url)
      && opt_str_eq s.update_artifact_sha256 (some u.artifact_sha256)
    else true

abbrev initial_state : HostHealthState → UpgradeState
initial_state offline = waiting_for_agent
initial_state healthy = approved
initial_state stale = approved

abbrev approval_time : ℕ → HostHealthState → Option ℕ
approval_time now offline = none
approval_time now healthy = some now
approval_time now stale = some now

abbrev is_decommissioned : LifecycleState → Bool
is_decommissioned LifecycleState.decommissioned = true
is_decommissioned LifecycleState.active = false

abbrev found : {A : Type 0} → Option A → UpgradeError → Result UpgradeError A
found none e = err e
found (some a) e = ok a

abbrev pub new_upgrade : Env → Host → UpgradeIn → ℕ → HostUpgrade
new_upgrade env host u id =
    let health = host_health env.settings host env.now in
    record {
      id = id;
      host_id = u.host_id;
      request_id = u.request_id;
      state = initial_state health;
      target_version = u.target_version;
      artifact_url = u.artifact_url;
      artifact_sha256 = u.artifact_sha256;
      artifact_filename = u.artifact_filename;
      previous_version = host.agent_version;
      previous_artifact_url = u.previous_artifact_url;
      previous_artifact_sha256 = u.previous_artifact_sha256;
      failure_reason = none;
      approved_at = approval_time env.now health;
      claimed_at = none;
      completed_at = none;
      created_by = u.created_by;
    }

abbrev pub add_upgrade : HostUpgrade → Db → Db
add_upgrade u db = record db { upgrades = db.upgrades ++ u ∷ [] }

-- `uq_host_upgrades_host_request`: SQL holds no two NULL keys to be equal.
abbrev pub repeats_request : HostUpgrade → HostUpgrade → Bool
repeats_request new u =
    u.host_id == new.host_id && (is_some new.request_id && opt_str_eq u.request_id new.request_id)

-- The checks and the insertion for a request that is no repetition.
create_new : Versions → Env → UpgradeIn → Host → Db → Result UpgradeError (HostUpgrade × Db)
unfolding is_downgrade artifact_matches host_health
create_new v env u host db =
    if is_downgrade v u.target_version host.agent_version
    then err downgrade
    else if not (artifact_matches env.settings u)
    then err artifact_mismatch
    else elim (non_terminal_for_host u.host_id db.upgrades) [
      | some busy ↦ err upgrade_pending
      | none ↦
          let row = new_upgrade env host u (env.uuid (length db.upgrades)) in
          if any (repeats_request row) db.upgrades
          then err integrity_error
          else ok (row, add_upgrade row db)
    ]

create_for : Versions → Env → UpgradeIn → Db → Host → Result UpgradeError (HostUpgrade × Db)
unfolding create_new
create_for v env u db host =
    if is_decommissioned host.lifecycle_state
    then err host_decommissioned
    else elim (upgrade_by_request u.host_id u.request_id db.upgrades) [
      | some existing ↦ ok (existing, db)
      | none ↦ create_new v env u host db
    ]

unfoldable pub create_upgrade :
    Versions → Env → UpgradeIn → Db → Result UpgradeError (HostUpgrade × Db)
unfolding create_for
create_upgrade v env u db =
    found (host_by_id u.host_id db.hosts) host_not_found >>= create_for v env u db

pub record StatusReport : Type 0 where
  pub new_state : UpgradeState
  pub failure_reason : Option String
  pub reported_version : Option String

-- A report of progress moves forward; one of failure may come from any state.
abbrev pub moves_forward : UpgradeState → UpgradeState → Bool
moves_forward current failed = true
moves_forward current new = ltb (order_of current) (order_of new)

-- Success wants the agent to run the target version.
abbrev pub is_confirmed : HostUpgrade → StatusReport → UpgradeState → Bool
is_confirmed u report succeeded =
    is_truthy report.reported_version && opt_str_eq report.reported_version (some u.target_version)
is_confirmed u report _ = true

-- The checks of a report on the upgrade `u` from the host.
unfoldable pub check_report : ℕ → HostUpgrade → StatusReport → Result UpgradeError Unit
check_report host_id u report =
    if not (u.host_id == host_id)
    then err not_owner
    else if is_terminal u.state
    then err already_terminal
    else if not (is_agent_settable report.new_state)
    then err not_settable
    else if not (moves_forward u.state report.new_state)
    then err not_forward
    else if not (is_confirmed u report report.new_state)
    then err version_unconfirmed
    else ok tt

abbrev pub completion : ℕ → UpgradeState → Option ℕ → Option ℕ
completion now failed old = some now
completion now succeeded old = some now
completion now _ old = old

abbrev reason_for : UpgradeState → Option String → Option String → Option String
reason_for failed reason old = reason
reason_for _ reason old = old

abbrev pub advance : ℕ → StatusReport → HostUpgrade → HostUpgrade
advance now report u = record u {
  state = report.new_state;
  claimed_at = or_else u.claimed_at (some now);
  failure_reason = reason_for report.new_state report.failure_reason u.failure_reason;
  completed_at = completion now report.new_state u.completed_at;
}

-- `failure_reason or "Upgrade failed without reason."`
abbrev shown_reason : Option String → String
shown_reason none = "Upgrade failed without reason."
shown_reason (some r) = if str_eq r "" then "Upgrade failed without reason." else r

-- What a report leaves in `last_error` of the host's row.
abbrev report_to_host : StatusReport → UpgradeState → Host → Host
report_to_host report failed host = record host {
  last_error = some (shown_reason report.failure_reason);
}
report_to_host report succeeded host = record host { last_error = none }
report_to_host report _ host = host

apply_report : Env → ℕ → StatusReport → HostUpgrade → Db → HostUpgrade × Db
apply_report env host_id report u db = (
  advance env.now report u,
  record db {
    upgrades = update_first (λ w. w.id == u.id) (advance env.now report) db.upgrades;
    hosts = update_first (λ h. h.id == host_id) (report_to_host report report.new_state) db.hosts;
  },
)

update_found : Env → ℕ → StatusReport → Db → HostUpgrade → Result UpgradeError (HostUpgrade × Db)
unfolding check_report apply_report
update_found env host_id report db u =
    check_report host_id u report >>= λ _. ok (apply_report env host_id report u db)

unfoldable pub update_upgrade_status :
    Env → ℕ → ℕ → StatusReport → Db → Result UpgradeError (HostUpgrade × Db)
unfolding update_found
update_upgrade_status env host_id upgrade_id report db =
    found (upgrade_by_id upgrade_id db.upgrades) upgrade_not_found
    >>= update_found env host_id report db

-- The artifact that an upgrade replaced, if its metadata are complete.
abbrev previous_artifact : Option String → Option String → Option (String × String)
previous_artifact (some url) (some sha) =
    if str_eq url "" then none else if str_eq sha "" then none else some (url, sha)
previous_artifact none _ = none
previous_artifact (some _) none = none

abbrev previous_of : Option String → Option String
previous_of none = none
previous_of (some v) = if str_eq v "" then none else some v

abbrev blocks : ℕ → Option HostUpgrade → Bool
blocks id none = false
blocks id (some u) = not (u.id == id)

-- `original.state = "ROLLED_BACK"`, unless it had failed or been rolled back before.
abbrev pub as_rolled_back : ℕ → HostUpgrade → HostUpgrade
as_rolled_back now u = elim u.state [
  | failed ↦ u
  | rolled_back ↦ u
  | _ ↦ record u { state = rolled_back; completed_at = or_else u.completed_at (some now) }
]

abbrev rollback_row :
    (String → Option String)
    → Env
    → Host
    → HostUpgrade
    → String
    → String × String
    → String
    → ℕ
    → HostUpgrade
rollback_row url_file_name env host original version (url, sha) created_by id =
    let health = host_health env.settings host env.now in
    record {
      id = id;
      host_id = original.host_id;
      request_id = none;
      state = initial_state health;
      target_version = version;
      artifact_url = url;
      artifact_sha256 = sha;
      artifact_filename = url_file_name url;
      previous_version = host.agent_version;
      previous_artifact_url = some original.artifact_url;
      previous_artifact_sha256 = some original.artifact_sha256;
      failure_reason = none;
      approved_at = approval_time env.now health;
      claimed_at = none;
      completed_at = none;
      created_by = created_by;
    }

abbrev pub replace_original : ℕ → HostUpgrade → HostUpgrade → Db → Db
replace_original now original row db = record db {
  upgrades = update_first (λ w. w.id == original.id) (as_rolled_back now) db.upgrades ++ row ∷ [];
}

rollback_on :
    (String → Option String)
    → Env
    → String
    → HostUpgrade
    → String
    → String × String
    → Db
    → Host
    → Result UpgradeError (HostUpgrade × Db)
unfolding host_health
rollback_on url_file_name env created_by original version artifact db host =
    if is_decommissioned host.lifecycle_state
    then err host_decommissioned
    else if blocks original.id (non_terminal_for_host original.host_id db.upgrades)
    then err upgrade_pending
    else let row =
        rollback_row url_file_name env host original version artifact created_by
          (env.uuid (length db.upgrades)) in
      ok (row, replace_original env.now original row db)

rollback_found :
    (String → Option String)
    → Env
    → String
    → Db
    → HostUpgrade
    → Result UpgradeError (HostUpgrade × Db)
unfolding rollback_on
rollback_found url_file_name env created_by db original =
    found (previous_of original.previous_version) no_previous_version >>= λ version.
    found (previous_artifact original.previous_artifact_url original.previous_artifact_sha256)
      no_previous_artifact
    >>= λ artifact.
        found (host_by_id original.host_id db.hosts) host_not_found
        >>= rollback_on url_file_name env created_by original version artifact db

unfoldable pub rollback_upgrade :
    (String → Option String) → Env → ℕ → String → Db → Result UpgradeError (HostUpgrade × Db)
unfolding rollback_found
rollback_upgrade url_file_name env upgrade_id created_by db =
    found (upgrade_by_id upgrade_id db.upgrades) upgrade_not_found
    >>= rollback_found url_file_name env created_by db

abbrev pub as_failed : ℕ → String → HostUpgrade → HostUpgrade
as_failed now reason u = record u {
  state = failed;
  failure_reason = some reason;
  completed_at = some now;
}

-- `fail_active_upgrades_for_host`, without the number of rows that it returns.
unfoldable pub fail_active_for_host : ℕ → ℕ → String → Db → Db
fail_active_for_host now host_id reason db = record db {
  upgrades = update (is_active_for host_id) (as_failed now reason) db.upgrades;
}
