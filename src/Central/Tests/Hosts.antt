-- ===== src/Central/Tests/Hosts.antt =====
-- The theorem on decommissioned hosts at a concrete input.
use port_forge.Prelude.{◌≤◌, none, some, [], ◌∷◌, true, refl, ◌≡◌, arith, select, length}
use port_forge.Prelude.Result.{is_ok, value, eq-value}
use port_forge.Central.Vocabulary.{AllocationStatus, approved}
use port_forge.Central.Tables.{Db, Host, Allocation, AgentCredential, HostUpgrade}
use port_forge.Central.Allocations.{own_row_limit}
use port_forge.Central.Lifecycle.{decommission_host, is_active_of}
use port_forge.Central.Lifecycle.Decommission.{IsClosed, decommission_host-IsClosed}
use port_forge.Central.Samples.{host, row, empty}

abbrev bundle : Allocation
bundle = record {
  id = 9;
  host_id = 1;
  project = "shop";
  status = AllocationStatus.active;
  released_at = none;
  request_id = none;
  request_payload_hash = none;
}

abbrev credential : AgentCredential
credential = record { host_id = 1; token_hash = "aa"; created_at = 0; revoked_at = none }

abbrev upgrade : HostUpgrade
upgrade = record {
  id = 3;
  host_id = 1;
  request_id = none;
  state = approved;
  target_version = "1.1.0";
  artifact_url = "https://example.org/agent.whl";
  artifact_sha256 = "00";
  artifact_filename = none;
  previous_version = none;
  previous_artifact_url = none;
  previous_artifact_sha256 = none;
  failure_reason = none;
  approved_at = none;
  claimed_at = none;
  completed_at = none;
  created_by = "admin";
}

abbrev used : Db
used = record empty {
  allocations = bundle ∷ [];
  reservations = row 7 6379 (some 9) ∷ row 8 6380 none ∷ [];
  credentials = credential ∷ [];
  upgrades = upgrade ∷ [];
}

decommissioned : is_ok (decommission_host 5 1 (some " moved ") used) ≡ true
unfolding decommission_host
decommissioned = refl

abbrev left : Host × Db
left = value (decommission_host 5 1 (some " moved ") used) decommissioned

fits : length (select (is_active_of 1) used.allocations) ≤ own_row_limit
fits = ground arith

decommission_host-IsClosed_example : IsClosed 1 left.0 left.1
decommission_host-IsClosed_example =
    decommission_host-IsClosed 5 1 (some " moved ") host used {host' = left.0} {db' = left.1} refl
      refl fits (eq-value (decommission_host 5 1 (some " moved ") used) decommissioned)
