-- ===== src/Central/Tests/Enrolling.antt =====
-- The theorems on enrollment at concrete inputs.
use port_forge.Prelude.{
  ℕ, String, none, some, [], ◌∷◌, true, false, refl, ◌≡◌, ◌==◌, select, length,
}
use port_forge.Prelude.Result.{err, is_ok, value, eq-value}
use port_forge.Central.Tables.{Db}
use port_forge.Central.Lifecycle.{is_live_credential}
use port_forge.Central.Hosts.{HostFacts}
use port_forge.Central.Enrollment.{Enrollment, enroll_host, require_agent, token_consumed}
use port_forge.Central.Enrollment.Tokens.{mint, heartbeat, remove, answer_all, enroll_host_once}
use port_forge.Central.Enrollment.Credentials.{enroll_host-credentials}
use port_forge.Central.Samples.{empty, settings}

abbrev hash : String → String
hash s = s

abbrev facts : HostFacts
facts = record {
  hostname = "build-01";
  operating_system = "linux";
  os_version = none;
  architecture = none;
  agent_version = some "1.2.0";
  docker_available = false;
  protocol_version = none;
  contract_version = none;
  python_version = none;
}

abbrev joining : Enrollment
joining = record {
  raw_enrollment_token = "t1";
  host_id = 1;
  facts = facts;
  now = 50;
  raw_agent_token = "a2";
}

-- The host has a credential from before.
abbrev ready : Db
ready = record empty {
  credentials = record { host_id = 1; token_hash = "a1"; created_at = 0; revoked_at = none } ∷ [];
  enrollment_tokens =
      record {
        id = 1;
        token_hash = "t1";
        label = none;
        created_at = 0;
        expires_at = some 60;
        consumed_at = none;
        consumed_by_host_id = none;
      }
      ∷ [];
}

joined : is_ok (enroll_host hash joining ready) ≡ true
unfolding enroll_host
joined = refl

abbrev after : Db
after = value (enroll_host hash joining ready) joined

enroll_host_once_example :
    enroll_host hash
      (record joining { host_id = 2; now = 70 })
      (answer_all hash
        (mint 55 2 none none "t2" ∷ heartbeat settings 1 facts 60 ∷ remove 1 ∷ [])
        after)
    ≡ err token_consumed
enroll_host_once_example =
    enroll_host_once hash joining (record joining { host_id = 2; now = 70 }) ready {db' = after}
      (mint 55 2 none none "t2" ∷ heartbeat settings 1 facts 60 ∷ remove 1 ∷ [])
      (eq-value (enroll_host hash joining ready) joined) refl

enroll_host-credentials_example :
    (length (select (is_live_credential 1) after.credentials) ≡ 1)
    × ((i : ℕ)
        → (i == 1) ≡ false
        → length (select (is_live_credential i) after.credentials)
          ≡ length (select (is_live_credential i) ready.credentials))
    × (require_agent hash "a2" after ≡ some 1)
    × ((raw : String) → require_agent hash raw after ≡ some 1 → hash raw ≡ hash "a2")
enroll_host-credentials_example =
    enroll_host-credentials hash joining ready {db' = after}
      (eq-value (enroll_host hash joining ready) joined)
