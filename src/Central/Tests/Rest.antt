-- ===== src/Central/Tests/Rest.antt =====
-- The theorems on the release limit, probes, health and upgrades at concrete inputs.
use port_forge.Prelude.{
  ℕ, zero, suc, ◌+◌, ◌*◌, ◌≤◌, ◌<◌, String, Option, none, some, List, [], ◌∷◌, true, false, refl,
  ◌≡◌, ◌≢◌, ◌⊎◌, ◌↔◌, arith, any, ◌==◌, update_first,
}
use port_forge.Prelude.Result.{ok, err, is_ok, value, eq-value}
use port_forge.Central.Vocabulary.{
  tcp, AllocationStatus, ProbeStatus, downloading, succeeded, failed,
}
use port_forge.Central.Tables.{Db, Allocation, HostProbe, HostUpgrade, CentralReservation}
use port_forge.Central.Health.{
  derive_health_state, healthy, stale, offline, derive_health_state_ranges,
}
use port_forge.Central.Allocations.{AllocationOut, release_allocation}
use port_forge.Central.Probes.{
  verified_free, verified_occupied, not_remote_capable, classify_bind_probe, queue_probe,
  submit_result, get_probe_evidence, any_address,
}
use port_forge.Central.Probes.Queue.{IsBounded, queue_probe-IsBounded}
use port_forge.Central.Probes.Evidence.{classify_bind_probe_iff, submit_result_idempotent}
use port_forge.Central.Search.{CandidateSearchResult, resolve_with_probe_awareness}
use port_forge.Central.Search.Resolve.{resolve-IsHonest}
use port_forge.Central.Upgrades.{
  create_upgrade, update_upgrade_status, StatusReport, advance, UpgradeIn, upgrade_by_id,
  integrity_error,
}
use port_forge.Central.Upgrades.Progress.{
  Transition, update_upgrade_status-Transition, Delivered, accepted_reports, accepted_reports_bound,
}
use port_forge.Central.Upgrades.Rows.{IsSingle}
use port_forge.Central.Upgrades.Single.{Steps-IsSingle, created_one, reported, stop, step}
use port_forge.Central.Versions.{Versions}
use port_forge.Central.Samples.{env, row, empty}

-- Reservations of allocation 9 at ascending ports.
many : ℕ → ℕ → List CentralReservation
many zero port = []
many (suc n) port = row port port (some 9) ∷ many n (suc port)

abbrev big_allocation : Allocation
big_allocation = record {
  id = 9;
  host_id = 1;
  project = "shop";
  status = AllocationStatus.active;
  released_at = none;
  request_id = none;
  request_payload_hash = none;
}

abbrev big : Db
unfolding many
big = record empty { reservations = many 1001 3000; allocations = big_allocation ∷ [] }

big_released : is_ok (release_allocation env 9 big) ≡ true
unfolding release_allocation many
big_released = refl

abbrev big_after : AllocationOut × Db
big_after = value (release_allocation env 9 big) big_released

-- 1,001 reservations: the one at the highest port stays.
big_row_stays : any (λ r. r.port == 4000) big_after.1.reservations ≡ true
unfolding release_allocation many big_released
big_row_stays = refl

derive_health_state_ranges_example :
    ((derive_health_state 0 60 300 61000000).0 ≡ healthy ↔ (61000000 < 0 + (60 + 1) * 1000000))
    × ((derive_health_state 0 60 300 61000000).0 ≡ stale
        ↔ ((0 + (60 + 1) * 1000000 ≤ 61000000) × (61000000 < 0 + (300 + 1) * 1000000)))
    × ((derive_health_state 0 60 300 61000000).0 ≡ offline ↔ (0 + (300 + 1) * 1000000 ≤ 61000000))
derive_health_state_ranges_example = derive_health_state_ranges 0 60 300 61000000 (omega arith)

abbrev free_probe : HostProbe
free_probe = record {
  id = 4;
  host_id = 1;
  port = 6379;
  protocol = tcp;
  bind_address = "0.0.0.0";
  status = ProbeStatus.completed;
  result_available = some true;
  result_reason = none;
  delivered_at = none;
  completed_at = some 5;
  expires_at = 2000000000;
  created_at = 4;
}

classify_bind_probe_iff_example :
    ((classify_bind_probe (some free_probe) 7 ≡ verified_free) ↔ (
      (free_probe.status ≡ ProbeStatus.completed)
      × (7 ≤ free_probe.expires_at)
      × (free_probe.result_available ≡ some true)))
    × ((classify_bind_probe (some free_probe) 7 ≡ verified_occupied) ↔ (
        (free_probe.status ≡ ProbeStatus.completed)
        × (7 ≤ free_probe.expires_at)
        × ((free_probe.result_available ≡ some false) ⊎ (free_probe.result_available ≡ none))))
    × (classify_bind_probe none 7 ≡ not_remote_capable)
classify_bind_probe_iff_example = classify_bind_probe_iff free_probe 7

abbrev probed : Db
probed = record empty { probes = free_probe ∷ [] }

bounded : IsBounded env probed.probes
bounded h = ground arith

queue_probe-IsBounded_example : IsBounded env (queue_probe env 1 6380 tcp "0.0.0.0" probed).1.probes
queue_probe-IsBounded_example = queue_probe-IsBounded env 1 6380 tcp "0.0.0.0" probed bounded

-- A probe that waits for its result.
abbrev waiting : Db
waiting = record empty {
  probes = (record free_probe { status = ProbeStatus.delivered; result_available = none }) ∷ [];
}

submitted : is_ok (submit_result env 1 4 (some true) none waiting) ≡ true
unfolding submit_result
submitted = refl

abbrev submission : HostProbe × Db
submission = value (submit_result env 1 4 (some true) none waiting) submitted

submit_result_idempotent_example :
    submit_result env 1 4 (some false) (some "in use") submission.1
    ≡ ok (submission.0, submission.1)
submit_result_idempotent_example =
    submit_result_idempotent env env 1 4 (some true) (some false) none (some "in use") waiting
      (eq-value (submit_result env 1 4 (some true) none waiting) submitted)

abbrev redis_port : CandidateSearchResult
redis_port = record { port = some 6379; candidates_considered = 1; excluded = [] }

abbrev no_port : List ℕ → CandidateSearchResult
no_port exclude = record { port = none; candidates_considered = 1; excluded = exclude }

verified : (resolve_with_probe_awareness env 1 tcp redis_port no_port probed).1 ≡ verified_free
unfolding resolve_with_probe_awareness
verified = refl

resolve-IsHonest_example :
    (p : ℕ) × ((resolve_with_probe_awareness env 1 tcp redis_port no_port probed).0.port ≡ some p)
    × (get_probe_evidence env 1 p tcp any_address probed ≡ verified_free)
resolve-IsHonest_example = resolve-IsHonest env 1 tcp redis_port no_port probed verified

-- Versions that are never comparable.
abbrev no_versions : Versions
no_versions = record { Version = Unit; parse = λ s. none; lt = λ a b. false; eq = λ a b. true }

abbrev upgrade_in : UpgradeIn
upgrade_in = record {
  host_id = 1;
  target_version = "1.1.0";
  artifact_url = "https://example.org/agent-1.1.0.whl";
  artifact_sha256 = "00";
  artifact_filename = none;
  request_id = none;
  created_by = "admin";
  previous_artifact_url = none;
  previous_artifact_sha256 = none;
}

upgrade_made : is_ok (create_upgrade no_versions env upgrade_in empty) ≡ true
unfolding create_upgrade
upgrade_made = refl

abbrev upgrading : HostUpgrade × Db
upgrading = value (create_upgrade no_versions env upgrade_in empty) upgrade_made

abbrev download : StatusReport
download = record { new_state = downloading; failure_reason = none; reported_version = none }

advanced : is_ok (update_upgrade_status env 1 100 download upgrading.1) ≡ true
unfolding update_upgrade_status create_upgrade upgrade_made
advanced = refl

abbrev advance_result : HostUpgrade × Db
advance_result = value (update_upgrade_status env 1 100 download upgrading.1) advanced

update_upgrade_status-Transition_example :
    (u : HostUpgrade) × (upgrade_by_id 100 upgrading.1.upgrades ≡ some u)
    × (u.host_id ≡ 1)
    × Transition u.state advance_result.0.state
    × (advance_result.0.state ≡ downloading)
    × (advance_result.1.upgrades
        ≡ update_first (λ w. w.id == u.id) (advance 1000000000 download) upgrading.1.upgrades)
    × ((downloading ≢ succeeded) ⊎ (none ≡ some u.target_version))
update_upgrade_status-Transition_example =
    update_upgrade_status-Transition env 1 100 download upgrading.1
      (eq-value (update_upgrade_status env 1 100 download upgrading.1) advanced)

abbrev fail : StatusReport
fail = record download { new_state = failed; failure_reason = some "disk full" }

-- A download, the same again, one of another host, a failure, and one after it: two are accepted.
abbrev reports : List Delivered
reports =
    record { env = env; host_id = 1; status = download }
    ∷ record { env = env; host_id = 1; status = download }
    ∷ record { env = env; host_id = 2; status = fail }
    ∷ record { env = env; host_id = 1; status = fail }
    ∷ record { env = env; host_id = 1; status = download }
    ∷ []

accepted_two : accepted_reports 100 reports upgrading.1 ≡ 2
unfolding accepted_reports update_upgrade_status create_upgrade upgrade_made
accepted_two = refl

accepted_reports_bound_example : accepted_reports 100 reports upgrading.1 ≤ 6
accepted_reports_bound_example = accepted_reports_bound 100 reports upgrading.1

-- An empty key is not looked up, and may be used once for a host.
abbrev keyless : HostUpgrade
keyless = record upgrading.0 { request_id = some ""; state = failed }

empty_key_refused :
    create_upgrade no_versions env
      (record upgrade_in { request_id = some "" })
      (record upgrading.1 { upgrades = keyless ∷ [] })
    ≡ err integrity_error
unfolding create_upgrade upgrade_made
empty_key_refused = refl

abbrev no_file_name : String → Option String
no_file_name url = none

distinct : (i j : ℕ) → env.uuid i ≡ env.uuid j → i ≡ j
distinct i j h = omega arith

nothing_yet : IsSingle env.uuid empty.upgrades
nothing_yet = record { single = λ h. omega arith; ids = tt }

Steps-IsSingle_example : IsSingle env.uuid advance_result.1.upgrades
Steps-IsSingle_example =
    Steps-IsSingle no_versions no_file_name env.uuid distinct
      (step
        (created_one env upgrade_in empty refl
          (eq-value (create_upgrade no_versions env upgrade_in empty) upgrade_made))
        (step
          (reported env 1 100 download upgrading.1 refl
            (eq-value (update_upgrade_status env 1 100 download upgrading.1) advanced))
          (stop advance_result.1)))
      nothing_yet
