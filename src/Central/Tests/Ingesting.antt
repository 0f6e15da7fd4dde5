-- ===== src/Central/Tests/Ingesting.antt =====
-- The theorems on snapshots and conflicts at concrete inputs.
use port_forge.Prelude.{
  ℕ, ◌+◌, ◌≤◌, ◌<◌, ◌↔◌, ◌⊎◌, String, none, some, [], ◌∷◌, true, false, refl, ◌≡◌, ◌&&◌, ◌==◌,
  arith, length, any, find?, select, is_some, if◌then◌else◌,
}
use port_forge.Prelude.Text.{normalize}
use port_forge.Prelude.Result.{ok, err, is_ok, value, eq-value}
use port_forge.Central.Vocabulary.{Protocol, tcp, udp, protocol_eq}
use port_forge.Central.Tables.{Observation, Db}
use port_forge.Central.Probes.{host_by_id}
use port_forge.Central.Canonical.{canonicalize_observations, has_key, key_lt, observation_sort_key}
use port_forge.Central.Canonical.Unique.{canonicalize_once}
use port_forge.Central.Ingestion.{
  Snapshot, IngestionResult, ingest_snapshot, is_row, is_scanned, scanned, batch_too_large,
  unknown_host, stale_snapshot,
}
use port_forge.Central.Ingestion.Mirror.{row_at}
use port_forge.Central.Ingestion.Described.{described}
use port_forge.Central.Ingestion.Snapshots.{ingest_snapshot-row_at}
use port_forge.Central.Ingestion.Delivery.{
  IsAdmissible, IsLate, IsNewer, ingest_snapshot_err_iff, submit, submit_any_order,
}
use port_forge.Central.Ingestion.Repeats.{
  submit_all, IsNothingDone, submit-repeated, submit-strictly_newer,
}
use port_forge.Central.Ingestion.History.{IsRecorded, replay_events, ingest_snapshot-IsRecorded}
use port_forge.Central.Ingestion.Rows.{HasUniqueRows, ingest_snapshot-HasUniqueRows}
use port_forge.Central.Conflicts.{list_conflicts}
use port_forge.Central.Conflicts.Agreement.{agent_disputes, agent_view, list_conflicts-agent}
use port_forge.Central.Samples.{host, row, empty}

abbrev web : Observation
web = record {
  port = 8080;
  protocol = tcp;
  bind_address = "0.0.0.0";
  state = "active";
  source = "process";
  pid = some 41;
  process_name = some "nginx";
  process_path = none;
  working_directory = none;
  container_id = none;
  container_name = none;
  container_image = none;
  container_port = none;
  docker_compose_project = none;
  service_name = none;
  project_name = none;
  purpose = none;
  category = none;
  detection_confidence = some "high";
  first_seen = 100;
  last_seen = 200;
}

abbrev contained : Observation
contained = record web {
  source = "docker";
  pid = none;
  process_name = none;
  container_id = some "c1";
  container_name = some "shop-web";
  project_name = some "shop";
  first_seen = 50;
}

abbrev names : Observation
names = record web { port = 5353; protocol = udp; process_name = some "mdns" }

-- The web port is observed twice.
abbrev first : Snapshot
first = record {
  host_id = 1;
  scan_id = 11;
  observed_at = 1000;
  observations = web ∷ names ∷ contained ∷ [];
}

abbrev second : Snapshot
second = record {
  host_id = 1;
  scan_id = 12;
  observed_at = 2000;
  observations = record contained { project_name = some "other"; first_seen = 60 } ∷ [];
}

merged : (canonicalize_observations first.observations).1 ≡ 1
unfolding canonicalize_observations
merged = refl

canonicalize_once_example :
    ((port : ℕ) (protocol : Protocol) (address : String)
      → length
          (select (has_key port protocol address) (canonicalize_observations first.observations).0)
        ≡ (if any (has_key port protocol address) first.observations then 1 else 0))
    × (length (canonicalize_observations first.observations).0
          + (canonicalize_observations first.observations).1
        ≡ length first.observations)
canonicalize_once_example = canonicalize_once first.observations

first_accepted : is_ok (ingest_snapshot 10 first empty) ≡ true
unfolding ingest_snapshot
first_accepted = refl

abbrev after_first : IngestionResult × Db
after_first = value (ingest_snapshot 10 first empty) first_accepted

second_accepted : is_ok (ingest_snapshot 10 second after_first.1) ≡ true
unfolding ingest_snapshot
second_accepted = refl

abbrev after_second : IngestionResult × Db
after_second = value (ingest_snapshot 10 second after_first.1) second_accepted

-- The web port changes its owner, and the other port disappears.
second_counts :
    (after_second.0.appeared ≡ 0) × (after_second.0.changed ≡ 1) × (after_second.0.disappeared ≡ 1)
unfolding ingest_snapshot key_lt observation_sort_key
second_counts = (refl, refl, refl)

second_new : is_scanned 12 after_first.1 ≡ false
unfolding ingest_snapshot
second_new = refl

ingest_snapshot-row_at_example : row_at 1 8080 tcp "0.0.0.0" after_second.1.ports ≡ (
    if 1 == 1
    then described second
        (find? (has_key 8080 tcp "0.0.0.0") (canonicalize_observations second.observations).0)
        (row_at 1 8080 tcp "0.0.0.0" after_first.1.ports)
    else row_at 1 8080 tcp "0.0.0.0" after_first.1.ports)
ingest_snapshot-row_at_example =
    ingest_snapshot-row_at 10 second after_first.1 {r = after_second.0} {db' = after_second.1}
      second_new (eq-value (ingest_snapshot 10 second after_first.1) second_accepted) 1 8080 tcp
      "0.0.0.0"

empty-IsRecorded : IsRecorded empty
unfolding IsRecorded replay_events
empty-IsRecorded h port protocol address = refl

first-IsRecorded : IsRecorded after_first.1
first-IsRecorded =
    ingest_snapshot-IsRecorded 10 first empty {r = after_first.0} {db' = after_first.1}
      (eq-value (ingest_snapshot 10 first empty) first_accepted) empty-IsRecorded

ingest_snapshot-IsRecorded_example : IsRecorded after_second.1
ingest_snapshot-IsRecorded_example =
    ingest_snapshot-IsRecorded 10 second after_first.1 {r = after_second.0} {db' = after_second.1}
      (eq-value (ingest_snapshot 10 second after_first.1) second_accepted) first-IsRecorded

empty-HasUniqueRows : HasUniqueRows empty
unfolding HasUniqueRows
empty-HasUniqueRows h port protocol address = omega arith

first-HasUniqueRows : HasUniqueRows after_first.1
first-HasUniqueRows =
    ingest_snapshot-HasUniqueRows 10 first empty {r = after_first.0} {db' = after_first.1}
      (eq-value (ingest_snapshot 10 first empty) first_accepted) empty-HasUniqueRows

ingest_snapshot-HasUniqueRows_example : HasUniqueRows after_second.1
ingest_snapshot-HasUniqueRows_example =
    ingest_snapshot-HasUniqueRows 10 second after_first.1 {r = after_second.0}
      {db' = after_second.1} (eq-value (ingest_snapshot 10 second after_first.1) second_accepted)
      first-HasUniqueRows

ingest_snapshot_err_iff_example :
    ((ingest_snapshot 2 first empty ≡ err batch_too_large) ↔ (2 < length first.observations))
    × ((ingest_snapshot 2 first empty ≡ err unknown_host) ↔ (
        (length first.observations ≤ 2)
        × (any (λ c. c.id == 11) empty.scans ≡ false)
        × (find? (λ h. h.id == 1) empty.hosts ≡ none)))
    × ((ingest_snapshot 2 first empty ≡ err stale_snapshot) ↔ (
        (length first.observations ≤ 2)
        × (any (λ c. c.id == 11) empty.scans ≡ false)
        × IsLate 1000 (find? (λ h. h.id == 1) empty.hosts)))
    × ((is_ok (ingest_snapshot 2 first empty) ≡ true) ↔ (
        (length first.observations ≤ 2)
        × ((any (λ c. c.id == 11) empty.scans ≡ true)
            ⊎ IsNewer 1000 (find? (λ h. h.id == 1) empty.hosts))))
ingest_snapshot_err_iff_example = ingest_snapshot_err_iff 2 first empty

first-IsAdmissible : IsAdmissible 10 first empty
first-IsAdmissible = (omega arith, refl, refl, refl)

second_unknown : is_scanned 12 (submit 10 first empty) ≡ false
unfolding submit ingest_snapshot
second_unknown = refl

second-IsAdmissible : IsAdmissible 10 second empty
second-IsAdmissible = (omega arith, refl, refl, refl)

-- The first snapshot's scan id comes again after the second snapshot.
submit-repeated_example :
    let after = submit_all 10 (second ∷ []) (submit 10 first empty) in
    (r : IngestionResult) × (ingest_snapshot 10 (record second { scan_id = 11 }) after
      ≡ ok (r, after))
    × IsNothingDone 11 r
submit-repeated_example =
    submit-repeated 10 first (record second { scan_id = 11 }) (second ∷ []) empty first-IsAdmissible
      (omega arith) refl

-- Another snapshot with the time of the first.
submit-strictly_newer_example :
    ((is_ok (ingest_snapshot 10 (record second { observed_at = 1000 }) (submit 10 first empty))
        ≡ true)
      ↔ (1000 < 1000))
    × ((ingest_snapshot 10 (record second { observed_at = 1000 }) (submit 10 first empty)
          ≡ err stale_snapshot)
        ↔ (1000 ≤ 1000))
submit-strictly_newer_example =
    submit-strictly_newer 10 first (record second { observed_at = 1000 }) empty first-IsAdmissible
      refl (omega arith) second_unknown

submit_any_order_example :
    is_some (row_at 1 5353 udp "0.0.0.0" (submit 10 second (submit 10 first empty)).ports)
    ≡ is_some (row_at 1 5353 udp "0.0.0.0" (submit 10 first (submit 10 second empty)).ports)
submit_any_order_example =
    submit_any_order 10 first second empty second-IsAdmissible refl (omega arith) refl (omega arith)
      refl 1 5353 udp "0.0.0.0"

-- The web port is reserved for the shop, and used by the other project.
abbrev disputed : Db
disputed = record after_second.1 {
  reservations = record (row 7 8080 none) { bind_address = some "0.0.0.0" } ∷ row 8 9090 none ∷ [];
}

disputed_host : host_by_id 1 disputed.hosts ≡ some (scanned 2000 (scanned 1000 host))
unfolding ingest_snapshot
disputed_host = refl

list_conflicts-agent_example :
    any (λ o. o.port == 8080 && protocol_eq o.protocol tcp) (list_conflicts (some 1) disputed)
    ≡ any
        (λ c.
          c.host_id == 1
          && ((c.port == 8080 && protocol_eq c.protocol tcp)
              && agent_disputes "build-01" c (agent_view "build-01" disputed c)))
        disputed.reservations
list_conflicts-agent_example =
    list_conflicts-agent "build-01" disputed 1 (scanned 2000 (scanned 1000 host)) disputed_host
      (omega arith) 8080 tcp

disputed_reported : length (list_conflicts (some 1) disputed) ≡ 1
unfolding list_conflicts ingest_snapshot key_lt observation_sort_key is_row normalize
disputed_reported = refl
