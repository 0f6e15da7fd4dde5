-- ===== src/Central/Ingestion/Described.antt =====
-- What `ingest_snapshot` is to make of one binding, field by field.
use port_forge.Prelude.{
  ℕ, String, Option, none, some, List, [], ◌∷◌, Bool, true, ◌≡◌, refl, ap, arith, find?, ==_iff,
  eq_iff,
}
use port_forge.Central.Vocabulary.{Protocol, protocol_eq_iff}
use port_forge.Central.Tables.{Observation, CurrentPort}
use port_forge.Central.Canonical.{has_key}
use port_forge.Central.Ingestion.{Snapshot, is_row, refresh_row}
use port_forge.Central.Ingestion.Mirror.{row_at, row_after, binding_after}

-- A row that was there keeps the time at which its binding was first seen.
abbrev first_seen_of : Observation → Option CurrentPort → ℕ
first_seen_of o none = o.first_seen
first_seen_of o (some r) = r.observed.first_seen

-- The row that a snapshot is to leave for its observation `o`: the observation's values.
abbrev pub described_row : Snapshot → Observation → Option CurrentPort → CurrentPort
described_row s o old = record {
  host_id = s.host_id;
  observed = record {
    port = o.port;
    protocol = o.protocol;
    bind_address = o.bind_address;
    state = o.state;
    source = o.source;
    pid = o.pid;
    process_name = o.process_name;
    process_path = o.process_path;
    working_directory = o.working_directory;
    container_id = o.container_id;
    container_name = o.container_name;
    container_image = o.container_image;
    container_port = o.container_port;
    docker_compose_project = o.docker_compose_project;
    service_name = o.service_name;
    project_name = o.project_name;
    purpose = o.purpose;
    category = o.category;
    detection_confidence = o.detection_confidence;
    first_seen = first_seen_of o old;
    last_seen = o.last_seen;
  };
  observed_at = s.observed_at;
  scan_id = s.scan_id;
}

-- A binding of the host has a row exactly if the snapshot has an observation of it.
abbrev pub described : Snapshot → Option Observation → Option CurrentPort → Option CurrentPort
described s none old = none
described s (some o) old = some (described_row s o old)

find?-true {ℓ} :
    {A : Type ℓ} (p : A → Bool) (xs : List A) {x : A} → find? p xs ≡ some x → p x ≡ true
find?-true p [] h = cc
find?-true p (y ∷ xs) {x} h = ground (arith, find?-true p xs {x = x})

refresh_row-described :
    (s : Snapshot) (o : Observation) (r : CurrentPort)
    → r.host_id ≡ s.host_id
    → r.observed.port ≡ o.port
    → r.observed.protocol ≡ o.protocol
    → r.observed.bind_address ≡ o.bind_address
    → refresh_row s o r ≡ described_row s o (some r)
unfolding refresh_row
refresh_row-described s o r h p t a = cc

pub binding_after-described :
    (s : Snapshot) (port : ℕ) (protocol : Protocol) (address : String) (os : List Observation)
    (ports : List CurrentPort)
    → binding_after s
        (find? (has_key port protocol address) os)
        (row_at s.host_id port protocol address ports)
      ≡ described s
          (find? (has_key port protocol address) os)
          (row_at s.host_id port protocol address ports)
unfolding binding_after row_after is_row has_key
binding_after-described s port protocol address os ports =
    for_each (find? (has_key port protocol address) os)
      (row_at s.host_id port protocol address ports)
      (λ o k. find?-true (has_key port protocol address) os {x = o} k)
      (λ r k. find?-true (is_row s.host_id port protocol address) ports {x = r} k)
  where
    for_each :
        (found : Option Observation) (old : Option CurrentPort)
        → ((o : Observation) → found ≡ some o → has_key port protocol address o ≡ true)
        → ((r : CurrentPort) → old ≡ some r → is_row s.host_id port protocol address r ≡ true)
        → binding_after s found old ≡ described s found old
    for_each none old k l = refl
    for_each (some o) none k l = refl
    for_each (some o) (some r) k l =
        let a = k o refl in
        let b = l r refl in
        ap some (
          refresh_row-described s o r (ground (arith, b, ==_iff r.host_id s.host_id))
            (ground (arith, a, b, ==_iff o.port port, ==_iff r.observed.port port))
            (ground (
              arith,
              a,
              b,
              protocol_eq_iff o.protocol protocol,
              protocol_eq_iff r.observed.protocol protocol,
            ))
            (ground
              (arith, a, b, eq_iff o.bind_address address, eq_iff r.observed.bind_address address)))
