-- ===== src/Central/Conflicts/Agreement.antt =====
-- The conflicts that the server reports, against the agent's rule in
-- agent/portforge_agent/evaluate.py.
use port_forge.Prelude.{
  ℕ, ◌≤◌, String, Option, none, some, List, [], ◌∷◌, Bool, true, false, not, ◌&&◌, ◌||◌, ◌==◌, ◌≡◌,
  refl, ap, ◌∙◌, arith, any, any-congr, any-order_by, any-select, order_by, length-order_by,
  take-eq, select, length, is_some, str_eq, Bool-cases, inl, inr, ==_iff, if◌then◌else◌,
}
use port_forge.Central.Vocabulary.{Protocol, protocol_eq, Source, PortState, conflict, system_owned}
use port_forge.Central.Tables.{Host, CentralReservation, CurrentPort, Db}
use port_forge.Central.Probes.{host_by_id}
use port_forge.Central.Conflicts.{
  same_owner, ConflictOut, get_current, address_or_wildcard, conflict_on, conflict_of,
  conflicts_over, with_conflict, listed, listed_limit, list_conflicts,
}
use port_forge.Central.Reservations.{list_for_host}
use port_forge.Agent.Records.{Listener, Reservation}
use port_forge.Agent.Evaluate.{evaluate_port, EvaluatedPort, project_matches}

-- The row as the agent's listener, with its source's text read back.
abbrev pub source_of : String → Source
source_of s =
    if str_eq s "process"
    then Source.process
    else if str_eq s "docker"
    then Source.docker
    else if str_eq s "system"
    then Source.system
    else Source.reservation

abbrev pub listener_of : CurrentPort → Listener
listener_of r = record {
  source = source_of r.observed.source;
  port = r.observed.port;
  host_port = none;
  protocol = r.observed.protocol;
  bind_address = r.observed.bind_address;
  pid = r.observed.pid;
  process_name = r.observed.process_name;
  process_path = r.observed.process_path;
  working_directory = r.observed.working_directory;
  raw_state = none;
  container_id = r.observed.container_id;
  container_name = r.observed.container_name;
  project_name = r.observed.project_name;
}

-- The reservation as the agent's, on the host with this name.
abbrev pub local_of : String → CentralReservation → Reservation
local_of host_id c = record {
  reservation_id = c.id;
  host_id = host_id;
  port = c.port;
  protocol = c.protocol;
  project = c.project;
  service = c.service;
  purpose = c.purpose;
  bind_address = c.bind_address;
  notes = c.notes;
  created_at = 0;
  updated_at = 0;
}

abbrev pub option_map {ℓ κ} : {A : Type ℓ} {B : Type κ} → (A → B) → Option A → Option B
option_map f none = none
option_map f (some x) = some (f x)

-- What the agent says of the reservation's port, given the row of its binding.
unfoldable pub agent_view : String → Db → CentralReservation → EvaluatedPort
agent_view host_id db c =
    evaluate_port host_id c.port c.protocol
      (option_map listener_of
        (get_current c.host_id c.port c.protocol (address_or_wildcard c.bind_address) db.ports))
      (some (local_of host_id c))

abbrev pub is_conflict : PortState → Bool
is_conflict conflict = true
is_conflict _ = false

abbrev pub is_system_owned : PortState → Bool
is_system_owned system_owned = true
is_system_owned _ = false

-- The agent sees a conflict, or the system's own listener that is not the reserving project's.
unfoldable pub agent_disputes : String → CentralReservation → EvaluatedPort → Bool
agent_disputes host_id c e =
    is_conflict e.state
    || (is_system_owned e.state
        && not (same_owner (elim e.discovered [ none ↦ none | some d ↦ d.project_name ]) c.project))

same_owner-project_matches :
    (observed : Option String) (project : String)
    → same_owner observed project ≡ project_matches observed project
unfolding same_owner project_matches
same_owner-project_matches none project = refl
same_owner-project_matches (some o) project = refl

module _ (host_id : String) (db : Db) where
  conflict_on-agent :
      (c : CentralReservation) (host : Host) (current : Option CurrentPort)
      → is_some (conflict_on c (some host) current)
        ≡ agent_disputes host_id c (
            evaluate_port host_id c.port c.protocol
              (option_map listener_of current)
              (some (local_of host_id c)))
  unfolding conflict_on agent_disputes evaluate_port
  conflict_on-agent c host none = refl
  conflict_on-agent c host (some r) =
      ground (arith, same_owner-project_matches r.observed.project_name c.project)

  conflict_of-port :
      (port : ℕ) (protocol : Protocol) (c : CentralReservation) (rest : List ConflictOut)
      → any
          (λ o. o.port == port && protocol_eq o.protocol protocol)
          (with_conflict (conflict_of db c) rest)
        ≡ (((c.port == port && protocol_eq c.protocol protocol) && is_some (conflict_of db c))
            || any (λ o. o.port == port && protocol_eq o.protocol protocol) rest)
  unfolding conflict_of
  conflict_of-port port protocol c rest =
      for_each (host_by_id c.host_id db.hosts)
        (get_current c.host_id c.port c.protocol (address_or_wildcard c.bind_address) db.ports)
    where
      for_each :
          (h : Option Host) (r : Option CurrentPort)
          → any
              (λ o. o.port == port && protocol_eq o.protocol protocol)
              (with_conflict (conflict_on c h r) rest)
            ≡ (((c.port == port && protocol_eq c.protocol protocol) && is_some (conflict_on c h r))
                || any (λ o. o.port == port && protocol_eq o.protocol protocol) rest)
      for_each none r = ground arith
      for_each (some host) none = ground arith
      for_each (some host) (some r) =
          ground (arith, Bool-cases (same_owner r.observed.project_name c.project))

  any-conflicts_over :
      (port : ℕ) (protocol : Protocol) (cs : List CentralReservation)
      → any (λ o. o.port == port && protocol_eq o.protocol protocol) (conflicts_over db cs)
        ≡ any
            (λ c. (c.port == port && protocol_eq c.protocol protocol) && is_some (conflict_of db c))
            cs
  unfolding conflicts_over
  any-conflicts_over port protocol [] = refl
  any-conflicts_over port protocol (c ∷ cs) = ground (
    arith,
    conflict_of-port port protocol c (conflicts_over db cs),
    any-conflicts_over port protocol cs,
  )

  conflict_of-agent :
      (c : CentralReservation) (host : Host)
      → host_by_id c.host_id db.hosts ≡ some host
      → is_some (conflict_of db c) ≡ agent_disputes host_id c (agent_view host_id db c)
  unfolding conflict_of agent_view
  conflict_of-agent c host f =
      ap
        (λ h. is_some (
          conflict_on c h (
            get_current c.host_id c.port c.protocol (address_or_wildcard c.bind_address) db.ports)))
        f
      ∙ conflict_on-agent c host
          (get_current c.host_id c.port c.protocol (address_or_wildcard c.bind_address) db.ports)

-- For a known host with at most 10,000 reservations, the server reports a conflict at a port exactly
-- if the host has a reservation of the port for which the agent's rule, applied to the row of the
-- reservation's address, 0.0.0.0 if it has none, gives a conflict, or gives a port of the system
-- whose project is not the reserving one.
pub list_conflicts-agent :
    (host_id : String) (db : Db) (h : ℕ) (host : Host)
    → host_by_id h db.hosts ≡ some host
    → length (select (λ c. c.host_id == h) db.reservations) ≤ listed_limit
    → (port : ℕ) (protocol : Protocol)
    → any (λ o. o.port == port && protocol_eq o.protocol protocol) (list_conflicts (some h) db)
      ≡ any
          (λ c.
            c.host_id == h
            && ((c.port == port && protocol_eq c.protocol protocol)
                && agent_disputes host_id c (agent_view host_id db c)))
          db.reservations
unfolding list_conflicts listed list_for_host
list_conflicts-agent host_id db h host found few port protocol =
    let own = select (λ c. c.host_id == h) db.reservations in
    ap (λ cs. any (λ o. o.port == port && protocol_eq o.protocol protocol) (conflicts_over db cs))
      (take-eq listed_limit (order_by (λ r. r.port) own)
        (omega (arith, few, length-order_by (λ r. r.port) own)))
    ∙ any-conflicts_over host_id db port protocol (order_by (λ r. r.port) own)
    ∙ any-order_by
        (λ c. (c.port == port && protocol_eq c.protocol protocol) && is_some (conflict_of db c))
        (λ r. r.port) own
    ∙ any-select
        (λ c. (c.port == port && protocol_eq c.protocol protocol) && is_some (conflict_of db c))
        (λ c. c.host_id == h) db.reservations
    ∙ any-congr
        (λ c.
          c.host_id == h
          && ((c.port == port && protocol_eq c.protocol protocol) && is_some (conflict_of db c)))
        (λ c.
          c.host_id == h
          && ((c.port == port && protocol_eq c.protocol protocol)
              && agent_disputes host_id c (agent_view host_id db c)))
        db.reservations own_host
  where
    own_host :
        (c : CentralReservation)
        → (c.host_id == h
            && ((c.port == port && protocol_eq c.protocol protocol) && is_some (conflict_of db c)))
          ≡ (c.host_id == h
              && ((c.port == port && protocol_eq c.protocol protocol)
                  && agent_disputes host_id c (agent_view host_id db c)))
    own_host c = elim (Bool-cases (c.host_id == h)) [
      | inl e ↦
          ap (λ b. c.host_id == h && ((c.port == port && protocol_eq c.protocol protocol) && b))
            (conflict_of-agent host_id db c host
              (ap (λ i. host_by_id i db.hosts) ((==_iff c.host_id h).0 e) ∙ found))
      | inr e ↦ ground (arith, e)
    ]
