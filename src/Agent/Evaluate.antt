-- ===== src/Agent/Evaluate.antt =====
-- The evaluation of a port from live discovery and reservations: agent/portforge_agent/evaluate.py.
-- The text of `conflict_reason` is kept as its parts.
pub mod States
pub mod Slots
use port_forge.Prelude.{
  ℕ, ◌+◌, ◌*◌, String, Option, none, some, List, [], ◌∷◌, map, Bool, true, false, not, ◌&&◌, ◌||◌,
  ◌==◌, ltb, find?, or_default, is_truthy, opt_str_eq, str_eq, normalize, codes_eq, if◌then◌else◌,
}
use port_forge.Central.Vocabulary.{
  Protocol, protocol_eq, tcp, udp, Source, PortState, active, free, reserved, conflict,
  system_owned,
}
use port_forge.Agent.Records.{Listener, Reservation}

-- `_project_matches`
unfoldable pub project_matches : Option String → String → Bool
project_matches none reserved_for = false
project_matches (some p) reserved_for =
    if str_eq p "" then false else codes_eq (normalize p) (normalize reserved_for)

-- The test of `find_reservation` on the address: either side may be any address.
abbrev pub address_matches : Option String → Option String → Bool
address_matches none _ = true
address_matches (some _) none = true
address_matches (some a) (some b) = str_eq a b

-- A reservation of the binding (host, port, protocol).
abbrev pub is_for : String → ℕ → Protocol → Reservation → Bool
is_for host_id port protocol r =
    str_eq r.host_id host_id && (r.port == port && protocol_eq r.protocol protocol)

abbrev pub find_reservation :
    List Reservation → String → ℕ → Protocol → Option String → Option Reservation
find_reservation rows host_id port protocol address =
    find? (λ r. is_for host_id port protocol r && address_matches r.bind_address address) rows

-- `host_port if host_port is not None else port`
abbrev pub logical_port : Listener → ℕ
logical_port d = or_default d.host_port d.port

abbrev pub listens_on : ℕ → Protocol → Listener → Bool
listens_on port protocol d = logical_port d == port && protocol_eq d.protocol protocol

abbrev pub find_discovered : List Listener → ℕ → Protocol → Option Listener
find_discovered discovered port protocol = find? (listens_on port protocol) discovered

-- The parts of `conflict_reason`; without an owner the text says "an unrecognized owner".
pub record ConflictReason : Type 0 where
  pub project : String
  pub service : Option String
  pub owner : Option String

pub record EvaluatedPort : Type 0 where
  pub host_id : String
  pub port : ℕ
  pub protocol : Protocol
  pub state : PortState
  pub discovered : Option Listener
  pub reservation : Option Reservation
  pub conflict_reason : Option ConflictReason

-- `a or b`
abbrev truthy_or : Option String → Option String → Option String
truthy_or a b = if is_truthy a then a else b

abbrev owner_of : Listener → Option String
owner_of d = truthy_or d.project_name (truthy_or d.container_name (truthy_or d.process_name none))

abbrev is_system : Source → Bool
is_system Source.system = true
is_system Source.process = false
is_system Source.docker = false
is_system Source.reservation = false

unfoldable pub evaluate_port :
    String → ℕ → Protocol → Option Listener → Option Reservation → EvaluatedPort
unfolding project_matches
evaluate_port host_id port protocol none none = record {
  host_id = host_id;
  port = port;
  protocol = protocol;
  state = free;
  discovered = none;
  reservation = none;
  conflict_reason = none;
}
evaluate_port host_id port protocol none (some r) = record {
  host_id = host_id;
  port = port;
  protocol = protocol;
  state = reserved;
  discovered = none;
  reservation = some r;
  conflict_reason = none;
}
evaluate_port host_id port protocol (some d) none = record {
  host_id = host_id;
  port = port;
  protocol = protocol;
  state = (if is_system d.source then system_owned else active);
  discovered = some d;
  reservation = none;
  conflict_reason = none;
}
evaluate_port host_id port protocol (some d) (some r) =
    if is_system d.source
    then record {
      host_id = host_id;
      port = port;
      protocol = protocol;
      state = system_owned;
      discovered = some d;
      reservation = some r;
      conflict_reason = none;
    }
    else if project_matches d.project_name r.project
    then record {
      host_id = host_id;
      port = port;
      protocol = protocol;
      state = active;
      discovered = some d;
      reservation = some r;
      conflict_reason = none;
    }
    else record {
      host_id = host_id;
      port = port;
      protocol = protocol;
      state = conflict;
      discovered = some d;
      reservation = some r;
      conflict_reason =
          some (record { project = r.project; service = r.service; owner = owner_of d });
    }

-- A key (protocol, port), in the order of `sorted(keys, key=lambda k: (k[1], k[0].value))`.
abbrev pub rank : Protocol × ℕ → ℕ
rank (tcp, port) = 2 * port
rank (udp, port) = 2 * port + 1

abbrev pub insert_key : Protocol × ℕ → List (Protocol × ℕ) → List (Protocol × ℕ)
insert_key k [] = k ∷ []
insert_key k (x ∷ keys) =
    let rest = insert_key k keys in
    if rank k == rank x then x ∷ keys else if ltb (rank k) (rank x) then k ∷ x ∷ keys else x ∷ rest

abbrev pub discovered_keys : List Listener → List (Protocol × ℕ) → List (Protocol × ℕ)
discovered_keys [] keys = keys
discovered_keys (d ∷ ds) keys = insert_key (d.protocol, logical_port d) (discovered_keys ds keys)

abbrev pub reserved_keys : String → List Reservation → List (Protocol × ℕ)
reserved_keys host_id [] = []
reserved_keys host_id (r ∷ rs) =
    let rest = reserved_keys host_id rs in
    if str_eq r.host_id host_id then insert_key (r.protocol, r.port) rest else rest

abbrev pub evaluate_key : String → List Listener → List Reservation → Protocol × ℕ → EvaluatedPort
unfolding evaluate_port
evaluate_key host_id discovered rows (protocol, port) =
    evaluate_port host_id port protocol (find_discovered discovered port protocol)
      (find_reservation rows host_id port protocol none)

unfoldable pub evaluate_all : String → List Listener → List Reservation → List EvaluatedPort
evaluate_all host_id discovered rows =
    map (evaluate_key host_id discovered rows)
      (discovered_keys discovered (reserved_keys host_id rows))

unfoldable pub evaluate_physical : String → Listener → List Reservation → EvaluatedPort
unfolding evaluate_port
evaluate_physical host_id d rows =
    evaluate_port host_id (logical_port d) d.protocol (some d)
      (find_reservation rows host_id (logical_port d) d.protocol (some d.bind_address))
