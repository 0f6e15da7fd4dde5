-- ===== src/Agent/Records.antt =====
-- The agent's records: `DiscoveredPort` of agent/portforge_agent/models.py, with the fields that
-- evaluation and discovery read, and `Reservation` of agent/portforge_agent/reservations/models.py.
use port_forge.Prelude.{ℕ, String, Option}
use port_forge.Central.Vocabulary.{Protocol, Source}

-- `DiscoveredPort`
pub record Listener : Type 0 where
  pub source : Source
  pub port : ℕ
  pub host_port : Option ℕ
  pub protocol : Protocol
  pub bind_address : String
  pub pid : Option ℕ
  pub process_name : Option String
  pub process_path : Option String
  pub working_directory : Option String
  pub raw_state : Option String
  pub container_id : Option String
  pub container_name : Option String
  pub project_name : Option String

pub record Reservation : Type 0 where
  pub reservation_id : ℕ
  pub host_id : String
  pub port : ℕ
  pub protocol : Protocol
  pub project : String
  pub service : Option String
  pub purpose : Option String
  pub bind_address : Option String
  pub notes : Option String
  pub created_at : ℕ
  pub updated_at : ℕ

-- What a caller asks for.
pub record Claim : Type 0 where
  pub port : ℕ
  pub project : String
  pub protocol : Protocol
  pub service : Option String
  pub purpose : Option String
  pub bind_address : Option String
  pub notes : Option String

-- `Reservation.create`, with the id and the time that it draws.
abbrev pub create : String → Claim → ℕ → ℕ → Reservation
create host_id c id now = record {
  reservation_id = id;
  host_id = host_id;
  port = c.port;
  protocol = c.protocol;
  project = c.project;
  service = c.service;
  purpose = c.purpose;
  bind_address = c.bind_address;
  notes = c.notes;
  created_at = now;
  updated_at = now;
}
