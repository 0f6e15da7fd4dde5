-- ===== src/Central/Vocabulary.antt =====
-- The value types that agent and central server share: agent/portforge_agent/models.py
-- (`Protocol`, `Source`, `PortState`), and the texts that the server keeps in status columns
-- (backend/app/models), each as a data type.
use port_forge.Prelude.{◌≡◌, refl, ◌↔◌, Bool, true, false, arith}

pub data Protocol : Type 0 where
  tcp udp : Protocol

abbrev pub protocol_eq : Protocol → Protocol → Bool
protocol_eq tcp tcp = true
protocol_eq tcp udp = false
protocol_eq udp tcp = false
protocol_eq udp udp = true

pub protocol_eq_iff : (a b : Protocol) → (protocol_eq a b ≡ true) ↔ (a ≡ b)
protocol_eq_iff a b = ground arith

pub protocol_eq_refl : (a : Protocol) → protocol_eq a a ≡ true
protocol_eq_refl tcp = refl
protocol_eq_refl udp = refl

pub data Source : Type 0 where
  process docker system reservation : Source

pub data PortState : Type 0 where
  active free reserved conflict system_owned : PortState

pub data LifecycleState : Type 0 where
  active decommissioned : LifecycleState

pub data AllocationStatus : Type 0 where
  active released : AllocationStatus

pub data ProbeStatus : Type 0 where
  pending delivered completed failed : ProbeStatus

-- The states of `_AGENT_STATES_ORDER`, then the two other terminal ones.
pub data UpgradeState : Type 0 where
  approved waiting_for_agent downloading verifying installing restarting verifying_health :
      UpgradeState
  succeeded failed rolled_back : UpgradeState

pub data EventType : Type 0 where
  reservation_created reservation_released port_appeared port_disappeared : EventType
  host_online host_decommissioned host_reactivated : EventType

pub data ChangeType : Type 0 where
  appeared changed disappeared : ChangeType
