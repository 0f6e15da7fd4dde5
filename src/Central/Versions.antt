-- ===== src/Central/Versions.antt =====
-- Version comparison: backend/app/services/version_compare.py, and the protocol check of
-- backend/app/services/compatibility_service.py. `packaging.version` is the parameter `Versions`.
use port_forge.Prelude.{ℕ, String, Option, none, some, Bool, ◌==◌, is_truthy, if◌then◌else◌}

-- `Version(text)`, with `none` for InvalidVersion, and the order of versions.
pub record Versions : Type 1 where
  pub Version : Type 0
  pub parse : String → Option Version
  pub lt : Version → Version → Bool
  pub eq : Version → Version → Bool

pub data Comparison : Type 0 where
  less same greater : Comparison

module _ (v : Versions) where
  abbrev compare_parsed : Option v.Version → Option v.Version → Comparison
  compare_parsed (some a) (some b) = if v.lt a b then less else if v.lt b a then greater else same
  compare_parsed none _ = same
  compare_parsed (some _) none = same

  unfoldable pub compare_versions : String → String → Comparison
  compare_versions a b = compare_parsed (v.parse a) (v.parse b)

pub data Availability : Type 0 where
  current update_available unknown unsupported : Availability

module _ (v : Versions) where
  abbrev availability_of : Option v.Version → Option v.Version → Availability
  availability_of (some a) (some t) =
      if v.eq a t then current else if v.lt a t then update_available else unsupported
  availability_of none _ = unknown
  availability_of (some _) none = unknown

  abbrev known_availability : Option String → Option String → Availability
  known_availability (some a) (some t) = availability_of (v.parse a) (v.parse t)
  known_availability none _ = unknown
  known_availability (some _) none = unknown

  unfoldable pub update_availability : Option String → Option String → Availability
  update_availability agent target =
      if is_truthy agent
      then (if is_truthy target then known_availability agent target else unknown)
      else unknown

pub data Compatibility : Type 0 where
  compatible warning unknown : Compatibility

abbrev pub protocol_version : ℕ
protocol_version = 1

unfoldable pub evaluate_protocol_compatibility : Option ℕ → Compatibility
evaluate_protocol_compatibility none = Compatibility.unknown
evaluate_protocol_compatibility (some n) = if n == protocol_version then compatible else warning
