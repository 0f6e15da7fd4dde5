-- ===== src/Agent/Recommend.antt =====
-- Port recommendation: agent/portforge_agent/recommend.py, with `SequentialStrategy`, and the ranges
-- and exclusions of agent/portforge_agent/config.py. The answer of a socket bind (`probe_bind`) is
-- the operating system's, a parameter. The details of the validation steps are left out.
pub mod Sequence
pub mod Exclusive
use port_forge.Prelude.{
  ℕ, zero, suc, ◌+◌, ◌-◌, String, Option, none, some, List, [], ◌∷◌, ◌++◌, Bool, true, false, ◌&&◌,
  leb, any, str_eq, if◌then◌else◌,
}
use port_forge.Central.Vocabulary.{Protocol}
use port_forge.Agent.Records.{Listener, Reservation, Claim, create}
use port_forge.Agent.Evaluate.{find_discovered, find_reservation}
use port_forge.Agent.Reserve.{Run}

-- `PortRange` and `Exclusion`, by their bounds, both included.
abbrev pub contains : ℕ × ℕ → ℕ → Bool
contains (start, end) port = leb start port && leb port end

pub record PortForgeConfig : Type 0 where
  pub ranges : List (String × (ℕ × ℕ))
  pub exclusions : List (ℕ × ℕ)

unfoldable pub is_excluded : PortForgeConfig → ℕ → Bool
is_excluded config port = any (λ e. contains e port) config.exclusions

lookup_range : List (String × (ℕ × ℕ)) → String → Option (ℕ × ℕ)
lookup_range [] name = none
lookup_range ((key, range) ∷ ranges) name =
    let rest = lookup_range ranges name in if str_eq key name then some range else rest

unfoldable pub range_for : PortForgeConfig → String → Option (ℕ × ℕ)
unfolding lookup_range
range_for config service_type = lookup_range config.ranges service_type

-- `DEFAULT_RANGES`
abbrev pub default_ranges : List (String × (ℕ × ℕ))
default_ranges =
    ("frontend", (3000, 3999))
    ∷ ("api", (8000, 8999))
    ∷ ("postgres", (5432, 5499))
    ∷ ("mysql", (3306, 3399))
    ∷ ("redis", (6379, 6399))
    ∷ ("generic", (10000, 19999))
    ∷ []

-- The step that a candidate fails, or that it passes them all.
pub data Verdict : Type 0 where
  excluded listening reserved unbindable accepted : Verdict

-- What validation looks at: the configuration, what discovery saw, the reservations, and the bind
-- probe at the address.
pub record Layers : Type 0 where
  pub config : PortForgeConfig
  pub discovered : List Listener
  pub rows : List Reservation
  pub host_id : String
  pub protocol : Protocol
  pub bindable : ℕ → Bool

verdict_of : Bool → Option Listener → Option Reservation → Bool → Verdict
verdict_of true _ _ _ = excluded
verdict_of false (some d) _ _ = listening
verdict_of false none (some r) _ = reserved
verdict_of false none none true = accepted
verdict_of false none none false = unbindable

-- The body of the loop on one candidate.
unfoldable pub validate : Layers → ℕ → Verdict
unfolding is_excluded verdict_of
validate l candidate =
    verdict_of (is_excluded l.config candidate) (find_discovered l.discovered candidate l.protocol)
      (find_reservation l.rows l.host_id candidate l.protocol none) (l.bindable candidate)

abbrev is_accepted : Verdict → Bool
is_accepted accepted = true
is_accepted excluded = false
is_accepted listening = false
is_accepted reserved = false
is_accepted unbindable = false

-- The loop over `n` candidates from `c`, with the number that has been tried.
walk : Layers → ℕ → ℕ → ℕ → Option ℕ × ℕ
unfolding validate
walk l zero c tried = (none, tried)
walk l (suc n) c tried =
    let rest = walk l n (suc c) (suc tried) in
    if is_accepted (validate l c) then (some c, suc tried) else rest

pub record RecommendationResult : Type 0 where
  pub recommended_port : Option ℕ
  pub candidates_tried : ℕ
  pub unknown_service_type : Bool

abbrev recommendation : Option ℕ × ℕ → RecommendationResult
recommendation (port, tried) = record {
  recommended_port = port;
  candidates_tried = tried;
  unknown_service_type = false;
}

-- `range(start, end + 1)` has `end + 1 - start` numbers, none if the range is empty.
recommend_in : Layers → Option (ℕ × ℕ) → RecommendationResult
unfolding walk
recommend_in l none = record {
  recommended_port = none;
  candidates_tried = 0;
  unknown_service_type = true;
}
recommend_in l (some (start, end)) = recommendation (walk l (suc end - start) start 0)

unfoldable pub recommend_port : Layers → String → RecommendationResult
unfolding range_for recommend_in
recommend_port l service_type = recommend_in l (range_for l.config service_type)

pub record RecommendRequest : Type 0 where
  pub service_type : String
  pub project : String
  pub service : Option String
  pub purpose : Option String
  pub protocol : Protocol
  pub notes : Option String

abbrev pub claim_of : RecommendRequest → ℕ → Claim
claim_of q port = record {
  port = port;
  project = q.project;
  protocol = q.protocol;
  service = q.service;
  purpose = q.purpose;
  bind_address = none;
  notes = q.notes;
}

abbrev pub layers_of :
    PortForgeConfig → (ℕ → Bool) → Run → RecommendRequest → List Reservation → Layers
layers_of config bindable run q rows = record {
  config = config;
  discovered = run.discovered;
  rows = rows;
  host_id = run.host_id;
  protocol = q.protocol;
  bindable = bindable;
}

reserve_recommended :
    Run → RecommendRequest → List Reservation → Option ℕ → Option Reservation × List Reservation
reserve_recommended run q rows none = (none, rows)
reserve_recommended run q rows (some port) =
    let r = create run.host_id (claim_of q port) run.new_id run.now in (some r, rows ++ r ∷ [])

-- `recommend_and_reserve`: the recommendation, the reservation, and the file that it leaves.
unfoldable pub recommend_and_reserve :
    PortForgeConfig
    → (ℕ → Bool)
    → Run
    → RecommendRequest
    → List Reservation
    → RecommendationResult × (Option Reservation × List Reservation)
unfolding recommend_port reserve_recommended
recommend_and_reserve config bindable run q rows =
    let result = recommend_port (layers_of config bindable run q rows) q.service_type in
    (result, reserve_recommended run q rows result.recommended_port)
