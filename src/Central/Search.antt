-- ===== src/Central/Search.antt =====
-- The search for a candidate port: `find_available_port` and `suggest_port` of
-- backend/app/services/recommendation_service.py, and `resolve_with_probe_awareness` of
-- backend/app/services/probe_service.py. The texts of `basis` are left out.
pub mod Candidates
pub mod Resolve
use port_forge.Prelude.{
  ℕ, zero, suc, ◌+◌, ◌-◌, String, Option, none, some, List, [], ◌∷◌, ◌++◌, map, Bool, true, false,
  not, ◌&&◌, ◌||◌, ◌==◌, ltb, leb, any, select, length, str_eq, if◌then◌else◌,
}
use port_forge.Central.Vocabulary.{Protocol, protocol_eq}
use port_forge.Central.Tables.{CentralReservation, CurrentPort, Db, Env}
use port_forge.Central.Reservations.{list_for_host}
use port_forge.Central.Probes.{
  BindProbe, not_remote_capable, verified_free, verified_occupied, expired, unavailable,
  any_address, max_probe_skip_attempts, get_probe_evidence, queue_probe,
}

-- `DEFAULT_RANGES`
unfoldable pub default_range : String → Option (ℕ × ℕ)
default_range name =
    if str_eq name "frontend"
    then some (3000, 3999)
    else if str_eq name "api"
    then some (8000, 8999)
    else if str_eq name "postgres"
    then some (5432, 5499)
    else if str_eq name "mysql"
    then some (3306, 3399)
    else if str_eq name "redis"
    then some (6379, 6399)
    else if str_eq name "generic"
    then some (10000, 19999)
    else none

abbrev pub member : ℕ → List ℕ → Bool
member n xs = any (λ m. m == n) xs

-- `sorted` of a set of numbers
abbrev pub insert_sorted : ℕ → List ℕ → List ℕ
insert_sorted n [] = n ∷ []
insert_sorted n (m ∷ ms) =
    let rest = insert_sorted n ms in
    if n == m then m ∷ ms else if ltb n m then n ∷ m ∷ ms else m ∷ rest

abbrev pub sorted_set : List ℕ → List ℕ
sorted_set [] = []
sorted_set (n ∷ ns) = insert_sorted n (sorted_set ns)

pub record CandidateSearchResult : Type 0 where
  pub port : Option ℕ
  pub candidates_considered : ℕ
  pub excluded : List ℕ

abbrev pub row_limit : ℕ
row_limit = 10000

abbrev pub in_range : ℕ → ℕ → ℕ → Bool
in_range start end port = leb start port && leb port end

abbrev pub is_observed : ℕ → ℕ → Protocol → CurrentPort → Bool
is_observed host_id port protocol row =
    row.host_id == host_id && (row.port == port && protocol_eq row.protocol protocol)

abbrev pub is_reserved : ℕ → Protocol → CentralReservation → Bool
is_reserved port protocol r = r.port == port && protocol_eq r.protocol protocol

-- `row.port for row in list_current_for_host(host_id) if start <= row.port <= end and …`
unfoldable pub occupied_ports : ℕ → Protocol → ℕ → ℕ → List CurrentPort → List ℕ
occupied_ports host_id protocol start end rows =
    map (λ row. row.port)
      (select (λ row. in_range start end row.port && protocol_eq row.protocol protocol)
        (select (λ row. row.host_id == host_id) rows))

unfoldable pub reserved_ports : ℕ → Protocol → ℕ → ℕ → List CentralReservation → List ℕ
unfolding list_for_host
reserved_ports host_id protocol start end rows =
    map (λ r. r.port)
      (select (λ r. in_range start end r.port && protocol_eq r.protocol protocol)
        (list_for_host host_id row_limit rows))

-- The loop over `range(start, end + 1)`: the first candidate that is not unavailable, and how many
-- were considered. The second argument is how many candidates are left.
unfoldable pub scan : (ℕ → Bool) → ℕ → ℕ → ℕ → Option ℕ × ℕ
scan is_unavailable zero candidate considered = (none, considered)
scan is_unavailable (suc left) candidate considered =
    let rest = scan is_unavailable left (suc candidate) (suc considered) in
    if is_unavailable candidate then rest else (some candidate, suc considered)

abbrev pub is_unavailable : ℕ → Protocol → List ℕ → ℕ × ℕ → Db → ℕ → Bool
is_unavailable host_id protocol exclude (start, end) db candidate =
    member candidate (occupied_ports host_id protocol start end db.ports)
    || (member candidate (reserved_ports host_id protocol start end db.reservations)
        || member candidate exclude)

unfoldable pub search_range : ℕ → Protocol → List ℕ → ℕ × ℕ → Db → CandidateSearchResult
unfolding scan occupied_ports reserved_ports
search_range host_id protocol exclude (start, end) db =
    let found =
      scan (is_unavailable host_id protocol exclude (start, end) db) (suc end - start) start 0 in
    record {
      port = found.0;
      candidates_considered = found.1;
      excluded = sorted_set (
          occupied_ports host_id protocol start end db.ports
          ++ reserved_ports host_id protocol start end db.reservations);
    }

-- The requested range, or the default one of the service type.
abbrev pub range_of : String → Option (ℕ × ℕ) → Option (ℕ × ℕ)
range_of service_type (some r) = some r
range_of service_type none = default_range service_type

abbrev pub search_option : ℕ → Protocol → List ℕ → Option (ℕ × ℕ) → Db → CandidateSearchResult
search_option host_id protocol exclude none db = record {
  port = none;
  candidates_considered = 0;
  excluded = [];
}
search_option host_id protocol exclude (some range) db =
    search_range host_id protocol exclude range db

unfoldable pub find_available_port :
    ℕ → String → Protocol → List ℕ → Option (ℕ × ℕ) → Db → CandidateSearchResult
unfolding search_range default_range
find_available_port host_id service_type protocol exclude requested_range db =
    search_option host_id protocol exclude (range_of service_type requested_range) db

-- One turn of the loop of `resolve_with_probe_awareness` for the candidate `port`, by the evidence
-- for it; `again` is the rest of the loop after the port has been excluded. What comes back is the
-- result, its `bind_probe`, and the database with a probe that was perhaps queued.
abbrev pub Resolved : Type 0
Resolved = CandidateSearchResult × BindProbe × Db

by_evidence : Env → ℕ → Protocol → ℕ → CandidateSearchResult → Db → Resolved → BindProbe → Resolved
by_evidence env host_id protocol port result db again verified_occupied = again
by_evidence env host_id protocol port result db again verified_free = (result, verified_free, db)
by_evidence env host_id protocol port result db again not_remote_capable =
    (result, not_remote_capable, (queue_probe env host_id port protocol any_address db).1)
by_evidence env host_id protocol port result db again expired =
    (result, expired, (queue_probe env host_id port protocol any_address db).1)
by_evidence env host_id protocol port result db again unavailable =
    (result, unavailable, (queue_probe env host_id port protocol any_address db).1)

-- The loop, over the attempts that are left.
resolve_loop :
    Env
    → ℕ
    → Protocol
    → (List ℕ → CandidateSearchResult)
    → ℕ
    → List ℕ
    → CandidateSearchResult
    → Db
    → Resolved
unfolding by_evidence
resolve_loop env host_id protocol refine zero exclude result db = (result, not_remote_capable, db)
resolve_loop env host_id protocol refine (suc attempts) exclude result db = elim result.port [
  | none ↦ (result, not_remote_capable, db)
  | some port ↦
      let again =
        resolve_loop env host_id protocol refine attempts (port ∷ exclude) (refine (port ∷ exclude))
          db in
      by_evidence env host_id protocol port result db again
        (get_probe_evidence env host_id port protocol any_address db)
]

unfoldable pub resolve_with_probe_awareness :
    Env
    → ℕ
    → Protocol
    → CandidateSearchResult
    → (List ℕ → CandidateSearchResult)
    → Db
    → CandidateSearchResult × BindProbe × Db
unfolding resolve_loop get_probe_evidence queue_probe
resolve_with_probe_awareness env host_id protocol initial refine db =
    resolve_loop env host_id protocol refine max_probe_skip_attempts [] initial db

pub data Verification : Type 0 where
  central_suggestion locally_verified : Verification

pub record CentralRecommendationOut : Type 0 where
  pub recommended_port : Option ℕ
  pub verification : Verification
  pub bind_probe : BindProbe
  pub candidates_considered : ℕ
  pub known_conflicts_excluded : List ℕ

abbrev verification_of : BindProbe → Verification
verification_of verified_free = locally_verified
verification_of _ = central_suggestion

suggest_in : Env → ℕ → String → Protocol → Option (ℕ × ℕ) → Db → CentralRecommendationOut × Db
unfolding resolve_with_probe_awareness find_available_port
suggest_in env host_id service_type protocol none db = (
  record {
    recommended_port = none;
    verification = central_suggestion;
    bind_probe = not_remote_capable;
    candidates_considered = 0;
    known_conflicts_excluded = [];
  },
  db,
)
suggest_in env host_id service_type protocol (some range) db =
    let (result, bind_probe, db') =
      resolve_with_probe_awareness env host_id protocol
        (find_available_port host_id service_type protocol [] none db)
        (λ exclude. find_available_port host_id service_type protocol exclude none db) db in
    (
      record {
        recommended_port = result.port;
        verification = verification_of bind_probe;
        bind_probe = bind_probe;
        candidates_considered = result.candidates_considered;
        known_conflicts_excluded = result.excluded;
      },
      db',
    )

unfoldable pub suggest_port : Env → ℕ → String → Protocol → Db → CentralRecommendationOut × Db
unfolding suggest_in
suggest_port env host_id service_type protocol db =
    suggest_in env host_id service_type protocol (default_range service_type) db
