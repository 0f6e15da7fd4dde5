-- ===== src/Central/Canonical.antt =====
-- The canonical observations of a snapshot, one for each binding: `_canonicalize_observations` and
-- what it calls in backend/app/services/ingestion_service.py. Texts compare by code points.
pub mod Groups
pub mod Unique
use port_forge.Prelude.{
  ℕ, zero, suc, ◌-◌, String, Option, none, some, List, [], ◌∷◌, ◌++◌, map, Bool, true, false, not,
  ◌&&◌, ◌||◌, ◌==◌, ltb, leb, find?, length, is_truthy, str_eq, codes, lower_code, or_default,
  text_lt, if◌then◌else◌,
}
use port_forge.Central.Vocabulary.{Protocol, protocol_eq}
use port_forge.Central.Tables.{Observation}

-- The observation has this `_binding_key`.
unfoldable pub has_key : ℕ → Protocol → String → Observation → Bool
has_key port protocol address o =
    o.port == port && (protocol_eq o.protocol protocol && str_eq o.bind_address address)

abbrev pub same_key : Observation → Observation → Bool
same_key a b = has_key a.port a.protocol a.bind_address b

-- `_SOURCE_RANK`
unfoldable pub source_rank : String → ℕ
source_rank source =
    if str_eq source "docker"
    then 2
    else if str_eq source "process"
    then 1
    else if str_eq source "system"
    then 1
    else 0

abbrev lower : String → List ℕ
lower s = map lower_code (codes s)

abbrev same_codes : List ℕ → List ℕ → Bool
same_codes [] [] = true
same_codes [] (_ ∷ _) = false
same_codes (_ ∷ _) [] = false
same_codes (x ∷ xs) (y ∷ ys) = x == y && same_codes xs ys

-- `_CONFIDENCE_RANK`
confidence_of : List ℕ → ℕ
confidence_of c =
    if same_codes c (codes "high")
    then 3
    else if same_codes c (codes "medium")
    then 2
    else if same_codes c (codes "low")
    then 1
    else 0

unfoldable pub confidence_rank : Option String → ℕ
unfolding confidence_of
confidence_rank none = 0
confidence_rank (some c) = if str_eq c "" then 0 else confidence_of (lower c)

abbrev flag : Option String → List ℕ
flag o = (if is_truthy o then 1 else 0) ∷ []

-- `s or ""`
abbrev text_or_empty : Option String → List ℕ
text_or_empty o = codes (or_default o "")

-- `_observation_sort_key`, its numbers as texts of one number.
unfoldable pub observation_sort_key : Observation → List (List ℕ)
unfolding source_rank confidence_rank
observation_sort_key o =
    (source_rank o.source ∷ [])
    ∷ (confidence_rank o.detection_confidence ∷ [])
    ∷ flag o.process_name
    ∷ flag o.container_id
    ∷ flag o.project_name
    ∷ flag o.purpose
    ∷ text_or_empty o.process_name
    ∷ text_or_empty o.container_id
    ∷ text_or_empty o.container_name
    ∷ text_or_empty o.project_name
    ∷ text_or_empty o.category
    ∷ (or_default o.pid 0 ∷ [])
    ∷ []

-- The order of tuples: at the first difference.
unfoldable pub key_lt : List (List ℕ) → List (List ℕ) → Bool
key_lt _ [] = false
key_lt [] (_ ∷ _) = true
key_lt (x ∷ xs) (y ∷ ys) = let rest = key_lt xs ys in if same_codes x y then rest else text_lt x y

-- `sorted(group, key=_observation_sort_key, reverse=True)`, which keeps the order of ties.
unfoldable pub insert_ranked : Observation → List Observation → List Observation
insert_ranked o [] = o ∷ []
insert_ranked o (x ∷ xs) =
    let rest = insert_ranked o xs in
    if key_lt (observation_sort_key o) (observation_sort_key x) then x ∷ rest else o ∷ x ∷ xs

unfoldable pub ranked : List Observation → List Observation
unfolding insert_ranked
ranked [] = []
ranked (o ∷ os) = insert_ranked o (ranked os)

-- `bool(n)` of a number that may be None
abbrev is_nonzero : Option ℕ → Bool
is_nonzero none = false
is_nonzero (some n) = not (n == 0)

-- `_group_has_value` for `_PROCESS_FIELDS`, `_CONTAINER_FIELDS` and `_DETECTION_FIELDS`
abbrev has_process : Observation → Bool
has_process o =
    is_nonzero o.pid
    || (is_truthy o.process_name || (is_truthy o.process_path || is_truthy o.working_directory))

abbrev has_container : Observation → Bool
has_container o =
    is_truthy o.container_id
    || (is_truthy o.container_name
        || (is_truthy o.container_image
            || (is_nonzero o.container_port
                || (is_truthy o.docker_compose_project || is_truthy o.service_name))))

abbrev has_detection : Observation → Bool
has_detection o = is_truthy o.purpose || (is_truthy o.category || is_truthy o.detection_confidence)

-- `_copy_field_group` for each of these
abbrev copy_process : Observation → Observation → Observation
copy_process target source = record target {
  pid = source.pid;
  process_name = source.process_name;
  process_path = source.process_path;
  working_directory = source.working_directory;
}

abbrev copy_container : Observation → Observation → Observation
copy_container target source = record target {
  container_id = source.container_id;
  container_name = source.container_name;
  container_image = source.container_image;
  container_port = source.container_port;
  docker_compose_project = source.docker_compose_project;
  service_name = source.service_name;
}

abbrev copy_detection : Observation → Observation → Observation
copy_detection target source = record target {
  purpose = source.purpose;
  category = source.category;
  detection_confidence = source.detection_confidence;
}

abbrev copy_project : Observation → Observation → Observation
copy_project target source = record target { project_name = source.project_name }

-- One group of fields, taken from the first runner-up that has a value in it, if the target has none.
abbrev copied :
    (Observation → Observation → Observation) → Observation → Option Observation → Observation
copied copy target none = target
copied copy target (some source) = copy target source

abbrev backfill :
    (Observation → Bool)
    → (Observation → Observation → Observation)
    → List Observation
    → Observation
    → Observation
backfill has_value copy runners target =
    if has_value target then target else copied copy target (find? has_value runners)

abbrev earliest : ℕ → List Observation → ℕ
earliest t [] = t
earliest t (o ∷ os) = earliest (if ltb o.first_seen t then o.first_seen else t) os

abbrev latest_seen : ℕ → List Observation → ℕ
latest_seen t [] = t
latest_seen t (o ∷ os) = latest_seen (if ltb t o.last_seen then o.last_seen else t) os

merge_ranked : Observation → List Observation → List Observation → Observation
merge_ranked first rest [] = first
merge_ranked first rest (primary ∷ runners) =
    let merged =
      backfill (λ o. is_truthy o.project_name) copy_project runners
        (backfill has_detection copy_detection runners (
          backfill has_container copy_container runners
            (backfill has_process copy_process runners primary))) in
    record merged {
      first_seen = earliest first.first_seen rest;
      last_seen = latest_seen first.last_seen rest;
    }

-- `_merge_observation_group` of the group `first ∷ rest`
unfoldable pub merge_observation_group : Observation → List Observation → Observation
unfolding ranked merge_ranked
merge_observation_group first rest = merge_ranked first rest (ranked (first ∷ rest))

-- One entry of `groups`: the observations of one key, in order.
pub record Group : Type 0 where
  pub first : Observation
  pub rest : List Observation

-- `groups[key].append(obs)`, with a new group at the end for a new key.
unfoldable pub add_to_groups : Observation → List Group → List Group
unfolding has_key
add_to_groups o [] = record { first = o; rest = [] } ∷ []
add_to_groups o (g ∷ gs) =
    let others = add_to_groups o gs in
    if same_key g.first o then record g { rest = g.rest ++ o ∷ [] } ∷ gs else g ∷ others

unfoldable pub group_all : List Group → List Observation → List Group
unfolding add_to_groups
group_all gs [] = gs
group_all gs (o ∷ os) = group_all (add_to_groups o gs) os

canonical_over : Observation → List Observation → Observation
unfolding merge_observation_group
canonical_over first [] = first
canonical_over first (o ∷ os) = merge_observation_group first (o ∷ os)

unfoldable pub canonical_of : Group → Observation
unfolding canonical_over
canonical_of g = canonical_over g.first g.rest

unfoldable pub canonicalize_observations : List Observation → List Observation × ℕ
unfolding group_all canonical_of
canonicalize_observations observations =
    let canonical = map canonical_of (group_all [] observations) in
    (canonical, length observations - length canonical)
